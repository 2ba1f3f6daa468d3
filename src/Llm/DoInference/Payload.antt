-- ===== src/Llm/DoInference/Payload.antt =====
-- The JSON that the client of src/shadow_proxy/llm/do_inference.py posts.
use llm_shadow_proxy.Base.{
  ◌≡◌, refl, ap, ◌∙◌, Bool, true, false, Option, none, some, arith, if◌then◌else◌, Option-cases,
  inl, inr,
}
use llm_shadow_proxy.Base.Text.{Text, codes, text_eq}
use llm_shadow_proxy.Base.Text.Laws.{text_eq_iff}
use llm_shadow_proxy.Base.Json.{
  Value, null, bool, num, str, arr, obj, Fields, end, field, get_field, set_field,
}
use llm_shadow_proxy.Base.Json.Laws.{get_field-set_field}
use llm_shadow_proxy.Llm.{ChatRequest}

-- `payload[key] = v`, if `v` is not `None`.
abbrev set_given : Text → Value → Fields → Fields
set_given key null payload = payload
set_given key v payload = set_field key v payload

-- `payload.setdefault(key, v)`
unfoldable pub setdefault : Text → Value → Fields → Fields
setdefault key v payload = elim (get_field key payload) [
  | none ↦ set_field key v payload
  | some _ ↦ payload
]

-- The part of the payload that the fields of the request make.
unfoldable pub own_payload : ChatRequest → Fields
own_payload req = set_given (codes "max_completion_tokens") req.max_completion_tokens (
    set_given (codes "temperature") req.temperature
      (field (codes "model") (str req.model) (field (codes "messages") req.messages end)))

unfoldable pub add_extra : Fields → Fields → Fields
add_extra end payload = payload
add_extra (field k v extra) payload = add_extra extra (setdefault k v payload)

-- The payload of a request, with its `extra`.
unfoldable pub request_payload : ChatRequest → Fields → Fields
request_payload req extra = add_extra extra (own_payload req)

abbrev pub or_extra : Option Value → Option Value → Option Value
or_extra (some v) later = some v
or_extra none later = later

get_field-setdefault :
    (j k : Text) (v : Value) (fs : Fields)
    → get_field j (setdefault k v fs)
      ≡ or_extra (get_field j fs) (if text_eq j k then some v else none)
unfolding setdefault
get_field-setdefault j k v fs = elim (Option-cases (get_field k fs)) [
  | inl absent ↦ ground (arith, get_field-set_field j k v fs, text_eq_iff j k)
  | inr (w, has) ↦ ground (arith, text_eq_iff j k)
]

get_field-add_extra :
    (key : Text) (extra fs : Fields)
    → get_field key (add_extra extra fs) ≡ or_extra (get_field key fs) (get_field key extra)
unfolding add_extra get_field
get_field-add_extra key end fs = ground arith
get_field-add_extra key (field k v extra) fs =
    ground
      (arith, get_field-add_extra key extra (setdefault k v fs), get_field-setdefault key k v fs)

-- A value that is posted, unless it is `None`.
abbrev pub given : Value → Option Value
given null = none
given v = some v

get_field-set_given :
    (j k : Text) (v : Value) (fs : Fields)
    → get_field j (set_given k v fs)
      ≡ or_extra (if text_eq j k then given v else none) (get_field j fs)
get_field-set_given j k null fs = ground arith
get_field-set_given j k (bool b) fs = ground (arith, get_field-set_field j k (bool b) fs)
get_field-set_given j k (num n) fs = ground (arith, get_field-set_field j k (num n) fs)
get_field-set_given j k (str s) fs = ground (arith, get_field-set_field j k (str s) fs)
get_field-set_given j k (arr vs) fs = ground (arith, get_field-set_field j k (arr vs) fs)
get_field-set_given j k (obj gs) fs = ground (arith, get_field-set_field j k (obj gs) fs)

apart : (j a b : Text) → text_eq a b ≡ false → text_eq j a ≡ true → text_eq j b ≡ false
apart j a b h same = ground (arith, text_eq_iff j a, text_eq_iff j b, text_eq_iff a b)

-- Four tests of a key of which one can hold at most.
choose :
    (is_model is_messages is_temperature is_limit : Bool) (model messages : Value)
    (temperature limit : Option Value)
    → (is_model ≡ true → is_temperature ≡ false)
    → (is_model ≡ true → is_limit ≡ false)
    → (is_messages ≡ true → is_temperature ≡ false)
    → (is_messages ≡ true → is_limit ≡ false)
    → (is_temperature ≡ true → is_limit ≡ false)
    → or_extra (if is_limit then limit else none) (
        or_extra
          (if is_temperature then temperature else none)
          (if is_model then some model else (if is_messages then some messages else none)))
      ≡ (if is_model
          then some model
          else (if is_messages
              then some messages
              else (if is_temperature then temperature else (if is_limit then limit else none))))
choose m s t l model messages none none a b c d e = ground arith
choose m s t l model messages none (some w) a b c d e = ground arith
choose m s t l model messages (some v) none a b c d e = ground arith
choose m s t l model messages (some v) (some w) a b c d e = ground arith

abbrev temperature_key : Text
temperature_key = codes "temperature"

abbrev limit_key : Text
limit_key = codes "max_completion_tokens"

keys_differ :
    (text_eq (codes "model") temperature_key ≡ false)
    × (text_eq (codes "model") limit_key ≡ false)
    × (text_eq (codes "messages") temperature_key ≡ false)
    × (text_eq (codes "messages") limit_key ≡ false)
    × (text_eq temperature_key limit_key ≡ false)
unfolding text_eq
keys_differ = (refl, refl, refl, refl, refl)

-- What the request itself puts under a key.
abbrev pub own_field : ChatRequest → Text → Option Value
own_field req key =
    if text_eq key (codes "model")
    then some (str req.model)
    else (if text_eq key (codes "messages")
        then some req.messages
        else (if text_eq key temperature_key
            then given req.temperature
            else (if text_eq key limit_key then given req.max_completion_tokens else none)))

get_field-own_payload :
    (req : ChatRequest) (key : Text) → get_field key (own_payload req) ≡ own_field req key
unfolding own_payload get_field
get_field-own_payload req key =
    let first = field (codes "model") (str req.model) (field (codes "messages") req.messages end) in
    let (a, b, c, d, e) = keys_differ in
    get_field-set_given key limit_key req.max_completion_tokens
      (set_given temperature_key req.temperature first)
    ∙ ap (or_extra (if text_eq key limit_key then given req.max_completion_tokens else none))
        (get_field-set_given key temperature_key req.temperature first)
    ∙ choose (text_eq key (codes "model")) (text_eq key (codes "messages"))
        (text_eq key temperature_key) (text_eq key limit_key) (str req.model) req.messages
        (given req.temperature) (given req.max_completion_tokens)
        (apart key (codes "model") temperature_key a) (apart key (codes "model") limit_key b)
        (apart key (codes "messages") temperature_key c) (apart key (codes "messages") limit_key d)
        (apart key temperature_key limit_key e)

-- The posted JSON has the request's model and messages whatever `extra` holds, its temperature and its
-- limit of tokens where they are given, and under any other key, or where they are not given, what
-- `extra` holds there.
pub request_payload_lem :
    (req : ChatRequest) (extra : Fields) (key : Text)
    → get_field key (request_payload req extra) ≡ or_extra (own_field req key) (get_field key extra)
unfolding request_payload
request_payload_lem req extra key =
    get_field-add_extra key extra (own_payload req)
    ∙ ap (λ own. or_extra own (get_field key extra)) (get_field-own_payload req key)
