-- ===== src/Pipeline/Payloads.antt =====
-- The archived payload in `CandidateHandler` of src/shadow_proxy/pipeline.py: how it is loaded, what
-- the candidate's request and the primary content are read from, and the merge of the response.
use llm_shadow_proxy.Base.{ℕ, Bool, Option, none, some, [], if◌then◌else◌}
use llm_shadow_proxy.Base.Text.{Text, codes, is_empty}
use llm_shadow_proxy.Base.Json.{
  Value, null, str, arr, obj, nil, cons, end, get_field, set_field, truthy,
}
use llm_shadow_proxy.Evaluator.{Python, JsonActionEvaluator}
use llm_shadow_proxy.Raw
use llm_shadow_proxy.Llm.{ChatRequest, Answer}
use llm_shadow_proxy.Pipeline.World.{
  raw_get, store_failures_total, World, Ending, returned, raised, observe,
}

-- The constructor's arguments, of the route only the model ids.
pub record CandidateHandler : Type 0 where
  pub python : Python
  pub evaluator : JsonActionEvaluator
  pub primary_model_id : Text
  pub candidate_model_id : Text
  pub route_name : Text

-- What the surroundings do during one call of the handler: whether each access to the database and
-- the archive succeeds, whether `ChatRequest` accepts its fields, the model's answer, the clock.
pub record Surroundings : Type 0 where
  pub get_up : Bool
  pub mark_up : Bool
  pub finalize_up : Bool
  pub load_up : Bool
  pub merge_get_up : Bool
  pub merge_put_up : Bool
  pub accepts : ChatRequest → Bool
  pub answer : ChatRequest → Answer
  pub latency_ms : ℕ
  pub marked_at : ℕ
  pub finalized_at : ℕ
  pub merge_day : Text

-- The payload that `_load_request_body` returns where it has nothing else.
abbrev pub no_body : Value
no_body = obj end

-- The archived payload under a key that may be missing or empty, in an archive that may be missing.
abbrev pub archived : Option Text → Option Raw.Files → Option (Text × Raw.Files)
archived none files = none
archived (some key) none = none
archived (some key) (some files) = if is_empty key then none else some (key, files)

abbrev pub fetched : Bool → Text → Raw.Files → Option Value
fetched up key files = if up then Raw.get key files else none

unfoldable pub load_request_body : Surroundings → Option Text → World → Value × World
load_request_body env object_key w = elim (archived object_key w.raw) [
  | none ↦ (no_body, w)
  | some (key, files) ↦ elim (fetched env.load_up key files) [
    | some payload ↦ (payload, w)
    | none ↦ (no_body, observe (store_failures_total raw_get) w)
  ]
]

-- `v.get(key, default)`; `none` is the `AttributeError` of a value that is no dictionary.
abbrev pub get_or : Text → Value → Value → Option Value
get_or key default (obj fs) = elim (get_field key fs) [ none ↦ some default | some v ↦ some v ]
get_or key default _ = none

-- `request_body.get("request", {})`
abbrev pub request_part : Value → Option Value
request_part body = get_or (codes "request") (obj end) body

abbrev pub request_of : Text → Value → Option ChatRequest
request_of model (obj fs) = some (record {
  model = model;
  messages = elim (get_field (codes "messages") fs) [ none ↦ arr nil | some v ↦ v ];
  temperature = elim (get_field (codes "temperature") fs) [ none ↦ null | some v ↦ v ];
  max_completion_tokens = elim (get_field (codes "max_completion_tokens") fs) [
    | none ↦ null
    | some v ↦ v
  ];
})
request_of model _ = none

-- The `ChatRequest` of the handler; `none` is the `AttributeError` of a body that is no dictionary.
unfoldable pub build_request : CandidateHandler → Value → Option ChatRequest
build_request h body = elim (request_part body) [
  | none ↦ none
  | some part ↦ request_of h.candidate_model_id part
]

-- `v[key]` and `v[0]`; `none` is a `KeyError`, an `IndexError` or a `TypeError`. The first character
-- of a string is left out, since the `[key]` behind it raises a `TypeError` all the same.
abbrev index_key : Text → Option Value → Option Value
index_key key (some (obj fs)) = get_field key fs
index_key key _ = none

abbrev index_first : Option Value → Option Value
index_first (some (arr (cons v vs))) = some v
index_first _ = none

-- `resp["choices"][0]["message"]["content"]`
unfoldable pub message_content : Value → Option Value
message_content resp =
    index_key (codes "content")
      (index_key (codes "message") (index_first (index_key (codes "choices") (some resp))))

-- `v or default`
abbrev or_else : Value → Value → Value
or_else v default = if truthy v then v else default

-- `_primary_content_from_raw`; `none` is the `AttributeError` of a body that is no dictionary.
unfoldable pub primary_content_from_raw : Value → Option Value
primary_content_from_raw body = elim (get_or (codes "primary_response") null body) [
  | none ↦ none
  | some resp ↦ elim (message_content (or_else resp (obj end))) [
    | none ↦ some (str [])
    | some content ↦ some (or_else content (str []))
  ]
]

abbrev pub put_response : Value → Value → Option Value
put_response response (obj fs) = some (obj (set_field (codes "candidate_response") response fs))
put_response response _ = none

-- `_merge_candidate_into_raw`: the payload is read under the old key and put under the key of the
-- day of the merge. A payload that is no dictionary raises a `TypeError`.
unfoldable pub merge_candidate_into_raw :
    Surroundings → Option Text → Value → World → World × Ending
merge_candidate_into_raw env object_key response w = elim (archived object_key w.raw) [
  | none ↦ (w, returned)
  | some (key, files) ↦ elim (fetched env.merge_get_up key files) [
    | none ↦ (w, returned)
    | some payload ↦ elim (put_response response payload) [
      | none ↦ (w, raised)
      | some merged ↦ (
        (if env.merge_put_up
            then record w {
              raw = some (Raw.put env.merge_day (Raw.request_id_of_key key) merged files).1;
            }
            else w),
        returned,
      )
    ]
  ]
]
