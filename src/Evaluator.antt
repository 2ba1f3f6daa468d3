-- ===== src/Evaluator.antt =====
-- src/shadow_proxy/evaluator/base.py and json_action.py: the verdicts, and the comparator of two
-- model outputs. `Python` stands for what the interpreter's library supplies.
pub mod Fence
pub mod Verdicts
use llm_shadow_proxy.Base.{
  ℕ, ◌+◌, Bool, true, false, ◌&&◌, ◌||◌, ◌==◌, Option, none, some, List, [], ◌∷◌, ◌++◌,
  if◌then◌else◌,
}
use llm_shadow_proxy.Base.Text.{Text, codes, text_eq, is_empty, lstrip, strip, behind}
use llm_shadow_proxy.Base.Json.{Value, null, bool, num, str, arr, obj, get_field}
use mathlib.Core.Option

pub data Verdict : Type 0 where
  pending match mismatch invalid_json candidate_error primary_error : Verdict

pub record EvaluationResult : Type 0 where
  pub verdict : Verdict
  pub reasons : List Text
  pub primary_action : Option Text
  pub candidate_action : Option Text

-- What `json.loads` does: it returns a value, or raises `JSONDecodeError` with its `msg`. Its other
-- exceptions (`ValueError` on an integer of more than 4300 digits, `RecursionError` on nesting that is too
-- deep), which neither `_parse` nor `extract_action` catches, are left out.
pub data Loaded : Type 0 where
  loaded : Value → Loaded
  decode_error : Text → Loaded

-- `json.loads`, `str.lower`, and `repr` of a value.
pub record Python : Type 0 where
  pub loads : Text → Loaded
  pub lower : Text → Text
  pub repr : Value → Text

-- The constructor's keyword arguments.
pub record JsonActionEvaluator : Type 0 where
  pub compare_key : Text
  pub require_json : Bool
  pub normalize : Text

-- `_FENCE_RE`: white space, three backticks, `json` in any case or nothing, white space, a body as
-- short as can be, white space, three backticks, and white space to the end. The parts of `\s*` and
-- `(?:json)?` need no backtracking, since neither a backtick nor a letter of `json` is white space.
abbrev pub fence : Text
fence = codes "```"

-- One letter under `re.IGNORECASE`; U+017F folds to `s`.
abbrev letter : ℕ → ℕ → Bool
letter l c = c == l || c + 32 == l || (l == b's' && c == 0x17f)

unfoldable pub drop_json : Text → Text
drop_json (a ∷ b ∷ c ∷ d ∷ s) =
    if letter b'j' a && letter b's' b && letter b'o' c && letter b'n' d
    then s
    else a ∷ b ∷ c ∷ d ∷ s
drop_json s = s

-- `\s*```\s*$`
unfoldable pub closes : Text → Bool
unfolding lstrip behind
closes s = elim (behind fence (lstrip s)) [ none ↦ false | some rest ↦ is_empty (lstrip rest) ]

-- `(?P<body>.*?)` up to the first place where the rest closes the fence.
unfoldable pub fence_body : Text → Option Text
unfolding closes
fence_body [] = none
fence_body (c ∷ s) = if closes (c ∷ s) then some [] else Option.map (λ b. c ∷ b) (fence_body s)

unfoldable pub fence_match : Text → Option Text
unfolding fence_body drop_json lstrip behind
fence_match s = elim (behind fence (lstrip s)) [
  | none ↦ none
  | some rest ↦ fence_body (lstrip (drop_json rest))
]

unfoldable pub strip_code_fence : Text → Text
strip_code_fence text = elim (fence_match text) [ some body ↦ body | none ↦ strip text ]

-- `_get_key`; a key that is missing and one that holds `null` both read as `None`.
unfoldable pub get_key : Value → Text → Option Value
get_key (obj fs) key = elim (get_field key fs) [ none ↦ none | some null ↦ none | some v ↦ some v ]
get_key _ key = none

-- `str(value)`
unfoldable pub to_str : Python → Value → Text
to_str py null = codes "None"
to_str py (bool true) = codes "True"
to_str py (bool false) = codes "False"
to_str py (num n) = n
to_str py (str s) = s
to_str py (arr xs) = py.repr (arr xs)
to_str py (obj fs) = py.repr (obj fs)

-- `_parse`: the value, or the reason why there is none.
pub data Parsed : Type 0 where
  parsed : Value → Parsed
  failed : Text → Parsed

abbrev parsed_of : Loaded → Parsed
parsed_of (loaded v) = parsed v
parsed_of (decode_error msg) = failed (codes "json_decode_error:" ++ msg)

unfoldable pub parse : Python → Text → Parsed
parse py text =
    let stripped = strip_code_fence text in
    if is_empty stripped then failed (codes "empty_content") else parsed_of (py.loads stripped)

-- `_normalize_value`
unfoldable pub normalize_value : Python → JsonActionEvaluator → Value → Text
normalize_value py e value =
    let s = to_str py value in
    if text_eq e.normalize (codes "lowercase_strip") then py.lower (strip s) else s

-- The line that one side adds to the reasons; `side` is `primary` or `candidate`.
abbrev pub json_reason : Text → Parsed → Text
json_reason side (parsed _) = side ++ codes "_json_ok"
json_reason side (failed err) = side ++ codes "_json_invalid:" ++ err

abbrev pub is_failed : Parsed → Bool
is_failed (parsed _) = false
is_failed (failed _) = true

-- `_get_key(obj, self._compare_key)`, where an output that did not parse gave `None`.
abbrev pub action_of : Text → Parsed → Option Value
action_of key (parsed v) = get_key v key
action_of key (failed _) = none

-- The part of `evaluate` behind the test of `require_json`.
unfoldable pub compare_actions :
    Python → JsonActionEvaluator → List Text → Option Value → Option Value → EvaluationResult
compare_actions py e reasons (some p) (some c) =
    if text_eq (normalize_value py e p) (normalize_value py e c)
    then record {
      verdict = match;
      reasons = reasons ++ codes "action_match" ∷ [];
      primary_action = some (to_str py p);
      candidate_action = some (to_str py c);
    }
    else record {
      verdict = mismatch;
      reasons =
          reasons ++ (codes "action_mismatch:" ++ (py.repr p ++ (codes "!=" ++ py.repr c))) ∷ [];
      primary_action = some (to_str py p);
      candidate_action = some (to_str py c);
    }
compare_actions py e reasons p c = record {
  verdict = mismatch;
  reasons = reasons ++ codes "missing_action_key" ∷ [];
  primary_action = Option.map (to_str py) p;
  candidate_action = Option.map (to_str py) c;
}

-- `evaluate` behind the two calls of `_parse`.
unfoldable pub judge : Python → JsonActionEvaluator → Parsed → Parsed → EvaluationResult
judge py e p c =
    let reasons : List Text =
      json_reason (codes "primary") p ∷ json_reason (codes "candidate") c ∷ [] in
    if e.require_json && (is_failed p || is_failed c)
    then record {
      verdict = invalid_json;
      reasons = reasons;
      primary_action = none;
      candidate_action = none;
    }
    else compare_actions py e reasons (action_of e.compare_key p) (action_of e.compare_key c)

unfoldable pub evaluate : Python → JsonActionEvaluator → Text → Text → EvaluationResult
unfolding judge
evaluate py e primary_text candidate_text =
    judge py e (parse py primary_text) (parse py candidate_text)

-- `Verdict.value`
abbrev pub verdict_value : Verdict → Text
verdict_value pending = codes "pending"
verdict_value match = codes "match"
verdict_value mismatch = codes "mismatch"
verdict_value invalid_json = codes "invalid_json"
verdict_value candidate_error = codes "candidate_error"
verdict_value primary_error = codes "primary_error"
