-- ===== src/Llm/DoInference.antt =====
-- src/shadow_proxy/llm/do_inference.py: the client's retry loop, and how it reads a response. The
-- HTTP library and Pydantic are parameters.
pub mod Retries
pub mod Payload
use llm_shadow_proxy.Base.{
  ℕ, zero, suc, ◌+◌, ◌-◌, ◌^◌, Bool, true, false, ◌&&◌, Option, none, some, [], ◌∷◌, ◌++◌, ltb, leb,
  if◌then◌else◌,
}
use llm_shadow_proxy.Base.Text.{Text, codes}
use llm_shadow_proxy.Base.Json.{Value, str, arr, obj, cons, get_field, truthy}
use llm_shadow_proxy.Llm.{Answer, replied, timed_out, call_error, crashed}

-- What one `post` does: a response with its status, the start of its text, and its JSON body, which
-- is `none` if `resp.json()` raises; a timeout; another `httpx.HTTPError`.
pub data Post : Type 0 where
  response : ℕ → Text → Option Value → Post
  timeout : Post
  transport_error : Text → Post

-- What the client relies on: whether `ChatResponse` accepts the fields read from a body, the text
-- of a status code and of a body in a message, and the text of `timeout_s`.
pub record Outside : Type 0 where
  pub accepts : Value → Bool
  pub status_text : ℕ → Text
  pub repr : Value → Text
  pub timeout_text : Text

-- `body["choices"][0]`: a value, one of the errors that are caught, or the first character of a
-- string, which is a value with no `get`.
pub data Choice : Type 0 where
  choice : Value → Choice
  caught : Choice

abbrev first_item : Option Value → Choice
first_item (some (arr (cons v vs))) = choice v
first_item (some (str (c ∷ s))) = choice (str (c ∷ []))
first_item _ = caught

abbrev first_choice : Value → Choice
first_choice (obj fs) = first_item (get_field (codes "choices") fs)
first_choice _ = caught

-- `choice.get("message", {}).get("content", "") or ""`; `none` is an `AttributeError`, which is not
-- caught.
abbrev content_of : Option Value → Option Value
content_of none = some (str [])
content_of (some v) = some (if truthy v then v else str [])

abbrev content_in : Option Value → Option Value
content_in none = some (str [])
content_in (some (obj fs)) = content_of (get_field (codes "content") fs)
content_in (some _) = none

abbrev choice_content : Value → Option Value
choice_content (obj fs) = content_in (get_field (codes "message") fs)
choice_content _ = none

-- `body.get("usage") or {}` is then asked with `get`; a usage that is true and no dictionary raises
-- an `AttributeError`.
abbrev usage_readable : Option Value → Bool
usage_readable (some (obj fs)) = true
usage_readable none = true
usage_readable (some v) = if truthy v then false else true

abbrev is_readable : Value → Bool
is_readable (obj fs) = usage_readable (get_field (codes "usage") fs)
is_readable _ = false

abbrev respond : Bool → Value → Option Value → Answer
respond true body (some (str text)) = replied (record { content = text; raw = body })
respond _ body _ = crashed

abbrev read_choice : Outside → Value → Choice → Answer
read_choice out body caught =
    call_error (codes "malformed DO inference response: " ++ out.repr body) none
read_choice out body (choice v) =
    respond (is_readable body && out.accepts body) body (choice_content v)

-- `_to_chat_response`
unfoldable pub to_chat_response : Outside → Value → Answer
to_chat_response out body = read_choice out body (first_choice body)

-- `resp.json()` and the conversion; a body that is no JSON raises.
abbrev read_body : Outside → Option Value → Answer
read_body out none = crashed
read_body out (some body) = to_chat_response out body

-- What the loop does with the last post that it makes.
unfoldable pub conclude : Outside → Post → Answer
conclude out (response status text body) =
    if leb 400 status
    then call_error
        (codes "DO inference error " ++ (out.status_text status ++ (codes ": " ++ text)))
        (some status)
    else read_body out body
conclude out timeout =
    timed_out (codes "DO inference timed out after " ++ (out.timeout_text ++ codes "s"))
conclude out (transport_error msg) = call_error (codes "DO inference transport error: " ++ msg) none

-- The errors after which the loop goes on while attempts are left.
abbrev pub is_retried : Post → Bool
is_retried (response status text body) = leb 500 status
is_retried timeout = false
is_retried (transport_error msg) = true

-- The answer, the number of posts, and the time slept, in tenths of a second.
pub record Call : Type 0 where
  pub answer : Answer
  pub posts : ℕ
  pub slept : ℕ

-- `for attempt in range(attempts)`, where `left` is the number of rounds left and `post` gives each
-- round's result. Behind the loop stands an assertion.
unfoldable pub attempt_loop : Outside → (ℕ → Post) → ℕ → ℕ → ℕ → ℕ → Call
attempt_loop out post attempts zero attempt slept = record {
  answer = crashed;
  posts = attempt;
  slept = slept;
}
attempt_loop out post attempts (suc left) attempt slept =
    let rest = attempt_loop out post attempts left (attempt + 1) (slept + 2 ^ attempt) in
    if is_retried (post attempt) && ltb attempt (attempts - 1)
    then rest
    else record { answer = conclude out (post attempt); posts = attempt + 1; slept = slept }

unfoldable pub chat_completions : Outside → ℕ → (ℕ → Post) → Call
unfolding attempt_loop
chat_completions out max_retries post =
    attempt_loop out post (max_retries + 1) (max_retries + 1) 0 0
