-- ===== src/Llm.antt =====
-- src/shadow_proxy/llm/base.py: the request, the response and the errors of an `LLMClient`.
pub mod DoInference
use llm_shadow_proxy.Base.{ℕ, Option}
use llm_shadow_proxy.Base.Text.{Text}
use llm_shadow_proxy.Base.Json.{Value}

-- `messages` is the JSON list of the messages, `temperature` and `max_completion_tokens` are JSON
-- numbers or null; the callers leave `extra` empty.
pub record ChatRequest : Type 0 where
  pub model : Text
  pub messages : Value
  pub temperature : Value
  pub max_completion_tokens : Value

-- The fields of `ChatResponse` that the program reads.
pub record ChatResponse : Type 0 where
  pub content : Text
  pub raw : Value

-- How a call of `chat_completions` ends: a response, `LLMTimeout`, another `LLMCallError` with its
-- `status_code`, or an exception that is neither.
pub data Answer : Type 0 where
  replied : ChatResponse → Answer
  timed_out : Text → Answer
  call_error : Text → Option ℕ → Answer
  crashed : Answer
