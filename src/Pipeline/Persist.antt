-- ===== src/Pipeline/Persist.antt =====
-- `run_primary`, `extract_action` and `persist_pending` of src/shadow_proxy/pipeline.py.
pub mod Durable
pub mod Taken
use llm_shadow_proxy.Base.{ℕ, Bool, Option, none, some, [], if◌then◌else◌}
use llm_shadow_proxy.Base.Text.{Text, codes, is_empty}
use llm_shadow_proxy.Base.Json.{Value, null, str, obj, end, field}
use llm_shadow_proxy.Evaluator.{
  Python, Loaded, loaded, decode_error, strip_code_fence, get_key, to_str,
}
use llm_shadow_proxy.Store.{PendingComparison, PrimaryStatus, Table, is_ok, insert_pending}
use llm_shadow_proxy.Raw
use llm_shadow_proxy.Llm.{Answer, replied, timed_out, call_error, crashed}
use llm_shadow_proxy.Pipeline.World.{
  CallOutcome, StoreOp, Metric, primary_latency, store_failures_total, World, Ending, returned,
  raised, observe,
}
use mathlib.Core.Option

pub record PrimaryOutcome : Type 0 where
  pub status : PrimaryStatus
  pub latency_ms : ℕ
  pub content : Text
  pub raw : Option Value
  pub error : Option Text
  pub error_status_code : Option ℕ

-- `run_primary`, on the answer of the client: the outcome and the metric that is written. `none` is
-- an exception that is no `LLMCallError`, which leaves the function.
unfoldable pub run_primary : Text → Text → ℕ → Answer → Option (PrimaryOutcome × Metric)
run_primary route model latency_ms (replied resp) = some (
  record {
    status = PrimaryStatus.ok;
    latency_ms = latency_ms;
    content = resp.content;
    raw = some resp.raw;
    error = none;
    error_status_code = none;
  },
  primary_latency route model CallOutcome.ok latency_ms,
)
run_primary route model latency_ms (timed_out msg) = some (
  record {
    status = PrimaryStatus.timeout;
    latency_ms = latency_ms;
    content = [];
    raw = none;
    error = some msg;
    error_status_code = none;
  },
  primary_latency route model CallOutcome.timeout latency_ms,
)
run_primary route model latency_ms (call_error msg code) = some (
  record {
    status = PrimaryStatus.error;
    latency_ms = latency_ms;
    content = [];
    raw = none;
    error = some msg;
    error_status_code = code;
  },
  primary_latency route model CallOutcome.error latency_ms,
)
run_primary route model latency_ms crashed = none

abbrev action_in : Python → Text → Loaded → Option Text
action_in py key (loaded v) = Option.map (to_str py) (get_key v key)
action_in py key (decode_error msg) = none

-- `extract_action(content, key=…)`
unfoldable pub extract_action : Python → Text → Text → Option Text
extract_action py key content =
    let stripped = strip_code_fence content in
    if is_empty stripped then none else action_in py key (py.loads stripped)

-- The arguments of `persist_pending` that describe the request; `fail_closed` is
-- `on_failure == "fail_closed"`, and `written_at` the ISO time in the payload.
pub record Submission : Type 0 where
  pub request_id : Text
  pub received_at : ℕ
  pub route : Text
  pub tenant_id : Option Text
  pub session_id : Option Text
  pub request_hash : Text
  pub request_body : Value
  pub primary_model : Text
  pub candidate_model : Text
  pub fail_closed : Bool
  pub written_at : Text

abbrev or_null : Option Value → Value
or_null none = null
or_null (some v) = v

-- The payload that is archived.
abbrev pub payload : Submission → PrimaryOutcome → Value
payload s outcome = obj (
    field (codes "request") s.request_body (
      field (codes "primary_model") (str s.primary_model) (
        field (codes "candidate_model") (str s.candidate_model) (
          field (codes "primary_response") (or_null outcome.raw) (
            field (codes "candidate_response") null
              (field (codes "written_at") (str s.written_at) end))))))

-- The archive step: the key, if the put went through.
unfoldable pub archive_payload :
    Bool → Text → Submission → PrimaryOutcome → World → Option Text × World
archive_payload put_up day s outcome w = elim w.raw [
  | none ↦ (none, w)
  | some files ↦
      if put_up
      then (
        some (Raw.put day s.request_id (payload s outcome) files).0,
        record w { raw = some (Raw.put day s.request_id (payload s outcome) files).1 },
      )
      else (none, observe (store_failures_total StoreOp.raw_put) w)
]

unfoldable pub pending_comparison :
    Python → Submission → PrimaryOutcome → Option Text → PendingComparison
pending_comparison py s outcome raw_object_key = record {
  request_id = s.request_id;
  received_at = s.received_at;
  route = s.route;
  tenant_id = s.tenant_id;
  session_id = s.session_id;
  request_hash = s.request_hash;
  raw_object_key = raw_object_key;
  primary_model = s.primary_model;
  primary_status = outcome.status;
  primary_latency_ms = outcome.latency_ms;
  primary_action =
      if is_ok outcome.status then extract_action py (codes "action") outcome.content else none;
  primary_error = outcome.error;
  candidate_model = s.candidate_model;
}

-- An insert, where the database may be down or the key taken.
abbrev pub try_insert : Bool → PendingComparison → Table → Option Table
try_insert insert_up r rows = if insert_up then insert_pending r rows else none

unfoldable pub persist_pending :
    Python → Bool → Bool → Text → Submission → PrimaryOutcome → World → World × Ending
persist_pending py put_up insert_up day s outcome w =
    let (key, kept) = archive_payload put_up day s outcome w in
    elim (try_insert insert_up (pending_comparison py s outcome key) kept.rows) [
      | some rows ↦ (record kept { rows = rows }, returned)
      | none ↦ (
        observe (store_failures_total StoreOp.insert_pending) kept,
        (if s.fail_closed then raised else returned),
      )
    ]
