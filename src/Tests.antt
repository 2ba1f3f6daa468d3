-- ===== src/Tests.antt =====
-- A small deployment of src/shadow_proxy, on which the theorems are tried out: two requests in the
-- table, one of them archived, and a dispatcher with a full queue.
mod Evaluation
mod Storage
mod Jobs
mod Calls
mod Replies
mod Startup
mod Access
mod Runs
mod Endpoints
mod Recovery
mod Redaction
mod Records
mod Shadow
use llm_shadow_proxy.Base.{
  refl, ℕ, ◌+◌, true, ◌&&◌, Option, none, some, [], ◌∷◌, map, leb, if◌then◌else◌,
}
use llm_shadow_proxy.Base.Text.{Text, codes}
use llm_shadow_proxy.Base.Json.{str, arr, obj, nil, cons, Fields, end, field}
use llm_shadow_proxy.Evaluator.{Python, Loaded, loaded, decode_error, JsonActionEvaluator}
use llm_shadow_proxy.Store.{PrimaryStatus, PendingComparison, ComparisonRecord, Table, pending_row}
use llm_shadow_proxy.Store.Queries.{Engine, IsComplete}
use llm_shadow_proxy.Dispatcher.{Dispatcher, CandidateJob, OverflowPolicy, idle, busy}
use llm_shadow_proxy.Raw
use llm_shadow_proxy.Llm.{ChatResponse, Answer}
use llm_shadow_proxy.Pipeline.World.{World, new_counters}
use llm_shadow_proxy.Pipeline.Persist.{PrimaryOutcome, Submission}
use llm_shadow_proxy.Pipeline.Payloads.{CandidateHandler, Surroundings}

-- Every text but the empty one loads as an object with itself as the action.
abbrev pub loads : Text → Loaded
loads [] = decode_error (codes "Expecting value")
loads (c ∷ s) = loaded (obj (field (codes "action") (str (c ∷ s)) end))

abbrev pub lower_char : ℕ → ℕ
lower_char c = if leb b'A' c && leb c b'Z' then c + 32 else c

abbrev pub python : Python
python = record { loads = loads; lower = map lower_char; repr = λ v. codes "{}" }

abbrev pub evaluator : JsonActionEvaluator
evaluator = record {
  compare_key = codes "action";
  require_json = true;
  normalize = codes "lowercase_strip";
}

abbrev pub submitted : Text → PrimaryStatus → Option Text → PendingComparison
submitted request_id status key = record {
  request_id = request_id;
  received_at = 10;
  route = codes "default";
  tenant_id = none;
  session_id = none;
  request_hash = codes "h";
  raw_object_key = key;
  primary_model = codes "big";
  primary_status = status;
  primary_latency_ms = 7;
  primary_action = none;
  primary_error = none;
  candidate_model = codes "small";
}

abbrev pub day : Text
day = codes "2026/01/31"

abbrev pub payload_fields : Fields
payload_fields = field (codes "request") (obj (field (codes "messages") (arr nil) end)) (
    field (codes "primary_response")
      (obj (
        field (codes "choices")
          (arr (
            cons
              (obj (
                field (codes "message") (obj (field (codes "content") (str (codes "go")) end)) end))
              nil))
          end))
      end)

abbrev pub files : Raw.Files
files = (Raw.key_for day (codes "a"), obj payload_fields) ∷ []

-- The first row is archived; the second one's primary call failed.
abbrev pub archived_row : ComparisonRecord
archived_row =
    pending_row (submitted (codes "a") PrimaryStatus.ok (some (Raw.key_for day (codes "a"))))

abbrev pub failed_primary : PendingComparison
failed_primary = submitted (codes "b") PrimaryStatus.error none

abbrev pub table : Table
table = archived_row ∷ pending_row failed_primary ∷ []

abbrev pub database : Engine
database = record { scan = λ rows. rows; newest_first = λ rows. rows; oldest_first = λ rows. rows }

pub database-IsComplete : IsComplete database
database-IsComplete = record {
  scan-tally = λ p rows. refl;
  newest_first-tally = λ p rows. refl;
  oldest_first-tally = λ p rows. refl;
}

abbrev pub deployment : World
deployment = record {
  rows = table;
  raw = some files;
  tape = none;
  counters = new_counters;
  metrics = [];
}

abbrev pub without_archive : World
without_archive = record deployment { raw = none }

abbrev pub handler : CandidateHandler
handler = record {
  python = python;
  evaluator = evaluator;
  primary_model_id = codes "big";
  candidate_model_id = codes "small";
  route_name = codes "default";
}

-- All goes well, and the candidate answers in a given way; the day is a new one.
abbrev pub answering : Answer → Surroundings
answering a = record {
  get_up = true;
  mark_up = true;
  finalize_up = true;
  load_up = true;
  merge_get_up = true;
  merge_put_up = true;
  accepts = λ req. true;
  answer = λ req. a;
  latency_ms = 9;
  marked_at = 20;
  finalized_at = 30;
  merge_day = codes "2026/02/01";
}

abbrev pub reply : ChatResponse
reply = record { content = codes " GO "; raw = obj end }

abbrev pub job : Text → CandidateJob
job request_id = record { request_id = request_id }

-- One worker is idle and one busy; both places of the queue are taken.
abbrev pub busy_dispatcher : OverflowPolicy → Dispatcher
busy_dispatcher policy = record {
  queue = record { items = job (codes "a") ∷ job (codes "b") ∷ []; maxsize = 2; unfinished = 3 };
  workers_n = 2;
  policy = policy;
  tasks = idle ∷ busy (job (codes "c")) ∷ [];
  running = true;
  queue_depth = 2;
  dropped_new = 0;
  dropped_old = 0;
}

abbrev pub new_request : Submission
new_request = record {
  request_id = codes "n";
  received_at = 40;
  route = codes "default";
  tenant_id = none;
  session_id = none;
  request_hash = codes "h";
  request_body = obj end;
  primary_model = codes "big";
  candidate_model = codes "small";
  fail_closed = true;
  written_at = codes "2026-01-31T00:00:00+00:00";
}

abbrev pub outcome : PrimaryOutcome
outcome = record {
  status = PrimaryStatus.ok;
  latency_ms = 5;
  content = codes "go";
  raw = some (obj end);
  error = none;
  error_status_code = none;
}
