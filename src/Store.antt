-- ===== src/Store.antt =====
-- src/shadow_proxy/store/base.py, models.py and sql.py: the comparisons table and its operations.
-- A time is a number of microseconds since an epoch, and so is a `timedelta`. The orders in which
-- the SQL engine returns rows are a parameter of the queries.
pub mod Rows
pub mod Updates
pub mod Queries
pub mod Summary
pub mod Keyed
pub mod Journal
use llm_shadow_proxy.Base.{
  ℕ, ◌+◌, Bool, true, false, Option, none, some, List, [], ◌∷◌, ◌++◌, if◌then◌else◌, any,
}
use llm_shadow_proxy.Base.Text.{Text, text_eq}
use llm_shadow_proxy.Evaluator.{Verdict}
use mathlib.Core.Option

pub data PrimaryStatus : Type 0 where
  ok error timeout : PrimaryStatus

pub data CandidateStatus : Type 0 where
  pending in_progress ok error timeout_stale dropped : CandidateStatus

-- `record.primary_status == PrimaryStatus.OK`
abbrev pub is_ok : PrimaryStatus → Bool
is_ok PrimaryStatus.ok = true
is_ok _ = false

pub record PendingComparison : Type 0 where
  pub request_id : Text
  pub received_at : ℕ
  pub route : Text
  pub tenant_id : Option Text
  pub session_id : Option Text
  pub request_hash : Text
  pub raw_object_key : Option Text
  pub primary_model : Text
  pub primary_status : PrimaryStatus
  pub primary_latency_ms : ℕ
  pub primary_action : Option Text
  pub primary_error : Option Text
  pub candidate_model : Text

pub record FinalizePatch : Type 0 where
  pub candidate_status : CandidateStatus
  pub verdict : Verdict
  pub reasons : List Text
  pub candidate_latency_ms : Option ℕ
  pub candidate_action : Option Text
  pub candidate_error : Option Text
  pub evaluated_at : Option ℕ
  pub attempt_count : ℕ
  pub last_attempted_at : Option ℕ

-- A row of the table, and the `ComparisonRecord` that `_to_record` makes of it: the columns with
-- an enum's values are held by the enum.
pub record ComparisonRecord : Type 0 where
  pub request_id : Text
  pub received_at : ℕ
  pub route : Text
  pub tenant_id : Option Text
  pub session_id : Option Text
  pub request_hash : Text
  pub raw_object_key : Option Text
  pub primary_model : Text
  pub primary_status : PrimaryStatus
  pub primary_latency_ms : ℕ
  pub primary_action : Option Text
  pub primary_error : Option Text
  pub candidate_model : Text
  pub candidate_status : CandidateStatus
  pub candidate_latency_ms : Option ℕ
  pub candidate_action : Option Text
  pub candidate_error : Option Text
  pub verdict : Verdict
  pub reasons : List Text
  pub attempt_count : ℕ
  pub last_attempted_at : Option ℕ
  pub evaluated_at : Option ℕ

abbrev pub Table : Type 0
Table = List ComparisonRecord

abbrev pub has_id : Text → ComparisonRecord → Bool
has_id request_id row = text_eq request_id row.request_id

-- The row that `insert_pending` builds, with the columns' server defaults.
unfoldable pub pending_row : PendingComparison → ComparisonRecord
pending_row r = record {
  request_id = r.request_id;
  received_at = r.received_at;
  route = r.route;
  tenant_id = r.tenant_id;
  session_id = r.session_id;
  request_hash = r.request_hash;
  raw_object_key = r.raw_object_key;
  primary_model = r.primary_model;
  primary_status = r.primary_status;
  primary_latency_ms = r.primary_latency_ms;
  primary_action = r.primary_action;
  primary_error = r.primary_error;
  candidate_model = r.candidate_model;
  candidate_status = CandidateStatus.pending;
  candidate_latency_ms = none;
  candidate_action = none;
  candidate_error = none;
  verdict = if is_ok r.primary_status then Verdict.pending else Verdict.primary_error;
  reasons = [];
  attempt_count = 0;
  last_attempted_at = none;
  evaluated_at = none;
}

-- `none` is the `IntegrityError` of the primary key.
unfoldable pub insert_pending : PendingComparison → Table → Option Table
insert_pending r rows =
    if any (has_id r.request_id) rows then none else some (rows ++ pending_row r ∷ [])

-- `UPDATE comparisons SET … WHERE request_id = …`
unfoldable pub update : Text → (ComparisonRecord → ComparisonRecord) → Table → Table
update request_id f [] = []
update request_id f (row ∷ rows) =
    (if has_id request_id row then f row else row) ∷ update request_id f rows

unfoldable pub in_progress_row : ℕ → ComparisonRecord → ComparisonRecord
in_progress_row now row = record row {
  candidate_status = CandidateStatus.in_progress;
  last_attempted_at = some now;
  attempt_count = row.attempt_count + 1;
}

unfoldable pub mark_in_progress : ℕ → Text → Table → Table
mark_in_progress now request_id = update request_id (in_progress_row now)

-- A column that the patch leaves out keeps its value.
abbrev pub or_old {ℓ} : {A : Type ℓ} → Option A → Option A → Option A
or_old none old = old
or_old (some a) old = some a

abbrev pub or_now : Option ℕ → ℕ → ℕ
or_now none now = now
or_now (some t) now = t

-- The columns in `values`; the patch's `attempt_count` is not among them.
unfoldable pub finalized_row : ℕ → FinalizePatch → ComparisonRecord → ComparisonRecord
finalized_row now patch row = record row {
  candidate_status = patch.candidate_status;
  verdict = patch.verdict;
  reasons = patch.reasons;
  evaluated_at = some (or_now patch.evaluated_at now);
  candidate_latency_ms = or_old patch.candidate_latency_ms row.candidate_latency_ms;
  candidate_action = or_old patch.candidate_action row.candidate_action;
  candidate_error = or_old patch.candidate_error row.candidate_error;
  last_attempted_at = or_old patch.last_attempted_at row.last_attempted_at;
}

unfoldable pub finalize : ℕ → Text → FinalizePatch → Table → Table
finalize now request_id patch = update request_id (finalized_row now patch)

unfoldable pub get : Text → Table → Option ComparisonRecord
get request_id [] = none
get request_id (row ∷ rows) = if has_id request_id row then some row else get request_id rows
