-- ===== src/Store/Rows.antt =====
-- The columns of the table (`ComparisonRow` of src/shadow_proxy/store/models.py), what the writes of
-- store/sql.py put into them, and `_to_record`.
pub mod Tables
pub mod Agreement
pub mod Widths
use llm_shadow_proxy.Base.{ℕ, ◌+◌, ◌≡◌, refl, Option, none, some, List, [], ◌∷◌, if◌then◌else◌}
use llm_shadow_proxy.Base.Text.{Text, codes, text_eq}
use llm_shadow_proxy.Evaluator.{Verdict, verdict_value}
use llm_shadow_proxy.Store.{
  PrimaryStatus, CandidateStatus, is_ok, PendingComparison, FinalizePatch, ComparisonRecord, or_old,
  or_now,
}

-- `PrimaryStatus.value` and `CandidateStatus.value`
abbrev pub primary_status_value : PrimaryStatus → Text
primary_status_value PrimaryStatus.ok = codes "ok"
primary_status_value PrimaryStatus.error = codes "error"
primary_status_value PrimaryStatus.timeout = codes "timeout"

abbrev pub candidate_status_value : CandidateStatus → Text
candidate_status_value CandidateStatus.pending = codes "pending"
candidate_status_value CandidateStatus.in_progress = codes "in_progress"
candidate_status_value CandidateStatus.ok = codes "ok"
candidate_status_value CandidateStatus.error = codes "error"
candidate_status_value CandidateStatus.timeout_stale = codes "timeout_stale"
candidate_status_value CandidateStatus.dropped = codes "dropped"

-- The JSON column: a list of texts, or a value that is no list. The writes put lists of texts only.
pub data Reasons : Type 0 where
  texts : List Text → Reasons
  no_list : Reasons

pub record ComparisonRow : Type 0 where
  pub request_id : Text
  pub received_at : ℕ
  pub route : Text
  pub tenant_id : Option Text
  pub session_id : Option Text
  pub request_hash : Text
  pub raw_object_key : Option Text
  pub primary_model : Text
  pub primary_status : Text
  pub primary_latency_ms : ℕ
  pub primary_action : Option Text
  pub primary_error : Option Text
  pub candidate_model : Text
  pub candidate_status : Text
  pub candidate_latency_ms : Option ℕ
  pub candidate_action : Option Text
  pub candidate_error : Option Text
  pub verdict : Text
  pub reasons : Reasons
  pub attempt_count : ℕ
  pub last_attempted_at : Option ℕ
  pub evaluated_at : Option ℕ

-- The row of `insert_pending`, with the columns' server defaults.
unfoldable pub new_row : PendingComparison → ComparisonRow
new_row r = record {
  request_id = r.request_id;
  received_at = r.received_at;
  route = r.route;
  tenant_id = r.tenant_id;
  session_id = r.session_id;
  request_hash = r.request_hash;
  raw_object_key = r.raw_object_key;
  primary_model = r.primary_model;
  primary_status = primary_status_value r.primary_status;
  primary_latency_ms = r.primary_latency_ms;
  primary_action = r.primary_action;
  primary_error = r.primary_error;
  candidate_model = r.candidate_model;
  candidate_status = candidate_status_value CandidateStatus.pending;
  candidate_latency_ms = none;
  candidate_action = none;
  candidate_error = none;
  verdict =
      verdict_value (if is_ok r.primary_status then Verdict.pending else Verdict.primary_error);
  reasons = texts [];
  attempt_count = 0;
  last_attempted_at = none;
  evaluated_at = none;
}

-- The columns that `mark_in_progress` writes.
unfoldable pub mark_columns : ℕ → ComparisonRow → ComparisonRow
mark_columns now row = record row {
  candidate_status = candidate_status_value CandidateStatus.in_progress;
  last_attempted_at = some now;
  attempt_count = row.attempt_count + 1;
}

-- The columns that `finalize` writes.
unfoldable pub finalize_columns : ℕ → FinalizePatch → ComparisonRow → ComparisonRow
finalize_columns now patch row = record row {
  candidate_status = candidate_status_value patch.candidate_status;
  verdict = verdict_value patch.verdict;
  reasons = texts patch.reasons;
  evaluated_at = some (or_now patch.evaluated_at now);
  candidate_latency_ms = or_old patch.candidate_latency_ms row.candidate_latency_ms;
  candidate_action = or_old patch.candidate_action row.candidate_action;
  candidate_error = or_old patch.candidate_error row.candidate_error;
  last_attempted_at = or_old patch.last_attempted_at row.last_attempted_at;
}

-- The member of an enum with a value; `none` is the `ValueError`.
unfoldable pub by_value {ℓ} : {A : Type ℓ} → (A → Text) → List A → Text → Option A
by_value value [] text = none
by_value value (a ∷ members) text =
    let rest = by_value value members text in if text_eq text (value a) then some a else rest

abbrev pub primary_status_of : Text → Option PrimaryStatus
primary_status_of =
    by_value primary_status_value
      (PrimaryStatus.ok ∷ PrimaryStatus.error ∷ PrimaryStatus.timeout ∷ [])

abbrev pub candidate_status_of : Text → Option CandidateStatus
candidate_status_of = by_value candidate_status_value (
    CandidateStatus.pending ∷ CandidateStatus.in_progress ∷ CandidateStatus.ok
    ∷ CandidateStatus.error ∷ CandidateStatus.timeout_stale ∷ CandidateStatus.dropped ∷ [])

abbrev pub verdict_of : Text → Option Verdict
verdict_of = by_value verdict_value (
    Verdict.pending ∷ Verdict.match ∷ Verdict.mismatch ∷ Verdict.invalid_json
    ∷ Verdict.candidate_error ∷ Verdict.primary_error ∷ [])

abbrev texts_of : Reasons → List Text
texts_of (texts reasons) = reasons
texts_of no_list = []

abbrev with_enums : ComparisonRow → PrimaryStatus → CandidateStatus → Verdict → ComparisonRecord
with_enums row primary candidate verdict = record {
  request_id = row.request_id;
  received_at = row.received_at;
  route = row.route;
  tenant_id = row.tenant_id;
  session_id = row.session_id;
  request_hash = row.request_hash;
  raw_object_key = row.raw_object_key;
  primary_model = row.primary_model;
  primary_status = primary;
  primary_latency_ms = row.primary_latency_ms;
  primary_action = row.primary_action;
  primary_error = row.primary_error;
  candidate_model = row.candidate_model;
  candidate_status = candidate;
  candidate_latency_ms = row.candidate_latency_ms;
  candidate_action = row.candidate_action;
  candidate_error = row.candidate_error;
  verdict = verdict;
  reasons = texts_of row.reasons;
  attempt_count = row.attempt_count;
  last_attempted_at = row.last_attempted_at;
  evaluated_at = row.evaluated_at;
}

-- `_to_record`; `none` is a `ValueError` for a text that is no value of its enum.
unfoldable pub to_record : ComparisonRow → Option ComparisonRecord
to_record row = elim (primary_status_of row.primary_status) [
  | none ↦ none
  | some primary ↦ elim (candidate_status_of row.candidate_status) [
    | none ↦ none
    | some candidate ↦ elim (verdict_of row.verdict) [
      | none ↦ none
      | some verdict ↦ some (with_enums row primary candidate verdict)
    ]
  ]
]

primary_status_of-value : (s : PrimaryStatus) → primary_status_of (primary_status_value s) ≡ some s
unfolding by_value text_eq
primary_status_of-value PrimaryStatus.ok = refl
primary_status_of-value PrimaryStatus.error = refl
primary_status_of-value PrimaryStatus.timeout = refl

candidate_status_of-value :
    (s : CandidateStatus) → candidate_status_of (candidate_status_value s) ≡ some s
unfolding by_value text_eq
candidate_status_of-value CandidateStatus.pending = refl
candidate_status_of-value CandidateStatus.in_progress = refl
candidate_status_of-value CandidateStatus.ok = refl
candidate_status_of-value CandidateStatus.error = refl
candidate_status_of-value CandidateStatus.timeout_stale = refl
candidate_status_of-value CandidateStatus.dropped = refl

verdict_of-value : (v : Verdict) → verdict_of (verdict_value v) ≡ some v
unfolding by_value text_eq
verdict_of-value Verdict.pending = refl
verdict_of-value Verdict.match = refl
verdict_of-value Verdict.mismatch = refl
verdict_of-value Verdict.invalid_json = refl
verdict_of-value Verdict.candidate_error = refl
verdict_of-value Verdict.primary_error = refl
