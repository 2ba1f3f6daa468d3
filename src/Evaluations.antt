-- ===== src/Evaluations.antt =====
-- src/shadow_proxy/api/v1/evaluations.py: the endpoints that report on the comparisons, with the
-- database up. What a validated query parameter may be is checked here, as the framework does.
pub mod Archived
pub mod Runtime
pub mod Listing
pub mod Payload
pub mod Config
use llm_shadow_proxy.Base.{
  ℕ, ◌+◌, ◌*◌, ◌&&◌, Option, none, some, List, [], ◌∷◌, map, leb, ◌==◌, if◌then◌else◌,
}
use llm_shadow_proxy.Base.Text.{Text, text_eq}
use llm_shadow_proxy.Evaluator.{Verdict, verdict_value}
use llm_shadow_proxy.Store.{ComparisonRecord, Table, get}
use llm_shadow_proxy.Store.Rows.{primary_status_value, candidate_status_value}
use llm_shadow_proxy.Store.Queries.{Engine, EvaluationFilters, list}
use llm_shadow_proxy.Store.Summary.{SummaryStats, Reads, Percentile, summary}
use llm_shadow_proxy.Raw as Archive

pub record RecordOut : Type 0 where
  pub request_id : Text
  pub received_at : ℕ
  pub route : Text
  pub tenant_id : Option Text
  pub session_id : Option Text
  pub request_hash : Text
  pub raw_object_key : Option Text
  pub primary_model : Text
  pub primary_status : Text
  pub primary_latency_ms : ℕ
  pub primary_action : Option Text
  pub primary_error : Option Text
  pub candidate_model : Text
  pub candidate_status : Text
  pub candidate_latency_ms : Option ℕ
  pub candidate_action : Option Text
  pub candidate_error : Option Text
  pub verdict : Text
  pub reasons : List Text
  pub attempt_count : ℕ
  pub last_attempted_at : Option ℕ
  pub evaluated_at : Option ℕ

-- `_to_out`
unfoldable pub to_out : ComparisonRecord → RecordOut
to_out row = record {
  request_id = row.request_id;
  received_at = row.received_at;
  route = row.route;
  tenant_id = row.tenant_id;
  session_id = row.session_id;
  request_hash = row.request_hash;
  raw_object_key = row.raw_object_key;
  primary_model = row.primary_model;
  primary_status = primary_status_value row.primary_status;
  primary_latency_ms = row.primary_latency_ms;
  primary_action = row.primary_action;
  primary_error = row.primary_error;
  candidate_model = row.candidate_model;
  candidate_status = candidate_status_value row.candidate_status;
  candidate_latency_ms = row.candidate_latency_ms;
  candidate_action = row.candidate_action;
  candidate_error = row.candidate_error;
  verdict = verdict_value row.verdict;
  reasons = row.reasons;
  attempt_count = row.attempt_count;
  last_attempted_at = row.last_attempted_at;
  evaluated_at = row.evaluated_at;
}

-- A 200 with its body, a 404, a 422 of a parameter out of its range, or a 500.
pub data Reply {ℓ} (A : Type ℓ) : Type ℓ where
  ok : A → Reply A
  not_found : Reply A
  unprocessable : Reply A
  server_error : Reply A

unfoldable pub list_evaluations : Engine → EvaluationFilters → Table → Reply (List RecordOut)
list_evaluations db filters rows =
    if leb 1 filters.limit && leb filters.limit 1000
    then ok (map to_out (list db filters rows))
    else unprocessable

unfoldable pub get_evaluation : Text → Table → Reply RecordOut
get_evaluation request_id rows = elim (get request_id rows) [
  | none ↦ not_found
  | some row ↦ ok (to_out row)
]

-- A quotient of floats, held exactly.
pub record Ratio : Type 0 where
  pub part : ℕ
  pub whole : ℕ

abbrev pub ratio : ℕ → ℕ → Ratio
ratio part whole =
    if whole == 0 then record { part = 0; whole = 1 } else record { part = part; whole = whole }

-- `verdicts.get(v, 0)`
abbrev pub count_of : Verdict → List (Verdict × ℕ) → ℕ
count_of v [] = 0
count_of v ((w, n) ∷ rest) =
    let later = count_of v rest in if text_eq (verdict_value v) (verdict_value w) then n else later

-- `SummaryStats.match_rate`
unfoldable pub match_rate : SummaryStats → Ratio
match_rate stats = ratio (count_of Verdict.match stats.verdicts) (
    count_of Verdict.match stats.verdicts
    + (count_of Verdict.mismatch stats.verdicts
        + (count_of Verdict.invalid_json stats.verdicts
            + count_of Verdict.candidate_error stats.verdicts)))

pub record SummaryOut : Type 0 where
  pub window_seconds : ℕ
  pub total : ℕ
  pub match_rate : Ratio
  pub verdicts : List (Verdict × ℕ)
  pub latency_p50_primary : Percentile
  pub latency_p50_candidate : Percentile
  pub latency_p95_primary : Percentile
  pub latency_p95_candidate : Percentile

abbrev pub day_seconds : ℕ
day_seconds = 86_400

unfoldable pub evaluations_summary : Engine → ℕ → ℕ → Reads → Reply SummaryOut
evaluations_summary db now window_seconds reads =
    let stats = summary db now (window_seconds * 1_000_000) reads in
    if leb 60 window_seconds && leb window_seconds (30 * day_seconds)
    then ok (record {
      window_seconds = window_seconds;
      total = stats.total;
      match_rate = match_rate stats;
      verdicts = stats.verdicts;
      latency_p50_primary = stats.primary_latency_p50;
      latency_p50_candidate = stats.candidate_latency_p50;
      latency_p95_primary = stats.primary_latency_p95;
      latency_p95_candidate = stats.candidate_latency_p95;
    })
    else unprocessable
