-- ===== src/Store/Queries.antt =====
-- The queries of src/shadow_proxy/store/sql.py that read several rows.
use llm_shadow_proxy.Base.{
  ℕ, ◌+◌, ◌≡◌, Bool, true, false, ◌&&◌, Option, none, some, List, map, ltb, leb, take, drop, select,
  tally,
}
use llm_shadow_proxy.Base.Text.{Text, text_eq}
use llm_shadow_proxy.Evaluator.{Verdict, verdict_value}
use llm_shadow_proxy.Store.{ComparisonRecord, Table, CandidateStatus}

-- The orders in which the SQL engine returns the rows of the table: none asked for, and by
-- `received_at`, descending and ascending. Rows of one time come in any order, and in another one in the
-- next query, which is given an `Engine` of its own.
pub record Engine : Type 0 where
  pub scan : Table → Table
  pub newest_first : Table → Table
  pub oldest_first : Table → Table

-- Every order returns each row as often as the table holds it.
pub record IsComplete (db : Engine) : Type 0 where
  pub scan-tally :
      (p : ComparisonRecord → Bool) (rows : Table) → tally p (db.scan rows) ≡ tally p rows
  pub newest_first-tally :
      (p : ComparisonRecord → Bool) (rows : Table) → tally p (db.newest_first rows) ≡ tally p rows
  pub oldest_first-tally :
      (p : ComparisonRecord → Bool) (rows : Table) → tally p (db.oldest_first rows) ≡ tally p rows

pub record EvaluationFilters : Type 0 where
  pub since : Option ℕ
  pub until : Option ℕ
  pub verdict : Option Verdict
  pub route : Option Text
  pub tenant_id : Option Text
  pub limit : ℕ
  pub offset : ℕ

-- A condition that is added only if the filter is set.
abbrev pub where_set {ℓ} : {A : Type ℓ} → Option A → (A → Bool) → Bool
where_set none p = true
where_set (some a) p = p a

-- SQL's `column = value`, which no NULL passes.
abbrev pub column_eq : Option Text → Text → Bool
column_eq none value = false
column_eq (some t) value = text_eq t value

unfoldable pub passes : EvaluationFilters → ComparisonRecord → Bool
passes filters row =
    where_set filters.since (λ t. leb t row.received_at)
    && where_set filters.until (λ t. leb row.received_at t)
    && where_set filters.verdict (λ v. text_eq (verdict_value row.verdict) (verdict_value v))
    && where_set filters.route (λ r. text_eq row.route r)
    && where_set filters.tenant_id (λ t. column_eq row.tenant_id t)

-- `SqlComparisonStore.list`
unfoldable pub list : Engine → EvaluationFilters → Table → List ComparisonRecord
list db filters rows =
    take filters.limit (drop filters.offset (select (passes filters) (db.newest_first rows)))

-- `candidate_status IN ('pending', 'in_progress')`
abbrev pub is_open : CandidateStatus → Bool
is_open CandidateStatus.pending = true
is_open CandidateStatus.in_progress = true
is_open _ = false

abbrev pub is_unfinished : ComparisonRecord → Bool
is_unfinished row = is_open row.candidate_status

-- The condition of `find_stale`: unfinished, and `received_at < now - threshold`.
unfoldable pub is_stale : ℕ → ℕ → ComparisonRecord → Bool
is_stale now threshold row = is_unfinished row && ltb (row.received_at + threshold) now

abbrev pub request_ids : Table → List Text
request_ids = map (λ row. row.request_id)

unfoldable pub find_stale : Engine → ℕ → ℕ → ℕ → Table → List Text
find_stale db now threshold limit rows =
    request_ids (take limit (select (is_stale now threshold) (db.scan rows)))

unfoldable pub find_all_unfinished : Engine → ℕ → Table → List Text
find_all_unfinished db limit rows =
    request_ids (take limit (select is_unfinished (db.oldest_first rows)))
