-- ===== src/Evaluations/Listing.antt =====
-- What the list endpoint answers (`list_evaluations` of src/shadow_proxy/api/v1/evaluations.py on `list` of
-- store/sql.py).
use llm_shadow_proxy.Base.{
  ◌≤◌, ◌<◌, ◌≡◌, Bool, true, Option, none, some, List, [], ◌∷◌, length, tally,
}
use llm_shadow_proxy.Base.Text.{Text}
use llm_shadow_proxy.Evaluator.{verdict_value}
use llm_shadow_proxy.Store.{ComparisonRecord, Table}
use llm_shadow_proxy.Store.Queries.{EvaluationFilters}

-- A row meets a filter that is set, and any row meets one that is not.
abbrev pub When {ℓ} : {A : Type ℓ} → Option A → (A → Type 0) → Type 0
When none P = Unit
When (some a) P = P a

-- A row meets the filters.
pub record Meets (filters : EvaluationFilters) (row : ComparisonRecord) : Type 0 where
  pub since : When filters.since (λ t. t ≤ row.received_at)
  pub until : When filters.until (λ t. row.received_at ≤ t)
  pub verdict : When filters.verdict (λ v. verdict_value row.verdict ≡ verdict_value v)
  pub route : When filters.route (λ r. row.route ≡ r)
  pub tenant_id : When filters.tenant_id (λ t. row.tenant_id ≡ some t)

-- Every record of a list.
abbrev pub AllMeet : EvaluationFilters → List ComparisonRecord → Type 0
AllMeet filters [] = Unit
AllMeet filters (row ∷ rows) = Meets filters row × AllMeet filters rows

-- What one call lists.
pub record Lists (filters : EvaluationFilters) (rows : Table) (records : List ComparisonRecord)
    : Type 0 where
  pub meet : AllMeet filters records
  pub few : length records ≤ filters.limit
  pub stored : (p : ComparisonRecord → Bool) → tally p records ≤ tally p rows
  pub complete :
      (p : ComparisonRecord → Bool)
      → ((row : ComparisonRecord) → p row ≡ true → Meets filters row)
      → filters.offset ≡ 0
      → length records < filters.limit
      → tally p records ≡ tally p rows
