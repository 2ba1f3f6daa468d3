-- ===== src/Store/Summary.antt =====
-- `summary` and `_percentile` of src/shadow_proxy/store/sql.py. Where the source computes with floats,
-- a percentile is held exactly, in hundredths of a millisecond, and `q` in percent.
pub mod Bounds
pub mod Growth
pub mod Totals
use llm_shadow_proxy.Base.{
  ℕ, suc, ◌+◌, ◌-◌, ◌*◌, ◌/◌, ◌%◌, Bool, Option, none, some, List, [], ◌∷◌, if◌then◌else◌, leb, ltb,
  length, select, tally, get_elem?, map,
}
use llm_shadow_proxy.Base.Text.{text_eq}
use llm_shadow_proxy.Evaluator.{Verdict, verdict_value}
use llm_shadow_proxy.Store.{ComparisonRecord, Table}
use llm_shadow_proxy.Store.Queries.{Engine}

abbrev pub insert_sorted : ℕ → List ℕ → List ℕ
insert_sorted x [] = x ∷ []
insert_sorted x (y ∷ ys) =
    let rest = insert_sorted x ys in if leb x y then x ∷ (y ∷ ys) else y ∷ rest

-- `sorted(values)`
abbrev pub sorted : List ℕ → List ℕ
sorted [] = []
sorted (x ∷ xs) = insert_sorted x (sorted xs)

-- `_percentile`: there are no values, or a value, or an index is out of range.
pub data Percentile : Type 0 where
  no_values : Percentile
  value : ℕ → Percentile
  index_error : Percentile

-- Between two neighbours, `frac` hundredths of the way. The list is sorted, so the difference is not
-- negative.
abbrev pub interpolate : ℕ → Option ℕ → Option ℕ → Percentile
interpolate frac (some low) (some high) = value (low * 100 + (high - low) * frac)
interpolate frac _ _ = index_error

abbrev pub min : ℕ → ℕ → ℕ
min a b = if leb a b then a else b

abbrev pub percentile_of_sorted : ℕ → List ℕ → Percentile
percentile_of_sorted q [] = no_values
percentile_of_sorted q (x ∷ []) = value (x * 100)
percentile_of_sorted q (x ∷ y ∷ xs) =
    let last = suc (length xs) in
    let k = last * q in
    let lo = k / 100 in
    interpolate (k % 100) (get_elem? (x ∷ y ∷ xs) lo) (get_elem? (x ∷ y ∷ xs) (min (lo + 1) last))

unfoldable pub percentile : List ℕ → ℕ → Percentile
percentile values q = percentile_of_sorted q (sorted values)

abbrev pub all_verdicts : List Verdict
all_verdicts =
    Verdict.pending ∷ Verdict.match ∷ Verdict.mismatch ∷ Verdict.invalid_json
    ∷ Verdict.candidate_error ∷ Verdict.primary_error ∷ []

abbrev pub has_verdict : Verdict → ComparisonRecord → Bool
has_verdict v row = text_eq (verdict_value row.verdict) (verdict_value v)

-- `received_at >= now - window`
abbrev pub is_since : ℕ → ℕ → ComparisonRecord → Bool
is_since now window row = leb now (row.received_at + window)

-- `SELECT verdict, count(*) … GROUP BY verdict`: a verdict that no row has is not in the result.
unfoldable pub groups : Table → List Verdict → List (Verdict × ℕ)
groups rows [] = []
groups rows (v ∷ vs) =
    let rest = groups rows vs in
    if ltb 0 (tally (has_verdict v) rows) then (v, tally (has_verdict v) rows) ∷ rest else rest

abbrev pub known : List (Option ℕ) → List ℕ
known [] = []
known (none ∷ xs) = known xs
known (some x ∷ xs) = x ∷ known xs

pub record SummaryStats : Type 0 where
  pub window : ℕ
  pub total : ℕ
  pub verdicts : List (Verdict × ℕ)
  pub primary_latency_p50 : Percentile
  pub primary_latency_p95 : Percentile
  pub candidate_latency_p50 : Percentile
  pub candidate_latency_p95 : Percentile

-- The tables that the three queries of a summary find: the count, the `GROUP BY` and the latencies. The
-- source awaits between them, so rows can be written there.
pub record Reads : Type 0 where
  pub counted : Table
  pub grouped : Table
  pub timed : Table

-- The three queries, each on the rows since `now - window`.
unfoldable pub summary : Engine → ℕ → ℕ → Reads → SummaryStats
summary db now window reads =
    let recent = select (is_since now window) (db.scan reads.timed) in
    let primary_lats = map (λ row. row.primary_latency_ms) recent in
    let candidate_lats = known (map (λ row. row.candidate_latency_ms) recent) in
    record {
      window = window;
      total = length (select (is_since now window) (db.scan reads.counted));
      verdicts = groups (select (is_since now window) (db.scan reads.grouped)) all_verdicts;
      primary_latency_p50 = percentile primary_lats 50;
      primary_latency_p95 = percentile primary_lats 95;
      candidate_latency_p50 = percentile candidate_lats 50;
      candidate_latency_p95 = percentile candidate_lats 95;
    }
