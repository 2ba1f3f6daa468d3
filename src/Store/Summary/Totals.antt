-- ===== src/Store/Summary/Totals.antt =====
-- The counts of a summary (`summary` of src/shadow_proxy/store/sql.py), where the table is written
-- between its queries.
use llm_shadow_proxy.Base.{
  ℕ, ◌+◌, ◌≤◌, ◌≡◌, refl, Bool, List, [], ◌∷◌, ◌++◌, length, select, tally, arith, ◌∙◌,
  length-select,
}
use llm_shadow_proxy.Base.Text.{Text, text_eq}
use llm_shadow_proxy.Evaluator.{Verdict}
use llm_shadow_proxy.Store.{
  ComparisonRecord, Table, pending_row, update, in_progress_row, mark_in_progress, finalized_row,
  finalize,
}
use llm_shadow_proxy.Store.Updates.{insert_pending-eq}
use llm_shadow_proxy.Store.Journal.{Edits, unchanged, inserted, marked, finalized}
use llm_shadow_proxy.Store.Queries.{Engine, IsComplete}
use llm_shadow_proxy.Store.Summary.{all_verdicts, has_verdict, is_since, groups, Reads, summary}

abbrev pub sum_counts : List (Verdict × ℕ) → ℕ
sum_counts [] = 0
sum_counts ((v, n) ∷ rest) = n + sum_counts rest

-- The counts over a list of verdicts, the empty groups included.
abbrev count_over : Table → List Verdict → ℕ
count_over rows [] = 0
count_over rows (v ∷ vs) = tally (has_verdict v) rows + count_over rows vs

sum_counts-groups :
    (rows : Table) (vs : List Verdict) → sum_counts (groups rows vs) ≡ count_over rows vs
unfolding groups
sum_counts-groups rows [] = refl
sum_counts-groups rows (v ∷ vs) = ground (arith, sum_counts-groups rows vs)

one_verdict :
    (row : ComparisonRecord) (v : Verdict)
    → row.verdict ≡ v
    → count_over (row ∷ []) all_verdicts ≡ 1
unfolding text_eq
one_verdict row Verdict.pending e = rw e refl
one_verdict row Verdict.match e = rw e refl
one_verdict row Verdict.mismatch e = rw e refl
one_verdict row Verdict.invalid_json e = rw e refl
one_verdict row Verdict.candidate_error e = rw e refl
one_verdict row Verdict.primary_error e = rw e refl

tally-cons :
    (p : ComparisonRecord → Bool) (row : ComparisonRecord) (rows : Table)
    → tally p (row ∷ rows) ≡ tally p (row ∷ []) + tally p rows
tally-cons p row rows = ground arith

count_over-cons :
    (row : ComparisonRecord) (rows : Table) (vs : List Verdict)
    → count_over (row ∷ rows) vs ≡ count_over (row ∷ []) vs + count_over rows vs
count_over-cons row rows [] = refl
count_over-cons row rows (v ∷ vs) =
    omega (arith, tally-cons (has_verdict v) row rows, count_over-cons row rows vs)

count_over-all : (rows : Table) → count_over rows all_verdicts ≡ length rows
count_over-all [] = refl
count_over-all (row ∷ rows) = omega (
  arith,
  count_over-cons row rows all_verdicts,
  one_verdict row row.verdict refl,
  count_over-all rows,
)

tally-append :
    (p : ComparisonRecord → Bool) (rows : Table) (row : ComparisonRecord)
    → tally p rows ≤ tally p (rows ++ row ∷ [])
tally-append p [] row = omega arith
tally-append p (old ∷ rows) row = ground (arith, tally-append p rows row)

tally-update :
    (p : ComparisonRecord → Bool) (i : Text) (f : ComparisonRecord → ComparisonRecord)
    (rows : Table)
    → ((row : ComparisonRecord) → p (f row) ≡ p row)
    → tally p (update i f rows) ≡ tally p rows
unfolding update
tally-update p i f [] same = refl
tally-update p i f (row ∷ rows) same = ground (arith, same row, tally-update p i f rows same)

-- The writes of a run take no row out of the window.
tally-Edits :
    (now window : ℕ) {rows rows' : Table}
    → Edits rows rows'
    → tally (is_since now window) rows ≤ tally (is_since now window) rows'
unfolding mark_in_progress finalize in_progress_row finalized_row
tally-Edits now window unchanged = omega arith
tally-Edits now window (inserted {mid} r e ok) = ground (
  arith,
  tally-Edits now window e,
  insert_pending-eq r mid ok,
  tally-append (is_since now window) mid (pending_row r),
)
tally-Edits now window (marked {mid} at i e eq) = ground (
  arith,
  tally-Edits now window e,
  tally-update (is_since now window) i (in_progress_row at) mid (λ row. refl),
)
tally-Edits now window (finalized {mid} at i patch e closed eq) = ground (
  arith,
  tally-Edits now window e,
  tally-update (is_since now window) i (finalized_row at patch) mid (λ row. refl),
)

-- The verdict counts of a summary add up to the number of rows that were received within the window when
-- the counts were read, and its total is that number when the total was read. Where only a run's writes lie
-- between the two reads, the total is at most the sum of the counts.
pub sum_counts-summary :
    (db : Engine) (now window : ℕ) (reads : Reads)
    → IsComplete db
    → Edits reads.counted reads.grouped
    → let stats = summary db now window reads in
      (sum_counts stats.verdicts ≡ tally (is_since now window) reads.grouped)
      × (stats.total ≡ tally (is_since now window) reads.counted)
      × (stats.total ≤ sum_counts stats.verdicts)
unfolding summary
sum_counts-summary db now window reads complete edits =
    let recent = select (is_since now window) (db.scan reads.grouped) in
    let counts : sum_counts (groups recent all_verdicts)
        ≡ tally (is_since now window) reads.grouped =
      sum_counts-groups recent all_verdicts
      ∙ (count_over-all recent
          ∙ (length-select (is_since now window) (db.scan reads.grouped)
              ∙ complete.scan-tally (is_since now window) reads.grouped)) in
    let total : length (select (is_since now window) (db.scan reads.counted))
        ≡ tally (is_since now window) reads.counted =
      length-select (is_since now window) (db.scan reads.counted)
      ∙ complete.scan-tally (is_since now window) reads.counted in
    (counts, total, omega (arith, counts, total, tally-Edits now window edits))
