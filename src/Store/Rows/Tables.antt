-- ===== src/Store/Rows/Tables.antt =====
-- The table as columns, with the writes and the read of one row (src/shadow_proxy/store/sql.py), and the
-- table of Store as what `_to_record` makes of it.
use llm_shadow_proxy.Base.{
  ℕ, ◌≡◌, refl, sym, ap, ◌∙◌, Bool, Option, none, some, Option-cases, inl, inr, List, [], ◌∷◌, ◌++◌,
  any, arith, if◌then◌else◌,
}
use llm_shadow_proxy.Base.Text.{Text, text_eq}
use llm_shadow_proxy.Evaluator.{Verdict}
use llm_shadow_proxy.Store.{
  PrimaryStatus, CandidateStatus, is_ok, PendingComparison, FinalizePatch, ComparisonRecord, Table,
  has_id, pending_row, in_progress_row, finalized_row,
}
use llm_shadow_proxy.Store.Rows.{
  ComparisonRow, new_row, mark_columns, finalize_columns, to_record, primary_status_of,
  candidate_status_of, verdict_of, with_enums, primary_status_of-value, candidate_status_of-value,
  verdict_of-value,
}

abbrev pub names : Text → ComparisonRow → Bool
names request_id row = text_eq request_id row.request_id

-- `insert_pending`; `none` is the `IntegrityError`.
unfoldable pub add_row : PendingComparison → List ComparisonRow → Option (List ComparisonRow)
add_row r stored = if any (names r.request_id) stored then none else some (stored ++ new_row r ∷ [])

-- `update(ComparisonRow).where(ComparisonRow.request_id == request_id)`
unfoldable pub update_rows :
    Text → (ComparisonRow → ComparisonRow) → List ComparisonRow → List ComparisonRow
update_rows request_id f [] = []
update_rows request_id f (row ∷ stored) =
    (if names request_id row then f row else row) ∷ update_rows request_id f stored

-- `get`: the record, if there is a row; the outer `none` is the `ValueError`.
unfoldable pub read_row : Text → List ComparisonRow → Option (Option ComparisonRecord)
read_row request_id [] = some none
read_row request_id (row ∷ stored) =
    let later = read_row request_id stored in
    if names request_id row
    then (elim (to_record row) [ none ↦ none | some r ↦ some (some r) ])
    else later

-- All rows as records.
unfoldable pub read_all : List ComparisonRow → Option Table
read_all [] = some []
read_all (row ∷ stored) = elim (to_record row) [
  | none ↦ none
  | some r ↦ elim (read_all stored) [ none ↦ none | some rows ↦ some (r ∷ rows) ]
]

-- A row that can be read, and its record.
record Typed (row : ComparisonRow) (r : ComparisonRecord) : Type 0 where
  primary : PrimaryStatus
  candidate : CandidateStatus
  verdict : Verdict
  primary_reads : primary_status_of row.primary_status ≡ some primary
  candidate_reads : candidate_status_of row.candidate_status ≡ some candidate
  verdict_reads : verdict_of row.verdict ≡ some verdict
  same : r ≡ with_enums row primary candidate verdict

to_record-Typed :
    (row : ComparisonRow) {r : ComparisonRecord} → to_record row ≡ some r → Typed row r
unfolding to_record
to_record-Typed row e = elim (Option-cases (primary_status_of row.primary_status)) [
  | inl bad ↦ absurd (ground arith)
  | inr (p, reads_p) ↦ elim (Option-cases (candidate_status_of row.candidate_status)) [
    | inl bad ↦ absurd (ground arith)
    | inr (c, reads_c) ↦ elim (Option-cases (verdict_of row.verdict)) [
      | inl bad ↦ absurd (ground arith)
      | inr (v, reads_v) ↦ record {
        primary = p;
        candidate = c;
        verdict = v;
        primary_reads = reads_p;
        candidate_reads = reads_c;
        verdict_reads = reads_v;
        same = ground arith;
      }
    ]
  ]
]

to_record-reads :
    (row : ComparisonRow) (p : PrimaryStatus) (c : CandidateStatus) (v : Verdict)
    → primary_status_of row.primary_status ≡ some p
    → candidate_status_of row.candidate_status ≡ some c
    → verdict_of row.verdict ≡ some v
    → to_record row ≡ some (with_enums row p c v)
unfolding to_record
to_record-reads row p c v reads_p reads_c reads_v = ground arith

pub new_row-reads : (p : PendingComparison) → to_record (new_row p) ≡ some (pending_row p)
unfolding new_row pending_row
new_row-reads p =
    let verdict : Verdict =
      if is_ok p.primary_status then Verdict.pending else Verdict.primary_error in
    to_record-reads (new_row p) p.primary_status CandidateStatus.pending verdict
      (primary_status_of-value p.primary_status) (candidate_status_of-value CandidateStatus.pending)
      (verdict_of-value verdict)

pub mark_columns-reads :
    (now : ℕ) (row : ComparisonRow) {r : ComparisonRecord}
    → to_record row ≡ some r
    → to_record (mark_columns now row) ≡ some (in_progress_row now r)
unfolding mark_columns in_progress_row
mark_columns-reads now row e =
    let t = to_record-Typed row e in
    to_record-reads (mark_columns now row) t.primary CandidateStatus.in_progress t.verdict
      t.primary_reads (candidate_status_of-value CandidateStatus.in_progress) t.verdict_reads
    ∙ ap (λ r. some (in_progress_row now r)) (sym t.same)

pub finalize_columns-reads :
    (now : ℕ) (patch : FinalizePatch) (row : ComparisonRow) {r : ComparisonRecord}
    → to_record row ≡ some r
    → to_record (finalize_columns now patch row) ≡ some (finalized_row now patch r)
unfolding finalize_columns finalized_row
finalize_columns-reads now patch row e =
    let t = to_record-Typed row e in
    to_record-reads (finalize_columns now patch row) t.primary patch.candidate_status patch.verdict
      t.primary_reads (candidate_status_of-value patch.candidate_status)
      (verdict_of-value patch.verdict)
    ∙ ap (λ r. some (finalized_row now patch r)) (sym t.same)

pub Typed-names :
    (request_id : Text) (row : ComparisonRow) {r : ComparisonRecord}
    → to_record row ≡ some r
    → has_id request_id r ≡ names request_id row
Typed-names request_id row e = rw (to_record-Typed row e).same refl

-- A list that can be read, by its first row.
pub read_all-parts :
    (row : ComparisonRow) (stored : List ComparisonRow) {rows : Table}
    → read_all (row ∷ stored) ≡ some rows
    → (r : ComparisonRecord) × (rest : Table) × (to_record row ≡ some r)
      × (read_all stored ≡ some rest)
      × (rows ≡ r ∷ rest)
unfolding read_all
read_all-parts row stored e = elim (Option-cases (to_record row)) [
  | inl bad ↦ absurd (ground arith)
  | inr (r, reads) ↦ elim (Option-cases (read_all stored)) [
    | inl bad ↦ absurd (ground arith)
    | inr (rest, reads_rest) ↦ (r, rest, reads, reads_rest, ground arith)
  ]
]

pub read_all-cons :
    (row : ComparisonRow) (stored : List ComparisonRow) {r : ComparisonRecord} {rest : Table}
    → to_record row ≡ some r
    → read_all stored ≡ some rest
    → read_all (row ∷ stored) ≡ some (r ∷ rest)
unfolding read_all
read_all-cons row stored e e' = ground arith
