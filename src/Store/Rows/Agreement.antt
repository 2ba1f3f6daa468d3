-- ===== src/Store/Rows/Agreement.antt =====
-- The writes and the read of src/shadow_proxy/store/sql.py on columns, against those of Store on records.
use llm_shadow_proxy.Base.{
  ℕ, ◌≡◌, refl, sym, ap, ◌∙◌, Bool, true, false, Option, none, some, List, [], ◌∷◌, ◌++◌, any,
  arith, if◌then◌else◌,
}
use llm_shadow_proxy.Base.Text.{Text}
use llm_shadow_proxy.Store.{
  PendingComparison, FinalizePatch, ComparisonRecord, Table, has_id, pending_row, insert_pending,
  update, in_progress_row, mark_in_progress, finalized_row, finalize, get,
}
use llm_shadow_proxy.Store.Rows.{ComparisonRow, new_row, mark_columns, finalize_columns, to_record}
use llm_shadow_proxy.Store.Rows.Tables.{
  names, add_row, update_rows, read_row, read_all, new_row-reads, mark_columns-reads,
  finalize_columns-reads, Typed-names, read_all-parts, read_all-cons,
}

read_all-nil : {rows : Table} → read_all [] ≡ some rows → rows ≡ []
unfolding read_all
read_all-nil e = ground arith

-- A change of columns that is a change of records.
abbrev Agrees : (ComparisonRow → ComparisonRow) → (ComparisonRecord → ComparisonRecord) → Type 0
Agrees f g =
    (row : ComparisonRow) (r : ComparisonRecord)
    → to_record row ≡ some r
    → to_record (f row) ≡ some (g r)

picked :
    (hit hit' : Bool) (f : ComparisonRow → ComparisonRow) (g : ComparisonRecord → ComparisonRecord)
    (row : ComparisonRow) (r : ComparisonRecord)
    → Agrees f g
    → hit ≡ hit'
    → to_record row ≡ some r
    → to_record (if hit then f row else row) ≡ some (if hit' then g r else r)
picked true true f g row r agrees same e = agrees row r e
picked false false f g row r agrees same e = e
picked true false f g row r agrees same e = cc
picked false true f g row r agrees same e = cc

update_rows-reads :
    (request_id : Text) (f : ComparisonRow → ComparisonRow)
    (g : ComparisonRecord → ComparisonRecord)
    → Agrees f g
    → (stored : List ComparisonRow) {rows : Table} → read_all stored ≡ some rows
    → read_all (update_rows request_id f stored) ≡ some (update request_id g rows)
unfolding update_rows update
update_rows-reads i f g agrees [] e = rw (read_all-nil e) (e ∙ ap some (read_all-nil e))
update_rows-reads i f g agrees (row ∷ stored) e =
    let (r, rest, reads, reads_rest, same) = read_all-parts row stored e in
    read_all-cons (if names i row then f row else row) (update_rows i f stored)
      (picked (names i row) (has_id i r) f g row r agrees (sym (Typed-names i row reads)) reads)
      (update_rows-reads i f g agrees stored reads_rest)
    ∙ ap (λ rows. some (update i g rows)) (sym same)

any-names :
    (i : Text) (stored : List ComparisonRow) {rows : Table}
    → read_all stored ≡ some rows
    → any (names i) stored ≡ any (has_id i) rows
any-names i [] e = rw (read_all-nil e) refl
any-names i (row ∷ stored) e =
    let (r, rest, reads, reads_rest, same) = read_all-parts row stored e in
    ground (arith, same, Typed-names i row reads, any-names i stored reads_rest)

read_all-append :
    (p : PendingComparison) (stored : List ComparisonRow) {rows : Table}
    → read_all stored ≡ some rows
    → read_all (stored ++ new_row p ∷ []) ≡ some (rows ++ pending_row p ∷ [])
unfolding read_all
read_all-append p [] e = rw (read_all-nil e) (read_all-cons (new_row p) [] (new_row-reads p) refl)
read_all-append p (row ∷ stored) e =
    let (r, rest, reads, reads_rest, same) = read_all-parts row stored e in
    read_all-cons row (stored ++ new_row p ∷ []) reads (read_all-append p stored reads_rest)
    ∙ ap (λ rows. some (rows ++ pending_row p ∷ [])) (sym same)

-- Reading behind a write that may fail.
abbrev pub read_after : Option (List ComparisonRow) → Option (Option Table)
read_after none = some none
read_after (some stored) = elim (read_all stored) [ none ↦ none | some rows ↦ some (some rows) ]

add_row-reads :
    (p : PendingComparison) (stored : List ComparisonRow) {rows : Table}
    → read_all stored ≡ some rows
    → read_after (add_row p stored) ≡ some (insert_pending p rows)
unfolding add_row insert_pending
add_row-reads p stored e =
    ground (arith, any-names p.request_id stored e, read_all-append p stored e)

read_row-reads :
    (i : Text) (stored : List ComparisonRow) {rows : Table}
    → read_all stored ≡ some rows
    → read_row i stored ≡ some (get i rows)
unfolding read_row get
read_row-reads i [] e = rw (read_all-nil e) refl
read_row-reads i (row ∷ stored) e =
    let (r, rest, reads, reads_rest, same) = read_all-parts row stored e in
    ground (arith, reads, same, Typed-names i row reads, read_row-reads i stored reads_rest)

-- On a table of columns in which `_to_record` can read each row, as the given records: `insert_pending`
-- fails exactly if it fails on the records, and after it, `mark_in_progress` or `finalize` each row can
-- still be read, as the records after the same write; and `get` gives the same record.
pub read_all_lem :
    (stored : List ComparisonRow) (rows : Table) (p : PendingComparison) (now : ℕ)
    (patch : FinalizePatch) (request_id : Text)
    → read_all stored ≡ some rows
    → (read_after (add_row p stored) ≡ some (insert_pending p rows))
      × (read_all (update_rows request_id (mark_columns now) stored)
          ≡ some (mark_in_progress now request_id rows))
      × (read_all (update_rows request_id (finalize_columns now patch) stored)
          ≡ some (finalize now request_id patch rows))
      × (read_row request_id stored ≡ some (get request_id rows))
unfolding mark_in_progress finalize
read_all_lem stored rows p now patch i e = (
  add_row-reads p stored e,
  update_rows-reads i (mark_columns now) (in_progress_row now) (λ row r. mark_columns-reads now row)
      stored e,
  update_rows-reads i (finalize_columns now patch) (finalized_row now patch)
      (λ row r. finalize_columns-reads now patch row) stored e,
  read_row-reads i stored e,
)
