-- ===== src/Store/Keyed.antt =====
-- The primary key of the table (src/shadow_proxy/store/models.py): no two rows have one, and no write
-- of src/shadow_proxy/store/sql.py changes that.
use llm_shadow_proxy.Base.{◌≡◌, refl, false, ◌||◌, some, [], ◌∷◌, ◌++◌, any, arith}
use llm_shadow_proxy.Base.Text.{Text}
use llm_shadow_proxy.Base.Text.Laws.{text_eq_comm}
use llm_shadow_proxy.Store.{
  ComparisonRecord, PendingComparison, Table, has_id, pending_row, insert_pending, update,
}
use llm_shadow_proxy.Store.Updates.{KeepsId, insert_pending-eq, pending_row-request_id}

-- No two rows have one key.
abbrev pub IsKeyed : Table → Type 0
IsKeyed [] = Unit
IsKeyed (row ∷ rows) = (any (has_id row.request_id) rows ≡ false) × IsKeyed rows

any-update :
    (i j : Text) (f : ComparisonRecord → ComparisonRecord) (rows : Table)
    → KeepsId f
    → any (has_id j) (update i f rows) ≡ any (has_id j) rows
unfolding update
any-update i j f [] keeps = refl
any-update i j f (row ∷ rows) keeps = ground (arith, keeps row, any-update i j f rows keeps)

pub update-IsKeyed :
    (i : Text) (f : ComparisonRecord → ComparisonRecord) (rows : Table)
    → KeepsId f
    → IsKeyed rows
    → IsKeyed (update i f rows)
unfolding update
update-IsKeyed i f [] keeps h = tt
update-IsKeyed i f (row ∷ rows) keeps h =
    ground (
      arith,
      keeps row,
      any-update i row.request_id f rows keeps,
      update-IsKeyed i f rows keeps h.1,
    )

any-append :
    (j : Text) (rows : Table) (row : ComparisonRecord)
    → any (has_id j) (rows ++ row ∷ []) ≡ (any (has_id j) rows || has_id j row)
any-append j [] row = ground arith
any-append j (old ∷ rows) row = ground (arith, any-append j rows row)

append-IsKeyed :
    (rows : Table) (row : ComparisonRecord)
    → any (has_id row.request_id) rows ≡ false
    → IsKeyed rows
    → IsKeyed (rows ++ row ∷ [])
append-IsKeyed [] row fresh h = (refl, tt)
append-IsKeyed (old ∷ rows) row fresh h = ground (
  arith,
  any-append old.request_id rows row,
  text_eq_comm old.request_id row.request_id,
  append-IsKeyed rows row,
)

pub insert_pending-IsKeyed :
    (r : PendingComparison) (rows : Table) {rows' : Table}
    → insert_pending r rows ≡ some rows'
    → IsKeyed rows
    → IsKeyed rows'
insert_pending-IsKeyed r rows inserted h =
    let (fresh, grown) = insert_pending-eq r rows inserted in
    rw grown (append-IsKeyed rows (pending_row r) (rw (pending_row-request_id r) fresh) h)
