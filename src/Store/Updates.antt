-- ===== src/Store/Updates.antt =====
-- What the writes of src/shadow_proxy/store/sql.py do to the rows that `get` reads.
use llm_shadow_proxy.Base.{
  ℕ, ◌≡◌, refl, false, none, some, [], ◌∷◌, ◌++◌, any, arith, if◌then◌else◌,
}
use llm_shadow_proxy.Base.Text.{Text, text_eq}
use llm_shadow_proxy.Base.Text.Laws.{text_eq_iff, text_eq_self}
use llm_shadow_proxy.Store.{
  ComparisonRecord, PendingComparison, FinalizePatch, Table, has_id, pending_row, insert_pending,
  update, in_progress_row, finalized_row, get,
}
use mathlib.Core.Option

-- The update leaves the primary key alone.
abbrev pub KeepsId : (ComparisonRecord → ComparisonRecord) → Type 0
KeepsId f = (row : ComparisonRecord) → (f row).request_id ≡ row.request_id

pub in_progress_row-KeepsId : (now : ℕ) → KeepsId (in_progress_row now)
unfolding in_progress_row
in_progress_row-KeepsId now row = refl

pub finalized_row-KeepsId : (now : ℕ) (patch : FinalizePatch) → KeepsId (finalized_row now patch)
unfolding finalized_row
finalized_row-KeepsId now patch row = refl

-- An update that leaves the primary key alone reaches the row of its key and no other.
pub get-update :
    (i j : Text) (f : ComparisonRecord → ComparisonRecord) (rows : Table)
    → KeepsId f
    → get j (update i f rows) ≡ (if text_eq i j then Option.map f (get j rows) else get j rows)
unfolding get update
get-update i j f [] keeps = ground arith
get-update i j f (row ∷ rows) keeps = ground (
  arith,
  keeps row,
  text_eq_iff i j,
  text_eq_iff i row.request_id,
  text_eq_iff j row.request_id,
  text_eq_self i,
  get-update i j f rows keeps,
)

get-append :
    (j : Text) (rows : Table) (row : ComparisonRecord)
    → get j (rows ++ row ∷ [])
      ≡ (elim (get j rows) [ some old ↦ some old | none ↦ if has_id j row then some row else none ])
unfolding get
get-append j [] row = refl
get-append j (old ∷ rows) row = ground (arith, get-append j rows row)

-- `insert_pending` fails exactly when the key is taken.
pub any-has_id : (j : Text) (rows : Table) → any (has_id j) rows ≡ false → get j rows ≡ none
unfolding get
any-has_id j [] h = refl
any-has_id j (row ∷ rows) h = ground (arith, any-has_id j rows)

pub insert_pending-eq :
    (r : PendingComparison) (rows : Table) {rows' : Table}
    → insert_pending r rows ≡ some rows'
    → (any (has_id r.request_id) rows ≡ false) × (rows' ≡ rows ++ pending_row r ∷ [])
unfolding insert_pending
insert_pending-eq r rows h = ground arith

pub pending_row-request_id : (r : PendingComparison) → (pending_row r).request_id ≡ r.request_id
unfolding pending_row
pending_row-request_id r = refl

-- An insertion that succeeds adds the pending row under its key, and every other key reads as
-- before.
pub get-insert_pending :
    (r : PendingComparison) (rows : Table) {rows' : Table}
    → insert_pending r rows ≡ some rows'
    → (j : Text)
    → get j rows' ≡ (if text_eq j r.request_id then some (pending_row r) else get j rows)
get-insert_pending r rows h j =
    let (fresh, grown) = insert_pending-eq r rows h in
    rw (grown, get-append j rows (pending_row r))
      (ground (
        arith,
        pending_row-request_id r,
        text_eq_iff j r.request_id,
        any-has_id r.request_id rows fresh,
      ))

pub update-id : (i : Text) (rows : Table) → update i (λ row. row) rows ≡ rows
unfolding update
update-id i [] = refl
update-id i (row ∷ rows) = ground (arith, update-id i rows)

-- Two updates of one row are the update by the composite.
pub update-update :
    (i : Text) (f g : ComparisonRecord → ComparisonRecord) (rows : Table)
    → KeepsId f
    → update i g (update i f rows) ≡ update i (λ row. g (f row)) rows
unfolding update
update-update i f g [] keeps = refl
update-update i f g (row ∷ rows) keeps = ground (arith, keeps row, update-update i f g rows keeps)

pub get-request_id :
    (i : Text) (rows : Table) {row : ComparisonRecord} → get i rows ≡ some row → i ≡ row.request_id
unfolding get
get-request_id i [] h = cc
get-request_id i (old ∷ rows) {row} h =
    ground (arith, text_eq_iff i old.request_id, get-request_id i rows {row = row})
