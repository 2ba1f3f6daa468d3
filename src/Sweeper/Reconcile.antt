-- ===== src/Sweeper/Reconcile.antt =====
-- One tick of the sweeper (`run_once` of src/shadow_proxy/sweeper.py).
use mathlib.Core.List.{Memᴰ}
use mathlib.Core.Path.{subst}
use llm_shadow_proxy.Base.{
  ℕ, ◌+◌, ◌≤◌, ◌≡◌, refl, Bool, true, false, ◌&&◌, some, List, [], ◌∷◌, map, arith, ltb, sym, ◌∙◌,
  length, length-map, length-select, take_all, select, tally, any, if◌then◌else◌,
}
use llm_shadow_proxy.Base.Text.{Text, text_eq}
use llm_shadow_proxy.Base.Text.Laws.{text_eq_self, text_eq_comm}
use llm_shadow_proxy.Store.{ComparisonRecord, Table, has_id, finalized_row, finalize, update}
use llm_shadow_proxy.Store.Keyed.{IsKeyed}
use llm_shadow_proxy.Store.Queries.{Engine, IsComplete, is_stale, find_stale, request_ids}
use llm_shadow_proxy.Sweeper.{stale_patch, finalize_all, run_once, sweep_limit}

-- What the sweeper makes of a row.
abbrev pub swept : ℕ → ComparisonRecord → ComparisonRecord
swept now = finalized_row now (stale_patch now)

abbrev pub listed : List Text → Text → Bool
listed ids i = any (text_eq i) ids

-- The row after a loop over `ids`.
abbrev stamp : ℕ → List Text → ComparisonRecord → ComparisonRecord
stamp now ids row = if listed ids row.request_id then swept now row else row

stamp-nil : (now : ℕ) (rows : Table) → map (stamp now []) rows ≡ rows
stamp-nil now [] = refl
stamp-nil now (row ∷ rows) = cc (stamp-nil now rows)

swept-swept : (now : ℕ) (row : ComparisonRecord) → swept now (swept now row) ≡ swept now row
unfolding finalized_row
swept-swept now row = refl

stamp-finalized :
    (now : ℕ) (i : Text) (ids : List Text) (row : ComparisonRecord)
    → stamp now ids (if has_id i row then swept now row else row) ≡ stamp now (i ∷ ids) row
unfolding finalized_row
stamp-finalized now i ids row = ground (arith, text_eq_comm row.request_id i)

map-stamp-finalize :
    (now : ℕ) (i : Text) (ids : List Text) (rows : Table)
    → map (stamp now ids) (finalize now i (stale_patch now) rows) ≡ map (stamp now (i ∷ ids)) rows
unfolding finalize update
map-stamp-finalize now i ids [] = refl
map-stamp-finalize now i ids (row ∷ rows) =
    cc (stamp-finalized now i ids row, map-stamp-finalize now i ids rows)

-- The loop writes the patch into the rows whose keys are listed, however often they are.
finalize_all-map :
    (broken : Text → Bool) (now : ℕ) (ids : List Text) (rows : Table)
    → ((i : Text) → broken i ≡ false)
    → finalize_all broken now ids rows ≡ (map (stamp now ids) rows, true)
unfolding finalize_all
finalize_all-map broken now [] rows up = rw (stamp-nil now rows)
finalize_all-map broken now (i ∷ ids) rows up = rw (
  up i,
  finalize_all-map broken now ids (finalize now i (stale_patch now) rows) up,
  map-stamp-finalize now i ids rows,
)

any-and-false :
    (p : ComparisonRecord → Bool) (j : Text) (rows : Table)
    → any (has_id j) rows ≡ false
    → any (λ r. p r && has_id j r) rows ≡ false
any-and-false p j [] h = refl
any-and-false p j (row ∷ rows) h = ground (arith, any-and-false p j rows)

has_id-Mem :
    (j : Text) {row : ComparisonRecord} (rows : Table)
    → any (has_id j) rows ≡ false
    → Memᴰ row rows
    → text_eq j row.request_id ≡ false
has_id-Mem j [] h m = elim m [ ]
has_id-Mem j (x ∷ rows) h (Memᴰ.head e) = rw e (ground arith)
has_id-Mem j (x ∷ rows) h (Memᴰ.tail m) = ground (arith, has_id-Mem j rows (ground arith) m)

-- In a keyed table, a row is the only one with its key.
any-keyed :
    (p : ComparisonRecord → Bool) {row : ComparisonRecord} (rows : Table)
    → IsKeyed rows
    → Memᴰ row rows
    → any (λ r. p r && has_id row.request_id r) rows ≡ p row
any-keyed p [] k m = elim m [ ]
any-keyed p (x ∷ rows) k (Memᴰ.head e) =
    subst (λ row. any (λ r. p r && has_id row.request_id r) (x ∷ rows) ≡ p row) (sym e)
      (ground (arith, text_eq_self x.request_id, any-and-false p x.request_id rows k.0))
any-keyed p {row} (x ∷ rows) k (Memᴰ.tail m) = ground (
  arith,
  any-keyed p rows k.1 m,
  has_id-Mem x.request_id rows k.0 m,
  text_eq_comm x.request_id row.request_id,
)

pub any-select :
    (p q : ComparisonRecord → Bool) (rows : Table)
    → any q (select p rows) ≡ any (λ r. p r && q r) rows
any-select p q [] = refl
any-select p q (row ∷ rows) = ground (arith, any-select p q rows)

pub listed-request_ids :
    (j : Text) (rows : Table) → listed (request_ids rows) j ≡ any (has_id j) rows
listed-request_ids j [] = refl
listed-request_ids j (row ∷ rows) = ground (arith, listed-request_ids j rows)

pub any-positive : (p : ComparisonRecord → Bool) (rows : Table) → any p rows ≡ ltb 0 (tally p rows)
any-positive p [] = refl
any-positive p (row ∷ rows) = ground (arith, any-positive p rows)

-- A row is listed as stale exactly if it is stale.
listed-find_stale :
    (db : Engine) (threshold asked : ℕ) {row : ComparisonRecord} (rows : Table)
    → IsComplete db
    → IsKeyed rows
    → tally (is_stale asked threshold) rows ≤ sweep_limit
    → Memᴰ row rows
    → listed (find_stale db asked threshold sweep_limit rows) row.request_id
      ≡ is_stale asked threshold row
unfolding find_stale
listed-find_stale db threshold asked {row} rows complete keyed few m =
    let stale = is_stale asked threshold in
    let found = select stale (db.scan rows) in
    let few_found : length found ≤ sweep_limit =
      omega (arith, length-select stale (db.scan rows), complete.scan-tally stale rows, few) in
    rw
      (
        take_all sweep_limit found few_found,
        listed-request_ids row.request_id found,
        any-select stale (has_id row.request_id) (db.scan rows),
        any-positive (λ r. stale r && has_id row.request_id r) (db.scan rows),
        complete.scan-tally (λ r. stale r && has_id row.request_id r) rows,
        ← any-positive (λ r. stale r && has_id row.request_id r) rows,
      )
      (any-keyed stale rows keyed m)

map_members :
    (f g : ComparisonRecord → ComparisonRecord) (rows : Table)
    → ((row : ComparisonRecord) → Memᴰ row rows → f row ≡ g row)
    → map f rows ≡ map g rows
map_members f g [] same = refl
map_members f g (row ∷ rows) same =
    cc (same row (Memᴰ.head refl), map_members f g rows (λ r m. same r (Memᴰ.tail m)))

-- How many ids a tick reads, if there are no more stale rows than its limit.
length-find_stale :
    (db : Engine) (threshold asked : ℕ) (rows : Table)
    → IsComplete db
    → tally (is_stale asked threshold) rows ≤ sweep_limit
    → length (find_stale db asked threshold sweep_limit rows)
      ≡ tally (is_stale asked threshold) rows
unfolding find_stale
length-find_stale db threshold asked rows complete few =
    let stale = is_stale asked threshold in
    let found = select stale (db.scan rows) in
    let few_found : length found ≤ sweep_limit =
      omega (arith, length-select stale (db.scan rows), complete.scan-tally stale rows, few) in
    rw (take_all sweep_limit found few_found, length-map (λ row. row.request_id) found)
      (length-select stale (db.scan rows) ∙ complete.scan-tally stale rows)

-- A tick of the sweeper on a table with unique keys, where the database answers and at most a
-- thousand rows are stale: exactly the stale rows become `timeout_stale` with the verdict
-- `candidate_error`, all other rows stay as they are, and the result and the metric are the number
-- of stale rows.
pub run_once_lem :
    (db : Engine) (broken : Text → Bool) (threshold asked now : ℕ) (rows : Table) (total : ℕ)
    → IsComplete db
    → ((i : Text) → broken i ≡ false)
    → IsKeyed rows
    → tally (is_stale asked threshold) rows ≤ sweep_limit
    → run_once db broken threshold asked now rows total ≡ record {
      rows = map (λ row. if is_stale asked threshold row then swept now row else row) rows;
      reconciled_total = total + tally (is_stale asked threshold) rows;
      result = some (tally (is_stale asked threshold) rows);
    }
unfolding run_once
run_once_lem db broken threshold asked now rows total complete up keyed few =
    let ids = find_stale db asked threshold sweep_limit rows in
    let stamped : map (stamp now ids) rows
        ≡ map (λ row. if is_stale asked threshold row then swept now row else row) rows =
      map_members (stamp now ids)
        (λ row. if is_stale asked threshold row then swept now row else row) rows
        (λ row m. rw (listed-find_stale db threshold asked rows complete keyed few m)) in
    rw (
      finalize_all-map broken now ids rows up,
      stamped,
      length-find_stale db threshold asked rows complete few,
    )
