-- ===== src/Sweeper/Relabel.antt =====
-- What a tick of the sweeper does to a row whose primary call failed (src/shadow_proxy/sweeper.py).
use mathlib.Core.Option
use llm_shadow_proxy.Base.{
  ℕ, ◌+◌, ◌≤◌, ◌<◌, ◌≡◌, refl, Bool, true, false, some, [], ◌∷◌, map, ap, arith, tally,
  if◌then◌else◌,
}
use llm_shadow_proxy.Base.Text.{Text}
use llm_shadow_proxy.Evaluator.{Verdict}
use llm_shadow_proxy.Store.{
  ComparisonRecord, PendingComparison, Table, is_ok, pending_row, finalized_row, get,
}
use llm_shadow_proxy.Store.Updates.{KeepsId}
use llm_shadow_proxy.Store.Queries.{Engine, IsComplete, is_stale}
use llm_shadow_proxy.Sweeper.{run_once, sweep_limit}
use llm_shadow_proxy.Store.Keyed.{IsKeyed}
use llm_shadow_proxy.Sweeper.Reconcile.{swept, run_once_lem}

get-map :
    (f : ComparisonRecord → ComparisonRecord) (i : Text) (rows : Table)
    → KeepsId f
    → get i (map f rows) ≡ Option.map f (get i rows)
unfolding get
get-map f i [] keeps = refl
get-map f i (row ∷ rows) keeps = ground (arith, keeps row, get-map f i rows keeps)

swept_if_stale-KeepsId :
    (asked threshold now : ℕ)
    → KeepsId (λ row. if is_stale asked threshold row then swept now row else row)
unfolding finalized_row
swept_if_stale-KeepsId asked threshold now row = ground arith

pending_row-stale :
    (r : PendingComparison) (asked threshold : ℕ)
    → r.received_at + threshold < asked
    → is_stale asked threshold (pending_row r) ≡ true
unfolding is_stale pending_row
pending_row-stale r asked threshold h = ground arith

pending_row-verdict :
    (r : PendingComparison)
    → is_ok r.primary_status ≡ false
    → (pending_row r).verdict ≡ Verdict.primary_error
unfolding pending_row
pending_row-verdict r bad = ground arith

swept-verdict :
    (now : ℕ) (row : ComparisonRecord) → (swept now row).verdict ≡ Verdict.candidate_error
unfolding finalized_row
swept-verdict now row = refl

-- The pending row of a failed primary call is stored as `primary_error`. Once it is older than the
-- threshold a tick changes its verdict to `candidate_error`, on a table with unique keys and at most a
-- thousand stale rows, where the database answers.
pub run_once-primary_error :
    (db : Engine) (broken : Text → Bool) (threshold asked now : ℕ) (rows : Table) (total : ℕ)
    → IsComplete db
    → ((i : Text) → broken i ≡ false)
    → IsKeyed rows
    → tally (is_stale asked threshold) rows ≤ sweep_limit
    → (r : PendingComparison) → get r.request_id rows ≡ some (pending_row r)
    → is_ok r.primary_status ≡ false
    → r.received_at + threshold < asked
    → (Option.map (λ row. row.verdict) (get r.request_id rows) ≡ some Verdict.primary_error)
      × (Option.map
            (λ row. row.verdict)
            (get r.request_id (run_once db broken threshold asked now rows total).rows)
          ≡ some Verdict.candidate_error)
run_once-primary_error db broken threshold asked now rows total complete up keyed few r at bad old =
    let after =
      λ (row : ComparisonRecord). if is_stale asked threshold row then swept now row else row in
    let mapped : get r.request_id (map after rows) ≡ some (swept now (pending_row r)) = rw (
      get-map after r.request_id rows (swept_if_stale-KeepsId asked threshold now),
      at,
      pending_row-stale r asked threshold old,
    ) in
    (
      rw at (ap some (pending_row-verdict r bad)),
      rw (run_once_lem db broken threshold asked now rows total complete up keyed few, mapped)
          (ap some (swept-verdict now (pending_row r))),
    )
