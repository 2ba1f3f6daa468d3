-- ===== src/Sweeper/Loop.antt =====
-- The loop of the sweeper (`_run` of src/shadow_proxy/sweeper.py), which goes on after a tick that fails.
use mathlib.Core.Path.{subst}
use llm_shadow_proxy.Base.{
  ℕ, ◌≤◌, ◌≡◌, refl, Bool, true, false, List, [], ◌∷◌, ◌++◌, map, arith, tally, if◌then◌else◌,
  Bool-cases, inl, inr,
}
use llm_shadow_proxy.Base.Text.{Text}
use llm_shadow_proxy.Store.{Table, finalize, finalized_row, update}
use llm_shadow_proxy.Store.Keyed.{IsKeyed, update-IsKeyed}
use llm_shadow_proxy.Store.Updates.{finalized_row-KeepsId}
use llm_shadow_proxy.Store.Queries.{Engine, IsComplete, is_stale, find_stale}
use llm_shadow_proxy.Sweeper.{stale_patch, finalize_all, run_once, sweep_limit}
use llm_shadow_proxy.Sweeper.Reconcile.{swept, run_once_lem}

-- One round of the loop: where the database raises, and when the tick queries and writes.
pub record Round : Type 0 where
  pub broken : Text → Bool
  pub asked : ℕ
  pub now : ℕ

-- `_run`, for the rounds up to the stop: the table and `sweeper_reconciled_total`. An exception of a tick
-- is logged, and the loop waits for the interval or the stop.
unfoldable pub run : Engine → ℕ → List Round → Table → ℕ → Table × ℕ
run db threshold [] rows total = (rows, total)
run db threshold (r ∷ rounds) rows total =
    let tick = run_once db r.broken threshold r.asked r.now rows total in
    run db threshold rounds tick.rows tick.reconciled_total

-- `_task is not None`, and the event `_stop`.
pub record SweeperTask : Type 0 where
  pub is_running : Bool
  pub stop_set : Bool

-- `start`: the loop begins anew, unless it runs.
abbrev start_sweeper : SweeperTask → SweeperTask
start_sweeper s = if s.is_running then s else record { is_running = true; stop_set = false }

-- `stop`: the loop leaves at its next look at the event, or is cancelled after the interval and five
-- seconds.
abbrev pub stop_sweeper : SweeperTask → SweeperTask
stop_sweeper s = if s.is_running then record { is_running = false; stop_set = true } else s

-- A tick that may have failed: unique keys stay unique, and no row becomes stale.
record Tidies (asked threshold : ℕ) (rows rows' : Table) : Type 0 where
  keyed : IsKeyed rows → IsKeyed rows'
  fewer : tally (is_stale asked threshold) rows' ≤ tally (is_stale asked threshold) rows

finalize-fewer :
    (asked threshold now : ℕ) (i : Text) (rows : Table)
    → tally (is_stale asked threshold) (finalize now i (stale_patch now) rows)
      ≤ tally (is_stale asked threshold) rows
unfolding finalize update is_stale finalized_row
finalize-fewer asked threshold now i [] = omega arith
finalize-fewer asked threshold now i (row ∷ rows) =
    ground (arith, finalize-fewer asked threshold now i rows)

finalize-IsKeyed :
    (now : ℕ) (i : Text) (rows : Table)
    → IsKeyed rows
    → IsKeyed (finalize now i (stale_patch now) rows)
unfolding finalize
finalize-IsKeyed now i rows h =
    update-IsKeyed i (finalized_row now (stale_patch now)) rows
      (finalized_row-KeepsId now (stale_patch now)) h

finalize_all-Tidies :
    (asked threshold : ℕ) (broken : Text → Bool) (now : ℕ) (ids : List Text) (rows : Table)
    → Tidies asked threshold rows (finalize_all broken now ids rows).0
unfolding finalize_all
finalize_all-Tidies asked threshold broken now [] rows = record {
  keyed = λ h. h;
  fewer = omega arith;
}
finalize_all-Tidies asked threshold broken now (i ∷ ids) rows = elim (Bool-cases (broken i)) [
  | inl down ↦ rw down (record { keyed = λ h. h; fewer = omega arith })
  | inr up ↦
      let rest =
        finalize_all-Tidies asked threshold broken now ids
          (finalize now i (stale_patch now) rows) in
      rw up (record {
        keyed = λ h. rest.keyed (finalize-IsKeyed now i rows h);
        fewer = omega (arith, rest.fewer, finalize-fewer asked threshold now i rows);
      })
]

run_once-Tidies :
    (db : Engine) (r : Round) (asked threshold : ℕ) (rows : Table) (total : ℕ)
    → Tidies asked threshold rows (run_once db r.broken threshold r.asked r.now rows total).rows
unfolding run_once
run_once-Tidies db r asked threshold rows total =
    let ids = find_stale db r.asked threshold sweep_limit rows in
    subst (Tidies asked threshold rows) (ground arith)
      (finalize_all-Tidies asked threshold r.broken r.now ids rows)

tally-swept :
    (asked threshold now : ℕ) (rows : Table)
    → tally
        (is_stale asked threshold)
        (map (λ row. if is_stale asked threshold row then swept now row else row) rows)
      ≡ 0
unfolding is_stale finalized_row
tally-swept asked threshold now [] = refl
tally-swept asked threshold now (row ∷ rows) = ground (arith, tally-swept asked threshold now rows)

-- On a table with unique keys, where the queries return all rows: whatever the earlier rounds of the loop
-- came to, after a round in which the database answers none of the rows is left stale at the time of its
-- query, if at most a thousand were at the start.
pub run-is_stale :
    (db : Engine) (threshold : ℕ) (rounds : List Round) (last : Round) (rows : Table) (total : ℕ)
    → IsComplete db
    → IsKeyed rows
    → ((i : Text) → last.broken i ≡ false)
    → tally (is_stale last.asked threshold) rows ≤ sweep_limit
    → tally (is_stale last.asked threshold) (run db threshold (rounds ++ last ∷ []) rows total).0
      ≡ 0
unfolding run
run-is_stale db threshold [] last rows total complete keyed up few =
    rw (run_once_lem db last.broken threshold last.asked last.now rows total complete up keyed few)
      (tally-swept last.asked threshold last.now rows)
run-is_stale db threshold (r ∷ rounds) last rows total complete keyed up few =
    let tick = run_once db r.broken threshold r.asked r.now rows total in
    let tidy = run_once-Tidies db r last.asked threshold rows total in
    run-is_stale db threshold rounds last tick.rows tick.reconciled_total complete
      (tidy.keyed keyed) up (omega (arith, tidy.fewer, few))
