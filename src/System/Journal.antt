-- ===== src/System/Journal.antt =====
-- The table along every run of the whole program (src/shadow_proxy).
use mathlib.Core.Path.{subst}
use llm_shadow_proxy.Base.{
  ℕ, ◌≤◌, ◌≡◌, refl, Bool, Option, none, some, List, [], ◌∷◌, inl, inr, arith, Bool-cases,
}
use llm_shadow_proxy.Base.Text.{Text}
use llm_shadow_proxy.Store.{Table}
use llm_shadow_proxy.Store.Queries.{Engine, find_stale}
use llm_shadow_proxy.Store.Journal.{Edits, unchanged, finalized, Edits-trans, Entry, entry, Moves}
use llm_shadow_proxy.Store.Journal.Refines.{Edits-Moves, Moves-kept}
use llm_shadow_proxy.Sweeper.{stale_patch, finalize_all, run_once, sweep_limit}
use llm_shadow_proxy.Pipeline.World.{World}
use llm_shadow_proxy.Pipeline.Candidate.Phases.{Begun, begin-Edits, call_candidate-Edits}
use llm_shadow_proxy.Chat.{App}
use llm_shadow_proxy.Chat.Phases.{Kept, keep-Keeps, answer_stored-Effect}
use llm_shadow_proxy.Evaluations.Runtime.{put_runtime_config}
use llm_shadow_proxy.System.{
  Deployment, Step, stores, rejects, answers, takes, begins, ends, resumes, sweeps, requeues, tunes,
  restarts, Reach, here, next, restart,
}

finalize_all-Edits :
    (broken : Text → Bool) (now : ℕ) (ids : List Text) (rows : Table)
    → Edits rows (finalize_all broken now ids rows).0
unfolding finalize_all
finalize_all-Edits broken now [] rows = unchanged
finalize_all-Edits broken now (i ∷ ids) rows = elim (Bool-cases (broken i)) [
  | inl down ↦ rw down unchanged
  | inr up ↦ rw up (
      Edits-trans (finalized now i (stale_patch now) unchanged refl refl)
        (finalize_all-Edits broken now ids _))
]

run_once-Edits :
    (db : Engine) (broken : Text → Bool) (threshold asked now : ℕ) (rows : Table) (total : ℕ)
    → Edits rows (run_once db broken threshold asked now rows total).rows
unfolding run_once
run_once-Edits db broken threshold asked now rows total =
    let ids = find_stale db asked threshold sweep_limit rows in
    subst (Edits rows) (ground arith) (finalize_all-Edits broken now ids rows)

begun-Edits :
    {rows : Table} {r : World × Begun} {w : World} {b : Begun}
    → r ≡ (w, b)
    → Edits rows r.0.rows
    → Edits rows w.rows
begun-Edits {rows} e edits = subst (λ (r : World × Begun). Edits rows r.0.rows) e edits

kept-Edits :
    {rows : Table} {r : App × Kept} {app : App} {k : Kept}
    → r ≡ (app, k)
    → Edits rows r.0.world.rows
    → Edits rows app.world.rows
kept-Edits {rows} e edits = subst (λ (r : App × Kept). Edits rows r.0.world.rows) e edits

put_runtime_config-rows :
    (rate : Option ℕ) (app : App) → (put_runtime_config rate app).0.world.rows ≡ app.world.rows
unfolding put_runtime_config
put_runtime_config-rows none app = refl
put_runtime_config-rows (some rate) app = ground arith

pub Step-Edits : {s t : Deployment} → Step s t → Edits s.app.world.rows t.app.world.rows
unfolding restart
Step-Edits {s} (stores arrival body kept e) =
    rw e (kept-Edits kept (keep-Keeps arrival body s.app).edits)
Step-Edits {s} (rejects arrival body kept e) =
    rw e (kept-Edits kept (keep-Keeps arrival body s.app).edits)
Step-Edits {s} (answers before c after held e) = rw e (answer_stored-Effect c s.app).edits
Step-Edits (takes i ok e) = rw e unchanged
Step-Edits {s} (begins h env i job at free b e) =
    rw e (begun-Edits b (begin-Edits h env job.request_id s.app.world))
Step-Edits {s} (ends h env i job at free b ok e) =
    rw e (begun-Edits b (begin-Edits h env job.request_id s.app.world))
Step-Edits {s} (resumes h env before c after held ok e) =
    rw e (call_candidate-Edits h env c.row s.app.world)
Step-Edits {s} (sweeps db broken threshold asked now total e) =
    rw e (run_once-Edits db broken threshold asked now s.app.world.rows total)
Step-Edits (requeues db ok e) = rw e unchanged
Step-Edits {s} (tunes rate e) = rw (e, put_runtime_config-rows rate s.app) unchanged
Step-Edits (restarts capacity workers policy tape ok e) = rw e unchanged

Reach-Edits : {s t : Deployment} → Reach s t → Edits s.app.world.rows t.app.world.rows
Reach-Edits here = unchanged
Reach-Edits (next r step) = Edits-trans (Reach-Edits r) (Step-Edits step)

-- The whole program refines the journal: along every run of chats and calls of the handler with other
-- tasks between their parts, ticks of the sweeper, requeues and restarts, the entry of each key goes on by
-- moves of the journal only. It is submitted at most once, its submission stays, and every other move asks
-- its candidate once more or closes it.
pub Reach-Moves :
    {s t : Deployment} (j : Text)
    → Reach s t
    → Moves (entry j s.app.world.rows) (entry j t.app.world.rows)
Reach-Moves j r = Edits-Moves j (Reach-Edits r)

-- No run loses a request: a row that is in the table is in it ever after, with its submission, and with
-- at least as many attempts.
pub Reach-kept :
    {s t : Deployment} (j : Text) {e : Entry}
    → entry j s.app.world.rows ≡ some e
    → Reach s t
    → (e' : Entry) × (entry j t.app.world.rows ≡ some e')
      × (e'.submission ≡ e.submission)
      × (e.attempts ≤ e'.attempts)
Reach-kept j at r = Moves-kept at (Reach-Moves j r)
