-- ===== src/System/Invariant.antt =====
-- What holds along every run of the whole program (src/shadow_proxy).
use mathlib.Core.Path.{subst}
use llm_shadow_proxy.Base.{
  ap, ◌∙◌, sym, ℕ, ◌≤◌, ◌≡◌, refl, Option, none, some, Option-cases, List, [], ◌∷◌, inl, inr, arith,
}
use llm_shadow_proxy.Base.Text.{Text}
use llm_shadow_proxy.Store.{Table}
use llm_shadow_proxy.Store.Queries.{Engine, find_all_unfinished}
use llm_shadow_proxy.Store.Keyed.{IsKeyed}
use llm_shadow_proxy.Store.Journal.{Edits-IsKeyed}
use llm_shadow_proxy.Dispatcher.{Dispatcher, enqueue}
use llm_shadow_proxy.Dispatcher.Accounting as Jobs
use llm_shadow_proxy.Dispatcher.Accounting.{
  IsSound, new-IsSound, start-IsSound, enqueue-IsSound, Step-IsSound,
}
use llm_shadow_proxy.Sweeper.{enqueue_all, requeue_all_unfinished, requeue_limit}
use llm_shadow_proxy.Chat.{App}
use llm_shadow_proxy.Chat.Effects.{IsOffered}
use llm_shadow_proxy.Chat.Phases.{Kept, Keeps, keep-Keeps, answer_stored-Effect}
use llm_shadow_proxy.Evaluations.Runtime.{full_rate, put_runtime_config}
use llm_shadow_proxy.System.{
  Deployment, Step, stores, rejects, answers, takes, begins, ends, resumes, sweeps, requeues, tunes,
  restarts, Reach, here, next, restart,
}
use llm_shadow_proxy.System.Journal.{Step-Edits}

-- The table has unique keys, the dispatcher's count is exact and its queue within its capacity, and the
-- sample rate is a rate.
pub record IsSane (s : Deployment) : Type 0 where
  pub keyed : IsKeyed s.app.world.rows
  pub sound : IsSound s.app.dispatcher
  pub rate : s.app.shadow_sample_rate ≤ full_rate

IsOffered-IsSound : (d d' : Dispatcher) → IsOffered d d' → IsSound d → IsSound d'
IsOffered-IsSound d d' (inl same) h = rw same h
IsOffered-IsSound d d' (inr (job, s, ok)) h = enqueue-IsSound job d h ok

enqueue_all-IsSound :
    (ids : List Text) (d : Dispatcher) {d' : Dispatcher}
    → enqueue_all ids d ≡ some d'
    → IsSound d
    → IsSound d'
unfolding enqueue_all
enqueue_all-IsSound [] d e h = subst IsSound (ground arith) h
enqueue_all-IsSound (i ∷ ids) d e h = elim (Option-cases (enqueue (record { request_id = i }) d)) [
  | inl failed ↦ absurd (ground arith)
  | inr ((d'', s), ok) ↦
      enqueue_all-IsSound ids d'' (ground arith)
        (enqueue-IsSound (record { request_id = i }) d h ok)
]

pub requeue-IsSound :
    (db : Engine) (rows : Table) (d : Dispatcher) {d' : Dispatcher} {n : ℕ}
    → requeue_all_unfinished db rows d ≡ some (d', n)
    → IsSound d
    → IsSound d'
unfolding requeue_all_unfinished
requeue-IsSound db rows d {d'} {n} e h =
    let ids = find_all_unfinished db requeue_limit rows in
    elim (Option-cases (enqueue_all ids d)) [
      | inl failed ↦ absurd (ground arith)
      | inr (q, ok) ↦ enqueue_all-IsSound ids d (ground arith) h
    ]

put_runtime_config_sound :
    (rate : Option ℕ) (app : App)
    → app.shadow_sample_rate ≤ full_rate
    → ((put_runtime_config rate app).0.shadow_sample_rate ≤ full_rate)
      × ((put_runtime_config rate app).0.dispatcher ≡ app.dispatcher)
unfolding put_runtime_config
put_runtime_config_sound none app h = (h, refl)
put_runtime_config_sound (some rate) app h = ground arith

kept-IsSound_rate :
    {app : App} {r : App × Kept} {app' : App} {k : Kept}
    → r ≡ (app', k)
    → Keeps app r
    → IsSound app.dispatcher
    → app.shadow_sample_rate ≤ full_rate
    → IsSound app'.dispatcher × (app'.shadow_sample_rate ≤ full_rate)
kept-IsSound_rate e kept h r =
    let first = ap (λ q. q.0) e in
    (
      subst IsSound (sym kept.dispatcher ∙ ap (λ (a : App). a.dispatcher) first) h,
      subst (λ n. n ≤ full_rate) (sym kept.rate ∙ ap (λ (a : App). a.shadow_sample_rate) first) r,
    )

Step-IsSound_rate :
    {s t : Deployment}
    → Step s t
    → IsSound s.app.dispatcher
    → s.app.shadow_sample_rate ≤ full_rate
    → IsSound t.app.dispatcher × (t.app.shadow_sample_rate ≤ full_rate)
unfolding restart
Step-IsSound_rate {s} (stores arrival body kept e) h r =
    rw e (kept-IsSound_rate kept (keep-Keeps arrival body s.app) h r)
Step-IsSound_rate {s} (rejects arrival body kept e) h r =
    rw e (kept-IsSound_rate kept (keep-Keeps arrival body s.app) h r)
Step-IsSound_rate {s} (answers before c after held e) h r =
    let effect = answer_stored-Effect c s.app in
    rw e (IsOffered-IsSound _ _ effect.offered h, rw effect.rate r)
Step-IsSound_rate (takes i ok e) h r = rw e (Step-IsSound (Jobs.takes i ok) h, r)
Step-IsSound_rate (begins handler env i job at free b e) h r = rw e (h, r)
Step-IsSound_rate (ends handler env i job at free b ok e) h r =
    rw e (Step-IsSound (Jobs.finishes i ok) h, r)
Step-IsSound_rate (resumes handler env before c after held ok e) h r =
    rw e (Step-IsSound (Jobs.finishes c.worker ok) h, r)
Step-IsSound_rate (sweeps db broken threshold asked now total e) h r = rw e (h, r)
Step-IsSound_rate {s} (requeues db ok e) h r =
    rw e (requeue-IsSound db s.app.world.rows s.app.dispatcher ok h, r)
Step-IsSound_rate {s} (tunes rate e) h r =
    let (low, same) = put_runtime_config_sound rate s.app r in rw e (rw same h, low)
Step-IsSound_rate (restarts capacity workers policy tape {d} ok e) h r =
    rw e (start-IsSound d (new-IsSound capacity workers policy ok), omega arith)

Step-IsSane : {s t : Deployment} → Step s t → IsSane s → IsSane t
Step-IsSane step h =
    let (sound, rate) = Step-IsSound_rate step h.sound h.rate in
    record { keyed = Edits-IsKeyed (Step-Edits step) h.keyed; sound = sound; rate = rate }

-- Along every run of the whole program from a sane state, the table has unique keys, `join` waits for
-- exactly the jobs that are queued or in a handler, the queue is within its capacity, and the sample rate
-- is at most 1.
pub Reach-IsSane : {s t : Deployment} → Reach s t → IsSane s → IsSane t
Reach-IsSane here h = h
Reach-IsSane (next r step) h = Step-IsSane step (Reach-IsSane r h)
