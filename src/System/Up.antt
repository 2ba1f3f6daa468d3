-- ===== src/System/Up.antt =====
-- Whether the dispatcher of src/shadow_proxy is up, between the startup and the shutdown.
use mathlib.Core.Path.{subst}
use llm_shadow_proxy.Base.{
  ℕ, zero, suc, ◌<◌, ◌≡◌, refl, sym, ap, ◌∙◌, true, none, some, Option, Option-cases, inl, inr,
  List, [], ◌∷◌, arith, length,
}
use llm_shadow_proxy.Base.Text.{Text}
use llm_shadow_proxy.Store.{Table}
use llm_shadow_proxy.Store.Queries.{Engine, find_all_unfinished}
use llm_shadow_proxy.Queue.{get_nowait}
use llm_shadow_proxy.Dispatcher.{
  Dispatcher, CandidateJob, OverflowPolicy, DispatchStatus, drop_job, replace_oldest, idle_workers,
  new, start, enqueue, take_job, finish_job, idle, busy,
}
use llm_shadow_proxy.Dispatcher.Progress.{length-set_worker}
use llm_shadow_proxy.Sweeper.{enqueue_all, requeue_all_unfinished, requeue_limit}
use llm_shadow_proxy.Chat.{App}
use llm_shadow_proxy.Chat.Effects.{IsOffered}
use llm_shadow_proxy.Chat.Phases.{Kept, Keeps, keep-Keeps, answer_stored-Effect}
use llm_shadow_proxy.Evaluations.Runtime.{put_runtime_config}
use llm_shadow_proxy.System.{
  Deployment, Step, stores, rejects, answers, takes, begins, ends, resumes, sweeps, requeues, tunes,
  restarts, Reach, here, next, restart,
}

pub record IsUp (d : Dispatcher) : Type 0 where
  pub running : d.running ≡ true
  pub staffed : 0 < length d.tasks

length-idle_workers : (n : ℕ) → length (idle_workers n) ≡ n
length-idle_workers zero = refl
length-idle_workers (suc n) = omega (arith, length-idle_workers n)

pub start-IsUp :
    (capacity workers : ℕ) (policy : OverflowPolicy) {d : Dispatcher}
    → new capacity workers policy ≡ some d
    → IsUp (start d)
unfolding new start
start-IsUp capacity workers policy ok = record {
  running = ground arith;
  staffed = ground (arith, length-idle_workers workers);
}

enqueue-same :
    (job : CandidateJob) (d : Dispatcher) {d' : Dispatcher} {s : DispatchStatus}
    → enqueue job d ≡ some (d', s)
    → (d'.running ≡ d.running) × (d'.tasks ≡ d.tasks)
unfolding enqueue replace_oldest drop_job
enqueue-same job d e = (ground arith, ground arith)

enqueue-IsUp :
    (job : CandidateJob) (d : Dispatcher) {d' : Dispatcher} {s : DispatchStatus}
    → enqueue job d ≡ some (d', s)
    → IsUp d
    → IsUp d'
enqueue-IsUp job d e h =
    let (running, tasks) = enqueue-same job d e in
    record { running = running ∙ h.running; staffed = rw tasks h.staffed }

take_job-IsUp :
    (i : ℕ) (d : Dispatcher) {d' : Dispatcher} → take_job i d ≡ some d' → IsUp d → IsUp d'
unfolding take_job
take_job-IsUp i d e h = elim (Option-cases (get_nowait d.queue)) [
  | inl empty ↦ absurd (ground arith)
  | inr ((job, q), got) ↦ record {
    running = ground (arith, h.running);
    staffed = ground (arith, h.staffed, length-set_worker i (busy job) d.tasks);
  }
]

finish_job-IsUp :
    (i : ℕ) (d : Dispatcher) {d' : Dispatcher} → finish_job i d ≡ some d' → IsUp d → IsUp d'
unfolding finish_job
finish_job-IsUp i d e h = record {
  running = ground (arith, h.running);
  staffed = ground (arith, h.staffed, length-set_worker i idle d.tasks);
}

enqueue_all-IsUp :
    (ids : List Text) (d : Dispatcher) {d' : Dispatcher}
    → enqueue_all ids d ≡ some d'
    → IsUp d
    → IsUp d'
unfolding enqueue_all
enqueue_all-IsUp [] d e h = subst IsUp (ground arith) h
enqueue_all-IsUp (i ∷ ids) d e h = elim (Option-cases (enqueue (record { request_id = i }) d)) [
  | inl failed ↦ absurd (ground arith)
  | inr ((d'', s), ok) ↦
      enqueue_all-IsUp ids d'' (ground arith) (enqueue-IsUp (record { request_id = i }) d ok h)
]

pub requeue-IsUp :
    (db : Engine) (rows : Table) (d : Dispatcher) {d' : Dispatcher} {n : ℕ}
    → requeue_all_unfinished db rows d ≡ some (d', n)
    → IsUp d
    → IsUp d'
unfolding requeue_all_unfinished
requeue-IsUp db rows d {d'} {n} e h =
    let ids = find_all_unfinished db requeue_limit rows in
    elim (Option-cases (enqueue_all ids d)) [
      | inl failed ↦ absurd (ground arith)
      | inr (q, ok) ↦ enqueue_all-IsUp ids d (ground arith) h
    ]

IsOffered-IsUp : (d d' : Dispatcher) → IsOffered d d' → IsUp d → IsUp d'
IsOffered-IsUp d d' (inl same) h = rw same h
IsOffered-IsUp d d' (inr (job, s, ok)) h = enqueue-IsUp job d ok h

put_runtime_config-dispatcher :
    (rate : Option ℕ) (app : App) → (put_runtime_config rate app).0.dispatcher ≡ app.dispatcher
unfolding put_runtime_config
put_runtime_config-dispatcher none app = refl
put_runtime_config-dispatcher (some rate) app = ground arith

kept-IsUp :
    {app : App} {r : App × Kept} {app' : App} {k : Kept}
    → r ≡ (app', k)
    → Keeps app r
    → IsUp app.dispatcher
    → IsUp app'.dispatcher
kept-IsUp e kept h = subst IsUp (sym kept.dispatcher ∙ ap (λ (q : App × Kept). q.0.dispatcher) e) h

Step-IsUp : {s t : Deployment} → Step s t → IsUp s.app.dispatcher → IsUp t.app.dispatcher
unfolding restart
Step-IsUp {s} (stores arrival body kept e) h =
    rw e (kept-IsUp kept (keep-Keeps arrival body s.app) h)
Step-IsUp {s} (rejects arrival body kept e) h =
    rw e (kept-IsUp kept (keep-Keeps arrival body s.app) h)
Step-IsUp {s} (answers before c after held e) h =
    rw e (IsOffered-IsUp _ _ (answer_stored-Effect c s.app).offered h)
Step-IsUp {s} (takes i ok e) h = rw e (take_job-IsUp i s.app.dispatcher ok h)
Step-IsUp (begins handler env i job at free b e) h = rw e h
Step-IsUp {s} (ends handler env i job at free b ok e) h =
    rw e (finish_job-IsUp i s.app.dispatcher ok h)
Step-IsUp {s} (resumes handler env before c after held ok e) h =
    rw e (finish_job-IsUp c.worker s.app.dispatcher ok h)
Step-IsUp (sweeps db broken threshold asked now total e) h = rw e h
Step-IsUp {s} (requeues db ok e) h = rw e (requeue-IsUp db s.app.world.rows s.app.dispatcher ok h)
Step-IsUp {s} (tunes rate e) h = rw (e, put_runtime_config-dispatcher rate s.app) h
Step-IsUp (restarts capacity workers policy tape ok e) h =
    rw e (start-IsUp capacity workers policy ok)

-- Once it is running with a worker, the dispatcher stays so along every run of the whole program.
pub Reach-IsUp : {s t : Deployment} → Reach s t → IsUp s.app.dispatcher → IsUp t.app.dispatcher
Reach-IsUp here h = h
Reach-IsUp (next r step) h = Step-IsUp step (Reach-IsUp r h)
