-- ===== src/Dispatcher/Accounting.antt =====
-- The count that `join` waits for, along every run of the dispatcher
-- (src/shadow_proxy/dispatcher/in_process.py).
use llm_shadow_proxy.Base.{
  ℕ, zero, suc, ◌+◌, ◌≤◌, ◌<◌, ◌≡◌, refl, some, Option-cases, List, [], ◌∷◌, ◌++◌, inl, inr, arith,
  length-append,
}
use llm_shadow_proxy.Queue.{put_nowait, get_nowait, task_done}
use llm_shadow_proxy.Dispatcher.{
  Dispatcher, CandidateJob, DispatchStatus, OverflowPolicy, Worker, idle, busy, new, start, enqueue,
  take_job, finish_job, set_worker, worker_at, idle_workers, depth,
}

abbrev pub load : Worker → ℕ
load idle = 0
load (busy _) = 1

abbrev pub busy_count : List Worker → ℕ
busy_count [] = 0
busy_count (w ∷ ws) = load w + busy_count ws

-- `join` waits for exactly the jobs that are queued or in a handler, and the queue keeps to its
-- capacity.
pub record IsSound (d : Dispatcher) : Type 0 where
  pub accounted : d.queue.unfinished ≡ depth d + busy_count d.tasks
  pub within : depth d ≤ d.queue.maxsize
  pub bounded : 0 < d.queue.maxsize

-- One transition of the dispatcher.
pub data Step (d d' : Dispatcher) : Type 0 where
  starts : d' ≡ start d → Step d d'
  enqueues : (job : CandidateJob) (s : DispatchStatus) → enqueue job d ≡ some (d', s) → Step d d'
  takes : (i : ℕ) → take_job i d ≡ some d' → Step d d'
  finishes : (i : ℕ) → finish_job i d ≡ some d' → Step d d'

pub data Reach (d : Dispatcher) : Dispatcher → Type 0 where
  here : Reach d d
  next : {e f : Dispatcher} → Reach d e → Step e f → Reach d f

busy_count-append : (ws vs : List Worker) → busy_count (ws ++ vs) ≡ busy_count ws + busy_count vs
busy_count-append [] vs = omega arith
busy_count-append (w ∷ ws) vs = omega (arith, busy_count-append ws vs)

busy_count-idle_workers : (n : ℕ) → busy_count (idle_workers n) ≡ 0
busy_count-idle_workers zero = refl
busy_count-idle_workers (suc n) = omega (arith, busy_count-idle_workers n)

pub busy_count-set_worker :
    (i : ℕ) (w v : Worker) (ws : List Worker)
    → worker_at i ws ≡ some v
    → busy_count (set_worker i w ws) + load v ≡ busy_count ws + load w
unfolding set_worker worker_at
busy_count-set_worker i w v [] h = cc
busy_count-set_worker zero w v (u ∷ ws) h = ground arith
busy_count-set_worker (suc i) w v (u ∷ ws) h = ground (arith, busy_count-set_worker i w v ws)

pub new-IsSound :
    (capacity workers : ℕ) (policy : OverflowPolicy) {d : Dispatcher}
    → new capacity workers policy ≡ some d
    → IsSound d
unfolding new
new-IsSound capacity workers policy h = ground arith

pub new-returns :
    (capacity workers : ℕ) (policy : OverflowPolicy)
    → 0 < capacity
    → 0 < workers
    → (d : Dispatcher) × (new capacity workers policy ≡ some d)
unfolding new
new-returns capacity workers policy hc hw = elim (Option-cases (new capacity workers policy)) [
  | inl bad ↦ absurd (ground arith)
  | inr (d, ok) ↦ (d, ok)
]

pub start-IsSound : (d : Dispatcher) → IsSound d → IsSound (start d)
unfolding start
start-IsSound d h = ground (
  arith,
  busy_count-append d.tasks (idle_workers d.workers_n),
  busy_count-idle_workers d.workers_n,
)

pub enqueue-IsSound :
    (job : CandidateJob) (d : Dispatcher) {d' : Dispatcher} {s : DispatchStatus}
    → IsSound d
    → enqueue job d ≡ some (d', s)
    → IsSound d'
unfolding enqueue put_nowait get_nowait task_done
enqueue-IsSound job d h e = ground (arith, length-append d.queue.items (job ∷ []))

take_job-IsSound :
    (i : ℕ) (d : Dispatcher) {d' : Dispatcher} → IsSound d → take_job i d ≡ some d' → IsSound d'
unfolding take_job get_nowait
take_job-IsSound i d {d'} h e = elim (Option-cases (worker_at i d.tasks)) [
  | inl nobody ↦ absurd (ground arith)
  | inr (w, at) ↦ by_worker w at d.queue.items refl
]
  where
    by_worker :
        (w : Worker)
        → worker_at i d.tasks ≡ some w
        → (items : List CandidateJob) → d.queue.items ≡ items
        → IsSound d'
    by_worker (busy j) at items q = absurd (ground arith)
    by_worker idle at [] q = absurd (ground arith)
    by_worker idle at (job ∷ rest) q =
        ground (arith, busy_count-set_worker i (busy job) idle d.tasks at)

finish_job-IsSound :
    (i : ℕ) (d : Dispatcher) {d' : Dispatcher} → IsSound d → finish_job i d ≡ some d' → IsSound d'
unfolding finish_job task_done
finish_job-IsSound i d {d'} h e = elim (Option-cases (worker_at i d.tasks)) [
  | inl nobody ↦ absurd (ground arith)
  | inr (w, at) ↦ by_worker w at
]
  where
    by_worker : (w : Worker) → worker_at i d.tasks ≡ some w → IsSound d'
    by_worker idle at = absurd (ground arith)
    by_worker (busy job) at = ground (arith, busy_count-set_worker i idle (busy job) d.tasks at)

pub Step-IsSound : {d d' : Dispatcher} → Step d d' → IsSound d → IsSound d'
Step-IsSound {d} (starts e) h = rw e (start-IsSound d h)
Step-IsSound {d} (enqueues job s e) h = enqueue-IsSound job d h e
Step-IsSound {d} (takes i e) h = take_job-IsSound i d h e
Step-IsSound {d} (finishes i e) h = finish_job-IsSound i d h e

Reach-IsSound : {d d' : Dispatcher} → Reach d d' → IsSound d → IsSound d'
Reach-IsSound here h = h
Reach-IsSound (next r s) h = Step-IsSound s (Reach-IsSound r h)

-- Whatever a dispatcher that the constructor accepted goes through (start, enqueues with drops, and
-- workers that take and finish jobs, in any order), `join` waits for exactly the queued jobs and
-- those in a handler, and the queue never holds more jobs than its capacity.
pub run-IsSound :
    (capacity workers : ℕ) (policy : OverflowPolicy) {d d' : Dispatcher}
    → new capacity workers policy ≡ some d
    → Reach d d'
    → IsSound d'
run-IsSound capacity workers policy h r = Reach-IsSound r (new-IsSound capacity workers policy h)
