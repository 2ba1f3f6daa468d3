-- ===== src/Dispatcher.antt =====
-- src/shadow_proxy/dispatcher/base.py and in_process.py: the bounded job queue and its workers.
-- Between two awaits a method runs alone, so each method and each worker step is one transition.
pub mod Accounting
pub mod Overflow
pub mod Shutdown
pub mod Progress
use llm_shadow_proxy.Base.{
  ℕ, zero, suc, ◌+◌, Bool, true, false, ◌&&◌, ◌||◌, Option, none, some, List, [], ◌∷◌, ◌++◌, ltb,
  if◌then◌else◌,
}
use llm_shadow_proxy.Base.Text.{Text}
use llm_shadow_proxy.Queue
use llm_shadow_proxy.Queue.{Queue, put_nowait, get_nowait, task_done}

pub data DispatchStatus : Type 0 where
  enqueued dropped : DispatchStatus

pub record CandidateJob : Type 0 where
  pub request_id : Text

pub data OverflowPolicy : Type 0 where
  drop_new drop_old : OverflowPolicy

-- A worker waits at `queue.get()`, or runs the handler on a job.
pub data Worker : Type 0 where
  idle : Worker
  busy : CandidateJob → Worker

-- `queue_depth`, `dropped_new` and `dropped_old` are the gauge and the counters of the metrics.
pub record Dispatcher : Type 0 where
  pub queue : Queue CandidateJob
  pub workers_n : ℕ
  pub policy : OverflowPolicy
  pub tasks : List Worker
  pub running : Bool
  pub queue_depth : ℕ
  pub dropped_new : ℕ
  pub dropped_old : ℕ

-- `none` is the `ValueError` of a capacity or a number of workers below 1.
unfoldable pub new : ℕ → ℕ → OverflowPolicy → Option Dispatcher
new capacity workers policy =
    if ltb capacity 1 || ltb workers 1
    then none
    else some (record {
      queue = Queue.empty capacity;
      workers_n = workers;
      policy = policy;
      tasks = [];
      running = false;
      queue_depth = 0;
      dropped_new = 0;
      dropped_old = 0;
    })

abbrev pub depth : Dispatcher → ℕ
depth d = Queue.qsize d.queue

abbrev pub idle_workers : ℕ → List Worker
idle_workers zero = []
idle_workers (suc n) = idle ∷ idle_workers n

unfoldable pub start : Dispatcher → Dispatcher
start d =
    if d.running
    then d
    else record d { running = true; tasks = d.tasks ++ idle_workers d.workers_n }

-- The end of `enqueue`, where the new job is dropped.
unfoldable pub drop_job : Dispatcher → Dispatcher × DispatchStatus
drop_job d = elim d.policy [
  | drop_new ↦ (record d { dropped_new = d.dropped_new + 1 }, dropped)
  | drop_old ↦ (record d { dropped_old = d.dropped_old + 1 }, dropped)
]

-- The branch of `drop_old` on a full queue. `none` is an exception that leaves `enqueue`: of
-- `task_done`, or of the second `put_nowait`.
unfoldable pub replace_oldest : CandidateJob → Dispatcher → Option (Dispatcher × DispatchStatus)
replace_oldest job d = elim (get_nowait d.queue) [
  | none ↦ some (drop_job d)
  | some (_, shorter) ↦ elim (task_done shorter) [
    | none ↦ none
    | some settled ↦ elim (put_nowait job settled) [
      | none ↦ none
      | some q ↦ some (record d { queue = q; dropped_old = d.dropped_old + 1 }, enqueued)
    ]
  ]
]

unfoldable pub enqueue : CandidateJob → Dispatcher → Option (Dispatcher × DispatchStatus)
unfolding drop_job replace_oldest
enqueue job d = elim (put_nowait job d.queue) [
  | some q ↦ some (record d { queue = q; queue_depth = Queue.qsize q }, enqueued)
  | none ↦ elim d.policy [ drop_old ↦ replace_oldest job d | drop_new ↦ some (drop_job d) ]
]

-- The worker at an index, replaced.
unfoldable pub set_worker : ℕ → Worker → List Worker → List Worker
set_worker i w [] = []
set_worker zero w (_ ∷ ws) = w ∷ ws
set_worker (suc i) w (v ∷ ws) = v ∷ set_worker i w ws

unfoldable pub worker_at : ℕ → List Worker → Option Worker
worker_at i [] = none
worker_at zero (w ∷ ws) = some w
worker_at (suc i) (w ∷ ws) = worker_at i ws

-- `_worker_loop`: an idle worker gets the oldest job. `none` means that the step is not enabled.
unfoldable pub take_job : ℕ → Dispatcher → Option Dispatcher
take_job i d = elim (worker_at i d.tasks) [
  | none ↦ none
  | some (busy _) ↦ none
  | some idle ↦ elim (get_nowait d.queue) [
    | none ↦ none
    | some (job, q) ↦ some (record d { queue = q; tasks = set_worker i (busy job) d.tasks })
  ]
]

-- `_worker_loop`: the handler returned, or raised an `Exception`, which is logged; the `finally`
-- block runs in both cases.
unfoldable pub finish_job : ℕ → Dispatcher → Option Dispatcher
finish_job i d = elim (worker_at i d.tasks) [
  | none ↦ none
  | some idle ↦ none
  | some (busy _) ↦ elim (task_done d.queue) [
    | none ↦ none
    | some q ↦
        some
          (record d { queue = q; queue_depth = Queue.qsize q; tasks = set_worker i idle d.tasks })
  ]
]

-- `t.cancel()` and `await t` on one worker: at `queue.get()` it just ends. Inside the handler the
-- `CancelledError` branch calls `task_done`, and the `finally` block calls it again; `none` is the
-- `ValueError` that then leaves the task.
unfoldable pub cancel_worker : Worker → Queue CandidateJob → Option (Queue CandidateJob)
cancel_worker idle q = some q
cancel_worker (busy _) q = elim (task_done q) [ none ↦ none | some q' ↦ task_done q' ]

unfoldable pub cancel_workers : List Worker → Queue CandidateJob → Option (Queue CandidateJob)
cancel_workers [] q = some q
cancel_workers (w ∷ ws) q = elim (cancel_worker w q) [
  | none ↦ none
  | some q' ↦ cancel_workers ws q'
]

pub data Stop : Type 0 where
  stopped : Dispatcher → Stop
  raised : Stop
  -- `join` has not returned yet
  draining : Dispatcher → Stop

-- The part of `stop` behind `join`.
unfoldable pub stop_tasks : Dispatcher → Stop
stop_tasks d = elim (cancel_workers d.tasks d.queue) [
  | none ↦ raised
  | some q ↦ stopped (record d { running = false; queue = q; tasks = [] })
]

-- `stop`, at the moment at which it looks at the count of `join`.
unfoldable pub stop : Bool → Dispatcher → Stop
unfolding stop_tasks
stop drain d =
    if d.running
    then (if drain && ltb 0 d.queue.unfinished
        then draining (record d { running = false })
        else stop_tasks d)
    else stopped d
