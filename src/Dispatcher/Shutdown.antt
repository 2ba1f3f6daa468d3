-- ===== src/Dispatcher/Shutdown.antt =====
-- `stop` with and without draining (src/shadow_proxy/dispatcher/in_process.py).
use llm_shadow_proxy.Base.{
  ◌-◌, ◌*◌, ◌<◌, ◌≡◌, ◌↔◌, true, false, none, some, List, [], ◌∷◌, arith, ltb, if◌then◌else◌,
}
use llm_shadow_proxy.Queue.{Queue, task_done}
use llm_shadow_proxy.Dispatcher.{
  Dispatcher, CandidateJob, Worker, idle, busy, cancel_worker, cancel_workers, stopped, raised,
  stop_tasks, stop, depth,
}
use llm_shadow_proxy.Dispatcher.Accounting.{IsSound, busy_count}

-- Each worker that is cancelled inside its handler takes two from the count of `join`.
pub cancel_workers_lem :
    (ws : List Worker) (q : Queue CandidateJob)
    → cancel_workers ws q ≡ (
        if ltb q.unfinished (2 * busy_count ws)
        then none
        else some (record q { unfinished = q.unfinished - 2 * busy_count ws }))
unfolding cancel_workers cancel_worker task_done
cancel_workers_lem [] q = ground arith
cancel_workers_lem (idle ∷ ws) q = ground (arith, cancel_workers_lem ws q)
cancel_workers_lem (busy job ∷ ws) q =
    ground (arith, cancel_workers_lem ws (record q { unfinished = q.unfinished - 1 - 1 }))

-- When `join` of a sound dispatcher has returned, the rest of `stop` ends without an exception, no job
-- is left in the queue, and the queue and its count stay as they are.
pub stop_tasks-drained :
    (d : Dispatcher)
    → IsSound d
    → d.queue.unfinished ≡ 0
    → (stop_tasks d ≡ stopped (record d { running = false; tasks = [] })) × (d.queue.items ≡ [])
unfolding stop_tasks
stop_tasks-drained d h e = ground (arith, cancel_workers_lem d.tasks d.queue)

-- With `drain=False` the `stop` of a sound running dispatcher leaves by a `ValueError` exactly when
-- fewer jobs are queued than are in handlers.
pub stop_raises_iff :
    (d : Dispatcher)
    → IsSound d
    → d.running ≡ true
    → (stop false d ≡ raised) ↔ (depth d < busy_count d.tasks)
unfolding stop
stop_raises_iff d h r = ground (arith, cancel_workers_lem d.tasks d.queue)
