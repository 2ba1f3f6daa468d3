-- ===== src/Dispatcher/Overflow.antt =====
-- `enqueue` on a queue with room and on a full one (src/shadow_proxy/dispatcher/in_process.py).
use llm_shadow_proxy.Base.{
  ℕ, ◌+◌, ◌≡◌, Option, none, some, List, [], ◌∷◌, ◌++◌, arith, leb, if◌then◌else◌,
}
use mathlib.Core.List.{tail}
use llm_shadow_proxy.Queue.{put_nowait, get_nowait, task_done}
use llm_shadow_proxy.Dispatcher.{
  Dispatcher, CandidateJob, DispatchStatus, enqueued, dropped, OverflowPolicy, drop_new, drop_old,
  enqueue, depth, Worker,
}
use llm_shadow_proxy.Dispatcher.Accounting.{IsSound}

-- What a caller and the workers can see of a call: the queued jobs, the status, the workers, how
-- many jobs have been counted as dropped, and the settings.
pub record Seen : Type 0 where
  pub items : List CandidateJob
  pub status : DispatchStatus
  pub tasks : List Worker
  pub drops : ℕ
  pub maxsize : ℕ
  pub policy : OverflowPolicy

abbrev drops : Dispatcher → ℕ
drops d = d.dropped_new + d.dropped_old

abbrev pub seen : Option (Dispatcher × DispatchStatus) → Option Seen
seen none = none
seen (some (d, s)) = some (record {
  items = d.queue.items;
  status = s;
  tasks = d.tasks;
  drops = drops d;
  maxsize = d.queue.maxsize;
  policy = d.policy;
})

abbrev on_full : OverflowPolicy → CandidateJob → Dispatcher → Seen
on_full drop_new job d = record {
  items = d.queue.items;
  status = dropped;
  tasks = d.tasks;
  drops = drops d + 1;
  maxsize = d.queue.maxsize;
  policy = d.policy;
}
on_full drop_old job d = record {
  items = tail d.queue.items ++ job ∷ [];
  status = enqueued;
  tasks = d.tasks;
  drops = drops d + 1;
  maxsize = d.queue.maxsize;
  policy = d.policy;
}

abbrev pub expected : CandidateJob → Dispatcher → Seen
expected job d = if leb d.queue.maxsize (depth d) then on_full d.policy job d else record {
  items = d.queue.items ++ job ∷ [];
  status = enqueued;
  tasks = d.tasks;
  drops = drops d;
  maxsize = d.queue.maxsize;
  policy = d.policy;
}

-- On a sound dispatcher `enqueue` never raises. With room the job goes to the end of the queue. On
-- a full queue `drop_new` leaves the queue alone and reports `dropped`, and `drop_old` gives up the
-- oldest job for the new one and reports `enqueued`; either counts one drop. No worker and no setting is
-- touched.
pub seen-enqueue :
    (job : CandidateJob) (d : Dispatcher) → IsSound d → seen (enqueue job d) ≡ some (expected job d)
unfolding enqueue put_nowait get_nowait task_done
seen-enqueue job d h = ground arith
