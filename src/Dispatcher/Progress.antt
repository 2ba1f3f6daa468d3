-- ===== src/Dispatcher/Progress.antt =====
-- Why `join` returns (src/shadow_proxy/dispatcher/in_process.py).
use llm_shadow_proxy.Base.{
  ℕ, zero, suc, ◌+◌, ◌-◌, ◌*◌, ◌≤◌, ◌<◌, ◌≡◌, refl, ◌⊎◌, inl, inr, true, false, some, List, [], ◌∷◌,
  arith, length, ◌∙◌,
}
use native.Mathlib.Decide.{dec_lt}
use llm_shadow_proxy.Queue.{get_nowait, task_done}
use llm_shadow_proxy.Dispatcher.{
  Dispatcher, CandidateJob, Worker, idle, busy, take_job, finish_job, set_worker, worker_at, depth,
  stopped, stop,
}
use llm_shadow_proxy.Dispatcher.Accounting.{
  IsSound, takes, finishes, Step-IsSound, busy_count, busy_count-set_worker,
}
use llm_shadow_proxy.Dispatcher.Shutdown.{stop_tasks-drained}

-- A worker gets a job, or reports one as done.
pub data Turn (d e : Dispatcher) : Type 0 where
  gets : (i : ℕ) → take_job i d ≡ some e → Turn d e
  reports : (i : ℕ) → finish_job i d ≡ some e → Turn d e

-- The workers go on alone: no job comes in, and none is dropped.
pub data Works : Dispatcher → Dispatcher → Type 0 where
  stays : (d : Dispatcher) → Works d d
  work : {d e f : Dispatcher} → Turn d e → Works e f → Works d f

Turn-IsSound : {d e : Dispatcher} → Turn d e → IsSound d → IsSound e
Turn-IsSound (gets i ok) h = Step-IsSound (takes i ok) h
Turn-IsSound (reports i ok) h = Step-IsSound (finishes i ok) h

find_busy :
    (ws : List Worker)
    → (busy_count ws ≡ 0) ⊎ ((i : ℕ) × (job : CandidateJob) × (worker_at i ws ≡ some (busy job)))
unfolding worker_at
find_busy [] = inl refl
find_busy (busy job ∷ ws) = inr (0, job, refl)
find_busy (idle ∷ ws) = elim (find_busy ws) [
  | inl none_busy ↦ inl (ground arith)
  | inr (i, job, at) ↦ inr (suc i, job, at)
]

pub length-set_worker :
    (i : ℕ) (w : Worker) (ws : List Worker) → length (set_worker i w ws) ≡ length ws
unfolding set_worker
length-set_worker i w [] = refl
length-set_worker zero w (v ∷ ws) = refl
length-set_worker (suc i) w (v ∷ ws) = ground (arith, length-set_worker i w ws)

first_idle : (ws : List Worker) → busy_count ws ≡ 0 → 0 < length ws → worker_at 0 ws ≡ some idle
unfolding worker_at
first_idle [] h pos = absurd (omega arith)
first_idle (idle ∷ ws) h pos = refl
first_idle (busy job ∷ ws) h pos = absurd (ground arith)

-- How many turns are left at most.
abbrev pub left : Dispatcher → ℕ
left d = 2 * depth d + busy_count d.tasks

-- What a turn that ends nothing but work keeps.
record Goes (d e : Dispatcher) : Type 0 where
  turn : Turn d e
  less : left e < left d
  staffed : length e.tasks ≡ length d.tasks
  running : e.running ≡ d.running
  drops : (e.dropped_new ≡ d.dropped_new) × (e.dropped_old ≡ d.dropped_old)

abbrev pub reported : ℕ → Dispatcher → Dispatcher
reported i d = record d {
  queue = record d.queue { unfinished = d.queue.unfinished - 1 };
  queue_depth = depth d;
  tasks = set_worker i idle d.tasks;
}

pub finish_job-reported :
    (d : Dispatcher) (i : ℕ) (job : CandidateJob)
    → 0 < d.queue.unfinished
    → worker_at i d.tasks ≡ some (busy job)
    → finish_job i d ≡ some (reported i d)
unfolding finish_job task_done
finish_job-reported d i job pos at = ground arith

report_busy :
    (d : Dispatcher) (i : ℕ) (job : CandidateJob)
    → 0 < d.queue.unfinished
    → worker_at i d.tasks ≡ some (busy job)
    → (e : Dispatcher) × Goes d e
report_busy d i job pos at = (
  reported i d,
  record {
    turn = reports i (finish_job-reported d i job pos at);
    less = ground (arith, busy_count-set_worker i idle (busy job) d.tasks at);
    staffed = length-set_worker i idle d.tasks;
    running = refl;
    drops = (refl, refl);
  },
)

abbrev pub gotten : CandidateJob → List CandidateJob → Dispatcher → Dispatcher
gotten job rest d = record d {
  queue = record d.queue { items = rest };
  tasks = set_worker 0 (busy job) d.tasks;
}

pub take_job-gotten :
    (d : Dispatcher) (job : CandidateJob) (rest : List CandidateJob)
    → worker_at 0 d.tasks ≡ some idle
    → d.queue.items ≡ job ∷ rest
    → take_job 0 d ≡ some (gotten job rest d)
unfolding take_job get_nowait
take_job-gotten d job rest at items = ground arith

get_first :
    (d : Dispatcher) (items : List CandidateJob)
    → d.queue.items ≡ items
    → 0 < length items
    → worker_at 0 d.tasks ≡ some idle
    → (e : Dispatcher) × Goes d e
get_first d [] same pos at = absurd (omega arith)
get_first d (job ∷ rest) same pos at = (
  gotten job rest d,
  record {
    turn = gets 0 (take_job-gotten d job rest at same);
    less = ground (arith, busy_count-set_worker 0 (busy job) idle d.tasks at);
    staffed = length-set_worker 0 (busy job) d.tasks;
    running = refl;
    drops = (refl, refl);
  },
)

-- While `join` waits, some worker can go on.
goes :
    (d : Dispatcher)
    → IsSound d
    → 0 < d.queue.unfinished
    → 0 < length d.tasks
    → (e : Dispatcher) × Goes d e
goes d h pos staffed = elim (find_busy d.tasks) [
  | inr (i, job, at) ↦ report_busy d i job pos at
  | inl quiet ↦
      get_first d d.queue.items refl (omega (arith, h.accounted, quiet, pos))
        (first_idle d.tasks quiet staffed)
]

-- The workers come to a state in which `join` returns.
record Drained (d e : Dispatcher) : Type 0 where
  way : Works d e
  done : e.queue.unfinished ≡ 0
  sound : IsSound e
  running : e.running ≡ d.running
  drops : (e.dropped_new ≡ d.dropped_new) × (e.dropped_old ≡ d.dropped_old)

drains :
    (n : ℕ) (d : Dispatcher)
    → left d ≤ n
    → IsSound d
    → 0 < length d.tasks
    → (e : Dispatcher) × Drained d e
drains zero d small h staffed = (
  d,
  record {
    way = stays d;
    done = omega (arith, h.accounted, small);
    sound = h;
    running = refl;
    drops = (refl, refl);
  },
)
drains (suc n) d small h staffed = elim (dec_lt 0 d.queue.unfinished) [
  | no idle_now ↦ (
    d,
    record {
      way = stays d;
      done = omega (arith, idle_now);
      sound = h;
      running = refl;
      drops = (refl, refl);
    },
  )
  | yes waiting ↦
      let (e, one) = goes d h waiting staffed in
      let (f, all) =
        drains n e (omega (arith, one.less, small)) (Turn-IsSound one.turn h)
          (omega (arith, one.staffed, staffed)) in
      (
        f,
        record {
          way = work one.turn all.way;
          done = all.done;
          sound = all.sound;
          running = all.running ∙ one.running;
          drops = (all.drops.0 ∙ one.drops.0, all.drops.1 ∙ one.drops.1);
        },
      )
]

-- A running dispatcher with at least one worker can always be stopped with draining: by turns of its
-- workers alone, each getting a job or reporting one as done, it comes to a state in which `stop` returns,
-- with no job left in the queue and none dropped on the way.
pub stop-drains :
    (d : Dispatcher)
    → IsSound d
    → d.running ≡ true
    → 0 < length d.tasks
    → (e : Dispatcher) × Works d e
      × (stop true e ≡ stopped (record e { running = false; tasks = [] }))
      × (e.queue.items ≡ [])
      × (e.dropped_new ≡ d.dropped_new)
      × (e.dropped_old ≡ d.dropped_old)
unfolding stop
stop-drains d h up staffed =
    let (e, all) = drains (left d) d (omega arith) h staffed in
    let (over, empty) = stop_tasks-drained e all.sound all.done in
    (e, all.way, ground (arith, over, all.running, all.done), empty, all.drops.0, all.drops.1)
