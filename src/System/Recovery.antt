-- ===== src/System/Recovery.antt =====
-- What a crash leaves unfinished, and the restart after it (`lifespan` of src/shadow_proxy/main.py and
-- `requeue_all_unfinished` of src/shadow_proxy/sweeper.py).
use mathlib.Core.List.{append_assoc, append-nil}
use llm_shadow_proxy.Base.{
  ℕ, zero, suc, ◌+◌, ◌≤◌, ◌<◌, ◌≡◌, refl, sym, ap, ◌∙◌, true, Option, some, List, [], ◌∷◌, ◌++◌,
  arith, length, length-append, length-map, length-select, select, take, tally,
}
use llm_shadow_proxy.Base.Text.{Text}
use llm_shadow_proxy.Store.Queries.{Engine, IsComplete, is_unfinished, find_all_unfinished}
use llm_shadow_proxy.Queue.{put_nowait}
use llm_shadow_proxy.Tape.{MismatchTape}
use llm_shadow_proxy.Dispatcher.{
  Dispatcher, CandidateJob, enqueued, OverflowPolicy, idle, worker_at, new, start, enqueue,
}
use llm_shadow_proxy.Dispatcher.Accounting.{
  IsSound, new-IsSound, new-returns, start-IsSound, enqueue-IsSound,
}
use llm_shadow_proxy.Sweeper.{enqueue_all, requeue_all_unfinished, requeue_limit}
use llm_shadow_proxy.Sweeper.Requeue.{jobs}
use llm_shadow_proxy.Pipeline.World.{World, new_counters}
use llm_shadow_proxy.Pipeline.Payloads.{CandidateHandler, Surroundings}
use llm_shadow_proxy.Pipeline.Candidate.Backlog.{handle_all, handle_all-unfinished}
use llm_shadow_proxy.System.{
  Deployment, requeues, restarts, Reach, here, next, restart, with_dispatcher,
}
use llm_shadow_proxy.System.Backlog.{IsQueued, Reach-trans, work_all}

abbrev put_job : CandidateJob → Dispatcher → Dispatcher
put_job job d = record d {
  queue = record d.queue { items = d.queue.items ++ job ∷ []; unfinished = d.queue.unfinished + 1 };
  queue_depth = length (d.queue.items ++ job ∷ []);
}

enqueue-put_job :
    (job : CandidateJob) (d : Dispatcher)
    → length d.queue.items < d.queue.maxsize
    → enqueue job d ≡ some (put_job job d, enqueued)
unfolding enqueue put_nowait
enqueue-put_job job d room = ground arith

-- A dispatcher after the requeue of some ids.
record Filled (ids : List Text) (d e : Dispatcher) : Type 0 where
  items : e.queue.items ≡ d.queue.items ++ jobs ids
  tasks : e.tasks ≡ d.tasks
  sound : IsSound e

-- Where there is room for all jobs, all are queued, under either policy.
enqueue_all-Filled :
    (ids : List Text) (d : Dispatcher)
    → IsSound d
    → length d.queue.items + length ids ≤ d.queue.maxsize
    → (e : Dispatcher) × (enqueue_all ids d ≡ some e) × Filled ids d e
unfolding enqueue_all
enqueue_all-Filled [] d h room =
    (d, refl, record { items = sym (append-nil d.queue.items); tasks = refl; sound = h })
enqueue_all-Filled (i ∷ ids) d h room =
    let job : CandidateJob = record { request_id = i } in
    let ok = enqueue-put_job job d (omega (arith, room)) in
    let (e, done, filled) =
      enqueue_all-Filled ids (put_job job d) (enqueue-IsSound job d h ok)
        (omega (arith, length-append d.queue.items (job ∷ []), room)) in
    (
      e,
      rw (ok, enqueue_all) done,
      record {
        items = filled.items ∙ append_assoc d.queue.items (job ∷ []) (jobs ids);
        tasks = filled.tasks;
        sound = filled.sound;
      },
    )

length-take : {A : Type 0} (n : ℕ) (xs : List A) → length (take n xs) ≤ length xs
length-take zero xs = omega arith
length-take (suc n) [] = omega arith
length-take (suc n) (x ∷ xs) = omega (arith, length-take n xs)

length-find_all_unfinished :
    (db : Engine) (limit : ℕ) (s : Deployment)
    → IsComplete db
    → length (find_all_unfinished db limit s.app.world.rows) ≤ tally is_unfinished s.app.world.rows
unfolding find_all_unfinished
length-find_all_unfinished db limit s complete =
    let found = select is_unfinished (db.oldest_first s.app.world.rows) in
    omega (
      arith,
      length-map (λ row. row.request_id) (take limit found),
      length-take limit found,
      length-select is_unfinished (db.oldest_first s.app.world.rows),
      complete.oldest_first-tally is_unfinished s.app.world.rows,
    )

new-started :
    (capacity workers : ℕ) (policy : OverflowPolicy) {d : Dispatcher}
    → 0 < workers
    → new capacity workers policy ≡ some d
    → (worker_at 0 (start d).tasks ≡ some idle)
      × ((start d).queue.items ≡ [])
      × ((start d).queue.maxsize ≡ capacity)
unfolding new start worker_at
new-started capacity zero policy hw e = absurd (omega arith)
new-started capacity (suc workers) policy hw e = ground arith

-- The state of the pipeline after a restart.
abbrev pub reborn : Option MismatchTape → World → World
reborn tape w = record w { tape = tape; counters = new_counters; metrics = [] }

-- What the requeue finds.
abbrev pub unfinished_ids : Deployment → Engine → List Text
unfinished_ids s db = find_all_unfinished db requeue_limit s.app.world.rows

module _ (s : Deployment) (db : Engine) (h : CandidateHandler) (envs : Text → Surroundings)
    (capacity workers : ℕ) (policy : OverflowPolicy) (tape : Option MismatchTape)
    (complete : IsComplete db) (staffed : 0 < workers) (some_room : 0 < capacity)
    (room : tally is_unfinished s.app.world.rows ≤ capacity)
    (few : tally is_unfinished s.app.world.rows ≤ requeue_limit) where
  found :
      (d e : Dispatcher)
      → enqueue_all (unfinished_ids s db) d ≡ some e
      → requeue_all_unfinished db s.app.world.rows d ≡ some (e, length (unfinished_ids s db))
  unfolding requeue_all_unfinished
  found d e done = ground arith

  -- From any state the program comes, by a crash, a restart and the requeue, to one with the old table in
  -- which exactly the unfinished rows are queued.
  requeued :
      (t : Deployment) × Reach s t
      × IsQueued (unfinished_ids s db) t
      × (t.app.world ≡ reborn tape s.app.world)
  unfolding restart
  requeued =
      let (d, made) = new-returns capacity workers policy some_room staffed in
      let (waiting, empty, size) = new-started capacity workers policy staffed made in
      let fresh = start-IsSound d (new-IsSound capacity workers policy made) in
      let (e, done, filled) = enqueue_all-Filled (unfinished_ids s db) (start d) fresh (
        omega (
          arith,
          ap length empty,
          size,
          length-find_all_unfinished db requeue_limit s complete,
          room,
        )) in
      let up : Deployment = record { app = restart tape d s.app; calls = []; chats = [] } in
      (
        record up { app = with_dispatcher e up.app },
        next (next here (restarts capacity workers policy tape made refl))
            (requeues db (found (start d) e done) refl),
        record {
          quiet = refl;
          waiting = ap (worker_at 0) filled.tasks ∙ waiting;
          items = filled.items ∙ rw empty refl;
          sound = filled.sound;
        },
        refl,
      )

  -- Recovery after a crash in any state. Let the queries return all rows, the restarted dispatcher have a
  -- worker and room for all rows that are unfinished, these be at most as many as one requeue takes, and
  -- each call of the handler return. Then there is a run of restart, requeue and the first worker's turns
  -- after which no row is unfinished, the queue is empty and no handler is at work.
  pub recovers :
      (handle_all h envs (unfinished_ids s db) (reborn tape s.app.world)).1 ≡ true
      → (t : Deployment) × Reach s t
        × (tally is_unfinished t.app.world.rows ≡ 0)
        × (t.app.dispatcher.queue.items ≡ [])
        × (t.calls ≡ [])
  recovers fine =
      let (t, first, queued, same) = requeued in
      let (u, later, done, end) = work_all h envs (unfinished_ids s db) t queued in
      (
        u,
        Reach-trans first later,
        rw (end, same)
            (handle_all-unfinished db requeue_limit h envs (reborn tape s.app.world) complete few
              fine),
        done.items,
        done.quiet,
      )
