-- ===== src/Tests/Jobs.antt =====
-- The dispatcher, the sweeper and the model client on concrete runs.
use mathlib.Core.Option
use llm_shadow_proxy.Base.{
  ℕ, suc, zero, ◌≤◌, ◌<◌, ◌≡◌, refl, ◌↔◌, true, false, none, some, [], ◌∷◌, map, arith, tally,
}
use llm_shadow_proxy.Base.Text.{codes, text_eq}
use llm_shadow_proxy.Evaluator.{Verdict}
use llm_shadow_proxy.Queue.{put_nowait}
use llm_shadow_proxy.Store.{pending_row, get}
use llm_shadow_proxy.Store.Queries.{is_stale, IsComplete}
use llm_shadow_proxy.Dispatcher.{
  Dispatcher, drop_new, drop_old, start, enqueue, stopped, raised, stop, idle,
}
use llm_shadow_proxy.Dispatcher.Accounting.{IsSound, Reach, here, next, starts, enqueues}
use llm_shadow_proxy.Dispatcher.Overflow.{seen, expected, seen-enqueue}
use llm_shadow_proxy.Dispatcher.Shutdown.{stop_raises_iff}
use llm_shadow_proxy.Dispatcher.Progress.{Works, stop-drains}
use llm_shadow_proxy.Sweeper.{run_once, requeue_all_unfinished}
use llm_shadow_proxy.Store.Keyed.{IsKeyed}
use llm_shadow_proxy.Sweeper.Reconcile.{swept, run_once_lem}
use llm_shadow_proxy.Sweeper.Relabel.{run_once-primary_error}
use llm_shadow_proxy.Sweeper.Requeue.{queued_and_count, requeue_all_unfinished_lem}
use llm_shadow_proxy.Llm.DoInference.{Outside, Post, response, timeout, transport_error}
use llm_shadow_proxy.Tests.{
  database-IsComplete, busy_dispatcher, job, table, failed_primary, database,
}

abbrev fresh : Dispatcher
fresh = record {
  queue = record { items = []; maxsize = 1; unfinished = 0 };
  workers_n = 1;
  policy = drop_old;
  tasks = [];
  running = false;
  queue_depth = 0;
  dropped_new = 0;
  dropped_old = 0;
}

abbrev started : Dispatcher
started = record fresh { running = true; tasks = idle ∷ [] }

abbrev loaded : Dispatcher
loaded = record started {
  queue = record { items = job (codes "a") ∷ []; maxsize = 1; unfinished = 1 };
  queue_depth = 1;
}

loaded-Reach : Reach fresh loaded
unfolding start enqueue put_nowait
loaded-Reach = next (next here (starts refl)) (enqueues (job (codes "a")) _ refl)

busy_dispatcher-IsSound : IsSound (busy_dispatcher drop_new)
busy_dispatcher-IsSound = ground arith

busy_drop_old-IsSound : IsSound (busy_dispatcher drop_old)
busy_drop_old-IsSound = ground arith

seen-enqueue_example :
    seen (enqueue (job (codes "d")) (busy_dispatcher drop_old))
    ≡ some (expected (job (codes "d")) (busy_dispatcher drop_old))
seen-enqueue_example =
    seen-enqueue (job (codes "d")) (busy_dispatcher drop_old) busy_drop_old-IsSound

started-IsSound : IsSound started
started-IsSound = ground arith

-- The job that is handled has left the queue.
abbrev handling : Dispatcher
handling = record (busy_dispatcher drop_new) {
  queue = record { items = []; maxsize = 2; unfinished = 1 };
}

handling-IsSound : IsSound handling
handling-IsSound = ground arith

stop_raises_iff_example : (stop false handling ≡ raised) ↔ (0 < 1)
stop_raises_iff_example = stop_raises_iff handling handling-IsSound refl

pub table-IsKeyed : IsKeyed table
unfolding text_eq pending_row
table-IsKeyed = (refl, (refl, tt))

few_stale : tally (is_stale 100 50) table ≤ 1000
unfolding is_stale pending_row
few_stale = omega arith

run_once_example :
    run_once database (λ i. false) 50 100 101 table 3
    ≡ record { rows = map (swept 101) table; reconciled_total = 5; result = some 2 }
unfolding is_stale pending_row
run_once_example =
    run_once_lem database (λ i. false) 50 100 101 table 3 database-IsComplete (λ i. refl)
      table-IsKeyed few_stale

run_once-primary_error_example :
    (Option.map (λ row. row.verdict) (get (codes "b") table) ≡ some Verdict.primary_error)
    × (Option.map
          (λ row. row.verdict)
          (get (codes "b") (run_once database (λ i. false) 50 100 101 table 3).rows)
        ≡ some Verdict.candidate_error)
unfolding get text_eq pending_row
run_once-primary_error_example =
    run_once-primary_error database (λ i. false) 50 100 101 table 3 database-IsComplete (λ i. refl)
      table-IsKeyed few_stale failed_primary refl refl (omega arith)

requeue_all_unfinished_example :
    Option.map queued_and_count (requeue_all_unfinished database table handling)
    ≡ some (job (codes "a") ∷ job (codes "b") ∷ [], 2)
unfolding pending_row llm_shadow_proxy.Store.Queries.find_all_unfinished
requeue_all_unfinished_example =
    requeue_all_unfinished_lem database table handling handling-IsSound refl

abbrev outside : Outside
outside = record {
  accepts = λ v. true;
  status_text = λ n. codes "500";
  repr = λ v. codes "{}";
  timeout_text = codes "30.0";
}

-- Two failures, and then a time-out.
abbrev posts : ℕ → Post
posts zero = transport_error (codes "refused")
posts (suc zero) = response 503 (codes "busy") none
posts (suc (suc n)) = timeout

stop-drains_example :
    (e : Dispatcher) × Works (busy_dispatcher drop_new) e
    × (stop true e ≡ stopped (record e { running = false; tasks = [] }))
    × (e.queue.items ≡ [])
    × (e.dropped_new ≡ 0)
    × (e.dropped_old ≡ 0)
stop-drains_example =
    stop-drains (busy_dispatcher drop_new) busy_dispatcher-IsSound refl (omega arith)
