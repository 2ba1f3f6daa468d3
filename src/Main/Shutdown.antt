-- ===== src/Main/Shutdown.antt =====
-- The shutdown of the program (the `finally` block of `lifespan` in src/shadow_proxy/main.py) in any state
-- that it comes to.
use native.Mathlib.Decide.{dec_lt}
use llm_shadow_proxy.Base.{ℕ, ◌+◌, ◌<◌, ◌≡◌, ◌⊎◌, true, false, arith, inl, inr}
use llm_shadow_proxy.Dispatcher.{Dispatcher, start, stop, depth}
use llm_shadow_proxy.Dispatcher.Accounting.{busy_count}
use llm_shadow_proxy.Dispatcher.Shutdown.{stop_tasks-drained}
use llm_shadow_proxy.Sweeper.Loop.{SweeperTask, stop_sweeper}
use llm_shadow_proxy.System.{Deployment, with_dispatcher}
use llm_shadow_proxy.System.Invariant.{IsSane}
use llm_shadow_proxy.Chat.{App}
use llm_shadow_proxy.Store.Keyed.{IsKeyed}
use llm_shadow_proxy.Dispatcher.Progress.{Works, stop-drains}
use llm_shadow_proxy.System.{Reach}
use llm_shadow_proxy.System.Up.{IsUp, Reach-IsUp, start-IsUp, requeue-IsUp}
use llm_shadow_proxy.Main.{Host, Boot, started, lifespan}
use llm_shadow_proxy.Main.Course.{Course, lifespan-Course}
use llm_shadow_proxy.Main.Started.{lifespan-IsSane}
use llm_shadow_proxy.Main.Closing.{Fates, waits, close}
use llm_shadow_proxy.Main.Closing.Parts.{Ends, stopped-Ends}

-- How many jobs are queued or in a handler.
abbrev pub open_jobs : App → ℕ
open_jobs app = depth app.dispatcher + busy_count app.dispatcher.tasks

-- In a sane state with a running dispatcher the `finally` block is not left by an exception of the
-- dispatcher. While a job is queued or in a handler it waits, and only the dispatcher's flag has changed;
-- otherwise it ends.
close_lem :
    (fates : Fates) (sweeper : SweeperTask) (s : Deployment)
    → IsSane s
    → s.app.dispatcher.running ≡ true
    → ((0 < open_jobs s.app)
        × (close fates sweeper s.app
            ≡ waits
                (stop_sweeper sweeper)
                (with_dispatcher (record s.app.dispatcher { running = false }) s.app)))
      ⊎ ((open_jobs s.app ≡ 0) × Ends fates sweeper s.app)
unfolding close stop
close_lem fates sweeper s sane up = elim (dec_lt 0 (open_jobs s.app)) [
  | yes busy ↦ inl (busy, ground (arith, sane.sound.accounted))
  | no free ↦
      let (over, empty) =
        stop_tasks-drained s.app.dispatcher sane.sound (omega (arith, sane.sound.accounted)) in
      inr (
        omega arith,
        stopped-Ends fates sweeper s.app (ground (arith, over, sane.sound.accounted)) empty,
      )
]

boot-IsUp : {host : Host} {b : Boot} → Course host b → IsUp b.deployment.app.dispatcher
boot-IsUp {host} c = rw c.tail.end (
    requeue-IsUp host.engine host.table (start c.tail.made) c.tail.requeues
      (start-IsUp c.config.queue_capacity c.config.workers c.config.overflow_policy c.tail.makes))

-- A shutdown in any state that the program comes to after a startup from a table with unique keys: no
-- exception of the dispatcher leaves the `finally` block. While a job is queued or in a handler it waits,
-- and only the dispatcher's flag has changed; by turns of the workers alone the dispatcher then comes to a
-- state in which the block ends. Otherwise it ends at once. When it ends, the table, the archive and the
-- counters are as before, no job and no worker is left, and the tape has got, of the rows still queued, at
-- most the first one, and this only if its writer was already in `get` and the insert is committed; and it
-- ends without an exception if no part that it closes raises, and by the exception of the first that does.
-- The tape raises exactly if its writer has had an exception, or has one over that row.
pub lifespan-close :
    (host : Host) (fates : Fates) (sweeper : SweeperTask) {b : Boot} {s : Deployment}
    → IsKeyed host.table
    → lifespan host ≡ started b
    → Reach b.deployment s
    → ((0 < open_jobs s.app)
        × (close fates sweeper s.app
            ≡ waits
                (stop_sweeper sweeper)
                (with_dispatcher (record s.app.dispatcher { running = false }) s.app))
        × (d : Dispatcher) × Works s.app.dispatcher d
        × Ends fates sweeper (with_dispatcher d s.app))
      ⊎ ((open_jobs s.app ≡ 0) × Ends fates sweeper s.app)
lifespan-close host fates sweeper {b} {s} keyed e r =
    let sane = lifespan-IsSane host keyed e r in
    let up = Reach-IsUp r (boot-IsUp (lifespan-Course host e)) in
    elim (close_lem fates sweeper s sane up.running) [
      | inr over ↦ inr over
      | inl (busy, waiting) ↦
          let (d, works, over, empty, _, _) =
            stop-drains s.app.dispatcher sane.sound up.running up.staffed in
          inl (
            busy,
            waiting,
            d,
            works,
            stopped-Ends fates sweeper (with_dispatcher d s.app) over empty,
          )
    ]
