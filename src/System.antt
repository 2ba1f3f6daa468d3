-- ===== src/System.antt =====
-- The parts of src/shadow_proxy together, as main.py wires them: chats and candidate handlers in two
-- parts each, the workers' steps, the sweeper, the requeue at startup, changes of the sample rate, and
-- crashes with a restart, in any order on one table, archive and queue. The first part of a chat starts
-- with the primary model's answer; each part, and a tick of the sweeper, is one step.
pub mod Journal
pub mod Invariant
pub mod Up
pub mod Backlog
pub mod Recovery
use llm_shadow_proxy.Base.{ℕ, ◌≡◌, Bool, false, Option, some, List, [], ◌∷◌, ◌++◌, any, ◌==◌}
use llm_shadow_proxy.Base.Text.{Text}
use llm_shadow_proxy.Store.{ComparisonRecord, Table}
use llm_shadow_proxy.Store.Queries.{Engine}
use llm_shadow_proxy.Tape.{MismatchTape}
use llm_shadow_proxy.Dispatcher.{
  Dispatcher, CandidateJob, OverflowPolicy, busy, new, start, take_job, finish_job, worker_at,
}
use llm_shadow_proxy.Sweeper.{run_once, requeue_all_unfinished}
use llm_shadow_proxy.Pipeline.World.{World, Ending, new_counters}
use llm_shadow_proxy.Pipeline.Payloads.{CandidateHandler, Surroundings}
use llm_shadow_proxy.Pipeline.Candidate.{call_candidate}
use llm_shadow_proxy.Pipeline.Candidate.Phases.{over, calling, begin}
use llm_shadow_proxy.Chat.{ChatIn, App, Arrival, Reply}
use llm_shadow_proxy.Chat.Phases.{Stored, closed, stored, keep, answer_stored}
use llm_shadow_proxy.Evaluations.Runtime.{full_rate, put_runtime_config}

-- A call between its two phases: the worker that runs it, and the row that it read.
pub record Handling : Type 0 where
  pub worker : ℕ
  pub row : ComparisonRecord

pub record Deployment : Type 0 where
  pub app : App
  pub calls : List Handling
  pub chats : List Stored

abbrev pub with_world : World → App → App
with_world w app = record app { world = w }

abbrev pub with_rows : Table → App → App
with_rows rows app = record app { world = record app.world { rows = rows } }

abbrev pub with_dispatcher : Dispatcher → App → App
with_dispatcher d app = record app { dispatcher = d }

-- `lifespan` after a crash: the table and the archive are kept, all else is new.
unfoldable pub restart : Option MismatchTape → Dispatcher → App → App
restart tape d app = record app {
  dispatcher = start d;
  world = record app.world { tape = tape; counters = new_counters; metrics = [] };
  shadow_sample_rate = full_rate;
}

pub data Step (s t : Deployment) : Type 0 where
  -- A chat has stored its row, and goes on later.
  stores :
      (arrival : Arrival) (body : ChatIn) {app : App} {c : Stored}
      → keep arrival body s.app ≡ (app, stored c)
      → t ≡ record s { app = app; chats = c ∷ s.chats }
      → Step s t
  -- A chat ends before that: its route is unknown, or an exception leaves it.
  rejects :
      (arrival : Arrival) (body : ChatIn) {app : App} {reply : Reply}
      → keep arrival body s.app ≡ (app, closed reply)
      → t ≡ record s { app = app }
      → Step s t
  -- A chat with a stored row passes the shadow gate and is answered.
  answers :
      (before : List Stored) (c : Stored) (after : List Stored)
      → s.chats ≡ before ++ (c ∷ after)
      → t ≡ record s { app = (answer_stored c s.app).0; chats = before ++ after }
      → Step s t
  takes :
      (i : ℕ) {d : Dispatcher}
      → take_job i s.app.dispatcher ≡ some d
      → t ≡ record s { app = with_dispatcher d s.app }
      → Step s t
  -- The handler of a busy worker has marked its row.
  begins :
      (h : CandidateHandler) (env : Surroundings) (i : ℕ) (job : CandidateJob) {w : World}
      {row : ComparisonRecord}
      → worker_at i s.app.dispatcher.tasks ≡ some (busy job)
      → any (λ c. c.worker == i) s.calls ≡ false
      → begin h env job.request_id s.app.world ≡ (w, calling row)
      → t
        ≡ record s { app = with_world w s.app; calls = record { worker = i; row = row } ∷ s.calls }
      → Step s t
  -- The handler ended without a call of the candidate.
  ends :
      (h : CandidateHandler) (env : Surroundings) (i : ℕ) (job : CandidateJob) {w : World}
      {e : Ending} {d : Dispatcher}
      → worker_at i s.app.dispatcher.tasks ≡ some (busy job)
      → any (λ c. c.worker == i) s.calls ≡ false
      → begin h env job.request_id s.app.world ≡ (w, over e)
      → finish_job i s.app.dispatcher ≡ some d
      → t ≡ record s { app = with_dispatcher d (with_world w s.app) }
      → Step s t
  -- A call in progress goes on to its end.
  resumes :
      (h : CandidateHandler) (env : Surroundings) (before : List Handling) (c : Handling)
      (after : List Handling) {d : Dispatcher}
      → s.calls ≡ before ++ (c ∷ after)
      → finish_job c.worker s.app.dispatcher ≡ some d
      → t ≡ record {
        app = with_dispatcher d (with_world (call_candidate h env c.row s.app.world).0 s.app);
        calls = before ++ after;
        chats = s.chats;
      }
      → Step s t
  sweeps :
      (db : Engine) (broken : Text → Bool) (threshold asked now total : ℕ)
      → t ≡ record s {
        app = with_rows (run_once db broken threshold asked now s.app.world.rows total).rows s.app;
      }
      → Step s t
  requeues :
      (db : Engine) {d : Dispatcher} {n : ℕ}
      → requeue_all_unfinished db s.app.world.rows s.app.dispatcher ≡ some (d, n)
      → t ≡ record s { app = with_dispatcher d s.app }
      → Step s t
  tunes : (rate : Option ℕ) → t ≡ record s { app = (put_runtime_config rate s.app).0 } → Step s t
  restarts :
      (capacity workers : ℕ) (policy : OverflowPolicy) (tape : Option MismatchTape) {d : Dispatcher}
      → new capacity workers policy ≡ some d
      → t ≡ record { app = restart tape d s.app; calls = []; chats = [] }
      → Step s t

pub data Reach (s : Deployment) : Deployment → Type 0 where
  here : Reach s s
  next : {t u : Deployment} → Reach s t → Step t u → Reach s u
