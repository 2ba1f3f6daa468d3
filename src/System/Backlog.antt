-- ===== src/System/Backlog.antt =====
-- The first worker goes through the queue (src/shadow_proxy/dispatcher/in_process.py and pipeline.py).
use llm_shadow_proxy.Base.{◌<◌, ◌≡◌, refl, sym, ap, ◌∙◌, some, List, [], ◌∷◌, arith}
use llm_shadow_proxy.Base.Text.{Text}
use llm_shadow_proxy.Dispatcher.{
  Dispatcher, CandidateJob, Worker, idle, busy, take_job, finish_job, set_worker, worker_at,
}
use llm_shadow_proxy.Dispatcher.Accounting as Jobs
use llm_shadow_proxy.Dispatcher.Accounting.{IsSound, Step-IsSound, busy_count}
use llm_shadow_proxy.Dispatcher.Progress.{gotten, take_job-gotten, reported, finish_job-reported}
use llm_shadow_proxy.Sweeper.Requeue.{jobs}
use llm_shadow_proxy.Pipeline.World.{World}
use llm_shadow_proxy.Pipeline.Payloads.{CandidateHandler, Surroundings}
use llm_shadow_proxy.Pipeline.Candidate.{handle, call_candidate}
use llm_shadow_proxy.Pipeline.Candidate.Phases.{Begun, over, calling, begin, resume, handle-begin}
use llm_shadow_proxy.Pipeline.Candidate.Backlog.{handle_all}
use llm_shadow_proxy.System.{
  Deployment, takes, begins, ends, resumes, Reach, here, next, with_dispatcher, with_world,
}

pub Reach-trans : {s t u : Deployment} → Reach s t → Reach t u → Reach s u
Reach-trans r here = r
Reach-trans r (next q step) = next (Reach-trans r q) step

-- No handler runs, the first worker waits, and the queue holds the jobs of some ids.
pub record IsQueued (ids : List Text) (s : Deployment) : Type 0 where
  pub quiet : s.calls ≡ []
  pub waiting : worker_at 0 s.app.dispatcher.tasks ≡ some idle
  pub items : s.app.dispatcher.queue.items ≡ jobs ids
  pub sound : IsSound s.app.dispatcher

busy_first :
    (job : CandidateJob) (ws : List Worker) → worker_at 0 ws ≡ some (busy job) → 0 < busy_count ws
unfolding worker_at
busy_first job [] h = cc
busy_first job (w ∷ ws) h = ground arith

worker_at-set_worker :
    (w v : Worker) (ws : List Worker)
    → worker_at 0 ws ≡ some v
    → worker_at 0 (set_worker 0 w ws) ≡ some w
unfolding worker_at set_worker
worker_at-set_worker w v [] h = cc
worker_at-set_worker w v (u ∷ ws) h = refl

-- The dispatcher while the first worker runs the handler, and after that.
record Turned (d : Dispatcher) (i : Text) (ids : List Text) : Type 0 where
  during : Dispatcher
  after : Dispatcher
  takes_it : take_job 0 d ≡ some during
  runs : worker_at 0 during.tasks ≡ some (busy (record { request_id = i }))
  ends_it : finish_job 0 during ≡ some after
  waiting : worker_at 0 after.tasks ≡ some idle
  items : after.queue.items ≡ jobs ids
  sound : IsSound after

turn :
    (d : Dispatcher) (i : Text) (ids : List Text)
    → worker_at 0 d.tasks ≡ some idle
    → d.queue.items ≡ jobs (i ∷ ids)
    → IsSound d
    → Turned d i ids
turn d i ids waiting items sound =
    let job : CandidateJob = record { request_id = i } in
    let during = gotten job (jobs ids) d in
    let taken = take_job-gotten d job (jobs ids) waiting items in
    let sound' : IsSound during = Step-IsSound (Jobs.takes 0 taken) sound in
    let runs = worker_at-set_worker (busy job) idle d.tasks waiting in
    let finished =
      finish_job-reported during 0 job
        (omega (arith, sound'.accounted, busy_first job during.tasks runs)) runs in
    record {
      during = during;
      after = reported 0 during;
      takes_it = taken;
      runs = runs;
      ends_it = finished;
      waiting = worker_at-set_worker idle (busy job) during.tasks runs;
      items = refl;
      sound = Step-IsSound (Jobs.finishes 0 finished) sound';
    }

-- One job, from its place at the head of the queue to its end.
module _ (h : CandidateHandler) (env : Surroundings) (i : Text) (ids : List Text) (s : Deployment)
    (q : IsQueued (i ∷ ids) s) where
  turned : Turned s.app.dispatcher i ids
  turned = turn s.app.dispatcher i ids q.waiting q.items q.sound

  abbrev busy_now : Deployment
  busy_now = record { app = with_dispatcher turned.during s.app; calls = []; chats = s.chats }

  abbrev end_with : World → Deployment
  end_with w = record {
    app = with_dispatcher turned.after (with_world w s.app);
    calls = [];
    chats = s.chats;
  }

  end_with-IsQueued : (w : World) → IsQueued ids (end_with w)
  end_with-IsQueued w = record {
    quiet = refl;
    waiting = turned.waiting;
    items = turned.items;
    sound = turned.sound;
  }

  Reach-busy_now : Reach s busy_now
  Reach-busy_now =
      next here
        (takes 0 turned.takes_it (ap (λ calls. record busy_now { calls = calls }) (sym q.quiet)))

  handle-resume :
      (r : World × Begun)
      → begin h env i s.app.world ≡ r
      → (resume h env r).0 ≡ (handle h env i s.app.world).0
  handle-resume r b = sym (ap (λ e. e.0) (handle-begin h env i s.app.world ∙ ap (resume h env) b))

  work_begun :
      (r : World × Begun)
      → begin h env i s.app.world ≡ r
      → (t : Deployment) × Reach s t
        × IsQueued ids t
        × (t.app.world ≡ (handle h env i s.app.world).0)
  work_begun (w, over e) b = (
    end_with w,
    next Reach-busy_now
        (ends h env 0 (record { request_id = i }) turned.runs refl b turned.ends_it refl),
    end_with-IsQueued w,
    handle-resume (w, over e) b,
  )
  work_begun (w, calling row) b = (
    end_with (call_candidate h env row w).0,
    next (next Reach-busy_now (begins h env 0 (record { request_id = i }) turned.runs refl b refl))
        (resumes h env [] (record { worker = 0; row = row }) [] refl turned.ends_it refl),
    end_with-IsQueued (call_candidate h env row w).0,
    handle-resume (w, calling row) b,
  )

  pub work_one :
      (t : Deployment) × Reach s t × IsQueued ids t × (t.app.world ≡ (handle h env i s.app.world).0)
  work_one = work_begun (begin h env i s.app.world) refl

-- The whole queue, job after job.
pub work_all :
    (h : CandidateHandler) (envs : Text → Surroundings) (ids : List Text) (s : Deployment)
    → IsQueued ids s
    → (t : Deployment) × Reach s t
      × IsQueued [] t
      × (t.app.world ≡ (handle_all h envs ids s.app.world).0)
work_all h envs [] s q = (s, here, q, refl)
work_all h envs (i ∷ ids) s q =
    let (s', first, q', same) = work_one h (envs i) i ids s q in
    let (t, later, done, end) = work_all h envs ids s' q' in
    (t, Reach-trans first later, done, end ∙ rw same)
