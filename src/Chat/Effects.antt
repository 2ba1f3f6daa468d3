-- ===== src/Chat/Effects.antt =====
-- What a chat writes to the table, and what it asks of the dispatcher (`chat` of
-- src/shadow_proxy/api/v1/chat.py).
use llm_shadow_proxy.Base.{
  ◌≡◌, refl, ◌⊎◌, inl, inr, Bool, true, false, some, arith, ltb, Option-cases,
}
use llm_shadow_proxy.Base.Text.{Text}
use llm_shadow_proxy.Store.{PrimaryStatus}
use llm_shadow_proxy.Store.Journal.{Edits, unchanged, inserted}
use llm_shadow_proxy.Dispatcher.{Dispatcher, CandidateJob, DispatchStatus, enqueue}
use llm_shadow_proxy.Evaluator.{Python}
use llm_shadow_proxy.Pipeline.World.{World}
use llm_shadow_proxy.Pipeline.Persist.{PrimaryOutcome, Submission, persist_pending}
use llm_shadow_proxy.Pipeline.Persist.Durable.{persist_pending-cases}
use llm_shadow_proxy.Chat.{App, Arrival, offer_job, shadow_gate, answer_client, reply_by_status}

-- The dispatcher is the old one, or has been offered one job.
abbrev pub IsOffered : Dispatcher → Dispatcher → Type 0
IsOffered d d' =
    (d' ≡ d) ⊎ ((job : CandidateJob) × (s : DispatchStatus) × (enqueue job d ≡ some (d', s)))

-- The table is edited, the dispatcher is offered at most one job, and the sample rate stays.
pub record Effect (app app' : App) : Type 0 where
  pub edits : Edits app.world.rows app'.world.rows
  pub offered : IsOffered app.dispatcher app'.dispatcher
  pub rate : app'.shadow_sample_rate ≡ app.shadow_sample_rate

pub Effect-none : (app : App) → Effect app app
Effect-none app = record { edits = unchanged; offered = inl refl; rate = refl }

offer_job-IsOffered :
    (sampled_in : Bool) (i : Text) (d d' : Dispatcher) (queued : Bool)
    → offer_job sampled_in i d ≡ some (d', queued)
    → IsOffered d d'
offer_job-IsOffered false i d d' queued e = inl (ground arith)
offer_job-IsOffered true i d d' queued e =
    elim (Option-cases (enqueue (record { request_id = i }) d)) [
      | inl failed ↦ absurd (ground arith)
      | inr ((d'', s), ok) ↦ inr (record { request_id = i }, s, ground arith)
    ]

answer_client-Effect :
    (arrival : Arrival) (route model : Text) (outcome : PrimaryOutcome) (app : App)
    → Effect app (answer_client arrival route model outcome app).0
unfolding answer_client shadow_gate
answer_client-Effect arrival route model outcome app =
    let sampled_in = ltb arrival.draw app.shadow_sample_rate in
    elim (Option-cases (offer_job sampled_in arrival.request_id app.dispatcher)) [
      | inl failed ↦ rw (failed, answer_client) (Effect-none app)
      | inr ((d, queued), e) ↦
          rw (e, answer_client)
            (record {
              edits = unchanged;
              offered = offer_job-IsOffered sampled_in arrival.request_id app.dispatcher d queued e;
              rate = refl;
            })
    ]

pub reply_by_status-Effect :
    (s : PrimaryStatus) (arrival : Arrival) (route model : Text) (outcome : PrimaryOutcome)
    (app : App)
    → Effect app (reply_by_status s arrival route model outcome app).0
reply_by_status-Effect PrimaryStatus.timeout arrival route model outcome app = record {
  edits = unchanged;
  offered = inl refl;
  rate = refl;
}
reply_by_status-Effect PrimaryStatus.error arrival route model outcome app = record {
  edits = unchanged;
  offered = inl refl;
  rate = refl;
}
reply_by_status-Effect PrimaryStatus.ok arrival route model outcome app =
    answer_client-Effect arrival route model outcome app

pub persist_pending-Edits :
    (py : Python) (put_up insert_up : Bool) (day : Text) (s : Submission) (outcome : PrimaryOutcome)
    (w : World)
    → Edits w.rows (persist_pending py put_up insert_up day s outcome w).0.rows
persist_pending-Edits py put_up insert_up day s outcome w =
    elim (persist_pending-cases py put_up insert_up day s outcome w) [
      | inl (rows, ok, same, done) ↦ rw same (inserted _ unchanged ok)
      | inr (same, e) ↦ rw same unchanged
    ]
