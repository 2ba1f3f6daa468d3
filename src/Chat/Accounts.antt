-- ===== src/Chat/Accounts.antt =====
-- The business counters and the dispatcher after a chat (`chat` and `_shadow_gate` of
-- src/shadow_proxy/api/v1/chat.py).
use mathlib.Core.Path.{subst}
use llm_shadow_proxy.Base.{
  ◌+◌, ◌≡◌, refl, inl, inr, Bool, true, false, Option, none, some, arith, ltb, Option-cases,
  if◌then◌else◌,
}
use llm_shadow_proxy.Base.Text.{Text}
use llm_shadow_proxy.Store.{PrimaryStatus}
use llm_shadow_proxy.Dispatcher.{Dispatcher}
use llm_shadow_proxy.Evaluator.{Python}
use llm_shadow_proxy.Pipeline.World.{Counters, Metric, World, Ending, returned, raised, observe}
use llm_shadow_proxy.Pipeline.Persist.{
  PrimaryOutcome, run_primary, Submission, archive_payload, persist_pending,
}
use llm_shadow_proxy.Chat.{
  RouteConfig, find_route, ChatIn, primary_request, App, Arrival, Reply, chat_out, http_error,
  server_error, offer_job, shadow_gate, answer_client, reply_by_status, after_persist, submission,
  persist_and_reply, chat,
}

-- What a chat has counted from the counters and the dispatcher that it found: a reply to the customer is one request and one success, and a
-- shadow that was enqueued or sampled out, if its headers say so; any other reply counts nothing and
-- offers no job.
abbrev pub IsCounted : Counters → Dispatcher → App × Reply → Type 0
IsCounted c d (app', chat_out _ _ sampled_in queued _ _) =
    let c' = app'.world.counters in
    (c'.requests_total ≡ c.requests_total + 1)
    × (c'.requests_success ≡ c.requests_success + 1)
    × (c'.shadow_enqueued ≡ (if queued then c.shadow_enqueued + 1 else c.shadow_enqueued))
    × (c'.shadow_sampled_out
        ≡ (if sampled_in then c.shadow_sampled_out else c.shadow_sampled_out + 1))
    × (c'.requests_error ≡ c.requests_error)
    × (c'.shadow_errors ≡ c.shadow_errors)
IsCounted c d (app', http_error _) = (app'.dispatcher ≡ d) × (app'.world.counters ≡ c)
IsCounted c d (app', server_error) = (app'.dispatcher ≡ d) × (app'.world.counters ≡ c)

-- A job that was not offered is not enqueued.
offer_job-sampled :
    (sampled_in : Bool) (i : Text) (d d' : Dispatcher) (queued : Bool)
    → offer_job sampled_in i d ≡ some (d', queued)
    → sampled_in ≡ false
    → queued ≡ false
offer_job-sampled true i d d' queued e s = cc
offer_job-sampled false i d d' queued e s = ground arith

answer_client-IsCounted :
    (arrival : Arrival) (route model : Text) (outcome : PrimaryOutcome) (app : App)
    → IsCounted app.world.counters app.dispatcher (answer_client arrival route model outcome app)
unfolding answer_client shadow_gate
answer_client-IsCounted arrival route model outcome app =
    let sampled_in = ltb arrival.draw app.shadow_sample_rate in
    elim (Option-cases (offer_job sampled_in arrival.request_id app.dispatcher)) [
      | inl failed ↦ rw (failed, answer_client) (refl, refl)
      | inr ((d, queued), e) ↦
          let honest = offer_job-sampled sampled_in arrival.request_id app.dispatcher d queued e in
          rw (e, answer_client) (ground (arith, honest))
    ]

reply_by_status-IsCounted :
    (s : PrimaryStatus) (arrival : Arrival) (route model : Text) (outcome : PrimaryOutcome)
    (app : App)
    → IsCounted app.world.counters app.dispatcher
        (reply_by_status s arrival route model outcome app)
reply_by_status-IsCounted PrimaryStatus.timeout arrival route model outcome app = (refl, refl)
reply_by_status-IsCounted PrimaryStatus.error arrival route model outcome app = (refl, refl)
reply_by_status-IsCounted PrimaryStatus.ok arrival route model outcome app =
    answer_client-IsCounted arrival route model outcome app

archive_payload-counters :
    (put_up : Bool) (day : Text) (s : Submission) (outcome : PrimaryOutcome) (w : World)
    → (archive_payload put_up day s outcome w).1.counters ≡ w.counters
unfolding archive_payload
archive_payload-counters put_up day s outcome w = ground arith

persist_pending-counters :
    (py : Python) (put_up insert_up : Bool) (day : Text) (s : Submission) (outcome : PrimaryOutcome)
    (w : World)
    → (persist_pending py put_up insert_up day s outcome w).0.counters ≡ w.counters
unfolding persist_pending
persist_pending-counters py put_up insert_up day s outcome w =
    ground (arith, archive_payload-counters put_up day s outcome w)

after_persist-IsCounted :
    (arrival : Arrival) (route model : Text) (outcome : PrimaryOutcome) (app : App)
    (r : World × Ending)
    → r.0.counters ≡ app.world.counters
    → IsCounted app.world.counters app.dispatcher (after_persist arrival route model outcome app r)
after_persist-IsCounted arrival route model outcome app (w, raised) same = (refl, same)
after_persist-IsCounted arrival route model outcome app (w, returned) same =
    subst
      (λ c.
        IsCounted c app.dispatcher
          (reply_by_status outcome.status arrival route model outcome (record app { world = w })))
      same
      (reply_by_status-IsCounted outcome.status arrival route model outcome
        (record app { world = w }))

persist_and_reply-IsCounted :
    (arrival : Arrival) (body : ChatIn) (cfg : RouteConfig) (app : App)
    (o : Option (PrimaryOutcome × Metric))
    → IsCounted app.world.counters app.dispatcher (persist_and_reply arrival body cfg app o)
unfolding persist_and_reply
persist_and_reply-IsCounted arrival body cfg app none = (refl, refl)
persist_and_reply-IsCounted arrival body cfg app (some (outcome, metric)) =
    after_persist-IsCounted arrival body.route cfg.primary_model_id outcome app
      (persist_pending arrival.python arrival.put_up arrival.insert_up arrival.day
        (submission arrival body cfg app.fail_closed) outcome (observe metric app.world))
      (persist_pending-counters arrival.python arrival.put_up arrival.insert_up arrival.day
        (submission arrival body cfg app.fail_closed) outcome (observe metric app.world))

-- Whatever the primary model, the archive and the database do: a chat that answers the customer
-- counts one request and one success, and counts a shadow as enqueued or as sampled out exactly as its
-- headers say. Any other chat leaves the counters and the dispatcher as they were; so `requests_error`
-- never moves.
pub chat-IsCounted :
    (arrival : Arrival) (body : ChatIn) (app : App)
    → IsCounted app.world.counters app.dispatcher (chat arrival body app)
unfolding chat
chat-IsCounted arrival body app = elim (Option-cases (find_route body.route app.routes)) [
  | inl unknown ↦ rw (unknown, chat) (refl, refl)
  | inr (cfg, known) ↦
      rw (known, chat)
        (persist_and_reply-IsCounted arrival body cfg app (
          run_primary body.route cfg.primary_model_id arrival.latency_ms
            (arrival.answer (primary_request cfg.primary_model_id body))))
]
