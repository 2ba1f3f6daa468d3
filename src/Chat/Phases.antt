-- ===== src/Chat/Phases.antt =====
-- A chat (src/shadow_proxy/api/v1/chat.py) in two parts: up to the stored row, and from there to the
-- reply. Between them the handler can wait while other tasks run, or the process can end.
use llm_shadow_proxy.Base.{◌≡◌, refl, inl, inr, Option, none, some, Option-cases, arith}
use llm_shadow_proxy.Base.Text.{Text}
use llm_shadow_proxy.Store.Journal.{Edits, unchanged}
use llm_shadow_proxy.Pipeline.World.{Metric, World, Ending, returned, raised, observe}
use llm_shadow_proxy.Pipeline.Persist.{PrimaryOutcome, run_primary, persist_pending}
use llm_shadow_proxy.Chat.{
  RouteConfig, find_route, ChatIn, primary_request, App, Arrival, Reply, http_error, server_error,
  reply_by_status, after_persist, submission, persist_and_reply, chat,
}
use llm_shadow_proxy.Chat.Effects.{Effect, reply_by_status-Effect, persist_pending-Edits}

-- A chat whose `persist_pending` has returned, with what its second part reads.
pub record Stored : Type 0 where
  pub arrival : Arrival
  pub route : Text
  pub model : Text
  pub outcome : PrimaryOutcome

-- The first part ends the chat, or leaves it to be answered.
pub data Kept : Type 0 where
  closed : Reply → Kept
  stored : Stored → Kept

abbrev pub keep_row : Arrival → Text → Text → PrimaryOutcome → App → World × Ending → App × Kept
keep_row arrival route model outcome app (w, raised) =
    (record app { world = w }, closed server_error)
keep_row arrival route model outcome app (w, returned) = (
  record app { world = w },
  stored (record { arrival = arrival; route = route; model = model; outcome = outcome }),
)

abbrev pub keep_outcome :
    Arrival → ChatIn → RouteConfig → App → Option (PrimaryOutcome × Metric) → App × Kept
keep_outcome arrival body route_cfg app none = (app, closed server_error)
keep_outcome arrival body route_cfg app (some (outcome, metric)) =
    keep_row arrival body.route route_cfg.primary_model_id outcome app (
      persist_pending arrival.python arrival.put_up arrival.insert_up arrival.day
        (submission arrival body route_cfg app.fail_closed) outcome (observe metric app.world))

unfoldable pub keep : Arrival → ChatIn → App → App × Kept
keep arrival body app = elim (find_route body.route app.routes) [
  | none ↦ (app, closed (http_error 400))
  | some route_cfg ↦ keep_outcome arrival body route_cfg app (
      run_primary body.route route_cfg.primary_model_id arrival.latency_ms
        (arrival.answer (primary_request route_cfg.primary_model_id body)))
]

abbrev pub answer_stored : Stored → App → App × Reply
answer_stored c app = reply_by_status c.outcome.status c.arrival c.route c.model c.outcome app

abbrev pub answer_kept : App × Kept → App × Reply
answer_kept (app, closed reply) = (app, reply)
answer_kept (app, stored c) = answer_stored c app

answer_kept-keep_row :
    (arrival : Arrival) (route model : Text) (outcome : PrimaryOutcome) (app : App)
    (r : World × Ending)
    → answer_kept (keep_row arrival route model outcome app r)
      ≡ after_persist arrival route model outcome app r
answer_kept-keep_row arrival route model outcome app (w, raised) = refl
answer_kept-keep_row arrival route model outcome app (w, returned) = refl

answer_kept-keep_outcome :
    (arrival : Arrival) (body : ChatIn) (cfg : RouteConfig) (app : App)
    (o : Option (PrimaryOutcome × Metric))
    → answer_kept (keep_outcome arrival body cfg app o) ≡ persist_and_reply arrival body cfg app o
unfolding persist_and_reply
answer_kept-keep_outcome arrival body cfg app none = refl
answer_kept-keep_outcome arrival body cfg app (some (outcome, metric)) =
    answer_kept-keep_row arrival body.route cfg.primary_model_id outcome app (
      persist_pending arrival.python arrival.put_up arrival.insert_up arrival.day
        (submission arrival body cfg app.fail_closed) outcome (observe metric app.world))

-- A chat that no other task interrupts is its first part followed at once by the second.
pub chat-keep :
    (arrival : Arrival) (body : ChatIn) (app : App)
    → chat arrival body app ≡ answer_kept (keep arrival body app)
unfolding chat keep
chat-keep arrival body app = elim (Option-cases (find_route body.route app.routes)) [
  | inl unknown ↦ ground arith
  | inr (cfg, known) ↦ ground (
    arith,
    answer_kept-keep_outcome arrival body cfg app (
        run_primary body.route cfg.primary_model_id arrival.latency_ms
          (arrival.answer (primary_request cfg.primary_model_id body))),
  )
]

-- The first part writes to the table only.
pub record Keeps (app : App) (r : App × Kept) : Type 0 where
  pub edits : Edits app.world.rows r.0.world.rows
  pub dispatcher : r.0.dispatcher ≡ app.dispatcher
  pub rate : r.0.shadow_sample_rate ≡ app.shadow_sample_rate

keep_row-Keeps :
    (arrival : Arrival) (route model : Text) (outcome : PrimaryOutcome) (app : App)
    (r : World × Ending)
    → Edits app.world.rows r.0.rows
    → Keeps app (keep_row arrival route model outcome app r)
keep_row-Keeps arrival route model outcome app (w, raised) edits = record {
  edits = edits;
  dispatcher = refl;
  rate = refl;
}
keep_row-Keeps arrival route model outcome app (w, returned) edits = record {
  edits = edits;
  dispatcher = refl;
  rate = refl;
}

keep_outcome-Keeps :
    (arrival : Arrival) (body : ChatIn) (cfg : RouteConfig) (app : App)
    (o : Option (PrimaryOutcome × Metric))
    → Keeps app (keep_outcome arrival body cfg app o)
keep_outcome-Keeps arrival body cfg app none = record {
  edits = unchanged;
  dispatcher = refl;
  rate = refl;
}
keep_outcome-Keeps arrival body cfg app (some (outcome, metric)) =
    keep_row-Keeps arrival body.route cfg.primary_model_id outcome app
      (persist_pending arrival.python arrival.put_up arrival.insert_up arrival.day
        (submission arrival body cfg app.fail_closed) outcome (observe metric app.world))
      (persist_pending-Edits arrival.python arrival.put_up arrival.insert_up arrival.day
        (submission arrival body cfg app.fail_closed) outcome (observe metric app.world))

pub keep-Keeps : (arrival : Arrival) (body : ChatIn) (app : App) → Keeps app (keep arrival body app)
unfolding keep
keep-Keeps arrival body app = elim (Option-cases (find_route body.route app.routes)) [
  | inl unknown ↦ rw (unknown, keep) (record { edits = unchanged; dispatcher = refl; rate = refl })
  | inr (cfg, known) ↦
      rw (known, keep)
        (keep_outcome-Keeps arrival body cfg app (
          run_primary body.route cfg.primary_model_id arrival.latency_ms
            (arrival.answer (primary_request cfg.primary_model_id body))))
]

pub answer_stored-Effect : (c : Stored) (app : App) → Effect app (answer_stored c app).0
answer_stored-Effect c app =
    reply_by_status-Effect c.outcome.status c.arrival c.route c.model c.outcome app
