-- ===== src/Chat/Stored.antt =====
-- What an answered chat (src/shadow_proxy/api/v1/chat.py) leaves for the handler of the candidate's job
-- (src/shadow_proxy/pipeline.py).
use llm_shadow_proxy.Base.{
  ℕ, ◌∷◌, [], ◌≡◌, refl, ap, ◌∙◌, inl, inr, Bool, true, none, some, Option-cases, arith, ltb,
}
use llm_shadow_proxy.Base.Text.{Text, text_eq}
use llm_shadow_proxy.Base.Json.{
  Value, null, bool, num, str, arr, obj, end, field, get_field, truthy,
}
use llm_shadow_proxy.Store.{PrimaryStatus}
use llm_shadow_proxy.Llm.{ChatRequest, ChatResponse, replied}
use llm_shadow_proxy.Pipeline.World.{
  World, Ending, returned, raised, observe, primary_latency, CallOutcome,
}
use llm_shadow_proxy.Pipeline.Payloads.{
  CandidateHandler, build_request, message_content, primary_content_from_raw,
}
use llm_shadow_proxy.Pipeline.Persist.{
  PrimaryOutcome, run_primary, Submission, payload, persist_pending,
}
use llm_shadow_proxy.Chat.{
  RouteConfig, find_route, ChatIn, primary_request, App, Arrival, submission, offer_job,
  shadow_gate, answer_client, after_persist, persist_and_reply, chat,
}

-- What `run_primary` makes of a response.
abbrev pub replied_outcome : ℕ → ChatResponse → PrimaryOutcome
replied_outcome latency_ms resp = record {
  status = PrimaryStatus.ok;
  latency_ms = latency_ms;
  content = resp.content;
  raw = some resp.raw;
  error = none;
  error_status_code = none;
}

-- The customer's question, put to the candidate.
abbrev pub candidate_request : CandidateHandler → ChatIn → ChatRequest
candidate_request h body = record {
  model = h.candidate_model_id;
  messages = body.messages;
  temperature = body.temperature;
  max_completion_tokens = body.max_completion_tokens;
}

pub build_request-payload :
    (h : CandidateHandler) (arrival : Arrival) (body : ChatIn) (cfg : RouteConfig) (closed : Bool)
    (outcome : PrimaryOutcome)
    → build_request h (payload (submission arrival body cfg closed) outcome)
      ≡ some (candidate_request h body)
unfolding build_request get_field text_eq
build_request-payload h arrival body cfg closed outcome = refl

-- A response with a message in it is true.
message_content-truthy : (v : Value) (c : Value) → message_content v ≡ some c → truthy v ≡ true
unfolding message_content get_field truthy
message_content-truthy null c e = cc
message_content-truthy (bool b) c e = cc
message_content-truthy (num n) c e = cc
message_content-truthy (str s) c e = cc
message_content-truthy (arr vs) c e = cc
message_content-truthy (obj end) c e = cc
message_content-truthy (obj (field k v fs)) c e = refl

pub primary_content_from_raw-payload :
    (s : Submission) (latency_ms : ℕ) (resp : ChatResponse) (text : Text)
    → message_content resp.raw ≡ some (str text)
    → primary_content_from_raw (payload s (replied_outcome latency_ms resp)) ≡ some (str text)
unfolding primary_content_from_raw get_field text_eq truthy
primary_content_from_raw-payload s latency_ms resp [] e =
    ground (arith, message_content-truthy resp.raw (str []) e)
primary_content_from_raw-payload s latency_ms resp (c ∷ text) e =
    ground (arith, message_content-truthy resp.raw (str (c ∷ text)) e)

answer_client-stored :
    (arrival : Arrival) (route model : Text) (outcome : PrimaryOutcome) (app : App)
    → let app' = (answer_client arrival route model outcome app).0 in
      (app'.world.rows ≡ app.world.rows) × (app'.world.raw ≡ app.world.raw)
unfolding answer_client shadow_gate
answer_client-stored arrival route model outcome app =
    elim (Option-cases
      (offer_job (ltb arrival.draw app.shadow_sample_rate) arrival.request_id app.dispatcher)) [
        | inl failed ↦ rw (failed, answer_client) (refl, refl)
        | inr ((d, queued), e) ↦ rw (e, answer_client) (refl, refl)
      ]

module _ (arrival : Arrival) (body : ChatIn) (app : App) (cfg : RouteConfig) (resp : ChatResponse)
    (routed : find_route body.route app.routes ≡ some cfg)
    (answered : arrival.answer (primary_request cfg.primary_model_id body) ≡ replied resp) where
  abbrev pub request : Submission
  request = submission arrival body cfg app.fail_closed

  abbrev pub outcome : PrimaryOutcome
  outcome = replied_outcome arrival.latency_ms resp

  abbrev pub observed : World
  observed =
      observe (primary_latency body.route cfg.primary_model_id CallOutcome.ok arrival.latency_ms)
        app.world

  answer_stored-same :
      (p : World × Ending)
      → p.1 ≡ returned
      → let app' = (after_persist arrival body.route cfg.primary_model_id outcome app p).0 in
        (app'.world.rows ≡ p.0.rows) × (app'.world.raw ≡ p.0.raw)
  answer_stored-same (w, returned) e =
      answer_client-stored arrival body.route cfg.primary_model_id outcome
        (record app { world = w })
  answer_stored-same (w, raised) e = cc

  chat-after_persist :
      chat arrival body app
      ≡ after_persist arrival body.route cfg.primary_model_id outcome app (
          persist_pending arrival.python arrival.put_up arrival.insert_up arrival.day request
            outcome observed)
  unfolding chat persist_and_reply run_primary
  chat-after_persist =
      let asked : chat arrival body app
          ≡ persist_and_reply arrival body cfg app (
              run_primary body.route cfg.primary_model_id arrival.latency_ms
                (arrival.answer (primary_request cfg.primary_model_id body))) =
        ground (arith, routed) in
      asked
      ∙ ap
          (λ a.
            persist_and_reply arrival body cfg app
              (run_primary body.route cfg.primary_model_id arrival.latency_ms a))
          answered

  pub chat-stored :
      let (w, e) =
        persist_pending arrival.python arrival.put_up arrival.insert_up arrival.day request outcome
          observed in
      e ≡ returned
      → ((chat arrival body app).0.world.rows ≡ w.rows)
        × ((chat arrival body app).0.world.raw ≡ w.raw)
  chat-stored e = rw chat-after_persist (answer_stored-same _ e)
