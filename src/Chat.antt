-- ===== src/Chat.antt =====
-- src/shadow_proxy/api/v1/chat.py: `POST /v1/chat`, from the validated body to the reply. Pydantic,
-- the ids and the SHA-256 of a JSON text are parameters.
pub mod Replies
pub mod Accounts
pub mod Effects
pub mod Phases
pub mod Stored
pub mod Shadowed
use llm_shadow_proxy.Base.{
  ℕ, ◌+◌, Bool, true, false, ◌||◌, ◌==◌, Option, none, some, List, [], ◌∷◌, ltb, if◌then◌else◌,
}
use llm_shadow_proxy.Base.Text.{Text, codes, text_eq}
use llm_shadow_proxy.Base.Json.{Value, str, obj, end, field, truthy}
use llm_shadow_proxy.Hashing.{request_hash}
use llm_shadow_proxy.Evaluator.{Python}
use llm_shadow_proxy.Store.{PrimaryStatus}
use llm_shadow_proxy.Dispatcher.{Dispatcher, DispatchStatus, enqueued, dropped, enqueue}
use llm_shadow_proxy.Llm.{ChatRequest, Answer}
use llm_shadow_proxy.Pipeline.World.{
  Counters, Metric, requests_total, World, Ending, returned, raised, observe,
}
use llm_shadow_proxy.Pipeline.Persist.{PrimaryOutcome, run_primary, Submission, persist_pending}

-- The model ids of `RouteConfig`; the time-outs are the client's.
pub record RouteConfig : Type 0 where
  pub primary_model_id : Text
  pub candidate_model_id : Text

-- `AppConfig.route`; `none` is the `KeyError`.
unfoldable pub find_route : Text → List (Text × RouteConfig) → Option RouteConfig
find_route name [] = none
find_route name ((n, r) ∷ routes) = if text_eq name n then some r else find_route name routes

-- The validated body: the JSON of its fields, and the metadata that the row holds.
pub record ChatIn : Type 0 where
  pub messages : Value
  pub temperature : Value
  pub max_completion_tokens : Value
  pub metadata : Value
  pub tenant_id : Option Text
  pub session_id : Option Text
  pub route : Text

-- `body.model_dump()`
abbrev pub model_dump : ChatIn → Value
model_dump body = obj (
    field (codes "messages") body.messages (
      field (codes "temperature") body.temperature (
        field (codes "max_completion_tokens") body.max_completion_tokens
          (field (codes "metadata") body.metadata (field (codes "route") (str body.route) end)))))

abbrev pub primary_request : Text → ChatIn → ChatRequest
primary_request model body = record {
  model = model;
  messages = body.messages;
  temperature = body.temperature;
  max_completion_tokens = body.max_completion_tokens;
}

-- What `app.state` holds that a chat reads or writes. A rate is in units of 2^-53, the grain of
-- `random.random()`.
pub record App : Type 0 where
  pub world : World
  pub dispatcher : Dispatcher
  pub routes : List (Text × RouteConfig)
  pub fail_closed : Bool
  pub shadow_sample_rate : ℕ

-- What the surroundings give one request: its id (`X-Request-ID`, or a new one), the clock, the
-- primary model's answer, whether the archive and the database are up, and the random draw.
pub record Arrival : Type 0 where
  pub python : Python
  pub request_id : Text
  pub received_at : ℕ
  pub latency_ms : ℕ
  pub answer : ChatRequest → Answer
  pub digest : Value → Text
  pub put_up : Bool
  pub insert_up : Bool
  pub day : Text
  pub written_at : Text
  pub draw : ℕ

-- The reply: `ChatOut` with the three headers of the shadow gate, an `HTTPException`, or an exception
-- that is none, which the framework answers by a 500.
pub data Reply : Type 0 where
  chat_out : Text → Text → Bool → Bool → ℕ → Value → Reply
  http_error : ℕ → Reply
  server_error : Reply

abbrev count_shadow : Bool → Bool → Counters → Counters
count_shadow sampled_in true c = record c { shadow_enqueued = c.shadow_enqueued + 1 }
count_shadow true false c = c
count_shadow false false c = record c { shadow_sampled_out = c.shadow_sampled_out + 1 }

abbrev pub count_request : Bool → Bool → Counters → Counters
count_request sampled_in queued c =
    count_shadow sampled_in queued (record c {
      requests_total = c.requests_total + 1;
      requests_success = c.requests_success + 1;
    })

abbrev is_enqueued : DispatchStatus → Bool
is_enqueued enqueued = true
is_enqueued dropped = false

abbrev offer_job : Bool → Text → Dispatcher → Option (Dispatcher × Bool)
offer_job false request_id d = some (d, false)
offer_job true request_id d = elim (enqueue (record { request_id = request_id }) d) [
  | none ↦ none
  | some (d', s) ↦ some (d', is_enqueued s)
]

-- `_shadow_gate`: the state, whether the request was sampled in and enqueued, and the rate; `none`
-- is an exception of `enqueue`.
unfoldable pub shadow_gate : ℕ → Text → App → Option (App × Bool × Bool × ℕ)
shadow_gate draw request_id app =
    let sampled_in = ltb draw app.shadow_sample_rate in
    elim (offer_job sampled_in request_id app.dispatcher) [
      | none ↦ none
      | some (d, queued) ↦ some (
        record app {
          dispatcher = d;
          world = record app.world {
            counters = count_request sampled_in queued app.world.counters;
          };
        },
        sampled_in,
        queued,
        app.shadow_sample_rate,
      )
    ]

abbrev count_reply : Text → ℕ → App → App
count_reply route status app = record app {
  world = observe (requests_total route status) app.world;
}

-- `outcome.error_status_code or 502`, of which only 401 and 403 reach the client.
abbrev pub error_status : Option ℕ → ℕ
error_status none = 502
error_status (some code) = if code == 401 || code == 403 then code else 502

abbrev or_empty : Option Value → Value
or_empty none = obj end
or_empty (some v) = if truthy v then v else obj end

-- The end of a chat whose primary call went well.
unfoldable pub answer_client : Arrival → Text → Text → PrimaryOutcome → App → App × Reply
answer_client arrival route model outcome app =
    elim (shadow_gate arrival.draw arrival.request_id app) [
      | none ↦ (app, server_error)
      | some (app', sampled_in, queued, rate) ↦ (
        count_reply route 200 app',
        chat_out arrival.request_id model sampled_in queued rate (or_empty outcome.raw),
      )
    ]

abbrev pub reply_by_status :
    PrimaryStatus → Arrival → Text → Text → PrimaryOutcome → App → App × Reply
reply_by_status PrimaryStatus.timeout arrival route model outcome app =
    (count_reply route 504 app, http_error 504)
reply_by_status PrimaryStatus.error arrival route model outcome app = (
  count_reply route (error_status outcome.error_status_code) app,
  http_error (error_status outcome.error_status_code),
)
reply_by_status PrimaryStatus.ok arrival route model outcome app =
    answer_client arrival route model outcome app

abbrev pub submission : Arrival → ChatIn → RouteConfig → Bool → Submission
submission arrival body route_cfg fail_closed = record {
  request_id = arrival.request_id;
  received_at = arrival.received_at;
  route = body.route;
  tenant_id = body.tenant_id;
  session_id = body.session_id;
  request_hash = request_hash arrival.digest (model_dump body);
  request_body = model_dump body;
  primary_model = route_cfg.primary_model_id;
  candidate_model = route_cfg.candidate_model_id;
  fail_closed = fail_closed;
  written_at = arrival.written_at;
}

-- The row is stored before the status is looked at.
abbrev pub after_persist :
    Arrival → Text → Text → PrimaryOutcome → App → World × Ending → App × Reply
after_persist arrival route model outcome app (w, raised) = (record app { world = w }, server_error)
after_persist arrival route model outcome app (w, returned) =
    reply_by_status outcome.status arrival route model outcome (record app { world = w })

unfoldable pub persist_and_reply :
    Arrival → ChatIn → RouteConfig → App → Option (PrimaryOutcome × Metric) → App × Reply
persist_and_reply arrival body route_cfg app none = (app, server_error)
persist_and_reply arrival body route_cfg app (some (outcome, metric)) =
    after_persist arrival body.route route_cfg.primary_model_id outcome app (
      persist_pending arrival.python arrival.put_up arrival.insert_up arrival.day
        (submission arrival body route_cfg app.fail_closed) outcome (observe metric app.world))

unfoldable pub chat : Arrival → ChatIn → App → App × Reply
chat arrival body app = elim (find_route body.route app.routes) [
  | none ↦ (app, http_error 400)
  | some route_cfg ↦ persist_and_reply arrival body route_cfg app (
      run_primary body.route route_cfg.primary_model_id arrival.latency_ms
        (arrival.answer (primary_request route_cfg.primary_model_id body)))
]
