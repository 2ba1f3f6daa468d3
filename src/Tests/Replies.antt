-- ===== src/Tests/Replies.antt =====
-- `POST /v1/chat` on a concrete body.
use llm_shadow_proxy.Base.{◌≡◌, refl, true, none, some, [], ◌∷◌}
use llm_shadow_proxy.Base.Text.{codes, text_eq}
use llm_shadow_proxy.Base.Json.{null, arr, nil}
use llm_shadow_proxy.Dispatcher.{drop_new}
use llm_shadow_proxy.Llm.{call_error, replied}
use llm_shadow_proxy.Chat.{RouteConfig, find_route, ChatIn, App, Arrival, chat}
use llm_shadow_proxy.Chat.Accounts.{IsCounted, chat-IsCounted}
use llm_shadow_proxy.Pipeline.World.{new_counters}
use llm_shadow_proxy.Tests.{python, deployment, busy_dispatcher, day, reply}

abbrev pub body : ChatIn
body = record {
  messages = arr nil;
  temperature = null;
  max_completion_tokens = null;
  metadata = null;
  tenant_id = none;
  session_id = none;
  route = codes "default";
}

abbrev pub models : RouteConfig
models = record { primary_model_id = codes "big"; candidate_model_id = codes "small" }

abbrev pub app : App
app = record {
  world = deployment;
  dispatcher = busy_dispatcher drop_new;
  routes = (codes "default", models) ∷ [];
  fail_closed = true;
  shadow_sample_rate = 1;
}

-- The model refuses the key.
abbrev pub arrival : Arrival
arrival = record {
  python = python;
  request_id = codes "n";
  received_at = 40;
  latency_ms = 5;
  answer = λ req. call_error (codes "no") (some 401);
  digest = λ v. codes "h";
  put_up = true;
  insert_up = true;
  day = day;
  written_at = codes "2026-01-31T00:00:00+00:00";
  draw = 0;
}

pub default_route : find_route (codes "default") app.routes ≡ some models
unfolding find_route text_eq
default_route = refl

-- The model answers.
abbrev answered_arrival : Arrival
answered_arrival = record arrival { answer = λ req. replied reply }

-- The queue is full: the shadow is sampled in and dropped.
chat-IsCounted_example :
    IsCounted new_counters (busy_dispatcher drop_new) (chat answered_arrival body app)
chat-IsCounted_example = chat-IsCounted answered_arrival body app
