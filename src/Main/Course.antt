-- ===== src/Main/Course.antt =====
-- The parts of a startup that succeeds (`lifespan` of src/shadow_proxy/main.py).
use llm_shadow_proxy.Base.{
  ℕ, ◌≡◌, refl, ◌⊎◌, inl, inr, Option, true, none, some, Option-cases, arith,
}
use llm_shadow_proxy.Raw.{Files}
use llm_shadow_proxy.Settings.{assert_runtime_ready, make_clients}
use llm_shadow_proxy.Paths.{resolve_relative}
use llm_shadow_proxy.Dispatcher.{Dispatcher, new, start}
use llm_shadow_proxy.Sweeper.{requeue_all_unfinished}
use llm_shadow_proxy.Chat.{RouteConfig, find_route}
use llm_shadow_proxy.Main.{
  AppConfig, Host, Boot, boot, started, Try, raises, gives, load_app_config, open_raw_store,
  requeue, start_workers, connect, open_stores, configure, default_name, lifespan,
}

pub Try-cases : {A : Type 0} (t : Try A) → ((e : _) × (t ≡ raises e)) ⊎ ((a : A) × (t ≡ gives a))
Try-cases (raises e) = inl (e, refl)
Try-cases (gives a) = inr (a, refl)

-- The configuration that `lifespan` reads.
abbrev pub loaded : Host → Try AppConfig
loaded host =
    load_app_config host (resolve_relative host.machine host.places host.places.config_file)

-- What the last part adds.
pub record Tail (host : Host) (config : AppConfig) (route : RouteConfig) (raw : Option Files)
    (b : Boot) : Type 0 where
  pub made : Dispatcher
  pub filled : Dispatcher
  pub requeued : ℕ
  pub makes : new config.queue_capacity config.workers config.overflow_policy ≡ some made
  pub requeues :
      requeue_all_unfinished host.engine host.table (start made) ≡ some (filled, requeued)
  pub end : b ≡ boot host config route raw filled requeued
  pub tape : host.tape_up ≡ true
  pub query : host.query_up ≡ true

-- A startup that came to its end, with the result of each of its steps.
pub record Course (host : Host) (b : Boot) : Type 0 where
  pub config : AppConfig
  pub route : RouteConfig
  pub raw : Option Files
  pub checks : assert_runtime_ready host.lower host.settings ≡ none
  pub loads : loaded host ≡ gives config
  pub routed : find_route default_name config.routes ≡ some route
  pub dirs : host.dirs_up ≡ true
  pub store : host.store_up ≡ true
  pub opens : open_raw_store host ≡ gives raw
  pub accepts : make_clients host.lower host.settings ≡ none
  pub tail : Tail host config route raw b

start_workers-Tail :
    (host : Host) (config : AppConfig) (route : RouteConfig) (raw : Option Files) {b : Boot}
    → start_workers host config route raw ≡ started b
    → Tail host config route raw b
unfolding start_workers requeue
start_workers-Tail host config route raw {b} e =
    elim (Option-cases (new config.queue_capacity config.workers config.overflow_policy)) [
      | inl bad ↦ absurd (ground arith)
      | inr (made, makes) ↦
          elim (Option-cases (requeue_all_unfinished host.engine host.table (start made))) [
            | inl bad ↦ absurd (ground arith)
            | inr ((filled, requeued), requeues) ↦ record {
              made = made;
              filled = filled;
              requeued = requeued;
              makes = makes;
              requeues = requeues;
              end = ground arith;
              tape = ground arith;
              query = ground arith;
            }
          ]
    ]

connect-parts :
    (host : Host) (config : AppConfig) (route : RouteConfig) {b : Boot}
    → connect host config route ≡ started b
    → (raw : Option Files) × (open_raw_store host ≡ gives raw)
      × (make_clients host.lower host.settings ≡ none)
      × (start_workers host config route raw ≡ started b)
unfolding connect
connect-parts host config route e = elim (Try-cases (open_raw_store host)) [
  | inl (f, bad) ↦ absurd (ground arith)
  | inr (raw, opens) ↦ (raw, opens, ground arith, ground arith)
]

configure-parts :
    (host : Host) {b : Boot}
    → configure host ≡ started b
    → (config : AppConfig) × (route : RouteConfig) × (loaded host ≡ gives config)
      × (find_route default_name config.routes ≡ some route)
      × (host.dirs_up ≡ true)
      × (host.store_up ≡ true)
      × (connect host config route ≡ started b)
unfolding configure open_stores
configure-parts host e = elim (Try-cases (loaded host)) [
  | inl (f, bad) ↦ absurd (ground arith)
  | inr (config, loads) ↦ elim (Option-cases (find_route default_name config.routes)) [
    | inl bad ↦ absurd (ground arith)
    | inr (route, routed) ↦ (config, route, loads, routed, ground arith, ground arith, ground arith)
  ]
]

lifespan-parts :
    (host : Host) {b : Boot}
    → lifespan host ≡ started b
    → (assert_runtime_ready host.lower host.settings ≡ none) × (configure host ≡ started b)
unfolding lifespan
lifespan-parts host e = ground arith

pub lifespan-Course : (host : Host) {b : Boot} → lifespan host ≡ started b → Course host b
lifespan-Course host e =
    let (checks, e1) = lifespan-parts host e in
    let (config, route, loads, routed, dirs, store, e2) = configure-parts host e1 in
    let (raw, opens, accepts, e3) = connect-parts host config route e2 in
    let tail = start_workers-Tail host config route raw e3 in
    record {
      config = config;
      route = route;
      raw = raw;
      checks = checks;
      loads = loads;
      routed = routed;
      dirs = dirs;
      store = store;
      opens = opens;
      accepts = accepts;
      tail = tail;
    }
