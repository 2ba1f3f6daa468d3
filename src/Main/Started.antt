-- ===== src/Main/Started.antt =====
-- When `lifespan` of src/shadow_proxy/main.py comes to serve requests, and what holds then.
use llm_shadow_proxy.Base.{◌<◌, ◌≡◌, ◌⊎◌, true, false, some, arith}
use llm_shadow_proxy.Base.Text.{Text, is_empty}
use llm_shadow_proxy.Store.Keyed.{IsKeyed}
use llm_shadow_proxy.Settings.{filesystem}
use llm_shadow_proxy.Settings.Agreement.{IsGuarded}
use llm_shadow_proxy.Dispatcher.{Dispatcher, start}
use llm_shadow_proxy.Dispatcher.Accounting.{new-IsSound, start-IsSound}
use llm_shadow_proxy.Chat.{RouteConfig, find_route}
use llm_shadow_proxy.System.{Deployment, Reach}
use llm_shadow_proxy.System.Invariant.{IsSane, Reach-IsSane, requeue-IsSound}
use llm_shadow_proxy.Main.{AppConfig, Host, Boot, started, gives, default_name, lifespan}
use llm_shadow_proxy.Main.Course.{loaded, Course, lifespan-Course}

-- What the startup needs: the opt-out or guarded settings, a key, a configuration with the default route,
-- the library of the archive if it is to be opened, room in the queue, a worker, and a machine on which
-- the directories, the store, the tape and the query come to their end.
pub record IsReady (host : Host) : Type 0 where
  pub config : AppConfig
  pub route : RouteConfig
  pub checks : (host.settings.allow_dummy_key ≡ true) ⊎ IsGuarded host.lower host.settings
  pub key : is_empty host.settings.do_inference_api_key ≡ false
  pub loads : loaded host ≡ gives config
  pub routed : find_route default_name config.routes ≡ some route
  pub archive :
      (host.settings.raw_store_type ≡ filesystem)
      ⊎ (is_empty host.settings.do_spaces_bucket ≡ true)
      ⊎ (host.has_aioboto3 ≡ true)
  pub capacity : 0 < config.queue_capacity
  pub workers : 0 < config.workers
  pub dirs : host.dirs_up ≡ true
  pub store : host.store_up ≡ true
  pub tape : host.tape_up ≡ true
  pub query : host.query_up ≡ true

boot-IsSane : {host : Host} {b : Boot} → IsKeyed host.table → Course host b → IsSane b.deployment
boot-IsSane {host} keyed c =
    let tail = c.tail in
    let fresh =
      new-IsSound c.config.queue_capacity c.config.workers c.config.overflow_policy tail.makes in
    rw tail.end (record {
      keyed = keyed;
      sound =
          requeue-IsSound host.engine host.table (start tail.made) tail.requeues
            (start-IsSound tail.made fresh);
      rate = omega arith;
    })

-- From a table with unique keys: whatever state the program comes to after a startup, by parts of chats
-- and handlers in any interleaving, sweeps, requeues, changes of the sample rate and crashes with a restart, its table
-- has unique keys, `join` waits for exactly the jobs that are queued or in a handler, the queue is within
-- its capacity, and the sample rate is at most 1.
pub lifespan-IsSane :
    (host : Host) {b : Boot} {t : Deployment}
    → IsKeyed host.table
    → lifespan host ≡ started b
    → Reach b.deployment t
    → IsSane t
lifespan-IsSane host keyed e r = Reach-IsSane r (boot-IsSane keyed (lifespan-Course host e))
