-- ===== src/Main.antt =====
-- The startup of src/shadow_proxy/main.py (`lifespan`, up to the point where requests are served), with
-- what it calls of settings.py and store/raw.py. What the machine gives is a parameter. The first tick of
-- the sweeper, which can come between the start of the workers and the requeue, is left to System.
pub mod Course
pub mod Started
pub mod Closing
pub mod Shutdown
use llm_shadow_proxy.Base.{ℕ, Bool, false, Option, none, some, List, [], if◌then◌else◌}
use llm_shadow_proxy.Base.Text.{Text, codes, is_empty}
use llm_shadow_proxy.Store.{Table}
use llm_shadow_proxy.Store.Queries.{Engine}
use llm_shadow_proxy.Raw.{Files}
use llm_shadow_proxy.Tape.{TapeRow, MismatchTape}
use llm_shadow_proxy.Queue
use llm_shadow_proxy.Settings.{
  Settings, Refusal, RawStoreType, filesystem, spaces, assert_runtime_ready, make_clients,
}
use llm_shadow_proxy.Paths.{
  Machine, Places, Suspicion, resolve_relative, resolved_database_url, warn_on_suspicious_paths,
  ensure_local_dirs, mismatch_tape_path, config_to_load,
}
use llm_shadow_proxy.Dispatcher.{Dispatcher, OverflowPolicy, new, start}
use llm_shadow_proxy.Sweeper.{requeue_all_unfinished}
use llm_shadow_proxy.Pipeline.World.{new_counters}
use llm_shadow_proxy.Chat.{RouteConfig, App, find_route}
use llm_shadow_proxy.Evaluations.Runtime.{full_rate}
use llm_shadow_proxy.System.{Deployment}

-- `AppConfig`, as far as `lifespan` and the program behind it read it here.
pub record AppConfig : Type 0 where
  pub routes : List (Text × RouteConfig)
  pub fail_closed : Bool
  pub queue_capacity : ℕ
  pub workers : ℕ
  pub overflow_policy : OverflowPolicy

-- What the process finds: the file system, `str.lower`, the settings, the place of the bundled
-- configuration, the YAML and Pydantic reading of a configuration file (`none` is their exception), the
-- files that are in the archive, what the databases hold, whether `aioboto3` is installed, whether the
-- directories are made (`FilesystemRawStore` then finds its own), whether the store is made and initialised,
-- whether the tape starts, and whether the query of the requeue returns.
pub record Host : Type 0 where
  pub machine : Machine
  pub lower : Text → Text
  pub settings : Settings
  pub places : Places
  pub bundled : Option Text
  pub read_config : Text → Option AppConfig
  pub archive : Files
  pub table : Table
  pub tape_rows : List TapeRow
  pub engine : Engine
  pub has_aioboto3 : Bool
  pub dirs_up : Bool
  pub store_up : Bool
  pub tape_up : Bool
  pub query_up : Bool

-- The exception that ends the startup.
pub data Failure : Type 0 where
  refused : Refusal → Failure
  no_config_file bad_config no_default_route bad_dispatcher no_aioboto3 no_bucket : Failure
  dirs_failed store_failed tape_failed query_failed requeue_failed : Failure

-- What `lifespan` has made when it yields, with the warnings of the log, the directories it made, the
-- file of the tape and the number of requeued rows.
pub record Boot : Type 0 where
  pub deployment : Deployment
  pub default_route : RouteConfig
  pub warnings : List Suspicion
  pub dirs : List Text
  pub tape_file : Text
  pub requeued : ℕ

pub data Startup : Type 0 where
  failed : Failure → Startup
  started : Boot → Startup

-- What a step of `lifespan` gives: an exception, or a value.
pub data Try {ℓ} (A : Type ℓ) : Type ℓ where
  raises : Failure → Try A
  gives : A → Try A

-- `load_app_config`
unfoldable pub load_app_config : Host → Text → Try AppConfig
load_app_config host path = elim (config_to_load host.machine path host.bundled) [
  | none ↦ raises no_config_file
  | some file ↦ elim (host.read_config file) [ none ↦ raises bad_config | some c ↦ gives c ]
]

-- The constructor of `SpacesRawStore`.
unfoldable pub spaces_raw_store : Bool → Text → Files → Try Files
spaces_raw_store has_aioboto3 bucket files =
    if has_aioboto3
    then (if is_empty bucket then raises no_bucket else gives files)
    else raises no_aioboto3

-- `build_raw_store` of store/raw.py
unfoldable pub build_raw_store : Bool → RawStoreType → Text → Files → Try Files
build_raw_store has_aioboto3 filesystem bucket files = gives files
build_raw_store has_aioboto3 spaces bucket files = spaces_raw_store has_aioboto3 bucket files

abbrev pub opened : Try Files → Try (Option Files)
opened (raises e) = raises e
opened (gives files) = gives (some files)

abbrev pub has_no_bucket : Settings → Bool
has_no_bucket s = elim s.raw_store_type [
  | filesystem ↦ false
  | spaces ↦ is_empty s.do_spaces_bucket
]

-- `_build_raw_store` of main.py
unfoldable pub open_raw_store : Host → Try (Option Files)
open_raw_store host =
    if has_no_bucket host.settings
    then gives none
    else opened (
        build_raw_store host.has_aioboto3 host.settings.raw_store_type
          host.settings.do_spaces_bucket host.archive)

-- The queue of the tape, which `start` makes empty.
abbrev pub tape_capacity : ℕ
tape_capacity = 1024

abbrev pub new_tape : List TapeRow → MismatchTape
new_tape rows = record { queue = Queue.empty tape_capacity; stopped = false; written = rows }

-- `app.state`, with the running dispatcher.
abbrev pub new_app : Host → AppConfig → Option Files → Dispatcher → App
new_app host config raw d = record {
  world = record {
    rows = host.table;
    raw = raw;
    tape = some (new_tape host.tape_rows);
    counters = new_counters;
    metrics = [];
  };
  dispatcher = d;
  routes = config.routes;
  fail_closed = config.fail_closed;
  shadow_sample_rate = full_rate;
}

abbrev pub boot : Host → AppConfig → RouteConfig → Option Files → Dispatcher → ℕ → Boot
boot host config route raw d requeued =
    let db_url = resolved_database_url host.machine host.places in
    record {
      deployment = record { app = new_app host config raw d; calls = []; chats = [] };
      default_route = route;
      warnings = warn_on_suspicious_paths host.machine host.places;
      dirs = ensure_local_dirs host.machine host.places host.settings.raw_store_type db_url;
      tape_file = mismatch_tape_path host.machine host.places db_url;
      requeued = requeued;
    }

-- From the start of the workers on.
unfoldable pub requeue : Host → AppConfig → RouteConfig → Option Files → Dispatcher → Startup
requeue host config route raw d =
    if host.query_up
    then (elim (requeue_all_unfinished host.engine host.table (start d)) [
      | none ↦ failed requeue_failed
      | some (d', requeued) ↦ started (boot host config route raw d' requeued)
    ])
    else failed query_failed

-- From the dispatcher's constructor on.
unfoldable pub start_workers : Host → AppConfig → RouteConfig → Option Files → Startup
start_workers host config route raw =
    elim (new config.queue_capacity config.workers config.overflow_policy) [
      | none ↦ failed bad_dispatcher
      | some d ↦ if host.tape_up then requeue host config route raw d else failed tape_failed
    ]

-- From the raw store on.
unfoldable pub connect : Host → AppConfig → RouteConfig → Startup
connect host config route = elim (open_raw_store host) [
  | raises e ↦ failed e
  | gives raw ↦ elim (make_clients host.lower host.settings) [
    | some refusal ↦ failed (refused refusal)
    | none ↦ start_workers host config route raw
  ]
]

-- From the directories on.
unfoldable pub open_stores : Host → AppConfig → RouteConfig → Startup
open_stores host config route =
    if host.dirs_up
    then (if host.store_up then connect host config route else failed store_failed)
    else failed dirs_failed

abbrev pub default_name : Text
default_name = codes "default"

-- From the configuration on.
unfoldable pub configure : Host → Startup
configure host =
    elim (load_app_config host
      (resolve_relative host.machine host.places host.places.config_file)) [
        | raises e ↦ failed e
        | gives config ↦ elim (find_route default_name config.routes) [
          | none ↦ failed no_default_route
          | some route ↦ open_stores host config route
        ]
      ]

-- `lifespan`
unfoldable pub lifespan : Host → Startup
lifespan host = elim (assert_runtime_ready host.lower host.settings) [
  | some refusal ↦ failed (refused refusal)
  | none ↦ configure host
]
