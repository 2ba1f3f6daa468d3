-- ===== src/Tests/Runs.antt =====
-- A startup, and a run of the whole program after it, on concrete data.
use llm_shadow_proxy.Base.{◌<◌, ◌⊎◌, ◌≡◌, refl, true, false, none, some, List, [], ◌∷◌}
use llm_shadow_proxy.Base.Text.{codes, text_eq, contains, behind}
use llm_shadow_proxy.Store.{
  insert_pending, update, in_progress_row, get, pending_row, mark_in_progress,
}
use llm_shadow_proxy.Store.Queries.{find_all_unfinished}
use llm_shadow_proxy.Store.Journal.{Entry, entry, Moves, entry_of}
use llm_shadow_proxy.Pipeline.Candidate.Phases.{begin}
use llm_shadow_proxy.Llm.{replied}
use llm_shadow_proxy.Queue.{put_nowait, get_nowait}
use llm_shadow_proxy.Settings.{
  find_marker, missing_spaces, check_spaces, assert_runtime_ready, validate_api_key, make_clients,
}
use llm_shadow_proxy.Paths.{Machine, config_to_load}
use llm_shadow_proxy.Dispatcher.{
  Dispatcher, drop_new, idle, busy, worker_at, set_worker, take_job, enqueue, new, start,
}
use llm_shadow_proxy.Sweeper.{enqueue_all, requeue_all_unfinished}
use llm_shadow_proxy.Chat.{find_route}
use llm_shadow_proxy.Chat.Phases.{Kept, Stored, stored, closed, keep}
use llm_shadow_proxy.Pipeline.Persist.{
  run_primary, persist_pending, pending_comparison, archive_payload,
}
use llm_shadow_proxy.Evaluations.Runtime.{put_runtime_config}
use llm_shadow_proxy.System.{
  Deployment, Reach, with_dispatcher, with_world, here, next, stores, takes, begins, tunes,
}
use llm_shadow_proxy.System.Invariant.{IsSane}
use llm_shadow_proxy.System.Journal.{Reach-Moves}
use llm_shadow_proxy.Main.{
  AppConfig, Host, Boot, boot, started, lifespan, configure, connect, start_workers, requeue,
  open_stores, load_app_config, open_raw_store, build_raw_store, new_app,
}
use llm_shadow_proxy.Main.Started.{lifespan-IsSane}
use llm_shadow_proxy.Main.Closing.{Fates, close, waits}
use llm_shadow_proxy.Main.Closing.Parts.{Ends}
use llm_shadow_proxy.Main.Shutdown.{open_jobs, lifespan-close}
use llm_shadow_proxy.Tape.{in_get, breaks}
use llm_shadow_proxy.Dispatcher.Progress.{Works}
use llm_shadow_proxy.Sweeper.Loop.{SweeperTask}
use llm_shadow_proxy.Tests.{
  python, database, table, files, job, handler, answering, reply, archived_row,
}
use llm_shadow_proxy.Tests.Jobs.{table-IsKeyed}
use llm_shadow_proxy.Tests.Startup.{settings}
use llm_shadow_proxy.Tests.Replies.{models, arrival, body}

-- A machine on which a path is resolved already, and only the configuration file exists.
abbrev pub machine : Machine
machine = record {
  expanduser = λ p. p;
  is_absolute = λ p. true;
  join = λ a b. b;
  resolve = λ p. p;
  parent = λ p. p;
  parents = λ p. [];
  is_file = λ p. false;
  is_dir = λ p. false;
  exists = λ p. true;
  cwd = codes "/app";
  environ = λ name. none;
  module_root = codes "/app/src";
  package_dir = codes "/app/src/shadow_proxy";
}

abbrev config : AppConfig
config = record {
  routes = (codes "default", models) ∷ [];
  fail_closed = true;
  queue_capacity = 2;
  workers = 1;
  overflow_policy = drop_new;
}

abbrev host : Host
host = record {
  machine = machine;
  lower = python.lower;
  settings = settings;
  places = record {
    config_file = codes "/c";
    raw_store_filesystem_path = codes "/r";
    database_url = codes "sqlite+aiosqlite:////d";
    env_file = none;
  };
  bundled = none;
  read_config = λ p. some config;
  archive = files;
  table = table;
  tape_rows = [];
  engine = database;
  has_aioboto3 = true;
  dirs_up = true;
  store_up = true;
  tape_up = true;
  query_up = true;
}

-- Both rows of the table are requeued.
abbrev requeued : Dispatcher
requeued = record {
  queue = record { items = job (codes "a") ∷ job (codes "b") ∷ []; maxsize = 2; unfinished = 2 };
  workers_n = 1;
  policy = drop_new;
  tasks = idle ∷ [];
  running = true;
  queue_depth = 2;
  dropped_new = 0;
  dropped_old = 0;
}

abbrev booted : Boot
booted = boot host config models (some files) requeued 2

lifespan-booted : lifespan host ≡ started booted
unfolding lifespan configure open_stores connect start_workers requeue load_app_config
    open_raw_store build_raw_store llm_shadow_proxy.Main.spaces_raw_store config_to_load find_route
    text_eq assert_runtime_ready find_marker contains behind check_spaces missing_spaces
    make_clients validate_api_key new start requeue_all_unfinished enqueue_all enqueue put_nowait
    find_all_unfinished pending_row
lifespan-booted = refl

-- The worker takes the first job, its handler marks the row, and the sample rate is changed.
abbrev handling : Dispatcher
handling = record requeued {
  queue = record { items = job (codes "b") ∷ []; maxsize = 2; unfinished = 2 };
  tasks = busy (job (codes "a")) ∷ [];
}

abbrev taken : Deployment
taken = record booted.deployment { app = with_dispatcher handling booted.deployment.app }

abbrev marked : Deployment
marked = record {
  app =
      with_world (record taken.app.world { rows = mark_in_progress 20 (codes "a") table })
        taken.app;
  calls = record { worker = 0; row = archived_row } ∷ [];
  chats = [];
}

abbrev pub tuned : Deployment
tuned = record marked { app = (put_runtime_config (some 5) marked.app).0 }

tuned-Reach : Reach booted.deployment tuned
unfolding take_job get_nowait worker_at set_worker begin get text_eq pending_row
tuned-Reach =
    next
      (next (next here (takes 0 refl refl))
        (begins handler (answering (replied reply)) 0 (job (codes "a")) refl refl refl refl))
      (tunes (some 5) refl)

-- A chat stores its row.
abbrev held : Kept → List Stored
held (stored c) = c ∷ []
held (closed _) = []

abbrev chatted : Deployment
chatted = record tuned {
  app = (keep arrival body tuned.app).0;
  chats = held (keep arrival body tuned.app).1;
}

chatted-Reach : Reach booted.deployment chatted
unfolding keep find_route persist_pending archive_payload insert_pending run_primary text_eq
    pending_row get mark_in_progress update in_progress_row put_runtime_config pending_comparison
chatted-Reach = next tuned-Reach (stores arrival body refl refl)

abbrev before : Entry
before = entry_of archived_row

entry-before : entry (codes "a") table ≡ some before
unfolding get text_eq pending_row
entry-before = refl

-- The sweeper before and after its stop.
abbrev waiting : SweeperTask
waiting = record { is_running = true; stop_set = false }

-- The writer is in `get`, its rollback fails, and a client does not close.
abbrev fates : Fates
fates = record {
  writer = in_get;
  insert = breaks;
  primary_up = true;
  candidate_up = false;
  store_up = true;
}

abbrev stopped_task : SweeperTask
stopped_task = record { is_running = false; stop_set = true }

lifespan-IsSane_example : IsSane chatted
lifespan-IsSane_example = lifespan-IsSane host table-IsKeyed lifespan-booted chatted-Reach

Reach-Moves_example : Moves (entry (codes "a") table) (entry (codes "a") chatted.app.world.rows)
Reach-Moves_example = Reach-Moves (codes "a") chatted-Reach

lifespan-close_example :
    ((0 < open_jobs chatted.app)
      × (close fates waiting chatted.app
          ≡ waits stopped_task
              (with_dispatcher (record chatted.app.dispatcher { running = false }) chatted.app))
      × (d : Dispatcher) × Works chatted.app.dispatcher d
      × Ends fates waiting (with_dispatcher d chatted.app))
    ⊎ ((open_jobs chatted.app ≡ 0) × Ends fates waiting chatted.app)
lifespan-close_example =
    lifespan-close host fates waiting table-IsKeyed lifespan-booted chatted-Reach
