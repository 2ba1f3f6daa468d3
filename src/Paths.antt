-- ===== src/Paths.antt =====
-- The files and directories of src/shadow_proxy/settings.py and main.py. `pathlib`, `os` and the file
-- system are a parameter: a path is held by its `str()`.
pub mod Resolution
pub mod Found
use llm_shadow_proxy.Base.{Bool, ◌||◌, Option, none, some, List, [], ◌∷◌, ◌++◌, any, if◌then◌else◌}
use llm_shadow_proxy.Base.Text.{Text, codes, is_empty, behind, contains}
use llm_shadow_proxy.Settings.{RawStoreType, filesystem, spaces}

-- `expanduser`, `is_absolute`, `a / b`, `resolve`, `parent` and `parents` of a path, the tests of the file
-- system, the working directory, the environment's variables, and the place of settings.py.
pub record Machine : Type 0 where
  pub expanduser : Text → Text
  pub is_absolute : Text → Bool
  pub join : Text → Text → Text
  pub resolve : Text → Text
  pub parent : Text → Text
  pub parents : Text → List Text
  pub is_file : Text → Bool
  pub is_dir : Text → Bool
  pub exists : Text → Bool
  pub cwd : Text
  pub environ : Text → Option Text
  pub module_root : Text
  pub package_dir : Text

-- `$SHADOW_PROXY_ENV_FILE`, if it names a file.
abbrev override_file : Machine → Option Text → Option Text
override_file m none = none
override_file m (some name) =
    if is_empty name
    then none
    else (let p = m.resolve (m.expanduser name) in if m.is_file p then some p else none)

-- The walk up from the working directory; it ends at a directory with a `pyproject.toml`.
unfoldable pub walk_up : Machine → List Text → Option Text
walk_up m [] = none
walk_up m (dir ∷ dirs) =
    let further = walk_up m dirs in
    if m.is_file (m.join dir (codes ".env"))
    then some (m.join dir (codes ".env"))
    else (if m.is_file (m.join dir (codes "pyproject.toml")) then none else further)

abbrev sibling : Machine → Option Text
sibling m =
    let candidate = m.join m.module_root (codes ".env") in
    if m.is_file candidate then some candidate else none

abbrev pub or_next {ℓ} : {A : Type ℓ} → Option A → Option A → Option A
or_next (some a) b = some a
or_next none b = b

-- `_find_env_file`
unfoldable pub find_env_file : Machine → Option Text
find_env_file m =
    let here = m.resolve m.cwd in
    or_next (override_file m (m.environ (codes "SHADOW_PROXY_ENV_FILE")))
      (or_next (walk_up m (here ∷ m.parents here)) (sibling m))

-- The settings that name places. `env_file` is `_LOADED_ENV_FILE`.
pub record Places : Type 0 where
  pub config_file : Text
  pub raw_store_filesystem_path : Text
  pub database_url : Text
  pub env_file : Option Text

abbrev app_dir : Text
app_dir = codes "/app"

-- `_anchor_dir`
unfoldable pub anchor_dir : Machine → Places → Text
anchor_dir m s = elim s.env_file [
  | some file ↦ m.parent file
  | none ↦
      let here = m.resolve m.cwd in
      if m.is_file (m.join here (codes "pyproject.toml")) || m.is_dir (m.join here (codes "config"))
      then here
      else (if m.is_dir app_dir then app_dir else m.package_dir)
]

-- `_resolve_relative`
unfoldable pub resolve_relative : Machine → Places → Text → Text
resolve_relative m s raw =
    let p = m.expanduser raw in m.resolve (if m.is_absolute p then p else m.join (anchor_dir m s) p)

abbrev pub async_prefix : Text
async_prefix = codes "sqlite+aiosqlite:///"

abbrev pub sync_prefix : Text
sync_prefix = codes "sqlite:///"

-- The prefix of a SQLite URL, and what is behind it.
unfoldable pub split_url : Text → Option (Text × Text)
split_url url = elim (behind async_prefix url) [
  | some path ↦ some (async_prefix, path)
  | none ↦ elim (behind sync_prefix url) [ some path ↦ some (sync_prefix, path) | none ↦ none ]
]

-- `resolved_database_url`
unfoldable pub resolved_database_url : Machine → Places → Text
resolved_database_url m s = elim (split_url s.database_url) [
  | none ↦ s.database_url
  | some (prefix, path) ↦ prefix ++ resolve_relative m s path
]

abbrev path_in : Option (Text × Text) → Option Text
path_in none = none
path_in (some (prefix, path)) = some path

-- `_sqlite_db_path`
unfoldable pub sqlite_db_path : Machine → Places → Option Text
sqlite_db_path m s = path_in (split_url (resolved_database_url m s))

abbrev pub install_prefix_markers : List Text
install_prefix_markers = codes "/site-packages/" ∷ codes "/opt/venv/" ∷ codes "/dist-packages/" ∷ []

-- A warning's label, path and anchor; the rest of its text is fixed.
pub record Suspicion : Type 0 where
  pub label : Text
  pub path : Text
  pub anchor : Text

abbrev pub is_suspicious : Text → Bool
is_suspicious path = any (λ marker. contains marker path) install_prefix_markers

unfoldable pub suspicions : Text → List (Text × Text) → List Suspicion
suspicions anchor [] = []
suspicions anchor ((label, path) ∷ checks) =
    let further = suspicions anchor checks in
    if is_suspicious path
    then record { label = label; path = path; anchor = anchor } ∷ further
    else further

abbrev database_check : Option Text → List (Text × Text)
database_check none = []
database_check (some path) = (codes "database_url (sqlite)", path) ∷ []

-- `warn_on_suspicious_paths`
unfoldable pub warn_on_suspicious_paths : Machine → Places → List Suspicion
warn_on_suspicious_paths m s = suspicions (anchor_dir m s) (
    (codes "config_file", resolve_relative m s s.config_file)
    ∷ (codes "raw_store_filesystem_path", resolve_relative m s s.raw_store_filesystem_path)
    ∷ database_check (sqlite_db_path m s))

-- `_ensure_local_dirs` of main.py: the directories that it makes.
unfoldable pub ensure_local_dirs : Machine → Places → RawStoreType → Text → List Text
ensure_local_dirs m s kind db_url =
    let raw_dirs : List Text = elim kind [
      | filesystem ↦ resolve_relative m s s.raw_store_filesystem_path ∷ []
      | spaces ↦ []
    ] in
    elim (split_url db_url) [ none ↦ raw_dirs | some (_, path) ↦ m.parent path ∷ raw_dirs ]

-- `_mismatch_tape_path` of main.py
unfoldable pub mismatch_tape_path : Machine → Places → Text → Text
mismatch_tape_path m s db_url =
    m.join
      (m.parent (elim (behind async_prefix db_url) [
        | some path ↦ path
        | none ↦ resolve_relative m s s.raw_store_filesystem_path
      ]))
      (codes "mismatches.sqlite")

-- `load_app_config`: the file that is read; `none` is the `FileNotFoundError`. The bundled file's place is
-- `none` where there is no such resource.
unfoldable pub config_to_load : Machine → Text → Option Text → Option Text
config_to_load m path bundled =
    if m.exists path
    then some path
    else (elim bundled [ none ↦ none | some p ↦ if m.exists p then some p else none ])
