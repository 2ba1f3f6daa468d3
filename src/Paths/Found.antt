-- ===== src/Paths/Found.antt =====
-- What is looked for in several places: the environment file (`get_settings` of src/shadow_proxy/settings.py)
-- and the user interface (`_resolve_ui_dir` and `create_app` of src/shadow_proxy/main.py).
use llm_shadow_proxy.Base.{
  ◌≡◌, Bool, ◌&&◌, true, Option, none, some, Option-cases, inl, inr, List, [], ◌∷◌, ◌++◌, arith,
  if◌then◌else◌,
}
use llm_shadow_proxy.Base.Text.{Text, codes, is_empty}
use llm_shadow_proxy.Paths.{Machine, override_file, walk_up, find_env_file}

-- `get_settings`: `_LOADED_ENV_FILE`, and the settings that Pydantic reads from the environment and, if
-- there is one, from that file.
unfoldable pub get_settings {ℓ} : {A : Type ℓ} → Machine → (Option Text → A) → Option Text × A
get_settings m read = (find_env_file m, read (find_env_file m))

-- `c.is_dir() and (c / "index.html").is_file()`
abbrev pub has_index : Machine → Text → Bool
has_index m dir = m.is_dir dir && m.is_file (m.join dir (codes "index.html"))

unfoldable pub first_with_index : Machine → List Text → Option Text
first_with_index m [] = none
first_with_index m (dir ∷ dirs) =
    let later = first_with_index m dirs in if has_index m dir then some dir else later

abbrev override_dir : Option Text → List Text
override_dir none = []
override_dir (some dir) = if is_empty dir then [] else dir ∷ []

-- `_resolve_ui_dir`, where `repo_root` is `here.parents[2]`.
unfoldable pub resolve_ui_dir : Machine → Text → Option Text
resolve_ui_dir m repo_root = first_with_index m (
    override_dir (m.environ (codes "UI_DIR"))
    ++ (m.join repo_root (codes "ui") ∷ codes "/app/ui" ∷ []))

-- What `create_app` serves besides the routers: the files of a directory, and a redirect of `/` to them.
pub data Extra : Type 0 where
  static_files : Text → Text → Extra
  redirect : Text → Text → Extra

unfoldable pub create_app : Machine → Text → List Extra
create_app m repo_root = elim (resolve_ui_dir m repo_root) [
  | none ↦ []
  | some dir ↦ static_files (codes "/ui") dir ∷ redirect (codes "/") (codes "/ui/") ∷ []
]

walk_up-is_file :
    (m : Machine) (dirs : List Text) (p : Text) → walk_up m dirs ≡ some p → m.is_file p ≡ true
unfolding walk_up
walk_up-is_file m [] p e = cc
walk_up-is_file m (dir ∷ dirs) p e = ground (arith, walk_up-is_file m dirs p)

override_file-is_file :
    (m : Machine) (name : Option Text) (p : Text)
    → override_file m name ≡ some p
    → m.is_file p ≡ true
override_file-is_file m none p e = cc
override_file-is_file m (some name) p e = ground arith

first_with_index-has_index :
    (m : Machine) (dirs : List Text) (dir : Text)
    → first_with_index m dirs ≡ some dir
    → has_index m dir ≡ true
unfolding first_with_index
first_with_index-has_index m [] dir e = cc
first_with_index-has_index m (d ∷ dirs) dir e =
    ground (arith, first_with_index-has_index m dirs dir)

-- The environment file that the settings are read from is a file.
get_settings-is_file {ℓ} :
    {A : Type ℓ} (m : Machine) (read : Option Text → A) (p : Text)
    → (get_settings m read).0 ≡ some p
    → m.is_file p ≡ true
unfolding get_settings find_env_file
get_settings-is_file m read p e =
    let here = m.resolve m.cwd in
    ground (
      arith,
      override_file-is_file m (m.environ (codes "SHADOW_PROXY_ENV_FILE")) p,
      walk_up-is_file m (here ∷ m.parents here) p,
    )

-- The files that are served under `/ui` come from a directory with an index, and `/` leads there exactly if
-- there is one.
create_app-has_index :
    (m : Machine) (repo_root dir : Text) (rest : List Extra)
    → create_app m repo_root ≡ static_files (codes "/ui") dir ∷ rest
    → (has_index m dir ≡ true) × (rest ≡ redirect (codes "/") (codes "/ui/") ∷ [])
unfolding create_app resolve_ui_dir
create_app-has_index m repo_root dir rest e =
    let dirs =
      override_dir (m.environ (codes "UI_DIR"))
      ++ (m.join repo_root (codes "ui") ∷ codes "/app/ui" ∷ []) in
    elim (Option-cases (first_with_index m dirs)) [
      | inl absent ↦ absurd (ground (arith, absent))
      | inr (found, at) ↦
          (ground (arith, at, first_with_index-has_index m dirs found at), ground (arith, at))
    ]
