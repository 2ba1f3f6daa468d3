-- ===== src/Settings.antt =====
-- src/shadow_proxy/settings.py and llm/do_inference.py: the check of the settings at startup, and the
-- check of the key in the client's constructor. `str.lower` is a parameter.
pub mod Agreement
use llm_shadow_proxy.Base.{
  ℕ, Bool, not, Option, none, some, List, [], ◌∷◌, ◌++◌, ltb, if◌then◌else◌, length,
}
use llm_shadow_proxy.Base.Text.{Text, codes, is_empty, contains}

pub data RawStoreType : Type 0 where
  filesystem spaces : RawStoreType

-- The settings that the check reads.
pub record Settings : Type 0 where
  pub do_inference_api_key : Text
  pub raw_store_type : RawStoreType
  pub do_spaces_bucket : Text
  pub do_spaces_key : Text
  pub do_spaces_secret : Text
  pub allow_dummy_key : Bool

-- The first marker that a text holds.
unfoldable pub find_marker : Text → List Text → Option Text
find_marker lowered [] = none
find_marker lowered (marker ∷ markers) =
    if contains marker lowered then some marker else find_marker lowered markers

-- `_DUMMY_KEY_MARKERS` of the settings, in the three parts that their two extra markers make.
abbrev pub first_markers : List Text
first_markers =
    codes "fake" ∷ codes "dummy" ∷ codes "example" ∷ codes "placeholder" ∷ codes "changeme" ∷ []

abbrev pub middle_markers : List Text
middle_markers =
    codes "your-key"
    ∷ codes "your_key"
    ∷ codes "yourkey"
    ∷ codes "todo"
    ∷ codes "xxx"
    ∷ codes "abc123"
    ∷ []

abbrev pub last_markers : List Text
last_markers = codes "paste-" ∷ []

abbrev pub settings_markers : List Text
settings_markers =
    first_markers ++ (codes "change-me" ∷ (middle_markers ++ (codes "secret-here" ∷ last_markers)))

-- `_DUMMY_KEY_MARKERS` of the client.
abbrev pub client_markers : List Text
client_markers = first_markers ++ (middle_markers ++ last_markers)

abbrev pub min_key_length : ℕ
min_key_length = 20

-- Why a key is refused.
pub data Refusal : Type 0 where
  key_missing : Refusal
  dummy_key : Text → Refusal
  short_key : ℕ → Refusal
  spaces_unset : List Text → Refusal

-- What both checks do with a key that is not empty.
abbrev pub plausible : List Text → (Text → Text) → Text → Option Refusal
plausible markers lower key = elim (find_marker (lower key) markers) [
  | some marker ↦ some (dummy_key marker)
  | none ↦ if ltb (length key) min_key_length then some (short_key (length key)) else none
]

abbrev unset : Text → Text → List Text
unset name value = if is_empty value then name ∷ [] else []

-- The names in `missing`.
unfoldable pub missing_spaces : Settings → List Text
missing_spaces s =
    unset (codes "DO_SPACES_BUCKET") s.do_spaces_bucket
    ++ (unset (codes "DO_SPACES_KEY") s.do_spaces_key
        ++ unset (codes "DO_SPACES_SECRET") s.do_spaces_secret)

abbrev refuse_missing : List Text → Option Refusal
refuse_missing [] = none
refuse_missing (name ∷ names) = some (spaces_unset (name ∷ names))

unfoldable pub check_spaces : Settings → Option Refusal
check_spaces s = elim s.raw_store_type [
  | filesystem ↦ none
  | spaces ↦ refuse_missing (missing_spaces s)
]

-- `Settings.assert_runtime_ready`; a refusal is the `RuntimeError`.
unfoldable pub assert_runtime_ready : (Text → Text) → Settings → Option Refusal
assert_runtime_ready lower s =
    if s.allow_dummy_key
    then none
    else (if is_empty s.do_inference_api_key
        then some key_missing
        else (elim (plausible settings_markers lower s.do_inference_api_key) [
          | some refusal ↦ some refusal
          | none ↦ check_spaces s
        ]))

-- `_validate_api_key` of the client; a refusal is the `ValueError`.
unfoldable pub validate_api_key : (Text → Text) → Bool → Text → Option Refusal
validate_api_key lower strict api_key =
    if is_empty api_key
    then some key_missing
    else (if strict then plausible client_markers lower api_key else none)

-- The key check of the clients that `lifespan` of main.py makes, with its `strict_key`.
unfoldable pub make_clients : (Text → Text) → Settings → Option Refusal
make_clients lower s = validate_api_key lower (not s.allow_dummy_key) s.do_inference_api_key
