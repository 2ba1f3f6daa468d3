-- ===== src/Settings/Agreement.antt =====
-- How the check of the settings and that of the client fit together (src/shadow_proxy/settings.py and
-- llm/do_inference.py).
use llm_shadow_proxy.Base.{
  ◌≡◌, ◌≤◌, ◌⊎◌, inl, inr, ◌↔◌, true, false, none, Bool-cases, List, [], ◌∷◌, ◌++◌, arith, length,
}
use llm_shadow_proxy.Base.Text.{Text, codes, is_empty, contains}
use llm_shadow_proxy.Settings.{
  Settings, find_marker, first_markers, middle_markers, last_markers, settings_markers,
  client_markers, plausible, assert_runtime_ready, validate_api_key, make_clients, filesystem,
  missing_spaces, check_spaces,
}

-- A text that holds no marker of a list holds none when one marker is taken out.
find_marker-without :
    (t marker : Text) (before after : List Text)
    → find_marker t (before ++ (marker ∷ after)) ≡ none
    → find_marker t (before ++ after) ≡ none
unfolding find_marker
find_marker-without t marker [] after h = ground arith
find_marker-without t marker (m ∷ before) after h =
    ground (arith, find_marker-without t marker before after)

find_marker-client :
    (t : Text) → find_marker t settings_markers ≡ none → find_marker t client_markers ≡ none
find_marker-client t h =
    find_marker-without t (codes "secret-here") (first_markers ++ middle_markers) last_markers (
      find_marker-without t (codes "change-me") first_markers
        (middle_markers ++ (codes "secret-here" ∷ last_markers)) h)

plausible-client :
    (lower : Text → Text) (key : Text)
    → plausible settings_markers lower key ≡ none
    → plausible client_markers lower key ≡ none
plausible-client lower key h = ground (arith, find_marker-client (lower key))

-- Where the startup check lets the settings pass, the clients accept the key exactly if it is not
-- empty. So a key that passed without the opt-out is never refused later, though the two lists of
-- markers differ, and with the opt-out an empty key still keeps the proxy from starting.
pub assert_runtime_ready_lem :
    (lower : Text → Text) (s : Settings)
    → assert_runtime_ready lower s ≡ none
    → (make_clients lower s ≡ none) ↔ (is_empty s.do_inference_api_key ≡ false)
unfolding assert_runtime_ready make_clients validate_api_key
assert_runtime_ready_lem lower s h = ground (arith, plausible-client lower s.do_inference_api_key)

-- No marker of a list stands in a text.
abbrev pub HoldsNone : Text → List Text → Type 0
HoldsNone t [] = Unit
HoldsNone t (marker ∷ markers) = (contains marker t ≡ false) × HoldsNone t markers

find_marker-HoldsNone :
    (t : Text) (markers : List Text) → (find_marker t markers ≡ none) ↔ HoldsNone t markers
unfolding find_marker
find_marker-HoldsNone t [] = ground arith
find_marker-HoldsNone t (m ∷ markers) = ground (arith, find_marker-HoldsNone t markers)

-- A key that does not look like a placeholder, and an access to Spaces without a gap where the archive
-- is there.
pub record IsGuarded (lower : Text → Text) (s : Settings) : Type 0 where
  pub key : is_empty s.do_inference_api_key ≡ false
  pub long : 20 ≤ length s.do_inference_api_key
  pub real : HoldsNone (lower s.do_inference_api_key) settings_markers
  pub bucket : (s.raw_store_type ≡ filesystem) ⊎ (is_empty s.do_spaces_bucket ≡ false)
  pub access_key : (s.raw_store_type ≡ filesystem) ⊎ (is_empty s.do_spaces_key ≡ false)
  pub secret : (s.raw_store_type ≡ filesystem) ⊎ (is_empty s.do_spaces_secret ≡ false)

guarded-none :
    (lower : Text → Text) (s : Settings) → IsGuarded lower s → assert_runtime_ready lower s ≡ none
unfolding assert_runtime_ready check_spaces missing_spaces
guarded-none lower s g = ground (
  arith,
  g.key,
  g.long,
  (find_marker-HoldsNone (lower s.do_inference_api_key) settings_markers).1 g.real,
  g.bucket,
  g.access_key,
  g.secret,
)

pub assert_runtime_ready-IsGuarded :
    (lower : Text → Text) (s : Settings)
    → s.allow_dummy_key ≡ false
    → assert_runtime_ready lower s ≡ none
    → IsGuarded lower s
unfolding assert_runtime_ready check_spaces missing_spaces
assert_runtime_ready-IsGuarded lower s strict h = record {
  key = ground arith;
  long = ground arith;
  real = (find_marker-HoldsNone (lower s.do_inference_api_key) settings_markers).0 (ground arith);
  bucket = ground arith;
  access_key = ground arith;
  secret = ground arith;
}

-- The check of the settings lets exactly those pass that have the opt-out or are guarded.
pub assert_runtime_ready_iff :
    (lower : Text → Text) (s : Settings)
    → (assert_runtime_ready lower s ≡ none) ↔ ((s.allow_dummy_key ≡ true) ⊎ IsGuarded lower s)
unfolding assert_runtime_ready check_spaces missing_spaces
assert_runtime_ready_iff lower s = (
  λ h. elim (Bool-cases s.allow_dummy_key) [
    | inl free ↦ inl free
    | inr strict ↦ inr (assert_runtime_ready-IsGuarded lower s strict h)
  ],
  λ h. elim h [ inl free ↦ ground arith | inr g ↦ guarded-none lower s g ],
)
