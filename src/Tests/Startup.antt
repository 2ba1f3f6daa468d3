-- ===== src/Tests/Startup.antt =====
-- The checks at startup on concrete keys.
use llm_shadow_proxy.Base.{◌≡◌, refl, true, false, none, some}
use llm_shadow_proxy.Base.Text.{Text, codes, contains, behind}
use llm_shadow_proxy.Settings.{
  Settings, spaces, find_marker, missing_spaces, check_spaces, assert_runtime_ready,
  validate_api_key, dummy_key,
}
use llm_shadow_proxy.Tests.{python}

abbrev pub long_key : Text
long_key = codes "sk-live-0123456789-0123456789"

abbrev pub settings : Settings
settings = record {
  do_inference_api_key = long_key;
  raw_store_type = spaces;
  do_spaces_bucket = codes "bucket";
  do_spaces_key = codes "key";
  do_spaces_secret = codes "secret";
  allow_dummy_key = false;
}

-- A key that the settings refuse and the client alone would take.
placeholder_key :
    assert_runtime_ready python.lower
      (record settings { do_inference_api_key = codes "Your-Secret-Here-0123456789" })
    ≡ some (dummy_key (codes "secret-here"))
unfolding assert_runtime_ready find_marker contains behind
placeholder_key = refl

client_alone : validate_api_key python.lower true (codes "Your-Secret-Here-0123456789") ≡ none
unfolding validate_api_key find_marker contains behind
client_alone = refl

settings_pass : assert_runtime_ready python.lower settings ≡ none
unfolding assert_runtime_ready find_marker contains behind check_spaces missing_spaces
settings_pass = refl
