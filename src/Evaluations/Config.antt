-- ===== src/Evaluations/Config.antt =====
-- The print of the configuration (`get_runtime_config` of src/shadow_proxy/api/v1/evaluations.py), with the
-- summary of the key (src/shadow_proxy/settings.py). `model_dump` is Pydantic's: its results are given.
use llm_shadow_proxy.Base.{
  ◌≡◌, refl, ap, ◌↔◌, Option, some, List, [], ◌∷◌, ◌++◌, map, arith, length,
}
use llm_shadow_proxy.Base.Text.{Text, codes}
use llm_shadow_proxy.Base.Text.Numbers.{decimal, decimal-injective}
use llm_shadow_proxy.Base.Json.{Value, obj, end, field}
use llm_shadow_proxy.Settings.{Settings}

-- The dumps of a route's two models, and of the sections of `AppConfig`.
pub record RouteDump : Type 0 where
  pub name : Text
  pub primary : Value
  pub candidate : Value

pub record ConfigDump : Type 0 where
  pub routes : List RouteDump
  pub evaluator : Value
  pub dispatcher : Value
  pub store : Value

pub record ConfigOut : Type 0 where
  pub routes : List (Text × Value)
  pub evaluator : Value
  pub dispatcher : Value
  pub store : Value
  pub env_file : Option Text
  pub do_inference_base_url : Option Text
  pub do_inference_key : Option Text

-- `Settings.redacted_key_summary`
unfoldable pub redacted_key_summary : Text → Text
redacted_key_summary [] = codes "unset"
redacted_key_summary (c ∷ key) = codes "length=" ++ decimal (length (c ∷ key))

abbrev route_out : RouteDump → Text × Value
route_out r =
    (r.name, obj (field (codes "primary") r.primary (field (codes "candidate") r.candidate end)))

-- `env_file` is what `env_file_path` returns, and `base_url` is the setting.
unfoldable pub get_runtime_config : ConfigDump → Option Text → Text → Settings → ConfigOut
get_runtime_config config env_file base_url settings = record {
  routes = map route_out config.routes;
  evaluator = config.evaluator;
  dispatcher = config.dispatcher;
  store = config.store;
  env_file = env_file;
  do_inference_base_url = some base_url;
  do_inference_key = some (redacted_key_summary settings.do_inference_api_key);
}

behind_label : (s t : Text) → codes "length=" ++ s ≡ codes "length=" ++ t → s ≡ t
behind_label s t e = cc

redacted_key_summary_iff :
    (key other : Text)
    → (redacted_key_summary key ≡ redacted_key_summary other) ↔ (length key ≡ length other)
unfolding redacted_key_summary
redacted_key_summary_iff [] [] = (λ e. refl, λ e. refl)
redacted_key_summary_iff [] (d ∷ other) = (λ e. cc, λ e. absurd (omega arith))
redacted_key_summary_iff (c ∷ key) [] = (λ e. cc, λ e. absurd (omega arith))
redacted_key_summary_iff (c ∷ key) (d ∷ other) = (
  λ e. decimal-injective (length (c ∷ key)) (length (d ∷ other)) (behind_label _ _ e),
  λ e. ap (λ n. codes "length=" ++ decimal n) e,
)

-- Of the key, the print of the configuration shows the length and nothing else: under two settings that
-- may differ in all that it does not show, it is the same exactly if the keys are of one length.
pub get_runtime_config_iff :
    (config : ConfigDump) (env_file : Option Text) (base_url : Text) (settings other : Settings)
    → (get_runtime_config config env_file base_url settings
        ≡ get_runtime_config config env_file base_url other)
      ↔ (length settings.do_inference_api_key ≡ length other.do_inference_api_key)
unfolding get_runtime_config
get_runtime_config_iff config env_file base_url settings other =
    let (reveals, hides) =
      redacted_key_summary_iff settings.do_inference_api_key other.do_inference_api_key in
    (λ e. reveals (ground (arith, ap (λ out. out.do_inference_key) e)), λ e. cc (hides e))
