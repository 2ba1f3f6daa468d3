-- ===== src/Tests/Access.antt =====
-- The bearer tokens on concrete settings.
use llm_shadow_proxy.Base.{◌≡◌, refl, none, some, List, [], ◌∷◌, ◌++◌}
use llm_shadow_proxy.Base.Text.{Text, codes, lstrip, rstrip, is_space, behind, text_eq}
use llm_shadow_proxy.Auth.{granted, unauthorized, require_api_key}
use llm_shadow_proxy.Auth.Tokens.{AllKeys, listing, require_api_key_lem}
use llm_shadow_proxy.Tests.{python}

abbrev keys : List Text
keys = codes "alpha" ∷ codes "beta gamma" ∷ []

keys-AllKeys : AllKeys keys
unfolding lstrip rstrip is_space
keys-AllKeys = (((refl, refl), refl, refl), (((refl, refl), refl, refl), tt))

require_api_key_example :
    (require_api_key python.lower (listing keys) (some (codes "Bearer " ++ codes "alpha"))
      ≡ granted)
    × (require_api_key python.lower (listing keys) none ≡ unauthorized)
unfolding lstrip rstrip is_space behind text_eq
require_api_key_example =
    require_api_key_lem python.lower (codes "alpha") (codes "beta gamma" ∷ []) (codes "alpha")
      keys-AllKeys (refl, refl) refl
