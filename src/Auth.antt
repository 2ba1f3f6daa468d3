-- ===== src/Auth.antt =====
-- src/shadow_proxy/api/deps.py and `proxy_api_key_set` of settings.py: the bearer tokens that the
-- endpoints accept. `str.lower` is a parameter.
pub mod Tokens
use llm_shadow_proxy.Base.{
  ℕ, not, Option, none, some, List, [], ◌∷◌, ◌==◌, if◌then◌else◌, any, map, select,
}
use llm_shadow_proxy.Base.Text.{Text, codes, text_eq, is_empty, strip, starts_with}

abbrev pub comma : ℕ
comma = b','

abbrev cons_first : ℕ → List Text → List Text
cons_first c [] = (c ∷ []) ∷ []
cons_first c (t ∷ ts) = (c ∷ t) ∷ ts

-- `s.split(",")`
unfoldable pub split_commas : Text → List Text
split_commas [] = [] ∷ []
split_commas (c ∷ s) =
    let rest = split_commas s in if c == comma then [] ∷ rest else cons_first c rest

-- `proxy_api_key_set`; a set is the list of its members.
unfoldable pub proxy_api_key_set : Text → List Text
proxy_api_key_set proxy_api_keys =
    select (λ k. not (is_empty k)) (map strip (split_commas proxy_api_keys))

-- `s.split(" ", 1)[1]`; `none` is the `IndexError` of a text without a space.
unfoldable pub behind_space : Text → Option Text
behind_space [] = none
behind_space (c ∷ s) = let rest = behind_space s in if c == b' ' then some s else rest

-- The request goes on, or ends with a 401, a 403, or an exception.
pub data Access : Type 0 where
  granted unauthorized forbidden raised : Access

abbrev pub check_presented : List Text → Option Text → Access
check_presented keys none = raised
check_presented keys (some rest) = if any (text_eq (strip rest)) keys then granted else forbidden

abbrev pub check_header : (Text → Text) → List Text → Option Text → Access
check_header lower keys none = unauthorized
check_header lower keys (some authorization) =
    if is_empty authorization
    then unauthorized
    else (if starts_with (lower authorization) (codes "bearer ")
        then check_presented keys (behind_space authorization)
        else unauthorized)

abbrev pub check_keys : (Text → Text) → List Text → Option Text → Access
check_keys lower [] authorization = granted
check_keys lower (k ∷ ks) authorization = check_header lower (k ∷ ks) authorization

-- `require_api_key` on the setting `PROXY_API_KEYS` and the header `Authorization`.
unfoldable pub require_api_key : (Text → Text) → Text → Option Text → Access
require_api_key lower proxy_api_keys authorization =
    check_keys lower (proxy_api_key_set proxy_api_keys) authorization
