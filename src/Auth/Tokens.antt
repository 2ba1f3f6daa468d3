-- ===== src/Auth/Tokens.antt =====
-- Who is let in (`require_api_key` of src/shadow_proxy/api/deps.py).
use llm_shadow_proxy.Base.{
  ◌≡◌, refl, Bool, true, false, none, some, List, [], ◌∷◌, ◌++◌, ◌==◌, arith, ap, if◌then◌else◌,
  any,
}
use llm_shadow_proxy.Base.Text.{Text, codes, text_eq, is_empty, strip, lstrip, rstrip, starts_with}
use llm_shadow_proxy.Base.Text.Laws.{IsTrimmed}
use llm_shadow_proxy.Auth.{
  comma, split_commas, proxy_api_key_set, behind_space, granted, unauthorized, forbidden,
  require_api_key,
}

abbrev pub has_comma : Text → Bool
has_comma = any (λ c. c == comma)

split_commas-behind :
    (s t : Text) → has_comma s ≡ false → split_commas (s ++ (comma ∷ t)) ≡ s ∷ split_commas t
unfolding split_commas
split_commas-behind [] t h = refl
split_commas-behind (c ∷ s) t h = ground (arith, split_commas-behind s t)

split_commas-alone : (s : Text) → has_comma s ≡ false → split_commas s ≡ s ∷ []
unfolding split_commas
split_commas-alone [] h = refl
split_commas-alone (c ∷ s) h = ground (arith, split_commas-alone s)

-- The setting for some keys: `",".join(keys)`.
abbrev pub listing : List Text → Text
listing [] = []
listing (k ∷ []) = k
listing (k ∷ l ∷ ks) = k ++ (comma ∷ listing (l ∷ ks))

-- A key as it should be: trimmed, not empty, and without a comma.
abbrev pub IsKey : Text → Type 0
IsKey k = IsTrimmed k × (is_empty k ≡ false) × (has_comma k ≡ false)

abbrev pub AllKeys : List Text → Type 0
AllKeys [] = Unit
AllKeys (k ∷ ks) = IsKey k × AllKeys ks

strip-IsTrimmed : (k : Text) → IsTrimmed k → strip k ≡ k
unfolding strip
strip-IsTrimmed k h = rw (h.0) h.1

-- The keys of a listing are read back as they were.
proxy_api_key_set-listing : (ks : List Text) → AllKeys ks → proxy_api_key_set (listing ks) ≡ ks
unfolding proxy_api_key_set split_commas strip lstrip rstrip
proxy_api_key_set-listing [] h = refl
proxy_api_key_set-listing (k ∷ []) h =
    rw (split_commas-alone k h.0.2, strip-IsTrimmed k h.0.0, h.0.1) refl
proxy_api_key_set-listing (k ∷ l ∷ ks) h =
    rw (split_commas-behind k (listing (l ∷ ks)) h.0.2, strip-IsTrimmed k h.0.0, h.0.1)
      (ap (λ rest. k ∷ rest) (proxy_api_key_set-listing (l ∷ ks) h.1))

-- Where at least one key is configured, the setting is the keys with commas between them, and the keys
-- are trimmed, not empty and hold no comma, a request with a
-- trimmed token behind `Bearer` is let in exactly if the token is one of the keys and is a 403
-- otherwise, and a request without the header is a 401. The scheme must survive `str.lower`.
pub require_api_key_lem :
    (lower : Text → Text) (k : Text) (ks : List Text) (token : Text)
    → AllKeys (k ∷ ks)
    → IsTrimmed token
    → starts_with (lower (codes "Bearer " ++ token)) (codes "bearer ") ≡ true
    → (require_api_key lower (listing (k ∷ ks)) (some (codes "Bearer " ++ token))
        ≡ (if any (text_eq token) (k ∷ ks) then granted else forbidden))
      × (require_api_key lower (listing (k ∷ ks)) none ≡ unauthorized)
unfolding require_api_key behind_space
require_api_key_lem lower k ks token keys trimmed scheme =
    rw (proxy_api_key_set-listing (k ∷ ks) keys, scheme)
      (
        ap (λ t. if any (text_eq t) (k ∷ ks) then granted else forbidden)
            (strip-IsTrimmed token trimmed),
        refl,
      )
