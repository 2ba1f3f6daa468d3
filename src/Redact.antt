-- ===== src/Redact.antt =====
-- src/shadow_proxy/util/redact.py: the redaction of addresses and bearer tokens, which nothing calls. The
-- two regular expressions are lists of character classes; `\w` beyond ASCII is a parameter.
pub mod Cut
pub mod Shapes
pub mod Clean
use llm_shadow_proxy.Base.{
  ℕ, zero, suc, Bool, ◌||◌, ◌&&◌, false, Option, none, some, List, [], ◌∷◌, ◌++◌, leb, ◌==◌,
  if◌then◌else◌,
}
use llm_shadow_proxy.Base.Text.{Text, codes, is_space}
use llm_shadow_proxy.Base.Json.{
  Value, null, bool, num, str, arr, obj, Items, nil, cons, Fields, end, field,
}

-- A part of a pattern: one character of a class, or as many as there are.
pub data Item : Type 0 where
  one star : (ℕ → Bool) → Item

abbrev pub longer : Option ℕ → Option ℕ
longer none = none
longer (some n) = some (suc n)

-- The length of the match at the start of a text. A `star` takes all that it can, which is what `re` does
-- where no character of its class can begin what follows in the pattern, as in both patterns here.
unfoldable pub scan : List Item → Text → Option ℕ
scan [] s = some 0
scan (one p ∷ items) [] = none
scan (one p ∷ items) (c ∷ s) = let rest = longer (scan items s) in if p c then rest else none
scan (star p ∷ items) [] = scan items []
scan (star p ∷ items) (c ∷ s) =
    let more = longer (scan (star p ∷ items) s) in
    let rest = scan items (c ∷ s) in if p c then more else rest

-- `re.sub`: every match from the left is replaced, and the search goes on behind it. The number is that
-- of the characters of a match which are still to be left out. No pattern here matches an empty text.
unfoldable pub sub : List Item → Text → ℕ → Text → Text
sub items by n [] = []
sub items by (suc n) (c ∷ s) = sub items by n s
sub items by zero (c ∷ s) =
    let kept = c ∷ sub items by 0 s in
    elim (scan items (c ∷ s)) [
      | none ↦ kept
      | some zero ↦ kept
      | some (suc n) ↦ by ++ sub items by n s
    ]

abbrev pub one_of : Text → ℕ → Bool
one_of [] c = false
one_of (d ∷ ds) c = c == d || one_of ds c

abbrev pub is_local : (ℕ → Bool) → ℕ → Bool
is_local is_word c = is_word c || one_of (codes ".+-") c

abbrev pub is_domain : (ℕ → Bool) → ℕ → Bool
is_domain is_word c = is_word c || one_of (codes "-") c

abbrev pub is_tail : (ℕ → Bool) → ℕ → Bool
is_tail is_word c = is_word c || one_of (codes ".-") c

-- `_EMAIL_RE`
abbrev pub email_re : (ℕ → Bool) → List Item
email_re is_word =
    one (is_local is_word)
    ∷ star (is_local is_word)
    ∷ one (λ c. c == b'@')
    ∷ one (is_domain is_word)
    ∷ star (is_domain is_word)
    ∷ one (λ c. c == b'.')
    ∷ one (is_tail is_word)
    ∷ star (is_tail is_word)
    ∷ []

-- A letter under `(?i)`, given by its two cases.
abbrev pub either_case : ℕ → ℕ → ℕ → Bool
either_case lower upper c = c == lower || c == upper

-- `[a-z0-9\-_\.]` under `(?i)`, which makes `a-z` match four letters beyond ASCII as well.
abbrev pub is_token : ℕ → Bool
is_token c =
    (leb b'a' c && leb c b'z')
    || (leb b'A' c && leb c b'Z')
    || (leb b'0' c && leb c b'9')
    || one_of (codes "-_.") c
    || one_of (0x130 ∷ 0x131 ∷ 0x17f ∷ 0x212a ∷ []) c

-- `_BEARER_RE`
abbrev pub bearer_re : List Item
bearer_re =
    one (either_case b'b' b'B')
    ∷ one (either_case b'e' b'E')
    ∷ one (either_case b'a' b'A')
    ∷ one (either_case b'r' b'R')
    ∷ one (either_case b'e' b'E')
    ∷ one (either_case b'r' b'R')
    ∷ one is_space
    ∷ star is_space
    ∷ one is_token
    ∷ star is_token
    ∷ []

abbrev pub redacted_email : Text
redacted_email = codes "[REDACTED_EMAIL]"

abbrev pub redacted_bearer : Text
redacted_bearer = codes "Bearer [REDACTED]"

-- `_redact_str`
unfoldable pub redact_str : (ℕ → Bool) → Text → Text
redact_str is_word s = sub bearer_re redacted_bearer 0 (sub (email_re is_word) redacted_email 0 s)

-- `redact`; the keys of a dictionary stay.
unfoldable mutual
  pub redact : (ℕ → Bool) → Value → Value
  redact w null = null
  redact w (bool b) = bool b
  redact w (num n) = num n
  redact w (str s) = str (redact_str w s)
  redact w (arr xs) = arr (redact_items w xs)
  redact w (obj fs) = obj (redact_fields w fs)

  pub redact_items : (ℕ → Bool) → Items → Items
  redact_items w nil = nil
  redact_items w (cons v xs) = cons (redact w v) (redact_items w xs)

  pub redact_fields : (ℕ → Bool) → Fields → Fields
  redact_fields w end = end
  redact_fields w (field k v fs) = field k (redact w v) (redact_fields w fs)
