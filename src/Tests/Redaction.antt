-- ===== src/Tests/Redaction.antt =====
-- The redaction of concrete values.
use llm_shadow_proxy.Base.{ℕ, ◌≡◌, refl, Bool, ◌||◌, ◌&&◌, leb, ◌==◌, arith}
use llm_shadow_proxy.Base.Text.{Text, codes, is_space}
use llm_shadow_proxy.Base.Json.{str, arr, nil, cons}
use llm_shadow_proxy.Redact.{scan, sub, redact_str, redact}
use llm_shadow_proxy.Redact.Shapes.{IsWordClass}
use llm_shadow_proxy.Redact.Clean.{AllClean, redact_lem}

-- ASCII letters and digits, and the underscore.
abbrev word : ℕ → Bool
word c =
    (leb b'a' c && leb c b'z')
    || (leb b'A' c && leb c b'Z')
    || (leb b'0' c && leb c b'9')
    || c == b'_'

word-IsWordClass : IsWordClass word
unfolding is_space
word-IsWordClass = record {
  small = λ c h. ground arith;
  capital = λ c h. ground arith;
  space = λ c h. ground arith;
  at_sign = refl;
  dot = refl;
  opening = refl;
  closing = refl;
}

abbrev logged : Text
logged = codes "from jo@a.b with bEARER x.y-z!"

abbrev hidden : Text
hidden = codes "from [REDACTED_EMAIL] with Bearer [REDACTED]!"

redact_str_run : redact_str word logged ≡ hidden
unfolding redact_str sub scan is_space
redact_str_run = refl

redact_lem_example :
    AllClean word (redact word (arr (cons (str logged) nil)))
    × (redact word (redact word (arr (cons (str logged) nil)))
        ≡ redact word (arr (cons (str logged) nil)))
redact_lem_example = redact_lem word word-IsWordClass (arr (cons (str logged) nil))
