-- ===== src/Base/Text/Numbers.antt =====
-- `str(n)` of a natural number.
use Prim.Native.Nat.{ℕ, zero, suc, ◌+◌, ◌-◌, ◌*◌, ◌/◌, ◌%◌, ◌<◌}
use mathlib.Core.Path.{◌≡◌, sym, ap, ◌∙◌}
use mathlib.Core.List.{[], ◌∷◌}
use native.Mathlib.Omega.{arith}
use native.Mathlib.Decide.{dec_lt}
use llm_shadow_proxy.Base.Tests.{ltb, if◌then◌else◌}
use llm_shadow_proxy.Base.Text.{Text}

-- The digits of a number in front of a text. A number has at most as many digits as it counts, and one.
unfoldable pub digits : ℕ → ℕ → Text → Text
digits zero n tail = tail
digits (suc more) n tail =
    let longer = digits more (n / 10) ((b'0' + n % 10) ∷ tail) in
    if ltb n 10 then (b'0' + n % 10) ∷ tail else longer

-- `str(n)`
unfoldable pub decimal : ℕ → Text
decimal n = digits (suc n) n []

-- The number that the digits of a text make, behind those that were read.
abbrev value_from : ℕ → Text → ℕ
value_from read [] = read
value_from read (c ∷ s) = value_from (10 * read + (c - b'0')) s

digit_read : (n : ℕ) → 10 * (n / 10) + ((b'0' + n % 10) - b'0') ≡ n
digit_read n = omega arith

value_from-digits :
    (more n : ℕ) (tail : Text) → n < more → value_from 0 (digits more n tail) ≡ value_from n tail
unfolding digits
value_from-digits zero n tail h = absurd (omega arith)
value_from-digits (suc more) n tail h = elim (dec_lt n 10) [
  | yes small ↦ ground arith
  | no large ↦
      let first = value_from-digits more (n / 10) ((b'0' + n % 10) ∷ tail) (omega arith) in
      ground (arith, first, ap (λ m. value_from m tail) (digit_read n))
]

-- A number can be read off its text, so no two numbers have one text.
pub decimal-injective : (m n : ℕ) → decimal m ≡ decimal n → m ≡ n
unfolding decimal
decimal-injective m n e =
    sym (value_from-digits (suc m) m [] (omega arith))
    ∙ ap (value_from 0) e
    ∙ value_from-digits (suc n) n [] (omega arith)
