-- ===== src/Redact/Shapes.antt =====
-- How the two patterns of src/shadow_proxy/util/redact.py meet their two replacements.
use mathlib.Core.Path.{subst}
use llm_shadow_proxy.Base.{
  ℕ, ◌≡◌, ◌≢◌, ◌⊎◌, refl, sym, ◌∙◌, Bool, true, false, ◌&&◌, none, some, inl, inr, List, [], ◌∷◌,
  ◌++◌, arith, is_some, any, leb, ◌==◌,
}
use llm_shadow_proxy.Base.Text.{Text, codes, is_space}
use llm_shadow_proxy.Redact.{
  Item, one, star, scan, is_local, is_domain, is_tail, email_re, either_case, bearer_re,
  redacted_email, redacted_bearer, one_of,
}
use llm_shadow_proxy.Redact.Cut.{Breaks, Alike, Cut, keeps, breaks, found, Cuts, Quiet}

-- What the documentation of `re` says of `\w`: ASCII letters are in it, white space and the punctuation of
-- the two replacements and of the patterns are not.
pub record IsWordClass (w : ℕ → Bool) : Type 0 where
  pub small : (c : ℕ) → (leb b'a' c && leb c b'z') ≡ true → w c ≡ true
  pub capital : (c : ℕ) → (leb b'A' c && leb c b'Z') ≡ true → w c ≡ true
  pub space : (c : ℕ) → is_space c ≡ true → w c ≡ false
  pub at_sign : w b'@' ≡ false
  pub dot : w b'.' ≡ false
  pub opening : w b'[' ≡ false
  pub closing : w b']' ≡ false

pub scan-full : (p : ℕ → Bool) (items : List Item) (t : Text) → scan (one p ∷ items) t ≢ some 0
unfolding scan
scan-full p items [] e = cc
scan-full p items (c ∷ s) e = ground arith

-- One character of the match and one of the replacement.
keep_one :
    (whole : List Item) (p : ℕ → Bool) (items : List Item) (d : ℕ) (by : Text)
    → ((c : ℕ) → p c ≡ true → Alike whole c d)
    → ((s : Text) → is_some (scan items s) ≡ true → Cut whole s by)
    → (t : Text) → is_some (scan (one p ∷ items) t) ≡ true
    → Cut whole t (d ∷ by)
unfolding scan
keep_one whole p items d by alike rest [] e = cc
keep_one whole p items d by alike rest (c ∷ s) e =
    keeps (alike c (ground arith)) (rest s (ground arith))

module _ (w : ℕ → Bool) (word : IsWordClass w) where
  blocked_star :
      (items : List Item) (x y : Text) (b : ℕ)
      → any (λ c. c == b'@') x ≡ false
      → is_local w b ≡ false
      → (b == b'@') ≡ false
      → scan (star (is_local w) ∷ one (λ c. c == b'@') ∷ items) (x ++ b ∷ y) ≡ none
  unfolding scan
  blocked_star items [] y b plain stop other = rw (stop, other) refl
  blocked_star items (c ∷ x) y b plain stop other =
      ground (arith, blocked_star items x y b (ground arith) stop other)

  -- No address begins in front of a character that no address can hold.
  found-blocked :
      (x y : Text) (b : ℕ)
      → any (λ c. c == b'@') x ≡ false
      → is_local w b ≡ false
      → (b == b'@') ≡ false
      → found (email_re w) (x ++ b ∷ y) ≡ found (email_re w) y
  unfolding scan
  found-blocked [] y b plain stop other = rw stop refl
  found-blocked (c ∷ x) y b plain stop other = ground (
    arith,
    blocked_star
        (one (is_domain w)
          ∷ star (is_domain w)
          ∷ one (λ c. c == b'.')
          ∷ one (is_tail w)
          ∷ star (is_tail w)
          ∷ [])
        x y b (ground arith) stop other,
    found-blocked x y b (ground arith) stop other,
  )

  email-Breaks : Breaks (email_re w) b'['
  email-Breaks = ground (arith, word.opening)

  pub email-Cuts_email : Cuts (email_re w) (email_re w) redacted_email
  email-Cuts_email t y e = breaks b'[' email-Breaks

  pub email-Quiet_email : Quiet (email_re w) redacted_email
  email-Quiet_email y =
      found-blocked [] (codes "REDACTED_EMAIL]" ++ y) b'[' refl (ground (arith, word.opening)) refl
      ∙ found-blocked (codes "REDACTED_EMAIL") y b']' refl (ground (arith, word.closing)) refl

  blank-is_local : is_local w b' ' ≡ false
  unfolding is_space
  blank-is_local = ground (arith, word.space b' ' refl)

  pub email-Quiet_bearer : Quiet (email_re w) redacted_bearer
  email-Quiet_bearer y =
      found-blocked (codes "Bearer") (codes "[REDACTED]" ++ y) b' ' refl (blank-is_local) refl
      ∙ found-blocked [] (codes "REDACTED]" ++ y) b'[' refl (ground (arith, word.opening)) refl
      ∙ found-blocked (codes "REDACTED") y b']' refl (ground (arith, word.closing)) refl

  -- Two characters that are no punctuation of the pattern.
  email-Alike :
      (c d : ℕ)
      → w c ≡ w d
      → one_of (codes "@.+-") c ≡ false
      → one_of (codes "@.+-") d ≡ false
      → Alike (email_re w) c d
  email-Alike c d same hc hd = ground arith

  email-letter :
      (lower upper : ℕ)
      → w lower ≡ true
      → w upper ≡ true
      → one_of (codes "@.+-") lower ≡ false
      → one_of (codes "@.+-") upper ≡ false
      → (c : ℕ) → either_case lower upper c ≡ true
      → (w c ≡ true) × (one_of (codes "@.+-") c ≡ false)
  email-letter lower upper small capital hl hu c hc = ground arith

  email-space : (c : ℕ) → is_space c ≡ true → (w c ≡ false) × (one_of (codes "@.+-") c ≡ false)
  unfolding is_space
  email-space c h = (word.space c h, ground arith)

either_case_iff : (lower upper c : ℕ) → either_case lower upper c ≡ true → (c ≡ lower) ⊎ (c ≡ upper)
either_case_iff lower upper c h = ground arith

bearer-letter :
    (lower upper d c : ℕ)
    → Alike bearer_re lower d
    → Alike bearer_re upper d
    → either_case lower upper c ≡ true
    → Alike bearer_re c d
bearer-letter lower upper d c hl hu h = elim (either_case_iff lower upper c h) [
  | inl e ↦ subst (λ c. Alike bearer_re c d) (sym e) hl
  | inr e ↦ subst (λ c. Alike bearer_re c d) (sym e) hu
]

bearer-space : (c : ℕ) → is_space c ≡ true → Alike bearer_re c b' '
unfolding is_space
bearer-space c h = ground arith

bearer-B : (c : ℕ) → either_case b'b' b'B' c ≡ true → Alike bearer_re c b'B'
unfolding is_space
bearer-B c = bearer-letter b'b' b'B' b'B' c (ground arith) (ground arith)

bearer-e : (c : ℕ) → either_case b'e' b'E' c ≡ true → Alike bearer_re c b'e'
unfolding is_space
bearer-e c = bearer-letter b'e' b'E' b'e' c (ground arith) (ground arith)

bearer-a : (c : ℕ) → either_case b'a' b'A' c ≡ true → Alike bearer_re c b'a'
unfolding is_space
bearer-a c = bearer-letter b'a' b'A' b'a' c (ground arith) (ground arith)

bearer-r : (c : ℕ) → either_case b'r' b'R' c ≡ true → Alike bearer_re c b'r'
unfolding is_space
bearer-r c = bearer-letter b'r' b'R' b'r' c (ground arith) (ground arith)

bearer-Breaks : Breaks bearer_re b'['
unfolding is_space
bearer-Breaks = ground arith

pub bearer-Quiet : Quiet bearer_re redacted_bearer
unfolding scan is_space
bearer-Quiet y = refl

-- The replacement of a token cuts off what it stands for, for each pattern to which it looks alike.
Cuts-bearer_re :
    (whole : List Item)
    → ((c : ℕ) → either_case b'b' b'B' c ≡ true → Alike whole c b'B')
    → ((c : ℕ) → either_case b'e' b'E' c ≡ true → Alike whole c b'e')
    → ((c : ℕ) → either_case b'a' b'A' c ≡ true → Alike whole c b'a')
    → ((c : ℕ) → either_case b'r' b'R' c ≡ true → Alike whole c b'r')
    → ((c : ℕ) → is_space c ≡ true → Alike whole c b' ')
    → Breaks whole b'['
    → Cuts whole bearer_re redacted_bearer
Cuts-bearer_re whole like_b like_e like_a like_r like_space stop t y =
    keep_one whole _ _ _ _ like_b
      (keep_one whole _ _ _ _ like_e (
        keep_one whole _ _ _ _ like_a (
          keep_one whole _ _ _ _ like_r (
            keep_one whole _ _ _ _ like_e (
              keep_one whole _ _ _ _ like_r
                (keep_one whole _ _ _ _ like_space (λ s _. breaks b'[' stop)))))))
      t

pub bearer-Cuts : Cuts bearer_re bearer_re redacted_bearer
bearer-Cuts =
    Cuts-bearer_re bearer_re bearer-B bearer-e bearer-a bearer-r bearer-space bearer-Breaks

module _ (w : ℕ → Bool) (word : IsWordClass w) where
  email-either :
      (lower upper d : ℕ)
      → w lower ≡ true
      → w upper ≡ true
      → w d ≡ true
      → one_of (codes "@.+-") lower ≡ false
      → one_of (codes "@.+-") upper ≡ false
      → one_of (codes "@.+-") d ≡ false
      → (c : ℕ) → either_case lower upper c ≡ true
      → Alike (email_re w) c d
  email-either lower upper d small capital is_d hl hu hd c h =
      let (letter, plain) = email-letter w word lower upper small capital hl hu c h in
      email-Alike w word c d (letter ∙ sym is_d) plain hd

  pub email-Cuts_bearer : Cuts (email_re w) bearer_re redacted_bearer
  unfolding is_space
  email-Cuts_bearer =
      Cuts-bearer_re (email_re w)
        (email-either b'b' b'B' b'B' (word.small b'b' refl) (word.capital b'B' refl)
          (word.capital b'B' refl) refl refl refl)
        (email-either b'e' b'E' b'e' (word.small b'e' refl) (word.capital b'E' refl)
          (word.small b'e' refl) refl refl refl)
        (email-either b'a' b'A' b'a' (word.small b'a' refl) (word.capital b'A' refl)
          (word.small b'a' refl) refl refl refl)
        (email-either b'r' b'R' b'r' (word.small b'r' refl) (word.capital b'R' refl)
          (word.small b'r' refl) refl refl refl)
        (λ c h.
          let (blank, plain) = email-space w word c h in
          email-Alike w word c b' ' (blank ∙ sym (word.space b' ' refl)) plain refl)
        (email-Breaks w word)
