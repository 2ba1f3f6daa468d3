-- ===== src/Redact/Cut.antt =====
-- Matches of a pattern around a replacement (src/shadow_proxy/util/redact.py).
use llm_shadow_proxy.Base.{
  ℕ, zero, suc, ◌≡◌, ◌≢◌, refl, ap, ◌∙◌, Bool, true, false, ◌||◌, none, some, Option-cases, inl,
  inr, List, [], ◌∷◌, ◌++◌, arith, is_some,
}
use llm_shadow_proxy.Base.Text.{Text}
use llm_shadow_proxy.Redact.{Item, one, star, scan, sub}

-- No class of the pattern holds of a character.
abbrev pub Breaks : List Item → ℕ → Type 0
Breaks [] b = Unit
Breaks (one p ∷ items) b = (p b ≡ false) × Breaks items b
Breaks (star p ∷ items) b = (p b ≡ false) × Breaks items b

-- No class of the pattern tells two characters apart.
abbrev pub Alike : List Item → ℕ → ℕ → Type 0
Alike [] c d = Unit
Alike (one p ∷ items) c d = (p c ≡ p d) × Alike items c d
Alike (star p ∷ items) c d = (p c ≡ p d) × Alike items c d

Alike-refl : (items : List Item) (c : ℕ) → Alike items c c
Alike-refl [] c = tt
Alike-refl (one p ∷ items) c = (refl, Alike-refl items c)
Alike-refl (star p ∷ items) c = (refl, Alike-refl items c)

-- To the pattern the second text is the first one, up to where it is broken off.
pub data Cut (items : List Item) : Text → Text → Type 0 where
  ends : Cut items [] []
  keeps : {c d : ℕ} {s t : Text} → Alike items c d → Cut items s t → Cut items (c ∷ s) (d ∷ t)
  breaks : {s t : Text} (b : ℕ) → Breaks items b → Cut items s (b ∷ t)

Cut-one : {p : ℕ → Bool} {items : List Item} {s t : Text} → Cut (one p ∷ items) s t → Cut items s t
Cut-one ends = ends
Cut-one (keeps a k) = keeps a.1 (Cut-one k)
Cut-one (breaks b h) = breaks b h.1

Cut-star :
    {p : ℕ → Bool} {items : List Item} {s t : Text} → Cut (star p ∷ items) s t → Cut items s t
Cut-star ends = ends
Cut-star (keeps a k) = keeps a.1 (Cut-star k)
Cut-star (breaks b h) = breaks b h.1

-- A pattern that matches in front of a breaking character matches anywhere.
scan-Breaks :
    (items : List Item) (b : ℕ) (t s : Text)
    → Breaks items b
    → is_some (scan items (b ∷ t)) ≡ true
    → is_some (scan items s) ≡ true
unfolding scan
scan-Breaks [] b t s h e = refl
scan-Breaks (one p ∷ items) b t s h e = ground arith
scan-Breaks (star p ∷ items) b t [] h e = scan-Breaks items b t [] h.1 (ground arith)
scan-Breaks (star p ∷ items) b t (c ∷ s) h e =
    ground (arith, scan-Breaks items b t (c ∷ s) h.1, scan-Breaks (star p ∷ items) b t s h e)

-- What matches the second text matches the first one.
pub scan-Cut :
    (items : List Item) {s t : Text}
    → Cut items s t
    → is_some (scan items t) ≡ true
    → is_some (scan items s) ≡ true
unfolding scan
scan-Cut [] k e = refl
scan-Cut (one p ∷ items) ends e = e
scan-Cut (one p ∷ items) (keeps {c} {d} {s} {t} a k) e =
    ground (arith, a.0, scan-Cut items (Cut-one k))
scan-Cut (one p ∷ items) (breaks b h) e = ground arith
scan-Cut (star p ∷ items) ends e = e
scan-Cut (star p ∷ items) (keeps {c} {d} {s} {t} a k) e =
    ground (arith, a.0, scan-Cut items (Cut-star (keeps a k)), scan-Cut (star p ∷ items) k)
scan-Cut (star p ∷ items) {s} (breaks b h) e = scan-Breaks (star p ∷ items) b _ s h e

-- Does the pattern match anywhere?
abbrev pub found : List Item → Text → Bool
found items [] = false
found items (c ∷ s) = is_some (scan items (c ∷ s)) || found items s

-- A replacement that cuts off what it stands for.
abbrev pub Cuts : List Item → List Item → Text → Type 0
Cuts items other by = (t y : Text) → is_some (scan other t) ≡ true → Cut items t (by ++ y)

-- A replacement in which the pattern does not match, whatever follows.
abbrev pub Quiet : List Item → Text → Type 0
Quiet items by = (y : Text) → found items (by ++ y) ≡ found items y

module _ (items other : List Item) (by : Text) where
  sub-Cut : Cuts items other by → (t : Text) → Cut items t (sub other by 0 t)
  unfolding sub
  sub-Cut cuts [] = ends
  sub-Cut cuts (c ∷ s) = elim (Option-cases (scan other (c ∷ s))) [
    | inl missed ↦ rw (missed, sub) (keeps (Alike-refl items c) (sub-Cut cuts s))
    | inr (zero, empty) ↦ rw (empty, sub) (keeps (Alike-refl items c) (sub-Cut cuts s))
    | inr (suc n, hit) ↦ rw (hit, sub) (cuts (c ∷ s) (sub other by n s) (rw hit refl))
  ]

  -- A pattern that is nowhere in a text is nowhere in it after a replacement for another one.
  pub found-sub_other :
      Cuts items other by
      → Quiet items by
      → (n : ℕ) (t : Text) → found items t ≡ false
      → found items (sub other by n t) ≡ false
  unfolding sub
  found-sub_other cuts quiet zero [] h = refl
  found-sub_other cuts quiet (suc n) [] h = refl
  found-sub_other cuts quiet (suc n) (c ∷ s) h = found-sub_other cuts quiet n s (ground arith)
  found-sub_other cuts quiet zero (c ∷ s) h =
      let kept : found items (c ∷ sub other by 0 s) ≡ false = ground (
        arith,
        found-sub_other cuts quiet 0 s,
        scan-Cut items (keeps (Alike-refl items c) (sub-Cut cuts s)),
      ) in
      elim (Option-cases (scan other (c ∷ s))) [
        | inl missed ↦ rw (missed, sub) kept
        | inr (zero, empty) ↦ rw (empty, sub) kept
        | inr (suc n, hit) ↦
            rw (hit, sub) (quiet (sub other by n s) ∙ found-sub_other cuts quiet n s (ground arith))
      ]

module _ (items : List Item) (by : Text) where
  -- A pattern that matches no empty text is nowhere in a text in which it has been replaced.
  pub found-sub :
      Cuts items items by
      → Quiet items by
      → ((t : Text) → scan items t ≢ some 0)
      → (n : ℕ) (t : Text) → found items (sub items by n t) ≡ false
  unfolding sub
  found-sub cuts quiet full zero [] = refl
  found-sub cuts quiet full (suc n) [] = refl
  found-sub cuts quiet full (suc n) (c ∷ s) = found-sub cuts quiet full n s
  found-sub cuts quiet full zero (c ∷ s) = elim (Option-cases (scan items (c ∷ s))) [
    | inl missed ↦
        rw (missed, sub)
          (ground (
            arith,
            found-sub cuts quiet full 0 s,
            scan-Cut items (keeps (Alike-refl items c) (sub-Cut items items by cuts s)),
          ))
    | inr (zero, empty) ↦ absurd (full (c ∷ s) empty)
    | inr (suc n, hit) ↦ rw (hit, sub) (quiet (sub items by n s) ∙ found-sub cuts quiet full n s)
  ]

  -- A text without the pattern stays as it is.
  pub sub-absent : (t : Text) → found items t ≡ false → sub items by 0 t ≡ t
  unfolding sub
  sub-absent [] h = refl
  sub-absent (c ∷ s) h =
      let missed : scan items (c ∷ s) ≡ none = ground arith in
      rw (missed, sub) (ap (λ r. c ∷ r) (sub-absent s (ground arith)))
