-- ===== src/Store/Summary/Growth.antt =====
-- A percentile grows with its `q` (`_percentile` of src/shadow_proxy/store/sql.py).
use mathlib.Core.Path.{subst}
use native.Mathlib.Decide.{dec_lt}
use llm_shadow_proxy.Base.{
  ℕ, zero, suc, ◌+◌, ◌-◌, ◌*◌, ◌/◌, ◌%◌, ◌≤◌, ◌<◌, ◌≡◌, refl, sym, ap, ◌∙◌, some, List, [], ◌∷◌,
  leb, length, get_elem?, arith, if_holds, Bool-cases, inl, inr,
}
use llm_shadow_proxy.Store.Summary.{
  insert_sorted, sorted, value, min, percentile_of_sorted, percentile,
}
use llm_shadow_proxy.Store.Summary.Bounds.{
  AllWithin, mul_mono, sorted-AllWithin, length-sorted, get_elem?-AllWithin, percentile-AllWithin,
}

abbrev AllAbove : ℕ → List ℕ → Type 0
AllAbove m [] = Unit
AllAbove m (x ∷ xs) = (m ≤ x) × AllAbove m xs

abbrev Ascending : List ℕ → Type 0
Ascending [] = Unit
Ascending (x ∷ xs) = AllAbove x xs × Ascending xs

AllAbove-lower : (m n : ℕ) (xs : List ℕ) → m ≤ n → AllAbove n xs → AllAbove m xs
AllAbove-lower m n [] le h = tt
AllAbove-lower m n (x ∷ xs) le h = (omega (arith, h.0), AllAbove-lower m n xs le h.1)

insert_sorted-AllAbove :
    (m x : ℕ) (xs : List ℕ) → m ≤ x → AllAbove m xs → AllAbove m (insert_sorted x xs)
insert_sorted-AllAbove m x [] le h = (le, tt)
insert_sorted-AllAbove m x (y ∷ ys) le h =
    if_holds (AllAbove m) (leb x y) (x ∷ (y ∷ ys)) (y ∷ insert_sorted x ys) (le, h)
      (h.0, insert_sorted-AllAbove m x ys le h.1)

insert_sorted-Ascending : (x : ℕ) (xs : List ℕ) → Ascending xs → Ascending (insert_sorted x xs)
insert_sorted-Ascending x [] h = (tt, tt)
insert_sorted-Ascending x (y ∷ ys) h = elim (Bool-cases (leb x y)) [
  | inl le ↦ let low : x ≤ y = ground arith in rw le ((low, AllAbove-lower x y ys low h.0), h)
  | inr gt ↦
      rw gt (insert_sorted-AllAbove y x ys (ground arith) h.0, insert_sorted-Ascending x ys h.1)
]

sorted-Ascending : (xs : List ℕ) → Ascending (sorted xs)
sorted-Ascending [] = tt
sorted-Ascending (x ∷ xs) = insert_sorted-Ascending x (sorted xs) (sorted-Ascending xs)

get_elem?-AllAbove :
    (m : ℕ) (xs : List ℕ) (i : ℕ) {a : ℕ} → AllAbove m xs → get_elem? xs i ≡ some a → m ≤ a
get_elem?-AllAbove m [] i h e = cc
get_elem?-AllAbove m (x ∷ xs) zero h e = ground (arith, h.0)
get_elem?-AllAbove m (x ∷ xs) (suc i) h e = get_elem?-AllAbove m xs i h.1 e

get_elem?-Ascending :
    (xs : List ℕ) (i j : ℕ) {a b : ℕ}
    → Ascending xs
    → i ≤ j
    → get_elem? xs i ≡ some a
    → get_elem? xs j ≡ some b
    → a ≤ b
get_elem?-Ascending [] i j h le e e' = cc
get_elem?-Ascending (x ∷ xs) zero zero h le e e' = ground arith
get_elem?-Ascending (x ∷ xs) zero (suc j) h le e e' =
    ground (arith, get_elem?-AllAbove x xs j h.0 e')
get_elem?-Ascending (x ∷ xs) (suc i) zero h le e e' = absurd (omega arith)
get_elem?-Ascending (x ∷ xs) (suc i) (suc j) h le e e' =
    get_elem?-Ascending xs i j h.1 (omega arith) e e'

same_place :
    (low high frac frac' : ℕ)
    → frac ≤ frac'
    → low * 100 + (high - low) * frac ≤ low * 100 + (high - low) * frac'
same_place low high frac frac' le = omega (arith, mul_mono (high - low) frac frac' le)

later_place :
    (low high low' high' frac frac' : ℕ)
    → frac ≤ 100
    → low ≤ high
    → high ≤ low'
    → low * 100 + (high - low) * frac ≤ low' * 100 + (high' - low') * frac'
later_place low high low' high' frac frac' part up next =
    omega (arith, mul_mono (high - low) frac 100 part)

-- The percentile of two or more ascending values, at `k` hundredths of their places.
module _ (xs : List ℕ) (last : ℕ) (m n : ℕ) (within : AllWithin m n xs) (ascending : Ascending xs)
    (size : length xs ≡ suc last) where
  abbrev above_place : ℕ → ℕ
  above_place k = min (k / 100 + 1) last

  above_place_le : (k : ℕ) → above_place k ≤ last
  above_place_le k = ground arith

  record Between (k : ℕ) : Type 0 where
    low : ℕ
    high : ℕ
    low_at : get_elem? xs (k / 100) ≡ some low
    high_at : get_elem? xs (above_place k) ≡ some high

  between : (k : ℕ) → k ≤ last * 100 → Between k
  between k le =
      let (low, low_at, _, _) = get_elem?-AllWithin m n xs (k / 100) within (omega (arith, size)) in
      let (high, high_at, _, _) =
        get_elem?-AllWithin m n xs (above_place k) within (omega (arith, size, above_place_le k)) in
      record { low = low; high = high; low_at = low_at; high_at = high_at }

  abbrev hundredths : (k : ℕ) → Between k → ℕ
  hundredths k b = b.low * 100 + (b.high - b.low) * (k % 100)

  grows :
      (k k' : ℕ) (b : Between k) (b' : Between k')
      → k ≤ k'
      → k' ≤ last * 100
      → hundredths k b ≤ hundredths k' b'
  grows k k' b b' le top = elim (dec_lt (k / 100) (k' / 100)) [
    | yes less ↦
        let next : above_place k ≤ k' / 100 = ground arith in
        let near : k / 100 ≤ above_place k = ground arith in
        later_place b.low b.high b'.low b'.high (k % 100) (k' % 100) (omega arith)
          (get_elem?-Ascending xs (k / 100) (above_place k) ascending near b.low_at b.high_at)
          (get_elem?-Ascending xs (above_place k) (k' / 100) ascending next b.high_at b'.low_at)
    | no same ↦
        let place : k / 100 ≡ k' / 100 = omega arith in
        let lows : some b.low ≡ some b'.low = sym b.low_at ∙ ap (get_elem? xs) place ∙ b'.low_at in
        let highs : some b.high ≡ some b'.high =
          sym b.high_at ∙ ap (λ i. get_elem? xs (min (i + 1) last)) place ∙ b'.high_at in
        let low : b.low ≡ b'.low = cc lows in
        let high : b.high ≡ b'.high = cc highs in
        subst (λ v. hundredths k b ≤ v)
          (ap (λ l. l * 100 + (b.high - l) * (k' % 100)) low
            ∙ ap (λ h. b'.low * 100 + (h - b'.low) * (k' % 100)) high)
          (same_place b.low b.high (k % 100) (k' % 100) (omega arith))
  ]

percentile_of_sorted-grows :
    (m n q q' : ℕ) (xs : List ℕ)
    → q ≤ q'
    → q' ≤ 100
    → 0 < length xs
    → AllWithin m n xs
    → Ascending xs
    → (r : ℕ) × (r' : ℕ) × (percentile_of_sorted q xs ≡ value r)
      × (percentile_of_sorted q' xs ≡ value r')
      × (r ≤ r')
percentile_of_sorted-grows m n q q' [] le cent nonempty h asc = absurd (omega arith)
percentile_of_sorted-grows m n q q' (x ∷ []) le cent nonempty h asc =
    (x * 100, x * 100, refl, refl, omega arith)
percentile_of_sorted-grows m n q q' (x ∷ y ∷ xs) le cent nonempty h asc =
    let last = suc (length xs) in
    let top : last * q' ≤ last * 100 = mul_mono last q' 100 cent in
    let less : last * q ≤ last * q' = mul_mono last q q' le in
    let b = between (x ∷ y ∷ xs) last m n h asc refl (last * q) (omega arith) in
    let b' = between (x ∷ y ∷ xs) last m n h asc refl (last * q') top in
    (
      hundredths (x ∷ y ∷ xs) last m n h asc refl (last * q) b,
      hundredths (x ∷ y ∷ xs) last m n h asc refl (last * q') b',
      rw (b.low_at, b.high_at) refl,
      rw (b'.low_at, b'.high_at) refl,
      grows (x ∷ y ∷ xs) last m n h asc refl (last * q) (last * q') b b' less top,
    )

-- Of at least one value, the percentiles for `q` and for a larger `q'` up to 100 are values (no index is
-- out of range). The first is at most the second, and both lie between any two numbers that all the
-- values lie between.
pub percentile_lem :
    (values : List ℕ) (q q' m n : ℕ)
    → q ≤ q'
    → q' ≤ 100
    → 0 < length values
    → AllWithin m n values
    → (r : ℕ) × (r' : ℕ) × (percentile values q ≡ value r)
      × (percentile values q' ≡ value r')
      × (m * 100 ≤ r)
      × (r ≤ r')
      × (r' ≤ n * 100)
unfolding percentile
percentile_lem values q q' m n le cent nonempty h =
    let (r, r', first, second, grown) =
      percentile_of_sorted-grows m n q q' (sorted values) le cent
        (omega (arith, length-sorted values)) (sorted-AllWithin m n values h)
        (sorted-Ascending values) in
    let (s, s_at, floor, _) = percentile-AllWithin values q m n (omega arith) nonempty h in
    let (s', s'_at, _, ceiling) = percentile-AllWithin values q' m n cent nonempty h in
    let low : s ≡ r = cc (s_at, first) in
    let high : s' ≡ r' = cc (s'_at, second) in
    (r, r', first, second, omega (arith, low, floor), grown, omega (arith, high, ceiling))
