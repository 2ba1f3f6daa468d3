-- ===== src/Store/Summary/Bounds.antt =====
-- What the numbers of a summary say (`summary` and `_percentile` of src/shadow_proxy/store/sql.py).
use llm_shadow_proxy.Base.{
  ℕ, zero, suc, ◌+◌, ◌-◌, ◌*◌, ◌/◌, ◌%◌, ◌≤◌, ◌<◌, ◌≡◌, refl, some, List, [], ◌∷◌, leb, length,
  get_elem?, arith, if_holds,
}
use llm_shadow_proxy.Store.Summary.{
  insert_sorted, sorted, value, min, percentile_of_sorted, percentile,
}

-- Every element lies between the two numbers.
abbrev pub AllWithin : ℕ → ℕ → List ℕ → Type 0
AllWithin m n [] = Unit
AllWithin m n (x ∷ xs) = (m ≤ x) × (x ≤ n) × AllWithin m n xs

insert_sorted-AllWithin :
    (m n x : ℕ) (xs : List ℕ)
    → m ≤ x
    → x ≤ n
    → AllWithin m n xs
    → AllWithin m n (insert_sorted x xs)
insert_sorted-AllWithin m n x [] low high h = (low, high, tt)
insert_sorted-AllWithin m n x (y ∷ ys) low high h =
    if_holds (AllWithin m n) (leb x y) (x ∷ (y ∷ ys)) (y ∷ insert_sorted x ys) (low, high, h)
      (h.0, h.1, insert_sorted-AllWithin m n x ys low high h.2)

pub sorted-AllWithin : (m n : ℕ) (xs : List ℕ) → AllWithin m n xs → AllWithin m n (sorted xs)
sorted-AllWithin m n [] h = tt
sorted-AllWithin m n (x ∷ xs) h =
    insert_sorted-AllWithin m n x (sorted xs) h.0 h.1 (sorted-AllWithin m n xs h.2)

length-insert_sorted : (x : ℕ) (xs : List ℕ) → length (insert_sorted x xs) ≡ suc (length xs)
length-insert_sorted x [] = refl
length-insert_sorted x (y ∷ ys) = ground (arith, length-insert_sorted x ys)

pub length-sorted : (xs : List ℕ) → length (sorted xs) ≡ length xs
length-sorted [] = refl
length-sorted (x ∷ xs) = omega (arith, length-insert_sorted x (sorted xs), length-sorted xs)

pub get_elem?-AllWithin :
    (m n : ℕ) (xs : List ℕ) (i : ℕ)
    → AllWithin m n xs
    → i < length xs
    → (y : ℕ) × (get_elem? xs i ≡ some y) × (m ≤ y) × (y ≤ n)
get_elem?-AllWithin m n [] i h lt = absurd (omega arith)
get_elem?-AllWithin m n (x ∷ xs) zero h lt = (x, refl, h.0, h.1)
get_elem?-AllWithin m n (x ∷ xs) (suc i) h lt = get_elem?-AllWithin m n xs i h.2 (omega arith)

pub mul_mono : (k a b : ℕ) → a ≤ b → k * a ≤ k * b
mul_mono zero a b h = omega arith
mul_mono (suc k) a b h = omega (arith, mul_mono k a b h)

-- What lies a number of hundredths of the way between two numbers lies within their bounds.
interpolate-bounds :
    (m n low high frac : ℕ)
    → frac ≤ 100
    → m ≤ low
    → low ≤ n
    → high ≤ n
    → (m * 100 ≤ low * 100 + (high - low) * frac) × (low * 100 + (high - low) * frac ≤ n * 100)
interpolate-bounds m n low high frac part above below top =
    let stretch : (high - low) * frac ≤ (high - low) * 100 = mul_mono (high - low) frac 100 part in
    (omega arith, omega (arith, stretch))

percentile_of_sorted-AllWithin :
    (m n q : ℕ) (xs : List ℕ)
    → q ≤ 100
    → 0 < length xs
    → AllWithin m n xs
    → (r : ℕ) × (percentile_of_sorted q xs ≡ value r) × (m * 100 ≤ r) × (r ≤ n * 100)
percentile_of_sorted-AllWithin m n q [] cent nonempty h = absurd (omega arith)
percentile_of_sorted-AllWithin m n q (x ∷ []) cent nonempty h =
    (x * 100, refl, omega (arith, h.0), omega (arith, h.1))
percentile_of_sorted-AllWithin m n q (x ∷ y ∷ xs) cent nonempty h =
    let last = suc (length xs) in
    let lo = last * q / 100 in
    let hi = min (lo + 1) last in
    let lo_le : lo ≤ last = omega (arith, mul_mono last q 100 cent) in
    let hi_le : hi ≤ last = ground arith in
    let (low, low_at, above, below) =
      get_elem?-AllWithin m n (x ∷ y ∷ xs) lo h (omega (arith, lo_le)) in
    let (high, high_at, _, top) =
      get_elem?-AllWithin m n (x ∷ y ∷ xs) hi h (omega (arith, hi_le)) in
    let frac = last * q % 100 in
    let (floor, ceiling) = interpolate-bounds m n low high frac (omega arith) above below top in
    (low * 100 + (high - low) * frac, rw (low_at, high_at), floor, ceiling)

-- A percentile of at least one value, for a `q` up to 100, is a value (no index is out of range) and
-- lies between any two numbers that all the values lie between.
pub percentile-AllWithin :
    (values : List ℕ) (q m n : ℕ)
    → q ≤ 100
    → 0 < length values
    → AllWithin m n values
    → (r : ℕ) × (percentile values q ≡ value r) × (m * 100 ≤ r) × (r ≤ n * 100)
unfolding percentile
percentile-AllWithin values q m n cent nonempty h =
    percentile_of_sorted-AllWithin m n q (sorted values) cent (omega (arith, length-sorted values))
      (sorted-AllWithin m n values h)
