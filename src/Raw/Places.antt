-- ===== src/Raw/Places.antt =====
-- Where `FilesystemRawStore` (src/shadow_proxy/store/raw.py) keeps an object: `root / key`, as pathlib and
-- the file system read it, without symbolic links.
use mathlib.Core.List.{append_assoc}
use llm_shadow_proxy.Base.{
  ℕ, zero, suc, ◌≤◌, ◌≡◌, refl, ap, ◌∙◌, Bool, true, false, not, ◌||◌, ◌&&◌, List, [], ◌∷◌, ◌++◌,
  arith, ◌==◌, if◌then◌else◌, length, length-append, Bool-cases, inl, inr,
}
use llm_shadow_proxy.Base.Text.{Text, codes, text_eq, is_empty}
use llm_shadow_proxy.Base.Text.Laws.{text_eq_iff}
use llm_shadow_proxy.Raw.{slash, suffix, key_for, has_slash}

-- A file or a directory: the names on the way to it, the last one first.
abbrev pub Place : Type 0
Place = List Text

abbrev onto_first : ℕ → List Text → List Text
onto_first c [] = []
onto_first c (s ∷ parts) = (c ∷ s) ∷ parts

-- `s.split("/")`
unfoldable pub split_path : Text → List Text
split_path [] = [] ∷ []
split_path (c ∷ s) =
    let parts = split_path s in if c == slash then [] ∷ parts else onto_first c parts

abbrev pub above : Place → Place
above [] = []
above (name ∷ place) = place

-- One part of a path.
unfoldable pub enter : Text → Place → Place
enter part place =
    if is_empty part || text_eq part (codes ".")
    then place
    else (if text_eq part (codes "..") then above place else part ∷ place)

unfoldable pub walk : List Text → Place → Place
walk [] place = place
walk (part ∷ parts) place = walk parts (enter part place)

-- `self._root / key`; a key that `_key_for` made does not begin with a slash.
unfoldable pub target : Place → Text → Place
target root key = walk (split_path key) root

-- A name of a file: no slash, not empty, and neither `.` nor `..`.
abbrev pub is_name : Text → Bool
is_name s =
    not (has_slash s)
    && not (is_empty s)
    && not (text_eq s (codes "."))
    && not (text_eq s (codes ".."))

-- A request id that goes up `n` directories first.
abbrev pub climbing : ℕ → Text → Text
climbing zero name = name
climbing (suc n) name = codes "../" ++ climbing n name

abbrev pub up : ℕ → Place → Place
up zero place = place
up (suc n) place = up n (above place)

split_path-slash :
    (s t : Text) → has_slash s ≡ false → split_path (s ++ slash ∷ t) ≡ s ∷ split_path t
unfolding split_path
split_path-slash [] t h = refl
split_path-slash (c ∷ s) t h = ground (arith, split_path-slash s t (ground arith))

split_path-name : (s : Text) → has_slash s ≡ false → split_path s ≡ s ∷ []
unfolding split_path
split_path-name [] h = refl
split_path-name (c ∷ s) h = ground (arith, split_path-name s (ground arith))

enter-name : (s : Text) (place : Place) → is_name s ≡ true → enter s place ≡ s ∷ place
unfolding enter
enter-name s place h = ground arith

enter-up : (place : Place) → enter (codes "..") place ≡ above place
unfolding enter text_eq
enter-up place = refl

has_slash-suffix : (s : Text) → has_slash s ≡ false → has_slash (s ++ suffix) ≡ false
has_slash-suffix [] h = refl
has_slash-suffix (c ∷ s) h = ground (arith, has_slash-suffix s (ground arith))

too_long : (s t : Text) → length t ≤ 2 → text_eq (s ++ suffix) t ≡ false
too_long s t short = elim (Bool-cases (text_eq (s ++ suffix) t)) [
  | inl same ↦
      absurd
        (omega (arith, ap length ((text_eq_iff (s ++ suffix) t).0 same), length-append s suffix))
  | inr other ↦ other
]

text_eq_suffix : is_name suffix ≡ true
unfolding text_eq
text_eq_suffix = refl

-- What `_key_for` adds to an id makes a name of it.
is_name-suffix : (s : Text) → has_slash s ≡ false → is_name (s ++ suffix) ≡ true
is_name-suffix [] h = text_eq_suffix
is_name-suffix (c ∷ s) h = ground (
  arith,
  has_slash-suffix (c ∷ s) h,
  too_long (c ∷ s) (codes ".") (omega arith),
  too_long (c ∷ s) (codes "..") (omega arith),
)

target-name : (name : Text) (place : Place) → is_name name ≡ true → target place name ≡ name ∷ place
unfolding target walk
target-name name place h = rw (split_path-name name (ground arith)) (enter-name name place h)

target-below :
    (dir rest : Text) (place : Place)
    → is_name dir ≡ true
    → target place (dir ++ slash ∷ rest) ≡ target (dir ∷ place) rest
unfolding target walk
target-below dir rest place h =
    ap (λ parts. walk parts place) (split_path-slash dir rest (ground arith))
    ∙ ap (walk (split_path rest)) (enter-name dir place h)

target-climbing :
    (n : ℕ) (name : Text) (place : Place)
    → target place (climbing n name) ≡ target (up n place) name
unfolding target walk
target-climbing zero name place = refl
target-climbing (suc n) name place =
    ap (λ parts. walk parts place) (split_path-slash (codes "..") (climbing n name) refl)
    ∙ ap (walk (split_path (climbing n name))) (enter-up place)
    ∙ target-climbing n name (above place)

climbing-suffix : (n : ℕ) (name : Text) → climbing n name ++ suffix ≡ climbing n (name ++ suffix)
climbing-suffix zero name = refl
climbing-suffix (suc n) name = ap (λ t. codes "../" ++ t) (climbing-suffix n name)

-- The directory of a day.
abbrev pub day_dir : Text → Text → Text → Place → Place
day_dir year month day root = day ∷ month ∷ year ∷ codes "raw" ∷ root

abbrev pub dated : Text → Text → Text → Text
dated year month day = year ++ slash ∷ (month ++ slash ∷ day)

raw_name : is_name (codes "raw") ≡ true
unfolding text_eq
raw_name = refl

below_day :
    (year month day rest : Text) (root : Place)
    → is_name year ≡ true
    → is_name month ≡ true
    → is_name day ≡ true
    → target root (codes "raw/" ++ (dated year month day ++ slash ∷ rest))
      ≡ target (day_dir year month day root) rest
below_day year month day rest root y m d =
    let raw_dir = codes "raw" ∷ root in
    ap (λ s. target root (codes "raw/" ++ s))
      (append_assoc year (slash ∷ (month ++ slash ∷ day)) (slash ∷ rest)
        ∙ ap (λ s. year ++ slash ∷ s) (append_assoc month (slash ∷ day) (slash ∷ rest)))
    ∙ target-below (codes "raw") (year ++ slash ∷ (month ++ slash ∷ (day ++ slash ∷ rest))) root
        raw_name
    ∙ target-below year (month ++ slash ∷ (day ++ slash ∷ rest)) raw_dir y
    ∙ target-below month (day ++ slash ∷ rest) (year ∷ raw_dir) m
    ∙ target-below day rest (month ∷ year ∷ raw_dir) d

-- A request id without a slash is kept in the day's directory, in the file named for it. With `../` in
-- front, `n` times, the file is `n` directories further up: from four on it is outside the archive's
-- directory `raw`, and from five on outside its root.
pub target-key_for :
    (root : Place) (year month day : Text) (n : ℕ) (name : Text)
    → is_name year ≡ true
    → is_name month ≡ true
    → is_name day ≡ true
    → has_slash name ≡ false
    → target root (key_for (dated year month day) (climbing n name))
      ≡ (name ++ suffix) ∷ up n (day_dir year month day root)
unfolding key_for
target-key_for root year month day n name y m d h =
    below_day year month day (climbing n name ++ suffix) root y m d
    ∙ ap (target (day_dir year month day root)) (climbing-suffix n name)
    ∙ target-climbing n (name ++ suffix) (day_dir year month day root)
    ∙ target-name (name ++ suffix) (up n (day_dir year month day root)) (is_name-suffix name h)
