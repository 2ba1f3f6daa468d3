-- ===== src/Raw/Keys.antt =====
-- Object keys and the request ids in them (src/shadow_proxy/store/raw.py, and
-- `_merge_candidate_into_raw` of src/shadow_proxy/pipeline.py).
use mathlib.Core.List.{append_assoc}
use llm_shadow_proxy.Base.{
  ◌≡◌, refl, false, ◌||◌, some, [], ◌∷◌, ◌++◌, arith, ap, sym, ◌∙◌, length, length-append,
  if◌then◌else◌, Bool-cases, inl, inr,
}
use llm_shadow_proxy.Base.Text.{Text, codes, text_eq}
use llm_shadow_proxy.Base.Text.Laws.{text_eq_iff}
use llm_shadow_proxy.Base.Json.{Value}
use llm_shadow_proxy.Raw.{
  Files, slash, suffix, key_for, write, get, has_slash, last_part, remove_suffix, request_id_of_key,
}

has_slash-append : (s t : Text) → has_slash (s ++ t) ≡ (has_slash s || has_slash t)
has_slash-append [] t = refl
has_slash-append (c ∷ s) t = ground (arith, has_slash-append s t)

last_part-slash : (s t : Text) → has_slash t ≡ false → last_part (s ++ (slash ∷ t)) ≡ t
unfolding last_part
last_part-slash [] t h = ground arith
last_part-slash (c ∷ s) t h = ground (arith, last_part-slash s t h, has_slash-append s (slash ∷ t))

remove_suffix-suffix : remove_suffix suffix ≡ []
unfolding remove_suffix text_eq
remove_suffix-suffix = refl

remove_suffix-append : (s : Text) → remove_suffix (s ++ suffix) ≡ s
unfolding remove_suffix
remove_suffix-append [] = remove_suffix-suffix
remove_suffix-append (c ∷ s) = elim (Bool-cases (text_eq (c ∷ (s ++ suffix)) suffix)) [
  | inl same ↦ absurd (
      omega (
        arith,
        ap length ((text_eq_iff (c ∷ (s ++ suffix)) suffix).0 same),
        length-append s suffix,
      ))
  | inr other ↦ rw (other, remove_suffix-append s)
]

-- The id that is read back from a key is the one that the key was made for, if it holds no slash.
pub request_id_of_key-key_for :
    (day request_id : Text)
    → has_slash request_id ≡ false
    → request_id_of_key (key_for day request_id) ≡ request_id
unfolding request_id_of_key key_for
request_id_of_key-key_for day request_id h =
    let no_slash : has_slash (request_id ++ suffix) ≡ false =
      ground (arith, has_slash-append request_id suffix) in
    ap remove_suffix (
      ap last_part (sym (append_assoc (codes "raw/") day (slash ∷ (request_id ++ suffix))))
      ∙ last_part-slash (codes "raw/" ++ day) (request_id ++ suffix) no_slash)
    ∙ remove_suffix-append request_id

pub get-write :
    (j k : Text) (v : Value) (files : Files)
    → get j (write k v files) ≡ (if text_eq j k then some v else get j files)
unfolding get write
get-write j k v [] = refl
get-write j k v ((i, w) ∷ files) =
    ground (arith, text_eq_iff j k, text_eq_iff k i, text_eq_iff j i, get-write j k v files)
