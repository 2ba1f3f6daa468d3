-- ===== src/Hashing/Reordering.antt =====
-- The hash (src/shadow_proxy/util/hashing.py) and the order of keys.
use llm_shadow_proxy.Base.{◌≡◌, refl, ap, ◌∙◌, ◌↔◌, false, arith, Bool-cases, inl, inr}
use mathlib.Core.Path.{subst}
use llm_shadow_proxy.Base.Text.{Text, text_eq}
use llm_shadow_proxy.Base.Text.Laws.{text_eq_comm, text_eq_iff}
use llm_shadow_proxy.Base.Text.Order.{text_leb, text_leb_total, text_leb_antisymm, text_leb_trans}
use llm_shadow_proxy.Base.Json.{
  Value, null, bool, num, str, arr, obj, Items, nil, cons, Fields, end, field,
}
use llm_shadow_proxy.Hashing.{insert_field, canonicalize, canonicalize_items, canonicalize_fields}

-- Two values that differ in the order of keys only, at any depth.
mutual
  pub data Reordered : Value → Value → Type 0 where
    same : (v : Value) → Reordered v v
    arrays : {xs ys : Items} → ReorderedItems xs ys → Reordered (arr xs) (arr ys)
    objects : {fs gs : Fields} → ReorderedFields fs gs → Reordered (obj fs) (obj gs)

  pub data ReorderedItems : Items → Items → Type 0 where
    no_items : ReorderedItems nil nil
    items :
        {v w : Value} {xs ys : Items}
        → Reordered v w
        → ReorderedItems xs ys
        → ReorderedItems (cons v xs) (cons w ys)

  pub data ReorderedFields : Fields → Fields → Type 0 where
    no_fields : ReorderedFields end end
    fields :
        {v w : Value} {fs gs : Fields} (k : Text)
        → Reordered v w
        → ReorderedFields fs gs
        → ReorderedFields (field k v fs) (field k w gs)
    swapped :
        (j k : Text) (v w : Value) (fs : Fields)
        → text_eq j k ≡ false
        → ReorderedFields (field j v (field k w fs)) (field k w (field j v fs))
    onward :
        {fs gs hs : Fields} → ReorderedFields fs gs → ReorderedFields gs hs → ReorderedFields fs hs

-- Two keys that differ are put into their places in either order.
insert_field_comm :
    (j k : Text) (v w : Value) (fs : Fields)
    → text_eq j k ≡ false
    → insert_field j v (insert_field k w fs) ≡ insert_field k w (insert_field j v fs)
unfolding insert_field
insert_field_comm j k v w end h =
    ground (arith, text_leb_total j k, text_leb_total k j, text_leb_antisymm j k)
insert_field_comm j k v w (field i u fs) h = ground (
  arith,
  text_leb_total j k,
  text_leb_total j i,
  text_leb_total k i,
  text_leb_antisymm j k,
  text_leb_trans j k i,
  text_leb_trans k j i,
  text_leb_trans j i k,
  text_leb_trans k i j,
  insert_field_comm j k v w fs h,
)

mutual
  unfolding canonicalize

  canonicalize-Reordered : {v w : Value} → Reordered v w → canonicalize v ≡ canonicalize w
  canonicalize-Reordered (same v) = refl
  canonicalize-Reordered (arrays r) = ap arr (canonicalize_items-Reordered r)
  canonicalize-Reordered (objects r) = ap obj (canonicalize_fields-Reordered r)

  canonicalize_items-Reordered :
      {xs ys : Items} → ReorderedItems xs ys → canonicalize_items xs ≡ canonicalize_items ys
  canonicalize_items-Reordered no_items = refl
  canonicalize_items-Reordered (items r s) =
      cc (canonicalize-Reordered r, canonicalize_items-Reordered s)

  canonicalize_fields-Reordered :
      {fs gs : Fields} → ReorderedFields fs gs → canonicalize_fields fs ≡ canonicalize_fields gs
  canonicalize_fields-Reordered no_fields = refl
  canonicalize_fields-Reordered (fields k r s) =
      cc (canonicalize-Reordered r, canonicalize_fields-Reordered s)
  canonicalize_fields-Reordered (swapped j k v w fs h) =
      insert_field_comm j k (canonicalize v) (canonicalize w) (canonicalize_fields fs) h
  canonicalize_fields-Reordered (onward r s) =
      canonicalize_fields-Reordered r ∙ canonicalize_fields-Reordered s

-- A dictionary is like itself.
fields-same : (fs : Fields) → ReorderedFields fs fs
fields-same end = no_fields
fields-same (field k v fs) = fields k (same v) (fields-same fs)

-- Putting a field into its place is a row of swaps.
insert_field-Reordered :
    (k : Text) (v : Value) (fs : Fields) → ReorderedFields (field k v fs) (insert_field k v fs)
unfolding insert_field
insert_field-Reordered k v end = fields-same (field k v end)
insert_field-Reordered k v (field j w fs) = elim (Bool-cases (text_leb k j)) [
  | inl here ↦ rw here (fields-same (field k v (field j w fs)))
  | inr later ↦ rw later (
      onward (swapped k j v w fs (different later))
        (fields j (same w) (insert_field-Reordered k v fs)))
]
  where
    different : text_leb k j ≡ false → text_eq k j ≡ false
    different h = ground (arith, text_eq_iff k j, text_leb_total k j)

mutual
  unfolding canonicalize

  Reordered-canonicalize : (v : Value) → Reordered v (canonicalize v)
  Reordered-canonicalize null = same null
  Reordered-canonicalize (bool b) = same (bool b)
  Reordered-canonicalize (num n) = same (num n)
  Reordered-canonicalize (str s) = same (str s)
  Reordered-canonicalize (arr xs) = arrays (Reordered-canonicalize_items xs)
  Reordered-canonicalize (obj fs) = objects (Reordered-canonicalize_fields fs)

  Reordered-canonicalize_items : (xs : Items) → ReorderedItems xs (canonicalize_items xs)
  Reordered-canonicalize_items nil = no_items
  Reordered-canonicalize_items (cons v xs) =
      items (Reordered-canonicalize v) (Reordered-canonicalize_items xs)

  Reordered-canonicalize_fields : (fs : Fields) → ReorderedFields fs (canonicalize_fields fs)
  Reordered-canonicalize_fields end = no_fields
  Reordered-canonicalize_fields (field k v fs) =
      onward (fields k (Reordered-canonicalize v) (Reordered-canonicalize_fields fs))
        (insert_field-Reordered k (canonicalize v) (canonicalize_fields fs))

mutual
  reversed : {v w : Value} → Reordered v w → Reordered w v
  reversed (same v) = same v
  reversed (arrays r) = arrays (reversed_items r)
  reversed (objects r) = objects (reversed_fields r)

  reversed_items : {xs ys : Items} → ReorderedItems xs ys → ReorderedItems ys xs
  reversed_items no_items = no_items
  reversed_items (items r s) = items (reversed r) (reversed_items s)

  reversed_fields : {fs gs : Fields} → ReorderedFields fs gs → ReorderedFields gs fs
  reversed_fields no_fields = no_fields
  reversed_fields (fields k r s) = fields k (reversed r) (reversed_fields s)
  reversed_fields (swapped j k v w fs h) = swapped k j w v fs (text_eq_comm k j ∙ h)
  reversed_fields (onward r s) = onward (reversed_fields s) (reversed_fields r)

mutual
  chained : {u v w : Value} → Reordered u v → Reordered v w → Reordered u w
  chained (same v) s = s
  chained (arrays r) (same v) = arrays r
  chained (arrays r) (arrays s) = arrays (chained_items r s)
  chained (objects r) (same v) = objects r
  chained (objects r) (objects s) = objects (onward r s)

  chained_items :
      {xs ys zs : Items} → ReorderedItems xs ys → ReorderedItems ys zs → ReorderedItems xs zs
  chained_items no_items s = s
  chained_items (items r s) (items r' s') = items (chained r r') (chained_items s s')

-- Two bodies have one canonical form exactly if they differ in the order of keys only, at any depth. So a
-- hash of that form does not depend on that order, and what it tells apart differs in more than that.
pub canonicalize_iff : (v w : Value) → (canonicalize v ≡ canonicalize w) ↔ Reordered v w
canonicalize_iff v w = (
  λ e.
      chained (subst (Reordered v) e (Reordered-canonicalize v))
        (reversed (Reordered-canonicalize w)),
  λ r. canonicalize-Reordered r,
)
