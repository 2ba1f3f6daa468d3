-- ===== src/Hashing.antt =====
-- src/shadow_proxy/util/hashing.py: the hash of a request's body. `json.dumps` with SHA-256 is a
-- parameter.
pub mod Reordering
use llm_shadow_proxy.Base.{if◌then◌else◌}
use llm_shadow_proxy.Base.Text.{Text}
use llm_shadow_proxy.Base.Text.Order.{text_leb}
use llm_shadow_proxy.Base.Json.{
  Value, null, bool, num, str, arr, obj, Items, nil, cons, Fields, end, field,
}

-- A field put into its place in a dictionary with sorted keys.
unfoldable pub insert_field : Text → Value → Fields → Fields
insert_field k v end = field k v end
insert_field k v (field j w fs) =
    let later = insert_field k v fs in
    if text_leb k j then field k v (field j w fs) else field j w later

-- `_canonicalize`: the keys in their order, at every depth.
unfoldable mutual
  unfolding insert_field

  pub canonicalize : Value → Value
  canonicalize null = null
  canonicalize (bool b) = bool b
  canonicalize (num n) = num n
  canonicalize (str s) = str s
  canonicalize (arr xs) = arr (canonicalize_items xs)
  canonicalize (obj fs) = obj (canonicalize_fields fs)

  pub canonicalize_items : Items → Items
  canonicalize_items nil = nil
  canonicalize_items (cons v xs) = cons (canonicalize v) (canonicalize_items xs)

  pub canonicalize_fields : Fields → Fields
  canonicalize_fields end = end
  canonicalize_fields (field k v fs) = insert_field k (canonicalize v) (canonicalize_fields fs)

-- `request_hash`
unfoldable pub request_hash : (Value → Text) → Value → Text
request_hash digest body = digest (canonicalize body)
