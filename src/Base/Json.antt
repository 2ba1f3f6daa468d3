-- ===== src/Base/Json.antt =====
-- JSON values as Python holds them: what `json.loads` returns and `dict.get` reads.
pub mod Laws
use mathlib.Core.Bool.{Bool, true, false, not, ◌||◌}
use mathlib.Core.Option.{Option, none, some}
use llm_shadow_proxy.Base.Tests.{if◌then◌else◌}
use llm_shadow_proxy.Base.Text.{Text, codes, text_eq, is_empty}

-- A number is held by its `str()`, the only thing that the program reads of it but its truth.
mutual
  pub data Value : Type 0 where
    null : Value
    bool : Bool → Value
    num : Text → Value
    str : Text → Value
    arr : Items → Value
    obj : Fields → Value

  pub data Items : Type 0 where
    nil : Items
    cons : Value → Items → Items

  pub data Fields : Type 0 where
    end : Fields
    field : Text → Value → Fields → Fields

-- `d.get(key)`; a dictionary holds a key once.
unfoldable pub get_field : Text → Fields → Option Value
get_field key end = none
get_field key (field k v fs) = if text_eq key k then some v else get_field key fs

-- `d[key] = v`: an old key keeps its place.
unfoldable pub set_field : Text → Value → Fields → Fields
set_field key v end = field key v end
set_field key v (field k w fs) =
    if text_eq key k then field k v fs else field k w (set_field key v fs)

-- `bool(v)`
unfoldable pub truthy : Value → Bool
truthy null = false
truthy (bool b) = b
truthy (num n) = not (text_eq n (codes "0") || text_eq n (codes "0.0") || text_eq n (codes "-0.0"))
truthy (str s) = not (is_empty s)
truthy (arr nil) = false
truthy (arr (cons _ _)) = true
truthy (obj end) = false
truthy (obj (field _ _ _)) = true
