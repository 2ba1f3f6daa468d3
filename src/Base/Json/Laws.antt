-- ===== src/Base/Json/Laws.antt =====
-- Reading a dictionary that has been written to.
use llm_shadow_proxy.Base.Tests.{if◌then◌else◌}
use mathlib.Core.Path.{◌≡◌, refl}
use mathlib.Core.Option.{some}
use native.Mathlib.Omega.{arith}
use llm_shadow_proxy.Base.Text.{Text, text_eq}
use llm_shadow_proxy.Base.Text.Laws.{text_eq_iff}
use llm_shadow_proxy.Base.Json.{Value, Fields, end, field, get_field, set_field}

pub get_field-set_field :
    (j k : Text) (v : Value) (fs : Fields)
    → get_field j (set_field k v fs) ≡ (if text_eq j k then some v else get_field j fs)
unfolding get_field set_field
get_field-set_field j k v end = refl
get_field-set_field j k v (field i w fs) =
    ground (arith, text_eq_iff j k, text_eq_iff k i, text_eq_iff j i, get_field-set_field j k v fs)
