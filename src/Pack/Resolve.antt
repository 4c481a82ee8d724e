-- ===== src/Pack/Resolve.antt =====
-- `resolvePack`: both sources of packing for one declaration.
pub mod Values
use c_interface_discovery.Prelude.{ℕ, Text, Option, none, some, ◌≡◌, refl, arith}
use c_interface_discovery.Pack.Attribute.{detect_packed_attribute}

pub data PackSource : Type 0 where
  attribute pragma : PackSource

pub record Pack : Type 0 where
  pub pack_attribute : ℕ
  pub pack_source : PackSource

unfoldable pub from_pragma : Option ℕ → Option Pack
from_pragma none = none
from_pragma (some n) = some (record { pack_attribute = n; pack_source = pragma })

unfoldable pub resolve_pack : Text → Option ℕ → Option Pack
resolve_pack decl_text pragma_value = elim (detect_packed_attribute decl_text) [
  | some n ↦ some (record { pack_attribute = n; pack_source = attribute })
  | none ↦ from_pragma pragma_value
]
