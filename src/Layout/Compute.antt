-- ===== src/Layout/Compute.antt =====
-- `computeLayoutInternal`, `computeLayout` and `buildStructCatalog` of
-- src/analyzer/structLayoutEngine.ts. The module-wide set `RECURSION_GUARD` is the argument `guard`:
-- each name is added before a nested call and deleted after it.
pub mod Fuel
pub mod Positive
pub mod Laws
pub mod Catalog
use c_interface_discovery.Prelude.{
  ℕ, zero, suc, ◌+◌, Text, List, [], ◌∷◌, Option, none, some, Bool, true, false, ◌==◌, ◌===◌, any,
  length, if◌then◌else◌,
}
use c_interface_discovery.Prelude.Dict.{Dict}
use c_interface_discovery.Types.{CStruct, TypeDict}
use c_interface_discovery.Pack.Resolve.{PackSource}
use c_interface_discovery.Layout.Primitives.{
  Target, bit32, bit64, primitive_size_align, pointer_size, pointer_align, or_else,
}
use c_interface_discovery.Layout.FieldType.{ParsedFieldType}
use c_interface_discovery.Layout.Typedefs.{
  build_typedef_map, chase_alias_to_primitive, resolve_to_struct,
}
use c_interface_discovery.Layout.Fields.{CFieldLayout, PaddingGap, Measured, Layout, layout_fields}

abbrev pub guarded : List Text → Text → Bool
guarded guard name = any (λ g. g === name) guard

-- The machine word, flagged as an estimate or not.
unfoldable pub word : Target → Bool → Measured
word target estimated = record {
  size = pointer_size target;
  align = pointer_align target;
  struct_type_name = none;
  estimated = estimated;
}

unfoldable pub of_layout : CStruct → Layout → Measured
of_layout s l = record {
  size = l.total_size_bytes;
  align = l.align_bytes;
  struct_type_name = some s.name;
  estimated = l.is_estimated;
}

-- The nested struct, unless it is unknown or already being laid out.
unfoldable pub measure_nested : (CStruct → Layout) → Target → List Text → Option CStruct → Measured
measure_nested nested target guard none = word target true
measure_nested nested target guard (some s) =
    if guarded guard s.name then word target true else of_layout s (nested s)

unfoldable pub measure_named :
    (CStruct → Layout) → Target → List Text → Option CStruct → Option (ℕ × ℕ) → Measured
measure_named nested target guard s none = measure_nested nested target guard s
measure_named nested target guard s (some (size, align)) = record {
  size = size;
  align = align;
  struct_type_name = none;
  estimated = false;
}

-- `fieldSize`, `fieldAlign` and `structTypeName` of a parsed field.
unfoldable pub measure :
    (CStruct → Layout) → Target → TypeDict → Dict Text → List Text → ParsedFieldType → Measured
measure nested target dict map guard parsed =
    if parsed.is_pointer
    then word target false
    else measure_named nested target guard (resolve_to_struct parsed.base_type dict map) (
        or_else (primitive_size_align parsed.base_type target)
          (chase_alias_to_primitive parsed.base_type dict target))

unfoldable pub default_pack : Target → ℕ
default_pack bit64 = 8
default_pack bit32 = 4

-- `override ?? attribute ?? default`
unfoldable pub pack_value : Option ℕ → Option ℕ → Target → ℕ
pack_value (some n) attribute target = n
pack_value none (some n) target = n
pack_value none none target = default_pack target

abbrev nothing : Layout
nothing = record {
  fields = [];
  total_size_bytes = 0;
  align_bytes = 1;
  padding_bytes = 0;
  padding_gaps = [];
  is_estimated = true;
}

-- The depth of nesting is bounded by the number of structs outside the guard; `zero` is not reached.
unfoldable pub compute_layout_internal :
    ℕ → Target → TypeDict → Dict Text → List Text → ℕ → CStruct → Layout
compute_layout_internal zero target dict map guard pack struct = nothing
compute_layout_internal (suc fuel) target dict map guard pack struct =
    let nested = λ (s : CStruct).
      compute_layout_internal fuel target dict map (s.name ∷ guard)
        (pack_value none s.pack_attribute target) s in
    layout_fields (measure nested target dict map guard) pack struct.fields

pub record LayoutOptions : Type 0 where
  pub target : Target
  pub pack_override : Option ℕ

pub record CStructLayout : Type 0 where
  pub name : Text
  pub layout : Layout
  pub open layout use *
  pub pack_attribute : Option ℕ
  pub pack_source : Option PackSource
  pub source_file : Text
  pub typedef_aliases : List Text

-- One more than the structs of the dictionary.
abbrev pub depth_of : TypeDict → ℕ
depth_of dict = suc (length dict.structs)

unfoldable pub compute_layout : CStruct → TypeDict → LayoutOptions → CStructLayout
compute_layout struct dict opts = record {
  name = struct.name;
  layout =
      compute_layout_internal (depth_of dict) opts.target dict (build_typedef_map dict)
        (struct.name ∷ []) (pack_value opts.pack_override struct.pack_attribute opts.target) struct;
  pack_attribute = struct.pack_attribute;
  pack_source = struct.pack_source;
  source_file = struct.source_file;
  typedef_aliases = [];
}

pub record StructCatalog : Type 0 where
  pub layouts : List CStructLayout
  pub typedef_map : Dict Text

-- `layouts.push(…)`, with the typedef map of the catalog
unfoldable pub catalog_layout : Dict Text → TypeDict → LayoutOptions → CStruct → CStructLayout
catalog_layout map dict opts struct = record {
  name = struct.name;
  layout =
      compute_layout_internal (depth_of dict) opts.target dict map (struct.name ∷ [])
        (pack_value opts.pack_override struct.pack_attribute opts.target) struct;
  pack_attribute = struct.pack_attribute;
  pack_source = struct.pack_source;
  source_file = struct.source_file;
  typedef_aliases = [];
}

-- `struct.fields.length === 0`
unfoldable pub is_opaque : CStruct → Bool
is_opaque struct = length struct.fields == 0

-- The loop of `buildStructCatalog`, which skips opaque structs.
unfoldable pub catalog_layouts :
    Dict Text → TypeDict → LayoutOptions → List CStruct → List CStructLayout
catalog_layouts map dict opts [] = []
catalog_layouts map dict opts (s ∷ ss) =
    let rest = catalog_layouts map dict opts ss in
    if is_opaque s then rest else catalog_layout map dict opts s ∷ rest

unfoldable pub build_struct_catalog : TypeDict → LayoutOptions → StructCatalog
build_struct_catalog dict opts =
    let map = build_typedef_map dict in
    record { layouts = catalog_layouts map dict opts dict.structs; typedef_map = map }
