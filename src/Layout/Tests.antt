-- ===== src/Layout/Tests.antt =====
-- Layouts of concrete structs.
use c_interface_discovery.Prelude.{
  ℕ, ◌+◌, ◌%◌, ◌≤◌, Text, List, [], ◌∷◌, Option, none, some, false, ◌≡◌, refl, codes, All, arith,
  map, keep, index_of, is_digit, is_space, is_word, lower, starts_with, trim, trim_start, ◌===◌,
}
use c_interface_discovery.Types.{CStruct, CField, TypeDict}
use c_interface_discovery.Layout.Primitives.{bit64}
use c_interface_discovery.Layout.Fields.{layout_fields}
use c_interface_discovery.Layout.Fields.Tiling.{field_bytes, gap_bytes}
use c_interface_discovery.Layout.Fields.Aligned.{IsAligned, Fits, max_align}
use c_interface_discovery.Layout.Fields.Gaps.{IsMinimal}
use c_interface_discovery.Layout.Compute.Fuel.{layout_under, layout_under-eq}
use c_interface_discovery.Layout.Compute.Laws.{
  limit, compute_layout-tiled, compute_layout-placed, compute_layout-IsMinimal,
  compute_layout-packed,
}
use c_interface_discovery.Layout.Compute.{LayoutOptions, build_struct_catalog}
use c_interface_discovery.Layout.Compute.Catalog.{
  laid_out, declared, declares_fields, build_struct_catalog-map,
}
use c_interface_discovery.Layout.Compute.{
  compute_layout_internal, default_pack, measure, measure_named, measure_nested, of_layout,
  pack_value, word, compute_layout,
}
use c_interface_discovery.Layout.FieldType.{
  array_length_of, attribute_group, attribute_length, before_word, collapse, extents, first_match,
  last_colon, normalize_type, or_text, parse_field_type, product_from, qualifier_length,
  remove_extents, split_bitfield, strip_matches, tag_after, tag_of, word_length, word_run,
}
use c_interface_discovery.Layout.Fields.{
  append, array_size, bitfield_step, field_step, fields_loop, finish, is_member, layout_fields,
  member_step, name_of, place, place_field, record_gap, tail_gap, total_size, type_or,
}
use c_interface_discovery.Layout.Primitives.{
  align_up, or_else, overlay64, pointer_align, pointer_size, prim, prim32, primitive_size_align,
}
use c_interface_discovery.Layout.Typedefs.{
  add_aliases, build_typedef_map, canonical_of, chase, chase_alias_to_primitive, chase_primitive,
  is_struct, no_next, resolve_to_struct, store, struct_names,
}
use c_interface_discovery.Prelude.Dict.{get, has, set}
use c_interface_discovery.Prelude.Words.{decimal, decimal_from, is_decimal}

abbrev field : Text → Text → CField
field type name = record { type = type; name = name }

abbrev struct_of : Text → Option ℕ → List CField → CStruct
struct_of name pack fields = record {
  name = name;
  fields = fields;
  source_file = codes "s.h";
  conditional = false;
  pack_attribute = pack;
  pack_source = none;
}

abbrev inner : CStruct
inner =
    struct_of (codes "In") none
      (field (codes "uint8_t") (codes "k") ∷ field (codes "u32") (codes "v") ∷ [])

-- A nested struct behind a typedef, an array and a pointer to the struct itself.
abbrev outer : CStruct
outer = struct_of (codes "Out") none (
    field (codes "const char") (codes "a[3]")
    ∷ field (codes "In_t") (codes "in")
    ∷ field (codes "struct Out *") (codes "next")
    ∷ field (codes "short") (codes "c")
    ∷ [])

abbrev packed : CStruct
packed = record outer { pack_attribute = some 1 }

abbrev dict : TypeDict
dict = record {
  structs = inner ∷ outer ∷ [];
  enums = [];
  typedef_aliases = some ((codes "In_t", codes "In") ∷ (codes "u32", codes "uint32_t") ∷ []);
}

abbrev opts : LayoutOptions
opts = record { target = bit64; pack_override = none }

outer_size : (compute_layout outer dict opts).total_size_bytes ≡ 32
unfolding compute_layout_internal default_pack measure measure_named measure_nested of_layout
    pack_value word compute_layout array_length_of attribute_group attribute_length before_word
    collapse extents first_match last_colon normalize_type or_text parse_field_type product_from
    qualifier_length remove_extents split_bitfield strip_matches tag_after tag_of word_length
    word_run append array_size bitfield_step field_step fields_loop finish is_member layout_fields
    member_step name_of place place_field record_gap tail_gap total_size type_or align_up or_else
    overlay64 pointer_align pointer_size prim prim32 primitive_size_align add_aliases
    build_typedef_map canonical_of chase chase_alias_to_primitive chase_primitive is_struct no_next
    resolve_to_struct store struct_names get has set decimal decimal_from is_decimal index_of
    is_digit is_space is_word lower starts_with trim trim_start ◌===◌
outer_size = refl

outer-limit : 1 ≤ limit outer opts
unfolding pack_value default_pack
outer-limit = omega arith

packed-limit : limit packed opts ≤ 1
unfolding pack_value
packed-limit = omega arith

compute_layout-tiled_example :
    (field_bytes (compute_layout outer dict opts).fields
        + gap_bytes (compute_layout outer dict opts).padding_gaps
      ≡ (compute_layout outer dict opts).total_size_bytes)
    × (gap_bytes (compute_layout outer dict opts).padding_gaps
        ≡ (compute_layout outer dict opts).padding_bytes)
compute_layout-tiled_example = compute_layout-tiled outer dict opts

compute_layout-placed_example :
    All IsAligned (compute_layout outer dict opts).fields
    × Fits 0
        (compute_layout outer dict opts).fields
        (compute_layout outer dict opts).total_size_bytes
    × ((compute_layout outer dict opts).align_bytes
        ≡ max_align (compute_layout outer dict opts).fields)
    × ((compute_layout outer dict opts).total_size_bytes
          % (compute_layout outer dict opts).align_bytes
        ≡ 0)
compute_layout-placed_example = compute_layout-placed outer dict opts outer-limit

compute_layout-IsMinimal_example : All IsMinimal (compute_layout outer dict opts).padding_gaps
compute_layout-IsMinimal_example = compute_layout-IsMinimal outer dict opts outer-limit

compute_layout-packed_example :
    ((compute_layout packed dict opts).padding_gaps ≡ [])
    × ((compute_layout packed dict opts).padding_bytes ≡ 0)
    × ((compute_layout packed dict opts).total_size_bytes
        ≡ field_bytes (compute_layout packed dict opts).fields)
    × ((compute_layout packed dict opts).align_bytes ≡ 1)
compute_layout-packed_example = compute_layout-packed packed dict opts packed-limit

-- A struct that is only declared comes first.
abbrev with_opaque : TypeDict
with_opaque = record dict { structs = struct_of (codes "Op") none [] ∷ dict.structs }

build_struct_catalog-map_example :
    let layouts = (build_struct_catalog with_opaque opts).layouts in
    let structs = keep declares_fields with_opaque.structs in
    (layouts ≡ map (λ s. compute_layout s with_opaque opts) structs)
    × (map {B = Text × List (Text × Text)} (λ l. (l.name, laid_out l.fields)) layouts
        ≡ map (λ s. (s.name, declared s.fields)) structs)
build_struct_catalog-map_example = build_struct_catalog-map with_opaque opts

layout_under-eq_example :
    layout_under bit64 dict [] (codes "Out" ∷ []) 8 outer
    ≡ layout_fields
        (measure
          (λ s.
            layout_under bit64 dict []
              (s.name ∷ codes "Out" ∷ [])
              (pack_value none s.pack_attribute bit64)
              s)
          bit64
          dict
          []
          (codes "Out" ∷ []))
        8
        outer.fields
layout_under-eq_example = layout_under-eq bit64 dict [] (codes "Out" ∷ []) 8 outer
