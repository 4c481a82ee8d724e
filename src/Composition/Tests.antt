-- ===== src/Composition/Tests.antt =====
-- A message with one struct of two fields.
use c_interface_discovery.Prelude.{[], ◌∷◌, none, some, false, ◌===◌, ◌≡◌, refl, codes}
use c_interface_discovery.Types.{CStruct, TypeDict}
use c_interface_discovery.Layout.Primitives.{bit64}
use c_interface_discovery.Layout.Compute.{
  LayoutOptions, build_struct_catalog, catalog_layouts, catalog_layout, is_opaque, compute_layout,
}
use c_interface_discovery.Prelude.{Text, List, true, ◌↔◌}
use c_interface_discovery.Prelude.Dict.{get}
use c_interface_discovery.Graph.{includes_text}
use c_interface_discovery.Walk.{walk, run, step, mark}
use c_interface_discovery.Roles.Types.{block, StructRoleInfo, StructRoleReport}
use c_interface_discovery.Composition.Warnings.{
  dotted, add_own, children, warnings_walker, collect_warnings,
}
use c_interface_discovery.Composition.Reachable.{
  Embeds, own_pointers, own_arrays, collect_warnings_iff,
}
use c_interface_discovery.Roles.Rules.{IsRanked}
use c_interface_discovery.Composition.{layout_of, parts_of}
use c_interface_discovery.Composition.Order.{wire_rank, parts_of-IsRanked}
use c_interface_discovery.Composition.Size.{total, total-parts_of}

abbrev sample : CStruct
sample = record {
  name = codes "M";
  fields =
      record { type = codes "char"; name = codes "a" }
      ∷ record { type = codes "int"; name = codes "b" }
      ∷ [];
  source_file = codes "m.h";
  conditional = false;
  pack_attribute = none;
  pack_source = none;
}

abbrev dict : TypeDict
dict = record { structs = sample ∷ []; enums = []; typedef_aliases = none }

abbrev opts : LayoutOptions
opts = record { target = bit64; pack_override = none }

abbrev no_roles : StructRoleReport
no_roles = record { roles = []; by_name = []; wire_roots = []; envelopes = [] }

parts_of-IsRanked_example :
    IsRanked wire_rank
      (parts_of 6 (build_struct_catalog dict opts) no_roles (codes "M" ∷ []) 0 (codes "M"))
parts_of-IsRanked_example =
    parts_of-IsRanked 6 (build_struct_catalog dict opts) no_roles (codes "M" ∷ []) 0 (codes "M")

sample_found :
    layout_of (build_struct_catalog dict opts) (codes "M") ≡ some (compute_layout sample dict opts)
unfolding layout_of build_struct_catalog catalog_layouts catalog_layout is_opaque compute_layout
    ◌===◌
sample_found = refl

total-parts_of_example :
    total (parts_of 6 (build_struct_catalog dict opts) no_roles (codes "M" ∷ []) 0 (codes "M"))
    ≡ (compute_layout sample dict opts).total_size_bytes
total-parts_of_example =
    total-parts_of dict opts no_roles 6 (codes "M" ∷ []) 0 (codes "M")
      (compute_layout sample dict opts) sample_found

abbrev info_of : Text → List Text → List Text → StructRoleInfo
info_of name contains pointer_fields = record {
  name = name;
  source_file = codes "m.h";
  role = block;
  in_degree = 0;
  contained_by = [];
  contains = contains;
  depth = 0;
  field_count = 1;
  bound_constants = [];
  pointer_fields = pointer_fields;
  variable_array_fields = [];
}

-- Two structs that embed each other, the second with a pointer.
abbrev cyclic : StructRoleReport
cyclic = record {
  roles = [];
  by_name =
      (codes "A", info_of (codes "A") (codes "B" ∷ []) [])
      ∷ (codes "B", info_of (codes "B") (codes "A" ∷ []) (codes "next" ∷ []))
      ∷ [];
  wire_roots = [];
  envelopes = [];
}

warned : (collect_warnings cyclic (codes "A")).pointers ≡ codes "B.next" ∷ []
unfolding collect_warnings warnings_walker children add_own dotted walk run step mark get
    includes_text ◌===◌
warned = refl

collect_warnings_iff_example :
    ((includes_text (collect_warnings cyclic (codes "A")).pointers (codes "B.next") ≡ true) ↔ (
      (s : Text) × Embeds cyclic (codes "A") s
      × (includes_text (own_pointers cyclic s) (codes "B.next") ≡ true)))
    × ((includes_text (collect_warnings cyclic (codes "A")).variable_arrays (codes "B.next") ≡ true)
        ↔ ((s : Text) × Embeds cyclic (codes "A") s
            × (includes_text (own_arrays cyclic s) (codes "B.next") ≡ true)))
collect_warnings_iff_example = collect_warnings_iff cyclic (codes "A") (codes "B.next")
