-- ===== src/Roles/Tests.antt =====
-- Two structs, the one embedded in the other.
use c_interface_discovery.Prelude.{
  Text, List, [], ◌∷◌, none, some, Bool, true, false, map, ◌≡◌, codes,
}
use c_interface_discovery.Types.{CStruct, CField, TypeDict}
use c_interface_discovery.Roles.Types.{
  StructRole, wire_root, wire_root_nested, envelope, root_candidate, shared_block, block, orphan,
  StructRoleInput,
}
use c_interface_discovery.Roles.Containment.{containment}
use c_interface_discovery.Roles.Report.{bindings, info_of, analyze_struct_roles}
use c_interface_discovery.Prelude.Dict.{Dict}
use c_interface_discovery.Prelude.{if◌then◌else◌}
use c_interface_discovery.Graph.{includes_text}
use c_interface_discovery.Roles.Containment.{list_at}
use c_interface_discovery.Roles.Report.{deepest}
use c_interface_discovery.Roles.Depth.{depth_under, depth_under-eq}
use c_interface_discovery.Roles.Embedding.{IsDual}
use c_interface_discovery.Roles.Duality.{containment-IsDual}
use c_interface_discovery.Roles.Standing.{of_role, by_role, IsDeepestFirst}
use c_interface_discovery.Roles.Order.{analyze_struct_roles-IsOrdered}
use mathlib.Core.List.{Perm}

abbrev struct_of : Text → List CField → CStruct
struct_of name fields = record {
  name = name;
  fields = fields;
  source_file = codes "s.h";
  conditional = false;
  pack_attribute = none;
  pack_source = none;
}

abbrev dict : TypeDict
dict = record {
  structs =
      struct_of (codes "Hdr") (record { type = codes "int"; name = codes "id" } ∷ [])
      ∷ struct_of (codes "Msg") (record { type = codes "struct Hdr"; name = codes "hdr" } ∷ [])
      ∷ [];
  enums = [];
  typedef_aliases = none;
}

abbrev input : StructRoleInput
input = record {
  type_dict = dict;
  messages = record { constant = codes "MSG_A"; struct_name = some (codes "Msg") } ∷ [];
  payload_resolutions = [];
  referenced_in_source = [];
}

abbrev any_order : Text → Text → Bool
any_order s t = true

containment-IsDual_example : IsDual (containment dict)
containment-IsDual_example = containment-IsDual dict

analyze_struct_roles-IsOrdered_example :
    let report = analyze_struct_roles any_order any_order input in
    (report.roles
      ≡ by_role
          (wire_root_nested ∷ wire_root ∷ envelope ∷ root_candidate ∷ shared_block ∷ block ∷ orphan
            ∷ [])
          report.roles)
    × ((q : StructRole) → IsDeepestFirst (of_role q report.roles))
    × Perm report.roles
        (map (info_of any_order any_order input (containment dict) (bindings input)) dict.structs)
    × (report.wire_roots
        ≡ map (λ r. r.name) (by_role (wire_root_nested ∷ wire_root ∷ []) report.roles))
    × (report.envelopes ≡ map (λ r. r.name) (of_role envelope report.roles))
analyze_struct_roles-IsOrdered_example = analyze_struct_roles-IsOrdered any_order any_order input

-- Two structs that hold each other.
abbrev cycle : Dict (List Text)
cycle = (codes "A", codes "B" ∷ []) ∷ (codes "B", codes "A" ∷ []) ∷ []

depth_under-eq_example : depth_under cycle [] (codes "A") ≡ (
    if includes_text [] (codes "A")
    then 0
    else deepest (depth_under cycle (codes "A" ∷ [])) (list_at cycle (codes "A")))
depth_under-eq_example = depth_under-eq cycle [] (codes "A")
