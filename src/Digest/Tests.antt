-- ===== src/Digest/Tests.antt =====
-- The digest of an application with one message, on a budget that withholds its unmatched calls.
use c_interface_discovery.Prelude.{
  ◌+◌, ◌≤◌, Text, [], ◌∷◌, none, some, true, false, codes, text_before, arith, ◌===◌,
}
use c_interface_discovery.Prelude.Words.{show, show_from}
use c_interface_discovery.Composition.Summary.{join_with}
use c_interface_discovery.Roles.Types.{StructRole, root_candidate, orphan, StructRoleInfo}
use c_interface_discovery.Roles.Report.{sort_by, insert_by}
use c_interface_discovery.Graph.{producer, push_new, is_producer, is_consumer, includes_text}
use c_interface_discovery.Digest.Budget.{estimate_tokens, notional_reserve, join_lines}
use c_interface_discovery.Digest.Rows.{Message, all_apps, unknown, flat_map}
use c_interface_discovery.Digest.Edges.{produces, consumes}
use c_interface_discovery.Digest.{
  ApplicationGroup, DigestOptions, header_text, header_of, with_detail, inventory_line, detail_of,
  detail_line, constants, target_text, scope_lines, scoped_app, is_in, resolve_scope, build_digest,
}
use c_interface_discovery.Digest.Limit.{build_digest-le}

abbrev fix : Message
fix = record {
  constant = codes "MSG_FIX";
  value = codes "0x01";
  struct_name = none;
  struct_resolved = false;
  direction = unknown;
  direction_confident = false;
  transport = none;
  defined_in = codes "msg.h";
  file_roles = record { filename = codes "nav.c"; role = producer } ∷ [];
  incomplete = true;
}

abbrev role_info : Text → StructRole → StructRoleInfo
role_info name role = record {
  name = name;
  source_file = codes "msg.h";
  role = role;
  in_degree = 0;
  contained_by = [];
  contains = [];
  depth = 0;
  field_count = 1;
  bound_constants = [];
  pointer_fields = [];
  variable_array_fields = [];
}

abbrev nav : ApplicationGroup
nav = record {
  id = codes "1";
  name = codes "nav";
  analysis = some (record {
    files =
        record {
          filename = codes "nav.c";
          unknown_calls = codes "bus_put" ∷ [];
          risks = [];
          ipc = [];
        }
        ∷ [];
    type_dict = record { structs = []; enums = []; typedef_aliases = none };
    messages = fix ∷ [];
    compositions = [];
    roles = role_info (codes "Fix") root_candidate ∷ role_info (codes "Old") orphan ∷ [];
    layouts = [];
    layout_target = none;
    payloads = [];
    review = [];
    warnings = [];
  });
}

abbrev small : DigestOptions
small = record { budget_tokens = 200; scope = all_apps }

header_fits :
    estimate_tokens (header_text (resolve_scope (nav ∷ []) all_apps) small) + notional_reserve 200
    ≤ 200
unfolding header_text header_of with_detail inventory_line detail_of detail_line constants produces
    consumes join_lines join_with show show_from target_text flat_map scope_lines resolve_scope
    scoped_app is_in estimate_tokens notional_reserve ◌===◌ push_new is_producer is_consumer sort_by
    insert_by includes_text
header_fits = omega arith

build_digest-le_example : (build_digest text_before (nav ∷ []) small).estimated_tokens ≤ 200 + 2
build_digest-le_example = build_digest-le text_before (nav ∷ []) small header_fits
