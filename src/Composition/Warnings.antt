-- ===== src/Composition/Warnings.antt =====
-- `collectWarnings` of src/analyzer/messageComposition.ts. The lists that the calls return are put
-- together behind the lists of the caller, in the order of the calls; so one pair of lists is handed
-- on.
use c_interface_discovery.Prelude.{suc, Text, List, [], ◌++◌, ◌∷◌, map, Option, none, some, length}
use c_interface_discovery.Prelude.Dict.{get}
use c_interface_discovery.Walk.{Action, go, Walker, walk}
use c_interface_discovery.Roles.Types.{StructRoleInfo, StructRoleReport}

pub record Warnings : Type 0 where
  pub pointers : List Text
  pub variable_arrays : List Text

abbrev pub no_warnings : Warnings
no_warnings = record { pointers = []; variable_arrays = [] }

-- `${structName}.${f}`
unfoldable pub dotted : Text → Text → Text
dotted struct_name f = struct_name ++ b'.' ∷ f

unfoldable pub add_own : Text → Option StructRoleInfo → Warnings → Warnings
add_own struct_name none out = out
add_own struct_name (some info) out = record {
  pointers = out.pointers ++ map (dotted struct_name) info.pointer_fields;
  variable_arrays = out.variable_arrays ++ map (dotted struct_name) info.variable_array_fields;
}

unfoldable pub children : Option StructRoleInfo → List (Action Warnings)
children none = []
children (some info) = map go info.contains

unfoldable pub warnings_walker : StructRoleReport → Walker Warnings
warnings_walker roles = record {
  key = λ name. name;
  enter = λ name. add_own name (get roles.by_name name);
  actions = λ name. children (get roles.by_name name);
}

-- The fuel is one more than the structs of the report: each step down sees another one.
unfoldable pub collect_warnings : StructRoleReport → Text → Warnings
collect_warnings roles struct_name =
    (walk (suc (length roles.by_name)) (warnings_walker roles) struct_name
      (record { seen = []; out = no_warnings })).out
