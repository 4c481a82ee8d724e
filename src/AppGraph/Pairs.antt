-- ===== src/AppGraph/Pairs.antt =====
-- The reciprocal pairs of edges of src/utils/buildAppGraph.ts.
use c_interface_discovery.Prelude.{
  Text, List, [], ◌∷◌, ◌++◌, none, some, Bool, not, ◌&&◌, ◌||◌, ◌===◌, keep, if◌then◌else◌,
}
use c_interface_discovery.Prelude.Dict
use c_interface_discovery.Prelude.Dict.{Dict}
use c_interface_discovery.Graph.{includes_text, push_new, key_of, update}
use c_interface_discovery.AppGraph.Routes.{AppEdge}

-- Reciprocal pairs of edges become one: the state of the loop is `edgeMap` and `dropped`.
pub record AppPairs : Type 0 where
  pub edges : Dict AppEdge
  pub dropped : List Text

unfoldable pub merge_msgs : List Text → AppEdge → AppEdge → AppEdge
merge_msgs [] e reverse = reverse
merge_msgs (m ∷ ms) e reverse = merge_msgs ms e (
    if includes_text reverse.entry.msg_types m then reverse else record {
      entry = record reverse.entry { msg_types = reverse.entry.msg_types ++ m ∷ [] };
      interfaces = reverse.interfaces ++ keep (λ i. i.msg_type_constant === m) e.interfaces;
    })

unfoldable pub with_confident : Bool → AppEdge → AppEdge
with_confident confident x = record x { entry = record x.entry { confident = confident } }

unfoldable pub merge_app : AppEdge → AppEdge → AppEdge
merge_app e reverse =
    with_confident (reverse.entry.confident || e.entry.confident)
      (merge_msgs e.entry.msg_types e reverse)

unfoldable pub collapse_app_edge : Text → AppEdge → AppPairs → AppPairs
collapse_app_edge key e st =
    let reverse_key = key_of e.entry.target e.entry.source in
    if Dict.has st.edges reverse_key && not (includes_text st.dropped reverse_key)
    then record {
      edges = update (merge_app e) reverse_key st.edges;
      dropped = push_new st.dropped key;
    }
    else st

unfoldable pub collapse_app_step : Text → AppPairs → AppPairs
collapse_app_step key st = elim (Dict.get st.edges key) [
  | none ↦ st
  | some e ↦ if includes_text st.dropped key then st else collapse_app_edge key e st
]

unfoldable pub collapse_apps : List Text → AppPairs → AppPairs
collapse_apps [] st = st
collapse_apps (key ∷ keys) st = collapse_apps keys (collapse_app_step key st)

unfoldable pub delete_all : List Text → Dict AppEdge → Dict AppEdge
delete_all [] edges = edges
delete_all (key ∷ keys) edges = delete_all keys (Dict.delete edges key)
