-- ===== src/AppGraph.antt =====
-- `buildAppGraph` of src/utils/buildAppGraph.ts: the applications and the messages between them,
-- without the positions that the dagre library computes.
pub mod Senders
pub mod Routes
pub mod Pairs
pub mod Entries
pub mod Ready
pub mod Hops
pub mod Paths
pub mod Erasing
pub mod Carrying
pub mod Routed
pub mod Drawn
pub mod Exact
mod Tests
use c_interface_discovery.Prelude.{
  ℕ, Text, List, [], ◌∷◌, ◌++◌, map, Option, none, some, Bool, true, false, not, ◌&&◌, ◌||◌, ◌===◌,
  any, keep, length, if◌then◌else◌,
}
use c_interface_discovery.Prelude.Dict
use c_interface_discovery.Prelude.Dict.{Dict}
use c_interface_discovery.Graph.{
  MessageInterface, FileAnalysis, EdgeEntry, EdgeDirection, includes_text, push_new, push_all,
  is_producer, is_consumer, key_of, update, one_sided, direction_of, is_uncertain,
}
use c_interface_discovery.Digest.Rows.{flat_map}
use c_interface_discovery.AppGraph.Senders.{
  empty_entry, app_produces, app_consumes, note_producer, note_consumer, note_confident,
  entry_or_empty, add_message, add_messages, msg_map, Analyzed, MsgEntry,
}
use c_interface_discovery.AppGraph.Routes.{
  hops, transit_ids, pure_producers, pure_consumers, route, hops_of, first_value, or_else,
  interface_of, new_app_edge, merge_msg, add_or_merge, add_found, add_hops, edge_map, Hop, AppEdge,
}
use c_interface_discovery.AppGraph.Pairs.{
  merge_msgs, with_confident, merge_app, collapse_app_edge, collapse_app_step, collapse_apps,
  delete_all, AppPairs,
}

-- The analysis of an application, as far as the graph reads it.
pub record Analysis : Type 0 where
  pub files : List FileAnalysis
  pub messages : List MessageInterface

pub record Group : Type 0 where
  pub id : Text
  pub name : Text
  pub analysis : Option Analysis

pub record AppNode : Type 0 where
  pub label : Text
  pub app_id : Text
  pub file_count : ℕ
  pub ipc_types : List Text
  pub produced_msgs : List Text
  pub consumed_msgs : List Text

unfoldable pub app_node : Group → Option Analysis → AppNode
app_node g none = record {
  label = g.name;
  app_id = g.id;
  file_count = 0;
  ipc_types = [];
  produced_msgs = [];
  consumed_msgs = [];
}
app_node g (some a) = record {
  label = g.name;
  app_id = g.id;
  file_count = length a.files;
  ipc_types = push_all [] (flat_map (λ f. f.ipc) a.files);
  produced_msgs = [];
  consumed_msgs = [];
}

unfoldable pub node_map : List Group → Dict AppNode → Dict AppNode
node_map [] nodes = nodes
node_map (g ∷ groups) nodes = node_map groups (Dict.set nodes g.id (app_node g g.analysis))

unfoldable pub analyzed_of : Text → Option Analysis → List Analyzed
analyzed_of id none = []
analyzed_of id (some a) = record { id = id; messages = a.messages } ∷ []

unfoldable pub analyzed_groups : List Group → List Analyzed
analyzed_groups groups = flat_map (λ g. analyzed_of g.id g.analysis) groups

-- The messages noted at the nodes.
unfoldable pub produces : Text → AppNode → AppNode
produces constant n = record n { produced_msgs = push_new n.produced_msgs constant }

unfoldable pub consumes : Text → AppNode → AppNode
consumes constant n = record n { consumed_msgs = push_new n.consumed_msgs constant }

unfoldable pub update_all : (AppNode → AppNode) → List Text → Dict AppNode → Dict AppNode
update_all change [] nodes = nodes
update_all change (id ∷ ids) nodes = update_all change ids (update change id nodes)

unfoldable pub note_nodes : Dict MsgEntry → Dict AppNode → Dict AppNode
note_nodes [] nodes = nodes
note_nodes ((constant, e) ∷ entries) nodes =
    note_nodes entries (
      update_all (consumes constant) e.consumers (update_all (produces constant) e.producers nodes))

-- `msgInterface.incomplete = true`, for the messages that have one side only
unfoldable pub has_one_side : Option MsgEntry → Bool
has_one_side none = false
has_one_side (some e) = one_sided e.producers e.consumers || one_sided e.consumers e.producers

unfoldable pub flag_message : Dict MsgEntry → MessageInterface → MessageInterface
flag_message entries msg =
    if has_one_side (Dict.get entries msg.msg_type_constant)
    then record msg { incomplete = true }
    else msg

unfoldable pub flag_group : Dict MsgEntry → Analyzed → Analyzed
flag_group entries g = record g { messages = map (flag_message entries) g.messages }

pub record CrossAppEdge : Type 0 where
  pub id : Text
  pub edge : AppEdge
  pub direction : EdgeDirection
  pub animated : Bool

unfoldable pub cross_app_edge : List Text → Text → AppEdge → CrossAppEdge
cross_app_edge dropped key x =
    let direction =
      direction_of (includes_text dropped (key_of x.entry.target x.entry.source))
        x.entry.confident in
    record { id = key; edge = x; direction = direction; animated = is_uncertain direction }

-- The result, and the messages of the groups, some of which the function marks as incomplete.
pub record AppGraph : Type 0 where
  pub nodes : List AppNode
  pub edges : List CrossAppEdge
  pub groups : List Analyzed

-- The edges left, with the keys dropped.
unfoldable pub collapsed : Dict MsgEntry → AppPairs
collapsed entries =
    let edges = edge_map entries [] in
    collapse_apps (map (λ e. e.0) edges) (record { edges = edges; dropped = [] })

unfoldable pub edges_of : AppPairs → List CrossAppEdge
edges_of st = map (λ e. cross_app_edge st.dropped e.0 e.1) (delete_all st.dropped st.edges)

unfoldable pub graph_of : Dict AppNode → List Analyzed → AppGraph
graph_of nodes [] = record { nodes = map (λ n. n.1) nodes; edges = []; groups = [] }
graph_of nodes (g ∷ groups) =
    let entries = msg_map (g ∷ groups) [] in
    record {
      nodes = map (λ n. n.1) (note_nodes entries nodes);
      edges = edges_of (collapsed entries);
      groups = map (flag_group entries) (g ∷ groups);
    }

unfoldable pub build_app_graph : List Group → AppGraph
build_app_graph groups = graph_of (node_map groups []) (analyzed_groups groups)
