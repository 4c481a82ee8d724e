-- ===== src/AppGraph/Tests.antt =====
-- A message that one application sends, one passes on and one receives.
use c_interface_discovery.Prelude.{
  Text, List, [], ◌∷◌, none, some, true, false, ◌===◌, ◌≡◌, ◌⊎◌, ◌↔◌, refl, codes, map, index_of,
  All,
}
use c_interface_discovery.Prelude.Dict.{get, set, has, delete}
use c_interface_discovery.Digest.Rows.{flat_map}
use c_interface_discovery.Graph.{
  MessageInterface, Role, producer, consumer, both, is_producer, is_consumer, includes_text, key_of,
  update, push_new, direction_of, collapse,
}
use c_interface_discovery.Graph.Names.{IsPlainName}
use c_interface_discovery.AppGraph.Senders.{
  app_produces, app_consumes, note_producer, note_consumer, note_confident, entry_or_empty,
  empty_entry, add_message, add_messages, msg_map,
}
use c_interface_discovery.AppGraph.{
  Group, analyzed_of, analyzed_groups, cross_app_edge, collapsed, edges_of, graph_of,
  build_app_graph,
}
use c_interface_discovery.AppGraph.Routes.{
  AppEdge, hops, transit_ids, pure_producers, pure_consumers, route, hops_of, first_value, or_else,
  interface_of, new_app_edge, merge_msg, add_or_merge, add_found, add_hops, edge_map,
}
use c_interface_discovery.AppGraph.Pairs.{
  AppPairs, merge_msgs, with_confident, merge_app, collapse_app_edge, collapse_app_step,
  collapse_apps, delete_all,
}
use c_interface_discovery.AppGraph.Erasing.{erase_pairs, collapse_apps-erase}
use c_interface_discovery.AppGraph.Routed.{IsRoute, IsLinked}
use c_interface_discovery.AppGraph.Exact.{build_app_graph_iff}

abbrev fix : Role → MessageInterface
fix role = record {
  msg_type_constant = codes "FIX";
  direction_confident = true;
  transport = none;
  file_roles = record { filename = codes "main.c"; role = role } ∷ [];
  incomplete = false;
}

abbrev group : Text → Role → Group
group id role = record {
  id = id;
  name = id;
  analysis = some (record { files = []; messages = fix role ∷ [] });
}

abbrev three : List Group
three = group (codes "a") producer ∷ group (codes "b") both ∷ group (codes "c") consumer ∷ []

plain_names : All (λ g. IsPlainName g.id) (analyzed_groups three)
unfolding analyzed_groups analyzed_of flat_map index_of
plain_names = (refl, (refl, (refl, tt)))

plain_ends : IsPlainName (codes "a") × IsPlainName (codes "b")
unfolding index_of
plain_ends = (refl, refl)

build_app_graph_iff_example :
    IsLinked (build_app_graph three).edges (codes "a") (codes "b") (codes "FIX") ↔ (
      IsRoute (analyzed_groups three) (codes "FIX") (codes "a") (codes "b")
      ⊎ IsRoute (analyzed_groups three) (codes "FIX") (codes "b") (codes "a"))
build_app_graph_iff_example =
    build_app_graph_iff three (codes "a") (codes "b") (codes "FIX") plain_names plain_ends.0
      plain_ends.1

-- The sender is joined to the application between, and not to the receiver.
broker_edges :
    map {B = Text} (λ e. e.id) (build_app_graph three).edges
    ≡ key_of (codes "a") (codes "b") ∷ key_of (codes "b") (codes "c") ∷ []
unfolding app_produces app_consumes note_producer note_consumer note_confident entry_or_empty
    empty_entry add_message add_messages msg_map hops transit_ids pure_producers pure_consumers
    route hops_of first_value or_else interface_of new_app_edge merge_msg add_or_merge add_found
    add_hops edge_map merge_msgs with_confident merge_app collapse_app_edge collapse_app_step
    collapse_apps delete_all analyzed_of analyzed_groups cross_app_edge collapsed edges_of graph_of
    build_app_graph get set has delete ◌===◌ includes_text key_of is_producer is_consumer flat_map
    update push_new direction_of
broker_edges = refl

abbrev there : AppEdge
there = record {
  entry = record {
    source = codes "a";
    target = codes "b";
    msg_types = codes "REQ" ∷ [];
    transport = none;
    confident = true;
  };
  interfaces = fix both ∷ [];
}

abbrev back : AppEdge
back = record {
  entry = record {
    source = codes "b";
    target = codes "a";
    msg_types = codes "REP" ∷ [];
    transport = none;
    confident = false;
  };
  interfaces = fix both ∷ [];
}

abbrev pair : AppPairs
pair = record { edges = (codes "a→b", there) ∷ (codes "b→a", back) ∷ []; dropped = [] }

collapse_apps-erase_example :
    erase_pairs (collapse_apps (codes "a→b" ∷ codes "b→a" ∷ []) pair)
    ≡ collapse (codes "a→b" ∷ codes "b→a" ∷ []) (erase_pairs pair)
collapse_apps-erase_example = collapse_apps-erase (codes "a→b" ∷ codes "b→a" ∷ []) pair
