-- ===== src/Graph/Tests.antt =====
-- A graph of two files that answer each other.
use c_interface_discovery.Prelude.{
  Text, List, [], ◌∷◌, none, true, false, ◌===◌, ◌≡◌, ◌⊎◌, ◌↔◌, refl, codes, map, index_of,
}
use c_interface_discovery.Prelude.Dict.{get, set, has, delete}
use c_interface_discovery.Graph.{
  producer, consumer, both, MessageInterface, FileAnalysis, EdgeDirection, bidirectional,
  build_graph, producers, consumers, is_producer, is_consumer, collapsed, collapse, collapse_step,
  collapse_edge, edge_map, connect, connect_all, add_edge, new_edge, with_msg, key_of, update,
  merge, push_new, push_all, includes_text, assemble, msg_edge, direction_of, delete_all,
}
use c_interface_discovery.Graph.Shape.{HasPlainNames}
use c_interface_discovery.Graph.Names.{IsPlainName}
use c_interface_discovery.Graph.Kept.{IsConnected}
use c_interface_discovery.Graph.Exact.{IsSent, build_graph_iff}

abbrev request : MessageInterface
request = record {
  msg_type_constant = codes "REQ";
  direction_confident = true;
  transport = none;
  file_roles =
      record { filename = codes "a.c"; role = producer }
      ∷ record { filename = codes "b.c"; role = consumer }
      ∷ [];
  incomplete = false;
}

abbrev reply : MessageInterface
reply = record {
  msg_type_constant = codes "REP";
  direction_confident = false;
  transport = none;
  file_roles =
      record { filename = codes "b.c"; role = producer }
      ∷ record { filename = codes "a.c"; role = both }
      ∷ [];
  incomplete = false;
}

abbrev files : List FileAnalysis
files = []

one_edge :
    map {B = List Text × EdgeDirection}
      (λ e. (e.entry.msg_types, e.direction))
      (build_graph files (request ∷ reply ∷ [])).edges
    ≡ (codes "REP" ∷ codes "REQ" ∷ [], bidirectional) ∷ []
unfolding build_graph producers consumers is_producer is_consumer collapsed collapse collapse_step
    collapse_edge edge_map connect connect_all add_edge new_edge with_msg key_of update merge
    push_new push_all includes_text assemble msg_edge direction_of delete_all get set has delete
    ◌===◌
one_edge = refl

request_names : HasPlainNames request
unfolding index_of
request_names = (refl, (refl, tt))

reply_names : HasPlainNames reply
unfolding index_of
reply_names = (refl, (refl, tt))

plain_ends : IsPlainName (codes "a.c") × IsPlainName (codes "b.c")
unfolding index_of
plain_ends = (refl, refl)

build_graph_iff_example :
    IsConnected
      (build_graph files (request ∷ reply ∷ [])).edges
      (codes "a.c")
      (codes "b.c")
      (codes "REQ")
    ↔ (IsSent (request ∷ reply ∷ []) (codes "a.c") (codes "b.c") (codes "REQ")
        ⊎ IsSent (request ∷ reply ∷ []) (codes "b.c") (codes "a.c") (codes "REQ"))
build_graph_iff_example =
    build_graph_iff (request ∷ reply ∷ []) (request_names, (reply_names, tt)) files (codes "a.c")
      (codes "b.c") (codes "REQ") plain_ends.0 plain_ends.1
