-- ===== src/AppGraph/Routes.antt =====
-- `edgeMap` of src/utils/buildAppGraph.ts: the edges before reciprocal pairs are collapsed.
use c_interface_discovery.Prelude.{
  Text, List, [], ◌∷◌, ◌++◌, map, Option, none, some, Bool, true, not, ◌===◌, keep, if◌then◌else◌,
}
use c_interface_discovery.Prelude.Dict
use c_interface_discovery.Prelude.Dict.{Dict}
use c_interface_discovery.Graph.{MessageInterface, EdgeEntry, includes_text, push_new, key_of}
use c_interface_discovery.Digest.Rows.{flat_map}
use c_interface_discovery.AppGraph.Senders.{MsgEntry}

-- From one application to another.
pub record Hop : Type 0 where
  pub from : Text
  pub to : Text

unfoldable pub hops : List Text → List Text → List Hop
hops froms tos = flat_map (λ f. map (λ t. record { from = f; to = t }) tos) froms

unfoldable pub transit_ids : MsgEntry → List Text
transit_ids e = keep (includes_text e.consumers) e.producers

unfoldable pub pure_producers : MsgEntry → List Text
pure_producers e = keep (λ id. not (includes_text e.consumers id)) e.producers

unfoldable pub pure_consumers : MsgEntry → List Text
pure_consumers e = keep (λ id. not (includes_text e.producers id)) e.consumers

-- The pairs of the loops, in their order, by the transit applications.
unfoldable pub route : List Text → MsgEntry → List Hop
route [] e = keep (λ h. not (h.from === h.to)) (hops (pure_producers e) (pure_consumers e))
route (t ∷ transit) e =
    hops (pure_producers e) (t ∷ transit) ++ hops (t ∷ transit) (pure_consumers e)

unfoldable pub hops_of : MsgEntry → List Hop
hops_of e = route (transit_ids e) e

unfoldable pub first_value : Dict MessageInterface → Option MessageInterface
first_value [] = none
first_value ((k, i) ∷ interfaces) = some i

unfoldable pub or_else : Option MessageInterface → Option MessageInterface → Option MessageInterface
or_else none other = other
or_else (some i) other = some i

-- `interfaces.get(from) ?? interfaces.get(to) ?? [...interfaces.values()][0]`
unfoldable pub interface_of : MsgEntry → Hop → Option MessageInterface
interface_of e h =
    or_else (Dict.get e.interfaces h.from)
      (or_else (Dict.get e.interfaces h.to) (first_value e.interfaces))

-- An `EdgeAccum`.
pub record AppEdge : Type 0 where
  pub entry : EdgeEntry
  pub interfaces : List MessageInterface

unfoldable pub new_app_edge : Hop → Text → MessageInterface → Bool → AppEdge
new_app_edge h constant i confident = record {
  entry = record {
    source = h.from;
    target = h.to;
    msg_types = constant ∷ [];
    transport = i.transport;
    confident = confident;
  };
  interfaces = i ∷ [];
}

unfoldable pub merge_msg : Text → MessageInterface → Bool → AppEdge → AppEdge
merge_msg constant i confident x = record {
  entry = record x.entry {
    msg_types = push_new x.entry.msg_types constant;
    confident = if confident then true else x.entry.confident;
  };
  interfaces =
      if includes_text x.entry.msg_types constant then x.interfaces else x.interfaces ++ i ∷ [];
}

unfoldable pub add_or_merge : Hop → Text → MessageInterface → Bool → Dict AppEdge → Dict AppEdge
add_or_merge h constant i confident edges = elim (Dict.get edges (key_of h.from h.to)) [
  | none ↦ Dict.set edges (key_of h.from h.to) (new_app_edge h constant i confident)
  | some x ↦ Dict.set edges (key_of h.from h.to) (merge_msg constant i confident x)
]

-- There is always an interface: the ends of a hop have theirs.
unfoldable pub add_found : Option MessageInterface → Hop → Text → Bool → Dict AppEdge → Dict AppEdge
add_found none h constant confident edges = edges
add_found (some i) h constant confident edges = add_or_merge h constant i confident edges

unfoldable pub add_hops : Text → MsgEntry → List Hop → Dict AppEdge → Dict AppEdge
add_hops constant e [] edges = edges
add_hops constant e (h ∷ more) edges =
    add_hops constant e more (add_found (interface_of e h) h constant e.confident edges)

unfoldable pub edge_map : Dict MsgEntry → Dict AppEdge → Dict AppEdge
edge_map [] edges = edges
edge_map ((constant, e) ∷ entries) edges = edge_map entries (add_hops constant e (hops_of e) edges)
