-- ===== src/AppGraph/Routed.antt =====
-- The ways of a message between applications, by the analyses, and the edges that
-- src/utils/buildAppGraph.ts draws.
use mathlib.Core.List.{Memᴰ}
use c_interface_discovery.Prelude.{
  Text, List, [], ◌∷◌, map, some, Bool, true, false, ◌&&◌, ◌===◌, ===_iff, any, keep, All, All-mem,
  All-mono, ◌≡◌, ◌⊎◌, refl, sym, subst, ◌∙◌, Bool-cases, Option-cases, inl, inr, arith,
}
use c_interface_discovery.Prelude.Dict.{Dict, get, delete, get-delete, AllEntries-get}
use c_interface_discovery.Graph.{MessageInterface, includes_text, key_of}
use c_interface_discovery.Graph.Names.{IsPlainName, carried, carries}
use c_interface_discovery.Graph.Kept.{other_way}
use c_interface_discovery.Graph.Collapse.{IsLive, Joins, collapse-Joins}
use c_interface_discovery.AppGraph.Senders.{
  Analyzed, MsgEntry, empty_entry, app_produces, entry_or_empty, msg_map,
}
use c_interface_discovery.AppGraph.Routes.{AppEdge, transit_ids, hops_of, edge_map}
use c_interface_discovery.AppGraph.Pairs.{AppPairs, delete_all}
use c_interface_discovery.AppGraph.{
  Group, AppNode, CrossAppEdge, analyzed_groups, cross_app_edge, collapsed, edges_of, graph_of,
  build_app_graph,
}
use c_interface_discovery.AppGraph.Entries.{
  any_app, sends, receives, entry_at, msg_map-sends, msg_map-receives,
}
use c_interface_discovery.AppGraph.Ready.{IsReady, msg_map-IsReady}
use c_interface_discovery.AppGraph.Hops.{hops_of-Memᴰ}
use c_interface_discovery.AppGraph.Paths.{IsPath, All-listed, hops_of-IsPath}
use c_interface_discovery.AppGraph.Erasing.{
  erase, entry_of, get-erase, erase_pairs, collapse_apps-erase,
}
use c_interface_discovery.AppGraph.Carrying.{edge_map-IsEdge, edge_map-adds}

-- Some application sends and receives the message: it passes it on.
abbrev pub has_broker : List Analyzed → Text → Bool
has_broker groups m = any (λ g. sends groups m g.id && receives groups m g.id) groups

-- The message goes straight from one application to another: the one sends it, the other receives it,
-- not both pass it on, and one of them does if any application does.
pub record IsRoute (groups : List Analyzed) (m from to : Text) : Type 0 where
  pub sender : sends groups m from ≡ true
  pub receiver : receives groups m to ≡ true
  pub one_end : (receives groups m from && sends groups m to) ≡ false
  pub way :
      (receives groups m from ≡ true) ⊎ ((sends groups m to ≡ true) ⊎ (has_broker groups m ≡ false))

-- An edge that carries the message between the applications, in one direction or both.
pub record IsLinked (edges : List CrossAppEdge) (from to m : Text) : Type 0 where
  pub edge : CrossAppEdge
  pub listed : Memᴰ edge edges
  pub carries_it : includes_text edge.edge.entry.msg_types m ≡ true
  pub ends : (edge.id ≡ key_of from to) ⊎ (edge.id ≡ key_of to from)

no_broker :
    (test : MessageInterface → Bool) (p : Text → Bool) (groups : List Analyzed) (m id : Text)
    → any (λ g. p g.id) groups ≡ false
    → any_app test groups m id ≡ true
    → p id ≡ false
no_broker test p [] m id h k = absurd (cc k)
no_broker test p (g ∷ groups) m id h k = elim (Bool-cases (g.id === id)) [
  | inl e ↦ subst (λ x. p x ≡ false) ((===_iff g.id id).0 e) (ground (arith, h))
  | inr e ↦ no_broker test p groups m id (ground (arith, h)) (ground (arith, e, k))
]

keep-none : (p : Text → Bool) (xs : List Text) → All (λ x. p x ≡ false) xs → keep p xs ≡ []
keep-none p [] h = refl
keep-none p (x ∷ xs) (q, h) = rw q (keep-none p xs h)

no_transit :
    (groups : List Analyzed) (m : Text)
    → has_broker groups m ≡ false
    → transit_ids (entry_at (msg_map groups []) m) ≡ []
unfolding transit_ids
no_transit groups m h =
    let e = entry_at (msg_map groups []) m in
    keep-none (includes_text e.consumers) e.producers (
      All-mono
        (λ id listed.
          let sent : sends groups m id ≡ true = sym (msg_map-sends groups m id) ∙ listed in
          let alone =
            no_broker app_produces (λ x. sends groups m x && receives groups m x) groups m id h
              sent in
          msg_map-receives groups m id ∙ ground (arith, sent, alone))
        e.producers (All-listed e.producers))

entry_found :
    (d : Dict MsgEntry) (m a : Text)
    → includes_text (entry_at d m).producers a ≡ true
    → get d m ≡ some (entry_at d m)
unfolding entry_or_empty empty_entry includes_text
entry_found d m a h = elim (Option-cases (get d m)) [
  | inl f ↦ absurd (cc (rw f at h))
  | inr (e, f) ↦ rw f refl
]

get-delete_all :
    (keys : List Text) (d : Dict AppEdge) (k : Text)
    → includes_text keys k ≡ false
    → get (delete_all keys d) k ≡ get d k
unfolding delete_all includes_text
get-delete_all [] d k h = refl
get-delete_all (key ∷ keys) d k h = elim (Bool-cases (key === k)) [
  | inl e ↦ absurd (ground (arith, e, h))
  | inr e ↦ get-delete_all keys (delete d key) k (rw e at h) ∙ rw (get-delete d key k, e) refl
]

edge_listed :
    (dropped : List Text) (d : Dict AppEdge) (k : Text) (x : AppEdge)
    → get d k ≡ some x
    → Memᴰ (cross_app_edge dropped k x) (map (λ e. cross_app_edge dropped e.0 e.1) d)
unfolding get
edge_listed dropped [] k x h = absurd (cc h)
edge_listed dropped ((j, y) ∷ d) k x h = elim (Bool-cases (j === k)) [
  | inl same ↦
      let found : y ≡ x = ground (arith, same, h) in
      let here : j ≡ k = (===_iff j k).0 same in
      Memᴰ.head (λ i. cross_app_edge dropped (sym here i) (sym found i))
  | inr other ↦ Memᴰ.tail (edge_listed dropped d k x (rw (other, get) at h))
]

IsLive-linked :
    (st : AppPairs) (k m : Text)
    → IsLive (erase_pairs st) k m
    → (e : CrossAppEdge) × (Memᴰ e (edges_of st)
        × ((includes_text e.edge.entry.msg_types m ≡ true) × (e.id ≡ k)))
unfolding carries cross_app_edge edges_of
IsLive-linked st k m (c, live) =
    let there : carried (entry_of (get st.edges k)) m ≡ true =
      subst (λ o. carried o m ≡ true) (get-erase st.edges k) c in
    elim (Option-cases (get st.edges k)) [
      | inl f ↦ absurd (cc (rw f at there))
      | inr (x, f) ↦ (
        cross_app_edge st.dropped k x,
        (
          edge_listed st.dropped _ k x (get-delete_all st.dropped st.edges k live ∙ f),
          (rw f at there, refl),
        ),
      )
    ]

Joins-IsLinked :
    (st : AppPairs) (a b m : Text) → Joins (erase_pairs st) a b m → IsLinked (edges_of st) a b m
Joins-IsLinked st a b m (inl live) =
    let (e, (listed, (inc, id))) = IsLive-linked st (key_of a b) m live in
    record { edge = e; listed = listed; carries_it = inc; ends = inl id }
Joins-IsLinked st a b m (inr live) =
    let (e, (listed, (inc, id))) = IsLive-linked st (key_of b a) m live in
    record { edge = e; listed = listed; carries_it = inc; ends = inr id }

collapsed-Joins :
    (groups : List Analyzed) (m a b : Text)
    → All (λ g. IsPlainName g.id) groups
    → IsRoute groups m a b
    → Joins (erase_pairs (collapsed (msg_map groups []))) a b m
unfolding collapsed includes_text
collapsed-Joins groups m a b plain r =
    let d = msg_map groups [] in
    let e = entry_at d m in
    let ready = msg_map-IsReady groups [] plain tt in
    let produced : includes_text e.producers a ≡ true = msg_map-sends groups m a ∙ r.sender in
    let consumed : includes_text e.consumers b ≡ true = msg_map-receives groups m b ∙ r.receiver in
    let one_end : (includes_text e.consumers a && includes_text e.producers b) ≡ false =
      rw (msg_map-receives groups m a, msg_map-sends groups m b) r.one_end in
    let way : (includes_text e.consumers a ≡ true)
        ⊎ ((includes_text e.producers b ≡ true) ⊎ (transit_ids e ≡ [])) =
      elim r.way [
        | inl w ↦ inl (msg_map-receives groups m a ∙ w)
        | inr (inl w) ↦ inr (inl (msg_map-sends groups m b ∙ w))
        | inr (inr w) ↦ inr (inr (no_transit groups m w))
      ] in
    let mem = hops_of-Memᴰ e a b produced consumed one_end way in
    let found = entry_found d m a produced in
    let path =
      All-mem (IsPath e) (hops_of e) (hops_of-IsPath m e (AllEntries-get IsReady d m e ready found))
        mem in
    let edges = edge_map d [] in
    let keys = map {B = Text} (λ e. e.0) edges in
    let joined =
      collapse-Joins keys (record { edges = erase edges; dropped = [] }) a b m path.plain_from
        path.plain_to path.two_apps (other_way a b path.two_apps) (edge_map-IsEdge d [] ready tt)
        (inl (edge_map-adds d [] m e (record { from = a; to = b }) ready found mem, refl)) in
    subst (λ st. Joins st a b m)
      (sym (collapse_apps-erase keys (record { edges = edges; dropped = [] }))) joined.1

graph_of-IsLinked :
    (nodes : Dict AppNode) (groups : List Analyzed) (m a b : Text)
    → All (λ g. IsPlainName g.id) groups
    → IsRoute groups m a b
    → IsLinked (graph_of nodes groups).edges a b m
unfolding graph_of
graph_of-IsLinked nodes [] m a b plain r = absurd (cc (r.sender))
graph_of-IsLinked nodes (g ∷ groups) m a b plain r =
    Joins-IsLinked _ a b m (collapsed-Joins (g ∷ groups) m a b plain r)

-- If no identifier of an analyzed application holds the arrow that joins them in a key, then every way
-- of a message from one application straight to another has an edge of the graph that carries it:
-- where applications pass the message on, from each sender to them and from them to each receiver, and
-- otherwise from each sender to each receiver. Collapsing reciprocal pairs loses none.
pub build_app_graph-IsLinked :
    (groups : List Group) (m from to : Text)
    → All (λ g. IsPlainName g.id) (analyzed_groups groups)
    → IsRoute (analyzed_groups groups) m from to
    → IsLinked (build_app_graph groups).edges from to m
unfolding build_app_graph
build_app_graph-IsLinked groups m from to plain route =
    graph_of-IsLinked _ (analyzed_groups groups) m from to plain route
