-- ===== src/Graph/Kept.antt =====
-- No message between two files is lost in the graph of src/utils/buildGraph.ts.
use mathlib.Core.List.{Memᴰ}
use c_interface_discovery.Prelude.{
  Text, List, [], ◌∷◌, map, All, All-mem, some, true, false, ◌===◌, ===_iff, ◌≡◌, ◌⊎◌, refl, sym,
  subst, ◌∙◌, Bool-cases, Option-cases, inl, inr, arith,
}
use c_interface_discovery.Prelude.Dict.{Dict, get, delete, get-delete}
use c_interface_discovery.Graph.{
  MessageInterface, FileAnalysis, EdgeEntry, MsgEdge, Pairs, includes_text, key_of, producers,
  consumers, is_producer, is_consumer, edge_map, collapsed, delete_all, assemble, msg_edge,
  build_graph,
}
use c_interface_discovery.Graph.Names.{IsPlainName, carried, carries}
use c_interface_discovery.Graph.Edges.{edge_map-adds}
use c_interface_discovery.Graph.Shape.{HasPlainNames, names-IsPlainName, edge_map-IsEdge}
use c_interface_discovery.Graph.Collapse.{IsLive, Joins, collapse-Joins}

get-delete_all :
    (keys : List Text) (d : Dict EdgeEntry) (k : Text)
    → includes_text keys k ≡ false
    → get (delete_all keys d) k ≡ get d k
unfolding delete_all includes_text
get-delete_all [] d k h = refl
get-delete_all (key ∷ keys) d k h = elim (Bool-cases (key === k)) [
  | inl e ↦ absurd (ground (arith, e, h))
  | inr e ↦ get-delete_all keys (delete d key) k (rw e at h) ∙ rw (get-delete d key k, e) refl
]

-- An edge of the graph that carries a message between two files, in one direction or both.
pub record IsConnected (edges : List MsgEdge) (from to constant : Text) : Type 0 where
  pub edge : MsgEdge
  pub listed : Memᴰ edge edges
  pub carries_it : includes_text edge.entry.msg_types constant ≡ true
  pub ends : (edge.id ≡ key_of from to) ⊎ (edge.id ≡ key_of to from)

mem-assemble :
    (dropped : List Text) (d : Dict EdgeEntry) (k : Text) (e : EdgeEntry)
    → get d k ≡ some e
    → Memᴰ (msg_edge dropped k e) (assemble dropped d)
unfolding get assemble
mem-assemble dropped [] k e h = absurd (cc h)
mem-assemble dropped ((j, x) ∷ d) k e h = elim (Bool-cases (j === k)) [
  | inl same ↦
      let found : x ≡ e = ground (arith, same, h) in
      let here : j ≡ k = (===_iff j k).0 same in
      Memᴰ.head (λ i. msg_edge dropped (sym here i) (sym found i))
  | inr other ↦ Memᴰ.tail (mem-assemble dropped d k e (rw (other, get) at h))
]

IsLive-listed :
    (st : Pairs) (k m : Text)
    → IsLive st k m
    → (e : MsgEdge) × Memᴰ e (assemble st.dropped (delete_all st.dropped st.edges))
      × (includes_text e.entry.msg_types m ≡ true)
      × (e.id ≡ k)
unfolding carries msg_edge
IsLive-listed st k m (c, live) = elim (Option-cases (get st.edges k)) [
  | inl f ↦ absurd (cc (subst (λ o. carried o m ≡ true) f c))
  | inr (e, f) ↦ (
    msg_edge st.dropped k e,
    mem-assemble st.dropped _ k e (get-delete_all st.dropped st.edges k live ∙ f),
    subst (λ o. carried o m ≡ true) f c,
    refl,
  )
]

Joins-IsConnected :
    (st : Pairs) (a b m : Text)
    → Joins st a b m
    → IsConnected (assemble st.dropped (delete_all st.dropped st.edges)) a b m
Joins-IsConnected st a b m (inl live) =
    let (e, listed, inc, id) = IsLive-listed st (key_of a b) m live in
    record { edge = e; listed = listed; carries_it = inc; ends = inl id }
Joins-IsConnected st a b m (inr live) =
    let (e, listed, inc, id) = IsLive-listed st (key_of b a) m live in
    record { edge = e; listed = listed; carries_it = inc; ends = inr id }

pub other_way : (s t : Text) → (s === t) ≡ false → (t === s) ≡ false
other_way s t h = elim (Bool-cases (t === s)) [
  | inr e ↦ e
  | inl e ↦ absurd (cc (h, (===_iff s t).1 (sym ((===_iff t s).0 e))))
]

module _ (files : List FileAnalysis) (msgs : List MessageInterface)
    (plain : All HasPlainNames msgs) where
  -- If no name of a file with a role holds the arrow that joins the names in a key, then for every
  -- message, every file that produces it and every other file that consumes it, the graph has an
  -- edge between the two files that carries the message: collapsing reciprocal pairs loses none.
  pub build_graph-IsConnected :
      (msg : MessageInterface) (from to : Text)
      → Memᴰ msg msgs
      → Memᴰ from (producers msg)
      → Memᴰ to (consumers msg)
      → (from === to) ≡ false
      → IsConnected (build_graph files msgs).edges from to msg.msg_type_constant
  unfolding build_graph collapsed producers consumers includes_text
  build_graph-IsConnected msg from to m p c ne =
      let names = All-mem HasPlainNames msgs plain m in
      let plain_from =
        All-mem IsPlainName (producers msg)
          (names-IsPlainName (λ r. is_producer r.role) msg.file_roles names) p in
      let plain_to =
        All-mem IsPlainName (consumers msg)
          (names-IsPlainName (λ r. is_consumer r.role) msg.file_roles names) c in
      let edges = edge_map msgs [] in
      let carried = edge_map-adds msgs msg from to [] m ne p c in
      Joins-IsConnected (collapsed msgs) from to msg.msg_type_constant
        (collapse-Joins (map (λ e. e.0) edges) (record { edges = edges; dropped = [] }) from to
          msg.msg_type_constant plain_from plain_to ne (other_way from to ne)
          (edge_map-IsEdge msgs [] plain tt) (inl (carried, refl))).1
