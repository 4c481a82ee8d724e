-- ===== src/Graph/Edges.antt =====
-- The edges of src/utils/buildGraph.ts before pairs are collapsed: which messages they carry.
use mathlib.Core.List.{Memᴰ}
use c_interface_discovery.Prelude.{
  Text, List, [], ◌∷◌, true, false, ◌===◌, ◌≡◌, subst, Bool-cases, Option-cases, inl, inr, arith,
}
use c_interface_discovery.Prelude.Dict.{Dict, get}
use c_interface_discovery.Graph.{
  MessageInterface, EdgeEntry, includes_text, push_new, producers, consumers, key_of, new_edge,
  with_msg, add_edge, connect, connect_all, edge_map,
}
use c_interface_discovery.Graph.Names.{
  includes-push_new, includes-push_new_mono, carries, carries-set_same, carries-set,
}

add_edge-keeps :
    (msg : MessageInterface) (from to : Text) (d : Dict EdgeEntry) (k m : Text)
    → carries d k m ≡ true
    → carries (add_edge msg from to d) k m ≡ true
unfolding add_edge with_msg
add_edge-keeps msg from to d k m h = elim (Bool-cases (from === to)) [
  | inl e ↦ rw (e, add_edge) h
  | inr e ↦ elim (Option-cases (get d (key_of from to))) [
    | inl f ↦ rw (e, f, add_edge) (carries-set d _ k m _ (λ old g c. absurd (cc (f, g))) h)
    | inr (entry, f) ↦
        rw (e, f, add_edge)
          (carries-set d _ k m _
            (λ old g c. includes-push_new_mono entry.msg_types msg.msg_type_constant m (
              let same : old ≡ entry = ground (arith, f, g) in
              subst (λ (x : EdgeEntry). includes_text x.msg_types m ≡ true) same c))
            h)
  ]
]

add_edge-adds :
    (msg : MessageInterface) (from to : Text) (d : Dict EdgeEntry)
    → (from === to) ≡ false
    → carries (add_edge msg from to d) (key_of from to) msg.msg_type_constant ≡ true
unfolding add_edge with_msg new_edge push_new includes_text
add_edge-adds msg from to d e = elim (Option-cases (get d (key_of from to))) [
  | inl f ↦
      rw (e, f, add_edge)
        (carries-set_same d (key_of from to) _ (new_edge msg from to)
          (includes-push_new [] msg.msg_type_constant))
  | inr (entry, f) ↦
      rw (e, f, add_edge)
        (carries-set_same d (key_of from to) _ (with_msg msg.msg_type_constant entry)
          (includes-push_new entry.msg_types msg.msg_type_constant))
]

connect-keeps :
    (msg : MessageInterface) (from : Text) (tos : List Text) (d : Dict EdgeEntry) (k m : Text)
    → carries d k m ≡ true
    → carries (connect msg from tos d) k m ≡ true
unfolding connect
connect-keeps msg from [] d k m h = h
connect-keeps msg from (to ∷ tos) d k m h =
    connect-keeps msg from tos (add_edge msg from to d) k m (add_edge-keeps msg from to d k m h)

connect-adds :
    (msg : MessageInterface) (from to : Text) (tos : List Text) (d : Dict EdgeEntry)
    → (from === to) ≡ false
    → Memᴰ to tos
    → carries (connect msg from tos d) (key_of from to) msg.msg_type_constant ≡ true
unfolding connect
connect-adds msg from to [] d ne m = elim m [ ]
connect-adds msg from to (t ∷ tos) d ne (Memᴰ.head same) = connect-keeps msg from tos _ _ _ (
    subst (λ x. carries (add_edge msg from x d) (key_of from to) msg.msg_type_constant ≡ true) same
      (add_edge-adds msg from to d ne))
connect-adds msg from to (t ∷ tos) d ne (Memᴰ.tail m) = connect-adds msg from to tos _ ne m

connect_all-keeps :
    (msg : MessageInterface) (froms tos : List Text) (d : Dict EdgeEntry) (k m : Text)
    → carries d k m ≡ true
    → carries (connect_all msg froms tos d) k m ≡ true
unfolding connect_all
connect_all-keeps msg [] tos d k m h = h
connect_all-keeps msg (f ∷ froms) tos d k m h =
    connect_all-keeps msg froms tos _ k m (connect-keeps msg f tos d k m h)

connect_all-adds :
    (msg : MessageInterface) (from to : Text) (froms tos : List Text) (d : Dict EdgeEntry)
    → (from === to) ≡ false
    → Memᴰ from froms
    → Memᴰ to tos
    → carries (connect_all msg froms tos d) (key_of from to) msg.msg_type_constant ≡ true
unfolding connect_all
connect_all-adds msg from to [] tos d ne m n = elim m [ ]
connect_all-adds msg from to (f ∷ froms) tos d ne (Memᴰ.head same) n =
    connect_all-keeps msg froms tos _ _ _ (
      subst (λ x. carries (connect msg x tos d) (key_of from to) msg.msg_type_constant ≡ true) same
        (connect-adds msg from to tos d ne n))
connect_all-adds msg from to (f ∷ froms) tos d ne (Memᴰ.tail m) n =
    connect_all-adds msg from to froms tos _ ne m n

edge_map-keeps :
    (msgs : List MessageInterface) (d : Dict EdgeEntry) (k m : Text)
    → carries d k m ≡ true
    → carries (edge_map msgs d) k m ≡ true
unfolding edge_map
edge_map-keeps [] d k m h = h
edge_map-keeps (msg ∷ msgs) d k m h =
    edge_map-keeps msgs _ k m (connect_all-keeps msg (producers msg) (consumers msg) d k m h)

-- A message with a producer and a consumer in two files has an edge from the one to the other.
pub edge_map-adds :
    (msgs : List MessageInterface) (msg : MessageInterface) (from to : Text) (d : Dict EdgeEntry)
    → Memᴰ msg msgs
    → (from === to) ≡ false
    → Memᴰ from (producers msg)
    → Memᴰ to (consumers msg)
    → carries (edge_map msgs d) (key_of from to) msg.msg_type_constant ≡ true
unfolding edge_map
edge_map-adds [] msg from to d m ne p c = elim m [ ]
edge_map-adds (x ∷ msgs) msg from to d (Memᴰ.head same) ne p c = edge_map-keeps msgs _ _ _ (
    subst
      (λ y.
        carries (connect_all y (producers y) (consumers y) d) (key_of from to) msg.msg_type_constant
        ≡ true)
      same (connect_all-adds msg from to (producers msg) (consumers msg) d ne p c))
edge_map-adds (x ∷ msgs) msg from to d (Memᴰ.tail m) ne p c =
    edge_map-adds msgs msg from to _ m ne p c
