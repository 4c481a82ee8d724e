-- ===== src/Graph/Shape.antt =====
-- Where the edges of src/utils/buildGraph.ts stand in `edgeMap`.
use c_interface_discovery.Prelude.{
  Text, List, [], ◌∷◌, map, Bool, false, ◌===◌, keep, All, ◌≡◌, refl, Bool-cases, Option-cases, inl,
  inr,
}
use c_interface_discovery.Prelude.Dict.{Dict, get, AllEntries, AllEntries-set, AllEntries-get}
use c_interface_discovery.Graph.{
  MsgFileRole, MessageInterface, EdgeEntry, producers, consumers, is_producer, is_consumer, key_of,
  new_edge, with_msg, add_edge, connect, connect_all, edge_map,
}
use c_interface_discovery.Graph.Names.{IsPlainName}

-- An entry stands under the key of its ends, which are two names without an arrow.
pub record IsEdge (k : Text) (e : EdgeEntry) : Type 0 where
  pub key : k ≡ key_of e.source e.target
  pub plain_source : IsPlainName e.source
  pub plain_target : IsPlainName e.target
  pub two_files : (e.source === e.target) ≡ false

add_edge-IsEdge :
    (msg : MessageInterface) (from to : Text) (d : Dict EdgeEntry)
    → IsPlainName from
    → IsPlainName to
    → AllEntries IsEdge d
    → AllEntries IsEdge (add_edge msg from to d)
unfolding add_edge with_msg new_edge
add_edge-IsEdge msg from to d p q h = elim (Bool-cases (from === to)) [
  | inl e ↦ rw (e, add_edge) h
  | inr e ↦ elim (Option-cases (get d (key_of from to))) [
    | inl f ↦
        rw (e, f, add_edge)
          (AllEntries-set IsEdge d _ (new_edge msg from to)
            (record { key = refl; plain_source = p; plain_target = q; two_files = e }) h)
    | inr (entry, f) ↦
        let old = AllEntries-get IsEdge d _ entry h f in
        rw (e, f, add_edge)
          (AllEntries-set IsEdge d _ (with_msg msg.msg_type_constant entry)
            (record {
              key = old.key;
              plain_source = old.plain_source;
              plain_target = old.plain_target;
              two_files = old.two_files;
            })
            h)
  ]
]

connect-IsEdge :
    (msg : MessageInterface) (from : Text) (tos : List Text) (d : Dict EdgeEntry)
    → IsPlainName from
    → All IsPlainName tos
    → AllEntries IsEdge d
    → AllEntries IsEdge (connect msg from tos d)
unfolding connect
connect-IsEdge msg from [] d p q h = h
connect-IsEdge msg from (to ∷ tos) d p (q, qs) h =
    connect-IsEdge msg from tos _ p qs (add_edge-IsEdge msg from to d p q h)

connect_all-IsEdge :
    (msg : MessageInterface) (froms tos : List Text) (d : Dict EdgeEntry)
    → All IsPlainName froms
    → All IsPlainName tos
    → AllEntries IsEdge d
    → AllEntries IsEdge (connect_all msg froms tos d)
unfolding connect_all
connect_all-IsEdge msg [] tos d p q h = h
connect_all-IsEdge msg (f ∷ froms) tos d (p, ps) q h =
    connect_all-IsEdge msg froms tos _ ps q (connect-IsEdge msg f tos d p q h)

-- No file with a role has an arrow in its name.
abbrev pub HasPlainNames : MessageInterface → Type 0
HasPlainNames msg = All (λ r. IsPlainName r.filename) msg.file_roles

pub names-IsPlainName :
    (test : MsgFileRole → Bool) (roles : List MsgFileRole)
    → All (λ r. IsPlainName r.filename) roles
    → All IsPlainName (map (λ r. r.filename) (keep test roles))
names-IsPlainName test [] h = tt
names-IsPlainName test (r ∷ roles) (p, h) = elim (Bool-cases (test r)) [
  | inl e ↦ rw e (p, names-IsPlainName test roles h)
  | inr e ↦ rw e (names-IsPlainName test roles h)
]

pub edge_map-IsEdge :
    (msgs : List MessageInterface) (d : Dict EdgeEntry)
    → All HasPlainNames msgs
    → AllEntries IsEdge d
    → AllEntries IsEdge (edge_map msgs d)
unfolding edge_map producers consumers
edge_map-IsEdge [] d p h = h
edge_map-IsEdge (msg ∷ msgs) d (p, ps) h = edge_map-IsEdge msgs _ ps (
    connect_all-IsEdge msg (producers msg) (consumers msg) d
      (names-IsPlainName (λ r. is_producer r.role) msg.file_roles p)
      (names-IsPlainName (λ r. is_consumer r.role) msg.file_roles p) h)
