-- ===== src/Graph/Drawn.antt =====
-- The edges of src/utils/buildGraph.ts carry the messages between their ends.
use c_interface_discovery.Prelude.{
  Text, List, [], ◌∷◌, false, true, ◌===◌, ===_iff, All, ◌≡◌, refl, sym, subst, Bool-cases,
  Option-cases, inl, inr, arith,
}
use c_interface_discovery.Prelude.Dict.{
  Dict, get, delete, AllEntries, AllEntries-set, AllEntries-get, AllEntries-delete,
}
use c_interface_discovery.Graph.{
  MessageInterface, EdgeEntry, includes_text, key_of, producers, consumers, new_edge, with_msg,
  add_edge, connect, connect_all, edge_map, delete_all, assemble, msg_edge,
}
use c_interface_discovery.Graph.Names.{IsPlainName, key_of-inj}
use c_interface_discovery.Graph.Faithful.{Tells, includes_text-push_new}

module _ (R : Text → Text → Text → Type 0) (R-sym : (a b m : Text) → R a b m → R b a m) where
  -- The ends are names without an arrow, and the message may pass between them if they are two.
  abbrev pub IsAllowed : MessageInterface → Text → Text → Type 0
  IsAllowed msg from to =
      (IsPlainName from × IsPlainName to)
      × ((from === to) ≡ false → R from to msg.msg_type_constant)

  add_edge-Tells :
      (msg : MessageInterface) (from to : Text) (d : Dict EdgeEntry)
      → IsAllowed msg from to
      → AllEntries (Tells R R-sym) d
      → AllEntries (Tells R R-sym) (add_edge msg from to d)
  unfolding add_edge with_msg new_edge includes_text
  add_edge-Tells msg from to d ((p, q), r) t = elim (Bool-cases (from === to)) [
    | inl e ↦ rw (e, add_edge) t
    | inr e ↦ elim (Option-cases (get d (key_of from to))) [
      | inl f ↦
          rw (e, f, add_edge)
            (AllEntries-set (Tells R R-sym) d _ _
              (
                record { key = refl; plain_source = p; plain_target = q; two_files = e },
                λ m h.
                    subst (R from to) ((===_iff msg.msg_type_constant m).0 (ground (arith, h)))
                      (r e),
              )
              t)
      | inr (x, f) ↦
          let (was, told) = AllEntries-get (Tells R R-sym) d _ x t f in
          rw (e, f, add_edge)
            (AllEntries-set (Tells R R-sym) d _ _
              (
                record {
                  key = was.key;
                  plain_source = was.plain_source;
                  plain_target = was.plain_target;
                  two_files = was.two_files;
                },
                λ m h. elim (Bool-cases (includes_text x.msg_types m)) [
                  | inl o ↦ told m o
                  | inr o ↦
                      let here : (msg.msg_type_constant === m) ≡ true =
                        ground (
                          arith,
                          h,
                          o,
                          includes_text-push_new x.msg_types msg.msg_type_constant m,
                        ) in
                      let (source, target) =
                        key_of-inj x.source x.target from to was.plain_source p (sym was.key) in
                      subst (λ y. R y x.target m) (sym source)
                        (subst (λ y. R from y m) (sym target)
                          (subst (R from to) ((===_iff msg.msg_type_constant m).0 here) (r e)))
                ],
              )
              t)
    ]
  ]

  connect-Tells :
      (msg : MessageInterface) (from : Text) (tos : List Text) (d : Dict EdgeEntry)
      → All (IsAllowed msg from) tos
      → AllEntries (Tells R R-sym) d
      → AllEntries (Tells R R-sym) (connect msg from tos d)
  unfolding connect
  connect-Tells msg from [] d a t = t
  connect-Tells msg from (to ∷ tos) d (a, more) t =
      connect-Tells msg from tos _ more (add_edge-Tells msg from to d a t)

  connect_all-Tells :
      (msg : MessageInterface) (froms tos : List Text) (d : Dict EdgeEntry)
      → All (λ from. All (IsAllowed msg from) tos) froms
      → AllEntries (Tells R R-sym) d
      → AllEntries (Tells R R-sym) (connect_all msg froms tos d)
  unfolding connect_all
  connect_all-Tells msg [] tos d a t = t
  connect_all-Tells msg (f ∷ froms) tos d (a, more) t =
      connect_all-Tells msg froms tos _ more (connect-Tells msg f tos d a t)

  pub edge_map-Tells :
      (msgs : List MessageInterface) (d : Dict EdgeEntry)
      → All (λ msg. All (λ from. All (IsAllowed msg from) (consumers msg)) (producers msg)) msgs
      → AllEntries (Tells R R-sym) d
      → AllEntries (Tells R R-sym) (edge_map msgs d)
  unfolding edge_map
  edge_map-Tells [] d a t = t
  edge_map-Tells (msg ∷ msgs) d (a, more) t =
      edge_map-Tells msgs _ more (connect_all-Tells msg (producers msg) (consumers msg) d a t)

  pub delete_all-Tells :
      (keys : List Text) (d : Dict EdgeEntry)
      → AllEntries (Tells R R-sym) d
      → AllEntries (Tells R R-sym) (delete_all keys d)
  unfolding delete_all
  delete_all-Tells [] d t = t
  delete_all-Tells (key ∷ keys) d t =
      delete_all-Tells keys (delete d key) (AllEntries-delete (Tells R R-sym) d key t)

  pub assemble-Tells :
      (dropped : List Text) (d : Dict EdgeEntry)
      → AllEntries (Tells R R-sym) d
      → All (λ e. Tells R R-sym e.id e.entry) (assemble dropped d)
  unfolding assemble msg_edge
  assemble-Tells dropped [] t = tt
  assemble-Tells dropped ((k, e) ∷ d) (t, ts) = (t, assemble-Tells dropped d ts)
