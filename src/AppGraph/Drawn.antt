-- ===== src/AppGraph/Drawn.antt =====
-- The edges of src/utils/buildAppGraph.ts are ways of their messages.
use c_interface_discovery.Prelude.{
  Text, List, [], ◌∷◌, Option, none, some, Bool, true, ◌===◌, ===_iff, All, ◌≡◌, refl, sym, ap,
  subst, ◌∙◌, Bool-cases, Option-cases, inl, inr, arith,
}
use c_interface_discovery.Prelude.Dict.{
  Dict, get, IsUnique, IsUnique-set, AllEntries, AllEntries-set, AllEntries-get,
}
use c_interface_discovery.Graph.{MessageInterface, includes_text, key_of}
use c_interface_discovery.Graph.Names.{key_of-inj}
use c_interface_discovery.Graph.Faithful.{Tells, includes_text-push_new}
use c_interface_discovery.AppGraph.Senders.{Analyzed, MsgEntry, add_message, add_messages, msg_map}
use c_interface_discovery.AppGraph.Routes.{
  Hop, AppEdge, hops_of, interface_of, new_app_edge, merge_msg, add_or_merge, add_found, add_hops,
  edge_map,
}
use c_interface_discovery.AppGraph.Paths.{IsPath}
use c_interface_discovery.AppGraph.Erasing.{erase, entry_of, get-erase, set-erase}

module _ (R : Text → Text → Text → Type 0) (R-sym : (a b m : Text) → R a b m → R b a m) where
  add_or_merge-Tells :
      (e : MsgEntry) (h : Hop) (constant : Text) (i : MessageInterface) (confident : Bool)
      (d : Dict AppEdge)
      → IsPath e h
      → R h.from h.to constant
      → AllEntries (Tells R R-sym) (erase d)
      → AllEntries (Tells R R-sym) (erase (add_or_merge h constant i confident d))
  unfolding add_or_merge merge_msg new_app_edge includes_text
  add_or_merge-Tells e h constant i confident d p r t =
      elim (Option-cases (get d (key_of h.from h.to))) [
        | inl f ↦
            rw (f, add_or_merge, set-erase)
              (AllEntries-set (Tells R R-sym) (erase d) _ _
                (
                  record {
                    key = refl;
                    plain_source = p.plain_from;
                    plain_target = p.plain_to;
                    two_files = p.two_apps;
                  },
                  λ m q. subst (R h.from h.to) ((===_iff constant m).0 (ground (arith, q))) r,
                )
                t)
        | inr (x, f) ↦
            let (was, told) =
              AllEntries-get (Tells R R-sym) (erase d) _ x.entry t
                (get-erase d _ ∙ ap entry_of f) in
            rw (f, add_or_merge, set-erase)
              (AllEntries-set (Tells R R-sym) (erase d) _ _
                (
                  record {
                    key = was.key;
                    plain_source = was.plain_source;
                    plain_target = was.plain_target;
                    two_files = was.two_files;
                  },
                  λ m q. elim (Bool-cases (includes_text x.entry.msg_types m)) [
                    | inl o ↦ told m o
                    | inr o ↦
                        let here : (constant === m) ≡ true =
                          ground
                            (arith, q, o, includes_text-push_new x.entry.msg_types constant m) in
                        let (from, to) =
                          key_of-inj x.entry.source x.entry.target h.from h.to was.plain_source
                            p.plain_from (sym was.key) in
                        subst (λ y. R y x.entry.target m) (sym from)
                          (subst (λ y. R h.from y m) (sym to)
                            (subst (R h.from h.to) ((===_iff constant m).0 here) r))
                  ],
                )
                t)
      ]

  add_found-Tells :
      (e : MsgEntry) (h : Hop) (constant : Text) (o : Option MessageInterface) (confident : Bool)
      (d : Dict AppEdge)
      → IsPath e h
      → R h.from h.to constant
      → AllEntries (Tells R R-sym) (erase d)
      → AllEntries (Tells R R-sym) (erase (add_found o h constant confident d))
  unfolding add_found
  add_found-Tells e h constant none confident d p r t = t
  add_found-Tells e h constant (some i) confident d p r t =
      add_or_merge-Tells e h constant i confident d p r t

  -- The pairs of a message are ways that the relation allows.
  abbrev pub IsAllowed : Text → MsgEntry → Type 0
  IsAllowed m e = All (λ h. IsPath e h × R h.from h.to m) (hops_of e)

  add_hops-Tells :
      (constant : Text) (e : MsgEntry) (hs : List Hop) (d : Dict AppEdge)
      → All (λ h. IsPath e h × R h.from h.to constant) hs
      → AllEntries (Tells R R-sym) (erase d)
      → AllEntries (Tells R R-sym) (erase (add_hops constant e hs d))
  unfolding add_hops
  add_hops-Tells constant e [] d ps t = t
  add_hops-Tells constant e (h ∷ hs) d ((p, r), ps) t =
      add_hops-Tells constant e hs _ ps
        (add_found-Tells e h constant (interface_of e h) e.confident d p r t)

  pub edge_map-Tells :
      (entries : Dict MsgEntry) (d : Dict AppEdge)
      → AllEntries IsAllowed entries
      → AllEntries (Tells R R-sym) (erase d)
      → AllEntries (Tells R R-sym) (erase (edge_map entries d))
  unfolding edge_map
  edge_map-Tells [] d ps t = t
  edge_map-Tells ((constant, e) ∷ entries) d (p, ps) t =
      edge_map-Tells entries _ ps (add_hops-Tells constant e (hops_of e) d p t)

-- A message has one entry.
add_messages-IsUnique :
    (id : Text) (msgs : List MessageInterface) (d : Dict MsgEntry)
    → IsUnique d
    → IsUnique (add_messages id msgs d)
unfolding add_messages add_message
add_messages-IsUnique id [] d u = u
add_messages-IsUnique id (msg ∷ msgs) d u =
    add_messages-IsUnique id msgs _ (IsUnique-set d msg.msg_type_constant _ u)

pub msg_map-IsUnique :
    (groups : List Analyzed) (d : Dict MsgEntry) → IsUnique d → IsUnique (msg_map groups d)
unfolding msg_map
msg_map-IsUnique [] d u = u
msg_map-IsUnique (g ∷ groups) d u =
    msg_map-IsUnique groups _ (add_messages-IsUnique g.id g.messages d u)
