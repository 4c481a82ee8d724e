-- ===== src/AppGraph/Carrying.antt =====
-- The edges of src/utils/buildAppGraph.ts before pairs are collapsed: which messages they carry.
use mathlib.Core.List.{Memᴰ}
use c_interface_discovery.Prelude.{
  Text, List, [], ◌∷◌, Option, none, some, Bool, true, false, ◌===◌, ===_iff, All, ◌≡◌, refl, sym,
  ap, subst, ◌∙◌, Bool-cases, Option-cases, inl, inr, arith,
}
use c_interface_discovery.Prelude.Dict.{
  Dict, get, has, has-get, AllEntries, AllEntries-set, AllEntries-get,
}
use c_interface_discovery.Graph.{MessageInterface, EdgeEntry, includes_text, push_new, key_of}
use c_interface_discovery.Graph.Names.{
  includes-push_new, includes-push_new_mono, carries, carries-set_same, carries-set,
}
use c_interface_discovery.Graph.Shape.{IsEdge}
use c_interface_discovery.AppGraph.Senders.{MsgEntry}
use c_interface_discovery.AppGraph.Routes.{
  Hop, AppEdge, hops_of, or_else, interface_of, new_app_edge, merge_msg, add_or_merge, add_found,
  add_hops, edge_map,
}
use c_interface_discovery.AppGraph.Ready.{IsReady}
use c_interface_discovery.AppGraph.Paths.{IsPath, hops_of-IsPath}
use c_interface_discovery.AppGraph.Erasing.{erase, entry_of, get-erase, set-erase}

-- An edge under the key carries the message.
abbrev pub Carries : Dict AppEdge → Text → Text → Type 0
Carries d k m = carries (erase d) k m ≡ true

module _ (h : Hop) (constant : Text) (i : MessageInterface) (confident : Bool) where
  add_or_merge-keeps :
      (d : Dict AppEdge) (k m : Text)
      → Carries d k m
      → Carries (add_or_merge h constant i confident d) k m
  unfolding add_or_merge merge_msg
  add_or_merge-keeps d k m c = elim (Option-cases (get d (key_of h.from h.to))) [
    | inl f ↦
        let g : get (erase d) (key_of h.from h.to) ≡ none = get-erase d _ ∙ ap entry_of f in
        rw (f, add_or_merge, set-erase)
          (carries-set (erase d) _ k m _ (λ old q _. absurd (cc (g, q))) c)
    | inr (x, f) ↦
        let g : get (erase d) (key_of h.from h.to) ≡ some x.entry = get-erase d _ ∙ ap entry_of f in
        rw (f, add_or_merge, set-erase)
          (carries-set (erase d) _ k m _
            (λ old q c. includes-push_new_mono x.entry.msg_types constant m (
              let same : old ≡ x.entry = ground (arith, g, q) in
              subst (λ (y : EdgeEntry). includes_text y.msg_types m ≡ true) same c))
            c)
  ]

  add_or_merge-adds :
      (d : Dict AppEdge)
      → Carries (add_or_merge h constant i confident d) (key_of h.from h.to) constant
  unfolding add_or_merge merge_msg new_app_edge includes_text push_new
  add_or_merge-adds d = elim (Option-cases (get d (key_of h.from h.to))) [
    | inl f ↦
        rw (f, add_or_merge, set-erase)
          (carries-set_same (erase d) _ constant (new_app_edge h constant i confident).entry
            (includes-push_new [] constant))
    | inr (x, f) ↦
        rw (f, add_or_merge, set-erase)
          (carries-set_same (erase d) _ constant (merge_msg constant i confident x).entry
            (includes-push_new x.entry.msg_types constant))
  ]

  add_or_merge-IsEdge :
      (e : MsgEntry) (d : Dict AppEdge)
      → IsPath e h
      → AllEntries IsEdge (erase d)
      → AllEntries IsEdge (erase (add_or_merge h constant i confident d))
  unfolding add_or_merge merge_msg new_app_edge
  add_or_merge-IsEdge e d p shape = elim (Option-cases (get d (key_of h.from h.to))) [
    | inl f ↦
        rw (f, add_or_merge, set-erase)
          (AllEntries-set IsEdge (erase d) _ _
            (record {
              key = refl;
              plain_source = p.plain_from;
              plain_target = p.plain_to;
              two_files = p.two_apps;
            })
            shape)
    | inr (x, f) ↦
        let old = AllEntries-get IsEdge (erase d) _ x.entry shape (get-erase d _ ∙ ap entry_of f) in
        rw (f, add_or_merge, set-erase)
          (AllEntries-set IsEdge (erase d) _ _
            (record {
              key = old.key;
              plain_source = old.plain_source;
              plain_target = old.plain_target;
              two_files = old.two_files;
            })
            shape)
  ]

add_found-keeps :
    (h : Hop) (constant : Text) (confident : Bool) (o : Option MessageInterface) (d : Dict AppEdge)
    (k m : Text)
    → Carries d k m
    → Carries (add_found o h constant confident d) k m
unfolding add_found
add_found-keeps h constant confident none d k m c = c
add_found-keeps h constant confident (some i) d k m c =
    add_or_merge-keeps h constant i confident d k m c

add_found-IsEdge :
    (e : MsgEntry) (h : Hop) (constant : Text) (confident : Bool) (o : Option MessageInterface)
    (d : Dict AppEdge)
    → IsPath e h
    → AllEntries IsEdge (erase d)
    → AllEntries IsEdge (erase (add_found o h constant confident d))
unfolding add_found
add_found-IsEdge e h constant confident none d p shape = shape
add_found-IsEdge e h constant confident (some i) d p shape =
    add_or_merge-IsEdge h constant i confident e d p shape

-- A sender has an interface, so its pair is not skipped.
add_found-adds :
    (e : MsgEntry) (h : Hop) (constant : Text) (d : Dict AppEdge)
    → IsPath e h
    → Carries (add_found (interface_of e h) h constant e.confident d) (key_of h.from h.to) constant
unfolding add_found interface_of or_else
add_found-adds e h constant d p = elim (Option-cases (get e.interfaces h.from)) [
  | inl f ↦
      let no : has e.interfaces h.from ≡ false = rw (has-get e.interfaces h.from, f) refl in
      absurd (cc (p.interface, no))
  | inr (i, f) ↦ rw (f, interface_of) (add_or_merge-adds h constant i e.confident d)
]

add_hops-keeps :
    (constant : Text) (e : MsgEntry) (hs : List Hop) (d : Dict AppEdge) (k m : Text)
    → Carries d k m
    → Carries (add_hops constant e hs d) k m
unfolding add_hops
add_hops-keeps constant e [] d k m c = c
add_hops-keeps constant e (h ∷ hs) d k m c =
    add_hops-keeps constant e hs _ k m
      (add_found-keeps h constant e.confident (interface_of e h) d k m c)

add_hops-IsEdge :
    (constant : Text) (e : MsgEntry) (hs : List Hop) (d : Dict AppEdge)
    → All (IsPath e) hs
    → AllEntries IsEdge (erase d)
    → AllEntries IsEdge (erase (add_hops constant e hs d))
unfolding add_hops
add_hops-IsEdge constant e [] d ps shape = shape
add_hops-IsEdge constant e (h ∷ hs) d (p, ps) shape =
    add_hops-IsEdge constant e hs _ ps
      (add_found-IsEdge e h constant e.confident (interface_of e h) d p shape)

add_hops-adds :
    (constant : Text) (e : MsgEntry) (h : Hop) (hs : List Hop) (d : Dict AppEdge)
    → All (IsPath e) hs
    → Memᴰ h hs
    → Carries (add_hops constant e hs d) (key_of h.from h.to) constant
unfolding add_hops
add_hops-adds constant e h [] d ps m = elim m [ ]
add_hops-adds constant e h (x ∷ hs) d (p, ps) (Memᴰ.head same) =
    add_hops-keeps constant e hs _ _ constant (
      subst
        (λ (y : Hop).
          Carries (add_found (interface_of e x) x constant e.confident d) (key_of y.from y.to)
            constant)
        (sym same) (add_found-adds e x constant d p))
add_hops-adds constant e h (x ∷ hs) d (p, ps) (Memᴰ.tail m) = add_hops-adds constant e h hs _ ps m

edge_map-keeps :
    (entries : Dict MsgEntry) (d : Dict AppEdge) (k m : Text)
    → Carries d k m
    → Carries (edge_map entries d) k m
unfolding edge_map
edge_map-keeps [] d k m c = c
edge_map-keeps ((constant, e) ∷ entries) d k m c =
    edge_map-keeps entries _ k m (add_hops-keeps constant e (hops_of e) d k m c)

pub edge_map-IsEdge :
    (entries : Dict MsgEntry) (d : Dict AppEdge)
    → AllEntries IsReady entries
    → AllEntries IsEdge (erase d)
    → AllEntries IsEdge (erase (edge_map entries d))
unfolding edge_map
edge_map-IsEdge [] d ready shape = shape
edge_map-IsEdge ((constant, e) ∷ entries) d (r, ready) shape =
    edge_map-IsEdge entries _ ready
      (add_hops-IsEdge constant e (hops_of e) d (hops_of-IsPath constant e r) shape)

-- A pair of the entry of a message has an edge that carries it.
pub edge_map-adds :
    (entries : Dict MsgEntry) (d : Dict AppEdge) (m : Text) (e : MsgEntry) (h : Hop)
    → AllEntries IsReady entries
    → get entries m ≡ some e
    → Memᴰ h (hops_of e)
    → Carries (edge_map entries d) (key_of h.from h.to) m
unfolding edge_map get
edge_map-adds [] d m e h ready f mem = absurd (cc f)
edge_map-adds ((constant, x) ∷ entries) d m e h (r, ready) f mem =
    elim (Bool-cases (constant === m)) [
      | inr other ↦ edge_map-adds entries _ m e h ready (rw (other, get) at f) mem
      | inl here ↦
          let same : x ≡ e = ground (arith, here, f) in
          edge_map-keeps entries _ _ m (
            subst (λ c. Carries (add_hops constant x (hops_of x) d) (key_of h.from h.to) c)
              ((===_iff constant m).0 here)
              (add_hops-adds constant x h (hops_of x) d (hops_of-IsPath constant x r)
                (subst (λ (y : MsgEntry). Memᴰ h (hops_of y)) (sym same) mem)))
    ]
