-- ===== src/AppGraph/Exact.antt =====
-- The edges of src/utils/buildAppGraph.ts are exactly the ways of the messages.
use c_interface_discovery.Prelude.{
  Text, List, [], ◌∷◌, map, some, Bool, false, ◌&&◌, any, keep, All, All-mem, All-mono, ◌≡◌, ◌⊎◌,
  ◌↔◌, refl, sym, ap, subst, ◌∙◌, inl, inr, arith,
}
use c_interface_discovery.Prelude.Dict.{
  Dict, get, delete, entries-get, AllEntries, AllEntries-delete,
}
use c_interface_discovery.Graph.{Pairs, includes_text, key_of}
use c_interface_discovery.Graph.Names.{IsPlainName, key_of-inj}
use c_interface_discovery.Graph.Members.{includes_text-keep}
use c_interface_discovery.Graph.Faithful.{Tells, collapse-Tells}
use c_interface_discovery.AppGraph.Senders.{Analyzed, MsgEntry, entry_or_empty, msg_map}
use c_interface_discovery.AppGraph.Routes.{Hop, AppEdge, transit_ids, hops_of, edge_map}
use c_interface_discovery.AppGraph.Pairs.{delete_all}
use c_interface_discovery.AppGraph.{
  Group, AppNode, CrossAppEdge, analyzed_groups, cross_app_edge, collapsed, edges_of, graph_of,
  build_app_graph,
}
use c_interface_discovery.AppGraph.Entries.{
  sends, receives, entry_at, msg_map-sends, msg_map-receives,
}
use c_interface_discovery.AppGraph.Ready.{IsReady, msg_map-IsReady}
use c_interface_discovery.AppGraph.Paths.{IsPath, hops_of-IsPath}
use c_interface_discovery.AppGraph.Erasing.{erase, delete-erase, collapse_apps-erase}
use c_interface_discovery.AppGraph.Routed.{IsRoute, IsLinked, has_broker, build_app_graph-IsLinked}
use c_interface_discovery.AppGraph.Drawn.{IsAllowed, edge_map-Tells, msg_map-IsUnique}

any-none :
    (p : Text → Bool) (groups : List Analyzed)
    → ((id : Text) → p id ≡ false)
    → any (λ g. p g.id) groups ≡ false
any-none p [] h = refl
any-none p (g ∷ groups) h = rw (h g.id) (any-none p groups h)

module _ (groups : List Analyzed) where
  no_broker_left :
      (m : Text) → transit_ids (entry_at (msg_map groups []) m) ≡ [] → has_broker groups m ≡ false
  unfolding transit_ids includes_text
  no_broker_left m h =
      let e = entry_at (msg_map groups []) m in
      any-none (λ id. sends groups m id && receives groups m id) groups
        (λ id.
          let out : includes_text (keep (includes_text e.consumers) e.producers) id ≡ false =
            ap (λ xs. includes_text xs id) h in
          ground (
            arith,
            out,
            includes_text-keep (includes_text e.consumers) e.producers id,
            msg_map-sends groups m id,
            msg_map-receives groups m id,
          ))

  IsPath-IsRoute :
      (m : Text) (h : Hop)
      → IsPath (entry_at (msg_map groups []) m) h
      → IsRoute groups m h.from h.to
  IsPath-IsRoute m h p = record {
    sender = sym (msg_map-sends groups m h.from) ∙ p.sender;
    receiver = sym (msg_map-receives groups m h.to) ∙ p.receiver;
    one_end =
        ground (arith, p.one_end, msg_map-receives groups m h.from, msg_map-sends groups m h.to);
    way = elim p.way [
      | inl w ↦ inl (sym (msg_map-receives groups m h.from) ∙ w)
      | inr (inl w) ↦ inr (inl (sym (msg_map-sends groups m h.to) ∙ w))
      | inr (inr w) ↦ inr (inr (no_broker_left m w))
    ];
  }

  -- The message goes from the one to the other, or back.
  abbrev Passes : Text → Text → Text → Type 0
  Passes a b m = IsRoute groups m a b ⊎ IsRoute groups m b a

  Passes-sym : (a b m : Text) → Passes a b m → Passes b a m
  Passes-sym a b m (inl r) = inr r
  Passes-sym a b m (inr r) = inl r

  entries-IsAllowed :
      (entries : Dict MsgEntry)
      → AllEntries IsReady entries
      → All (λ e. get (msg_map groups []) e.0 ≡ some e.1) entries
      → AllEntries (IsAllowed Passes Passes-sym) entries
  unfolding entry_or_empty
  entries-IsAllowed [] r u = tt
  entries-IsAllowed ((m, e) ∷ entries) (r, rs) (u, us) =
      let same : entry_at (msg_map groups []) m ≡ e = ap entry_or_empty u in
      (
        All-mono
            (λ h p.
              (p, inl (IsPath-IsRoute m h (subst (λ (x : MsgEntry). IsPath x h) (sym same) p))))
            (hops_of e) (hops_of-IsPath m e r),
        entries-IsAllowed entries rs us,
      )

  collapsed-Tells :
      All (λ g. IsPlainName g.id) groups
      → AllEntries (Tells Passes Passes-sym) (erase (collapsed (msg_map groups [])).edges)
  unfolding collapsed
  collapsed-Tells plain =
      let d = msg_map groups [] in
      let edges = edge_map d [] in
      let keys = map {B = Text} (λ e. e.0) edges in
      let allowed =
        entries-IsAllowed d (msg_map-IsReady groups [] plain tt)
          (entries-get d (msg_map-IsUnique groups [] tt)) in
      subst (λ (st : Pairs). AllEntries (Tells Passes Passes-sym) st.edges)
        (sym (collapse_apps-erase keys (record { edges = edges; dropped = [] })))
        (collapse-Tells Passes Passes-sym keys (record { edges = erase edges; dropped = [] })
          (edge_map-Tells Passes Passes-sym d [] allowed tt))

  delete_all-Tells :
      (keys : List Text) (d : Dict AppEdge)
      → AllEntries (Tells Passes Passes-sym) (erase d)
      → AllEntries (Tells Passes Passes-sym) (erase (delete_all keys d))
  unfolding delete_all
  delete_all-Tells [] d t = t
  delete_all-Tells (key ∷ keys) d t =
      delete_all-Tells keys (delete d key)
        (rw delete-erase (AllEntries-delete (Tells Passes Passes-sym) (erase d) key t))

  edges-Tell :
      (dropped : List Text) (d : Dict AppEdge)
      → AllEntries (Tells Passes Passes-sym) (erase d)
      → All
          (λ c. Tells Passes Passes-sym c.id c.edge.entry)
          (map (λ e. cross_app_edge dropped e.0 e.1) d)
  unfolding cross_app_edge
  edges-Tell dropped [] t = tt
  edges-Tell dropped ((k, x) ∷ d) (t, ts) = (t, edges-Tell dropped d ts)

  IsLinked-Passes :
      (a b m : Text)
      → All (λ g. IsPlainName g.id) groups
      → IsPlainName a
      → IsPlainName b
      → IsLinked (edges_of (collapsed (msg_map groups []))) a b m
      → Passes a b m
  unfolding edges_of
  IsLinked-Passes a b m plain p q l =
      let st = collapsed (msg_map groups []) in
      let d = delete_all st.dropped st.edges in
      let told =
        All-mem (λ c. Tells Passes Passes-sym c.id c.edge.entry)
          (map (λ e. cross_app_edge st.dropped e.0 e.1) d)
          (edges-Tell st.dropped d (delete_all-Tells st.dropped st.edges (collapsed-Tells plain)))
          l.listed in
      let passes = told.1 m l.carries_it in
      elim l.ends [
        | inl k ↦ between a b p (told.0.key) k told.0.plain_source passes
        | inr k ↦ Passes-sym b a m (between b a q (told.0.key) k told.0.plain_source passes)
      ]
    where
      between :
          {from to id : Text} (x y : Text)
          → IsPlainName x
          → id ≡ key_of from to
          → id ≡ key_of x y
          → IsPlainName from
          → Passes from to m
          → Passes x y m
      between {from} {to} x y px e k pf r =
          let (s, t) = key_of-inj from to x y pf px (sym e ∙ k) in
          subst (λ z. Passes x z m) t (subst (λ z. Passes z to m) s r)

graph_of-Passes :
    (nodes : Dict AppNode) (groups : List Analyzed) (a b m : Text)
    → All (λ g. IsPlainName g.id) groups
    → IsPlainName a
    → IsPlainName b
    → IsLinked (graph_of nodes groups).edges a b m
    → Passes groups a b m
unfolding graph_of
graph_of-Passes nodes [] a b m plain p q l = elim l.listed [ ]
graph_of-Passes nodes (g ∷ groups) a b m plain p q l =
    IsLinked-Passes (g ∷ groups) a b m plain p q l

other_end : (edges : List CrossAppEdge) (a b m : Text) → IsLinked edges b a m → IsLinked edges a b m
other_end edges a b m l = record {
  edge = l.edge;
  listed = l.listed;
  carries_it = l.carries_it;
  ends = elim l.ends [ inl k ↦ inr k | inr k ↦ inl k ];
}

-- If no identifier of an analyzed application, nor `a` or `b`, holds the arrow that joins them in a
-- key, then an edge between `a` and `b` carries a message exactly if the message goes straight from the
-- one to the other by the analyses: the one sends it and the other receives it, not both pass it on,
-- and one of them does if any application does. No message is lost where reciprocal pairs are
-- collapsed, and no edge skips the applications that pass it on.
pub build_app_graph_iff :
    (groups : List Group) (a b m : Text)
    → All (λ g. IsPlainName g.id) (analyzed_groups groups)
    → IsPlainName a
    → IsPlainName b
    → IsLinked (build_app_graph groups).edges a b m
      ↔ (IsRoute (analyzed_groups groups) m a b ⊎ IsRoute (analyzed_groups groups) m b a)
unfolding build_app_graph
build_app_graph_iff groups a b m plain p q = (
  graph_of-Passes _ (analyzed_groups groups) a b m plain p q,
  λ r. elim r [
    | inl way ↦ build_app_graph-IsLinked groups m a b plain way
    | inr way ↦ other_end _ a b m (build_app_graph-IsLinked groups m b a plain way)
  ],
)
