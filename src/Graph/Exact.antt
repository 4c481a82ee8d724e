-- ===== src/Graph/Exact.antt =====
-- The edges of src/utils/buildGraph.ts are exactly the messages between two files.
use mathlib.Core.List.{Memᴰ}
use c_interface_discovery.Prelude.{
  Text, List, [], ◌∷◌, map, false, ◌===◌, All, All-mem, ◌≡◌, ◌⊎◌, ◌↔◌, refl, sym, subst, ◌∙◌, inl,
  inr,
}
use c_interface_discovery.Graph.{
  MessageInterface, FileAnalysis, key_of, producers, consumers, is_producer, is_consumer, edge_map,
  collapsed, build_graph,
}
use c_interface_discovery.Graph.Names.{IsPlainName, key_of-inj}
use c_interface_discovery.Graph.Shape.{HasPlainNames, names-IsPlainName}
use c_interface_discovery.Graph.Faithful.{Tells, collapse-Tells}
use c_interface_discovery.Graph.Kept.{IsConnected, build_graph-IsConnected}
use c_interface_discovery.Graph.Drawn.{IsAllowed, edge_map-Tells, delete_all-Tells, assemble-Tells}

-- A message with this constant that one file produces and another consumes.
pub record IsSent (msgs : List MessageInterface) (from to m : Text) : Type 0 where
  pub msg : MessageInterface
  pub listed : Memᴰ msg msgs
  pub constant : msg.msg_type_constant ≡ m
  pub producer : Memᴰ from (producers msg)
  pub consumer : Memᴰ to (consumers msg)
  pub two_files : (from === to) ≡ false

All-of_Memᴰ : {A : Type 0} {P : A → Type 0} (xs : List A) → ((x : A) → Memᴰ x xs → P x) → All P xs
All-of_Memᴰ [] h = tt
All-of_Memᴰ (x ∷ xs) h = (h x (Memᴰ.head refl), All-of_Memᴰ xs (λ y m. h y (Memᴰ.tail m)))

module _ (msgs : List MessageInterface) (plain : All HasPlainNames msgs) where
  abbrev Passes : Text → Text → Text → Type 0
  Passes a b m = IsSent msgs a b m ⊎ IsSent msgs b a m

  Passes-sym : (a b m : Text) → Passes a b m → Passes b a m
  Passes-sym a b m (inl s) = inr s
  Passes-sym a b m (inr s) = inl s

  names :
      (msg : MessageInterface)
      → Memᴰ msg msgs
      → All IsPlainName (producers msg) × All IsPlainName (consumers msg)
  unfolding producers consumers
  names msg listed =
      let roles = All-mem HasPlainNames msgs plain listed in
      (
        names-IsPlainName (λ r. is_producer r.role) msg.file_roles roles,
        names-IsPlainName (λ r. is_consumer r.role) msg.file_roles roles,
      )

  messages-IsAllowed :
      All
        (λ msg.
          All (λ from. All (IsAllowed Passes Passes-sym msg from) (consumers msg)) (producers msg))
        msgs
  messages-IsAllowed = All-of_Memᴰ msgs (λ msg listed.
      let (froms, tos) = names msg listed in
      All-of_Memᴰ (producers msg) (λ from p. All-of_Memᴰ (consumers msg) (λ to c. (
        (All-mem IsPlainName (producers msg) froms p, All-mem IsPlainName (consumers msg) tos c),
        λ two. inl (record {
          msg = msg;
          listed = listed;
          constant = refl;
          producer = p;
          consumer = c;
          two_files = two;
        }),
      ))))

  edges_told :
      (files : List FileAnalysis)
      → All (λ e. Tells Passes Passes-sym e.id e.entry) (build_graph files msgs).edges
  unfolding build_graph collapsed
  edges_told files =
      let edges = edge_map msgs [] in
      let keys = map {B = Text} (λ e. e.0) edges in
      assemble-Tells Passes Passes-sym _ _ (
        delete_all-Tells Passes Passes-sym _ _ (
          collapse-Tells Passes Passes-sym keys (record { edges = edges; dropped = [] })
            (edge_map-Tells Passes Passes-sym msgs [] messages-IsAllowed tt)))

  IsConnected-Passes :
      (files : List FileAnalysis) (a b m : Text)
      → IsPlainName a
      → IsPlainName b
      → IsConnected (build_graph files msgs).edges a b m
      → Passes a b m
  IsConnected-Passes files a b m p q c =
      let (shape, tells) =
        All-mem (λ e. Tells Passes Passes-sym e.id e.entry) (build_graph files msgs).edges
          (edges_told files) c.listed in
      elim c.ends [
        | inl k ↦ between _ _ _ a b p k shape.key shape.plain_source (tells m c.carries_it)
        | inr k ↦
            Passes-sym b a m
              (between _ _ _ b a q k shape.key shape.plain_source (tells m c.carries_it))
      ]
    where
      between :
          (from to id x y : Text)
          → IsPlainName x
          → id ≡ key_of x y
          → id ≡ key_of from to
          → IsPlainName from
          → Passes from to m
          → Passes x y m
      between from to id x y px k e pf r =
          let (s, t) = key_of-inj from to x y pf px (sym e ∙ k) in
          subst (λ z. Passes x z m) t (subst (λ z. Passes z to m) s r)

  IsSent-IsConnected :
      (files : List FileAnalysis) (a b m : Text)
      → IsSent msgs a b m
      → IsConnected (build_graph files msgs).edges a b m
  IsSent-IsConnected files a b m s =
      subst (IsConnected (build_graph files msgs).edges a b) s.constant (
        build_graph-IsConnected files msgs plain s.msg a b s.listed s.producer s.consumer
          s.two_files)

  -- If no name of a file with a role, nor `a` or `b`, holds the arrow that joins the names in a key,
  -- then an edge between `a` and `b` carries a message exactly if one of the two files produces it and
  -- the other, a different file, consumes it: collapsing reciprocal pairs loses none and adds none.
  pub build_graph_iff :
      (files : List FileAnalysis) (a b m : Text)
      → IsPlainName a
      → IsPlainName b
      → IsConnected (build_graph files msgs).edges a b m ↔ (IsSent msgs a b m ⊎ IsSent msgs b a m)
  build_graph_iff files a b m p q = (
    IsConnected-Passes files a b m p q,
    λ s. elim s [
      | inl there ↦ IsSent-IsConnected files a b m there
      | inr back ↦ other_end (IsSent-IsConnected files b a m back)
    ],
  )
    where
      other_end :
          IsConnected (build_graph files msgs).edges b a m
          → IsConnected (build_graph files msgs).edges a b m
      other_end c = record {
        edge = c.edge;
        listed = c.listed;
        carries_it = c.carries_it;
        ends = elim c.ends [ inl k ↦ inr k | inr k ↦ inl k ];
      }
