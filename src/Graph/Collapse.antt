-- ===== src/Graph/Collapse.antt =====
-- Collapsing reciprocal pairs in src/utils/buildGraph.ts loses no message.
use c_interface_discovery.Prelude.{
  Text, List, [], ◌∷◌, ◌++◌, some, true, false, not, ◌&&◌, ◌===◌, ===_iff, ◌≡◌, ◌⊎◌, refl, sym,
  subst, ◌∙◌, Bool-cases, Option-cases, inl, inr, arith,
}
use c_interface_discovery.Prelude.Dict.{
  Dict, get, has, has-get, AllEntries, AllEntries-set, AllEntries-get,
}
use c_interface_discovery.Graph.{
  EdgeEntry, Pairs, includes_text, push_new, key_of, update, merge, collapse_edge, collapse_step,
  collapse,
}
use c_interface_discovery.Graph.Names.{
  IsPlainName, key_of-inj, includes-push_all, includes-push_all_mono, carried, carries,
  carries-set_same, carries-set,
}
use c_interface_discovery.Graph.Shape.{IsEdge}

includes-push_new_other :
    (xs : List Text) (x y : Text)
    → includes_text xs y ≡ false
    → (x === y) ≡ false
    → includes_text (push_new xs x) y ≡ false
unfolding push_new includes_text
includes-push_new_other xs x y h ne = elim (Bool-cases (includes_text xs x)) [
  | inl e ↦ rw (e, push_new) h
  | inr e ↦ rw (e, push_new) (longer xs h)
]
  where
    longer : (ys : List Text) → includes_text ys y ≡ false → includes_text (ys ++ x ∷ []) y ≡ false
    longer [] k = ground (arith, ne)
    longer (z ∷ ys) k = ground (arith, longer ys)

-- The edge under a key carries the message and was not dropped.
abbrev pub IsLive : Pairs → Text → Text → Type 0
IsLive st k m = (carries st.edges k m ≡ true) × (includes_text st.dropped k ≡ false)

update-keeps :
    (e : EdgeEntry) (rk j m : Text) (d : Dict EdgeEntry)
    → carries d j m ≡ true
    → carries (update (merge e) rk d) j m ≡ true
unfolding update merge
update-keeps e rk j m d h = elim (Option-cases (get d rk)) [
  | inl f ↦ rw (f, update) h
  | inr (old, f) ↦
      rw (f, update)
        (carries-set d rk j m (merge e old)
          (λ o g c. includes-push_all_mono e.msg_types old.msg_types m (
            let same : o ≡ old = ground (arith, f, g) in
            subst (λ (x : EdgeEntry). includes_text x.msg_types m ≡ true) same c))
          h)
]

update-adds :
    (e : EdgeEntry) (rk m : Text) (d : Dict EdgeEntry)
    → has d rk ≡ true
    → includes_text e.msg_types m ≡ true
    → carries (update (merge e) rk d) rk m ≡ true
unfolding update merge
update-adds e rk m d h inc = elim (Option-cases (get d rk)) [
  | inl f ↦ let no : has d rk ≡ false = rw (has-get d rk, f) refl in absurd (cc (h, no))
  | inr (old, f) ↦
      rw (f, update)
        (carries-set_same d rk m (merge e old) (includes-push_all e.msg_types old.msg_types m inc))
]

update-IsEdge :
    (e : EdgeEntry) (rk : Text) (d : Dict EdgeEntry)
    → AllEntries IsEdge d
    → AllEntries IsEdge (update (merge e) rk d)
unfolding update merge
update-IsEdge e rk d h = elim (Option-cases (get d rk)) [
  | inl f ↦ rw (f, update) h
  | inr (old, f) ↦
      let was = AllEntries-get IsEdge d rk old h f in
      rw (f, update)
        (AllEntries-set IsEdge d rk (merge e old)
          (record {
            key = was.key;
            plain_source = was.plain_source;
            plain_target = was.plain_target;
            two_files = was.two_files;
          })
          h)
]

module _ (a b m : Text) (plain_a : IsPlainName a) (plain_b : IsPlainName b)
    (ne : (a === b) ≡ false) where
  apart : (key_of a b === key_of b a) ≡ false
  apart = elim (Bool-cases (key_of a b === key_of b a)) [
    | inr f ↦ f
    | inl e ↦
        let (same, rest) = key_of-inj a b b a plain_a plain_b ((===_iff _ _).0 e) in
        absurd (cc (sym ne ∙ (===_iff a b).1 same))
  ]

  -- The edge that is dropped passes its messages on to its reverse.
  collapse_edge-IsLive :
      (key : Text) (e : EdgeEntry) (st : Pairs)
      → IsEdge key e
      → get st.edges key ≡ some e
      → has st.edges (key_of e.target e.source) ≡ true
      → includes_text st.dropped (key_of e.target e.source) ≡ false
      → IsLive st (key_of a b) m
      → IsLive
          (record {
            edges = update (merge e) (key_of e.target e.source) st.edges;
            dropped = push_new st.dropped key;
          })
          (key_of a b)
          m
        ⊎ IsLive
            (record {
              edges = update (merge e) (key_of e.target e.source) st.edges;
              dropped = push_new st.dropped key;
            })
            (key_of b a)
            m
  unfolding carries
  collapse_edge-IsLive key e st shape found there kept (c, live) =
      elim (Bool-cases (key === key_of a b)) [
        | inr other ↦ inl (
          update-keeps e _ _ m st.edges c,
          includes-push_new_other st.dropped key (key_of a b) live other,
        )
        | inl here ↦
            let at_ab : key ≡ key_of a b = (===_iff key (key_of a b)).0 here in
            let (from_a, to_b) =
              key_of-inj e.source e.target a b shape.plain_source plain_a (sym shape.key ∙ at_ab) in
            let back : key_of e.target e.source ≡ key_of b a = λ i. key_of (to_b i) (from_a i) in
            let inc : includes_text e.msg_types m ≡ true =
              subst (λ o. carried o m ≡ true) found
                (subst (λ k. carried (get st.edges k) m ≡ true) (sym at_ab) c) in
            inr (
              subst (λ k. carries (update (merge e) (key_of e.target e.source) st.edges) k m ≡ true)
                  back (update-adds e (key_of e.target e.source) m st.edges there inc),
              includes-push_new_other st.dropped key (key_of b a)
                  (subst (λ k. includes_text st.dropped k ≡ false) back kept)
                  (subst (λ k. (k === key_of b a) ≡ false) (sym at_ab) apart),
            )
      ]

  collapse_step-IsLive :
      (key : Text) (st : Pairs)
      → AllEntries IsEdge st.edges
      → IsLive st (key_of a b) m
      → IsLive (collapse_step key st) (key_of a b) m ⊎ IsLive (collapse_step key st) (key_of b a) m
  unfolding collapse_step collapse_edge
  collapse_step-IsLive key st shape live = elim (Option-cases (get st.edges key)) [
    | inl f ↦ rw (f, collapse_step) (inl live)
    | inr (e, f) ↦ elim (Bool-cases (includes_text st.dropped key)) [
      | inl d ↦ rw (f, d, collapse_step) (inl live)
      | inr d ↦ elim (Bool-cases (has st.edges (key_of e.target e.source))) [
        | inr h ↦ rw (f, d, h, collapse_step) (inl live)
        | inl h ↦ elim (Bool-cases (includes_text st.dropped (key_of e.target e.source))) [
          | inl r ↦ rw (f, d, h, r, collapse_step) (inl live)
          | inr r ↦
              rw (f, d, h, r, collapse_step)
                (collapse_edge-IsLive key e st (AllEntries-get IsEdge st.edges key e shape f) f h r
                  live)
        ]
      ]
    ]
  ]

collapse_step-IsEdge :
    (key : Text) (st : Pairs)
    → AllEntries IsEdge st.edges
    → AllEntries IsEdge (collapse_step key st).edges
unfolding collapse_step collapse_edge
collapse_step-IsEdge key st shape = elim (Option-cases (get st.edges key)) [
  | inl f ↦ rw (f, collapse_step) shape
  | inr (e, f) ↦ elim (Bool-cases (includes_text st.dropped key)) [
    | inl d ↦ rw (f, d, collapse_step) shape
    | inr d ↦
        elim (Bool-cases (
          has st.edges (key_of e.target e.source)
          && not (includes_text st.dropped (key_of e.target e.source)))) [
            | inr h ↦ rw (f, d, h, collapse_step) shape
            | inl h ↦ rw (f, d, h, collapse_step) (update-IsEdge e _ st.edges shape)
          ]
  ]
]

-- A message between two files is carried by a live edge between them, in one direction.
abbrev pub Joins : Pairs → Text → Text → Text → Type 0
Joins st a b m = IsLive st (key_of a b) m ⊎ IsLive st (key_of b a) m

swap : (st : Pairs) (a b m : Text) → Joins st b a m → Joins st a b m
swap st a b m (inl x) = inr x
swap st a b m (inr x) = inl x

pub collapse-Joins :
    (keys : List Text) (st : Pairs) (a b m : Text)
    → IsPlainName a
    → IsPlainName b
    → (a === b) ≡ false
    → (b === a) ≡ false
    → AllEntries IsEdge st.edges
    → Joins st a b m
    → AllEntries IsEdge (collapse keys st).edges × Joins (collapse keys st) a b m
unfolding collapse
collapse-Joins [] st a b m p q ne en shape j = (shape, j)
collapse-Joins (key ∷ keys) st a b m p q ne en shape j =
    collapse-Joins keys (collapse_step key st) a b m p q ne en (collapse_step-IsEdge key st shape)
      (elim j [
        | inl live ↦ collapse_step-IsLive a b m p q ne key st shape live
        | inr live ↦
            swap (collapse_step key st) a b m (collapse_step-IsLive b a m q p en key st shape live)
      ])
