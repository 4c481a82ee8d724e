-- ===== src/Graph/Faithful.antt =====
-- Collapsing reciprocal pairs in src/utils/buildGraph.ts gives no edge a message that does not pass
-- between its ends.
use c_interface_discovery.Prelude.{
  Text, List, [], ◌∷◌, true, false, not, ◌&&◌, ◌||◌, ◌===◌, ===_iff, ◌≡◌, ◌⊎◌, refl, sym, subst,
  ◌∙◌, Bool, Bool-cases, Option-cases, inl, inr, arith,
}
use c_interface_discovery.Prelude.Dict.{Dict, get, has, AllEntries, AllEntries-set, AllEntries-get}
use c_interface_discovery.Graph.{
  EdgeEntry, Pairs, includes_text, push_new, push_all, key_of, update, merge, collapse_edge,
  collapse_step, collapse,
}
use c_interface_discovery.Graph.Names.{key_of-inj}
use c_interface_discovery.Graph.Members.{includes_text-append}
use c_interface_discovery.Graph.Shape.{IsEdge}

pub includes_text-push_new :
    (xs : List Text) (x m : Text)
    → includes_text (push_new xs x) m ≡ (includes_text xs m || x === m)
unfolding push_new includes_text
includes_text-push_new xs x m = elim (Bool-cases (includes_text xs x)) [
  | inr e ↦ rw (e, push_new) (ground (arith, includes_text-append xs (x ∷ []) m))
  | inl e ↦
      rw (e, push_new)
        (elim (Bool-cases (x === m)) [
          | inr n ↦ ground (arith, n)
          | inl s ↦
              let held = subst (λ y. includes_text xs y ≡ true) ((===_iff x m).0 s) e in
              ground (arith, held)
        ])
]

includes_text-push_all :
    (ys xs : List Text) (m : Text)
    → includes_text (push_all xs ys) m ≡ (includes_text xs m || includes_text ys m)
unfolding push_all includes_text
includes_text-push_all [] xs m = ground arith
includes_text-push_all (y ∷ ys) xs m =
    ground (arith, includes_text-push_all ys (push_new xs y) m, includes_text-push_new xs y m)

either : (b c : Bool) → (b || c) ≡ true → (b ≡ true) ⊎ (c ≡ true)
either true c h = inl refl
either false c h = inr h

module _ (R : Text → Text → Text → Type 0) (R-sym : (a b m : Text) → R a b m → R b a m) where
  -- Each message of the edge passes between its ends.
  abbrev pub Tells : Text → EdgeEntry → Type 0
  Tells k e = IsEdge k e × ((m : Text) → includes_text e.msg_types m ≡ true → R e.source e.target m)

  merge-Tells :
      (key rk : Text) (e old : EdgeEntry)
      → Tells key e
      → rk ≡ key_of e.target e.source
      → Tells rk old
      → Tells rk (merge e old)
  unfolding merge
  merge-Tells key rk e old (shape, tells) back (was, told) = (
    record {
      key = was.key;
      plain_source = was.plain_source;
      plain_target = was.plain_target;
      two_files = was.two_files;
    },
    λ m h. elim (either _ _ (sym (includes_text-push_all e.msg_types old.msg_types m) ∙ h)) [
      | inl o ↦ told m o
      | inr n ↦
          let (from, to) =
            key_of-inj old.source old.target e.target e.source was.plain_source shape.plain_target
              (sym was.key ∙ back) in
          subst (λ x. R x old.target m) (sym from)
            (subst (λ x. R e.target x m) (sym to) (R-sym e.source e.target m (tells m n)))
    ],
  )

  update-Tells :
      (key : Text) (e : EdgeEntry) (d : Dict EdgeEntry)
      → Tells key e
      → AllEntries Tells d
      → AllEntries Tells (update (merge e) (key_of e.target e.source) d)
  unfolding update
  update-Tells key e d t h = elim (Option-cases (get d (key_of e.target e.source))) [
    | inl f ↦ rw (f, update) h
    | inr (old, f) ↦
        rw (f, update)
          (AllEntries-set Tells d _ (merge e old)
            (merge-Tells key _ e old t refl (AllEntries-get Tells d _ old h f)) h)
  ]

  collapse_step-Tells :
      (key : Text) (st : Pairs)
      → AllEntries Tells st.edges
      → AllEntries Tells (collapse_step key st).edges
  unfolding collapse_step collapse_edge
  collapse_step-Tells key st h = elim (Option-cases (get st.edges key)) [
    | inl f ↦ rw (f, collapse_step) h
    | inr (e, f) ↦ elim (Bool-cases (includes_text st.dropped key)) [
      | inl d ↦ rw (f, d, collapse_step) h
      | inr d ↦
          elim (Bool-cases (
            has st.edges (key_of e.target e.source)
            && not (includes_text st.dropped (key_of e.target e.source)))) [
              | inr n ↦ rw (f, d, n, collapse_step) h
              | inl y ↦
                  rw (f, d, y, collapse_step)
                    (update-Tells key e st.edges (AllEntries-get Tells st.edges key e h f) h)
            ]
    ]
  ]

  pub collapse-Tells :
      (keys : List Text) (st : Pairs)
      → AllEntries Tells st.edges
      → AllEntries Tells (collapse keys st).edges
  unfolding collapse
  collapse-Tells [] st h = h
  collapse-Tells (key ∷ keys) st h =
      collapse-Tells keys (collapse_step key st) (collapse_step-Tells key st h)
