-- ===== src/Roles/Embedding.antt =====
-- One field of a struct embeds another, in src/analyzer/structRoleAnalyzer.ts.
use c_interface_discovery.Prelude.{
  Text, List, [], ◌∷◌, ◌++◌, some, Bool, true, false, ◌||◌, ◌===◌, ===_iff, is_some, ◌⊎◌, ◌≡◌, refl,
  sym, ap, ◌∙◌, if◌then◌else◌, Bool-cases, Option-cases, inl, inr, arith,
}
use c_interface_discovery.Prelude.Dict.{Dict, get, set, get-set}
use c_interface_discovery.Types.{CField}
use c_interface_discovery.Graph.{includes_text, push_new, update}
use c_interface_discovery.Roles.Types.{ContainmentEdge}
use c_interface_discovery.Roles.Containment.{
  Tables, list_at, or_empty, has_parent, edge_of, add_parent, embed,
}

includes-push_new_or :
    (names : List Text) (x y : Text)
    → includes_text (push_new names x) y ≡ (includes_text names y || x === y)
unfolding push_new includes_text
includes-push_new_or names x y = elim (Bool-cases (includes_text names x)) [
  | inl e ↦ rw (e, push_new) (already names e)
  | inr e ↦ rw (e, push_new) (longer names)
]
  where
    already :
        (ns : List Text)
        → includes_text ns x ≡ true
        → includes_text ns y ≡ (includes_text ns y || x === y)
    already [] h = absurd (cc h)
    already (n ∷ ns) h = ground (arith, ===_iff n x, ===_iff n y, ===_iff x y, already ns)

    longer : (ns : List Text) → includes_text (ns ++ x ∷ []) y ≡ (includes_text ns y || x === y)
    longer [] = ground arith
    longer (n ∷ ns) = ground (arith, longer ns)

has_parent-add_parent :
    (parent : Text) (f : CField) (is_first : Bool) (edges : List ContainmentEdge) (p : Text)
    → has_parent p (add_parent parent f is_first edges) ≡ (has_parent p edges || parent === p)
unfolding has_parent add_parent edge_of
has_parent-add_parent parent f is_first edges p = elim (Bool-cases (has_parent parent edges)) [
  | inl e ↦ rw (e, add_parent) (already edges e)
  | inr e ↦ rw (e, add_parent) (longer edges)
]
  where
    already :
        (es : List ContainmentEdge)
        → has_parent parent es ≡ true
        → has_parent p es ≡ (has_parent p es || parent === p)
    already [] h = absurd (cc h)
    already (n ∷ es) h =
        ground (arith, ===_iff n.parent parent, ===_iff n.parent p, ===_iff parent p, already es)

    longer :
        (es : List ContainmentEdge)
        → has_parent p (es ++ edge_of parent f is_first ∷ []) ≡ (has_parent p es || parent === p)
    longer [] = ground arith
    longer (n ∷ es) = ground (arith, longer es)

pub list_at-set :
    {A : Type 0} (d : Dict (List A)) (k j : Text) (xs : List A)
    → list_at (set d k xs) j ≡ (if k === j then xs else list_at d j)
unfolding list_at
list_at-set d k j xs = elim (Bool-cases (k === j)) [
  | inl e ↦ rw (get-set d k j xs) (rw e refl)
  | inr e ↦ rw (get-set d k j xs) (rw e refl)
]

list_at-found :
    {A : Type 0} (d : Dict (List A)) (k : Text) (xs : List A) → get d k ≡ some xs → list_at d k ≡ xs
unfolding list_at
list_at-found d k xs h = ap or_empty h

list_at-update :
    (g : List Text → List Text) (d : Dict (List Text)) (k j : Text)
    → is_some (get d k) ≡ true
    → list_at (update g k d) j ≡ (if k === j then g (list_at d k) else list_at d j)
unfolding update
list_at-update g d k j h = elim (Option-cases (get d k)) [
  | inl f ↦ absurd (cc (h, ap is_some f))
  | inr (names, f) ↦
      rw (f, update)
        (list_at-set d k j (g names)
          ∙ ap (λ ns. if k === j then g ns else list_at d j) (sym (list_at-found d k names f)))
]

pub is_some-update :
    (g : List Text → List Text) (d : Dict (List Text)) (k j : Text)
    → is_some (get d j) ≡ true
    → is_some (get (update g k d) j) ≡ true
unfolding update
is_some-update g d k j h = elim (Option-cases (get d k)) [
  | inl f ↦ rw (f, update) h
  | inr (names, f) ↦ elim (Bool-cases (k === j)) [
    | inl e ↦ rw (f, update) (rw (get-set d k j (g names), e) refl)
    | inr e ↦ rw (f, update) (rw (get-set d k j (g names), e) h)
  ]
]

-- A struct lists another among its blocks exactly if that one lists it among its parents.
abbrev pub IsDual : Tables → Type 0
IsDual t =
    (parent child : Text)
    → includes_text (list_at t.contains parent) child
      ≡ has_parent parent (list_at t.contained_by child)

pub embed-IsDual :
    (s : Text) (f : CField) (is_first : Bool) (c : Text) (t : Tables)
    → is_some (get t.contains s) ≡ true
    → IsDual t
    → IsDual (embed s f is_first c t)
unfolding embed
embed-IsDual s f is_first c t h dual parent child =
    let left = list_at-update (λ names. push_new names c) t.contains s parent h in
    let parents = list_at t.contained_by c in
    let right = list_at-set t.contained_by c child (add_parent s f is_first parents) in
    ap (λ ns. includes_text ns child) left
    ∙ (both (Bool-cases (s === parent)) (Bool-cases (c === child))
        ∙ sym (ap (has_parent parent) right))
  where
    both :
        ((s === parent) ≡ true) ⊎ ((s === parent) ≡ false)
        → ((c === child) ≡ true) ⊎ ((c === child) ≡ false)
        → includes_text
            (if s === parent then push_new (list_at t.contains s) c else list_at t.contains parent)
            child
          ≡ has_parent parent (
              if c === child
              then add_parent s f is_first (list_at t.contained_by c)
              else list_at t.contained_by child)
    both (inl e) (inl g) =
        rw (e, g)
          (rw
            (
              includes-push_new_or (list_at t.contains s) c child,
              has_parent-add_parent s f is_first (list_at t.contained_by c) parent,
            )
            (ground (arith, e, g)))
    both (inl e) (inr g) =
        rw (e, g)
          (rw (includes-push_new_or (list_at t.contains s) c child) (
            ground (
              arith,
              g,
              dual parent child,
              ap (λ x. includes_text (list_at t.contains x) child) ((===_iff s parent).0 e),
            )))
    both (inr e) (inl g) =
        rw (e, g)
          (rw (has_parent-add_parent s f is_first (list_at t.contained_by c) parent) (
            ground (
              arith,
              e,
              dual parent child,
              ap (λ x. has_parent parent (list_at t.contained_by x)) ((===_iff c child).0 g),
            )))
    both (inr e) (inr g) = rw (e, g) (dual parent child)
