-- ===== src/Roles/Depth.antt =====
-- The depths of src/analyzer/structRoleAnalyzer.ts: the recursion has fuel enough.
use c_interface_discovery.Prelude.{
  ℕ, zero, suc, ◌+◌, ◌≤◌, ◌<◌, Text, List, [], ◌∷◌, length, true, false, ◌===◌, ===_iff, sym, subst,
  ◌⊎◌, ◌≡◌, refl, ◌∙◌, if◌then◌else◌, Bool-cases, inl, inr, arith,
}
use c_interface_discovery.Prelude.Dict.{Dict, get}
use c_interface_discovery.Graph.{includes_text}
use c_interface_discovery.Roles.Containment.{list_at}
use c_interface_discovery.Roles.Report.{deepest, depth_of}

abbrev unseen : List Text → Text → ℕ
unseen seen k = if includes_text seen k then 0 else 1

-- The names with an entry that are not in `seen`.
abbrev free : List Text → Dict (List Text) → ℕ
free seen [] = 0
free seen ((k, names) ∷ d) = unseen seen k + free seen d

unseen-le : (n : Text) (seen : List Text) (k : Text) → unseen (n ∷ seen) k ≤ unseen seen k
unfolding includes_text
unseen-le n seen k = ground arith

free-le : (n : Text) (seen : List Text) (d : Dict (List Text)) → free (n ∷ seen) d ≤ free seen d
free-le n seen [] = omega arith
free-le n seen ((k, names) ∷ d) = omega (arith, unseen-le n seen k, free-le n seen d)

free-length : (seen : List Text) (d : Dict (List Text)) → free seen d ≤ length d
free-length seen [] = omega arith
free-length seen ((k, names) ∷ d) = omega (arith, at_most seen k, free-length seen d)
  where
    at_most : (seen : List Text) (k : Text) → unseen seen k ≤ 1
    at_most seen k = ground arith

unseen-now : (n k : Text) (seen : List Text) → k ≡ n → unseen (n ∷ seen) k ≡ 0
unfolding includes_text
unseen-now n k seen same = let e : (n === k) ≡ true = (===_iff n k).1 (sym same) in rw e refl

unseen-before :
    (n k : Text) (seen : List Text) → k ≡ n → includes_text seen n ≡ false → unseen seen k ≡ 1
unseen-before n k seen same h = subst (λ x. unseen seen x ≡ 1) (sym same) (rw h refl)

list_at-cons :
    (d : Dict (List Text)) (k n : Text) (names : List Text)
    → (k === n) ≡ false
    → list_at ((k, names) ∷ d) n ≡ list_at d n
unfolding list_at get
list_at-cons d k n names e = rw e refl

list_at-empty : (n : Text) → list_at {A = Text} [] n ≡ []
unfolding list_at get
list_at-empty n = refl

-- A name without an entry has no children; one with an entry is one name less to see.
fewer :
    (n : Text) (seen : List Text) (d : Dict (List Text))
    → includes_text seen n ≡ false
    → (list_at d n ≡ []) ⊎ (free (n ∷ seen) d < free seen d)
fewer n seen [] h = inl (list_at-empty n)
fewer n seen ((k, names) ∷ d) h = elim (Bool-cases (k === n)) [
  | inl e ↦
      let same = (===_iff k n).0 e in
      inr (omega (arith, free-le n seen d, unseen-now n k seen same, unseen-before n k seen same h))
  | inr e ↦ elim (fewer n seen d h) [
    | inl z ↦ inl (list_at-cons d k n names e ∙ z)
    | inr lt ↦ inr (omega (arith, lt, unseen-le n seen k))
  ]
]

deepest-same :
    (f g : Text → ℕ) (children : List Text)
    → ((c : Text) → f c ≡ g c)
    → deepest f children ≡ deepest g children
unfolding deepest
deepest-same f g [] h = refl
deepest-same f g (c ∷ children) h = omega (arith, h c, deepest-same f g children h)

deepest-nil :
    (f g : Text → ℕ) (children : List Text)
    → children ≡ []
    → deepest f children ≡ deepest g children
unfolding deepest
deepest-nil f g [] h = refl
deepest-nil f g (c ∷ children) h = absurd (cc h)

depth_of-fuel :
    (f g : ℕ) (d : Dict (List Text)) (seen : List Text) (name : Text)
    → free seen d < f
    → free seen d < g
    → depth_of f d seen name ≡ depth_of g d seen name
unfolding depth_of
depth_of-fuel zero g d seen name p q = absurd (omega arith)
depth_of-fuel (suc f) zero d seen name p q = absurd (omega arith)
depth_of-fuel (suc f) (suc g) d seen name p q = elim (Bool-cases (includes_text seen name)) [
  | inl e ↦ rw (e, depth_of) refl
  | inr e ↦
      rw (e, depth_of)
        (elim (fewer name seen d e) [
          | inl z ↦ deepest-nil (depth_of f d (name ∷ seen)) (depth_of g d (name ∷ seen)) _ z
          | inr lt ↦
              deepest-same (depth_of f d (name ∷ seen)) (depth_of g d (name ∷ seen)) _
                (λ c. depth_of-fuel f g d (name ∷ seen) c (omega (arith, lt)) (omega (arith, lt)))
        ])
]

-- The depth with fuel for every name with an entry.
abbrev pub depth_under : Dict (List Text) → List Text → Text → ℕ
depth_under d seen name = depth_of (suc (length d)) d seen name

-- The recursion of the source, without fuel, on any containment graph, cyclic or not: a name seen on
-- the way has the depth 0, and any other the greatest of one more than the depths of its blocks.
pub depth_under-eq :
    (d : Dict (List Text)) (seen : List Text) (name : Text)
    → depth_under d seen name ≡ (
        if includes_text seen name
        then 0
        else deepest (depth_under d (name ∷ seen)) (list_at d name))
unfolding depth_of
depth_under-eq d seen name = elim (Bool-cases (includes_text seen name)) [
  | inl e ↦ rw (e, depth_of) refl
  | inr e ↦
      rw (e, depth_of)
        (elim (fewer name seen d e) [
          | inl z ↦
              deepest-nil (depth_of (length d) d (name ∷ seen)) (depth_under d (name ∷ seen)) _ z
          | inr lt ↦
              deepest-same (depth_of (length d) d (name ∷ seen)) (depth_under d (name ∷ seen)) _
                (λ c.
                  depth_of-fuel (length d) (suc (length d)) d (name ∷ seen) c
                    (omega (arith, lt, free-length seen d)) (omega (arith, lt, free-length seen d)))
        ])
]
