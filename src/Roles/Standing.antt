-- ===== src/Roles/Standing.antt =====
-- The order of the report of src/analyzer/structRoleAnalyzer.ts.
use mathlib.Core.List.{Perm}
use mathlib.Core.List.Perm
use c_interface_discovery.Prelude.{
  ℕ, ◌≤◌, ◌<◌, Text, List, [], ◌∷◌, ◌++◌, keep, Bool, true, false, ◌==◌, ltb, All, All-mono, ◌≡◌,
  ◌⊎◌, Bool-cases, inl, inr, arith, if◌then◌else◌,
}
use c_interface_discovery.Roles.Types.{
  StructRole, wire_root, wire_root_nested, envelope, root_candidate, shared_block, block, orphan,
  StructRoleInfo,
}
use c_interface_discovery.Roles.Report.{role_order, insert_by, sort_by, reported_before}

abbrev pub same_role : StructRole → StructRole → Bool
same_role wire_root wire_root = true
same_role wire_root_nested wire_root_nested = true
same_role envelope envelope = true
same_role root_candidate root_candidate = true
same_role shared_block shared_block = true
same_role block block = true
same_role orphan orphan = true
same_role _ _ = false

pub same_role-eq : (q r : StructRole) → same_role q r ≡ true → q ≡ r
same_role-eq q r h = ground arith

pub role_order-eq : (q r : StructRole) → (role_order r == role_order q) ≡ same_role q r
unfolding role_order
role_order-eq q r = ground arith

-- The structs of a role, in the order of the list.
abbrev pub of_role : StructRole → List StructRoleInfo → List StructRoleInfo
of_role q xs = keep (λ x. same_role q x.role) xs

-- The structs of each of some roles, role by role.
abbrev pub by_role : List StructRole → List StructRoleInfo → List StructRoleInfo
by_role [] xs = []
by_role (q ∷ qs) xs = of_role q xs ++ by_role qs xs

-- The roles in the order of the report.
abbrev pub every_role : List StructRole
every_role =
    wire_root_nested ∷ wire_root ∷ envelope ∷ root_candidate ∷ shared_block ∷ block ∷ orphan ∷ []

-- None is deeper than one before it.
abbrev pub IsDeepestFirst : List StructRoleInfo → Type 0
IsDeepestFirst [] = Unit
IsDeepestFirst (x ∷ xs) = All (λ y. y.depth ≤ x.depth) xs × IsDeepestFirst xs

-- By the rank of the role, then the deepest first.
abbrev pub Stands : StructRoleInfo → StructRoleInfo → Type 0
Stands x y =
    (role_order x.role < role_order y.role)
    ⊎ ((role_order x.role ≡ role_order y.role) × (y.depth ≤ x.depth))

abbrev pub IsStanding : List StructRoleInfo → Type 0
IsStanding [] = Unit
IsStanding (x ∷ xs) = All (Stands x) xs × IsStanding xs

Stands-trans : (x y z : StructRoleInfo) → Stands x y → Stands y z → Stands x z
Stands-trans x y z (inl a) (inl b) = inl (omega (arith, a, b))
Stands-trans x y z (inl a) (inr b) = inl (omega (arith, a, b.0))
Stands-trans x y z (inr a) (inl b) = inl (omega (arith, a.0, b))
Stands-trans x y z (inr a) (inr b) = inr (omega (arith, a.0, b.0), omega (arith, a.1, b.1))

-- The comparison by numbers alone, so that it can be decided by arithmetic.
numbers_stand :
    (rx ry dx dy : ℕ) (names : Bool)
    → (if ltb rx ry
        then true
        else if ltb ry rx
        then false
        else if ltb dy dx
        then true
        else if ltb dx dy
        then false
        else names)
      ≡ true
    → (rx < ry) ⊎ ((rx ≡ ry) × (dy ≤ dx))
numbers_stand rx ry dx dy names h = ground arith

numbers_stand_back :
    (rx ry dx dy : ℕ) (names : Bool)
    → (if ltb rx ry
        then true
        else if ltb ry rx
        then false
        else if ltb dy dx
        then true
        else if ltb dx dy
        then false
        else names)
      ≡ false
    → (ry < rx) ⊎ ((ry ≡ rx) × (dx ≤ dy))
numbers_stand_back rx ry dx dy names h = ground arith

module _ (text_before locale_before : Text → Text → Bool) where
  stands_before :
      (x y : StructRoleInfo) → reported_before text_before locale_before x y ≡ true → Stands x y
  unfolding reported_before
  stands_before x y h = numbers_stand _ _ x.depth y.depth _ h

  stands_after :
      (x y : StructRoleInfo) → reported_before text_before locale_before x y ≡ false → Stands y x
  unfolding reported_before
  stands_after x y h = numbers_stand_back _ _ x.depth y.depth _ h

  insert_by-All :
      (w x : StructRoleInfo) (xs : List StructRoleInfo)
      → Stands w x
      → All (Stands w) xs
      → All (Stands w) (insert_by (reported_before text_before locale_before) x xs)
  unfolding insert_by
  insert_by-All w x [] h k = (h, tt)
  insert_by-All w x (y ∷ ys) h (k, ks) =
      elim (Bool-cases (reported_before text_before locale_before x y)) [
        | inl e ↦ rw (e, insert_by) (h, (k, ks))
        | inr e ↦ rw (e, insert_by) (k, insert_by-All w x ys h ks)
      ]

  insert_by-IsStanding :
      (x : StructRoleInfo) (xs : List StructRoleInfo)
      → IsStanding xs
      → IsStanding (insert_by (reported_before text_before locale_before) x xs)
  unfolding insert_by
  insert_by-IsStanding x [] h = (tt, tt)
  insert_by-IsStanding x (y ∷ ys) (k, ks) =
      elim (Bool-cases (reported_before text_before locale_before x y)) [
        | inl e ↦
            let first = stands_before x y e in
            rw (e, insert_by) ((first, All-mono (λ z q. Stands-trans x y z first q) ys k), (k, ks))
        | inr e ↦
            rw (e, insert_by)
              (insert_by-All y x ys (stands_after x y e) k, insert_by-IsStanding x ys ks)
      ]

  pub sort_by-IsStanding :
      (xs : List StructRoleInfo)
      → IsStanding (sort_by (reported_before text_before locale_before) xs)
  unfolding sort_by
  sort_by-IsStanding [] = tt
  sort_by-IsStanding (x ∷ xs) = insert_by-IsStanding x _ (sort_by-IsStanding xs)

-- Sorting rearranges.
insert_by-perm {ℓ} :
    {A : Type ℓ} (before : A → A → Bool) (x : A) (xs : List A)
    → Perm (insert_by before x xs) (x ∷ xs)
unfolding insert_by
insert_by-perm before x [] = Perm.rfl
insert_by-perm before x (y ∷ ys) = elim (Bool-cases (before x y)) [
  | inl e ↦ rw (e, insert_by) Perm.rfl
  | inr e ↦
      rw (e, insert_by) (Perm.trans (Perm.cons y (insert_by-perm before x ys)) (Perm.swap x y ys))
]

pub sort_by-perm {ℓ} :
    {A : Type ℓ} (before : A → A → Bool) (xs : List A) → Perm (sort_by before xs) xs
unfolding sort_by
sort_by-perm before [] = Perm.rfl
sort_by-perm before (x ∷ xs) =
    Perm.trans (insert_by-perm before x (sort_by before xs)) (Perm.cons x (sort_by-perm before xs))
