-- ===== src/Roles/Grouped.antt =====
-- Lists sorted by a small number, and the report of src/analyzer/structRoleAnalyzer.ts role by role.
use c_interface_discovery.Prelude.{
  ℕ, zero, suc, ◌+◌, ◌≤◌, ◌<◌, List, [], ◌∷◌, ◌++◌, keep, false, ◌==◌, All, All-mono, ◌≡◌, refl,
  sym, ap, ◌∙◌, Bool-cases, inl, inr, arith,
}
use c_interface_discovery.Roles.Types.{
  StructRole, wire_root, wire_root_nested, envelope, root_candidate, shared_block, block, orphan,
  StructRoleInfo,
}
use c_interface_discovery.Roles.Report.{role_order}
use c_interface_discovery.Roles.Rules.{IsRanked}
use c_interface_discovery.Roles.Standing.{
  same_role, same_role-eq, role_order-eq, of_role, by_role, every_role, IsDeepestFirst, Stands,
  IsStanding,
}

join {ℓ} : {A : Type ℓ} {xs ys us vs : List A} → xs ≡ ys → us ≡ vs → xs ++ us ≡ ys ++ vs
join e f = rw (e, f) refl

module _ {ℓ} {A : Type ℓ} (rank : A → ℕ) where
  abbrev at_rank : ℕ → List A → List A
  at_rank k xs = keep (λ x. rank x == k) xs

  -- The elements of `n` ranks from `k`, rank by rank.
  abbrev levels : ℕ → ℕ → List A → List A
  levels zero k xs = []
  levels (suc n) k xs = at_rank k xs ++ levels n (suc k) xs

  levels-nil : (n k : ℕ) → levels n k [] ≡ []
  levels-nil zero k = refl
  levels-nil (suc n) k = levels-nil n (suc k)

  at_rank-nil : (k : ℕ) (xs : List A) → All (λ y. k < rank y) xs → at_rank k xs ≡ []
  at_rank-nil k [] h = refl
  at_rank-nil k (x ∷ xs) (h, hs) =
      let no : (rank x == k) ≡ false = ground arith in rw (no) (at_rank-nil k xs hs)

  levels-skip : (n k : ℕ) (x : A) (xs : List A) → rank x < k → levels n k (x ∷ xs) ≡ levels n k xs
  levels-skip zero k x xs h = refl
  levels-skip (suc n) k x xs h =
      let no : (rank x == k) ≡ false = ground arith in
      rw (no, levels-skip n (suc k) x xs (omega (arith, h))) refl

  levels-cons :
      (n k : ℕ) (x : A) (xs : List A)
      → k ≤ rank x
      → rank x < k + n
      → All (λ y. rank x ≤ rank y) xs
      → levels n k (x ∷ xs) ≡ x ∷ levels n k xs
  levels-cons zero k x xs h l hs = ground arith
  levels-cons (suc n) k x xs h l hs = elim (Bool-cases (rank x == k)) [
    | inl e ↦
        let below : rank x < suc k = ground arith in rw (e, levels-skip n (suc k) x xs below) refl
    | inr e ↦
        let above : k < rank x = ground arith in
        let none_here =
          at_rank-nil k xs
            (All-mono {Q = λ y. k < rank y} (λ y q. omega (arith, above, q)) xs hs) in
        rw (e, none_here) (levels-cons n (suc k) x xs (omega (arith, above)) (omega (arith, l)) hs)
  ]

  levels-eq :
      (n : ℕ) (xs : List A) → IsRanked rank xs → All (λ x. rank x < n) xs → xs ≡ levels n 0 xs
  levels-eq n [] h k = sym (levels-nil n 0)
  levels-eq n (x ∷ xs) (h, hs) (k, ks) =
      ap (λ ys. x ∷ ys) (levels-eq n xs hs ks)
      ∙ sym (levels-cons n 0 x xs (omega arith) (omega (arith, k)) h)

Stands-rank : (x y : StructRoleInfo) → Stands x y → role_order x.role ≤ role_order y.role
Stands-rank x y (inl a) = omega (arith, a)
Stands-rank x y (inr a) = omega (arith, a.0)

Stands-depth :
    (x y : StructRoleInfo) → role_order x.role ≡ role_order y.role → Stands x y → y.depth ≤ x.depth
Stands-depth x y e (inl a) = omega (arith, e, a)
Stands-depth x y e (inr a) = a.1

IsStanding-IsRanked :
    (xs : List StructRoleInfo) → IsStanding xs → IsRanked (λ x. role_order x.role) xs
IsStanding-IsRanked [] h = tt
IsStanding-IsRanked (x ∷ xs) (h, hs) = (
  All-mono {Q = λ y. role_order x.role ≤ role_order y.role} (λ y s. Stands-rank x y s) xs h,
  IsStanding-IsRanked xs hs,
)

role_order-lt : (r : StructRole) → role_order r < 7
unfolding role_order
role_order-lt r = ground arith

all_below : (xs : List StructRoleInfo) → All (λ x. role_order x.role < 7) xs
all_below [] = tt
all_below (x ∷ xs) = (role_order-lt x.role, all_below xs)

at_rank-of_role :
    (q : StructRole) (xs : List StructRoleInfo)
    → at_rank (λ x. role_order x.role) (role_order q) xs ≡ of_role q xs
at_rank-of_role q [] = refl
at_rank-of_role q (x ∷ xs) = rw (role_order-eq q x.role, at_rank-of_role q xs) refl

levels-by_role :
    (xs : List StructRoleInfo) → levels (λ x. role_order x.role) 7 0 xs ≡ by_role every_role xs
unfolding role_order
levels-by_role xs = join (at_rank-of_role wire_root_nested xs) (
    join (at_rank-of_role wire_root xs) (
      join (at_rank-of_role envelope xs) (
        join (at_rank-of_role root_candidate xs) (
          join (at_rank-of_role shared_block xs)
            (join (at_rank-of_role block xs) (join (at_rank-of_role orphan xs) refl))))))

pub IsStanding-by_role : (xs : List StructRoleInfo) → IsStanding xs → xs ≡ by_role every_role xs
IsStanding-by_role xs h =
    levels-eq (λ x. role_order x.role) 7 xs (IsStanding-IsRanked xs h) (all_below xs)
    ∙ levels-by_role xs

-- After a struct of the role, those of the role are no deeper.
of_role-All :
    (q : StructRole) (x : StructRoleInfo) (xs : List StructRoleInfo)
    → q ≡ x.role
    → All (Stands x) xs
    → All (λ y. y.depth ≤ x.depth) (of_role q xs)
of_role-All q x [] e h = tt
of_role-All q x (y ∷ ys) e (h, hs) = elim (Bool-cases (same_role q y.role)) [
  | inl same ↦
      let ranks = ap role_order (sym e ∙ same_role-eq q y.role same) in
      rw (same) (Stands-depth x y ranks h, of_role-All q x ys e hs)
  | inr other ↦ rw (other) (of_role-All q x ys e hs)
]

pub IsStanding-IsDeepestFirst :
    (q : StructRole) (xs : List StructRoleInfo) → IsStanding xs → IsDeepestFirst (of_role q xs)
IsStanding-IsDeepestFirst q [] h = tt
IsStanding-IsDeepestFirst q (x ∷ xs) (h, hs) = elim (Bool-cases (same_role q x.role)) [
  | inl same ↦
      rw (same)
        (of_role-All q x xs (same_role-eq q x.role same) h, IsStanding-IsDeepestFirst q xs hs)
  | inr other ↦ rw (other) (IsStanding-IsDeepestFirst q xs hs)
]
