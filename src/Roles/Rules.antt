-- ===== src/Roles/Rules.antt =====
-- What the sort of src/analyzer/structRoleAnalyzer.ts and src/analyzer/messageComposition.ts ranks by a
-- number is in its order.
use c_interface_discovery.Prelude.{
  ℕ, ◌≤◌, List, [], ◌∷◌, Bool, true, false, All, All-mono, ◌≡◌, Bool-cases, inl, inr, arith,
}
use c_interface_discovery.Roles.Report.{insert_by, sort_by}

module _ {ℓ} {A : Type ℓ} (rank : A → ℕ) where
  -- Each rank is at most those that follow.
  abbrev pub IsRanked : List A → Type 0
  IsRanked [] = Unit
  IsRanked (x ∷ xs) = All (λ y. rank x ≤ rank y) xs × IsRanked xs

module _ {ℓ} {A : Type ℓ} (rank : A → ℕ) (before : A → A → Bool) where
  module _ (up : (x y : A) → before x y ≡ true → rank x ≤ rank y)
      (down : (x y : A) → before x y ≡ false → rank y ≤ rank x) where
    insert_by-All :
        (m : ℕ) (x : A) (xs : List A)
        → m ≤ rank x
        → All (λ y. m ≤ rank y) xs
        → All (λ y. m ≤ rank y) (insert_by before x xs)
    unfolding insert_by
    insert_by-All m x [] h k = (h, tt)
    insert_by-All m x (y ∷ ys) h (k, ks) = elim (Bool-cases (before x y)) [
      | inl e ↦ rw (e, insert_by) (h, (k, ks))
      | inr e ↦ rw (e, insert_by) (k, insert_by-All m x ys h ks)
    ]

    insert_by-IsRanked :
        (x : A) (xs : List A) → IsRanked rank xs → IsRanked rank (insert_by before x xs)
    unfolding insert_by
    insert_by-IsRanked x [] h = (tt, tt)
    insert_by-IsRanked x (y ∷ ys) (k, ks) = elim (Bool-cases (before x y)) [
      | inl e ↦
          let le = up x y e in
          rw (e, insert_by)
            ((le, All-mono {Q = λ z. rank x ≤ rank z} (λ z q. omega (arith, le, q)) ys k), (k, ks))
      | inr e ↦
          rw (e, insert_by) (insert_by-All (rank y) x ys (down x y e) k, insert_by-IsRanked x ys ks)
    ]

    pub sort_by-IsRanked : (xs : List A) → IsRanked rank (sort_by before xs)
    unfolding sort_by
    sort_by-IsRanked [] = tt
    sort_by-IsRanked (x ∷ xs) = insert_by-IsRanked x (sort_by before xs) (sort_by-IsRanked xs)
