-- ===== src/Walk/Fuel.antt =====
-- Fuel for one more than the keys of the nodes with successors is enough for a walk.
use c_interface_discovery.Prelude.{
  ℕ, zero, suc, ◌+◌, ◌≤◌, ◌<◌, Text, List, [], ◌∷◌, length, true, false, ◌===◌, ===_iff, ap, ◌⊎◌,
  ◌≡◌, refl, sym, ◌∙◌, subst, if◌then◌else◌, Bool-cases, inl, inr, arith,
}
use c_interface_discovery.Graph.{includes_text}
use c_interface_discovery.Walk.{Trail, Action, go, act, Walker, write, step, run, mark, walk}

-- Every name of the one list is in the other.
abbrev pub Grows : List Text → List Text → Type 0
Grows old new = (k : Text) → includes_text old k ≡ true → includes_text new k ≡ true

pub includes_text-here : (k : Text) (seen : List Text) → includes_text (k ∷ seen) k ≡ true
unfolding includes_text
includes_text-here k seen = ground (arith, ===_iff k k)

pub includes_text-there : (n : Text) (seen : List Text) → Grows seen (n ∷ seen)
unfolding includes_text
includes_text-there n seen k h = ground arith

pub includes_text-cons :
    (n : Text) (seen : List Text) (k : Text)
    → includes_text (n ∷ seen) k ≡ true
    → (n ≡ k) ⊎ (includes_text seen k ≡ true)
unfolding includes_text
includes_text-cons n seen k h = elim (Bool-cases (n === k)) [
  | inl e ↦ inl ((===_iff n k).0 e)
  | inr e ↦ inr (ground arith)
]

abbrev unseen : List Text → Text → ℕ
unseen seen k = if includes_text seen k then 0 else 1

-- The entries that are not in `seen`.
abbrev pub free : List Text → List Text → ℕ
free [] seen = 0
free (k ∷ entries) seen = unseen seen k + free entries seen

unseen-le : (old new : List Text) (k : Text) → Grows old new → unseen new k ≤ unseen old k
unseen-le old new k grows = elim (Bool-cases (includes_text old k)) [
  | inl e ↦ rw (e, grows k e) (omega arith)
  | inr e ↦ elim (Bool-cases (includes_text new k)) [
    | inl n ↦ rw (e, n) (omega arith)
    | inr n ↦ rw (e, n) (omega arith)
  ]
]

pub free-le : (entries old new : List Text) → Grows old new → free entries new ≤ free entries old
free-le [] old new grows = omega arith
free-le (k ∷ entries) old new grows =
    omega (arith, unseen-le old new k grows, free-le entries old new grows)

pub free-length : (entries seen : List Text) → free entries seen ≤ length entries
free-length [] seen = omega arith
free-length (k ∷ entries) seen = omega (arith, at_most seen k, free-length entries seen)
  where
    at_most : (seen : List Text) (k : Text) → unseen seen k ≤ 1
    at_most seen k = ground arith

unseen-drop :
    (seen : List Text) (k n : Text)
    → n ≡ k
    → includes_text seen k ≡ false
    → unseen (k ∷ seen) n < unseen seen n
unseen-drop seen k n same h =
    subst (λ x. unseen (k ∷ seen) x < unseen seen x) (sym same)
      (rw (includes_text-here k seen, h) (omega arith))

pub free-lt :
    (entries seen : List Text) (k : Text)
    → includes_text entries k ≡ true
    → includes_text seen k ≡ false
    → free entries (k ∷ seen) < free entries seen
unfolding includes_text
free-lt [] seen k e h = cc
free-lt (n ∷ entries) seen k e h = elim (includes_text-cons n entries k e) [
  | inl same ↦ omega (
    arith,
    unseen-drop seen k n same h,
    free-le entries seen (k ∷ seen) (includes_text-there k seen),
  )
  | inr later ↦ omega (
    arith,
    unseen-le seen (k ∷ seen) n (includes_text-there k seen),
    free-lt entries seen k later h,
  )
]

module _ {O : Type 0} where
  -- `seen` only grows.
  pub run-Grows :
      (call : Text → Trail O → Trail O)
      → ((n : Text) (st : Trail O) → Grows st.seen (call n st).seen)
      → (actions : List (Action O)) (st : Trail O) → Grows st.seen (run call actions st).seen
  unfolding run step write
  run-Grows call grows [] st k h = h
  run-Grows call grows (go n ∷ more) st k h =
      run-Grows call grows more (call n st) k (grows n st k h)
  run-Grows call grows (act change ∷ more) st k h = run-Grows call grows more (write change st) k h

  pub walk-Grows :
      (fuel : ℕ) (w : Walker O) (n : Text) (st : Trail O) → Grows st.seen (walk fuel w n st).seen
  unfolding walk mark
  walk-Grows zero w n st k h = h
  walk-Grows (suc fuel) w n st k h = elim (Bool-cases (includes_text st.seen (w.key n))) [
    | inl e ↦ rw (e, walk) h
    | inr e ↦
        rw (e, walk)
          (run-Grows (walk fuel w) (walk-Grows fuel w) (w.actions n) (mark w n st) k
            (includes_text-there (w.key n) st.seen k h))
  ]

  run-same :
      (c d : Text → Trail O → Trail O) (entries : List Text) (bound : ℕ)
      → ((n : Text) (st : Trail O) → Grows st.seen (d n st).seen)
      → ((n : Text) (st : Trail O) → free entries st.seen < bound → c n st ≡ d n st)
      → (actions : List (Action O)) (st : Trail O) → free entries st.seen < bound
      → run c actions st ≡ run d actions st
  unfolding run step write
  run-same c d entries bound grows same [] st h = refl
  run-same c d entries bound grows same (go n ∷ more) st h =
      ap (run c more) (same n st h)
      ∙ run-same c d entries bound grows same more (d n st)
          (omega (arith, free-le entries st.seen (d n st).seen (grows n st)))
  run-same c d entries bound grows same (act change ∷ more) st h =
      run-same c d entries bound grows same more (write change st) h

-- The nodes with successors have their keys among `entries`.
abbrev pub HasEntries : {O : Type 0} → Walker O → List Text → Type 0
HasEntries w entries = (n : Text) → (w.actions n ≡ []) ⊎ (includes_text entries (w.key n) ≡ true)

module _ {O : Type 0} (w : Walker O) (entries : List Text)
    (has_entries : HasEntries w entries) where
  walk-fuel :
      (f g : ℕ) (n : Text) (st : Trail O)
      → free entries st.seen < f
      → free entries st.seen < g
      → walk f w n st ≡ walk g w n st
  unfolding walk mark run
  walk-fuel zero g n st p q = absurd (omega arith)
  walk-fuel (suc f) zero n st p q = absurd (omega arith)
  walk-fuel (suc f) (suc g) n st p q = elim (Bool-cases (includes_text st.seen (w.key n))) [
    | inl e ↦ rw (e, walk) refl
    | inr e ↦
        rw (e, walk)
          (elim (has_entries n) [
            | inl z ↦ rw z refl
            | inr k ↦
                run-same (walk f w) (walk g w) entries (free entries st.seen) (walk-Grows g w)
                  (λ m t less. walk-fuel f g m t (omega arith) (omega arith)) (w.actions n)
                  (mark w n st) (free-lt entries st.seen (w.key n) k e)
          ])
  ]

  -- The recursion of the source, without fuel, whatever cycles the successors form.
  pub walk-eq :
      (n : Text) (st : Trail O)
      → walk (suc (length entries)) w n st ≡ (
          if includes_text st.seen (w.key n)
          then st
          else run (walk (suc (length entries)) w) (w.actions n) (mark w n st))
  unfolding walk mark run
  walk-eq n st = elim (Bool-cases (includes_text st.seen (w.key n))) [
    | inl e ↦ rw (e, walk) refl
    | inr e ↦
        rw (e, walk)
          (elim (has_entries n) [
            | inl z ↦ rw z refl
            | inr k ↦
                run-same (walk (length entries) w) (walk (suc (length entries)) w) entries
                  (free entries st.seen) (walk-Grows (suc (length entries)) w)
                  (λ m t less.
                    walk-fuel (length entries) (suc (length entries)) m t
                      (omega (arith, free-length entries st.seen))
                      (omega (arith, free-length entries st.seen)))
                  (w.actions n) (mark w n st) (free-lt entries st.seen (w.key n) k e)
          ])
  ]
