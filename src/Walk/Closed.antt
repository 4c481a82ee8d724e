-- ===== src/Walk/Closed.antt =====
-- What a walk has seen is closed under the calls it makes.
use c_interface_discovery.Prelude.{
  ℕ, zero, suc, ◌<◌, Text, List, [], ◌∷◌, length, All, All-mono, true, ◌⊎◌, ◌≡◌, Bool-cases, inl,
  inr, arith,
}
use c_interface_discovery.Graph.{includes_text}
use c_interface_discovery.Walk.{
  Trail, Action, go, act, Walker, write, step, run, mark, walk, walk_all,
}
use c_interface_discovery.Walk.Fuel.{
  Grows, HasEntries, free, free-le, free-lt, free-length, includes_text-here, includes_text-cons,
  run-Grows, walk-Grows,
}

-- The nodes that the actions call the walk on.
abbrev pub targets : {O : Type 0} → List (Action O) → List Text
targets [] = []
targets (go n ∷ more) = n ∷ targets more
targets (act change ∷ more) = targets more

-- The keys of all these nodes are in `seen`.
abbrev pub Holds : {O : Type 0} → Walker O → List Text → List Text → Type 0
Holds w seen = All (λ c. includes_text seen (w.key c) ≡ true)

-- A node seen is an old one, or the nodes it calls are seen too.
abbrev pub Closes : {O : Type 0} → Walker O → List Text → List Text → Type 0
Closes w old new =
    (m : Text)
    → includes_text new (w.key m) ≡ true
    → (includes_text old (w.key m) ≡ true) ⊎ Holds w new (targets (w.actions m))

module _ {O : Type 0} (w : Walker O) where
  Holds-grow : (old new ns : List Text) → Grows old new → Holds w old ns → Holds w new ns
  Holds-grow old new ns grows = All-mono (λ c. grows (w.key c)) ns

  Closes-trans :
      (old mid new : List Text)
      → Grows mid new
      → Closes w old mid
      → Closes w mid new
      → Closes w old new
  Closes-trans old mid new grows before after m h = elim (after m h) [
    | inr all ↦ inr all
    | inl in_mid ↦ elim (before m in_mid) [
      | inl in_old ↦ inl in_old
      | inr all ↦ inr (Holds-grow mid new _ grows all)
    ]
  ]

  run-Closes :
      (call : Text → Trail O → Trail O) (entries : List Text) (bound : ℕ)
      → ((n : Text) (st : Trail O) → Grows st.seen (call n st).seen)
      → ((n : Text) (st : Trail O)
          → free entries st.seen < bound
          → Closes w st.seen (call n st).seen × (includes_text (call n st).seen (w.key n) ≡ true))
      → (actions : List (Action O)) (st : Trail O) → free entries st.seen < bound
      → Closes w st.seen (run call actions st).seen
        × Holds w (run call actions st).seen (targets actions)
  unfolding run step write
  run-Closes call entries bound grows closes [] st h = (λ m found. inl found, tt)
  run-Closes call entries bound grows closes (act change ∷ more) st h =
      run-Closes call entries bound grows closes more (write change st) h
  run-Closes call entries bound grows closes (go n ∷ more) st h =
      let next = call n st in
      let one = closes n st h in
      let rest =
        run-Closes call entries bound grows closes more next
          (omega (arith, free-le entries st.seen next.seen (grows n st))) in
      let grown = run-Grows call grows more next in
      (Closes-trans st.seen next.seen _ grown one.0 rest.0, (grown (w.key n) one.1, rest.1))

module _ {O : Type 0} (w : Walker O) (entries : List Text) (has_entries : HasEntries w entries)
    (injective : (m n : Text) → w.key m ≡ w.key n → n ≡ m) where
  -- The body behind the guard: the node itself is new.
  Closes-mark :
      (n : Text) (seen new : List Text)
      → Closes w (w.key n ∷ seen) new
      → Holds w new (targets (w.actions n))
      → Closes w seen new
  Closes-mark n seen new closes held m h = elim (closes m h) [
    | inr all ↦ inr all
    | inl found ↦ elim (includes_text-cons (w.key n) seen (w.key m) found) [
      | inr older ↦ inl older
      | inl same ↦ inr (rw (injective n m same) held)
    ]
  ]

  walk-Closes :
      (fuel : ℕ) (n : Text) (st : Trail O)
      → free entries st.seen < fuel
      → Closes w st.seen (walk fuel w n st).seen
        × (includes_text (walk fuel w n st).seen (w.key n) ≡ true)
  unfolding walk mark run
  walk-Closes zero n st h = absurd (omega arith)
  walk-Closes (suc fuel) n st h = elim (Bool-cases (includes_text st.seen (w.key n))) [
    | inl e ↦ rw (e, walk) (λ m found. inl found, e)
    | inr e ↦
        let seen_now = includes_text-here (w.key n) st.seen in
        rw (e, walk)
          (elim (has_entries n) [
            | inl z ↦ rw z (
              Closes-mark n st.seen (w.key n ∷ st.seen) (λ m found. inl found) (rw z tt),
              seen_now,
            )
            | inr k ↦
                let body =
                  run-Closes w (walk fuel w) entries (free entries st.seen) (walk-Grows fuel w)
                    (λ m t less. walk-Closes fuel m t (omega arith)) (w.actions n) (mark w n st)
                    (free-lt entries st.seen (w.key n) k e) in
                (
                  Closes-mark n st.seen _ body.0 body.1,
                  run-Grows (walk fuel w) (walk-Grows fuel w) (w.actions n) (mark w n st) (w.key n)
                      seen_now,
                )
          ])
  ]

  pub walk_all-Closes :
      (ns : List Text) (st : Trail O)
      → Closes w st.seen (walk_all (suc (length entries)) w ns st).seen
        × Grows st.seen (walk_all (suc (length entries)) w ns st).seen
        × Holds w (walk_all (suc (length entries)) w ns st).seen ns
  unfolding walk_all
  walk_all-Closes [] st = (λ m found. inl found, λ k found. found, tt)
  walk_all-Closes (n ∷ ns) st =
      let next = walk (suc (length entries)) w n st in
      let one =
        walk-Closes (suc (length entries)) n st (omega (arith, free-length entries st.seen)) in
      let rest = walk_all-Closes ns next in
      (
        Closes-trans w st.seen next.seen _ rest.1 one.0 rest.0,
        λ k found. rest.1 k (walk-Grows (suc (length entries)) w n st k found),
        (rest.1 (w.key n) one.1, rest.2),
      )
