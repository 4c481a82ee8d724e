-- ===== src/Walk/Sound.antt =====
-- What a walk has seen is reached by the calls it makes.
use c_interface_discovery.Prelude.{
  ℕ, zero, suc, Text, List, [], ◌∷◌, true, ◌⊎◌, ◌≡◌, refl, Bool-cases, inl, inr,
}
use c_interface_discovery.Prelude.{All-mem}
use mathlib.Core.List.{Memᴰ}
use c_interface_discovery.Graph.{includes_text}
use c_interface_discovery.Walk.{
  Trail, Action, go, act, Walker, write, step, run, mark, walk, walk_all,
}
use c_interface_discovery.Walk.Fuel.{includes_text-cons}
use c_interface_discovery.Walk.Closed.{targets, Closes}

-- A chain of calls from one node to another.
pub data Reach {O : Type 0} (w : Walker O) : Text → Text → Type 0 where
  here : {n : Text} → Reach w n n
  next : {n c m : Text} → Memᴰ c (targets (w.actions n)) → Reach w c m → Reach w n m

-- Every key seen is an old one, or that of a node reached from one of the starts.
abbrev pub Reached : {O : Type 0} → Walker O → List Text → List Text → List Text → Type 0
Reached w starts old new =
    (k : Text)
    → includes_text new k ≡ true
    → (includes_text old k ≡ true)
      ⊎ ((n : Text) × (m : Text) × Memᴰ n starts × Reach w n m × (w.key m ≡ k))

module _ {O : Type 0} (w : Walker O) where
  Reached-trans :
      (n : Text) (ns old mid new : List Text)
      → Reached w (n ∷ []) old mid
      → Reached w ns mid new
      → Reached w (n ∷ ns) old new
  Reached-trans n ns old mid new before after k h = elim (after k h) [
    | inr (a, m, from, r, e) ↦ inr (a, m, Memᴰ.tail from, r, e)
    | inl in_mid ↦ elim (before k in_mid) [
      | inl in_old ↦ inl in_old
      | inr (a, m, Memᴰ.head same, r, e) ↦ inr (a, m, Memᴰ.head same, r, e)
      | inr (a, m, Memᴰ.tail none_left, r, e) ↦ elim none_left [ ]
    ]
  ]

  run-Reached :
      (call : Text → Trail O → Trail O)
      → ((n : Text) (st : Trail O) → Reached w (n ∷ []) st.seen (call n st).seen)
      → (actions : List (Action O)) (st : Trail O)
      → Reached w (targets actions) st.seen (run call actions st).seen
  unfolding run step write
  run-Reached call reached [] st k h = inl h
  run-Reached call reached (act change ∷ more) st k h =
      run-Reached call reached more (write change st) k h
  run-Reached call reached (go n ∷ more) st k h =
      Reached-trans n (targets more) st.seen (call n st).seen _ (reached n st)
        (run-Reached call reached more (call n st)) k h

  -- The body behind the guard.
  Reached-mark :
      (n : Text) (seen new : List Text)
      → Reached w (targets (w.actions n)) (w.key n ∷ seen) new
      → Reached w (n ∷ []) seen new
  Reached-mark n seen new body k h = elim (body k h) [
    | inr (c, m, from, r, e) ↦ inr (n, m, Memᴰ.head refl, next from r, e)
    | inl found ↦ elim (includes_text-cons (w.key n) seen k found) [
      | inr older ↦ inl older
      | inl same ↦ inr (n, n, Memᴰ.head refl, here, same)
    ]
  ]

  walk-Reached :
      (fuel : ℕ) (n : Text) (st : Trail O) → Reached w (n ∷ []) st.seen (walk fuel w n st).seen
  unfolding walk mark
  walk-Reached zero n st k h = inl h
  walk-Reached (suc fuel) n st k h = elim (Bool-cases (includes_text st.seen (w.key n))) [
    | inl e ↦ inl (rw (e, walk) at h)
    | inr e ↦
        Reached-mark n st.seen _
          (run-Reached (walk fuel w) (walk-Reached fuel) (w.actions n) (mark w n st)) k
          (rw (e, walk) at h)
  ]

  pub walk_all-Reached :
      (fuel : ℕ) (ns : List Text) (st : Trail O) → Reached w ns st.seen (walk_all fuel w ns st).seen
  unfolding walk_all
  walk_all-Reached fuel [] st k h = inl h
  walk_all-Reached fuel (n ∷ ns) st k h =
      Reached-trans n ns st.seen (walk fuel w n st).seen _ (walk-Reached fuel n st)
        (walk_all-Reached fuel ns (walk fuel w n st)) k h

  -- A set that is closed under the calls holds all that is reached from its members.
  pub Reach-seen :
      (seen : List Text) {n m : Text}
      → Closes w [] seen
      → Reach w n m
      → includes_text seen (w.key n) ≡ true
      → includes_text seen (w.key m) ≡ true
  unfolding includes_text
  Reach-seen seen closes here h = h
  Reach-seen seen {n} closes (next from r) h = elim (closes n h) [
    | inl nowhere ↦ cc
    | inr all ↦ Reach-seen seen closes r (All-mem _ _ all from)
  ]
