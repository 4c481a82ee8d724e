-- ===== src/Walk/Visits.antt =====
-- What a walk writes, where it only writes on entering a node and a key is the node itself.
use c_interface_discovery.Prelude.{ℕ, zero, suc, Text, List, [], ◌∷◌, ◌≡◌, ap, Bool-cases, inl, inr}
use c_interface_discovery.Graph.{includes_text}
use c_interface_discovery.Walk.{Trail, Action, go, act, Walker, step, run, mark, walk}

-- No action writes.
abbrev pub OnlyGoes : {O : Type 0} → List (Action O) → Type 0
OnlyGoes [] = Unit
OnlyGoes (go n ∷ more) = OnlyGoes more
OnlyGoes (act change ∷ more) = ⊥

module _ {O : Type 0} (w : Walker O) (start : O) where
  -- The writes of the nodes seen, the first node seen first.
  abbrev pub written : List Text → O
  written [] = start
  written (k ∷ seen) = w.enter k (written seen)

  abbrev pub IsWritten : Trail O → Type 0
  IsWritten st = st.out ≡ written st.seen

  run-IsWritten :
      (call : Text → Trail O → Trail O)
      → ((n : Text) (st : Trail O) → IsWritten st → IsWritten (call n st))
      → (actions : List (Action O)) (st : Trail O) → OnlyGoes actions
      → IsWritten st
      → IsWritten (run call actions st)
  unfolding run step
  run-IsWritten call keeps [] st only h = h
  run-IsWritten call keeps (go n ∷ more) st only h =
      run-IsWritten call keeps more (call n st) only (keeps n st h)
  run-IsWritten call keeps (act change ∷ more) st only h = absurd only

  pub walk-IsWritten :
      ((n : Text) → w.key n ≡ n)
      → ((n : Text) → OnlyGoes (w.actions n))
      → (fuel : ℕ) (n : Text) (st : Trail O) → IsWritten st
      → IsWritten (walk fuel w n st)
  unfolding walk mark
  walk-IsWritten plain only zero n st h = h
  walk-IsWritten plain only (suc fuel) n st h =
      elim (Bool-cases (includes_text st.seen (w.key n))) [
        | inl e ↦ rw (e, walk) h
        | inr e ↦
            rw (e, walk)
              (run-IsWritten (walk fuel w) (walk-IsWritten plain only fuel) (w.actions n)
                (mark w n st) (only n) (rw (plain n) (ap (w.enter n) h)))
      ]
