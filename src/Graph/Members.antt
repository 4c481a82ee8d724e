-- ===== src/Graph/Members.antt =====
-- Membership in the lists of texts that stand for the arrays and sets of the program.
use c_interface_discovery.Prelude.{
  Text, List, [], ◌∷◌, ◌++◌, map, keep, length, none, Bool, true, ◌&&◌, ◌||◌, ◌===◌, ===_iff, ◌≡◌,
  ◌⊎◌, refl, ap, suc, Bool-cases, inl, inr, arith,
}
use c_interface_discovery.Prelude.Dict.{Dict, get}
use c_interface_discovery.Graph.{includes_text}

pub includes_text-append :
    (xs ys : List Text) (k : Text)
    → includes_text (xs ++ ys) k ≡ (includes_text xs k || includes_text ys k)
unfolding includes_text
includes_text-append [] ys k = refl
includes_text-append (x ∷ xs) ys k = ground (arith, includes_text-append xs ys k)

pub includes_text-keep :
    (p : Text → Bool) (xs : List Text) (k : Text)
    → includes_text (keep p xs) k ≡ (p k && includes_text xs k)
unfolding includes_text
includes_text-keep p [] k = ground arith
includes_text-keep p (x ∷ xs) k = elim (Bool-cases (x === k)) [
  | inr e ↦ ground (arith, includes_text-keep p xs k)
  | inl e ↦
      let same : p x ≡ p k = ap p ((===_iff x k).0 e) in ground (arith, includes_text-keep p xs k)
]

module _ {V : Type 0} where
  abbrev pub keys : Dict V → List Text
  keys d = map (λ e. e.0) d

  pub length-keys : (d : Dict V) → length (keys d) ≡ length d
  length-keys [] = refl
  length-keys (e ∷ d) = ap suc (length-keys d)

  pub get-keys : (d : Dict V) (n : Text) → (get d n ≡ none) ⊎ (includes_text (keys d) n ≡ true)
  unfolding get includes_text
  get-keys [] n = inl refl
  get-keys ((k, v) ∷ d) n = elim (Bool-cases (k === n)) [
    | inl e ↦ inr (rw e refl)
    | inr e ↦ elim (get-keys d n) [ inl z ↦ inl (rw e z) | inr h ↦ inr (rw e h) ]
  ]
