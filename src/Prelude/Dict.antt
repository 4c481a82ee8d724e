-- ===== src/Prelude/Dict.antt =====
-- A JavaScript `Map` with string keys: the entries in insertion order, an update in place.
use mathlib.Core.Path.{◌≡◌, refl}
use mathlib.Core.Logic.{inl, inr}
use mathlib.Core.Bool.{Bool, true, false}
use mathlib.Core.Option.{Option, none, some}
use mathlib.Core.List.{List, [], ◌∷◌}
use native.Mathlib.Omega.{arith}
use c_interface_discovery.Prelude.Tests.{if◌then◌else◌, Bool-cases}
use c_interface_discovery.Prelude.Lists.{All, All-mono}
use c_interface_discovery.Prelude.Texts.{Text, ◌===◌, ===_iff, ===_refl}

abbrev pub Dict {ℓ} : Type ℓ → Type ℓ
Dict V = List (Text × V)

module _ {ℓ} {V : Type ℓ} where
  -- `m.get(k)`
  unfoldable pub get : Dict V → Text → Option V
  get [] k = none
  get ((j, v) ∷ d) k = if j === k then some v else get d k

  -- `m.has(k)`
  unfoldable pub has : Dict V → Text → Bool
  has [] k = false
  has ((j, v) ∷ d) k = if j === k then true else has d k

  -- `m.set(k, v)`
  unfoldable pub set : Dict V → Text → V → Dict V
  set [] k v = (k, v) ∷ []
  set ((j, w) ∷ d) k v = if j === k then (j, v) ∷ d else (j, w) ∷ set d k v

  -- `m.delete(k)`
  unfoldable pub delete : Dict V → Text → Dict V
  delete [] k = []
  delete ((j, w) ∷ d) k = let rest = delete d k in if j === k then rest else (j, w) ∷ rest

  pub get-set :
      (d : Dict V) (k j : Text) (v : V) → get (set d k v) j ≡ (if k === j then some v else get d j)
  unfolding get set
  get-set [] k j v = refl
  get-set ((i, w) ∷ d) k j v =
      ground (arith, ===_iff k j, ===_iff i k, ===_iff i j, get-set d k j v)

  pub get-delete :
      (d : Dict V) (k j : Text) → get (delete d k) j ≡ (if k === j then none else get d j)
  unfolding get delete
  get-delete [] k j = ground arith
  get-delete ((i, w) ∷ d) k j =
      ground (arith, ===_iff k j, ===_iff i k, ===_iff i j, get-delete d k j)

  pub has-set :
      (d : Dict V) (k j : Text) (v : V) → has (set d k v) j ≡ (if k === j then true else has d j)
  unfolding has set
  has-set [] k j v = refl
  has-set ((i, w) ∷ d) k j v =
      ground (arith, ===_iff k j, ===_iff i k, ===_iff i j, has-set d k j v)

  pub has-delete :
      (d : Dict V) (k j : Text) → has (delete d k) j ≡ (if k === j then false else has d j)
  unfolding has delete
  has-delete [] k j = ground arith
  has-delete ((i, w) ∷ d) k j =
      ground (arith, ===_iff k j, ===_iff i k, ===_iff i j, has-delete d k j)

  pub has-get : (d : Dict V) (k : Text) → has d k ≡ elim (get d k) [ none ↦ false | some _ ↦ true ]
  unfolding has get
  has-get [] k = refl
  has-get ((i, w) ∷ d) k = ground (arith, has-get d k)

  -- No key is stored twice.
  abbrev pub IsUnique : Dict V → Type 0
  IsUnique [] = Unit
  IsUnique ((k, v) ∷ d) = (has d k ≡ false) × IsUnique d

  pub IsUnique-set : (d : Dict V) (k : Text) (v : V) → IsUnique d → IsUnique (set d k v)
  unfolding set has
  IsUnique-set [] k v h = (refl, tt)
  IsUnique-set ((j, w) ∷ d) k v (p, h) =
      ground (arith, has-set d k j v, ===_iff k j, ===_iff j k, IsUnique-set d k v h)

  pub IsUnique-delete : (d : Dict V) (k : Text) → IsUnique d → IsUnique (delete d k)
  unfolding delete
  IsUnique-delete [] k h = tt
  IsUnique-delete ((j, w) ∷ d) k (p, h) = ground (arith, has-delete d k j, IsUnique-delete d k h)

  -- What iteration finds is what `get` finds.
  pub entries-get : (d : Dict V) → IsUnique d → All (λ e. get d e.0 ≡ some e.1) d
  unfolding get has
  entries-get [] h = tt
  entries-get ((k, v) ∷ d) (p, h) = (
    ground (arith, ===_refl k),
    All-mono (λ e found. ground (arith, ===_iff k e.0, has-get d e.0, has-get d k, found, p)) d
        (entries-get d h),
  )

module _ {ℓ κ} {V : Type ℓ} (P : Text → V → Type κ) where
  -- `P` holds of every entry.
  abbrev pub AllEntries : Dict V → Type κ
  AllEntries [] = Unit
  AllEntries ((k, v) ∷ d) = P k v × AllEntries d

  pub AllEntries-set :
      (d : Dict V) (k : Text) (v : V) → P k v → AllEntries d → AllEntries (set d k v)
  unfolding set
  AllEntries-set [] k v p h = (p, tt)
  AllEntries-set ((j, w) ∷ d) k v p (q, h) = elim (Bool-cases (j === k)) [
    | inl e ↦ rw (e, set) (rw ((===_iff j k).0 e) (p, h))
    | inr e ↦ rw (e, set) (q, AllEntries-set d k v p h)
  ]

  pub AllEntries-delete : (d : Dict V) (k : Text) → AllEntries d → AllEntries (delete d k)
  unfolding delete
  AllEntries-delete [] k h = tt
  AllEntries-delete ((j, w) ∷ d) k (q, h) = elim (Bool-cases (j === k)) [
    | inl e ↦ rw (e, delete) (AllEntries-delete d k h)
    | inr e ↦ rw (e, delete) (q, AllEntries-delete d k h)
  ]

  pub AllEntries-get : (d : Dict V) (k : Text) (v : V) → AllEntries d → get d k ≡ some v → P k v
  unfolding get
  AllEntries-get [] k v h e = cc
  AllEntries-get ((j, w) ∷ d) k v (q, h) e = elim (Bool-cases (j === k)) [
    | inl same ↦ let found : w ≡ v = ground arith in rw (← (===_iff j k).0 same, ← found) q
    | inr other ↦ AllEntries-get d k v h (rw (other, get) at e)
  ]

-- Undoing an update.
module _ {ℓ} {V : Type ℓ} where
  pub delete-fresh : (d : Dict V) (k : Text) → has d k ≡ false → delete d k ≡ d
  unfolding delete has
  delete-fresh [] k h = refl
  delete-fresh ((j, w) ∷ d) k h = ground (arith, delete-fresh d k)

  pub delete-set : (d : Dict V) (k : Text) (v : V) → has d k ≡ false → delete (set d k v) k ≡ d
  unfolding delete set has
  delete-set [] k v h = ground (arith, ===_refl k)
  delete-set ((j, w) ∷ d) k v h = ground (arith, delete-set d k v)

  pub set-set : (d : Dict V) (k : Text) (v w : V) → set (set d k v) k w ≡ set d k w
  unfolding set
  set-set [] k v w = ground (arith, ===_refl k)
  set-set ((j, u) ∷ d) k v w = ground (arith, set-set d k v w)

  pub set-get : (d : Dict V) (k : Text) (v : V) → get d k ≡ some v → set d k v ≡ d
  unfolding set get
  set-get [] k v h = cc
  set-get ((j, u) ∷ d) k v h = ground (arith, set-get d k v)

  pub delete-set_ne :
      (d : Dict V) (k j : Text) (v : V)
      → (k === j) ≡ false
      → has d j ≡ true
      → delete (set d j v) k ≡ set (delete d k) j v
  unfolding delete set has
  delete-set_ne [] k j v h p = cc
  delete-set_ne ((i, u) ∷ d) k j v h p =
      ground (arith, delete-set_ne d k j v h, ===_iff i k, ===_iff i j, ===_iff k j)
