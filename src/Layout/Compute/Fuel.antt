-- ===== src/Layout/Compute/Fuel.antt =====
-- The nesting of structs ends before the fuel does.
use mathlib.Core.Path.{fun_ext}
use c_interface_discovery.Prelude.{
  ℕ, zero, suc, ◌≤◌, ◌<◌, Text, List, [], ◌∷◌, Option, none, some, false, ◌≡◌, refl, ap, arith,
  ◌===◌, ===_refl, find, length, if◌then◌else◌, Bool-cases, Option-cases, inl, inr,
}
use c_interface_discovery.Prelude.Dict.{Dict}
use c_interface_discovery.Types.{CStruct, TypeDict}
use c_interface_discovery.Layout.Primitives.{Target}
use c_interface_discovery.Layout.Typedefs.{resolve_to_struct}
use c_interface_discovery.Layout.Fields.{Layout, layout_fields}
use c_interface_discovery.Layout.Compute.{
  guarded, word, of_layout, measure_nested, measure_named, measure, pack_value,
  compute_layout_internal, depth_of,
}

-- The structs that are not being laid out.
abbrev pub free : List Text → List CStruct → ℕ
free guard [] = 0
free guard (s ∷ ss) = if guarded guard s.name then free guard ss else suc (free guard ss)

pub free-le : (guard : List Text) (ss : List CStruct) → free guard ss ≤ length ss
free-le guard [] = omega arith
free-le guard (s ∷ ss) = ground (arith, free-le guard ss)

free-cons :
    (name : Text) (guard : List Text) (ss : List CStruct) → free (name ∷ guard) ss ≤ free guard ss
free-cons name guard [] = omega arith
free-cons name guard (s ∷ ss) = ground (arith, free-cons name guard ss)

-- A struct that is found and not guarded is one fewer to lay out once its name is guarded.
free-find :
    (name : Text) (guard : List Text) (ss : List CStruct) (s : CStruct)
    → find (λ t. t.name === name) ss ≡ some s
    → guarded guard s.name ≡ false
    → free (s.name ∷ guard) ss < free guard ss
free-find name guard [] s h g = cc
free-find name guard (t ∷ ss) s h g = elim (Bool-cases (t.name === name)) [
  | inl e ↦
      let here : t ≡ s = ground arith in
      rw here (rw (===_refl s.name, g) (omega (arith, free-cons s.name guard ss)))
  | inr e ↦ ground (arith, free-find name guard ss s, free-cons s.name guard ss)
]

module _ (target : Target) (dict : TypeDict) (map : Dict Text) (guard : List Text) where
  -- Only unguarded structs of the dictionary are looked into.
  abbrev pub Agrees : (CStruct → Layout) → (CStruct → Layout) → Type 0
  Agrees n m =
      (s : CStruct) → free (s.name ∷ guard) dict.structs < free guard dict.structs → n s ≡ m s

  measure_nested-Agrees :
      (n m : CStruct → Layout) (name : Text)
      → Agrees n m
      → measure_nested n target guard (resolve_to_struct name dict map)
        ≡ measure_nested m target guard (resolve_to_struct name dict map)
  unfolding measure_nested resolve_to_struct
  measure_nested-Agrees n m name h = elim (Option-cases (resolve_to_struct name dict map)) [
    | inl e ↦ rw e refl
    | inr (s, e) ↦ elim (Bool-cases (guarded guard s.name)) [
      | inl old ↦ rw e (rw old refl)
      | inr new ↦ rw e (rw new (ap (of_layout s) (h s (free-find _ guard dict.structs s e new))))
    ]
  ]

  measure_named-Agrees :
      (n m : CStruct → Layout) (name : Text) (prim : Option (ℕ × ℕ))
      → Agrees n m
      → measure_named n target guard (resolve_to_struct name dict map) prim
        ≡ measure_named m target guard (resolve_to_struct name dict map) prim
  unfolding measure_named
  measure_named-Agrees n m name none h = measure_nested-Agrees n m name h
  measure_named-Agrees n m name (some (size, align)) h = refl

  measure-Agrees :
      (n m : CStruct → Layout)
      → Agrees n m
      → measure n target dict map guard ≡ measure m target dict map guard
  unfolding measure
  measure-Agrees n m h = fun_ext λ parsed.
      ap (λ named. if parsed.is_pointer then word target false else named)
        (measure_named-Agrees n m parsed.base_type _ h)

compute_layout_internal-fuel :
    (f g : ℕ) (target : Target) (dict : TypeDict) (map : Dict Text) (guard : List Text) (pack : ℕ)
    (struct : CStruct)
    → free guard dict.structs < f
    → free guard dict.structs < g
    → compute_layout_internal f target dict map guard pack struct
      ≡ compute_layout_internal g target dict map guard pack struct
unfolding compute_layout_internal
compute_layout_internal-fuel zero g target dict map guard pack struct p q = absurd (omega arith)
compute_layout_internal-fuel (suc f) zero target dict map guard pack struct p q =
    absurd (omega arith)
compute_layout_internal-fuel (suc f) (suc g) target dict map guard pack struct p q =
    ap (λ μ. layout_fields μ pack struct.fields)
      (measure-Agrees target dict map guard _ _ λ s fewer.
        compute_layout_internal-fuel f g target dict map (s.name ∷ guard)
          (pack_value none s.pack_attribute target) s (omega arith) (omega arith))

-- The layout of a struct under a guard, with fuel for the whole dictionary.
abbrev pub layout_under : Target → TypeDict → Dict Text → List Text → ℕ → CStruct → Layout
layout_under target dict map guard pack struct =
    compute_layout_internal (depth_of dict) target dict map guard pack struct

-- The source's recursion, without fuel: a struct is laid out by its fields, each measured with its own
-- pack value and its name guarded where it is a nested struct. So the fuel never runs out, whatever
-- structs refer to one another.
pub layout_under-eq :
    (target : Target) (dict : TypeDict) (map : Dict Text) (guard : List Text) (pack : ℕ)
    (struct : CStruct)
    → layout_under target dict map guard pack struct
      ≡ layout_fields
          (measure
            (λ s.
              layout_under target dict map
                (s.name ∷ guard)
                (pack_value none s.pack_attribute target)
                s)
            target
            dict
            map
            guard)
          pack
          struct.fields
unfolding compute_layout_internal
layout_under-eq target dict map guard pack struct =
    ap (λ μ. layout_fields μ pack struct.fields)
      (measure-Agrees target dict map guard _ _ λ s fewer.
        compute_layout_internal-fuel (length dict.structs) (depth_of dict) target dict map
          (s.name ∷ guard) (pack_value none s.pack_attribute target) s
          (omega (arith, free-le guard dict.structs))
          (omega (arith, free-le (s.name ∷ guard) dict.structs)))
