-- ===== src/Layout/Compute/Positive.antt =====
-- Every alignment that src/analyzer/structLayoutEngine.ts computes is at least 1.
use c_interface_discovery.Prelude.{
  ℕ, zero, suc, ◌≤◌, Text, List, Option, none, some, Bool, true, false, subst, arith, Bool-cases,
  Option-cases, ◌||◌, inl, inr,
}
use c_interface_discovery.Prelude.Dict.{Dict, get, AllEntries, AllEntries-get}
use c_interface_discovery.Types.{CStruct, CField, TypeDict}
use c_interface_discovery.Layout.Primitives.{
  Target, bit32, bit64, prim32, overlay64, prim, or_else, primitive_size_align, pointer_align,
}
use c_interface_discovery.Layout.FieldType.{ParsedFieldType}
use c_interface_discovery.Layout.Typedefs.{
  no_next, is_struct, chase_primitive, chase_alias_to_primitive,
}
use c_interface_discovery.Layout.Fields.{
  Measured, Layout, LoopState, place, append, finish, begin, layout_fields,
}
use c_interface_discovery.Layout.Fields.Loop.{Keeps, fields_loop-keeps}
use c_interface_discovery.Layout.Compute.{
  guarded, word, of_layout, measure_nested, measure_named, measure, compute_layout_internal,
}

abbrev Positive : Text → ℕ × ℕ → Type 0
Positive name size_align = 1 ≤ size_align.1

prim32-Positive : AllEntries Positive prim32
unfolding prim32
prim32-Positive = omega arith

overlay64-Positive : AllEntries Positive overlay64
unfolding overlay64
overlay64-Positive = omega arith

-- A size and an alignment that were found have an alignment of at least 1.
abbrev FoundPositive : Option (ℕ × ℕ) → Type 0
FoundPositive none = Unit
FoundPositive (some size_align) = 1 ≤ size_align.1

get-Positive : (d : Dict (ℕ × ℕ)) (name : Text) → AllEntries Positive d → FoundPositive (get d name)
get-Positive d name h = elim (Option-cases (get d name)) [
  | inl e ↦ rw e tt
  | inr (v, e) ↦ rw e (AllEntries-get Positive d name v h e)
]

or_else-Positive :
    (a b : Option (ℕ × ℕ)) → FoundPositive a → FoundPositive b → FoundPositive (or_else a b)
unfolding or_else
or_else-Positive none b h k = k
or_else-Positive (some a) b h k = h

prim-Positive : (name : Text) (target : Target) → FoundPositive (primitive_size_align name target)
unfolding primitive_size_align prim
prim-Positive name bit32 = get-Positive prim32 _ prim32-Positive
prim-Positive name bit64 =
    or_else-Positive _ _ (get-Positive overlay64 _ overlay64-Positive)
      (get-Positive prim32 _ prim32-Positive)

chase_primitive-Positive :
    (hops : ℕ) (aliases : Dict Text) (structs : List CStruct) (target : Target) (name : Text)
    → FoundPositive (chase_primitive hops aliases structs target name)
unfolding chase_primitive
chase_primitive-Positive zero aliases structs target name = tt
chase_primitive-Positive (suc hops) aliases structs target name =
    elim (Option-cases (get aliases name)) [
      | inl e ↦ rw (e, chase_primitive) tt
      | inr (next, e) ↦
          rw (e, chase_primitive)
            (elim (Bool-cases (no_next (some next) name || is_struct structs next)) [
              | inl f ↦ rw f tt
              | inr f ↦ rw f (elim (Option-cases (primitive_size_align next target)) [
                | inl g ↦ rw g (chase_primitive-Positive hops aliases structs target next)
                | inr (p, g) ↦ rw g (subst FoundPositive g (prim-Positive next target))
              ])
            ])
    ]

chase_alias-Positive :
    (name : Text) (dict : TypeDict) (target : Target)
    → FoundPositive (chase_alias_to_primitive name dict target)
unfolding chase_alias_to_primitive
chase_alias-Positive name dict target = elim (Option-cases dict.typedef_aliases) [
  | inl e ↦ rw (e, chase_alias_to_primitive) tt
  | inr (aliases, e) ↦
      rw (e, chase_alias_to_primitive) (chase_primitive-Positive 6 aliases dict.structs target name)
]

record HasAlign (st : LoopState) : Type 0 where
  positive : 1 ≤ st.struct_align

HasAlign-keeps : Keeps (λ align. Unit {0}) HasAlign
unfolding place append
HasAlign-keeps = record {
  flag = λ e st h. record { positive = h.positive };
  next = λ f name align type inner st g at_offset at_align h. record {
    positive = omega (arith, h.positive);
  };
}

layout_fields-positive :
    (μ : ParsedFieldType → Measured) (pack : ℕ) (fields : List CField)
    → 1 ≤ (layout_fields μ pack fields).align_bytes
unfolding layout_fields finish
layout_fields-positive μ pack fields =
    (fields_loop-keeps HasAlign-keeps μ pack (λ _. tt) fields begin
      (record { positive = omega arith })).positive

pub compute-positive :
    (fuel : ℕ) (target : Target) (dict : TypeDict) (map : Dict Text) (guard : List Text) (pack : ℕ)
    (struct : CStruct)
    → 1 ≤ (compute_layout_internal fuel target dict map guard pack struct).align_bytes
unfolding compute_layout_internal
compute-positive zero target dict map guard pack struct = omega arith
compute-positive (suc fuel) target dict map guard pack struct = layout_fields-positive _ pack _

word-positive : (target : Target) (e : Bool) → 1 ≤ (word target e).align
unfolding word pointer_align
word-positive bit32 e = omega arith
word-positive bit64 e = omega arith

module _ (nested : CStruct → Layout) (positive : (s : CStruct) → 1 ≤ (nested s).align_bytes)
    (target : Target) where
  measure_nested-positive :
      (guard : List Text) (o : Option CStruct) → 1 ≤ (measure_nested nested target guard o).align
  unfolding measure_nested of_layout
  measure_nested-positive guard none = word-positive target true
  measure_nested-positive guard (some s) = elim (Bool-cases (guarded guard s.name)) [
    | inl e ↦ rw e (word-positive target true)
    | inr e ↦ rw e (positive s)
  ]

  measure_named-positive :
      (guard : List Text) (o : Option CStruct) (found : Option (ℕ × ℕ))
      → FoundPositive found
      → 1 ≤ (measure_named nested target guard o found).align
  unfolding measure_named
  measure_named-positive guard o none h = measure_nested-positive guard o
  measure_named-positive guard o (some (size, align)) h = h

  pub measure-positive :
      (dict : TypeDict) (map : Dict Text) (guard : List Text) (parsed : ParsedFieldType)
      → 1 ≤ (measure nested target dict map guard parsed).align
  unfolding measure
  measure-positive dict map guard parsed = elim (Bool-cases parsed.is_pointer) [
    | inl e ↦ rw e (word-positive target false)
    | inr e ↦ rw e (
        measure_named-positive guard _ _
          (or_else-Positive _ _ (prim-Positive _ target) (chase_alias-Positive _ dict target)))
  ]
