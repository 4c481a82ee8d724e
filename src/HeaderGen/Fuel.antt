-- ===== src/HeaderGen/Fuel.antt =====
-- The walk over the types of src/analyzer/headerGenBundle.ts has fuel enough.
use c_interface_discovery.Prelude.{
  suc, Text, List, [], ◌∷◌, map, length, find, Option, none, some, true, ◌===◌, ===_iff, ◌≡◌, refl,
  ap, subst, if◌then◌else◌, Bool-cases, Option-cases, inl, inr,
}
use c_interface_discovery.Types.{CStruct, CEnum, TypeDict}
use c_interface_discovery.Graph.{includes_text}
use c_interface_discovery.Walk.{Trail, run, mark, walk}
use c_interface_discovery.Walk.Fuel.{HasEntries, includes_text-here, includes_text-there, walk-eq}
use c_interface_discovery.HeaderGen.Walks.{
  Types, or_enum, lookup_type, calls_of, type_key, type_walker,
}

-- The keys of the structs of the dictionary, from one root.
abbrev struct_keys : Text → List CStruct → List Text
struct_keys root structs = map (λ s. type_key root s.name) structs

length-struct_keys :
    (root : Text) (structs : List CStruct) → length (struct_keys root structs) ≡ length structs
length-struct_keys root [] = refl
length-struct_keys root (s ∷ structs) = ap suc (length-struct_keys root structs)

found-struct_keys :
    (root name : Text) (structs : List CStruct) {s : CStruct}
    → find (λ t. t.name === name) structs ≡ some s
    → includes_text (struct_keys root structs) (type_key root name) ≡ true
found-struct_keys root name [] h = cc
found-struct_keys root name (t ∷ structs) h = elim (Bool-cases (t.name === name)) [
  | inl e ↦
      subst (λ n. includes_text (struct_keys root (t ∷ structs)) (type_key root n) ≡ true)
        ((===_iff t.name name).0 e) (includes_text-here (type_key root t.name) _)
  | inr e ↦
      includes_text-there (type_key root t.name) (struct_keys root structs) _
        (found-struct_keys root name structs (rw e at h))
]

no_calls : (dict : TypeDict) (e : Option CEnum) → calls_of dict (or_enum none e) ≡ []
unfolding calls_of or_enum
no_calls dict none = refl
no_calls dict (some e) = refl

HasEntries-types :
    (dict : TypeDict) (root : Text)
    → HasEntries (type_walker dict root) (struct_keys root dict.structs)
unfolding type_walker lookup_type
HasEntries-types dict root name = elim (Option-cases (find (λ s. s.name === name) dict.structs)) [
  | inl z ↦ inl (rw z (no_calls dict _))
  | inr (s, e) ↦ inr (found-struct_keys root name dict.structs e)
]

-- The recursion of `walkType`, without fuel, whatever structs refer to one another.
pub type_walk-eq :
    (dict : TypeDict) (root name : Text) (st : Trail Types)
    → let w = type_walker dict root in
      let fuel = suc (length dict.structs) in
      walk fuel w name st ≡ (
        if includes_text st.seen (w.key name)
        then st
        else run (walk fuel w) (w.actions name) (mark w name st))
type_walk-eq dict root name st = rw (← length-struct_keys root dict.structs) (
    walk-eq (type_walker dict root) (struct_keys root dict.structs) (HasEntries-types dict root)
      name st)
