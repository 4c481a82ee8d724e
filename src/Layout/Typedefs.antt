-- ===== src/Layout/Typedefs.antt =====
-- `buildTypedefMap`, `chaseAliasToPrimitive` and `resolveToStruct` of
-- src/analyzer/structLayoutEngine.ts.
use c_interface_discovery.Prelude.{
  ℕ, zero, suc, Text, List, [], ◌∷◌, Option, none, some, Bool, true, ◌||◌, ◌===◌, any, find,
  if◌then◌else◌,
}
use c_interface_discovery.Prelude.Dict
use c_interface_discovery.Prelude.Dict.{Dict}
use c_interface_discovery.Types.{CStruct, TypeDict}
use c_interface_discovery.Layout.Primitives.{Target, primitive_size_align}

-- `!next || next === name` for the alias of `name`
unfoldable pub no_next : Option Text → Text → Bool
no_next none name = true
no_next (some next) name = next === [] || next === name

-- The loop that chases an alias chain, with the hops left: the name to store, or `none` where the
-- hops run out and the alias is not stored.
unfoldable pub chase : ℕ → Dict Text → Dict Text → Text → Option Text
chase zero map aliases resolved = none
chase (suc hops) map aliases resolved = elim (Dict.get map resolved) [
  | some canonical ↦ some canonical
  | none ↦ elim (Dict.get aliases resolved) [
    | none ↦ some resolved
    | some next ↦
        if no_next (some next) resolved then some resolved else chase hops map aliases next
  ]
]

unfoldable pub store : Option Text → Text → Dict Text → Dict Text
store none alias map = map
store (some canonical) alias map = Dict.set map alias canonical

unfoldable pub add_aliases : Dict Text → Dict Text → Dict Text → Dict Text
add_aliases aliases [] map = map
add_aliases aliases ((alias, canonical) ∷ rest) map =
    add_aliases aliases rest
      (if Dict.has map alias then map else store (chase 4 map aliases canonical) alias map)

unfoldable pub struct_names : List CStruct → Dict Text → Dict Text
struct_names [] map = map
struct_names (s ∷ ss) map = struct_names ss (Dict.set map s.name s.name)

unfoldable pub build_typedef_map : TypeDict → Dict Text
build_typedef_map dict =
    let map = struct_names dict.structs [] in
    elim dict.typedef_aliases [ none ↦ map | some aliases ↦ add_aliases aliases aliases map ]

unfoldable pub is_struct : List CStruct → Text → Bool
is_struct structs name = any (λ s. s.name === name) structs

-- The loop of `chaseAliasToPrimitive`, with the hops left.
unfoldable pub chase_primitive : ℕ → Dict Text → List CStruct → Target → Text → Option (ℕ × ℕ)
chase_primitive zero aliases structs target name = none
chase_primitive (suc hops) aliases structs target name = elim (Dict.get aliases name) [
  | none ↦ none
  | some next ↦
      if no_next (some next) name || is_struct structs next
      then none
      else (elim (primitive_size_align next target) [
        | some size_align ↦ some size_align
        | none ↦ chase_primitive hops aliases structs target next
      ])
]

unfoldable pub chase_alias_to_primitive : Text → TypeDict → Target → Option (ℕ × ℕ)
chase_alias_to_primitive type_name dict target = elim dict.typedef_aliases [
  | none ↦ none
  | some aliases ↦ chase_primitive 6 aliases dict.structs target type_name
]

-- `typedefMap.get(typeName) ?? typeName`
unfoldable pub canonical_of : Dict Text → Text → Text
canonical_of map type_name = elim (Dict.get map type_name) [ none ↦ type_name | some c ↦ c ]

unfoldable pub resolve_to_struct : Text → TypeDict → Dict Text → Option CStruct
resolve_to_struct type_name dict map =
    find (λ s. s.name === canonical_of map type_name) dict.structs
