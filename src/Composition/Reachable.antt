-- ===== src/Composition/Reachable.antt =====
-- The warnings of src/analyzer/messageComposition.ts are those of the blocks that a message reaches.
use c_interface_discovery.Prelude.{
  suc, Text, List, [], ◌++◌, ◌∷◌, map, Option, none, some, length, true, ◌||◌, ◌≡◌, ◌↔◌, refl, sym,
  ap, subst, ◌∙◌, Bool-cases, inl, inr, arith,
}
use mathlib.Core.List.{append-nil}
use c_interface_discovery.Prelude.Dict.{get}
use c_interface_discovery.Graph.{includes_text}
use c_interface_discovery.Graph.Members.{includes_text-append, keys, length-keys, get-keys}
use c_interface_discovery.Walk.{Action, go, Trail, walk_all}
use c_interface_discovery.Walk.Fuel.{
  HasEntries, includes_text-here, includes_text-there, includes_text-cons,
}
use c_interface_discovery.Walk.Sound.{Reach}
use c_interface_discovery.Walk.Exact.{walk_all_iff}
use c_interface_discovery.Walk.Visits.{OnlyGoes, written, walk-IsWritten}
use c_interface_discovery.Roles.Types.{StructRoleInfo, StructRoleReport}
use c_interface_discovery.Composition.Warnings.{
  Warnings, no_warnings, dotted, add_own, children, warnings_walker, collect_warnings,
}

OnlyGoes-children : (o : Option StructRoleInfo) → OnlyGoes (children o)
unfolding children
OnlyGoes-children none = tt
OnlyGoes-children (some info) = only info.contains
  where
    only : (names : List Text) → OnlyGoes (map (λ n. let a : Action Warnings = go n in a) names)
    only [] = tt
    only (n ∷ names) = only names

-- The warnings of a struct itself, by its entry in the report.
abbrev pointers_of : Text → Option StructRoleInfo → List Text
pointers_of s none = []
pointers_of s (some info) = map (dotted s) info.pointer_fields

abbrev arrays_of : Text → Option StructRoleInfo → List Text
arrays_of s none = []
arrays_of s (some info) = map (dotted s) info.variable_array_fields

abbrev pub own_pointers : StructRoleReport → Text → List Text
own_pointers roles s = pointers_of s (get roles.by_name s)

abbrev pub own_arrays : StructRoleReport → Text → List Text
own_arrays roles s = arrays_of s (get roles.by_name s)

add_own-append :
    (s : Text) (o : Option StructRoleInfo) (out : Warnings)
    → ((add_own s o out).pointers ≡ out.pointers ++ pointers_of s o)
      × ((add_own s o out).variable_arrays ≡ out.variable_arrays ++ arrays_of s o)
unfolding add_own
add_own-append s none out = (rw append-nil, rw append-nil)
add_own-append s (some info) out = (refl, refl)

module _ (roles : StructRoleReport) where
  abbrev entries : List Text
  entries = keys roles.by_name

  has_entries : HasEntries (warnings_walker roles) entries
  unfolding warnings_walker children
  has_entries n = elim (get-keys roles.by_name n) [ inl z ↦ inl (rw z refl) | inr h ↦ inr h ]

  -- The trail of the walk from a root.
  abbrev trail : Text → Trail Warnings
  trail root =
      walk_all (suc (length entries)) (warnings_walker roles) (root ∷ [])
        (record { seen = []; out = no_warnings })

  collect_warnings-trail : (root : Text) → collect_warnings roles root ≡ (trail root).out
  unfolding collect_warnings walk_all
  collect_warnings-trail root = rw (length-keys roles.by_name) refl

  trail-IsWritten :
      (root : Text)
      → (trail root).out ≡ written (warnings_walker roles) no_warnings (trail root).seen
  unfolding walk_all warnings_walker
  trail-IsWritten root =
      walk-IsWritten (warnings_walker roles) no_warnings (λ n. refl)
        (λ n. OnlyGoes-children (get roles.by_name n)) (suc (length entries)) root
        (record { seen = []; out = no_warnings }) refl

  -- The structs of the report that the blocks of a struct lead to, the struct itself included.
  abbrev pub Embeds : Text → Text → Type 0
  Embeds = Reach (warnings_walker roles)

  seen-Embeds : (root s : Text) → (includes_text (trail root).seen s ≡ true) ↔ Embeds root s
  unfolding includes_text warnings_walker
  seen-Embeds root s =
      let reached =
        walk_all_iff (warnings_walker roles) entries has_entries (λ n. refl) (root ∷ []) no_warnings
          s in
      (
        λ h.
            let (n, started, r) = reached.0 h in
            elim (includes_text-cons root [] n started) [
              | inl same ↦ subst (λ a. Embeds a s) (sym same) r
              | inr none_left ↦ cc
            ],
        λ r. reached.1 (root, includes_text-here root [], r),
      )

  -- One of the two lists of warnings, with the structs' own.
  module _ (list : Warnings → List Text) (own : Text → List Text) (empty : list no_warnings ≡ [])
      (enter : (s : Text) (out : Warnings)
        → list ((warnings_walker roles).enter s out) ≡ list out ++ own s) where
    abbrev Own : List Text → Text → Type 0
    Own seen w = (s : Text) × (includes_text seen s ≡ true) × (includes_text (own s) w ≡ true)

    abbrev listed : List Text → List Text
    listed seen = list (written (warnings_walker roles) no_warnings seen)

    listed-append :
        (k : Text) (seen : List Text) (w : Text)
        → includes_text (listed (k ∷ seen)) w
          ≡ (includes_text (listed seen) w || includes_text (own k) w)
    listed-append k seen w =
        ap (λ xs. includes_text xs w) (enter k (written (warnings_walker roles) no_warnings seen))
        ∙ includes_text-append (listed seen) (own k) w

    Own-of_listed :
        (seen : List Text) (w : Text) → includes_text (listed seen) w ≡ true → Own seen w
    unfolding includes_text
    Own-of_listed [] w h = cc (rw empty at h)
    Own-of_listed (k ∷ seen) w h = elim (Bool-cases (includes_text (listed seen) w)) [
      | inl e ↦
          let (s, found, o) = Own-of_listed seen w e in (s, includes_text-there k seen s found, o)
      | inr e ↦ (k, includes_text-here k seen, rw (e) at (sym (listed-append k seen w) ∙ h))
    ]

    listed-of_Own :
        (seen : List Text) (s w : Text)
        → includes_text seen s ≡ true
        → includes_text (own s) w ≡ true
        → includes_text (listed seen) w ≡ true
    unfolding includes_text
    listed-of_Own [] s w found o = cc
    listed-of_Own (k ∷ seen) s w found o = elim (includes_text-cons k seen s found) [
      | inl same ↦
          let mine : includes_text (own k) w ≡ true =
            subst (λ x. includes_text (own x) w ≡ true) (sym same) o in
          ground (arith, listed-append k seen w)
      | inr older ↦ ground (arith, listed-append k seen w, listed-of_Own seen s w older o)
    ]

    listed_iff :
        (root w : Text)
        → (includes_text (list (collect_warnings roles root)) w ≡ true)
          ↔ ((s : Text) × Embeds root s × (includes_text (own s) w ≡ true))
    listed_iff root w =
        let same : list (collect_warnings roles root) ≡ listed (trail root).seen =
          ap list (collect_warnings-trail root ∙ trail-IsWritten root) in
        rw same (
          λ h.
              let (s, found, o) = Own-of_listed (trail root).seen w h in
              (s, (seen-Embeds root s).0 found, o),
          λ (s, r, o). listed-of_Own (trail root).seen s w ((seen-Embeds root s).1 r) o,
        )

  -- The pointer warnings of a message name exactly the pointer fields, and its warnings of variable
  -- arrays exactly the variable arrays, of the structs that its root embeds at any depth, whether or
  -- not the structs embed one another in a cycle.
  pub collect_warnings_iff :
      (root w : Text)
      → ((includes_text (collect_warnings roles root).pointers w ≡ true)
          ↔ ((s : Text) × Embeds root s × (includes_text (own_pointers roles s) w ≡ true)))
        × ((includes_text (collect_warnings roles root).variable_arrays w ≡ true)
            ↔ ((s : Text) × Embeds root s × (includes_text (own_arrays roles s) w ≡ true)))
  unfolding warnings_walker
  collect_warnings_iff root w = (
    listed_iff (λ out. out.pointers) (own_pointers roles) refl
        (λ s out. (add_own-append s (get roles.by_name s) out).0) root w,
    listed_iff (λ out. out.variable_arrays) (own_arrays roles) refl
        (λ s out. (add_own-append s (get roles.by_name s) out).1) root w,
  )
