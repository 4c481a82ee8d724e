-- ===== src/Roles/Order.antt =====
-- The report of src/analyzer/structRoleAnalyzer.ts is in order of the roles.
use mathlib.Core.List.{Perm, append-nil}
use c_interface_discovery.Prelude.{
  Text, List, [], ◌∷◌, ◌++◌, map, keep, Bool, ◌≡◌, refl, sym, ap, ◌∙◌, Bool-cases, inl, inr,
  if◌then◌else◌,
}
use c_interface_discovery.Roles.Types.{
  StructRole, wire_root, wire_root_nested, envelope, root_candidate, shared_block, block, orphan,
  StructRoleInfo, StructRoleInput,
}
use c_interface_discovery.Roles.Containment.{containment}
use c_interface_discovery.Roles.Report.{
  bindings, is_wire_root, is_envelope_role, info_of, reported_before, analyze_struct_roles,
}
use c_interface_discovery.Roles.Standing.{
  same_role, same_role-eq, of_role, by_role, every_role, IsDeepestFirst, sort_by-IsStanding,
  sort_by-perm,
}
use c_interface_discovery.Roles.Grouped.{IsStanding-by_role, IsStanding-IsDeepestFirst}

module _ (t : StructRole → Bool) where
  keep-append :
      (xs ys : List StructRoleInfo)
      → keep (λ x. t x.role) (xs ++ ys) ≡ keep (λ x. t x.role) xs ++ keep (λ x. t x.role) ys
  keep-append [] ys = refl
  keep-append (x ∷ xs) ys = elim (Bool-cases (t x.role)) [
    | inl e ↦ rw (e, keep-append xs ys) refl
    | inr e ↦ rw (e, keep-append xs ys) refl
  ]

  keep-of_role :
      (q : StructRole) (xs : List StructRoleInfo)
      → keep (λ x. t x.role) (of_role q xs) ≡ (if t q then of_role q xs else [])
  keep-of_role q [] = elim (Bool-cases (t q)) [ inl e ↦ rw (e) refl | inr e ↦ rw (e) refl ]
  keep-of_role q (x ∷ xs) = elim (Bool-cases (same_role q x.role)) [
    | inr other ↦ rw (other) (keep-of_role q xs)
    | inl same ↦
        let tests : t x.role ≡ t q = ap t (sym (same_role-eq q x.role same)) in
        elim (Bool-cases (t q)) [
          | inl e ↦ let rest = keep-of_role q xs ∙ rw (e) refl in rw (same, tests, e, rest) refl
          | inr e ↦ let rest = keep-of_role q xs ∙ rw (e) refl in rw (same, tests, e, rest) refl
        ]
  ]

  -- A test of the role keeps or drops the structs of a role together.
  keep-by_role :
      (qs : List StructRole) (xs : List StructRoleInfo)
      → keep (λ x. t x.role) (by_role qs xs) ≡ by_role (keep t qs) xs
  keep-by_role [] xs = refl
  keep-by_role (q ∷ qs) xs =
      rw (keep-append (of_role q xs) (by_role qs xs), keep-of_role q xs, keep-by_role qs xs)
        (elim (Bool-cases (t q)) [ inl e ↦ rw (e) refl | inr e ↦ rw (e) refl ])

module _ (text_before locale_before : Text → Text → Bool) where
  names_of :
      (t : StructRole → Bool) (input : StructRoleInput)
      → map
          (λ r. r.name)
          (keep (λ r. t r.role) (analyze_struct_roles text_before locale_before input).roles)
        ≡ map
            (λ r. r.name)
            (by_role
              (keep t every_role)
              (analyze_struct_roles text_before locale_before input).roles)
  unfolding analyze_struct_roles
  names_of t input =
      ap (λ rs. map (λ r. r.name) (keep (λ r. t r.role) rs))
        (IsStanding-by_role _ (sort_by-IsStanding text_before locale_before _))
      ∙ ap (map (λ r. r.name)) (keep-by_role t every_role _)

  -- The report lists the structs role by role: nested messages, then messages, envelopes,
  -- candidates, shared blocks, blocks and orphans, and in each role none is deeper than one before
  -- it. Its entries are the information on the structs of the dictionary, rearranged. Its messages
  -- are the names of the nested messages, then of the others, and its envelopes the names of the
  -- structs of that role, both in the order of the report.
  pub analyze_struct_roles-IsOrdered :
      (input : StructRoleInput)
      → let report = analyze_struct_roles text_before locale_before input in
        (report.roles
          ≡ by_role
              (wire_root_nested ∷ wire_root ∷ envelope ∷ root_candidate ∷ shared_block ∷ block
                ∷ orphan ∷ [])
              report.roles)
        × ((q : StructRole) → IsDeepestFirst (of_role q report.roles))
        × Perm report.roles (
            map
              (info_of text_before locale_before input
                (containment input.type_dict)
                (bindings input))
              input.type_dict.structs)
        × (report.wire_roots
            ≡ map (λ r. r.name) (by_role (wire_root_nested ∷ wire_root ∷ []) report.roles))
        × (report.envelopes ≡ map (λ r. r.name) (of_role envelope report.roles))
  unfolding analyze_struct_roles is_wire_root is_envelope_role
  analyze_struct_roles-IsOrdered input =
      let stands = sort_by-IsStanding text_before locale_before _ in
      (
        IsStanding-by_role _ stands,
        (λ q. IsStanding-IsDeepestFirst q _ stands),
        sort_by-perm (reported_before text_before locale_before) _,
        names_of is_wire_root input,
        names_of is_envelope_role input
            ∙ ap (map (λ r. r.name)) (
                append-nil
                  (of_role envelope (analyze_struct_roles text_before locale_before input).roles)),
      )
