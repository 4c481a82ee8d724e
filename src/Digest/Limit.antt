-- ===== src/Digest/Limit.antt =====
-- The digest of src/llm/digest.ts keeps to its budget.
use c_interface_discovery.Prelude.{
  ℕ, ◌+◌, ◌-◌, ◌≤◌, Text, List, [], ◌∷◌, ◌++◌, length, length-append, ltb, Bool, Bool-cases, inl,
  inr, Option, ◌≡◌, refl, arith,
}
use c_interface_discovery.Composition.Summary.{join_with}
use c_interface_discovery.Digest.Budget.{
  Section, Overflow, estimate_tokens, join_lines, notional_reserve, add_notice,
}
use c_interface_discovery.Digest.Rows.{ScopedApp, DigestScope}
use c_interface_discovery.Digest.Sections.{
  section_of, messages_section, edges_section, structs_section, unresolved_section, unknown_section,
  misc_section, build_sections,
}
use c_interface_discovery.Digest.{
  ApplicationGroup, DigestOptions, header_text, start, filled, digest_of, nothing_in_scope,
  assemble, build_digest, resolve_scope,
}
use c_interface_discovery.Digest.Filling.{cost, IsWithin, fill-IsWithin, fill-parts}
use c_interface_discovery.Digest.Notice.{add_notice-IsNoticed, reserve-bounds, join_lines-cost}

section_of-le :
    (tier : ℕ) (name heading : Text) (intro lines : List Text) (o : Option Overflow) (via : Text)
    → length (section_of tier name heading intro lines o via) ≤ 1
unfolding section_of
section_of-le tier name heading intro [] o via = omega arith
section_of-le tier name heading intro (line ∷ lines) o via = omega arith

edges_section-le :
    (single : Bool) (scoped : List ScopedApp) → length (edges_section single scoped) ≤ 1
unfolding edges_section
edges_section-le single scoped = elim (Bool-cases (ltb 1 (length scoped))) [
  | inl e ↦ rw (e, edges_section) (section_of-le _ _ _ _ _ _ _)
  | inr e ↦ rw (e, edges_section) (omega arith)
]

-- There are six sections at most.
build_sections-le :
    (locale_before : Text → Text → Bool) (scoped : List ScopedApp) (scope : DigestScope)
    → length (build_sections locale_before scoped scope) ≤ 6
unfolding build_sections messages_section structs_section unresolved_section unknown_section
    misc_section
build_sections-le locale_before scoped scope = length-join _ _ 5 (section_of-le _ _ _ _ _ _ _) (
    length-join _ _ 4 (edges_section-le _ scoped) (
      length-join _ _ 3 (section_of-le _ _ _ _ _ _ _) (
        length-join _ _ 2 (section_of-le _ _ _ _ _ _ _)
          (length-join _ _ 1 (section_of-le _ _ _ _ _ _ _) (section_of-le _ _ _ _ _ _ _)))))
  where
    length-join :
        (xs ys : List Section) (n : ℕ) → length xs ≤ 1 → length ys ≤ n → length (xs ++ ys) ≤ n + 1
    length-join xs ys n h k = omega (arith, length-append xs ys)

no_parts : estimate_tokens (join_lines []) ≡ 0
unfolding estimate_tokens join_lines join_with
no_parts = omega arith

-- Up to eight parts, with the newlines between them.
estimate_tokens-join_lines :
    (parts : List Text) → length parts ≤ 8 → estimate_tokens (join_lines parts) ≤ cost parts + 2
unfolding estimate_tokens
estimate_tokens-join_lines [] h = omega (arith, no_parts)
estimate_tokens-join_lines (p ∷ parts) h = omega (arith, join_lines-cost p parts)

nothing_in_scope-le : estimate_tokens nothing_in_scope ≤ 80
unfolding nothing_in_scope estimate_tokens join_lines join_with
nothing_in_scope-le = omega arith

module _ (locale_before : Text → Text → Bool) where
  filled-bounds :
      (scoped : List ScopedApp) (opts : DigestOptions)
      → estimate_tokens (header_text scoped opts)
        ≤ opts.budget_tokens - notional_reserve opts.budget_tokens
      → IsWithin
          (opts.budget_tokens - notional_reserve opts.budget_tokens)
          (filled locale_before scoped opts)
        × (length (filled locale_before scoped opts).parts ≤ 7)
  unfolding filled start
  filled-bounds scoped opts h = (
    fill-IsWithin (opts.budget_tokens - notional_reserve opts.budget_tokens)
        (build_sections locale_before scoped opts.scope) (start scoped opts) (omega arith, h),
    omega (
      arith,
      fill-parts (opts.budget_tokens - notional_reserve opts.budget_tokens)
          (build_sections locale_before scoped opts.scope) (start scoped opts),
      build_sections-le locale_before scoped opts.scope,
    ),
  )

  assemble-le :
      (scoped : List ScopedApp) (opts : DigestOptions)
      → estimate_tokens (header_text scoped opts) + notional_reserve opts.budget_tokens
        ≤ opts.budget_tokens
      → (assemble locale_before scoped opts).estimated_tokens ≤ opts.budget_tokens + 2
  unfolding assemble digest_of
  assemble-le [] opts h = omega (arith, nothing_in_scope-le, reserve-bounds opts.budget_tokens)
  assemble-le (a ∷ scoped) opts h =
      let reserve = notional_reserve opts.budget_tokens in
      let st = filled locale_before (a ∷ scoped) opts in
      let noticed = add_notice-IsNoticed reserve st st.omitted (reserve-bounds _).0 refl in
      let (within, parts) = filled-bounds (a ∷ scoped) opts (omega arith) in
      omega (
        arith,
        estimate_tokens-join_lines (add_notice reserve st).parts (omega (arith, noticed.1, parts)),
        noticed.0,
        within.0,
        within.1,
      )

-- If the header and the reserve for the notice fit in the budget, then whatever the analyses hold, the
-- estimate of the whole digest, notice included, is at most two tokens above the budget: those of the
-- newlines between its parts, which the loop does not count.
pub build_digest-le :
    (locale_before : Text → Text → Bool) (apps : List ApplicationGroup) (opts : DigestOptions)
    → estimate_tokens (header_text (resolve_scope apps opts.scope) opts)
        + notional_reserve opts.budget_tokens
      ≤ opts.budget_tokens
    → (build_digest locale_before apps opts).estimated_tokens ≤ opts.budget_tokens + 2
unfolding build_digest
build_digest-le locale_before apps opts h =
    assemble-le locale_before (resolve_scope apps opts.scope) opts h
