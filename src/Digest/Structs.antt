-- ===== src/Digest/Structs.antt =====
-- The structs that src/llm/digest.ts lists, and those that it leaves out of the list as orphans.
use mathlib.Core.List.{Memᴰ}
use c_interface_discovery.Prelude.{
  ℕ, ◌+◌, ◌≤◌, Text, List, [], ◌∷◌, ◌++◌, map, keep, Option, none, some, Bool, true, codes, length,
  length-append, ltb, ◌===◌, All, Memᴰ-append_left, Memᴰ-append_right, ◌≡◌, ◌⊎◌, refl, Bool-cases,
  inl, inr, arith,
}
use c_interface_discovery.Roles.Types.{
  StructRole, wire_root, wire_root_nested, envelope, root_candidate, shared_block, block, orphan,
  StructRoleInfo,
}
use c_interface_discovery.Digest.Budget.{Section, Overflow}
use c_interface_discovery.Digest.Rows.{ScopedApp, DigestScope, flat_map, role_text}
use c_interface_discovery.Digest.Sections.{
  section_of, dashed, is_relevant, stub_lines, stub_overflow, overflow_of, structs_section,
  build_sections,
}

-- The structs of all applications.
abbrev pub struct_total : List ScopedApp → ℕ
struct_total [] = 0
struct_total (a ∷ apps) = length a.analysis.roles + struct_total apps

abbrev pub left_out : Option Overflow → ℕ
left_out none = 0
left_out (some o) = o.count

-- Every struct is an orphan; or the entries of a section of tier 4 and the structs that it leaves out
-- are all structs.
abbrev pub HasStructs : List ScopedApp → List Section → Type 0
HasStructs scoped sections =
    All (λ a. All (λ r. r.role ≡ orphan) a.analysis.roles) scoped
    ⊎ ((s : Section) × (Memᴰ s sections
          × ((s.tier ≡ 4) × (length s.entries + left_out s.overflow ≡ struct_total scoped))))

orphan_text : (q : StructRole) → (role_text q === codes "orphan") ≡ true → q ≡ orphan
unfolding role_text ◌===◌
orphan_text wire_root h = absurd (cc h)
orphan_text wire_root_nested h = absurd (cc h)
orphan_text envelope h = absurd (cc h)
orphan_text root_candidate h = absurd (cc h)
orphan_text shared_block h = absurd (cc h)
orphan_text block h = absurd (cc h)
orphan_text orphan h = refl

none_relevant :
    (roles : List StructRoleInfo)
    → length (keep is_relevant roles) ≡ 0
    → All (λ r. r.role ≡ orphan) roles
unfolding is_relevant
none_relevant [] h = tt
none_relevant (r ∷ roles) h = elim (Bool-cases (role_text r.role === codes "orphan")) [
  | inl e ↦ (orphan_text r.role e, none_relevant roles (rw (e, is_relevant) at h))
  | inr e ↦
      let some_one : length (r ∷ keep is_relevant roles) ≡ 0 = (rw (e, is_relevant) at h) in
      absurd (omega (arith, some_one))
]

length-map {ℓ κ} :
    {A : Type ℓ} {B : Type κ} (f : A → B) (xs : List A) → length (map f xs) ≡ length xs
length-map f [] = refl
length-map f (x ∷ xs) = omega (arith, length-map f xs)

length-keep {ℓ} : {A : Type ℓ} (p : A → Bool) (xs : List A) → length (keep p xs) ≤ length xs
length-keep p [] = omega arith
length-keep p (x ∷ xs) = elim (Bool-cases (p x)) [
  | inl e ↦ rw e (omega (arith, length-keep p xs))
  | inr e ↦ rw e (omega (arith, length-keep p xs))
]

length-stub_lines :
    (single : Bool) (a : ScopedApp)
    → length (stub_lines single a) ≡ length (keep is_relevant a.analysis.roles)
unfolding stub_lines
length-stub_lines single a = length-map _ (keep is_relevant a.analysis.roles)

-- The stubs and the orphans are all structs.
stubs_total :
    (single : Bool) (scoped : List ScopedApp)
    → length (flat_map (stub_lines single) scoped) + stub_overflow scoped ≡ struct_total scoped
unfolding flat_map stub_overflow
stubs_total single [] = omega arith
stubs_total single (a ∷ scoped) = omega (
  arith,
  length-append (stub_lines single a) (flat_map (stub_lines single) scoped),
  length-stub_lines single a,
  length-keep is_relevant a.analysis.roles,
  stubs_total single scoped,
)

no_stubs :
    (single : Bool) (scoped : List ScopedApp)
    → length (flat_map (stub_lines single) scoped) ≡ 0
    → All (λ a. All (λ r. r.role ≡ orphan) a.analysis.roles) scoped
unfolding flat_map
no_stubs single [] h = tt
no_stubs single (a ∷ scoped) h =
    let both = length-append (stub_lines single a) (flat_map (stub_lines single) scoped) in
    let here = length-stub_lines single a in
    (
      none_relevant a.analysis.roles (omega (arith, both, here, h)),
      no_stubs single scoped (omega (arith, both, h)),
    )

left_out-overflow_of : (n : ℕ) → left_out (overflow_of n) ≡ n
unfolding overflow_of
left_out-overflow_of n = elim (Bool-cases (ltb 0 n)) [
  | inl e ↦ rw (e, overflow_of) refl
  | inr e ↦ rw (e, overflow_of) (ground arith)
]

-- The section, by the lines that the applications give.
structs_in :
    (scoped : List ScopedApp) (total : ℕ) (name heading via : Text) (lines : List Text)
    → length lines + total ≡ struct_total scoped
    → (length lines ≡ 0 → All (λ a. All (λ r. r.role ≡ orphan) a.analysis.roles) scoped)
    → HasStructs scoped (section_of 4 name heading [] (map dashed lines) (overflow_of total) via)
unfolding section_of
structs_in scoped total name heading via [] e h = inl (h refl)
structs_in scoped total name heading via (line ∷ lines) e h = inr (
  _,
  (
    Memᴰ.head refl,
    (refl, omega (arith, length-map dashed (line ∷ lines), left_out-overflow_of total, e)),
  ),
)

structs_section-HasStructs :
    (single : Bool) (scoped : List ScopedApp) → HasStructs scoped (structs_section single scoped)
unfolding structs_section
structs_section-HasStructs single scoped =
    structs_in scoped (stub_overflow scoped) _ _ _ (flat_map (stub_lines single) scoped)
      (stubs_total single scoped) (no_stubs single scoped)

HasStructs-append_left :
    (scoped : List ScopedApp) (xs ys : List Section)
    → HasStructs scoped xs
    → HasStructs scoped (xs ++ ys)
HasStructs-append_left scoped xs ys (inl h) = inl h
HasStructs-append_left scoped xs ys (inr (s, (m, h))) = inr (s, (Memᴰ-append_left xs ys m, h))

HasStructs-append_right :
    (scoped : List ScopedApp) (xs ys : List Section)
    → HasStructs scoped ys
    → HasStructs scoped (xs ++ ys)
HasStructs-append_right scoped xs ys (inl h) = inl h
HasStructs-append_right scoped xs ys (inr (s, (m, h))) = inr (s, (Memᴰ-append_right xs ys m, h))

pub build_sections-HasStructs :
    (locale_before : Text → Text → Bool) (scoped : List ScopedApp) (scope : DigestScope)
    → HasStructs scoped (build_sections locale_before scoped scope)
unfolding build_sections
build_sections-HasStructs locale_before scoped scope = HasStructs-append_right scoped _ _ (
    HasStructs-append_right scoped _ _
      (HasStructs-append_left scoped _ _ (structs_section-HasStructs _ scoped)))
