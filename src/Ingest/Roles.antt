-- ===== src/Ingest/Roles.antt =====
-- The roles of src/analyzer/fileClassifier.ts beside the lists of src/analyzer/fileRegistry.ts.
use mathlib.Core.List.{Memᴰ}
use c_interface_discovery.Prelude.{
  Text, List, [], ◌∷◌, Bool, true, false, not, ◌&&◌, ◌||◌, keep, starts_with, reverse, map, lower,
  ◌≡◌, ◌↔◌, refl, subst, sym, if◌then◌else◌, Bool-cases, inl, inr, arith,
}
use c_interface_discovery.Types.{
  FileRole, source, string_header, external_header, FileZone, string, external, LoadedFile,
}
use c_interface_discovery.Registry.{
  FileRegistry, get_all, get_string_headers, get_external_headers, is_source, is_header,
  is_string_zone, has_suffix,
}
use c_interface_discovery.Ingest.{classify_file, header_role}

module _ {ℓ} {A : Type ℓ} (p : A → Bool) (x : A) where
  from_cons :
      (y : A) (ys zs : List A)
      → p y ≡ true
      → (Memᴰ x zs → Memᴰ x ys × (p x ≡ true))
      → Memᴰ x (y ∷ zs)
      → Memᴰ x (y ∷ ys) × (p x ≡ true)
  from_cons y ys zs e ih (Memᴰ.head same) = (Memᴰ.head same, subst (λ z. p z ≡ true) (sym same) e)
  from_cons y ys zs e ih (Memᴰ.tail m) = let (n, h) = ih m in (Memᴰ.tail n, h)

  mem-keep : (xs : List A) → Memᴰ x (keep p xs) → Memᴰ x xs × (p x ≡ true)
  mem-keep [] m = elim m [ ]
  mem-keep (y ∷ ys) m = elim (Bool-cases (p y)) [
    | inl e ↦ from_cons y ys (keep p ys) e (mem-keep ys) (rw e at m)
    | inr e ↦ let (n, h) = mem-keep ys (rw e at m) in (Memᴰ.tail n, h)
  ]

  keep-mem : (xs : List A) → Memᴰ x xs → p x ≡ true → Memᴰ x (keep p xs)
  keep-mem [] m h = elim m [ ]
  keep-mem (y ∷ ys) (Memᴰ.head same) h =
      let e = subst (λ z. p z ≡ true) same h in rw e (Memᴰ.head same)
  keep-mem (y ∷ ys) (Memᴰ.tail m) h = elim (Bool-cases (p y)) [
    | inl e ↦ rw e (Memᴰ.tail (keep-mem ys m h))
    | inr e ↦ rw e (keep-mem ys m h)
  ]

suffixes_apart :
    (name : Text)
    → starts_with name (104 ∷ 46 ∷ []) ≡ true
    → (starts_with name (99 ∷ 46 ∷ []) || starts_with name (112 ∷ 112 ∷ 99 ∷ 46 ∷ [])) ≡ false
unfolding starts_with
suffixes_apart [] h = absurd (cc h)
suffixes_apart (c ∷ s) h = ground arith

-- The role by the two tests on the name and the zone.
abbrev role_by : Bool → Bool → FileZone → FileRole
role_by is_c is_h zone = if is_c then source else if is_h then header_role zone else source

string_table :
    (is_c is_h : Bool) (z : FileZone)
    → (is_h ≡ true → is_c ≡ false)
    → ((is_string_zone z && is_h) ≡ true) ↔ (role_by is_c is_h z ≡ string_header)
unfolding header_role is_string_zone
string_table true true z h = absurd (cc (h refl))
string_table true false string h = (λ e. absurd (cc e), λ e. absurd (cc e))
string_table true false external h = (λ e. absurd (cc e), λ e. absurd (cc e))
string_table false false string h = (λ e. absurd (cc e), λ e. absurd (cc e))
string_table false false external h = (λ e. absurd (cc e), λ e. absurd (cc e))
string_table false true string h = (λ e. refl, λ e. refl)
string_table false true external h = (λ e. absurd (cc e), λ e. absurd (cc e))

external_table :
    (is_c is_h : Bool) (z : FileZone)
    → (is_h ≡ true → is_c ≡ false)
    → ((not (is_string_zone z) && is_h) ≡ true) ↔ (role_by is_c is_h z ≡ external_header)
unfolding header_role is_string_zone
external_table true true z h = absurd (cc (h refl))
external_table true false string h = (λ e. absurd (cc e), λ e. absurd (cc e))
external_table true false external h = (λ e. absurd (cc e), λ e. absurd (cc e))
external_table false false string h = (λ e. absurd (cc e), λ e. absurd (cc e))
external_table false false external h = (λ e. absurd (cc e), λ e. absurd (cc e))
external_table false true external h = (λ e. refl, λ e. refl)
external_table false true string h = (λ e. absurd (cc e), λ e. absurd (cc e))

module _ (r : FileRegistry) (f : LoadedFile) where
  apart : is_header f.filename ≡ true → is_source f.filename ≡ false
  unfolding is_header is_source has_suffix
  apart h = suffixes_apart (reverse (map lower f.filename)) h

  -- The classifier and the registry agree: of the files that the registry shows, its local headers
  -- are those with the role of a local header, and its external headers those with the role of an
  -- external one.
  pub classify_file_iff :
      (Memᴰ f (get_string_headers r) ↔ (Memᴰ f (get_all r) × (classify_file f ≡ string_header)))
      × (Memᴰ f (get_external_headers r)
          ↔ (Memᴰ f (get_all r) × (classify_file f ≡ external_header)))
  unfolding classify_file get_string_headers get_external_headers is_header is_source has_suffix
  classify_file_iff =
      let local = string_table (is_source f.filename) (is_header f.filename) f.zone apart in
      let system = external_table (is_source f.filename) (is_header f.filename) f.zone apart in
      (
        (
          λ m. let (n, h) = mem-keep _ f (get_all r) m in (n, local.0 h),
          λ (n, h). keep-mem _ f (get_all r) n (local.1 h),
        ),
        (
          λ m. let (n, h) = mem-keep _ f (get_all r) m in (n, system.0 h),
          λ (n, h). keep-mem _ f (get_all r) n (system.1 h),
        ),
      )
