-- ===== src/Registry/Valid.antt =====
-- The invariant of the registry, which every operation keeps.
use c_interface_discovery.Prelude.{
  Text, Option, none, some, ◌&&◌, ◌≡◌, refl, arith, ===_iff, any, All, is_some, if◌then◌else◌,
  Bool-cases, inl, inr,
}
use c_interface_discovery.Prelude.Dict.{
  get, IsUnique, IsUnique-set, AllEntries, AllEntries-set, AllEntries-get,
}
use c_interface_discovery.Types.{FileZone, string, external, LoadedFile, FileRegistryEntry}
use c_interface_discovery.Registry.{FileRegistry, empty, key, opposite, collision_of, add_in}
use c_interface_discovery.Registry.Warnings.{IsSingle, any-warn, IsSingle-warn}
use c_interface_discovery.Registry.Lookup.{
  at, at-add_in, stored_beside, entries-add_in, warnings-add_in,
}

-- The key of an entry is that of its file.
abbrev pub IsKeyed : Text → FileRegistryEntry → Type 0
IsKeyed k e = k ≡ key e.file.filename e.file.zone

-- A local file is never shadowed; an external one is exactly while a local file has its name, and
-- exactly then a collision warning names it.
pub record IsValid (r : FileRegistry) : Type 0 where
  pub unique : IsUnique r.entries
  pub keyed : AllEntries IsKeyed r.entries
  pub single : All IsSingle r.warnings
  pub local : (f : Text) (e : FileRegistryEntry) → at r f string ≡ some e → e.shadowed_by ≡ none
  pub other :
      (f : Text) (e : FileRegistryEntry)
      → at r f external ≡ some e
      → e.shadowed_by ≡ (if is_some (at r f string) then some f else none)
  pub warned :
      (f : Text)
      → any (collision_of f) r.warnings ≡ (is_some (at r f string) && is_some (at r f external))

pub IsValid-empty : IsValid empty
unfolding get
IsValid-empty = record {
  unique = tt;
  keyed = tt;
  single = tt;
  local = λ f e h. cc;
  other = λ f e h. cc;
  warned = λ f. refl;
}

module _ (file : LoadedFile) (r : FileRegistry) (v : IsValid r) where
  stored_beside-IsUnique :
      (z : FileZone) (o : Option FileRegistryEntry) → IsUnique (stored_beside z file r.entries o)
  stored_beside-IsUnique z none = IsUnique-set _ _ _ v.unique
  stored_beside-IsUnique string (some e) = IsUnique-set _ _ _ (IsUnique-set _ _ _ v.unique)
  stored_beside-IsUnique external (some e) = IsUnique-set _ _ _ (IsUnique-set _ _ _ v.unique)

  stored_beside-IsKeyed :
      (z : FileZone) (o : Option FileRegistryEntry)
      → file.zone ≡ z
      → at r file.filename (opposite z) ≡ o
      → AllEntries IsKeyed (stored_beside z file r.entries o)
  unfolding opposite
  stored_beside-IsKeyed z none e h = AllEntries-set IsKeyed _ _ _ (rw e refl) v.keyed
  stored_beside-IsKeyed string (some old) e h =
      AllEntries-set IsKeyed _ _ _ (AllEntries-get IsKeyed r.entries _ old v.keyed h)
        (AllEntries-set IsKeyed _ _ _ (rw e refl) v.keyed)
  stored_beside-IsKeyed external (some old) e h =
      AllEntries-set IsKeyed _ _ _ (rw e refl) (AllEntries-set IsKeyed _ _ _ (rw e refl) v.keyed)

  local-add_in :
      (z : FileZone) (f : Text) (e : FileRegistryEntry)
      → at (add_in z file r) f string ≡ some e
      → e.shadowed_by ≡ none
  local-add_in string f e h = ground (arith, at-add_in string string file r f, v.local f e)
  local-add_in external f e h = ground (arith, at-add_in external string file r f, v.local f e)

  other-add_in :
      (z : FileZone) (f : Text) (e : FileRegistryEntry)
      → at (add_in z file r) f external ≡ some e
      → e.shadowed_by ≡ (if is_some (at (add_in z file r) f string) then some f else none)
  other-add_in string f e h = ground (
    arith,
    at-add_in string external file r f,
    at-add_in string string file r f,
    v.other f e,
    ===_iff file.filename f,
  )
  other-add_in external f e h = ground (
    arith,
    at-add_in external external file r f,
    at-add_in external string file r f,
    v.other f e,
    ===_iff file.filename f,
  )

  warned-add_in :
      (z : FileZone) (f : Text)
      → any (collision_of f) (add_in z file r).warnings
        ≡ (is_some (at (add_in z file r) f string) && is_some (at (add_in z file r) f external))
  unfolding opposite
  warned-add_in string f = ground (
    arith,
    warnings-add_in string file r,
    any-warn f file.filename r.warnings,
    at-add_in string external file r f,
    at-add_in string string file r f,
    v.warned f,
    ===_iff file.filename f,
  )
  warned-add_in external f = ground (
    arith,
    warnings-add_in external file r,
    any-warn f file.filename r.warnings,
    at-add_in external external file r f,
    at-add_in external string file r f,
    v.warned f,
    ===_iff file.filename f,
  )

  IsSingle-add_in : (z : FileZone) → All IsSingle (add_in z file r).warnings
  IsSingle-add_in z = elim (Bool-cases (is_some (at r file.filename (opposite z)))) [
    | inl e ↦ rw (warnings-add_in, e) (IsSingle-warn file.filename r.warnings v.single)
    | inr e ↦ rw (warnings-add_in, e) v.single
  ]

  pub add_in-IsValid : (z : FileZone) → file.zone ≡ z → IsValid (add_in z file r)
  add_in-IsValid z e = record {
    unique = rw (entries-add_in z file r _ refl) (stored_beside-IsUnique z _);
    keyed = rw (entries-add_in z file r _ refl) (stored_beside-IsKeyed z _ e refl);
    single = IsSingle-add_in z;
    local = local-add_in z;
    other = other-add_in z;
    warned = warned-add_in z;
  }
