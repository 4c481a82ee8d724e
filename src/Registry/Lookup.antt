-- ===== src/Registry/Lookup.antt =====
-- What is stored under a name after a file was added or removed.
use c_interface_discovery.Prelude.{
  Text, Option, none, some, Bool, true, false, ◌&&◌, ◌≡◌, refl, arith, ◌===◌, ===_iff, ===_refl,
  Bool-cases, Option-cases, inl, inr, is_some, if◌then◌else◌,
}
use c_interface_discovery.Prelude.Dict.{Dict, get, has, set, get-set, get-delete, has-set, has-get}
use c_interface_discovery.Types.{FileZone, string, external, LoadedFile, FileRegistryEntry}
use c_interface_discovery.Registry.{
  FileRegistry, zone_text, key, opposite, filename_at, warn, shadow, add_in, unshadow,
  shadowed_by_is, remove_file,
}

abbrev pub same_zone : FileZone → FileZone → Bool
same_zone string string = true
same_zone external external = true
same_zone _ _ = false

-- Two files share a key exactly if they share both name and zone.
pub key-eq : (f g : Text) (z w : FileZone) → (key f z === key g w) ≡ (same_zone z w && f === g)
unfolding key zone_text ◌===◌
key-eq f g string string = refl
key-eq f g string external = refl
key-eq f g external string = refl
key-eq f g external external = refl

-- The entry under a name and a zone.
abbrev pub at : FileRegistry → Text → FileZone → Option FileRegistryEntry
at r f z = get r.entries (key f z)

abbrev pub entry : LoadedFile → Option Text → FileRegistryEntry
entry file by = record { file = file; shadowed_by = by }

-- The entry at zone `z` after a file was added to zone `w`, from those of its name before.
abbrev pub added :
    LoadedFile
    → FileZone
    → FileZone
    → Option FileRegistryEntry
    → Option FileRegistryEntry
    → Option FileRegistryEntry
added file string string local other = some (entry file none)
added file string external local none = none
added file string external local (some e) = some (entry e.file (some file.filename))
added file external string local other = local
added file external external local other =
    some (entry file (if is_some local then some file.filename else none))

pub has-eq : (d : Dict FileRegistryEntry) (k : Text) → has d k ≡ is_some (get d k)
has-eq d k = ground (arith, has-get d k)

-- The entries after an addition, from what the other zone has under the name.
abbrev pub stored_beside :
    FileZone
    → LoadedFile
    → Dict FileRegistryEntry
    → Option FileRegistryEntry
    → Dict FileRegistryEntry
stored_beside z file d none = set d (key file.filename z) (entry file none)
stored_beside string file d (some e) =
    set (set d (key file.filename string) (entry file none)) (key file.filename external)
      (entry e.file (some file.filename))
stored_beside external file d (some e) =
    set (set d (key file.filename external) (entry file none)) (key file.filename external)
      (entry file (some file.filename))

shadow-some :
    (file : LoadedFile) (d : Dict FileRegistryEntry) (e : FileRegistryEntry)
    → get d (key file.filename external) ≡ some e
    → shadow file string d ≡ set d (key file.filename external) (entry e.file (some file.filename))
unfolding shadow
shadow-some file d e h = rw (h, shadow) refl

filename_at-set :
    (d : Dict FileRegistryEntry) (k : Text) (e : FileRegistryEntry)
    → filename_at (set d k e) k ≡ e.file.filename
unfolding filename_at
filename_at-set d k e =
    let found : get (set d k e) k ≡ some e = rw (get-set d k k e, ===_refl k) refl in
    rw (found, filename_at) refl

shadow-external :
    (file : LoadedFile) (d : Dict FileRegistryEntry)
    → shadow file external (set d (key file.filename external) (entry file none))
      ≡ set
          (set d (key file.filename external) (entry file none))
          (key file.filename external)
          (entry file (some file.filename))
unfolding shadow
shadow-external file d = rw (filename_at-set d (key file.filename external) (entry file none)) refl

pub entries-add_in :
    (z : FileZone) (file : LoadedFile) (r : FileRegistry) (o : Option FileRegistryEntry)
    → at r file.filename (opposite z) ≡ o
    → (add_in z file r).entries ≡ stored_beside z file r.entries o
unfolding add_in opposite
entries-add_in string file r none h = simp (has-set, key-eq, has-eq, h) refl
entries-add_in string file r (some e) h =
    simp (has-set, key-eq, has-eq, h) (shadow-some file _ e (simp (get-set, key-eq) h))
entries-add_in external file r none h = simp (has-set, key-eq, has-eq, h) refl
entries-add_in external file r (some e) h =
    simp (has-set, key-eq, has-eq, h) (shadow-external file r.entries)

at-stored_beside :
    (w z : FileZone) (file : LoadedFile) (d : Dict FileRegistryEntry) (f : Text)
    (o : Option FileRegistryEntry)
    → get d (key file.filename (opposite w)) ≡ o
    → get (stored_beside w file d o) (key f z) ≡ (
        if file.filename === f
        then added file w z (get d (key f string)) (get d (key f external))
        else get d (key f z))
unfolding opposite
at-stored_beside string string file d f none h = simp (get-set, key-eq) refl
at-stored_beside string string file d f (some e) h = simp (get-set, key-eq) refl
at-stored_beside string external file d f none h =
    simp (get-set, key-eq) (ground (arith, ===_iff file.filename f))
at-stored_beside string external file d f (some e) h =
    simp (get-set, key-eq) (ground (arith, ===_iff file.filename f))
at-stored_beside external string file d f none h =
    simp (get-set, key-eq) (ground (arith, ===_iff file.filename f))
at-stored_beside external string file d f (some e) h =
    simp (get-set, key-eq) (ground (arith, ===_iff file.filename f))
at-stored_beside external external file d f none h =
    simp (get-set, key-eq) (ground (arith, ===_iff file.filename f))
at-stored_beside external external file d f (some e) h =
    simp (get-set, key-eq) (ground (arith, ===_iff file.filename f))

-- What an addition leaves under each name and zone.
pub at-add_in :
    (w z : FileZone) (file : LoadedFile) (r : FileRegistry) (f : Text)
    → at (add_in w file r) f z
      ≡ (if file.filename === f then added file w z (at r f string) (at r f external) else at r f z)
at-add_in w z file r f =
    rw (entries-add_in w file r _ refl) (at-stored_beside w z file r.entries f _ refl)

-- `{ file: e.file }` where the entry was shadowed by `f`
abbrev pub released : Text → FileRegistryEntry → FileRegistryEntry
released f e = if shadowed_by_is f e.shadowed_by then entry e.file none else e

abbrev pub release : Text → Option FileRegistryEntry → Option FileRegistryEntry
release f none = none
release f (some e) = some (released f e)

-- The entry at zone `z` after the file of that name was removed from zone `w`.
abbrev pub removed :
    Text → FileZone → FileZone → Option FileRegistryEntry → Option FileRegistryEntry
removed f string string old = none
removed f external external old = none
removed f _ _ old = release f old

get-unshadow :
    (f k j : Text) (d : Dict FileRegistryEntry)
    → get (unshadow f k d) j ≡ (if k === j then release f (get d k) else get d j)
unfolding unshadow
get-unshadow f k j d = elim (Option-cases (get d k)) [
  | inl h ↦ rw (h, unshadow) (ground (arith, ===_iff k j))
  | inr (e, h) ↦ elim (Bool-cases (shadowed_by_is f e.shadowed_by)) [
    | inl s ↦ rw (h, unshadow) (rw s (get-set d k j (entry e.file none)))
    | inr s ↦ rw (h, unshadow) (rw s (ground (arith, ===_iff k j)))
  ]
]

rename :
    (g f : Text) (z : FileZone) (r : FileRegistry)
    → (if g === f then release g (at r g z) else at r f z)
      ≡ (if g === f then release g (at r f z) else at r f z)
rename g f z r = elim (Bool-cases (g === f)) [
  | inl e ↦ rw ((===_iff g f).0 e) refl
  | inr e ↦ rw e refl
]

-- What a removal leaves under each name and zone.
pub at-remove_file :
    (g : Text) (w z : FileZone) (r : FileRegistry) (f : Text)
    → at (remove_file g w r) f z ≡ (if g === f then removed g w z (at r f z) else at r f z)
unfolding remove_file opposite
at-remove_file g string string r f = simp (get-unshadow, get-delete, key-eq) refl
at-remove_file g string external r f =
    simp (get-unshadow, get-delete, key-eq) (rename g f external r)
at-remove_file g external string r f = simp (get-unshadow, get-delete, key-eq) (rename g f string r)
at-remove_file g external external r f = simp (get-unshadow, get-delete, key-eq) refl

pub warnings-add_in :
    (z : FileZone) (file : LoadedFile) (r : FileRegistry)
    → (add_in z file r).warnings ≡ (
        if is_some (at r file.filename (opposite z))
        then warn file.filename r.warnings
        else r.warnings)
unfolding add_in opposite
warnings-add_in string file r = simp (has-set, key-eq, has-eq) (ground arith)
warnings-add_in external file r = simp (has-set, key-eq, has-eq) (ground arith)
