-- ===== src/Registry/Steps.antt =====
-- Every operation keeps the invariant, so every history of operations does.
use c_interface_discovery.Prelude.{
  is_some, if◌then◌else◌, Option-cases, Bool-cases, inl, inr, Text, List, [], ◌∷◌, none, some, ◌&&◌,
  ◌≡◌, refl, arith, ===_iff, any,
}
use c_interface_discovery.Prelude.Dict.{
  Dict, get, IsUnique, IsUnique-set, IsUnique-delete, AllEntries, AllEntries-set, AllEntries-delete,
  AllEntries-get,
}
use c_interface_discovery.Types.{FileZone, string, external, LoadedFile, FileRegistryEntry}
use c_interface_discovery.Registry.{
  FileRegistry, collision_of, add_file, add_files, unshadow, shadowed_by_is, remove_file, clear,
}
use c_interface_discovery.Registry.Lookup.{at, entry, at-remove_file}
use c_interface_discovery.Registry.Warnings.{any-keep, IsSingle-keep}
use c_interface_discovery.Registry.Valid.{IsValid, IsKeyed, IsValid-empty, add_in-IsValid}

pub add_file-IsValid :
    (file : LoadedFile) (r : FileRegistry) → IsValid r → IsValid (add_file file r)
unfolding add_file
add_file-IsValid file r v = add_in-IsValid file r v file.zone refl

pub add_files-IsValid :
    (files : List LoadedFile) (r : FileRegistry) → IsValid r → IsValid (add_files files r)
unfolding add_files
add_files-IsValid [] r v = v
add_files-IsValid (file ∷ files) r v =
    add_files-IsValid files (add_file file r) (add_file-IsValid file r v)

unshadow-IsUnique :
    (f k : Text) (d : Dict FileRegistryEntry) → IsUnique d → IsUnique (unshadow f k d)
unfolding unshadow
unshadow-IsUnique f k d u = elim (Option-cases (get d k)) [
  | inl h ↦ rw (h, unshadow) u
  | inr (e, h) ↦ elim (Bool-cases (shadowed_by_is f e.shadowed_by)) [
    | inl s ↦ rw (h, unshadow) (rw s (IsUnique-set d k (entry e.file none) u))
    | inr s ↦ rw (h, unshadow) (rw s u)
  ]
]

unshadow-IsKeyed :
    (f k : Text) (d : Dict FileRegistryEntry)
    → AllEntries IsKeyed d
    → AllEntries IsKeyed (unshadow f k d)
unfolding unshadow
unshadow-IsKeyed f k d u = elim (Option-cases (get d k)) [
  | inl h ↦ rw (h, unshadow) u
  | inr (e, h) ↦
      let keyed : IsKeyed k e = AllEntries-get IsKeyed d k e u h in
      elim (Bool-cases (shadowed_by_is f e.shadowed_by)) [
        | inl s ↦ rw (h, unshadow) (rw s (AllEntries-set IsKeyed d k (entry e.file none) keyed u))
        | inr s ↦ rw (h, unshadow) (rw s u)
      ]
]

module _ (g : Text) (r : FileRegistry) (v : IsValid r) where
  local-remove_file :
      (w : FileZone) (f : Text) (e : FileRegistryEntry)
      → at (remove_file g w r) f string ≡ some e
      → e.shadowed_by ≡ none
  unfolding shadowed_by_is
  local-remove_file string f e h = ground (arith, at-remove_file g string string r f, v.local f e)
  local-remove_file external f e h = elim (Option-cases (at r f string)) [
    | inl n ↦ ground (arith, at-remove_file g external string r f)
    | inr (old, n) ↦ ground (arith, at-remove_file g external string r f, v.local f old n)
  ]

  other-remove_file :
      (w : FileZone) (f : Text) (e : FileRegistryEntry)
      → at (remove_file g w r) f external ≡ some e
      → e.shadowed_by ≡ (if is_some (at (remove_file g w r) f string) then some f else none)
  unfolding shadowed_by_is
  other-remove_file string f e h = elim (Option-cases (at r f external)) [
    | inl n ↦ ground (arith, at-remove_file g string external r f)
    | inr (old, n) ↦ ground (
      arith,
      at-remove_file g string external r f,
      at-remove_file g string string r f,
      v.other f old n,
      ===_iff g f,
      ===_iff f g,
    )
  ]
  other-remove_file external f e h = elim (Option-cases (at r f external)) [
    | inl n ↦ ground (arith, at-remove_file g external external r f)
    | inr (old, n) ↦ ground (
      arith,
      at-remove_file g external external r f,
      at-remove_file g external string r f,
      v.other f old n,
    )
  ]

  warned-remove_file :
      (w : FileZone) (f : Text)
      → any (collision_of f) (remove_file g w r).warnings
        ≡ (is_some (at (remove_file g w r) f string) && is_some (at (remove_file g w r) f external))
  unfolding remove_file
  warned-remove_file string f = ground (
    arith,
    any-keep f g r.warnings v.single,
    at-remove_file g string external r f,
    at-remove_file g string string r f,
    v.warned f,
  )
  warned-remove_file external f = ground (
    arith,
    any-keep f g r.warnings v.single,
    at-remove_file g external external r f,
    at-remove_file g external string r f,
    v.warned f,
  )

  pub remove_file-IsValid : (w : FileZone) → IsValid (remove_file g w r)
  unfolding remove_file
  remove_file-IsValid w = record {
    unique = unshadow-IsUnique g _ _ (IsUnique-delete r.entries _ v.unique);
    keyed = unshadow-IsKeyed g _ _ (AllEntries-delete IsKeyed r.entries _ v.keyed);
    single = IsSingle-keep g r.warnings v.single;
    local = local-remove_file w;
    other = other-remove_file w;
    warned = warned-remove_file w;
  }

-- What the application does to its registry.
pub data Op : Type 0 where
  add : List LoadedFile → Op
  remove : Text → FileZone → Op
  reset : Op

pub apply : Op → FileRegistry → FileRegistry
apply (add files) r = add_files files r
apply (remove filename zone) r = remove_file filename zone r
apply reset r = clear r

pub run : List Op → FileRegistry → FileRegistry
run [] r = r
run (op ∷ ops) r = run ops (apply op r)

apply-IsValid : (op : Op) (r : FileRegistry) → IsValid r → IsValid (apply op r)
unfolding apply clear
apply-IsValid (add files) r v = add_files-IsValid files r v
apply-IsValid (remove filename zone) r v = remove_file-IsValid filename r v zone
apply-IsValid reset r v = IsValid-empty

-- After any history of additions, removals and resets, from a valid registry: no key is stored
-- twice and each is the key of its file, a local file is not shadowed, an external file is shadowed
-- exactly while a local file has its name, and exactly then a collision warning names it.
pub run-IsValid : (ops : List Op) (r : FileRegistry) → IsValid r → IsValid (run ops r)
unfolding run
run-IsValid [] r v = v
run-IsValid (op ∷ ops) r v = run-IsValid ops (apply op r) (apply-IsValid op r v)
