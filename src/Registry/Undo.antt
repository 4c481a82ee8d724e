-- ===== src/Registry/Undo.antt =====
-- Removing what was added.
use c_interface_discovery.Prelude.{
  Text, List, [], ◌∷◌, ◌++◌, Option, none, some, true, false, not, ◌≡◌, refl, ap, ◌∙◌, arith, ◌===◌,
  ===_refl, any, keep, find, is_some, Bool-cases, Option-cases, inl, inr,
}
use c_interface_discovery.Prelude.Dict.{
  Dict, get, has, set, delete, get-set, has-set, delete-set, set-set, set-get, delete-set_ne,
}
use c_interface_discovery.Types.{
  FileZone, string, external, LoadedFile, FileRegistryEntry, AnalysisWarning,
}
use c_interface_discovery.Registry.{
  FileRegistry, key, opposite, collision_of, collision_warning, warn, add_in, add_file, unshadow,
  shadowed_by_is, remove_file,
}
use c_interface_discovery.Registry.Lookup.{
  at, entry, key-eq, has-eq, stored_beside, entries-add_in, warnings-add_in,
}
use c_interface_discovery.Registry.Warnings.{collision_of-warning}
use c_interface_discovery.Registry.Valid.{IsValid}

-- Without a warning of the name, `removeFile` drops no warning.
keep_all :
    (g : Text) (ws : List AnalysisWarning)
    → any (collision_of g) ws ≡ false
    → keep (λ w. not (collision_of g w)) ws ≡ ws
keep_all g [] h = refl
keep_all g (w ∷ ws) h = ground (arith, keep_all g ws)

keep_append :
    (g : Text) (ws : List AnalysisWarning)
    → any (collision_of g) ws ≡ false
    → keep (λ w. not (collision_of g w)) (ws ++ collision_warning g ∷ []) ≡ ws
keep_append g [] h = ground (arith, collision_of-warning g g, ===_refl g)
keep_append g (w ∷ ws) h = ground (arith, keep_append g ws)

keep-warn :
    (g : Text) (ws : List AnalysisWarning)
    → any (collision_of g) ws ≡ false
    → keep (λ w. not (collision_of g w)) (warn g ws) ≡ ws
unfolding warn
keep-warn g ws h = elim (Option-cases (find (collision_of g) ws)) [
  | inl e ↦ rw (e, warn) (keep_append g ws h)
  | inr (w, e) ↦ rw (e, warn) (keep_all g ws h)
]

unshadow-none : (f k : Text) (d : Dict FileRegistryEntry) → get d k ≡ none → unshadow f k d ≡ d
unfolding unshadow
unshadow-none f k d h = rw (h, unshadow) refl

-- An entry that was shadowed by the removed file goes back to what it was.
unshadow-set :
    (f k : Text) (d : Dict FileRegistryEntry) (e : FileRegistryEntry)
    → get d k ≡ some e
    → e.shadowed_by ≡ none
    → unshadow f k (set d k (entry e.file (some f))) ≡ d
unfolding unshadow shadowed_by_is
unshadow-set f k d e h s =
    let shadowed : get (set d k (entry e.file (some f))) k ≡ some (entry e.file (some f)) =
      rw (get-set d k k, ===_refl k) refl in
    let as_before : get d k ≡ some (entry e.file none) = h ∙ ap (λ b. some (entry e.file b)) s in
    rw (shadowed, unshadow) (rw (===_refl f) (rw set-set (set-get d k _ as_before)))

unshadow-plain :
    (f k : Text) (d : Dict FileRegistryEntry) (e : FileRegistryEntry)
    → get d k ≡ some e
    → e.shadowed_by ≡ none
    → unshadow f k d ≡ d
unfolding unshadow shadowed_by_is
unshadow-plain f k d e h s = rw (h, unshadow) (rw (s, shadowed_by_is) refl)

module _ (file : LoadedFile) (r : FileRegistry) (v : IsValid r) where
  undo-entries :
      (z : FileZone) (o : Option FileRegistryEntry)
      → at r file.filename z ≡ none
      → at r file.filename (opposite z) ≡ o
      → unshadow file.filename
          (key file.filename (opposite z))
          (delete (stored_beside z file r.entries o) (key file.filename z))
        ≡ r.entries
  unfolding opposite
  undo-entries string none h p =
      rw (delete-set r.entries (key file.filename string) _ (rw (has-eq, h) refl))
        (unshadow-none _ _ _ p)
  undo-entries external none h p =
      rw (delete-set r.entries (key file.filename external) _ (rw (has-eq, h) refl))
        (unshadow-none _ _ _ p)
  undo-entries string (some e) h p =
      let ks = key file.filename string in
      let ke = key file.filename external in
      let apart : (ks === ke) ≡ false = rw key-eq refl in
      let there : has (set r.entries ks (entry file none)) ke ≡ true =
        rw (has-set, apart, has-eq, p) refl in
      let free : e.shadowed_by ≡ none = ground (arith, v.other file.filename e p) in
      rw (delete-set_ne (set r.entries ks (entry file none)) ks ke _ apart there) (
        rw (delete-set r.entries ks (entry file none) (rw (has-eq, h) refl))
          (unshadow-set file.filename ke r.entries e p free))
  undo-entries external (some e) h p = rw set-set (
      rw (delete-set r.entries (key file.filename external) _ (rw (has-eq, h) refl))
        (unshadow-plain _ _ r.entries e p (v.local file.filename e p)))

  unwarned :
      (z : FileZone)
      → at r file.filename z ≡ none
      → any (collision_of file.filename) r.warnings ≡ false
  unwarned string h = ground (arith, v.warned file.filename)
  unwarned external h = ground (arith, v.warned file.filename)

  undo-warnings :
      (z : FileZone)
      → at r file.filename z ≡ none
      → keep (λ w. not (collision_of file.filename w)) (add_in z file r).warnings ≡ r.warnings
  undo-warnings z h = elim (Bool-cases (is_some (at r file.filename (opposite z)))) [
    | inl e ↦ rw (warnings-add_in, e) (keep-warn file.filename r.warnings (unwarned z h))
    | inr e ↦ rw (warnings-add_in, e) (keep_all file.filename r.warnings (unwarned z h))
  ]

  undo :
      (z : FileZone)
      → at r file.filename z ≡ none
      → remove_file file.filename z (add_in z file r) ≡ r
  unfolding remove_file
  undo z h =
      let entries : unshadow file.filename (key file.filename (opposite z))
            (delete (add_in z file r).entries (key file.filename z))
          ≡ r.entries =
        rw (entries-add_in z file r _ refl) (undo-entries z _ h refl) in
      λ i. record { entries = entries i; warnings = undo-warnings z h i }

  -- In a valid registry that has no file of this name in its zone, adding the file and removing it
  -- again gives back the same registry: entries, their order, shadowing and warnings.
  pub remove_file-add_file :
      at r file.filename file.zone ≡ none
      → remove_file file.filename file.zone (add_file file r) ≡ r
  unfolding add_file
  remove_file-add_file h = undo file.zone h
