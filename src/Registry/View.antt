-- ===== src/Registry/View.antt =====
-- What `getAll` lists of a valid registry: local files hide the external ones of their name.
use mathlib.Core.List.{Memᴰ}
use c_interface_discovery.Prelude.{
  All-mem, Text, List, [], ◌∷◌, none, some, true, false, ◌≡◌, ◌≢◌, ◌↔◌, refl, sym, subst, ◌∙◌,
  arith, ap, ◌===◌, keep, map, Bool-cases, inl, inr,
}
use c_interface_discovery.Prelude.Dict.{Dict, get, entries-get, AllEntries}
use c_interface_discovery.Types.{FileZone, string, external, LoadedFile, FileRegistryEntry}
use c_interface_discovery.Registry.{FileRegistry, key, not_shadowed, is_visible, get_all}
use c_interface_discovery.Registry.Lookup.{at, entry}
use c_interface_discovery.Registry.Valid.{IsValid, IsKeyed}

abbrev files_of : Dict FileRegistryEntry → List LoadedFile
files_of d = map (λ e. e.file) (keep is_visible (map (λ e. e.1) d))

-- A visible entry of `d` with its key.
abbrev Visible : Dict FileRegistryEntry → LoadedFile → Type 0
Visible d file =
    (k : Text) × (e : FileRegistryEntry) × Memᴰ (k, e) d × (e.file ≡ file) × (is_visible e ≡ true)

Visible-cons :
    {k : Text} {e : FileRegistryEntry} {d : Dict FileRegistryEntry} {file : LoadedFile}
    → Visible d file
    → Visible ((k, e) ∷ d) file
Visible-cons (k, e, m, same, shown) = (k, e, Memᴰ.tail m, same, shown)

Visible-of_head :
    (k : Text) (e : FileRegistryEntry) (d : Dict FileRegistryEntry) (file : LoadedFile)
    → is_visible e ≡ true
    → (Memᴰ file (files_of d) → Visible d file)
    → Memᴰ file (e.file ∷ files_of d)
    → Visible ((k, e) ∷ d) file
Visible-of_head k e d file shown rest (Memᴰ.head same) = (k, e, Memᴰ.head refl, sym same, shown)
Visible-of_head k e d file shown rest (Memᴰ.tail m) = Visible-cons (rest m)

Visible-of_mem :
    (d : Dict FileRegistryEntry) (file : LoadedFile) → Memᴰ file (files_of d) → Visible d file
Visible-of_mem [] file m = elim m [ ]
Visible-of_mem ((k, e) ∷ d) file m = elim (Bool-cases (is_visible e)) [
  | inl shown ↦ Visible-of_head k e d file shown (Visible-of_mem d file) (rw shown at m)
  | inr hidden ↦ Visible-cons (Visible-of_mem d file (rw hidden at m))
]

mem_of_get :
    (d : Dict FileRegistryEntry) (k : Text) (e : FileRegistryEntry)
    → get d k ≡ some e
    → is_visible e ≡ true
    → Memᴰ e.file (files_of d)
unfolding get
mem_of_get [] k e h shown = absurd (ground (arith, h))
mem_of_get ((j, e') ∷ d) k e h shown = elim (Bool-cases (j === k)) [
  | inl same ↦ let here : e' ≡ e = ground arith in rw here (rw shown (Memᴰ.head refl))
  | inr other ↦
      let later = mem_of_get d k e (rw (other, get) at h) shown in
      elim (Bool-cases (is_visible e')) [ inl s ↦ rw s (Memᴰ.tail later) | inr s ↦ rw s later ]
]

AllEntries-mem :
    (d : Dict FileRegistryEntry) (entry : Text × FileRegistryEntry)
    → AllEntries IsKeyed d
    → Memᴰ entry d
    → IsKeyed entry.0 entry.1
AllEntries-mem [] entry h m = elim m [ ]
AllEntries-mem ((j, w) ∷ d) entry (p, h) (Memᴰ.head e) = subst (λ x. IsKeyed x.0 x.1) (sym e) p
AllEntries-mem ((j, w) ∷ d) entry (p, h) (Memᴰ.tail m) = AllEntries-mem d entry h m

-- The file is stored under its own key, is not rejected, and has no local file of its name over it.
pub record IsListed (r : FileRegistry) (file : LoadedFile) : Type 0 where
  pub found : FileRegistryEntry
  pub stored : at r file.filename file.zone ≡ some found
  pub its_file : found.file ≡ file
  pub usable : file.rejected ≡ false
  pub first : file.zone ≡ external → at r file.filename string ≡ none

module _ (r : FileRegistry) (v : IsValid r) (file : LoadedFile) where
  shown_alone :
      (z : FileZone) (e : FileRegistryEntry)
      → file.filename ≢ []
      → at r file.filename z ≡ some e
      → not_shadowed e.shadowed_by ≡ true
      → z ≡ external
      → at r file.filename string ≡ none
  unfolding not_shadowed
  shown_alone string e named h s p = cc
  shown_alone external e named h s p = ground (arith, v.other file.filename e h)

  unshadowed :
      (z : FileZone) (e : FileRegistryEntry)
      → at r file.filename z ≡ some e
      → (z ≡ external → at r file.filename string ≡ none)
      → not_shadowed e.shadowed_by ≡ true
  unfolding not_shadowed
  unshadowed string e h first = ground (arith, v.local file.filename e h)
  unshadowed external e h first = ground (arith, v.other file.filename e h, first refl)

  listed : file.filename ≢ [] → Memᴰ file (get_all r) → IsListed r file
  unfolding get_all is_visible
  listed named m =
      let (k, e, here, same, shown) = Visible-of_mem r.entries file m in
      let found : get r.entries k ≡ some e =
        All-mem (λ x. get r.entries x.0 ≡ some x.1) r.entries (entries-get r.entries v.unique)
          here in
      let its_key : k ≡ key e.file.filename e.file.zone =
        AllEntries-mem r.entries (k, e) v.keyed here in
      let stored : at r file.filename file.zone ≡ some e =
        subst (λ j. get r.entries j ≡ some e)
          (its_key ∙ ap (λ (f : LoadedFile). key f.filename f.zone) same) found in
      record {
        found = e;
        stored = stored;
        its_file = same;
        usable = ground arith;
        first = λ p. shown_alone file.zone e named stored (ground arith) p;
      }

  listed_of : IsListed r file → Memᴰ file (get_all r)
  unfolding get_all is_visible
  listed_of h =
      let shown : not_shadowed h.found.shadowed_by ≡ true =
        unshadowed file.zone h.found h.stored h.first in
      let fine : h.found.file.rejected ≡ false = rw h.its_file h.usable in
      subst (λ f. Memᴰ f (files_of r.entries)) h.its_file
        (mem_of_get r.entries _ h.found h.stored (ground arith))

  -- `getAll` of a valid registry lists a file with a name exactly if it is stored under that name
  -- and its zone, was not rejected, and, if it is external, no local file has its name.
  pub get_all_iff : file.filename ≢ [] → Memᴰ file (get_all r) ↔ IsListed r file
  get_all_iff named = (listed named, listed_of)
