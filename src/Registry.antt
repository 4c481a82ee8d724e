-- ===== src/Registry.antt =====
-- src/analyzer/fileRegistry.ts: the loaded files of both zones, with local files taking precedence.
pub mod Lookup
pub mod Valid
pub mod Warnings
pub mod Steps
pub mod View
pub mod Undo
pub mod Order
mod Tests
use c_interface_discovery.Prelude.{
  Text, List, [], ◌∷◌, ◌++◌, map, reverse, Option, none, some, Bool, true, false, not, ◌&&◌, ◌||◌,
  ◌===◌, codes, starts_with, lower, any, keep, find, if◌then◌else◌,
}
use c_interface_discovery.Prelude.Dict
use c_interface_discovery.Prelude.Dict.{Dict}
use c_interface_discovery.Types.{
  FileZone, string, external, LoadedFile, FileRegistryEntry, WarningKind, collision,
  AnalysisWarning,
}

pub record FileRegistry : Type 0 where
  pub entries : Dict FileRegistryEntry
  pub warnings : List AnalysisWarning

abbrev pub empty : FileRegistry
empty = record { entries = []; warnings = [] }

pub zone_text : FileZone → Text
zone_text string = codes "string"
zone_text external = codes "external"

-- `${zone}::${filename}`
pub key : Text → FileZone → Text
key filename zone = zone_text zone ++ (codes "::" ++ filename)

pub opposite : FileZone → FileZone
opposite string = external
opposite external = string

abbrev pub is_collision : WarningKind → Bool
is_collision collision = true
is_collision _ = false

-- `w.kind === 'collision' && w.files.includes(filename)`
pub collision_of : Text → AnalysisWarning → Bool
collision_of filename w = is_collision w.kind && any (λ f. f === filename) w.files

pub collision_warning : Text → AnalysisWarning
collision_warning filename = record {
  kind = collision;
  message = filename ++ codes " exists in both zones — local version takes precedence";
  files = filename ∷ [];
}

-- `this.entries.get(k)!.file.filename`
pub filename_at : Dict FileRegistryEntry → Text → Text
filename_at entries k = elim (Dict.get entries k) [ none ↦ [] | some e ↦ e.file.filename ]

-- The shadowing step of a collision, after the new entry was stored at `k`.
pub shadow : LoadedFile → FileZone → Dict FileRegistryEntry → Dict FileRegistryEntry
shadow file string entries = elim (Dict.get entries (key file.filename external)) [
  | none ↦ entries
  | some e ↦
      Dict.set entries (key file.filename external)
        (record { file = e.file; shadowed_by = some file.filename })
]
shadow file external entries =
    let k = key file.filename external in
    let winner = filename_at entries k in
    Dict.set entries k (record { file = file; shadowed_by = some winner })

-- `if (!existing) this._warnings.push({ … })`
pub warn : Text → List AnalysisWarning → List AnalysisWarning
warn filename warnings = elim (find (collision_of filename) warnings) [
  | some _ ↦ warnings
  | none ↦ warnings ++ collision_warning filename ∷ []
]

-- One round of the loop of `addFiles`, for a file of the given zone.
pub add_in : FileZone → LoadedFile → FileRegistry → FileRegistry
add_in zone file r =
    let stored =
      Dict.set r.entries (key file.filename zone) (record { file = file; shadowed_by = none }) in
    if Dict.has stored (key file.filename (opposite zone))
    then record { entries = shadow file zone stored; warnings = warn file.filename r.warnings }
    else record { entries = stored; warnings = r.warnings }

pub add_file : LoadedFile → FileRegistry → FileRegistry
add_file file r = add_in file.zone file r

pub add_files : List LoadedFile → FileRegistry → FileRegistry
add_files [] r = r
add_files (file ∷ files) r = add_files files (add_file file r)

-- `oppositeEntry?.shadowedBy === filename`
pub shadowed_by_is : Text → Option Text → Bool
shadowed_by_is filename none = false
shadowed_by_is filename (some f) = f === filename

pub unshadow : Text → Text → Dict FileRegistryEntry → Dict FileRegistryEntry
unshadow filename opposite_key entries = elim (Dict.get entries opposite_key) [
  | none ↦ entries
  | some e ↦
      if shadowed_by_is filename e.shadowed_by
      then Dict.set entries opposite_key (record { file = e.file; shadowed_by = none })
      else entries
]

pub remove_file : Text → FileZone → FileRegistry → FileRegistry
remove_file filename zone r = record {
  entries =
      unshadow filename (key filename (opposite zone)) (Dict.delete r.entries (key filename zone));
  warnings = keep (λ w. not (collision_of filename w)) r.warnings;
}

-- `!e.shadowedBy`: the empty string is falsy too
pub not_shadowed : Option Text → Bool
not_shadowed none = true
not_shadowed (some []) = true
not_shadowed (some (c ∷ s)) = false

pub is_visible : FileRegistryEntry → Bool
is_visible e = not_shadowed e.shadowed_by && not e.file.rejected

-- `[...entries.values()].filter(…).map((e) => e.file)`
pub get_all : FileRegistry → List LoadedFile
get_all r = map (λ e. e.file) (keep is_visible (map (λ e. e.1) r.entries))

-- `/suffix$/i.test(name)` for a literal suffix in lower case
unfoldable pub has_suffix : Text → Text → Bool
has_suffix suffix name = starts_with (reverse (map lower name)) (reverse suffix)

unfoldable pub is_source : Text → Bool
is_source name = has_suffix (codes ".c") name || has_suffix (codes ".cpp") name

unfoldable pub is_header : Text → Bool
is_header name = has_suffix (codes ".h") name

unfoldable pub is_string_zone : FileZone → Bool
is_string_zone string = true
is_string_zone external = false

unfoldable pub get_sources : FileRegistry → List LoadedFile
get_sources r = keep (λ f. is_string_zone f.zone && is_source f.filename) (get_all r)

unfoldable pub get_string_headers : FileRegistry → List LoadedFile
get_string_headers r = keep (λ f. is_string_zone f.zone && is_header f.filename) (get_all r)

unfoldable pub get_external_headers : FileRegistry → List LoadedFile
get_external_headers r = keep (λ f. not (is_string_zone f.zone) && is_header f.filename) (get_all r)

pub get_all_entries : FileRegistry → List FileRegistryEntry
get_all_entries r = map (λ e. e.1) r.entries

pub clear : FileRegistry → FileRegistry
clear r = empty
