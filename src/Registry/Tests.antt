-- ===== src/Registry/Tests.antt =====
-- Runs of the registry, and the theorems about it at concrete files.
use mathlib.Core.List.{Memᴰ}
use c_interface_discovery.Prelude.{Text, [], ◌∷◌, none, false, ◌≡◌, ◌↔◌, refl, codes, ◌===◌}
use c_interface_discovery.Prelude.Dict.{get, set, has}
use c_interface_discovery.Types.{FileZone, string, external, utf_8, LoadedFile}
use c_interface_discovery.Registry.{
  FileRegistry, empty, key, zone_text, opposite, shadow, filename_at, warn, add_in, add_file,
  remove_file, get_all, is_visible, not_shadowed,
}
use c_interface_discovery.Registry.Lookup.{at}
use c_interface_discovery.Registry.Valid.{IsValid, IsValid-empty}
use c_interface_discovery.Registry.Steps.{add, remove, run, run-IsValid, add_file-IsValid}
use c_interface_discovery.Registry.View.{IsListed, get_all_iff}
use c_interface_discovery.Registry.Undo.{remove_file-add_file}
use c_interface_discovery.Registry.Order.{add_file_comm}

abbrev types_h : Text
types_h = codes "types.h"

abbrev file_in : FileZone → LoadedFile
file_in zone = record {
  filename = types_h;
  content = codes "int x;";
  zone = zone;
  encoding = utf_8;
  size_bytes = 6;
  oversized = false;
  rejected = false;
  rejection_reason = none;
}

abbrev system : FileRegistry
system = add_file (file_in external) empty

local_wins : get_all (add_file (file_in string) system) ≡ file_in string ∷ []
unfolding get_all add_file add_in get set has key zone_text opposite shadow filename_at warn ◌===◌
    is_visible not_shadowed
local_wins = refl

system-IsValid : IsValid system
system-IsValid = add_file-IsValid (file_in external) empty IsValid-empty

no_local : at system types_h string ≡ none
unfolding add_file add_in get set has key zone_text opposite shadow ◌===◌
no_local = refl

run-IsValid_example :
    IsValid (run (add (file_in external ∷ file_in string ∷ []) ∷ remove types_h string ∷ []) empty)
run-IsValid_example =
    run-IsValid (add (file_in external ∷ file_in string ∷ []) ∷ remove types_h string ∷ []) empty
      IsValid-empty

get_all_iff_example : Memᴰ (file_in external) (get_all system) ↔ IsListed system (file_in external)
get_all_iff_example = get_all_iff system system-IsValid (file_in external) (λ e. cc e)

remove_file-add_file_example :
    remove_file types_h string (add_file (file_in string) system) ≡ system
remove_file-add_file_example = remove_file-add_file (file_in string) system system-IsValid no_local

add_file_comm_example :
    at (add_file (file_in string) (add_file (file_in external) empty)) types_h external
    ≡ at (add_file (file_in external) (add_file (file_in string) empty)) types_h external
add_file_comm_example =
    add_file_comm (file_in string) (file_in external) empty types_h external (λ _ e. cc e)
