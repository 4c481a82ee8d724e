-- ===== src/References/Tests.antt =====
-- References in one file.
use c_interface_discovery.Prelude.{Text, [], ◌∷◌, ◌++◌, none, Bool, true, false, All, codes}
use c_interface_discovery.Types.{string, utf_8, LoadedFile}
use c_interface_discovery.References.{find_references}
use c_interface_discovery.References.Lines.{IsUseful, find_references-IsUseful}

abbrev file : LoadedFile
file = record {
  filename = codes "a.c";
  content = codes "int ab;" ++ 10 ∷ codes " use(ab_c, ab);";
  zone = string;
  encoding = utf_8;
  size_bytes = 23;
  oversized = false;
  rejected = false;
  rejection_reason = none;
}

abbrev any_order : Text → Text → Bool
any_order s t = true

find_references-IsUseful_example : All IsUseful (find_references any_order (codes "ab") (file ∷ []))
find_references-IsUseful_example = find_references-IsUseful any_order (codes "ab") (file ∷ [])
