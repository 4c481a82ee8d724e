-- ===== src/Ingest/Tests.antt =====
-- Files at the door.
use mathlib.Core.List.{Memᴰ}
use c_interface_discovery.Prelude.{
  [], ◌∷◌, ◌++◌, none, some, any, ltb, if◌then◌else◌, refl, ◌≡◌, ◌↔◌, codes,
}
use c_interface_discovery.Types.{
  string, external, string_header, external_header, LoadedFile, latin_1,
}
use c_interface_discovery.Registry.{
  empty, add_file, get_all, get_string_headers, get_external_headers,
}
use c_interface_discovery.Ingest.{
  File, Decoders, classify_file, ingest_file, normalize_line_endings, decoded, is_binary,
  is_printable, replace_crlf, next_is_lf, replace_cr,
}
use c_interface_discovery.Ingest.Endings.{HasNoCr, normalize_line_endings-HasNoCr}
use c_interface_discovery.Ingest.Verdict.{IsAccepted, IsReadable, ingest_file_iff}
use c_interface_discovery.Ingest.Roles.{classify_file_iff}

abbrev ascii : Decoders
ascii = record { utf8 = λ bytes. some bytes; latin1 = λ bytes. bytes }

abbrev header : File
header = record { name = codes "a.h"; web_path = []; size = 3; bytes = 97 ∷ 13 ∷ 10 ∷ [] }

normalize_line_endings-HasNoCr_example :
    HasNoCr (normalize_line_endings (97 ∷ 10 ∷ 98 ∷ []))
    × (HasNoCr (97 ∷ 10 ∷ 98 ∷ [])
        → (normalize_line_endings (97 ∷ 10 ∷ 98 ∷ []) ≡ 97 ∷ 10 ∷ 98 ∷ [])
          × (normalize_line_endings (97 ∷ 13 ∷ 10 ∷ 98 ∷ []) ≡ 97 ∷ 10 ∷ 98 ∷ [])
          × (normalize_line_endings (97 ∷ 13 ∷ 98 ∷ []) ≡ 97 ∷ 10 ∷ 98 ∷ []))
normalize_line_endings-HasNoCr_example = normalize_line_endings-HasNoCr (97 ∷ 10 ∷ 98 ∷ [])

-- ASCII bytes alone are read as UTF-8.
abbrev western : Decoders
western = record {
  utf8 = λ bytes. if any (λ byte. ltb 127 byte) bytes then none else some bytes;
  latin1 = λ bytes. bytes;
}

-- One byte of ten is not ASCII.
abbrev comment : File
comment = record {
  name = codes "a.c";
  web_path = [];
  size = 10;
  bytes = 0xe9 ∷ codes " /* e */" ++ 13 ∷ 10 ∷ [];
}

ingest_file_iff_example :
    IsAccepted (ingest_file western comment string) latin_1 (0xe9 ∷ codes " /* e */" ++ 10 ∷ [])
    ↔ IsReadable western comment latin_1 (0xe9 ∷ codes " /* e */" ++ 10 ∷ [])
ingest_file_iff_example =
    ingest_file_iff western comment string latin_1 (0xe9 ∷ codes " /* e */" ++ 10 ∷ [])

comment-IsAccepted :
    IsAccepted (ingest_file western comment string) latin_1 (0xe9 ∷ codes " /* e */" ++ 10 ∷ [])
unfolding ingest_file decoded is_binary is_printable normalize_line_endings replace_crlf next_is_lf
    replace_cr
comment-IsAccepted = (refl, (refl, refl))

abbrev stored : LoadedFile
stored = ingest_file ascii header external

classify_file_iff_example :
    (Memᴰ stored (get_string_headers (add_file stored empty))
      ↔ (Memᴰ stored (get_all (add_file stored empty)) × (classify_file stored ≡ string_header)))
    × (Memᴰ stored (get_external_headers (add_file stored empty)) ↔ (
        Memᴰ stored (get_all (add_file stored empty)) × (classify_file stored ≡ external_header)))
classify_file_iff_example = classify_file_iff (add_file stored empty) stored
