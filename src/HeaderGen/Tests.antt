-- ===== src/HeaderGen/Tests.antt =====
-- A source that uses a struct of one header, which includes another one and is included by it.
use c_interface_discovery.Prelude.{
  Text, [], ◌∷◌, none, Bool, true, false, ◌||◌, ◌≡◌, ◌↔◌, refl, codes, ◌===◌, starts_with, join,
  split, index_of, ends_with,
}
use c_interface_discovery.Types.{string, utf_8, CStruct, LoadedFile}
use c_interface_discovery.Graph.{includes_text}
use c_interface_discovery.HeaderGen.{HeaderGenBundle, build_header_gen_bundle}
use c_interface_discovery.HeaderGen.Includes.{
  resolved, ambiguous, extract_includes, scan_includes, match_include, directive, skip_blanks,
  is_line_end, after_hash, quoted, closed, path_and_rest, join_path, join_parts, dir_of,
  with_slashes, by_suffix, resolve_include, is_header,
}
use c_interface_discovery.HeaderGen.Roots.{HeaderGenInput}
use c_interface_discovery.HeaderGen.Closure.{Leads, build_header_gen_bundle_iff}

abbrev file_of : Text → Text → LoadedFile
file_of name content = record {
  filename = name;
  content = content;
  zone = string;
  encoding = utf_8;
  size_bytes = 0;
  oversized = false;
  rejected = false;
  rejection_reason = none;
}

abbrev hdr : CStruct
hdr = record {
  name = codes "Hdr";
  fields = record { type = codes "uint32_t"; name = codes "id" } ∷ [];
  source_file = codes "inc/a.h";
  conditional = false;
  pack_attribute = none;
  pack_source = none;
}

abbrev input : HeaderGenInput
input = record {
  messages = [];
  payloads = [];
  type_dict = record { structs = hdr ∷ []; enums = []; typedef_aliases = none };
  files =
      file_of (codes "main.c") (codes "Hdr h;")
      ∷ file_of (codes "inc/a.h") (codes "#include \"b.h\"")
      ∷ file_of (codes "inc/b.h") (codes "# include \"../inc/a.h\"")
      ∷ [];
  analyses = [];
}

abbrev any_order : Text → Text → Bool
any_order s t = true

scan :
    extract_includes (codes "int x;\n  # include <a/b.h>\n#include \"c\" #include \"d\"")
    ≡ record { path = codes "a/b.h"; is_local = false }
      ∷ record { path = codes "c"; is_local = true }
      ∷ []
unfolding extract_includes scan_includes match_include directive skip_blanks is_line_end after_hash
    starts_with quoted closed path_and_rest
scan = refl

siblings :
    (resolve_include (codes "a/x.c") (codes "../b/y.h") (codes "b/y.h" ∷ [])
      ≡ resolved (codes "b/y.h"))
    × (resolve_include (codes "x.c") (codes "y.h") (codes "a/y.h" ∷ codes "b/y.h" ∷ [])
        ≡ ambiguous (codes "a/y.h" ∷ codes "b/y.h" ∷ []))
unfolding resolve_include includes_text ◌===◌ join_path join join_parts split dir_of index_of
    with_slashes by_suffix ends_with
siblings = (refl, refl)

abbrev bundle : HeaderGenBundle
bundle = build_header_gen_bundle any_order input

build_header_gen_bundle_iff_example : (includes_text bundle.include (codes "inc/b.h") ≡ true) ↔ (
    (is_header (codes "inc/b.h") ≡ true)
    × (includes_text bundle.input (codes "inc/b.h") ≡ false)
    × ((from : Text) × ((includes_text bundle.root from || includes_text bundle.input from) ≡ true)
        × Leads input from (codes "inc/b.h")))
build_header_gen_bundle_iff_example = build_header_gen_bundle_iff any_order input (codes "inc/b.h")
