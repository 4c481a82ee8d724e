-- ===== src/Ingest.antt =====
-- src/analyzer/fileIngestion.ts and src/analyzer/fileClassifier.ts: what becomes of a file that is
-- dropped on the page. The decoders of the platform are parameters.
pub mod Endings
pub mod Bytes
pub mod Verdict
pub mod Roles
mod Tests
use c_interface_discovery.Prelude.{
  ℕ, ◌+◌, ◌*◌, Text, List, [], ◌∷◌, ◌++◌, map, reverse, Option, none, some, Bool, true, false, not,
  ◌&&◌, ◌||◌, ◌==◌, ◌===◌, ltb, leb, any, keep, length, take, codes, starts_with, to_lower_case,
  if◌then◌else◌,
}
use c_interface_discovery.Types.{
  FileRole, source, string_header, external_header, FileZone, string, external, Encoding, utf_8,
  latin_1, LoadedFile,
}

abbrev pub max_size_bytes : ℕ
max_size_bytes = 2 * 1024 * 1024

abbrev pub oversized_bytes : ℕ
oversized_bytes = 500 * 1024

abbrev pub binary_sample_size : ℕ
binary_sample_size = 8 * 1024

-- A file of the browser; `web_path` is `webkitRelativePath`, empty where there is none.
pub record File : Type 0 where
  pub name : Text
  pub web_path : Text
  pub size : ℕ
  pub bytes : List ℕ

-- `TextDecoder`: UTF-8 with `fatal`, which throws on malformed bytes, and ISO 8859-1.
pub record Decoders : Type 0 where
  pub utf8 : List ℕ → Option Text
  pub latin1 : List ℕ → Text

unfoldable pub is_printable : ℕ → Bool
is_printable byte = byte == 9 || byte == 10 || byte == 13 || not (ltb byte 32 || ltb 126 byte)

-- More than a tenth of the sample is not printable; the quotient of the source is compared with 0.10.
unfoldable pub is_binary : List ℕ → Bool
is_binary bytes =
    let sample = take binary_sample_size bytes in
    ltb (length sample) (10 * length (keep (λ byte. not (is_printable byte)) sample))

unfoldable pub next_is_lf : Text → Bool
next_is_lf [] = false
next_is_lf (c ∷ s) = c == 10

-- `.replace(/\r\n/g, '\n')`: a carriage return before a line feed is dropped.
unfoldable pub replace_crlf : Text → Text
replace_crlf [] = []
replace_crlf (c ∷ s) =
    let rest = replace_crlf s in if c == 13 && next_is_lf s then rest else c ∷ rest

-- `.replace(/\r/g, '\n')`
unfoldable pub replace_cr : Text → Text
replace_cr = map (λ c. if c == 13 then 10 else c)

unfoldable pub normalize_line_endings : Text → Text
normalize_line_endings text = replace_cr (replace_crlf text)

-- `.replace(/\\/g, '/')`
unfoldable pub slashes : Text → Text
slashes = map (λ c. if c == 92 then 47 else c)

-- `rel || file.name`
unfoldable pub or_name : Text → Text → Text
or_name [] name = name
or_name (c ∷ rel) name = c ∷ rel

unfoldable pub ingest_path : File → Text
ingest_path file = or_name (slashes file.web_path) file.name

abbrev pub reject : File → FileZone → Text → LoadedFile
reject file zone reason = record {
  filename = ingest_path file;
  content = [];
  zone = zone;
  encoding = utf_8;
  size_bytes = file.size;
  oversized = false;
  rejected = true;
  rejection_reason = some reason;
}

abbrev pub accept : File → FileZone → Encoding → Text → LoadedFile
accept file zone encoding content = record {
  filename = ingest_path file;
  content = normalize_line_endings content;
  zone = zone;
  encoding = encoding;
  size_bytes = file.size;
  oversized = leb oversized_bytes file.size;
  rejected = false;
  rejection_reason = none;
}

-- The `try` and its `catch`, on the result of the UTF-8 decoder.
unfoldable pub decoded : Decoders → File → FileZone → Option Text → LoadedFile
decoded decoders file zone (some content) = accept file zone utf_8 content
decoded decoders file zone none =
    if is_binary file.bytes
    then reject file zone (codes "binary file")
    else accept file zone latin_1 (decoders.latin1 file.bytes)

unfoldable pub ingest_file : Decoders → File → FileZone → LoadedFile
ingest_file decoders file zone =
    if file.size == 0
    then reject file zone (codes "empty file")
    else if ltb max_size_bytes file.size
    then reject file zone (codes "file too large (>2MB)")
    else if any (λ byte. byte == 0) (take binary_sample_size file.bytes)
    then reject file zone (codes "binary file")
    else decoded decoders file zone (decoders.utf8 file.bytes)

unfoldable pub ingest_files : Decoders → List File → FileZone → List LoadedFile
ingest_files decoders files zone = map (λ f. ingest_file decoders f zone) files

-- `/suffix$/.test(name)` for a literal suffix
abbrev pub ends_with : Text → Text → Bool
ends_with suffix name = starts_with (reverse name) (reverse suffix)

unfoldable pub header_role : FileZone → FileRole
header_role external = external_header
header_role string = string_header

unfoldable pub classify_file : LoadedFile → FileRole
classify_file file =
    let lower = to_lower_case file.filename in
    if ends_with (codes ".c") lower || ends_with (codes ".cpp") lower
    then source
    else if ends_with (codes ".h") lower
    then header_role file.zone
    else source
