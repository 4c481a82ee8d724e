-- ===== src/HeaderGen/Includes.antt =====
-- `extractIncludes`, `dirOf`, `joinPath` and `resolveInclude` of src/analyzer/headerGenBundle.ts.
use c_interface_discovery.Prelude.{
  ℕ, zero, suc, ◌-◌, Text, List, [], ◌∷◌, ◌++◌, map, reverse, Option, none, some, Bool, true, not,
  ◌||◌, ◌==◌, ◌===◌, codes, starts_with, ends_with, text_before, index_of, split, join,
  to_lower_case, keep, take, drop, length, if◌then◌else◌,
}
use c_interface_discovery.Graph.{includes_text, push_all}
use c_interface_discovery.Roles.Report.{sort_by}

pub record Include : Type 0 where
  pub path : Text
  pub is_local : Bool

-- `[ \t]*`
unfoldable pub skip_blanks : Text → Text
skip_blanks [] = []
skip_blanks (c ∷ s) = let rest = skip_blanks s in if c == 32 || c == 9 then rest else c ∷ s

-- `[^>"]+` and what follows it
unfoldable pub path_and_rest : Text → Text × Text
path_and_rest [] = ([], [])
path_and_rest (c ∷ s) =
    let (path, rest) = path_and_rest s in
    if c == b'>' || c == b'"' then ([], c ∷ s) else (c ∷ path, rest)

-- `+` wants a character, and the closing `[>"]` has to be there.
unfoldable pub closed : Bool → Text × Text → Option (Include × Text)
closed is_local ([], rest) = none
closed is_local (c ∷ path, []) = none
closed is_local (c ∷ path, d ∷ rest) = some (record { path = c ∷ path; is_local = is_local }, rest)

-- `([<"])([^>"]+)[>"]`
unfoldable pub quoted : Text → Option (Include × Text)
quoted [] = none
quoted (c ∷ s) = if c == b'<' || c == b'"' then closed (c == b'"') (path_and_rest s) else none

-- `[ \t]*include[ \t]*` and the path
unfoldable pub after_hash : Text → Option (Include × Text)
after_hash s =
    let t = skip_blanks s in
    if starts_with t (codes "include") then quoted (skip_blanks (drop 7 t)) else none

-- The whole pattern at the start of a line, with the text behind the match.
unfoldable pub directive : Text → Option (Include × Text)
directive [] = none
directive (c ∷ s) = if c == b'#' then after_hash s else none

unfoldable pub match_include : Bool → Text → Option (Include × Text)
match_include at_line_start s = if at_line_start then directive (skip_blanks s) else none

-- A line terminator, behind which `^` matches.
unfoldable pub is_line_end : ℕ → Bool
is_line_end c = c == 10 || c == 13 || c == 0x2028 || c == 0x2029

-- The matches of the text; `skip` counts the characters left of the last match.
unfoldable pub scan_includes : ℕ → Bool → Text → List Include
scan_includes skip at_line_start [] = []
scan_includes (suc skip) at_line_start (c ∷ s) = scan_includes skip (is_line_end c) s
scan_includes zero at_line_start (c ∷ s) = elim (match_include at_line_start (c ∷ s)) [
  | none ↦ scan_includes zero (is_line_end c) s
  | some (inc, rest) ↦ inc ∷ scan_includes (length s - length rest) (is_line_end c) s
]

unfoldable pub extract_includes : Text → List Include
extract_includes content = scan_includes 0 true content

-- `s.replace(/\\/g, '/')`
unfoldable pub with_slashes : Text → Text
with_slashes = map (λ c. if c == 92 then b'/' else c)

unfoldable pub dir_of : Text → Text
dir_of path = elim (index_of b'/' (reverse (with_slashes path))) [
  | none ↦ []
  | some i ↦ take (length path - suc i) path
]

unfoldable pub dirs_of : List Text → List Text
dirs_of paths = sort_by text_before (push_all [] (keep (λ d. not (d === [])) (map dir_of paths)))

-- The loop of `joinPath`, with the last part pushed in front.
unfoldable pub join_parts : List Text → List Text → List Text
join_parts [] out = out
join_parts (p ∷ parts) out =
    join_parts parts (
      if p === [] || p === codes "." then out else if p === codes ".." then drop 1 out else p ∷ out)

unfoldable pub join_path : Text → Text → Text
join_path dir rel =
    join b'/' (reverse (join_parts (split b'/' dir ++ split b'/' (with_slashes rel)) []))

-- `{ file }`, `{ ambiguous }` or `{}`
pub data Resolution : Type 0 where
  resolved : Text → Resolution
  ambiguous : List Text → Resolution
  missing : Resolution

unfoldable pub by_suffix : List Text → Resolution
by_suffix [] = missing
by_suffix (f ∷ []) = resolved f
by_suffix (f ∷ g ∷ files) = ambiguous (f ∷ g ∷ files)

unfoldable pub resolve_include : Text → Text → List Text → Resolution
resolve_include from_file include_path loaded =
    let want = with_slashes include_path in
    let sibling = join_path (dir_of from_file) want in
    if includes_text loaded sibling
    then resolved sibling
    else if includes_text loaded want
    then resolved want
    else by_suffix (keep (λ f. f === want || ends_with f (b'/' ∷ want)) loaded)

-- `/\.h$/i`, and `/\.(c|cpp)$/i`
unfoldable pub is_header : Text → Bool
is_header path = ends_with (to_lower_case path) (codes ".h")

unfoldable pub is_source : Text → Bool
is_source path =
    let name = to_lower_case path in ends_with name (codes ".c") || ends_with name (codes ".cpp")
