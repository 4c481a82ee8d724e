-- ===== src/Layout/FieldType.antt =====
-- `normalizeType` and `parseFieldType` of src/analyzer/structLayoutEngine.ts.
use c_interface_discovery.Prelude.{
  ℕ, zero, suc, ◌+◌, ◌-◌, ◌*◌, Text, List, [], ◌∷◌, ◌++◌, Option, none, some, Bool, true, false,
  not, ◌&&◌, ◌||◌, ◌==◌, ◌===◌, codes, starts_with, index_of, includes, is_space, is_word, trim,
  trim_start, take, drop, length, all, keep, is_some, if◌then◌else◌,
}
use c_interface_discovery.Prelude.Words.{at_boundary, decimal, is_decimal}

-- The length of `word\b` at the start of the text, 0 if it is not there.
unfoldable pub word_length : Text → Text → ℕ
word_length s word =
    if starts_with s word && at_boundary (drop (length word) s) then length word else 0

-- `a || b` on lengths of matches.
unfoldable pub first_match : ℕ → ℕ → ℕ
first_match zero n = n
first_match (suc m) n = suc m

-- A word boundary behind a closing parenthesis: a word character follows.
unfoldable pub before_word : Text → Bool
before_word [] = false
before_word (c ∷ s) = is_word c

-- `\([^)]*\)` and a boundary, on what follows the white space after `__attribute__`, with the number
-- of characters before it.
unfoldable pub attribute_group : ℕ → Text → ℕ
attribute_group before [] = 0
attribute_group before (c ∷ s) = elim (index_of b')' s) [
  | none ↦ 0
  | some i ↦ if c == b'(' && before_word (drop (suc i) s) then before + suc (suc i) else 0
]

-- `__attribute__\s*\([^)]*\)\b`
unfoldable pub attribute_length : Text → ℕ
attribute_length s =
    if starts_with s (codes "__attribute__")
    then (let rest = drop 13 s in
        let group = trim_start rest in attribute_group (13 + (length rest - length group)) group)
    else 0

-- The alternatives of the pattern of `normalizeType`, in order, at the start of the text.
unfoldable pub qualifier_length : Text → ℕ
qualifier_length s = first_match (word_length s (codes "const")) (
    first_match (word_length s (codes "volatile")) (
      first_match (word_length s (codes "restrict")) (
        first_match (word_length s (codes "__restrict")) (
          first_match (word_length s (codes "__restrict__"))
            (first_match (word_length s (codes "__extension__")) (attribute_length s))))))

-- `.replace(/\b(…)\b/g, '')`, with the length of a match at the start of a text: `skip` characters of
-- a match are left to drop, and `inside` says whether the character before is a word character.
unfoldable pub strip_matches : (Text → ℕ) → ℕ → Bool → Text → Text
strip_matches match_length skip inside [] = []
strip_matches match_length (suc skip) inside (c ∷ s) = strip_matches match_length skip (is_word c) s
strip_matches match_length zero inside (c ∷ s) = elim (if inside then 0 else match_length (c ∷ s)) [
  | zero ↦ c ∷ strip_matches match_length 0 (is_word c) s
  | suc n ↦ strip_matches match_length n (is_word c) s
]

-- `.replace(/\s+/g, ' ')`; `spaced` says whether the run's blank was written.
unfoldable pub collapse : Bool → Text → Text
collapse spaced [] = []
collapse spaced (c ∷ s) = elim (is_space c) [
  | false ↦ c ∷ collapse false s
  | true ↦ if spaced then collapse true s else 32 ∷ collapse true s
]

unfoldable pub normalize_type : Text → Text
normalize_type raw = trim (collapse false (strip_matches qualifier_length 0 false raw))

pub record ParsedFieldType : Type 0 where
  pub base_type : Text
  pub is_pointer : Bool
  pub is_array : Bool
  pub array_length : Option ℕ
  pub is_bitfield : Bool
  pub bit_width : Option ℕ

-- What stands before and after the last colon.
unfoldable pub last_colon : Text → Option (Text × Text)
last_colon [] = none
last_colon (c ∷ s) = elim (last_colon s) [
  | some (before, after) ↦ some (c ∷ before, after)
  | none ↦ if c == b':' then some ([], s) else none
]

-- `/:(\s*\d+)\s*$/` on the base type: what is left of it, and the width. No colon can stand in what
-- follows the colon of a match, so only the last one counts.
unfoldable pub split_bitfield : Text → Text × Option ℕ
split_bitfield base = elim (last_colon base) [
  | none ↦ (base, none)
  | some (before, after) ↦
      if is_decimal (trim after) then (trim before, some (decimal (trim after))) else (base, none)
]

-- `matchAll(/\[([^\]]*)\]/g)`, trimmed; `skip` characters of a match are left to pass over.
unfoldable pub extents : ℕ → Text → List Text
extents skip [] = []
extents (suc skip) (c ∷ s) = extents skip s
extents zero (c ∷ s) = elim (if c == b'[' then index_of b']' s else none) [
  | none ↦ extents 0 s
  | some i ↦ trim (take i s) ∷ extents (suc i) s
]

-- `.replace(/\[[^\]]*\]/g, '')`
unfoldable pub remove_extents : ℕ → Text → Text
remove_extents skip [] = []
remove_extents (suc skip) (c ∷ s) = remove_extents skip s
remove_extents zero (c ∷ s) = elim (if c == b'[' then index_of b']' s else none) [
  | none ↦ c ∷ remove_extents 0 s
  | some i ↦ remove_extents (suc i) s
]

-- `extents.reduce((a, e) => a * parseInt(e, 10), 1)`
unfoldable pub product_from : ℕ → List Text → ℕ
product_from a [] = a
product_from a (e ∷ es) = product_from (a * decimal e) es

-- The element count of an array with these extents; none if one is no literal.
unfoldable pub array_length_of : List Text → Option ℕ
array_length_of es = if all is_decimal es then some (product_from 1 es) else none

-- `\w+` at the start of the text
unfoldable pub word_run : Text → Text
word_run [] = []
word_run (c ∷ s) = let rest = word_run s in if is_word c then c ∷ rest else []

-- The tag of `/^(struct|union|enum)\s+(\w+)/` after the keyword.
unfoldable pub tag_after : Text → Option Text
tag_after [] = none
tag_after (c ∷ s) =
    let tag = word_run (trim_start s) in if is_space c && not (tag === []) then some tag else none

unfoldable pub tag_of : Text → Option Text
tag_of base =
    if starts_with base (codes "struct")
    then tag_after (drop 6 base)
    else if starts_with base (codes "union")
    then tag_after (drop 5 base)
    else if starts_with base (codes "enum")
    then tag_after (drop 4 base)
    else none

unfoldable pub or_text : Option Text → Text → Text
or_text none base = base
or_text (some tag) base = tag

unfoldable pub parse_field_type : Text → Text → ParsedFieldType
parse_field_type raw_type raw_name =
    let normal = normalize_type raw_type in
    let pointer = includes normal b'*' || starts_with raw_name (codes "*") in
    let pointee = (if pointer then trim (keep (λ c. not (c == b'*')) normal) else normal) in
    let (unit, width) = split_bitfield pointee in
    let es = extents 0 (raw_name ++ unit) in
    let array = not (length es == 0) in
    let element = (if array then trim (remove_extents 0 unit) else unit) in
    record {
      base_type = or_text (tag_of element) element;
      is_pointer = pointer;
      is_array = array;
      array_length = if array then array_length_of es else none;
      is_bitfield = is_some width;
      bit_width = width;
    }
