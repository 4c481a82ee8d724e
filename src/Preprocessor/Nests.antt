-- ===== src/Preprocessor/Nests.antt =====
-- Files whose directives nest, and what src/analyzer/preprocessor.ts is to find in them.
use c_interface_discovery.Prelude.{
  ℕ, suc, ◌+◌, Text, List, [], ◌∷◌, ◌++◌, map, Option, none, some, Bool, true, false, join, length,
  ◌≡◌,
}
use c_interface_discovery.Preprocessor.{ConditionalBlock, condition_of, is_alternative, is_end}

-- Lines of a file: plain lines, blocks between their opening and their closing line, and, in a block,
-- the lines that divide it into branches.
pub data Nest : Type 0 where
  stop : Nest
  plain : Text → Nest → Nest
  block : Text → Nest → Text → Nest → Nest
  divide : Text → Nest → Nest

abbrev pub lines_of : Nest → List Text
lines_of stop = []
lines_of (plain line rest) = line ∷ lines_of rest
lines_of (block opening inner closing rest) = opening ∷ (lines_of inner ++ closing ∷ lines_of rest)
lines_of (divide line rest) = line ∷ lines_of rest

-- The lines with their directives blank.
abbrev pub blanked : Nest → List Text
blanked stop = []
blanked (plain line rest) = line ∷ blanked rest
blanked (block opening inner closing rest) = [] ∷ (blanked inner ++ [] ∷ blanked rest)
blanked (divide line rest) = [] ∷ blanked rest

-- The branches of a block: its own lines, without those of the blocks in it.
abbrev pub branches_from : List Text → Nest → List (List Text)
branches_from current stop = current ∷ []
branches_from current (plain line rest) = branches_from (current ++ line ∷ []) rest
branches_from current (block opening inner closing rest) = branches_from current rest
branches_from current (divide line rest) = current ∷ branches_from [] rest

abbrev pub name_of : Option Text → Text
name_of none = []
name_of (some name) = name

-- The blocks, inner ones first, of lines that start at a line number.
abbrev pub blocks_of : ℕ → Nest → List ConditionalBlock
blocks_of i stop = []
blocks_of i (plain line rest) = blocks_of (suc i) rest
blocks_of i (block opening inner closing rest) =
    let end = suc i + length (lines_of inner) in
    blocks_of (suc i) inner
    ++ record {
      start_line = i;
      end_line = end;
      condition = name_of (condition_of opening);
      branch_texts = map (join 10) (branches_from [] inner);
    }
      ∷ blocks_of (suc end) rest
blocks_of i (divide line rest) = blocks_of (suc i) rest

abbrev pub IsPlain : Text → Type 0
IsPlain line = (condition_of line ≡ none) × ((is_alternative line ≡ false) × (is_end line ≡ false))

abbrev pub IsOpening : Text → Type 0
IsOpening line = (name : Text) × (condition_of line ≡ some name)

abbrev pub IsDividing : Text → Type 0
IsDividing line = (condition_of line ≡ none) × (is_alternative line ≡ true)

abbrev pub IsClosing : Text → Type 0
IsClosing line = (condition_of line ≡ none) × ((is_alternative line ≡ false) × (is_end line ≡ true))

-- Each line is of its kind, and only blocks are divided.
pub data IsNested : Bool → Nest → Type 0 where
  stops : {inside : Bool} → IsNested inside stop
  plains :
      {inside : Bool} {line : Text} {rest : Nest}
      → IsPlain line
      → IsNested inside rest
      → IsNested inside (plain line rest)
  blocks :
      {inside : Bool} {opening : Text} {inner : Nest} {closing : Text} {rest : Nest}
      → IsOpening opening
      → IsNested true inner
      → IsClosing closing
      → IsNested inside rest
      → IsNested inside (block opening inner closing rest)
  divides :
      {line : Text} {rest : Nest}
      → IsDividing line
      → IsNested true rest
      → IsNested true (divide line rest)
