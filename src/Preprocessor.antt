-- ===== src/Preprocessor.antt =====
-- src/analyzer/preprocessor.ts: the conditional blocks of a file, and its content without them.
pub mod Nests
pub mod Nesting
pub mod Lines
mod Tests
use c_interface_discovery.Prelude.{
  ℕ, suc, ◌+◌, ◌-◌, Text, List, [], ◌∷◌, ◌++◌, map, Option, none, some, Bool, true, false, not,
  ◌||◌, codes, ltb, length, trim_start, is_space, is_word, split, join, if◌then◌else◌,
}
use c_interface_discovery.Prelude.Words.{at_boundary}
use c_interface_discovery.Pack.Pragma.{expect, skip_blanks, ◌>>=◌}

pub record ConditionalBlock : Type 0 where
  pub start_line : ℕ
  pub end_line : ℕ
  pub condition : Text
  pub branch_texts : List Text

pub record PreprocessorResult : Type 0 where
  pub stripped_content : Text
  pub blocks : List ConditionalBlock
  pub has_conditionals : Bool

pub record StackEntry : Type 0 where
  pub start_line : ℕ
  pub condition : Text
  pub branches : List (List Text)
  pub current_branch : List Text

-- The variables of the loop; the top of the stack comes first.
pub record State : Type 0 where
  pub stack : List StackEntry
  pub blocks : List ConditionalBlock
  pub stripped : List Text

-- What follows `^[ \t]*#\s*` and a keyword.
unfoldable pub keyword : Text → Text → Option Text
keyword name line = do hash ← expect (codes "#") (skip_blanks line); expect name (trim_start hash)

-- `\w+` at the start of the text
unfoldable pub word_of : Text → Text
word_of [] = []
word_of (c ∷ s) = let rest = word_of s in if is_word c then c ∷ rest else []

unfoldable pub some_word : Text → Option Text
some_word [] = none
some_word (c ∷ s) = some (c ∷ s)

-- `\s+(\w+)`
unfoldable pub name_after : Text → Option Text
name_after [] = none
name_after (c ∷ s) = if is_space c then some_word (word_of (trim_start s)) else none

unfoldable pub or_second : Option Text → Option Text → Option Text
or_second none second = second
or_second (some name) second = some name

-- `IFDEF_RE.exec(line) ?? IFNDEF_RE.exec(line)`: the name that is captured
unfoldable pub condition_of : Text → Option Text
condition_of line =
    or_second (keyword (codes "ifdef") line >>= name_after)
      (keyword (codes "ifndef") line >>= name_after)

unfoldable pub ends_word : Option Text → Bool
ends_word none = false
ends_word (some rest) = at_boundary rest

-- `ELIF_RE.test(line) || ELSE_RE.test(line)`
unfoldable pub is_alternative : Text → Bool
is_alternative line =
    ends_word (keyword (codes "elif") line) || ends_word (keyword (codes "else") line)

-- `ENDIF_RE.test(line)`
unfoldable pub is_end : Text → Bool
is_end line = ends_word (keyword (codes "endif") line)

unfoldable pub open_block : ℕ → Text → State → State
open_block i condition st = record st {
  stack =
      record { start_line = i; condition = condition; branches = []; current_branch = [] }
      ∷ st.stack;
  stripped = st.stripped ++ [] ∷ [];
}

unfoldable pub end_branch : StackEntry → StackEntry
end_branch top = record top {
  branches = top.branches ++ top.current_branch ∷ [];
  current_branch = [];
}

-- A block from an entry with all of its branches.
unfoldable pub block_of : ℕ → StackEntry → ConditionalBlock
block_of end top = record {
  start_line = top.start_line;
  end_line = end;
  condition = top.condition;
  branch_texts = map (join 10) (top.branches ++ top.current_branch ∷ []);
}

-- `stack.length > 0`, with its top
unfoldable pub in_block : ℕ → Text → StackEntry → List StackEntry → State → State
in_block i line top below st =
    if is_alternative line
    then record st { stack = end_branch top ∷ below; stripped = st.stripped ++ [] ∷ [] }
    else if is_end line
    then record {
      stack = below;
      blocks = st.blocks ++ block_of i top ∷ [];
      stripped = st.stripped ++ [] ∷ [];
    }
    else record st {
      stack = record top { current_branch = top.current_branch ++ line ∷ [] } ∷ below;
      stripped = st.stripped ++ line ∷ [];
    }

unfoldable pub other_line : ℕ → Text → List StackEntry → State → State
other_line i line [] st = record st { stripped = st.stripped ++ line ∷ [] }
other_line i line (top ∷ below) st = in_block i line top below st

unfoldable pub step_matched : Option Text → ℕ → Text → State → State
step_matched (some condition) i line st = open_block i condition st
step_matched none i line st = other_line i line st.stack st

-- One round of the loop over the lines.
unfoldable pub step : ℕ → Text → State → State
step i line st = step_matched (condition_of line) i line st

unfoldable pub run : ℕ → List Text → State → State
run i [] st = st
run i (line ∷ lines) st = run (suc i) lines (step i line st)

-- The blocks that are still open at the end, the innermost first.
unfoldable pub unclosed : ℕ → List StackEntry → List ConditionalBlock
unclosed last stack = map (block_of last) stack

unfoldable pub result_of : ℕ → State → PreprocessorResult
result_of last st =
    let blocks = st.blocks ++ unclosed last st.stack in
    record {
      stripped_content = join 10 st.stripped;
      blocks = blocks;
      has_conditionals = ltb 0 (length blocks);
    }

unfoldable pub extract_conditional_blocks : Text → PreprocessorResult
extract_conditional_blocks content =
    let lines = split 10 content in
    result_of (length lines - 1) (run 0 lines (record { stack = []; blocks = []; stripped = [] }))
