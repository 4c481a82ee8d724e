-- ===== src/References.antt =====
-- `findReferences` of src/utils/findReferences.ts: the lines of each file that hold a name as a word.
-- The order of `localeCompare` is a parameter.
pub mod Lines
mod Tests
use c_interface_discovery.Prelude.{
  ℕ, suc, Text, List, [], ◌∷◌, ◌++◌, Option, none, some, Bool, true, false, not, ◌&&◌, ◌||◌, ◌===◌,
  ltb, is_word, starts_with, last, length, take, drop, split, trim, if◌then◌else◌,
}
use c_interface_discovery.Types.{LoadedFile}
use c_interface_discovery.Roles.Report.{sort_by}

pub record CodeLine : Type 0 where
  pub line_number : ℕ
  pub text : Text

pub record FileRef : Type 0 where
  pub filename : Text
  pub lines : List CodeLine

-- Whether the character next in the text is a word character.
unfoldable pub next_is_word : Text → Bool
next_is_word [] = false
next_is_word (c ∷ s) = is_word c

-- `\b` between a character and the next one, by whether each is a word character
unfoldable pub boundary : Bool → Bool → Bool
boundary true after = not after
boundary false after = after

-- Whether the last character before the end of a match is a word character.
unfoldable pub ends_in_word : Bool → Option ℕ → Bool
ends_in_word before none = before
ends_in_word before (some c) = is_word c

-- `\bname\b` at the start of the text, with the name escaped
unfoldable pub matches_at : Text → Bool → Text → Bool
matches_at name before s =
    starts_with s name
    && boundary before (next_is_word s)
    && boundary (ends_in_word before (last name)) (next_is_word (drop (length name) s))

-- `re.test(text)`; `before` says whether the character before the text is a word character.
unfoldable pub test_from : Text → Bool → Text → Bool
test_from name before [] = matches_at name before []
test_from name before (c ∷ s) = matches_at name before (c ∷ s) || test_from name (is_word c) s

-- `text.length > 120 ? text.slice(0, 117) + '…' : text`
unfoldable pub preview : Text → Text
preview text = if ltb 120 (length text) then take 117 text ++ 8230 ∷ [] else text

-- The loop over the lines of a file; `i` is the index of the first.
unfoldable pub lines_from : Text → ℕ → List Text → List CodeLine
lines_from name i [] = []
lines_from name i (raw ∷ raws) =
    let text = trim raw in
    let rest = lines_from name (suc i) raws in
    if test_from name false text
    then record { line_number = suc i; text = preview text } ∷ rest
    else rest

-- `if (lines.length > 0) result.push({ … })`
unfoldable pub push_ref : Text → List CodeLine → List FileRef → List FileRef
push_ref filename [] refs = refs
push_ref filename (l ∷ ls) refs = record { filename = filename; lines = l ∷ ls } ∷ refs

unfoldable pub refs_of : Text → List LoadedFile → List FileRef
refs_of name [] = []
refs_of name (file ∷ files) =
    push_ref file.filename (lines_from name 0 (split 10 file.content)) (refs_of name files)

unfoldable pub find_references : (Text → Text → Bool) → Text → List LoadedFile → List FileRef
find_references locale_before name files =
    sort_by (λ a b. locale_before a.filename b.filename) (refs_of name files)
