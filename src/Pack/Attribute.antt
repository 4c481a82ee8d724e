-- ===== src/Pack/Attribute.antt =====
-- `balancedGroup` and `detectPackedAttribute`: packing by an attribute of one declaration.
pub mod Balance
pub mod Detect
use c_interface_discovery.Prelude.{
  ℕ, zero, suc, Text, List, [], ◌∷◌, ◌++◌, Option, none, some, Bool, true, false, ◌==◌, ◌===◌, ◌||◌,
  codes, trim_start, starts_with, drop, length, if◌then◌else◌,
}
use c_interface_discovery.Prelude.Words.{has_word}
use c_interface_discovery.Prelude.Ints.{ℤ, pos, negsuc, succ, pred}

-- `if (depth === 0) return text.slice(open + 1, i)`; `inner` is what follows the parenthesis read.
unfoldable pub is_zero : ℤ → Bool
is_zero (pos zero) = true
is_zero _ = false

unfoldable pub cons_text : ℕ → Option Text → Option Text
cons_text c none = none
cons_text c (some s) = some (c ∷ s)

-- The loop of `balancedGroup` from the character after `open` on, at the given depth; the result is
-- the text before the closing parenthesis.
unfoldable pub group_from : ℤ → Text → Option Text
group_from depth [] = none
group_from depth (c ∷ s) =
    let deeper = group_from (succ depth) s in
    let shallower = group_from (pred depth) s in
    let same = group_from depth s in
    if c == b'('
    then cons_text c deeper
    else if c == b')'
    then (if is_zero (pred depth) then some [] else cons_text c shallower)
    else cons_text c same

-- `balancedGroup(text, open)` on the text from `open` on, which starts with a parenthesis.
unfoldable pub balanced_group : Text → Option Text
balanced_group [] = none
balanced_group (c ∷ s) = group_from (pos 1) s

abbrev pub attr : Text
attr = codes "__attribute__"

-- `PACKED_KEYWORD_RE.test(inner)`
unfoldable pub packed_keyword : Option Text → Bool
packed_keyword none = false
packed_keyword (some inner) = has_word (codes "packed") inner || has_word (codes "__packed__") inner

-- `if (declText[j] !== '(') continue`, then the group's test.
unfoldable pub group_packed : Text → Bool
group_packed [] = false
group_packed (c ∷ s) = if c == b'(' then packed_keyword (balanced_group (c ∷ s)) else false

-- The loop over the positions of `__attribute__`, in order, the text after it with leading white
-- space skipped.
unfoldable pub attribute_packed : Text → Bool
attribute_packed [] = false
attribute_packed (c ∷ s) =
    (if starts_with (c ∷ s) attr
      then group_packed (trim_start (drop (length attr) (c ∷ s)))
      else false)
    || attribute_packed s

unfoldable pub detect_packed_attribute : Text → Option ℕ
detect_packed_attribute text =
    if has_word (codes "__packed") text
    then some 1
    else if attribute_packed text
    then some 1
    else none
