-- ===== src/Pack/Pragma.antt =====
-- `scanPackPragmas` and `isPackValue`: the directives of a file, in order.
use Prim.Native.Nat.{bit_and}
use c_interface_discovery.Prelude.{
  ℕ, suc, ◌-◌, Text, List, [], ◌∷◌, Option, none, some, Bool, not, ◌&&◌, ◌||◌, ◌==◌, ◌===◌, ltb,
  leb, codes, trim, map, keep, split, index_of, take, to_lower_case, if◌then◌else◌,
}
use c_interface_discovery.Pack.Number.{number}

pub data Kind : Type 0 where
  set push pop reset : Kind

-- An occurrence of `#pragma pack(...)`, with its line from 0.
pub record PackDirective : Type 0 where
  pub line : ℕ
  pub kind : Kind
  pub value : Option ℕ

-- Powers of two, 1 to 16.
unfoldable pub is_pack_value : ℕ → Bool
is_pack_value n = ltb 0 n && leb n 16 && bit_and n (n - 1) == 0

-- `[ \t]*`
unfoldable pub skip_blanks : Text → Text
skip_blanks [] = []
skip_blanks (c ∷ s) = let rest = skip_blanks s in if c == 32 || c == 9 then rest else c ∷ s

-- A literal at the start of the text, and what follows it.
unfoldable pub expect : Text → Text → Option Text
expect [] s = some s
expect (c ∷ w) [] = none
expect (c ∷ w) (d ∷ s) = if c == d then expect w s else none

infixl 5 ◌>>=◌
abbrev pub ◌>>=◌ {ℓ κ} : {A : Type ℓ} {B : Type κ} → Option A → (A → Option B) → Option B
none >>= f = none
some a >>= f = f a

-- `[ \t]+`
unfoldable pub skip_blanks_1 : Text → Option Text
skip_blanks_1 [] = none
skip_blanks_1 (c ∷ s) = if c == 32 || c == 9 then some (skip_blanks s) else none

-- `PRAGMA_RE` on a line: the text between the parentheses.
unfoldable pub pragma_args : Text → Option Text
pragma_args line = do
  keyword ← expect (codes "#") (skip_blanks line)
  name ← expect (codes "pragma") (skip_blanks keyword)
  pack ← skip_blanks_1 name
  open_paren ← expect (codes "pack") pack
  args ← expect (codes "(") (skip_blanks open_paren)
  close ← index_of b')' args
  some (take close args)

-- `args.split(',').map((p) => p.trim()).filter(Boolean)`
unfoldable pub parts_of : Text → List Text
parts_of args = keep (λ p. not (p === [])) (map trim (split b',' args))

-- `.map(Number).find(isPackValue)`
unfoldable pub find_value : List Text → Option ℕ
find_value [] = none
find_value (p ∷ ps) = elim (number p) [
  | none ↦ find_value ps
  | some n ↦ if is_pack_value n then some n else find_value ps
]

abbrev directive : ℕ → Kind → Option ℕ → Option PackDirective
directive line kind value = some (record { line = line; kind = kind; value = value })

-- `isPackValue(n) ? { kind: 'set', value: n } : { kind: 'reset' }`
unfoldable pub set_or_reset : ℕ → Option ℕ → Option PackDirective
set_or_reset line none = directive line reset none
set_or_reset line (some n) =
    if is_pack_value n then directive line set (some n) else directive line reset none

-- The directive of trimmed arguments; `none` for `show`, which is skipped. An argument list of
-- commas alone has no head, and `Number(undefined)` is NaN.
unfoldable pub directive_of : ℕ → List Text → Option PackDirective
directive_of line [] = directive line reset none
directive_of line (first ∷ more) =
    let head = to_lower_case first in
    if head === codes "pop"
    then directive line pop none
    else if head === codes "push"
    then directive line push (find_value more)
    else if head === codes "show"
    then none
    else set_or_reset line (number first)

-- One round of the loop: the directive of a line, if any.
unfoldable pub scan_line : ℕ → Text → Option PackDirective
scan_line i line = elim (pragma_args line) [
  | none ↦ none
  | some m ↦ if trim m === [] then directive i reset none else directive_of i (parts_of (trim m))
]

unfoldable pub cons_some : Option PackDirective → List PackDirective → List PackDirective
cons_some none ds = ds
cons_some (some d) ds = d ∷ ds

unfoldable pub scan_lines : ℕ → List Text → List PackDirective
scan_lines i [] = []
scan_lines i (line ∷ lines) = cons_some (scan_line i line) (scan_lines (suc i) lines)

unfoldable pub scan_pack_pragmas : Text → List PackDirective
scan_pack_pragmas content = scan_lines 0 (split 10 content)
