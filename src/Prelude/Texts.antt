-- ===== src/Prelude/Texts.antt =====
-- JavaScript strings as lists of UTF-16 code units, and the character classes of its regular
-- expressions.
use Prim.Native.Nat.{ℕ, suc, ◌+◌}
use Prim.Native.Char.{code}
use Prim.Native.String.{String}
use mathlib.Core.Path.{◌≡◌, refl, ap}
use mathlib.Core.Logic.{◌↔◌, inl, inr}
use mathlib.Core.Bool.{Bool, true, false, ◌&&◌, ◌||◌}
use mathlib.Core.List.{List, [], ◌∷◌, ◌++◌, map, reverse, reverse-cons, reverse-reverse}
use mathlib.Core.Option
use mathlib.Core.Option.{Option, none, some}
use native.Mathlib.Omega.{arith}
use c_interface_discovery.Prelude.Lists.{length, take, drop}
use c_interface_discovery.Prelude.Tests.{ltb, leb, ◌==◌, if◌then◌else◌, Bool-cases}

abbrev pub Text : Type 0
Text = List ℕ

-- The code units of a literal whose characters lie below 0x10000.
abbrev pub codes : String → Text
codes String.[] = []
codes (String.◌∷◌ c s) = code c ∷ codes s

-- `s === t`
infix 50 ◌===◌
unfoldable pub ◌===◌ : Text → Text → Bool
[] === [] = true
(a ∷ s) === (b ∷ t) = a == b && s === t
_ === _ = false

pub ===_iff : (s t : Text) → ((s === t) ≡ true) ↔ (s ≡ t)
unfolding ◌===◌
===_iff [] [] = ground arith
===_iff [] (b ∷ t) = ground arith
===_iff (a ∷ s) [] = ground arith
===_iff (a ∷ s) (b ∷ t) = ground (arith, ===_iff s t)

pub ===_refl : (s : Text) → (s === s) ≡ true
===_refl s = (===_iff s s).1 refl

-- `s.startsWith(t)`
unfoldable pub starts_with : Text → Text → Bool
starts_with s [] = true
starts_with [] (b ∷ t) = false
starts_with (a ∷ s) (b ∷ t) = a == b && starts_with s t

-- `s.endsWith(t)`
unfoldable pub ends_with : Text → Text → Bool
unfolding starts_with
ends_with s t = starts_with (reverse s) (reverse t)

-- The order of `sort()`, by code units: whether `s` may stand before `t`.
unfoldable pub text_before : Text → Text → Bool
text_before [] t = true
text_before (a ∷ s) [] = false
text_before (a ∷ s) (b ∷ t) =
    let later = text_before s t in if ltb a b then true else if ltb b a then false else later

-- `s.indexOf(c)`, `none` for -1
unfoldable pub index_of : ℕ → Text → Option ℕ
index_of c [] = none
index_of c (a ∷ s) = let rest = Option.map suc (index_of c s) in if a == c then some 0 else rest

-- `s.includes(c)` of one character
abbrev pub includes : Text → ℕ → Bool
includes [] c = false
includes (a ∷ s) c = a == c || includes s c

-- `\s`, the white space of the language; `trim` strips the same characters
unfoldable pub is_space : ℕ → Bool
is_space c =
    (leb 9 c && leb c 13)
    || c == 32
    || c == 0xa0
    || c == 0x1680
    || (leb 0x2000 c && leb c 0x200a)
    || c == 0x2028
    || c == 0x2029
    || c == 0x202f
    || c == 0x205f
    || c == 0x3000
    || c == 0xfeff

-- `\d`
unfoldable pub is_digit : ℕ → Bool
is_digit c = leb b'0' c && leb c b'9'

-- `\w`
unfoldable pub is_word : ℕ → Bool
unfolding is_digit
is_word c = is_digit c || (leb b'A' c && leb c b'Z') || (leb b'a' c && leb c b'z') || c == b'_'

-- `toLowerCase`, on ASCII
unfoldable pub lower : ℕ → ℕ
lower c = if leb b'A' c && leb c b'Z' then c + 32 else c

abbrev pub to_lower_case : Text → Text
to_lower_case = map lower

-- `s.replace(/^\s+/, '')`
unfoldable pub trim_start : Text → Text
trim_start [] = []
trim_start (c ∷ s) = let rest = trim_start s in if is_space c then rest else c ∷ s

unfoldable pub trim : Text → Text
unfolding trim_start is_space
trim s = reverse (trim_start (reverse (trim_start s)))

-- `s.split(sep)`; the list is never empty
unfoldable pub split : ℕ → Text → List Text
split sep [] = [] ∷ []
split sep (c ∷ s) = elim (split sep s) [
  | [] ↦ (c ∷ []) ∷ []
  | line ∷ rest ↦ if c == sep then [] ∷ line ∷ rest else (c ∷ line) ∷ rest
]

-- `lines.join('\n')`
unfoldable pub join : ℕ → List Text → Text
join sep [] = []
join sep (line ∷ []) = line
join sep (line ∷ next ∷ rest) = line ++ sep ∷ join sep (next ∷ rest)

-- The first position of `c` behind a text that has none.
pub index_of-append :
    (c : ℕ) (s t : Text) → index_of c s ≡ none → index_of c (s ++ c ∷ t) ≡ some (length s)
unfolding index_of
index_of-append c [] t h = ground arith
index_of-append c (a ∷ s) t h = ground (arith, index_of-append c s t)

pub index_of-append_ne :
    (c a : ℕ) (s : Text) → index_of c s ≡ none → (a == c) ≡ false → index_of c (s ++ a ∷ []) ≡ none
unfolding index_of
index_of-append_ne c a [] h k = ground arith
index_of-append_ne c a (b ∷ s) h k = ground (arith, index_of-append_ne c a s)

pub take-length-append : (s t : Text) → take (length s) (s ++ t) ≡ s
take-length-append [] t = refl
take-length-append (a ∷ s) t = rw (take-length-append s t)

pub drop-length-append : (s t : Text) → drop (length s) (s ++ t) ≡ t
drop-length-append [] t = refl
drop-length-append (a ∷ s) t = drop-length-append s t

pub drop-suc-length-append : (s : Text) (c : ℕ) (t : Text) → drop (suc (length s)) (s ++ c ∷ t) ≡ t
drop-suc-length-append [] c t = refl
drop-suc-length-append (a ∷ s) c t = drop-suc-length-append s c t

pub index_of-nil : (c : ℕ) → index_of c [] ≡ none
unfolding index_of
index_of-nil c = refl

pub index_of-cons :
    (c a : ℕ) (s : Text) → index_of c (a ∷ s) ≡ none → ((a == c) ≡ false) × (index_of c s ≡ none)
unfolding index_of
index_of-cons c a s h = ground arith

abbrev pub IsBlank : Text → Type 0
IsBlank [] = Unit
IsBlank (c ∷ s) = (is_space c ≡ true) × IsBlank s

IsBlank-append : (s t : Text) → IsBlank s → IsBlank t → IsBlank (s ++ t)
IsBlank-append [] t h k = k
IsBlank-append (c ∷ s) t (p, h) k = (p, IsBlank-append s t h k)

IsBlank-reverse : (s : Text) → IsBlank s → IsBlank (reverse s)
IsBlank-reverse [] h = tt
IsBlank-reverse (c ∷ s) (p, h) =
    rw reverse-cons (IsBlank-append (reverse s) (c ∷ []) (IsBlank-reverse s h) (p, tt))

IsBlank-of_trim_start : (s : Text) → IsBlank (trim_start s) → IsBlank s
unfolding trim_start
IsBlank-of_trim_start [] h = tt
IsBlank-of_trim_start (c ∷ s) h = elim (Bool-cases (is_space c)) [
  | inl e ↦ (e, IsBlank-of_trim_start s (rw (e, trim_start) at h))
  | inr e ↦ rw (e, trim_start) at h
]

-- A text that `trim` empties is white space throughout.
pub IsBlank-of_trim : (s : Text) → trim s ≡ [] → IsBlank s
unfolding trim
IsBlank-of_trim s h =
    let kept = reverse (trim_start s) in
    let gone : trim_start kept ≡ [] = rw reverse-reverse at (ap reverse h) in
    let blank : IsBlank kept = IsBlank-of_trim_start kept (rw gone tt) in
    IsBlank-of_trim_start s (rw reverse-reverse at (IsBlank-reverse kept blank))
