-- ===== src/Prelude/Words.antt =====
-- Word searches, and numbers written in text, as JavaScript reads them.
use Prim.Native.Nat.{ℕ, zero, suc, ◌+◌, ◌-◌, ◌*◌, ◌/◌, ◌%◌, ◌<◌}
use mathlib.Core.Path.{◌≡◌, refl}
use mathlib.Core.Logic.{inl, inr}
use native.Mathlib.Omega.{arith}
use c_interface_discovery.Prelude.Tests.{ltb, if◌then◌else◌, Bool-cases}
use mathlib.Core.Bool.{Bool, true, false, ◌&&◌, ◌||◌, not}
use mathlib.Core.List.{[], ◌∷◌, ◌++◌}
use c_interface_discovery.Prelude.Lists.{length, drop, all}
use c_interface_discovery.Prelude.Texts.{Text, starts_with, is_word, is_digit}

-- No word character stands next in the text.
abbrev pub at_boundary : Text → Bool
at_boundary [] = true
at_boundary (c ∷ s) = not (is_word c)

-- `/\bword\b/.test(s)` for a word of word characters; `inside` says whether the character before
-- `s` is one.
unfoldable pub has_word_from : Bool → Text → Text → Bool
has_word_from inside word [] = false
has_word_from inside word (c ∷ s) =
    (not inside && starts_with (c ∷ s) word && at_boundary (drop (length word) (c ∷ s)))
    || has_word_from (is_word c) word s

unfoldable pub has_word : Text → Text → Bool
unfolding has_word_from
has_word word s = has_word_from false word s

-- The value of a run of decimal digits, most significant first.
unfoldable pub decimal_from : ℕ → Text → ℕ
decimal_from acc [] = acc
decimal_from acc (c ∷ s) = decimal_from (10 * acc + (c - b'0')) s

unfoldable pub decimal : Text → ℕ
unfolding decimal_from
decimal s = decimal_from 0 s

-- `/^\d+$/.test(s)`
unfoldable pub is_decimal : Text → Bool
unfolding is_digit
is_decimal [] = false
is_decimal (c ∷ s) = all is_digit (c ∷ s)

-- The decimal digits of a number; a number has fewer digits than one more than itself.
unfoldable pub show_from : ℕ → ℕ → Text
show_from zero n = []
show_from (suc fuel) n =
    let front = show_from fuel (n / 10) in
    if ltb n 10 then (n + b'0') ∷ [] else front ++ (n % 10 + b'0') ∷ []

-- `${n}`
unfoldable pub show : ℕ → Text
unfolding show_from
show n = show_from (suc n) n

decimal_from-append :
    (acc : ℕ) (s : Text) (c : ℕ)
    → decimal_from acc (s ++ c ∷ []) ≡ 10 * decimal_from acc s + (c - b'0')
unfolding decimal_from
decimal_from-append acc [] c = refl
decimal_from-append acc (a ∷ s) c = decimal_from-append (10 * acc + (a - b'0')) s c

decimal_from-show_from : (fuel n : ℕ) → n < fuel → decimal_from 0 (show_from fuel n) ≡ n
unfolding show_from decimal_from
decimal_from-show_from zero n h = absurd (omega arith)
decimal_from-show_from (suc fuel) n h = elim (Bool-cases (ltb n 10)) [
  | inl e ↦ rw (e, show_from) (omega arith)
  | inr e ↦
      let back = decimal_from-show_from fuel (n / 10) (ground arith) in
      rw (e, show_from)
        (omega (arith, decimal_from-append 0 (show_from fuel (n / 10)) (n % 10 + b'0'), back))
]

-- A number written out is read back.
pub decimal-show : (n : ℕ) → decimal (show n) ≡ n
unfolding show decimal
decimal-show n = decimal_from-show_from (suc n) n (omega arith)
