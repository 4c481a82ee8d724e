-- ===== src/Pack/Replay/Values.antt =====
-- Which pack values can be in effect.
use c_interface_discovery.Prelude.{
  ℕ, suc, ◌≤◌, ◌⊎◌, every_to, every_to-le, not, ◌||◌, ◌==◌, leb, Text, List, [], ◌∷◌, Option, none,
  some, Bool, true, ◌≡◌, refl, arith, All, Bool-cases, inl, inr, Option-cases, split, trim,
  to_lower_case, codes, ◌===◌, sym, subst, ◌∙◌,
}
use c_interface_discovery.Pack.Number.{number}
use c_interface_discovery.Pack.Pragma.{
  Kind, set, push, pop, reset, PackDirective, is_pack_value, find_value, set_or_reset, directive_of,
  parts_of, pragma_args, scan_line, cons_some, scan_lines, scan_pack_pragmas,
}
use c_interface_discovery.Pack.Replay.Lookup.{run, up_to, build_pack_map-run}
use c_interface_discovery.Pack.Replay.{
  PackState, start, or_keep, pop_state, step_kind, step, build_pack_map,
}

-- The alignments that a pack value can be.
abbrev pub IsPack : ℕ → Type 0
IsPack n = (n ≡ 1) ⊎ ((n ≡ 2) ⊎ ((n ≡ 4) ⊎ ((n ≡ 8) ⊎ (n ≡ 16))))

abbrev pub IsPackOption : Option ℕ → Type 0
IsPackOption none = Unit
IsPackOption (some n) = IsPack n

abbrev one_of : ℕ → Bool
one_of n = n == 1 || n == 2 || n == 4 || n == 8 || n == 16

pack_table : every_to (λ n. not (is_pack_value n) || one_of n) 16 ≡ true
unfolding every_to is_pack_value
pack_table = refl

is_pack_value-le : (n : ℕ) → is_pack_value n ≡ true → n ≤ 16
unfolding is_pack_value
is_pack_value-le n h = ground arith

is_pack_value-IsPack : (n : ℕ) → is_pack_value n ≡ true → IsPack n
is_pack_value-IsPack n h = ground (
  arith,
  every_to-le (λ n. not (is_pack_value n) || one_of n) 16 n (is_pack_value-le n h) pack_table,
)

find_value-IsPack : (ps : List Text) → IsPackOption (find_value ps)
unfolding find_value
find_value-IsPack [] = tt
find_value-IsPack (p ∷ ps) = elim (Option-cases (number p)) [
  | inl e ↦ rw (e, find_value) (find_value-IsPack ps)
  | inr (n, e) ↦ elim (Bool-cases (is_pack_value n)) [
    | inl good ↦ rw (e, find_value) (rw good (is_pack_value-IsPack n good))
    | inr bad ↦ rw (e, find_value) (rw bad (find_value-IsPack ps))
  ]
]

-- A directive whose value, if it has one, is a pack value.
abbrev pub HasPack : PackDirective → Type 0
HasPack d = IsPackOption d.value

abbrev SomeHasPack : Option PackDirective → Type 0
SomeHasPack none = Unit
SomeHasPack (some d) = HasPack d

set_or_reset-HasPack : (i : ℕ) (n : Option ℕ) → SomeHasPack (set_or_reset i n)
unfolding set_or_reset
set_or_reset-HasPack i none = tt
set_or_reset-HasPack i (some n) = elim (Bool-cases (is_pack_value n)) [
  | inl good ↦ rw good (is_pack_value-IsPack n good)
  | inr bad ↦ rw bad tt
]

directive_of-HasPack : (i : ℕ) (parts : List Text) → SomeHasPack (directive_of i parts)
unfolding directive_of
directive_of-HasPack i [] = tt
directive_of-HasPack i (p ∷ ps) = elim (Bool-cases (to_lower_case p === codes "pop")) [
  | inl a ↦ rw a tt
  | inr a ↦ elim (Bool-cases (to_lower_case p === codes "push")) [
    | inl b ↦ rw (a, b) (find_value-IsPack ps)
    | inr b ↦ elim (Bool-cases (to_lower_case p === codes "show")) [
      | inl c ↦ rw (a, b, c) tt
      | inr c ↦ rw (a, b, c) (set_or_reset-HasPack i (number p))
    ]
  ]
]

scan_line-HasPack : (i : ℕ) (line : Text) → SomeHasPack (scan_line i line)
unfolding scan_line
scan_line-HasPack i line = elim (Option-cases (pragma_args line)) [
  | inl e ↦ rw (e, scan_line) tt
  | inr (m, e) ↦ elim (Bool-cases (trim m === [])) [
    | inl blank ↦ rw (e, scan_line) (rw blank tt)
    | inr full ↦ rw (e, scan_line) (rw full (directive_of-HasPack i (parts_of (trim m))))
  ]
]

cons_some-HasPack :
    (o : Option PackDirective) (ds : List PackDirective)
    → SomeHasPack o
    → All HasPack ds
    → All HasPack (cons_some o ds)
unfolding cons_some
cons_some-HasPack none ds h k = k
cons_some-HasPack (some d) ds h k = (h, k)

scan_lines-HasPack : (i : ℕ) (lines : List Text) → All HasPack (scan_lines i lines)
unfolding scan_lines
scan_lines-HasPack i [] = tt
scan_lines-HasPack i (line ∷ lines) =
    cons_some-HasPack (scan_line i line) _ (scan_line-HasPack i line)
      (scan_lines-HasPack (suc i) lines)

-- Every value on the stack and the current one are pack values.
record IsPacked (s : PackState) : Type 0 where
  below : All IsPackOption s.stack
  here : IsPackOption s.current

pop_state-IsPacked : (stack : List (Option ℕ)) → All IsPackOption stack → IsPacked (pop_state stack)
unfolding pop_state
pop_state-IsPacked [] h = record { below = tt; here = tt }
pop_state-IsPacked (top ∷ stack) (p, h) = record { below = h; here = p }

step_kind-IsPacked :
    (k : Kind) (v : Option ℕ) (s : PackState)
    → IsPackOption v
    → IsPacked s
    → IsPacked (step_kind k v s)
unfolding step_kind or_keep
step_kind-IsPacked set v s h p = record { below = p.below; here = h }
step_kind-IsPacked reset v s h p = record { below = p.below; here = tt }
step_kind-IsPacked push none s h p = record { below = (p.here, p.below); here = p.here }
step_kind-IsPacked push (some n) s h p = record { below = (p.here, p.below); here = h }
step_kind-IsPacked pop v s h p = pop_state-IsPacked s.stack p.below

step-IsPacked : (d : PackDirective) (s : PackState) → HasPack d → IsPacked s → IsPacked (step d s)
unfolding step
step-IsPacked d s h p = step_kind-IsPacked d.kind d.value s h p

run-IsPacked :
    (ds : List PackDirective) (s : PackState) → All HasPack ds → IsPacked s → IsPacked (run ds s)
unfolding run
run-IsPacked [] s h p = p
run-IsPacked (d ∷ ds) s (q, h) p = run-IsPacked ds (step d s) h (step-IsPacked d s q p)

All-up_to : (line : ℕ) (ds : List PackDirective) → All HasPack ds → All HasPack (up_to line ds)
All-up_to line [] h = tt
All-up_to line (d ∷ ds) (p, h) = elim (Bool-cases (leb d.line line)) [
  | inl e ↦ rw e (p, All-up_to line ds h)
  | inr e ↦ rw e (All-up_to line ds h)
]

-- Whatever the file holds, a pack value in effect at a line is 1, 2, 4, 8 or 16.
pub build_pack_map-IsPack :
    (content : Text) (line : ℕ) (n : ℕ) → build_pack_map content line ≡ some n → IsPack n
unfolding scan_pack_pragmas
build_pack_map-IsPack content line n h =
    let packed : IsPacked (run (up_to line (scan_pack_pragmas content)) start) =
      run-IsPacked _ start
        (All-up_to line (scan_pack_pragmas content) (scan_lines-HasPack 0 (split 10 content)))
        (record { below = tt; here = tt }) in
    subst IsPackOption (sym (build_pack_map-run content line) ∙ h) packed.here
