-- ===== src/Preprocessor/Lines.antt =====
-- The stripped content of src/analyzer/preprocessor.ts has the lines of the content.
use c_interface_discovery.Prelude.{
  ℕ, suc, Text, List, [], ◌∷◌, ◌++◌, Option, none, some, Bool-cases, true, join, split, ◌≡◌, ◌⊎◌,
  inl, inr, refl, sym, ap, ◌∙◌,
}
use mathlib.Core.List.{append-nil, append_assoc}
use c_interface_discovery.Preprocessor.{
  StackEntry, State, condition_of, is_alternative, is_end, open_block, in_block, other_line,
  step_matched, step, run, result_of, extract_conditional_blocks,
}

-- The line opens, divides or closes a block.
abbrev pub IsDirective : Text → Type 0
IsDirective line =
    ((condition : Text) × (condition_of line ≡ some condition))
    ⊎ ((is_alternative line ≡ true) ⊎ (is_end line ≡ true))

-- A line is kept, or it is a directive and left blank.
abbrev pub IsStripped : Text → Text → Type 0
IsStripped line stripped = (stripped ≡ line) ⊎ ((stripped ≡ []) × IsDirective line)

-- Two lists of the same length, line by line.
pub data AllStripped : List Text → List Text → Type 0 where
  end : AllStripped [] []
  and_next :
      {line stripped : Text} {lines rest : List Text}
      → IsStripped line stripped
      → AllStripped lines rest
      → AllStripped (line ∷ lines) (stripped ∷ rest)

abbrev Adds : State → State → Text → Type 0
Adds st st' line = (s : Text) × ((st'.stripped ≡ st.stripped ++ s ∷ []) × IsStripped line s)

other_line-Adds :
    (i : ℕ) (line : Text) (stack : List StackEntry) (st : State)
    → Adds st (other_line i line stack st) line
unfolding other_line in_block
other_line-Adds i line [] st = (line, (refl, inl refl))
other_line-Adds i line (top ∷ below) st = elim (Bool-cases (is_alternative line)) [
  | inl e ↦ rw (e, in_block) ([], (refl, inr (refl, inr (inl refl))))
  | inr n ↦ elim (Bool-cases (is_end line)) [
    | inl e ↦ rw (n, e, in_block) ([], (refl, inr (refl, inr (inr refl))))
    | inr e ↦ rw (n, e, in_block) (line, (refl, inl refl))
  ]
]

step_matched-Adds :
    (matched : Option Text) (i : ℕ) (line : Text) (st : State)
    → condition_of line ≡ matched
    → Adds st (step_matched matched i line st) line
unfolding step_matched open_block
step_matched-Adds (some condition) i line st e = ([], (refl, inr (refl, inl (condition, e))))
step_matched-Adds none i line st e = other_line-Adds i line st.stack st

run_strips :
    (i : ℕ) (lines : List Text) (st : State)
    → (ss : List Text) × (((run i lines st).stripped ≡ st.stripped ++ ss) × AllStripped lines ss)
unfolding run step
run_strips i [] st = ([], (sym (append-nil st.stripped), end))
run_strips i (line ∷ lines) st =
    let (s, (added, stripped)) = step_matched-Adds (condition_of line) i line st refl in
    let (ss, (more, rest)) = run_strips (suc i) lines (step i line st) in
    (
      s ∷ ss,
      (
        more ∙ (ap (λ p. p ++ ss) added ∙ append_assoc st.stripped (s ∷ []) ss),
        and_next stripped rest,
      ),
    )

-- Whatever the file holds, well nested or not, its stripped content is made of as many lines, and each
-- is the line of the file, or blank where that line is a directive: positions in it are positions in
-- the file.
pub extract_conditional_blocks-AllStripped :
    (content : Text)
    → (ss : List Text) × (((extract_conditional_blocks content).stripped_content ≡ join 10 ss)
        × AllStripped (split 10 content) ss)
unfolding extract_conditional_blocks result_of
extract_conditional_blocks-AllStripped content =
    let (ss, (e, all)) = run_strips 0 (split 10 content) _ in (ss, (ap (join 10) e, all))
