-- ===== src/Preprocessor/Nesting.antt =====
-- The blocks of src/analyzer/preprocessor.ts in a file whose directives nest.
use c_interface_discovery.Prelude.{
  ℕ, suc, ◌+◌, Text, List, [], ◌∷◌, ◌++◌, map, some, true, false, join, split, length, ltb, ◌≡◌,
  refl, sym, ap, ◌∙◌, arith,
}
use mathlib.Core.List.{append-nil, append_assoc}
use c_interface_discovery.Preprocessor.{
  ConditionalBlock, StackEntry, State, condition_of, open_block, end_branch, block_of, in_block,
  other_line, step_matched, step, run, unclosed, result_of, extract_conditional_blocks,
}
use c_interface_discovery.Preprocessor.Nests.{
  Nest, stop, plain, block, divide, lines_of, blanked, branches_from, name_of, blocks_of, IsPlain,
  IsOpening, IsDividing, IsClosing, IsNested, plains, blocks, divides,
}

run-append :
    (i : ℕ) (xs ys : List Text) (st : State)
    → run i (xs ++ ys) st ≡ run (i + length xs) ys (run i xs st)
unfolding run
run-append i [] ys st = ap (λ k. run k ys st) (omega arith)
run-append i (x ∷ xs) ys st =
    run-append (suc i) xs ys (step i x st)
    ∙ ap (λ k. run k ys (run (suc i) xs (step i x st))) (omega arith)

-- An entry with the lines of a nest in it.
abbrev advance : StackEntry → Nest → StackEntry
advance top stop = top
advance top (plain line rest) =
    advance (record top { current_branch = top.current_branch ++ line ∷ [] }) rest
advance top (block opening inner closing rest) = advance top rest
advance top (divide line rest) = advance (end_branch top) rest

advance-branches :
    (top : StackEntry) (n : Nest)
    → (advance top n).branches ++ (advance top n).current_branch ∷ []
      ≡ top.branches ++ branches_from top.current_branch n
unfolding end_branch
advance-branches top stop = refl
advance-branches top (plain line rest) = advance-branches _ rest
advance-branches top (block opening inner closing rest) = advance-branches top rest
advance-branches top (divide line rest) =
    advance-branches (end_branch top) rest
    ∙ append_assoc top.branches (top.current_branch ∷ []) (branches_from [] rest)

step-opens :
    (i : ℕ) (line name : Text) (st : State)
    → condition_of line ≡ some name
    → step i line st ≡ open_block i name st
unfolding step step_matched
step-opens i line name st e = rw (e, step) refl

step-plain :
    (i : ℕ) (line : Text) (top : StackEntry) (below : List StackEntry) (bs : List ConditionalBlock)
    (ss : List Text)
    → IsPlain line
    → step i line (record { stack = top ∷ below; blocks = bs; stripped = ss }) ≡ record {
      stack = record top { current_branch = top.current_branch ++ line ∷ [] } ∷ below;
      blocks = bs;
      stripped = ss ++ line ∷ [];
    }
unfolding step step_matched other_line in_block
step-plain i line top below bs ss (c, (a, e)) = rw (c, a, e, step) refl

step-divides :
    (i : ℕ) (line : Text) (top : StackEntry) (below : List StackEntry) (bs : List ConditionalBlock)
    (ss : List Text)
    → IsDividing line
    → step i line (record { stack = top ∷ below; blocks = bs; stripped = ss })
      ≡ record { stack = end_branch top ∷ below; blocks = bs; stripped = ss ++ [] ∷ [] }
unfolding step step_matched other_line in_block
step-divides i line top below bs ss (c, a) = rw (c, a, step) refl

step-closes :
    (i : ℕ) (line : Text) (top : StackEntry) (below : List StackEntry) (bs : List ConditionalBlock)
    (ss : List Text)
    → IsClosing line
    → step i line (record { stack = top ∷ below; blocks = bs; stripped = ss })
      ≡ record { stack = below; blocks = bs ++ block_of i top ∷ []; stripped = ss ++ [] ∷ [] }
unfolding step step_matched other_line in_block
step-closes i line top below bs ss (c, (a, e)) = rw (c, a, e, step) refl

step-outside :
    (i : ℕ) (line : Text) (bs : List ConditionalBlock) (ss : List Text)
    → IsPlain line
    → step i line (record { stack = []; blocks = bs; stripped = ss })
      ≡ record { stack = []; blocks = bs; stripped = ss ++ line ∷ [] }
unfolding step step_matched other_line
step-outside i line bs ss (c, _) = rw (c, step) refl

abbrev state_of : List StackEntry → List ConditionalBlock → List Text → State
state_of stack bs ss = record { stack = stack; blocks = bs; stripped = ss }

abbrev opened : ℕ → Text → StackEntry
opened i name = record { start_line = i; condition = name; branches = []; current_branch = [] }

-- The state behind lines in a block.
abbrev RunsInside : Nest → Type 0
RunsInside n =
    (i : ℕ) (top : StackEntry) (below : List StackEntry) (bs : List ConditionalBlock)
    (ss : List Text)
    → run i (lines_of n) (state_of (top ∷ below) bs ss)
      ≡ state_of (advance top n ∷ below) (bs ++ blocks_of i n) (ss ++ blanked n)

advance_keeps :
    (top : StackEntry) (n : Nest)
    → ((advance top n).start_line ≡ top.start_line) × ((advance top n).condition ≡ top.condition)
unfolding end_branch
advance_keeps top stop = (refl, refl)
advance_keeps top (plain line rest) = advance_keeps _ rest
advance_keeps top (block opening inner closing rest) = advance_keeps top rest
advance_keeps top (divide line rest) = advance_keeps (end_branch top) rest

closed_block :
    (i end : ℕ) (opening name : Text) (inner : Nest)
    → condition_of opening ≡ some name
    → block_of end (advance (opened i name) inner) ≡ record {
      start_line = i;
      end_line = end;
      condition = name_of (condition_of opening);
      branch_texts = map (join 10) (branches_from [] inner);
    }
unfolding block_of
closed_block i end opening name inner e =
    let (start, condition) = advance_keeps (opened i name) inner in
    rw (advance-branches (opened i name) inner, start, condition, e) refl

run-block :
    (i : ℕ) (opening : Text) (inner : Nest) (closing : Text) (rest : Nest) (stack : List StackEntry)
    (bs : List ConditionalBlock) (ss : List Text)
    → IsOpening opening
    → RunsInside inner
    → IsClosing closing
    → let end = suc i + length (lines_of inner) in
      run i (lines_of (block opening inner closing rest)) (state_of stack bs ss)
      ≡ run (suc end) (lines_of rest) (
          state_of stack
            ((bs ++ blocks_of (suc i) inner)
              ++ record {
                start_line = i;
                end_line = end;
                condition = name_of (condition_of opening);
                branch_texts = map (join 10) (branches_from [] inner);
              }
                ∷ [])
            (((ss ++ [] ∷ []) ++ blanked inner) ++ [] ∷ []))
unfolding run open_block
run-block i opening inner closing rest stack bs ss (name, o) h c =
    let end = suc i + length (lines_of inner) in
    ap (run (suc i) (lines_of inner ++ closing ∷ lines_of rest))
      (step-opens i opening name (state_of stack bs ss) o)
    ∙ (run-append (suc i) (lines_of inner) (closing ∷ lines_of rest) _
        ∙ (ap (run end (closing ∷ lines_of rest))
              (h (suc i) (opened i name) stack bs (ss ++ [] ∷ []))
            ∙ ap (run (suc end) (lines_of rest)) (
                step-closes end closing _ stack _ _ c
                ∙ ap
                    (λ b.
                      state_of stack ((bs ++ blocks_of (suc i) inner) ++ b ∷ [])
                        (((ss ++ [] ∷ []) ++ blanked inner) ++ [] ∷ []))
                    (closed_block i end opening name inner o))))

state_≡ :
    (stack : List StackEntry) (bs bs' : List ConditionalBlock) (ss ss' : List Text)
    → bs ≡ bs'
    → ss ≡ ss'
    → state_of stack bs ss ≡ state_of stack bs' ss'
state_≡ stack bs bs' ss ss' b s = rw (b, s) refl

run_inside : (n : Nest) → IsNested true n → RunsInside n
unfolding run
run_inside stop h i top below bs ss =
    state_≡ (top ∷ below) _ _ _ _ (sym (append-nil bs)) (sym (append-nil ss))
run_inside (plain line rest) (plains p h) i top below bs ss =
    ap (run (suc i) (lines_of rest)) (step-plain i line top below bs ss p)
    ∙ (run_inside rest h (suc i) _ below bs (ss ++ line ∷ [])
        ∙ state_≡ _ _ _ _ _ refl (append_assoc ss (line ∷ []) (blanked rest)))
run_inside (block opening inner closing rest) (blocks o n c h) i top below bs ss =
    run-block i opening inner closing rest (top ∷ below) bs ss o (run_inside inner n) c
    ∙ (run_inside rest h _ top below _ _
        ∙ state_≡ _ _ _ _ _ (simp append_assoc) (simp append_assoc))
run_inside (divide line rest) (divides d h) i top below bs ss =
    ap (run (suc i) (lines_of rest)) (step-divides i line top below bs ss d)
    ∙ (run_inside rest h (suc i) (end_branch top) below bs (ss ++ [] ∷ [])
        ∙ state_≡ _ _ _ _ _ refl (append_assoc ss ([] ∷ []) (blanked rest)))

run_outside :
    (n : Nest)
    → IsNested false n
    → (i : ℕ) (bs : List ConditionalBlock) (ss : List Text)
    → run i (lines_of n) (state_of [] bs ss) ≡ state_of [] (bs ++ blocks_of i n) (ss ++ blanked n)
unfolding run
run_outside stop h i bs ss = state_≡ [] _ _ _ _ (sym (append-nil bs)) (sym (append-nil ss))
run_outside (plain line rest) (plains p h) i bs ss =
    ap (run (suc i) (lines_of rest)) (step-outside i line bs ss p)
    ∙ (run_outside rest h (suc i) bs (ss ++ line ∷ [])
        ∙ state_≡ [] _ _ _ _ refl (append_assoc ss (line ∷ []) (blanked rest)))
run_outside (divide line rest) h i bs ss = elim h [ ]
run_outside (block opening inner closing rest) (blocks o n c h) i bs ss =
    run-block i opening inner closing rest [] bs ss o (run_inside inner n) c
    ∙ (run_outside rest h _ _ _ ∙ state_≡ _ _ _ _ _ (simp append_assoc) (simp append_assoc))

-- If the lines of a file nest, with every plain line free of directives, then the blocks reported are
-- the blocks of the nesting, inner ones first, each with its lines, its condition and its branches, and
-- the stripped content is the file with its directives blank.
pub extract_conditional_blocks-nested :
    (content : Text) (n : Nest)
    → split 10 content ≡ lines_of n
    → IsNested false n
    → extract_conditional_blocks content ≡ record {
      stripped_content = join 10 (blanked n);
      blocks = blocks_of 0 n;
      has_conditionals = ltb 0 (length (blocks_of 0 n));
    }
unfolding extract_conditional_blocks result_of unclosed
extract_conditional_blocks-nested content n e h =
    rw (e, run_outside n h 0 [] [], append-nil (blocks_of 0 n)) refl
