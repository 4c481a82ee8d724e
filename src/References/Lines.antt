-- ===== src/References/Lines.antt =====
-- The lines that src/utils/findReferences.ts reports.
use c_interface_discovery.Prelude.{
  ℕ, zero, suc, ◌≤◌, ◌<◌, Text, List, [], ◌∷◌, Bool, false, ltb, take, length, length-append, split,
  trim, All, ◌≢◌, Bool-cases, inl, inr, arith,
}
use c_interface_discovery.Types.{LoadedFile}
use c_interface_discovery.Roles.Report.{insert_by, sort_by}
use c_interface_discovery.References.{
  CodeLine, FileRef, test_from, preview, lines_from, push_ref, refs_of, find_references,
}

length-take : {A : Type 0} (n : ℕ) (xs : List A) → length (take n xs) ≤ n
length-take zero xs = omega arith
length-take (suc n) [] = omega arith
length-take (suc n) (x ∷ xs) = omega (arith, length-take n xs)

-- A line of a panel: numbered from `from` on, and at most 120 characters long.
pub record IsShown (from : ℕ) (l : CodeLine) : Type 0 where
  pub numbered : from < l.line_number
  pub short : length l.text ≤ 120

-- The lines are shown, each below the one before.
abbrev pub AreShown : ℕ → List CodeLine → Type 0
AreShown from [] = Unit
AreShown from (l ∷ ls) = IsShown from l × AreShown l.line_number ls

preview-short : (text : Text) → length (preview text) ≤ 120
unfolding preview
preview-short text = elim (Bool-cases (ltb 120 (length text))) [
  | inl e ↦ rw e (omega (arith, length-append (take 117 text) (8230 ∷ []), length-take 117 text))
  | inr e ↦ rw e (ground arith)
]

lines_from-AreShown :
    (raws : List Text) (name : Text) (i from : ℕ)
    → from ≤ i
    → AreShown from (lines_from name i raws)
unfolding lines_from
lines_from-AreShown [] name i from h = tt
lines_from-AreShown (raw ∷ raws) name i from h =
    elim (Bool-cases (test_from name false (trim raw))) [
      | inl e ↦ rw e (
        record { numbered = omega (arith, h); short = preview-short (trim raw) },
        lines_from-AreShown raws name (suc i) (suc i) (omega arith),
      )
      | inr e ↦ rw e (lines_from-AreShown raws name (suc i) from (omega (arith, h)))
    ]

-- A reference with at least one line.
abbrev pub IsUseful : FileRef → Type 0
IsUseful r = (r.lines ≢ []) × AreShown 0 r.lines

push_ref-IsUseful :
    (filename : Text) (ls : List CodeLine) (refs : List FileRef)
    → AreShown 0 ls
    → All IsUseful refs
    → All IsUseful (push_ref filename ls refs)
unfolding push_ref
push_ref-IsUseful filename [] refs h k = k
push_ref-IsUseful filename (l ∷ ls) refs h k = (((λ e. absurd (cc e)), h), k)

refs_of-IsUseful : (name : Text) (files : List LoadedFile) → All IsUseful (refs_of name files)
unfolding refs_of
refs_of-IsUseful name [] = tt
refs_of-IsUseful name (file ∷ files) =
    push_ref-IsUseful file.filename _ _
      (lines_from-AreShown (split 10 file.content) name 0 0 (omega arith))
      (refs_of-IsUseful name files)

insert_by-IsUseful :
    (before : FileRef → FileRef → Bool) (r : FileRef) (refs : List FileRef)
    → IsUseful r
    → All IsUseful refs
    → All IsUseful (insert_by before r refs)
unfolding insert_by
insert_by-IsUseful before r [] h k = (h, tt)
insert_by-IsUseful before r (x ∷ refs) h (k, ks) = elim (Bool-cases (before r x)) [
  | inl e ↦ rw (e, insert_by) (h, (k, ks))
  | inr e ↦ rw (e, insert_by) (k, insert_by-IsUseful before r refs h ks)
]

sort_by-IsUseful :
    (before : FileRef → FileRef → Bool) (refs : List FileRef)
    → All IsUseful refs
    → All IsUseful (sort_by before refs)
unfolding sort_by
sort_by-IsUseful before [] h = tt
sort_by-IsUseful before (r ∷ refs) (h, hs) =
    insert_by-IsUseful before r (sort_by before refs) h (sort_by-IsUseful before refs hs)

-- In any order of the names, every file reported has a line, and its lines are numbered from 1,
-- upwards, and at most 120 characters long.
pub find_references-IsUseful :
    (locale_before : Text → Text → Bool) (name : Text) (files : List LoadedFile)
    → All IsUseful (find_references locale_before name files)
unfolding find_references
find_references-IsUseful locale_before name files =
    sort_by-IsUseful (λ a b. locale_before a.filename b.filename) _ (refs_of-IsUseful name files)
