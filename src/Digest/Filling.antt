-- ===== src/Digest/Filling.antt =====
-- What src/llm/digest.ts shows of the sections stays within the budget for filling.
use c_interface_discovery.Prelude.{
  ℕ, ◌+◌, ◌≤◌, Text, List, [], ◌∷◌, ◌++◌, leb, ltb, leb→le, length, length-append, ◌≡◌, ◌⊎◌, refl,
  Bool-cases, inl, inr, arith,
}
use mathlib.Core.List.{append_assoc}
use c_interface_discovery.Composition.Summary.{join_with}
use c_interface_discovery.Digest.Budget.{
  Section, Fill, estimate_tokens, join_lines, body_of, fit, show_whole, show_kept, omit,
  show_partly, fill_section, fill,
}

-- The estimates of the parts, added up.
abbrev pub cost : List Text → ℕ
cost [] = 0
cost (p ∷ parts) = estimate_tokens p + cost parts

pub cost-append : (ps qs : List Text) → cost (ps ++ qs) ≡ cost ps + cost qs
cost-append [] qs = omega arith
cost-append (p ∷ ps) qs = omega (arith, cost-append ps qs)

pub estimate_tokens-append :
    (s t : Text) → estimate_tokens (s ++ t) ≤ estimate_tokens s + estimate_tokens t
unfolding estimate_tokens
estimate_tokens-append s t = omega (arith, length-append s t)

-- A line with its newline.
abbrev line_cost : Text → ℕ
line_cost line = estimate_tokens (line ++ 10 ∷ [])

abbrev lines_cost : List Text → ℕ
lines_cost [] = 0
lines_cost (line ∷ lines) = line_cost line + lines_cost lines

body_of_cons :
    (heading line : Text) (entries : List Text)
    → body_of heading (line ∷ entries) ≡ (heading ++ 10 ∷ []) ++ body_of line entries
unfolding body_of join_lines join_with
body_of_cons heading line entries = simp append_assoc

body_of_cost :
    (heading : Text) (entries : List Text)
    → estimate_tokens (body_of heading entries) ≤ line_cost heading + lines_cost entries
unfolding body_of join_lines join_with
body_of_cost heading [] = omega arith
body_of_cost heading (line ∷ entries) = rw (body_of_cons heading line entries) (
    omega (
      arith,
      estimate_tokens-append (heading ++ 10 ∷ []) (body_of line entries),
      body_of_cost line entries,
    ))

-- What is kept has the cost of its lines, and fits in the budget.
fit_cost :
    (fill_budget cursor : ℕ) (lines : List Text)
    → ((fit fill_budget cursor lines).1 ≡ cursor + lines_cost (fit fill_budget cursor lines).0)
      × (((fit fill_budget cursor lines).0 ≡ []) ⊎ ((fit fill_budget cursor lines).1 ≤ fill_budget))
unfolding fit
fit_cost fill_budget cursor [] = (omega arith, inl refl)
fit_cost fill_budget cursor (line ∷ lines) =
    let next = cursor + line_cost line in
    elim (Bool-cases (ltb fill_budget next)) [
      | inl e ↦ rw (e, fit) (omega arith, inl refl)
      | inr e ↦
          let rest = fit_cost fill_budget next lines in
          rw (e, fit)
            (
              omega (arith, rest.0),
              inr (within (fit fill_budget next lines) rest.0 rest.1 (ground arith)),
            )
    ]
  where
    within :
        (r : List Text × ℕ)
        → r.1 ≡ cursor + line_cost line + lines_cost r.0
        → (r.0 ≡ []) ⊎ (r.1 ≤ fill_budget)
        → cursor + line_cost line ≤ fill_budget
        → r.1 ≤ fill_budget
    within r e (inr le) h = le
    within ([], after) e (inl z) h = omega arith
    within (l ∷ ls, after) e (inl z) h = absurd (cc z)

-- The parts cost no more than is used, and what is used stays within the budget for filling.
abbrev pub IsWithin : ℕ → Fill → Type 0
IsWithin fill_budget st = (cost st.parts ≤ st.used) × (st.used ≤ fill_budget)

show_kept-IsWithin :
    (fill_budget : ℕ) (s : Section) (r : List Text × ℕ) (st : Fill)
    → r.1 ≡ st.used + line_cost s.heading + lines_cost r.0
    → (r.0 ≡ []) ⊎ (r.1 ≤ fill_budget)
    → IsWithin fill_budget st
    → IsWithin fill_budget (show_kept s r st)
unfolding show_kept
show_kept-IsWithin fill_budget s ([], after) st e f h = h
show_kept-IsWithin fill_budget s (l ∷ ls, after) st e (inl z) h = absurd (cc z)
show_kept-IsWithin fill_budget s (l ∷ ls, after) st e (inr le) h = (
  omega (
    arith,
    cost-append st.parts (body_of s.heading (l ∷ ls) ∷ []),
    body_of_cost s.heading (l ∷ ls),
    h.0,
  ),
  le,
)

fill_section-IsWithin :
    (fill_budget : ℕ) (s : Section) (st : Fill)
    → IsWithin fill_budget st
    → IsWithin fill_budget (fill_section fill_budget s st)
unfolding fill_section show_whole show_partly omit
fill_section-IsWithin fill_budget s st h =
    let body = estimate_tokens (body_of s.heading s.entries) in
    let fitted = fit_cost fill_budget (st.used + line_cost s.heading) s.entries in
    elim (Bool-cases (leb (st.used + body) fill_budget)) [
      | inl e ↦
          rw (e, fill_section)
            (
              omega (arith, cost-append st.parts (body_of s.heading s.entries ∷ []), h.0),
              leb→le _ _ e,
            )
      | inr e ↦ rw (e, fill_section) (show_kept-IsWithin fill_budget s _ st fitted.0 fitted.1 h)
    ]

pub fill-IsWithin :
    (fill_budget : ℕ) (sections : List Section) (st : Fill)
    → IsWithin fill_budget st
    → IsWithin fill_budget (fill fill_budget sections st)
unfolding fill
fill-IsWithin fill_budget [] st h = h
fill-IsWithin fill_budget (s ∷ sections) st h =
    fill-IsWithin fill_budget sections (fill_section fill_budget s st)
      (fill_section-IsWithin fill_budget s st h)

-- A section adds at most one part.
show_kept-parts :
    (s : Section) (r : List Text × ℕ) (st : Fill)
    → length (show_kept s r st).parts ≤ length st.parts + 1
unfolding show_kept
show_kept-parts s ([], after) st = omega arith
show_kept-parts s (l ∷ ls, after) st =
    omega (arith, length-append st.parts (body_of s.heading (l ∷ ls) ∷ []))

fill_section-parts :
    (fill_budget : ℕ) (s : Section) (st : Fill)
    → length (fill_section fill_budget s st).parts ≤ length st.parts + 1
unfolding fill_section show_whole show_partly omit
fill_section-parts fill_budget s st =
    elim (Bool-cases (leb (st.used + estimate_tokens (body_of s.heading s.entries)) fill_budget)) [
      | inl e ↦
          rw (e, fill_section)
            (omega (arith, length-append st.parts (body_of s.heading s.entries ∷ [])))
      | inr e ↦ rw (e, fill_section) (show_kept-parts s _ st)
    ]

pub fill-parts :
    (fill_budget : ℕ) (sections : List Section) (st : Fill)
    → length (fill fill_budget sections st).parts ≤ length st.parts + length sections
unfolding fill
fill-parts fill_budget [] st = omega arith
fill-parts fill_budget (s ∷ sections) st = omega (
  arith,
  fill-parts fill_budget sections (fill_section fill_budget s st),
  fill_section-parts fill_budget s st,
)
