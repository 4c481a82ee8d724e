-- ===== src/Digest/Growth.antt =====
-- Parts and omissions of src/llm/digest.ts are only added at the end.
use c_interface_discovery.Prelude.{
  ℕ, ◌+◌, ◌-◌, Text, List, [], ◌∷◌, ◌++◌, length, leb, ◌≡◌, refl, sym, ap, ◌∙◌, Bool-cases, inl,
  inr,
}
use mathlib.Core.List.{append-nil, append_assoc}
use c_interface_discovery.Digest.Budget.{
  Section, DigestOmission, Fill, estimate_tokens, body_of, fit, withheld, omit_overflow, show_whole,
  show_kept, omit, show_partly, fill_section, fill, add_notice,
}

-- What one state of the loop adds to another.
abbrev pub Extends : Fill → Fill → Type 0
Extends st st' =
    ((ps : List Text) × (st'.parts ≡ st.parts ++ ps))
    × ((os : List DigestOmission) × (st'.omitted ≡ st.omitted ++ os))

show_kept-Extends : (s : Section) (r : List Text × ℕ) (st : Fill) → Extends st (show_kept s r st)
unfolding show_kept
show_kept-Extends s ([], after) st =
    (([], sym (append-nil st.parts)), ([], sym (append-nil st.omitted)))
show_kept-Extends s (l ∷ ls, after) st =
    ((body_of s.heading (l ∷ ls) ∷ [], refl), ([], sym (append-nil st.omitted)))

pub fill_section-Extends :
    (fill_budget : ℕ) (s : Section) (st : Fill) → Extends st (fill_section fill_budget s st)
unfolding fill_section show_whole show_partly omit
fill_section-Extends fill_budget s st =
    let body = body_of s.heading s.entries in
    elim (Bool-cases (leb (st.used + estimate_tokens body) fill_budget)) [
      | inl e ↦ rw (e, fill_section) ((body ∷ [], refl), (omit_overflow s s.overflow, refl))
      | inr e ↦
          let fitted =
            fit fill_budget (st.used + estimate_tokens (s.heading ++ 10 ∷ [])) s.entries in
          let ((ps, parts), (os, omitted)) = show_kept-Extends s fitted st in
          let more = withheld s (length s.entries - length fitted.0) ∷ omit_overflow s s.overflow in
          rw (e, fill_section)
            (
              (ps, parts),
              (os ++ more, ap (λ l. l ++ more) omitted ∙ append_assoc st.omitted os more),
            )
    ]

Extends-trans : (a b c : Fill) → Extends a b → Extends b c → Extends a c
Extends-trans a b c ((ps, p), (os, o)) ((qs, q), (us, u)) = (
  (ps ++ qs, q ∙ (ap (λ l. l ++ qs) p ∙ append_assoc a.parts ps qs)),
  (os ++ us, u ∙ (ap (λ l. l ++ us) o ∙ append_assoc a.omitted os us)),
)

pub fill-Extends :
    (fill_budget : ℕ) (sections : List Section) (st : Fill)
    → Extends st (fill fill_budget sections st)
unfolding fill
fill-Extends fill_budget [] st =
    (([], sym (append-nil st.parts)), ([], sym (append-nil st.omitted)))
fill-Extends fill_budget (s ∷ sections) st =
    let next = fill_section fill_budget s st in
    Extends-trans st next (fill fill_budget sections next) (fill_section-Extends fill_budget s st)
      (fill-Extends fill_budget sections next)

pub add_notice-Extends :
    (reserve : ℕ) (st : Fill) (os : List DigestOmission)
    → st.omitted ≡ os
    → (ps : List Text) × ((add_notice reserve st).parts ≡ st.parts ++ ps)
unfolding add_notice
add_notice-Extends reserve st [] e = rw (e, add_notice) ([], sym (append-nil st.parts))
add_notice-Extends reserve st (o ∷ os) e = rw (e, add_notice) (_, refl)
