-- ===== src/Digest/Notice.antt =====
-- The notice of src/llm/digest.ts stays within its reserve, and the newlines between the parts.
use c_interface_discovery.Prelude.{
  ℕ, zero, suc, ◌+◌, ◌*◌, ◌≤◌, Text, List, [], ◌∷◌, ◌++◌, map, true, ltb, length, length-append,
  ◌≡◌, refl, Bool-cases, inl, inr, arith,
}
use mathlib.Core.List.{append_assoc}
use c_interface_discovery.Composition.Summary.{join_with}
use c_interface_discovery.Digest.Budget.{
  DigestOmission, Fill, estimate_tokens, join_lines, notional_reserve, omission_line, notice_lines,
  notice_of, init, trim_notice, add_notice,
}
use c_interface_discovery.Digest.Filling.{cost, cost-append}

join_lines-cons :
    (p q : Text) (parts : List Text) → join_lines (p ∷ q ∷ parts) ≡ p ++ 10 ∷ join_lines (q ∷ parts)
unfolding join_lines join_with
join_lines-cons p q parts = append_assoc p (10 ∷ []) (join_with (10 ∷ []) (q ∷ parts))

length-join_lines :
    (p q : Text) (parts : List Text)
    → length (join_lines (p ∷ q ∷ parts)) ≡ length p + suc (length (join_lines (q ∷ parts)))
length-join_lines p q parts = rw join_lines-cons (length-append p (10 ∷ join_lines (q ∷ parts)))

length-join_lines_one : (p : Text) → length (join_lines (p ∷ [])) ≡ length p
unfolding join_lines join_with
length-join_lines_one p = refl

-- The text of the parts, with the newlines between them.
pub join_lines-cost :
    (p : Text) (parts : List Text)
    → 2 * length (join_lines (p ∷ parts)) ≤ 7 * cost (p ∷ parts) + 2 * length parts
unfolding estimate_tokens
join_lines-cost p [] = omega (arith, length-join_lines_one p)
join_lines-cost p (q ∷ parts) = omega (arith, length-join_lines p q parts, join_lines-cost q parts)

length-init : (xs : List Text) (n : ℕ) → length xs ≤ suc n → length (init xs) ≤ n
unfolding init
length-init [] n h = omega arith
length-init (x ∷ []) n h = omega arith
length-init (x ∷ y ∷ xs) zero h = absurd (omega arith)
length-init (x ∷ y ∷ xs) (suc n) h = omega (arith, length-init (y ∷ xs) n (omega arith))

-- The lines around the omissions are short.
notice_of-nil : estimate_tokens (notice_of []) ≤ 80
unfolding notice_of notice_lines join_lines join_with estimate_tokens
notice_of-nil = omega arith

trim_notice-cost :
    (rounds reserve : ℕ) (omissions : List Text)
    → 80 ≤ reserve
    → length omissions ≤ rounds
    → estimate_tokens (notice_of (trim_notice rounds reserve omissions)) ≤ reserve
unfolding trim_notice
trim_notice-cost zero reserve [] h k = omega (arith, notice_of-nil)
trim_notice-cost zero reserve (o ∷ omissions) h k = absurd (omega arith)
trim_notice-cost (suc rounds) reserve [] h k = omega (arith, notice_of-nil)
trim_notice-cost (suc rounds) reserve (o ∷ omissions) h k =
    let left : ltb 0 (length (o ∷ omissions)) ≡ true = ground arith in
    elim (Bool-cases (ltb reserve (estimate_tokens (notice_of (o ∷ omissions))))) [
      | inl e ↦
          rw (left, e, trim_notice)
            (trim_notice-cost rounds reserve (init (o ∷ omissions)) h
              (length-init (o ∷ omissions) rounds k))
      | inr e ↦ rw (left, e, trim_notice) (ground arith)
    ]

-- The notice adds at most one part, of at most the reserve.
abbrev pub IsNoticed : ℕ → Fill → Fill → Type 0
IsNoticed reserve st st' =
    (cost st'.parts ≤ cost st.parts + reserve) × (length st'.parts ≤ length st.parts + 1)

notice_part-IsNoticed :
    (reserve : ℕ) (lines : List Text) (st : Fill)
    → 80 ≤ reserve
    → let notice = notice_of (trim_notice (length lines) reserve lines) in
      (cost (st.parts ++ notice ∷ []) ≤ cost st.parts + reserve)
      × (length (st.parts ++ notice ∷ []) ≤ length st.parts + 1)
notice_part-IsNoticed reserve lines st h =
    let notice = notice_of (trim_notice (length lines) reserve lines) in
    (
      omega (
        arith,
        cost-append st.parts (notice ∷ []),
        trim_notice-cost (length lines) reserve lines h (omega arith),
      ),
      omega (arith, length-append st.parts (notice ∷ [])),
    )

pub add_notice-IsNoticed :
    (reserve : ℕ) (st : Fill) (os : List DigestOmission)
    → 80 ≤ reserve
    → st.omitted ≡ os
    → IsNoticed reserve st (add_notice reserve st)
unfolding add_notice
add_notice-IsNoticed reserve st [] h e = rw (e, add_notice) (omega arith, omega arith)
add_notice-IsNoticed reserve st (o ∷ os) h e =
    rw (e, add_notice) (notice_part-IsNoticed reserve (map omission_line (o ∷ os)) st h)

pub reserve-bounds : (b : ℕ) → (80 ≤ notional_reserve b) × (notional_reserve b ≤ 400)
unfolding notional_reserve
reserve-bounds b = omega arith
