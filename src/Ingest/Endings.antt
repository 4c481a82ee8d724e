-- ===== src/Ingest/Endings.antt =====
-- `normalizeLineEndings` of src/analyzer/fileIngestion.ts.
use c_interface_discovery.Prelude.{
  ℕ, Text, [], ◌∷◌, ◌++◌, ◌==◌, ==_iff, ◌≡◌, ◌≢◌, refl, ap, All, if◌then◌else◌, Bool-cases, inl,
  inr, arith, false,
}
use c_interface_discovery.Ingest.{next_is_lf, replace_crlf, replace_cr, normalize_line_endings}

-- No carriage return stands in the text.
abbrev pub HasNoCr : Text → Type 0
HasNoCr = All (λ c. c ≢ 13)

replace_cr-HasNoCr : (s : Text) → HasNoCr (replace_cr s)
unfolding replace_cr
replace_cr-HasNoCr [] = tt
replace_cr-HasNoCr (c ∷ s) = (ground arith, replace_cr-HasNoCr s)

-- A text of either kind of line endings, from one with line feeds: each line feed becomes `ending`.
abbrev pub with_endings : Text → Text → Text
with_endings ending [] = []
with_endings ending (c ∷ s) = (if c == 10 then ending else c ∷ []) ++ with_endings ending s

replace_crlf-lf : (s : Text) → HasNoCr s → replace_crlf s ≡ s
unfolding replace_crlf
replace_crlf-lf [] h = refl
replace_crlf-lf (c ∷ s) (p, h) = ground (arith, replace_crlf-lf s h)

crlf : (s : Text) → HasNoCr s → replace_crlf (with_endings (13 ∷ 10 ∷ []) s) ≡ s
unfolding replace_crlf next_is_lf
crlf [] h = refl
crlf (c ∷ s) (p, h) = elim (Bool-cases (c == 10)) [
  | inl e ↦ rw e (rw ((==_iff c 10).0 e) (ap (λ t. 10 ∷ t) (crlf s h)))
  | inr e ↦ rw e (ground (arith, crlf s h))
]

replace_cr-lf : (s : Text) → HasNoCr s → replace_cr s ≡ s
unfolding replace_cr
replace_cr-lf [] h = refl
replace_cr-lf (c ∷ s) (p, h) = ground (arith, replace_cr-lf s h)

abbrev HasNoLf : Text → Type 0
HasNoLf = All (λ c. c ≢ 10)

replace_crlf-HasNoLf : (s : Text) → HasNoLf s → replace_crlf s ≡ s
unfolding replace_crlf next_is_lf
replace_crlf-HasNoLf [] h = refl
replace_crlf-HasNoLf (c ∷ []) h = ground arith
replace_crlf-HasNoLf (c ∷ d ∷ s) (p, (q, h)) = ground (arith, replace_crlf-HasNoLf (d ∷ s) (q, h))

not_lf : (c : ℕ) → (c == 10) ≡ false → c ≢ 10
not_lf c e = ground arith

with_endings-HasNoLf : (s : Text) → HasNoLf (with_endings (13 ∷ []) s)
with_endings-HasNoLf [] = tt
with_endings-HasNoLf (c ∷ s) = elim (Bool-cases (c == 10)) [
  | inl e ↦ rw e ((λ h. absurd (omega (arith, h))), with_endings-HasNoLf s)
  | inr e ↦ rw e (not_lf c e, with_endings-HasNoLf s)
]

cr : (s : Text) → HasNoCr s → replace_cr (with_endings (13 ∷ []) s) ≡ s
unfolding replace_cr
cr [] h = refl
cr (c ∷ s) (p, h) = elim (Bool-cases (c == 10)) [
  | inl e ↦ rw e (rw ((==_iff c 10).0 e) (ap (λ t. 10 ∷ t) (cr s h)))
  | inr e ↦ rw e (ground (arith, cr s h))
]

-- The content that the analyzer sees has no carriage return; a text with line feeds alone is kept,
-- and it comes back from its forms with the line endings of Windows and of the old Macintosh.
pub normalize_line_endings-HasNoCr :
    (s : Text)
    → HasNoCr (normalize_line_endings s)
      × (HasNoCr s
          → (normalize_line_endings s ≡ s)
            × (normalize_line_endings (with_endings (13 ∷ 10 ∷ []) s) ≡ s)
            × (normalize_line_endings (with_endings (13 ∷ []) s) ≡ s))
unfolding normalize_line_endings
normalize_line_endings-HasNoCr s = (
  replace_cr-HasNoCr _,
  λ h. (
    rw (replace_crlf-lf s h) (replace_cr-lf s h),
    rw (crlf s h) (replace_cr-lf s h),
    rw (replace_crlf-HasNoLf _ (with_endings-HasNoLf s)) (cr s h),
  ),
)
