-- ===== src/Sse/Lines.antt =====
-- The loop of `push` read character by character: what it emits, and that its fuel suffices.
use mathlib.Core.List.{append_assoc, append-nil}
use c_interface_discovery.Prelude.{
  ℕ, zero, suc, ◌≤◌, Text, List, [], ◌∷◌, ◌++◌, Option, none, some, ap, ◌==◌, ◌≡◌, refl, index_of,
  index_of-append, index_of-append_ne, index_of-nil, index_of-cons, length, take-length-append,
  drop-suc-length-append, arith, if◌then◌else◌, Bool-cases, inl, inr, ==_iff,
}
use c_interface_discovery.Sse.{SseParser, payload, emit, drain, push}

-- The text holds no newline.
abbrev pub IsLine : Text → Type 0
IsLine s = index_of 10 s ≡ none

abbrev pub prepend : Option Text → List Text × Text → List Text × Text
prepend value (out, rest) = (emit value out, rest)

-- `cur` is the line begun.
unfoldable pub scan : Text → Text → List Text × Text
scan cur [] = ([], cur)
scan cur (c ∷ s) =
    let ended = prepend (payload cur) (scan [] s) in
    let longer = scan (cur ++ c ∷ []) s in if c == 10 then ended else longer

drain_of_IsLine : (fuel : ℕ) (s : Text) → IsLine s → drain fuel s ≡ ([], s)
unfolding drain
drain_of_IsLine zero s h = refl
drain_of_IsLine (suc fuel) s h = rw (h, drain)

drain-line :
    (fuel : ℕ) (cur s : Text)
    → IsLine cur
    → drain (suc fuel) (cur ++ 10 ∷ s) ≡ prepend (payload cur) (drain fuel s)
unfolding drain
drain-line fuel cur s h =
    rw (index_of-append 10 cur s h, drain)
      (rw (take-length-append cur (10 ∷ s), drop-suc-length-append cur 10 s) refl)

pub drain-scan :
    (fuel : ℕ) (cur s : Text) → IsLine cur → length s ≤ fuel → drain fuel (cur ++ s) ≡ scan cur s
unfolding scan
drain-scan fuel cur [] h k = rw append-nil (drain_of_IsLine fuel cur h)
drain-scan zero cur (c ∷ s) h k = absurd (omega arith)
drain-scan (suc fuel) cur (c ∷ s) h k = elim (Bool-cases (c == 10)) [
  | inl e ↦
      let same : c ≡ 10 = (==_iff c 10).0 e in
      rw (same, drain-line fuel cur s h)
        (ap (prepend (payload cur)) (drain-scan fuel [] s (index_of-nil 10) (omega arith)))
  | inr e ↦
      rw (e, scan)
        (rw (← append_assoc cur (c ∷ []) s)
          (drain-scan (suc fuel) (cur ++ c ∷ []) s (index_of-append_ne 10 c cur h e) (omega arith)))
]

-- What is left when the text ends holds no newline.
pub scan-IsLine : (cur s : Text) → IsLine cur → IsLine (scan cur s).1
unfolding scan
scan-IsLine cur [] h = h
scan-IsLine cur (c ∷ s) h = elim (Bool-cases (c == 10)) [
  | inl e ↦ rw (e, scan) (scan-IsLine [] s (index_of-nil 10))
  | inr e ↦ rw (e, scan) (scan-IsLine (cur ++ c ∷ []) s (index_of-append_ne 10 c cur h e))
]

-- Two texts in a row.
abbrev pub joined : List Text × Text → Text → List Text × Text
joined (out, rest) t = let (more, last) = scan rest t in (out ++ more, last)

emit-append : (o : Option Text) (xs ys : List Text) → emit o xs ++ ys ≡ emit o (xs ++ ys)
unfolding emit
emit-append none xs ys = refl
emit-append (some v) xs ys = refl

pub scan-append : (cur s t : Text) → scan cur (s ++ t) ≡ joined (scan cur s) t
unfolding scan
scan-append cur [] t = refl
scan-append cur (c ∷ s) t = elim (Bool-cases (c == 10)) [
  | inl e ↦ rw (e, scan) (rw (scan-append [] s t, emit-append) refl)
  | inr e ↦ rw (e, scan) (scan-append (cur ++ c ∷ []) s t)
]

pub scan_line :
    (cur s t : Text) → IsLine s → scan cur (s ++ 10 ∷ t) ≡ prepend (payload (cur ++ s)) (scan [] t)
unfolding scan
scan_line cur [] t h = rw append-nil refl
scan_line cur (c ∷ s) t h =
    let (ne, later) = index_of-cons 10 c s h in
    rw (ne, scan) (rw (← append_assoc cur (c ∷ []) s) (scan_line (cur ++ c ∷ []) s t later))

pub push-scan :
    (chunk : Text) (p : SseParser)
    → push chunk p ≡ (let r = scan [] (p.buffer ++ chunk) in (r.0, record { buffer = r.1 }))
unfolding push
push-scan chunk p =
    rw
      (drain-scan (length (p.buffer ++ chunk)) [] (p.buffer ++ chunk) (index_of-nil 10)
        (omega arith))
      refl
