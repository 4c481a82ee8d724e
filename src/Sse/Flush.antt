-- ===== src/Sse/Flush.antt =====
-- The end of a stream: `flush` gives what one more newline would have given.
use c_interface_discovery.Prelude.{
  Text, [], ◌∷◌, ◌++◌, none, ◌≡◌, refl, index_of, index_of-nil, ◌===◌, ===_iff, is_space, IsBlank,
  IsBlank-of_trim, trim, starts_with, arith, Bool-cases, inl, inr,
}
use c_interface_discovery.Sse.{SseParser, init, strip_cr, payload, emit, push, flush, field_value}
use c_interface_discovery.Sse.Lines.{scan, scan_line}
use c_interface_discovery.Sse.Chunks.{IsReady, push-scan_resume}

strip_cr-IsBlank : (s : Text) → IsBlank s → IsBlank (strip_cr s)
unfolding strip_cr
strip_cr-IsBlank [] h = tt
strip_cr-IsBlank (c ∷ []) h = ground arith
strip_cr-IsBlank (c ∷ d ∷ s) (p, h) = (p, strip_cr-IsBlank (d ∷ s) h)

index_of-IsBlank : (s : Text) → IsBlank s → index_of 58 s ≡ none
unfolding index_of is_space
index_of-IsBlank [] h = refl
index_of-IsBlank (c ∷ s) (p, h) = ground (arith, index_of-IsBlank s h)

payload-IsBlank : (s : Text) → IsBlank s → payload s ≡ none
unfolding payload field_value ◌===◌ starts_with is_space
payload-IsBlank s h = go (strip_cr s) refl (strip_cr-IsBlank s h)
  where
    go : (line : Text) → strip_cr s ≡ line → IsBlank line → payload s ≡ none
    go [] e k = rw (e, payload) refl
    go (c ∷ t) e (p, k) =
        rw (e, payload) (rw (index_of-IsBlank (c ∷ t) (p, k), payload) (ground arith))

-- A parser between two lines that is flushed returns what a closing newline would make it return,
-- and holds nothing any more; so no payload of an unfinished last line is lost.
pub flush-push : (p : SseParser) → IsReady p → flush p ≡ ((push (10 ∷ []) p).0, init)
unfolding flush scan emit
flush-push p h = elim (Bool-cases (trim p.buffer === [])) [
  | inl e ↦
      rw (e, flush)
        (rw (push-scan_resume (10 ∷ []) p h)
          (rw (payload-IsBlank p.buffer (IsBlank-of_trim p.buffer ((===_iff _ _).0 e))) refl))
  | inr e ↦
      rw (e, flush)
        (rw (push-scan_resume (10 ∷ []) p h) (
          rw
            (
              push-scan_resume (p.buffer ++ 10 ∷ []) init (index_of-nil 10),
              scan_line [] p.buffer [] h,
            )
            refl))
]
