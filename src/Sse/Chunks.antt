-- ===== src/Sse/Chunks.antt =====
-- However the network splits a stream of events, the parser returns the same payloads.
use c_interface_discovery.Prelude.{
  Text, List, [], ◌∷◌, ◌++◌, ◌≡◌, refl, index_of-nil, index_of-cons,
}
use mathlib.Core.List.{append_assoc, append-nil}
use c_interface_discovery.Sse.{SseParser, push, feed}
use c_interface_discovery.Sse.Lines.{IsLine, scan, scan-IsLine, scan-append, push-scan}

-- The buffer is the beginning of one line.
abbrev pub IsReady : SseParser → Type 0
IsReady p = IsLine p.buffer

-- Whatever the parser held, `push` leaves no complete line behind: the fuel of its loop suffices.
pub push-IsReady : (chunk : Text) (p : SseParser) → IsReady (push chunk p).1
push-IsReady chunk p = rw push-scan (scan-IsLine [] (p.buffer ++ chunk) (index_of-nil 10))

abbrev pub concat : List Text → Text
concat [] = []
concat (s ∷ ss) = s ++ concat ss

scan_of_IsLine : (cur s : Text) → IsLine s → scan cur s ≡ ([], cur ++ s)
unfolding scan
scan_of_IsLine cur [] h = rw append-nil refl
scan_of_IsLine cur (c ∷ s) h =
    let (ne, later) = index_of-cons 10 c s h in
    rw (ne, scan) (rw (scan_of_IsLine (cur ++ c ∷ []) s later, append_assoc) refl)

scan-resume : (s t : Text) → IsLine s → scan [] (s ++ t) ≡ scan s t
scan-resume s t h = rw (scan-append [] s t, scan_of_IsLine [] s h) refl

pub push-scan_resume :
    (chunk : Text) (p : SseParser)
    → IsReady p
    → push chunk p ≡ (let r = scan p.buffer chunk in (r.0, record { buffer = r.1 }))
push-scan_resume chunk p h = rw (push-scan, scan-resume p.buffer chunk h) refl

-- Feeding the chunks one by one gives the payloads and the state of one `push` of their
-- concatenation.
pub feed-concat :
    (chunks : List Text) (p : SseParser) → IsReady p → feed chunks p ≡ push (concat chunks) p
unfolding feed scan
feed-concat [] p h = rw (push-scan_resume [] p h, scan) refl
feed-concat (chunk ∷ chunks) p h =
    let ready = push-IsReady chunk p in
    rw
      (
        feed-concat chunks (push chunk p).1 ready,
        push-scan_resume (concat chunks) _ ready,
        push-scan_resume (chunk ++ concat chunks) p h,
        push-scan_resume chunk p h,
        scan-append p.buffer chunk (concat chunks),
      )
      refl
