-- ===== src/Sse/Events.antt =====
-- What a server writes comes back: the events of a response, in any chunks.
use mathlib.Core.List.{append_assoc}
use c_interface_discovery.Prelude.{
  Text, List, [], ◌∷◌, ◌++◌, some, none, ◌≡◌, refl, ap, codes, index_of, index_of-nil, All, ◌===◌,
  starts_with, arith,
}
use c_interface_discovery.Sse.{init, strip_cr, strip_space, field_value, payload, emit, feed}
use c_interface_discovery.Sse.Lines.{IsLine, scan, scan_line, prepend}
use c_interface_discovery.Sse.Chunks.{concat, push-scan_resume, feed-concat}

-- The server's side: one event with the payload `v`.
abbrev pub event : Text → Text
event v = codes "data: " ++ (v ++ 10 ∷ 10 ∷ [])

abbrev pub stream : List Text → Text
stream [] = []
stream (v ∷ vs) = event v ++ stream vs

-- A payload that fits on one line and does not end with a carriage return.
abbrev pub IsPayload : Text → Type 0
IsPayload v = IsLine v × (strip_cr v ≡ v)

strip_cr-data : (v : Text) → strip_cr v ≡ v → strip_cr (codes "data: " ++ v) ≡ codes "data: " ++ v
unfolding strip_cr
strip_cr-data [] h = refl
strip_cr-data (c ∷ s) h = ap (λ t. codes "data: " ++ t) h

payload-data : (v : Text) → strip_cr v ≡ v → payload (codes "data: " ++ v) ≡ some v
unfolding payload strip_space field_value index_of ◌===◌ starts_with
payload-data v h = rw (strip_cr-data v h, payload) refl

payload-nil : payload [] ≡ none
unfolding payload strip_cr ◌===◌
payload-nil = refl

scan-event : (v t : Text) → IsPayload v → scan [] (event v ++ t) ≡ prepend (some v) (scan [] t)
unfolding index_of emit
scan-event v t (line, whole) =
    let field : IsLine (codes "data: " ++ v) = ground (arith, line) in
    let split : event v ++ t ≡ (codes "data: " ++ v) ++ 10 ∷ ([] ++ 10 ∷ t) =
      ap (λ r. codes "data: " ++ r) (append_assoc v (10 ∷ 10 ∷ []) t) in
    rw
      (
        split,
        scan_line [] (codes "data: " ++ v) (10 ∷ t) field,
        payload-data v whole,
        scan_line [] [] t refl,
        payload-nil,
      )
      refl

scan-stream : (vs : List Text) → All IsPayload vs → scan [] (stream vs) ≡ (vs, [])
unfolding scan emit
scan-stream [] h = refl
scan-stream (v ∷ vs) (p, h) = rw (scan-event v (stream vs) p, scan-stream vs h) refl

-- If the chunks of a response, put together, are the server's events with the payloads `vs`, each
-- on one line and not ending with a carriage return, then the parser returns exactly `vs`, in
-- order, and holds nothing at the end, wherever the chunks were cut.
pub feed-stream :
    (vs chunks : List Text)
    → All IsPayload vs
    → concat chunks ≡ stream vs
    → feed chunks init ≡ (vs, init)
feed-stream vs chunks h e =
    rw
      (
        feed-concat chunks init (index_of-nil 10),
        push-scan_resume (concat chunks) init (index_of-nil 10),
        e,
        scan-stream vs h,
      )
      refl
