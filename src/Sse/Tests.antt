-- ===== src/Sse/Tests.antt =====
-- Runs of the event-stream parser.
use c_interface_discovery.Prelude.{
  Text, [], ◌∷◌, ◌++◌, ◌≡◌, refl, codes, index_of, List, All, ◌===◌, starts_with,
}
use c_interface_discovery.Sse.{
  init, feed, push, drain, payload, emit, strip_cr, strip_space, field_value,
}
use c_interface_discovery.Sse.Lines.{IsLine}
use c_interface_discovery.Sse.Events.{IsPayload, feed-stream}

abbrev event : Text
event = codes "data: {}" ++ 13 ∷ 10 ∷ []

push-event : push event init ≡ (codes "{}" ∷ [], init)
unfolding push drain payload emit strip_cr strip_space field_value index_of ◌===◌ starts_with
push-event = refl

braces-IsPayload : All IsPayload (codes "{}" ∷ [])
unfolding index_of strip_cr
braces-IsPayload = ((refl, refl), tt)

done-IsLine : IsLine (codes "data: [DONE]")
unfolding index_of
done-IsLine = refl

-- An event cut in three, in the middle of its field name and before its last newline.
abbrev chunks : List Text
chunks = codes "da" ∷ (codes "ta: {}" ++ 10 ∷ []) ∷ (10 ∷ []) ∷ []

feed-stream_example : feed chunks init ≡ (codes "{}" ∷ [], init)
feed-stream_example = feed-stream (codes "{}" ∷ []) chunks braces-IsPayload refl
