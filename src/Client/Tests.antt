-- ===== src/Client/Tests.antt =====
-- A response of two events, cut inside the first, with a parser of JSON that knows one text.
use c_interface_discovery.Prelude.{
  Text, List, [], ◌∷◌, ◌++◌, none, some, true, false, any, if◌then◌else◌, ◌≡◌, refl, codes, All,
  index_of, ◌===◌, trim, trim_start, is_space,
}
use c_interface_discovery.Sse.{strip_cr}
use c_interface_discovery.Sse.Chunks.{concat}
use c_interface_discovery.Sse.Events.{IsPayload}
use c_interface_discovery.Client.Values.{
  Json, obj, arr, str, end, field, nil, cons, ok, Runtime, read, prop, lookup_field, is_truthy,
  first_choice, if_truthy, first, as_array, items_of, or_object, as_text, text_or_empty,
}
use c_interface_discovery.Client.Events.{
  content, done, text_event, done_events, call_deltas, choice_events, parsed_events,
  events_from_chunk,
}
use c_interface_discovery.Client.Http.{LlmConfig, auto, assert_configured}
use c_interface_discovery.Client.{Response, Exchange, is_done, truncated, chat_stream}
use c_interface_discovery.Client.Cuts.{receives, chat_stream-concat}
use c_interface_discovery.Client.Delivery.{events_in, IsSound, chat_stream-stream}

-- `{"choices":[{"delta":{"content":"Hi"}}]}`
abbrev hi : Json
hi = obj (
    field (codes "choices")
      (arr (
        cons
          (obj (field (codes "delta") (obj (field (codes "content") (str (codes "Hi")) end)) end))
          nil))
      end)

abbrev rt : Runtime
rt = record {
  parse = λ s. if s === codes "hi" then some hi else none;
  stringify = λ v. [];
  text_of = λ v. [];
}

abbrev cfg : LlmConfig
cfg = record {
  enabled = true;
  base_url = codes "/llm";
  model = codes "m";
  api_key = [];
  temperature = codes "0.2";
  max_tokens = codes "4000";
  thinking = auto;
}

abbrev payloads : List Text
payloads = codes "hi" ∷ codes "[DONE]" ∷ []

abbrev cut : List Text
cut = codes "da" ∷ (codes "ta: hi" ++ 10 ∷ []) ∷ (10 ∷ codes "data: [DONE]" ++ 10 ∷ 10 ∷ []) ∷ []

abbrev res : Response
res = record {
  is_ok = true;
  status = 200;
  text = [];
  json = ok hi;
  has_body = true;
  chunks = cut;
  broken = none;
}

abbrev x : Exchange
x = record { fetched = ok res; cancelled = false; signal_aborted = false }

hi_event : events_from_chunk rt (codes "hi") ≡ ok (content (codes "Hi") ∷ [])
unfolding events_from_chunk parsed_events read prop lookup_field is_truthy first_choice if_truthy
    first as_array items_of choice_events or_object as_text text_or_empty text_event done_events
    call_deltas ◌===◌
hi_event = refl

done_event : events_from_chunk rt (codes "[DONE]") ≡ ok (done none ∷ [])
unfolding events_from_chunk ◌===◌
done_event = refl

configured : assert_configured cfg ≡ ok tt
unfolding assert_configured trim trim_start is_space ◌===◌
configured = refl

payloads-IsPayload : All IsPayload payloads
unfolding index_of strip_cr
payloads-IsPayload = ((refl, refl), ((refl, refl), tt))

chat_stream-concat_example :
    chat_stream rt cfg (receives x res cut) ≡ chat_stream rt cfg (receives x res (concat cut ∷ []))
chat_stream-concat_example = chat_stream-concat rt cfg x res cut (concat cut ∷ []) refl

sound : All (IsSound rt) payloads
sound = ((content (codes "Hi") ∷ [], hi_event), ((done none ∷ [], done_event), tt))

chat_stream-stream_example : chat_stream rt cfg x ≡ record {
  events = events_in rt payloads;
  failure = if any is_done (events_in rt payloads) then none else some (truncated false false);
}
chat_stream-stream_example =
    chat_stream-stream rt cfg x res payloads configured refl refl refl refl refl payloads-IsPayload
      sound
