-- ===== src/Client/Delivery.antt =====
-- What a well-formed stream of src/llm/client.ts delivers.
use c_interface_discovery.Prelude.{
  Text, List, [], ◌∷◌, ◌++◌, none, some, Bool, true, ◌≡◌, refl, ◌∙◌, any, All, trim, ◌===◌,
  if◌then◌else◌, Bool-cases, inl, inr,
}
use c_interface_discovery.Sse.{init, flush}
use c_interface_discovery.Sse.Chunks.{concat}
use c_interface_discovery.Sse.Events.{stream, IsPayload, feed-stream}
use c_interface_discovery.Client.Values.{Outcome, ok, throws, Runtime}
use c_interface_discovery.Client.Events.{StreamEvent, events_from_chunk}
use c_interface_discovery.Client.Http.{LlmConfig, assert_configured}
use c_interface_discovery.Client.{
  Response, Exchange, Stream, payload_events, after_events, prepend_events, finished, end_of_chunks,
  chunk_events, response_events, fetched_events, is_done, truncated, ending, close, chat_stream,
}
use c_interface_discovery.Client.Cuts.{chunk_events-feed}

-- The events of a payload that does not make the call fail.
abbrev pub events_or_nil : Outcome (List StreamEvent) → List StreamEvent
events_or_nil (ok es) = es
events_or_nil (throws e) = []

abbrev pub events_in : Runtime → List Text → List StreamEvent
events_in rt [] = []
events_in rt (v ∷ vs) = events_or_nil (events_from_chunk rt v) ++ events_in rt vs

abbrev pub IsSound : Runtime → Text → Type 0
IsSound rt v = (es : List StreamEvent) × (events_from_chunk rt v ≡ ok es)

payload_events_sound :
    (rt : Runtime) (vs : List Text)
    → All (IsSound rt) vs
    → payload_events rt vs finished ≡ record { events = events_in rt vs; outcome = ok tt }
unfolding payload_events finished after_events prepend_events
payload_events_sound rt [] h = refl
payload_events_sound rt (v ∷ vs) ((es, e), h) = rw (e, payload_events_sound rt vs h) refl

flush-init : (flush init).0 ≡ []
unfolding flush trim ◌===◌
flush-init = refl

chunk_events_sound :
    (rt : Runtime) (vs chunks : List Text)
    → All IsPayload vs
    → All (IsSound rt) vs
    → concat chunks ≡ stream vs
    → chunk_events rt chunks none init ≡ record { events = events_in rt vs; outcome = ok tt }
unfolding end_of_chunks payload_events
chunk_events_sound rt vs chunks whole sound e =
    chunk_events-feed rt chunks none init
    ∙ rw (feed-stream vs chunks whole e, flush-init) (payload_events_sound rt vs sound)

delivered :
    (cancelled signal_aborted : Bool) (es : List StreamEvent)
    → ◌≡◌ {A = Stream}
        (record { events = es; failure = ending cancelled signal_aborted (any is_done es) (ok tt) })
        (record {
          events = es;
          failure = if any is_done es then none else some (truncated cancelled signal_aborted);
        })
unfolding ending
delivered cancelled signal_aborted es = elim (Bool-cases (any is_done es)) [
  | inl e ↦ rw e refl
  | inr e ↦ rw e refl
]

-- If the body of the response is the server's events with the payloads `vs`, each on one line and not
-- ending with a carriage return, none of which makes the call fail, then the client yields exactly the
-- events of these payloads, in order, however the network cut the body; and it ends without an error
-- exactly if one of them is the event `done`.
pub chat_stream-stream :
    (rt : Runtime) (cfg : LlmConfig) (x : Exchange) (res : Response) (vs : List Text)
    → assert_configured cfg ≡ ok tt
    → x.fetched ≡ ok res
    → res.is_ok ≡ true
    → res.has_body ≡ true
    → res.broken ≡ none
    → concat res.chunks ≡ stream vs
    → All IsPayload vs
    → All (IsSound rt) vs
    → chat_stream rt cfg x ≡ record {
      events = events_in rt vs;
      failure =
          if any is_done (events_in rt vs)
          then none
          else some (truncated x.cancelled x.signal_aborted);
    }
unfolding chat_stream fetched_events response_events close
chat_stream-stream rt cfg x res vs configured fetched is_ok has_body unbroken e whole sound =
    rw
      (
        configured,
        fetched,
        is_ok,
        has_body,
        unbroken,
        chunk_events_sound rt vs res.chunks whole sound e,
      )
      (delivered x.cancelled x.signal_aborted (events_in rt vs))
