-- ===== src/Client/Cuts.antt =====
-- The stream of src/llm/client.ts from the bytes of the server to the events of the caller.
use c_interface_discovery.Prelude.{
  Text, List, [], ◌∷◌, ◌++◌, Option, ◌≡◌, refl, sym, ap, ◌∙◌, index_of-nil,
}
use c_interface_discovery.Sse.{SseParser, init, push, flush, feed}
use c_interface_discovery.Sse.Chunks.{concat, feed-concat}
use c_interface_discovery.Client.Values.{ok, Thrown, Runtime}
use c_interface_discovery.Client.Events.{events_from_chunk}
use c_interface_discovery.Client.Http.{LlmConfig}
use c_interface_discovery.Client.{
  Response, Exchange, Yields, payload_events, after_events, finished, end_of_chunks, chunk_events,
  response_events, fetched_events, chat_stream,
}

payload_events-append :
    (rt : Runtime) (vs ws : List Text) (rest : Yields (Unit {0}))
    → payload_events rt (vs ++ ws) rest ≡ payload_events rt vs (payload_events rt ws rest)
unfolding payload_events
payload_events-append rt [] ws rest = refl
payload_events-append rt (v ∷ vs) ws rest =
    ap (after_events (events_from_chunk rt v)) (payload_events-append rt vs ws rest)

-- The loop over the chunks is one loop over the payloads that the parser makes of them.
pub chunk_events-feed :
    (rt : Runtime) (chunks : List Text) (broken : Option Thrown) (p : SseParser)
    → chunk_events rt chunks broken p
      ≡ payload_events rt
          (feed chunks p).0
          (end_of_chunks broken (payload_events rt (flush (feed chunks p).1).0 finished))
unfolding chunk_events payload_events feed
chunk_events-feed rt [] broken p = refl
chunk_events-feed rt (text ∷ chunks) broken p =
    ap (payload_events rt (push text p).0) (chunk_events-feed rt chunks broken (push text p).1)
    ∙ sym (payload_events-append rt (push text p).0 (feed chunks (push text p).1).0 _)

-- A request whose response has the given chunks.
abbrev pub receives : Exchange → Response → List Text → Exchange
receives x res chunks = record x { fetched = ok (record res { chunks = chunks }) }

feed_same :
    (chunks others : List Text)
    → concat chunks ≡ concat others
    → feed chunks init ≡ feed others init
feed_same chunks others e =
    feed-concat chunks init (index_of-nil 10)
    ∙ (ap (λ s. push s init) e ∙ sym (feed-concat others init (index_of-nil 10)))

chunk_events_same :
    (rt : Runtime) (chunks others : List Text) (broken : Option Thrown)
    → concat chunks ≡ concat others
    → chunk_events rt chunks broken init ≡ chunk_events rt others broken init
chunk_events_same rt chunks others broken e =
    chunk_events-feed rt chunks broken init
    ∙ (ap
          (λ (r : List Text × SseParser).
            payload_events rt r.0 (end_of_chunks broken (payload_events rt (flush r.1).0 finished)))
          (feed_same chunks others e)
        ∙ sym (chunk_events-feed rt others broken init))

-- Two ways to cut the body of a response into chunks give the same stream: the same events, in the
-- same order, and the same error at the end, whatever the payloads hold and wherever one of them
-- makes the call fail.
pub chat_stream-concat :
    (rt : Runtime) (cfg : LlmConfig) (x : Exchange) (res : Response) (chunks others : List Text)
    → concat chunks ≡ concat others
    → chat_stream rt cfg (receives x res chunks) ≡ chat_stream rt cfg (receives x res others)
unfolding chat_stream fetched_events response_events
chat_stream-concat rt cfg x res chunks others e =
    rw (chunk_events_same rt chunks others res.broken e) refl
