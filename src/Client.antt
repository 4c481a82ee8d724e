-- ===== src/Client.antt =====
-- src/llm/client.ts: the calls of the server, with the network as a parameter.
pub mod Values
pub mod Events
pub mod Reply
pub mod Http
pub mod Cuts
pub mod Delivery
mod Tests
use c_interface_discovery.Prelude.{
  ℕ, Text, List, [], ◌∷◌, ◌++◌, Option, none, some, Bool, true, false, not, ◌||◌, ◌===◌, codes, any,
  map, if◌then◌else◌,
}
use c_interface_discovery.Sse.{SseParser, init, push, flush}
use c_interface_discovery.Ask.Types
use c_interface_discovery.Ask.Types.{ChatMessage, protocol, aborted, timeout}
use c_interface_discovery.Client.Values.{
  Json, str, num, arr, items_of, Outcome, ok, throws, ◌>>=◌, Thrown, llm_thrown, other_thrown,
  LlmError, llm_error_of, Runtime, prop, read, as_text,
}
use c_interface_discovery.Client.Events.{
  StreamEvent, content, reasoning, tool_call_delta, done, events_from_chunk,
}
use c_interface_discovery.Client.Reply.{FullResult, parse_chat_response}
use c_interface_discovery.Client.Http.{
  LlmConfig, ChatOptions, ChatRequest, build_request, assert_configured, caught, status_error,
}

-- What a request leads to: the body's text, what `res.json()` gives, and the body as a stream: the
-- decoded texts, and what is thrown behind them, if anything. `json` of a failed request is not read.
pub record Response : Type 0 where
  pub is_ok : Bool
  pub status : ℕ
  pub text : Text
  pub json : Outcome Json
  pub has_body : Bool
  pub chunks : List Text
  pub broken : Option Thrown

-- A request: what `fetch` gives or throws, whether the caller's signal is aborted when the call
-- ends, and whether that of the request is, by the caller or the timer.
pub record Exchange : Type 0 where
  pub fetched : Outcome Response
  pub cancelled : Bool
  pub signal_aborted : Bool

-- The events yielded, and the error thrown behind them, if any.
pub record Stream : Type 0 where
  pub events : List StreamEvent
  pub failure : Option LlmError

-- A loop that yields events until something is thrown; else it goes on with a value.
pub record Yields (A : Type 0) : Type 0 where
  pub events : List StreamEvent
  pub outcome : Outcome A

unfoldable pub checked_body : Runtime → Response → Outcome Json
checked_body rt res =
    if res.is_ok then res.json else throws (llm_thrown (status_error rt res.text res.status))

-- `chat`, where the request sends `build_request cfg opts false`
unfoldable pub chat : Runtime → LlmConfig → Exchange → Outcome FullResult
chat rt cfg x = elim (assert_configured cfg) [
  | throws e ↦ throws e
  | ok _ ↦ (elim (x.fetched >>= λ res. checked_body rt res >>= parse_chat_response rt) [
    | ok r ↦ ok r
    | throws e ↦ throws (llm_thrown (caught x.cancelled e))
  ])
]

-- The inner loops: the events of each payload, one payload after the other.
unfoldable pub prepend_events : {A : Type 0} → List StreamEvent → Yields A → Yields A
prepend_events es y = record { events = es ++ y.events; outcome = y.outcome }

unfoldable pub after_events : {A : Type 0} → Outcome (List StreamEvent) → Yields A → Yields A
after_events (ok es) rest = prepend_events es rest
after_events (throws e) rest = record { events = []; outcome = throws e }

unfoldable pub payload_events : {A : Type 0} → Runtime → List Text → Yields A → Yields A
payload_events rt [] rest = rest
payload_events rt (payload ∷ payloads) rest =
    after_events (events_from_chunk rt payload) (payload_events rt payloads rest)

-- What `readTextChunks` throws at the end.
unfoldable pub end_of_chunks : Option Thrown → Yields (Unit {0}) → Yields (Unit {0})
end_of_chunks none rest = rest
end_of_chunks (some e) rest = record { events = []; outcome = throws e }

unfoldable pub finished : Yields (Unit {0})
finished = record { events = []; outcome = ok tt }

-- The loop over the chunks, then the flush.
unfoldable pub chunk_events : Runtime → List Text → Option Thrown → SseParser → Yields (Unit {0})
chunk_events rt [] broken p = end_of_chunks broken (payload_events rt (flush p).0 finished)
chunk_events rt (text ∷ chunks) broken p =
    payload_events rt (push text p).0 (chunk_events rt chunks broken (push text p).1)

unfoldable pub is_done : StreamEvent → Bool
is_done (done reason) = true
is_done _ = false

unfoldable pub truncated : Bool → Bool → LlmError
truncated cancelled signal_aborted =
    if cancelled
    then llm_error_of (codes "Request cancelled") aborted
    else if signal_aborted
    then llm_error_of (codes "Request timed out") timeout
    else llm_error_of
        (codes "Stream ended without a completion marker — the response may be truncated") protocol

-- The end of the `try` block and the `catch` block; `sawDone` says that an event `done` was yielded.
unfoldable pub ending : Bool → Bool → Bool → Outcome (Unit {0}) → Option LlmError
ending cancelled signal_aborted saw_done (throws e) = some (caught cancelled e)
ending cancelled signal_aborted true (ok _) = none
ending cancelled signal_aborted false (ok _) = some (truncated cancelled signal_aborted)

unfoldable pub response_events : Runtime → Response → Yields (Unit {0})
response_events rt res =
    if not res.is_ok
    then record { events = []; outcome = throws (llm_thrown (status_error rt res.text res.status)) }
    else if not res.has_body
    then record {
      events = [];
      outcome =
          throws (llm_thrown (llm_error_of (codes "Streaming response had no body") protocol));
    }
    else chunk_events rt res.chunks res.broken init

unfoldable pub fetched_events : Runtime → Outcome Response → Yields (Unit {0})
fetched_events rt (throws e) = record { events = []; outcome = throws e }
fetched_events rt (ok res) = response_events rt res

-- `assertConfigured` throws outside of the `try` block, and always an `LlmError`.
unfoldable pub close : Bool → Bool → Outcome (Unit {0}) → Yields (Unit {0}) → Stream
close cancelled signal_aborted (throws e) y = record {
  events = [];
  failure = some (caught cancelled e);
}
close cancelled signal_aborted (ok _) y = record {
  events = y.events;
  failure = ending cancelled signal_aborted (any is_done y.events) y.outcome;
}

-- `chatStream`, where the request sends `build_request cfg opts true`
unfoldable pub chat_stream : Runtime → LlmConfig → Exchange → Stream
chat_stream rt cfg x =
    close x.cancelled x.signal_aborted (assert_configured cfg) (fetched_events rt x.fetched)

pub record ModelInfo : Type 0 where
  pub id : Text
  pub max_model_len : Option Text

-- `typeof len === 'number' && Number.isFinite(len)`; a literal that is too large is infinite.
unfoldable pub finite_number : Option Json → Option Text
finite_number (some (num n)) =
    if n === codes "Infinity" || n === codes "-Infinity" then none else some n
finite_number _ = none

unfoldable pub model_of : Json → Option Text → List ModelInfo
model_of m none = []
model_of m (some id) =
    record { id = id; max_model_len = finite_number (prop m (codes "max_model_len")) } ∷ []

unfoldable pub models_of : List Json → Outcome (List ModelInfo)
models_of [] = ok []
models_of (m ∷ more) =
    read m (codes "id") >>= λ id. models_of more >>= λ rest. ok (model_of m (as_text id) ++ rest)

-- `!Array.isArray(body.data)`
unfoldable pub data_models : Option Json → Outcome (List ModelInfo)
data_models (some (arr vs)) = models_of (items_of vs)
data_models _ =
    throws
      (llm_thrown (llm_error_of (codes "Malformed /v1/models response: no data array") protocol))

-- `listModels`
unfoldable pub list_models : Runtime → Exchange → Outcome (List ModelInfo)
list_models rt x =
    elim (x.fetched >>= λ res.
    checked_body rt res >>= λ body. read body (codes "data") >>= data_models) [
      | ok models ↦ ok models
      | throws e ↦ throws (llm_thrown (caught x.cancelled e))
    ]
