-- ===== src/Client/Events.antt =====
-- `eventsFromChunk` of src/llm/client.ts.
use c_interface_discovery.Prelude.{
  ℕ, suc, Text, List, [], ◌∷◌, ◌++◌, Option, none, some, ◌===◌, codes, if◌then◌else◌,
}
use c_interface_discovery.Prelude.Words.{show}
use c_interface_discovery.Ask.Types.{protocol}
use c_interface_discovery.Client.Values.{
  Json, null, num, str, Outcome, ok, throws, ◌>>=◌, llm_thrown, llm_error_of, Runtime, prop, read,
  is_truthy, or_object, as_text, text_or_empty, as_array, first_choice,
}

pub record CallDelta : Type 0 where
  pub index : Text
  pub id : Option Text
  pub name : Option Text
  pub args_delta : Option Text

pub data StreamEvent : Type 0 where
  content reasoning : Text → StreamEvent
  tool_call_delta : CallDelta → StreamEvent
  done : Option Text → StreamEvent

-- `err.message ?? 'Stream error'`, as the constructor of `Error` makes it a string
unfoldable pub stream_error : Runtime → Option Json → Text
stream_error rt none = codes "Stream error"
stream_error rt (some null) = codes "Stream error"
stream_error rt (some (str s)) = s
stream_error rt (some v) = rt.text_of v

-- `typeof c.index === 'number' ? c.index : i`
unfoldable pub index_or : ℕ → Option Json → Text
index_or i (some (num n)) = n
index_or i _ = show i

unfoldable pub call_delta : ℕ → Json → Outcome StreamEvent
call_delta i raw = do
  f ← read raw (codes "function")
  let fn = or_object f
  ok (
      tool_call_delta (record {
        index = index_or i (prop raw (codes "index"));
        id = as_text (prop raw (codes "id"));
        name = as_text (prop fn (codes "name"));
        args_delta = as_text (prop fn (codes "arguments"));
      }))

unfoldable pub call_deltas : ℕ → List Json → Outcome (List StreamEvent)
call_deltas i [] = ok []
call_deltas i (raw ∷ raws) = do e ← call_delta i raw; es ← call_deltas (suc i) raws; ok (e ∷ es)

-- An event with a text that is not empty.
unfoldable pub text_event : (Text → StreamEvent) → Text → List StreamEvent
text_event make [] = []
text_event make (c ∷ s) = make (c ∷ s) ∷ []

unfoldable pub done_events : Option Text → List StreamEvent
done_events none = []
done_events (some reason) = done (some reason) ∷ []

unfoldable pub choice_events : Option Json → Outcome (List StreamEvent)
choice_events none = ok []
choice_events (some choice) =
    let delta = or_object (prop choice (codes "delta")) in
    call_deltas 0 (as_array (prop delta (codes "tool_calls"))) >>= λ calls. ok (
      text_event reasoning (text_or_empty (prop delta (codes "reasoning_content")))
      ++ (text_event content (text_or_empty (prop delta (codes "content")))
          ++ (calls ++ done_events (as_text (prop choice (codes "finish_reason"))))))

unfoldable pub error_prop : Option Json → Option Json
error_prop none = none
error_prop (some v) = prop v (codes "message")

unfoldable pub parsed_events : Runtime → Option Json → Outcome (List StreamEvent)
parsed_events rt none = ok []
parsed_events rt (some parsed) = read parsed (codes "error") >>= λ err.
    if is_truthy err
    then throws (llm_thrown (llm_error_of (stream_error rt (error_prop err)) protocol))
    else choice_events (first_choice (prop parsed (codes "choices")))

unfoldable pub events_from_chunk : Runtime → Text → Outcome (List StreamEvent)
events_from_chunk rt payload =
    if payload === codes "[DONE]" then ok (done none ∷ []) else parsed_events rt (rt.parse payload)
