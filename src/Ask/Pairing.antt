-- ===== src/Ask/Pairing.antt =====
-- Every request of src/llm/conversation.ts answers the tool calls before it.
use c_interface_discovery.Prelude.{
  ℕ, zero, suc, Text, List, [], ◌∷◌, ◌++◌, map, Option, none, some, Bool, true, false, ◌===◌,
  ===_refl, ◌≡◌, refl, ◌∙◌, subst, trim, take, if◌then◌else◌, Bool-cases, inl, inr, arith,
}
use c_interface_discovery.Ask.Types.{
  user, tool, ToolCall, ChatMessage, ChatResult, StreamEvent, content_event, reasoning_event,
  tool_call_delta_event, done_event, Failure, llm_error, other_error, Reply, returned, threw,
  Server,
}
use c_interface_discovery.Ask.Tools.{Toolbox}
use c_interface_discovery.Ask.Loop.{
  Action, plain, tool_message, yields, calls_chat, calls_stream, AskOptions, answer_now,
  assistant_message, is_aborted, caught, end_of_stream, streaming, final_turn, answer, answer_after,
  after_result, after_reply, call_events, run_calls, tool_rounds, ask, max_calls_per_round,
}

-- The message answers the call with this identifier.
abbrev pub answers : Text → ChatMessage → Bool
answers id m = elim m.role [
  | tool ↦ (elim m.tool_call_id [ none ↦ false | some i ↦ i === id ])
  | _ ↦ false
]

-- The calls that a message makes, `none` for a message that stands where a call's answer has to.
abbrev pub calls_of : ChatMessage → Option (List Text)
calls_of m = elim m.role [
  | tool ↦ none
  | _ ↦ (elim m.tool_calls [ none ↦ some [] | some calls ↦ some (map (λ c. c.id) calls) ])
]

-- The calls that are not answered yet, after one more message; `none` where it stands out of order.
abbrev pub react : List Text → ChatMessage → Option (List Text)
react [] m = calls_of m
react (id ∷ pending) m = if answers id m then some pending else none

abbrev pub then_with : Option (List Text) → (List Text → Option (List Text)) → Option (List Text)
then_with none next = none
then_with (some pending) next = next pending

unfoldable pub pending_after : List Text → List ChatMessage → Option (List Text)
pending_after pending [] = some pending
pending_after pending (m ∷ ms) = then_with (react pending m) (λ more. pending_after more ms)

-- Tool messages answer the calls of the assistant, each exactly once, in order and before any other
-- message.
abbrev pub IsPaired : List ChatMessage → Type 0
IsPaired ms = pending_after [] ms ≡ some []

-- Every request in the trace sends such messages.
abbrev pub SendsPaired : {Json : Type 0} → List (Action Json) → Type 0
SendsPaired [] = Unit
SendsPaired (calls_chat ms ∷ rest) = IsPaired ms × SendsPaired rest
SendsPaired (calls_stream ms ∷ rest) = IsPaired ms × SendsPaired rest
SendsPaired (yields e ∷ rest) = SendsPaired rest

then_with-append :
    (o : Option (List Text)) (ms ns : List ChatMessage) (more : List Text)
    → ((q : List Text)
        → pending_after q ms ≡ some more
        → pending_after q (ms ++ ns) ≡ pending_after more ns)
    → then_with o (λ q. pending_after q ms) ≡ some more
    → then_with o (λ q. pending_after q (ms ++ ns)) ≡ pending_after more ns
then_with-append none ms ns more ih h = absurd (cc h)
then_with-append (some q) ms ns more ih h = ih q h

pending_after-append :
    (ms ns : List ChatMessage) (pending more : List Text)
    → pending_after pending ms ≡ some more
    → pending_after pending (ms ++ ns) ≡ pending_after more ns
unfolding pending_after
pending_after-append [] ns pending more h =
    subst (λ p. pending_after p ns ≡ pending_after more ns) (ground arith) refl
pending_after-append (m ∷ ms) ns pending more h =
    then_with-append (react pending m) ms ns more (λ q k. pending_after-append ms ns q more k) h

-- One message more.
pending_after-snoc :
    (ms : List ChatMessage) (m : ChatMessage) (pending more : List Text)
    → pending_after pending ms ≡ some more
    → pending_after pending (ms ++ m ∷ []) ≡ react more m
unfolding pending_after
pending_after-snoc ms m pending more h =
    pending_after-append ms (m ∷ []) pending more h ∙ then_with-some (react more m)
  where
    then_with-some : (o : Option (List Text)) → then_with o (λ q. some q) ≡ o
    then_with-some none = refl
    then_with-some (some q) = refl

abbrev ids_of : List ToolCall → List Text
ids_of calls = map (λ c. c.id) calls

module _ {Json : Type 0} (box : Toolbox Json) (server : Server) where
  run_calls-IsPaired :
      (calls : List ToolCall) (ms : List ChatMessage)
      → pending_after [] ms ≡ some (ids_of calls)
      → IsPaired (run_calls box server calls ms).1
  unfolding run_calls tool_message
  run_calls-IsPaired [] ms h = h
  run_calls-IsPaired (call ∷ calls) ms h =
      run_calls-IsPaired calls (ms ++ tool_message box server call ∷ []) (
        pending_after-snoc ms (tool_message box server call) [] (call.id ∷ ids_of calls) h
        ∙ rw (===_refl call.id) refl)

  caught-SendsPaired : (f : Failure) → SendsPaired (caught box server f)
  unfolding caught
  caught-SendsPaired (llm_error kind m) = elim (Bool-cases (is_aborted kind)) [
    | inl e ↦ rw e tt
    | inr e ↦ rw e tt
  ]
  caught-SendsPaired (other_error m) = tt

  streaming-SendsPaired :
      (es : List StreamEvent) (saw : Bool) (o : Option Failure)
      → SendsPaired (streaming box server es saw o)
  unfolding streaming end_of_stream
  streaming-SendsPaired [] saw (some f) = caught-SendsPaired f
  streaming-SendsPaired [] true none = tt
  streaming-SendsPaired [] false none = tt
  streaming-SendsPaired (content_event d ∷ es) saw o = streaming-SendsPaired es true o
  streaming-SendsPaired (reasoning_event d ∷ es) saw o = streaming-SendsPaired es saw o
  streaming-SendsPaired (tool_call_delta_event ∷ es) saw o = streaming-SendsPaired es saw o
  streaming-SendsPaired (done_event ∷ es) saw o = streaming-SendsPaired es saw o

  final_turn-SendsPaired :
      (ms : List ChatMessage) → IsPaired ms → SendsPaired (final_turn box server ms)
  unfolding final_turn
  final_turn-SendsPaired ms h = (h, streaming-SendsPaired _ false _)

  answer-SendsPaired : (reason text : Text) → SendsPaired (answer_after box server reason text)
  unfolding answer_after
  answer-SendsPaired [] text = tt
  answer-SendsPaired (c ∷ s) text = tt

  run_calls-SendsPaired :
      (calls : List ToolCall) (ms : List ChatMessage) (rest : List (Action Json))
      → SendsPaired rest
      → SendsPaired ((run_calls box server calls ms).0 ++ rest)
  unfolding run_calls call_events
  run_calls-SendsPaired [] ms rest h = h
  run_calls-SendsPaired (call ∷ calls) ms rest h = run_calls-SendsPaired calls _ rest h

  module _ (next : List ChatMessage → List (Action Json))
      (next-SendsPaired : (ns : List ChatMessage) → IsPaired ns → SendsPaired (next ns))
      (ms : List ChatMessage) (h : IsPaired ms) where
    after_result-SendsPaired :
        (r : ChatResult) (calls : List ToolCall)
        → SendsPaired (after_result box server next ms r calls)
    unfolding after_result answer assistant_message
    after_result-SendsPaired r [] = elim (Bool-cases (trim r.content === [])) [
      | inl e ↦ rw e (final_turn-SendsPaired ms h)
      | inr e ↦ rw e (answer-SendsPaired r.reasoning_content r.content)
    ]
    after_result-SendsPaired r (first ∷ more) =
        let calls = take max_calls_per_round (first ∷ more) in
        run_calls-SendsPaired calls _ _ (
          next-SendsPaired _ (
            run_calls-IsPaired calls _ (pending_after-snoc ms (assistant_message r calls) [] [] h)))

    after_reply-SendsPaired : (reply : Reply) → SendsPaired (after_reply box server next ms reply)
    unfolding after_reply
    after_reply-SendsPaired (threw f) = caught-SendsPaired f
    after_reply-SendsPaired (returned r) = after_result-SendsPaired r r.tool_calls

  tool_rounds-SendsPaired :
      (left : ℕ) (ms : List ChatMessage)
      → IsPaired ms
      → SendsPaired (tool_rounds box server left ms)
  unfolding tool_rounds
  tool_rounds-SendsPaired zero ms h =
      final_turn-SendsPaired _ (pending_after-snoc ms answer_now [] [] h)
  tool_rounds-SendsPaired (suc left) ms h = (
    h,
    after_reply-SendsPaired (tool_rounds box server left) (tool_rounds-SendsPaired left) ms h
        (server.chat ms),
  )

  -- If the turns of the history answer their tool calls, then so does every request of the question:
  -- each tool call of an assistant message, also of one cut to ten calls, is answered by exactly one
  -- tool message, in order and before any other message.
  pub ask-SendsPaired :
      (opts : AskOptions) → IsPaired opts.history → SendsPaired (ask box server opts)
  unfolding ask pending_after
  ask-SendsPaired opts h =
      tool_rounds-SendsPaired 6 _
        (pending_after-snoc opts.history (plain user opts.question) [] [] h)
