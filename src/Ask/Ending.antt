-- ===== src/Ask/Ending.antt =====
-- How the events of src/llm/conversation.ts end.
use c_interface_discovery.Prelude.{
  ℕ, zero, suc, Text, List, [], ◌∷◌, ◌++◌, Option, none, some, Bool, true, false, not, ◌&&◌, ◌===◌,
  ◌≡◌, refl, trim, Bool-cases, inl, inr,
}
use c_interface_discovery.Ask.Types.{
  ToolCall, ChatMessage, ChatResult, StreamEvent, content_event, reasoning_event,
  tool_call_delta_event, done_event, Failure, llm_error, other_error, Reply, returned, threw,
  Server, done, error,
}
use c_interface_discovery.Ask.Tools.{Toolbox}
use c_interface_discovery.Ask.Loop.{
  Action, yields, AskOptions, is_aborted, caught, end_of_stream, streaming, final_turn, answer,
  answer_after, after_result, after_reply, call_events, run_calls, tool_rounds, ask,
}

-- The events after which nothing follows.
abbrev pub is_terminal : {Json : Type 0} → Action Json → Bool
is_terminal (yields done) = true
is_terminal (yields (error message kind)) = true
is_terminal _ = false

-- The last action is terminal, and no other one is.
unfoldable pub ends_once : {Json : Type 0} → List (Action Json) → Bool
ends_once [] = false
ends_once (a ∷ []) = is_terminal a
ends_once (a ∷ b ∷ tail) = not (is_terminal a) && ends_once (b ∷ tail)

module _ {Json : Type 0} (box : Toolbox Json) (server : Server) where
  ends_once-step :
      (a : Action Json) (tail : List (Action Json))
      → is_terminal a ≡ false
      → ends_once tail ≡ true
      → ends_once (a ∷ tail) ≡ true
  unfolding ends_once
  ends_once-step a [] h e = absurd (cc e)
  ends_once-step a (b ∷ tail) h e = rw h e

  caught_ends : (f : Failure) → ends_once (caught box server f) ≡ true
  unfolding caught ends_once
  caught_ends (llm_error kind m) = elim (Bool-cases (is_aborted kind)) [
    | inl e ↦ rw (e, ends_once) refl
    | inr e ↦ rw (e, ends_once) refl
  ]
  caught_ends (other_error m) = refl

  end_of_stream_ends :
      (saw : Bool) (o : Option Failure) → ends_once (end_of_stream box server saw o) ≡ true
  unfolding end_of_stream ends_once
  end_of_stream_ends saw (some f) = caught_ends f
  end_of_stream_ends true none = refl
  end_of_stream_ends false none = refl

  streaming_ends :
      (es : List StreamEvent) (saw : Bool) (o : Option Failure)
      → ends_once (streaming box server es saw o) ≡ true
  unfolding streaming
  streaming_ends [] saw o = end_of_stream_ends saw o
  streaming_ends (content_event d ∷ es) saw o = ends_once-step _ _ refl (streaming_ends es true o)
  streaming_ends (reasoning_event d ∷ es) saw o = ends_once-step _ _ refl (streaming_ends es saw o)
  streaming_ends (tool_call_delta_event ∷ es) saw o = streaming_ends es saw o
  streaming_ends (done_event ∷ es) saw o = streaming_ends es saw o

  final_turn_ends : (ms : List ChatMessage) → ends_once (final_turn box server ms) ≡ true
  unfolding final_turn
  final_turn_ends ms = ends_once-step _ _ refl (streaming_ends _ false _)

  answer_ends : (reason text : Text) → ends_once (answer_after box server reason text) ≡ true
  unfolding answer_after ends_once
  answer_ends [] text = refl
  answer_ends (c ∷ s) text = refl

  run_calls_ends :
      (calls : List ToolCall) (ms : List ChatMessage) (tail : List (Action Json))
      → ends_once tail ≡ true
      → ends_once ((run_calls box server calls ms).0 ++ tail) ≡ true
  unfolding run_calls call_events
  run_calls_ends [] ms tail h = h
  run_calls_ends (call ∷ calls) ms tail h =
      ends_once-step _ _ refl (ends_once-step _ _ refl (run_calls_ends calls _ tail h))

  after_result_ends :
      (next : List ChatMessage → List (Action Json)) (ms : List ChatMessage) (r : ChatResult)
      (calls : List ToolCall)
      → ((ns : List ChatMessage) → ends_once (next ns) ≡ true)
      → ends_once (after_result box server next ms r calls) ≡ true
  unfolding after_result answer
  after_result_ends next ms r [] h = elim (Bool-cases (trim r.content === [])) [
    | inl e ↦ rw e (final_turn_ends ms)
    | inr e ↦ rw e (answer_ends r.reasoning_content r.content)
  ]
  after_result_ends next ms r (c ∷ cs) h = run_calls_ends _ _ _ (h _)

  after_reply_ends :
      (next : List ChatMessage → List (Action Json)) (ms : List ChatMessage) (reply : Reply)
      → ((ns : List ChatMessage) → ends_once (next ns) ≡ true)
      → ends_once (after_reply box server next ms reply) ≡ true
  unfolding after_reply
  after_reply_ends next ms (threw f) h = caught_ends f
  after_reply_ends next ms (returned r) h = after_result_ends next ms r r.tool_calls h

  tool_rounds_ends :
      (left : ℕ) (ms : List ChatMessage) → ends_once (tool_rounds box server left ms) ≡ true
  unfolding tool_rounds
  tool_rounds_ends zero ms = final_turn_ends _
  tool_rounds_ends (suc left) ms =
      ends_once-step _ _ refl
        (ends_once-step _ _ refl (after_reply_ends _ ms _ (tool_rounds_ends left)))

  -- Whatever the server replies or throws and whatever the tools do, the events of a question end:
  -- the last action is the event `done` or an `error`, and no event of these comes before.
  pub ask-ends_once : (opts : AskOptions) → ends_once (ask box server opts) ≡ true
  unfolding ask
  ask-ends_once opts = ends_once-step _ _ refl (tool_rounds_ends _ _)
