-- ===== src/Ask/Bounds.antt =====
-- How much one question of src/llm/conversation.ts asks of the server and of the tools.
use c_interface_discovery.Prelude.{
  ℕ, zero, suc, ◌+◌, ◌*◌, ◌≤◌, Text, List, [], ◌∷◌, ◌++◌, Option, none, some, Bool, true, false,
  ◌===◌, ◌≡◌, refl, trim, take, length, Bool-cases, inl, inr, arith,
}
use c_interface_discovery.Ask.Types.{
  ToolCall, ChatMessage, ChatResult, StreamEvent, content_event, reasoning_event,
  tool_call_delta_event, done_event, Failure, llm_error, other_error, Reply, returned, threw,
  Server, AskEvent, tool_result,
}
use c_interface_discovery.Ask.Tools.{Toolbox}
use c_interface_discovery.Ask.Loop.{
  Action, yields, calls_chat, calls_stream, AskOptions, is_aborted, caught, end_of_stream,
  streaming, final_turn, answer, answer_after, after_result, after_reply, call_events, tool_message,
  run_calls, tool_rounds, ask,
}

unfoldable pub chats : {Json : Type 0} → List (Action Json) → ℕ
chats [] = 0
chats (calls_chat ms ∷ rest) = suc (chats rest)
chats (calls_stream ms ∷ rest) = chats rest
chats (yields e ∷ rest) = chats rest

unfoldable pub streams : {Json : Type 0} → List (Action Json) → ℕ
streams [] = 0
streams (calls_stream ms ∷ rest) = suc (streams rest)
streams (calls_chat ms ∷ rest) = streams rest
streams (yields e ∷ rest) = streams rest

abbrev is_tool_result : {Json : Type 0} → AskEvent Json → ℕ
is_tool_result (tool_result entry) = 1
is_tool_result _ = 0

unfoldable pub tools : {Json : Type 0} → List (Action Json) → ℕ
tools [] = 0
tools (calls_stream ms ∷ rest) = tools rest
tools (calls_chat ms ∷ rest) = tools rest
tools (yields e ∷ rest) = is_tool_result e + tools rest

-- At most `c` tool rounds, `s` streams and `t` calls of tools.
pub record Within {Json : Type 0} (c s t : ℕ) (actions : List (Action Json)) : Type 0 where
  pub chats_le : chats actions ≤ c
  pub streams_le : streams actions ≤ s
  pub tools_le : tools actions ≤ t

Within-yields :
    {Json : Type 0} {c s t : ℕ} {rest : List (Action Json)} (e : AskEvent Json)
    → is_tool_result e ≡ 0
    → Within c s t rest
    → Within c s t (yields e ∷ rest)
unfolding chats streams tools
Within-yields e zero_e w = record {
  chats_le = w.chats_le;
  streams_le = w.streams_le;
  tools_le = omega (arith, zero_e, w.tools_le);
}

Within-nil : {Json : Type 0} → Within {Json = Json} 0 0 0 []
unfolding chats streams tools
Within-nil = record { chats_le = omega arith; streams_le = omega arith; tools_le = omega arith }

Within-le :
    {Json : Type 0} {c d s z t u : ℕ} {actions : List (Action Json)}
    → Within c s t actions
    → c ≤ d
    → s ≤ z
    → t ≤ u
    → Within d z u actions
Within-le w p q r = record {
  chats_le = omega (arith, w.chats_le, p);
  streams_le = omega (arith, w.streams_le, q);
  tools_le = omega (arith, w.tools_le, r);
}

length-take_le : {A : Type 0} (n : ℕ) (xs : List A) → length (take n xs) ≤ n
length-take_le zero xs = omega arith
length-take_le (suc n) [] = omega arith
length-take_le (suc n) (x ∷ xs) = omega (arith, length-take_le n xs)

module _ {Json : Type 0} (box : Toolbox Json) (server : Server) where
  caught-Within : (f : Failure) → Within 0 0 0 (caught box server f)
  unfolding caught
  caught-Within (llm_error kind m) = elim (Bool-cases (is_aborted kind)) [
    | inl e ↦ rw e (Within-yields _ refl Within-nil)
    | inr e ↦ rw e (Within-yields _ refl Within-nil)
  ]
  caught-Within (other_error m) = Within-yields _ refl Within-nil

  end_of_stream-Within :
      (saw : Bool) (o : Option Failure) → Within 0 0 0 (end_of_stream box server saw o)
  unfolding end_of_stream
  end_of_stream-Within saw (some f) = caught-Within f
  end_of_stream-Within true none = Within-yields _ refl Within-nil
  end_of_stream-Within false none = Within-yields _ refl Within-nil

  streaming-Within :
      (es : List StreamEvent) (saw : Bool) (o : Option Failure)
      → Within 0 0 0 (streaming box server es saw o)
  unfolding streaming
  streaming-Within [] saw o = end_of_stream-Within saw o
  streaming-Within (content_event d ∷ es) saw o = Within-yields _ refl (streaming-Within es true o)
  streaming-Within (reasoning_event d ∷ es) saw o = Within-yields _ refl (streaming-Within es saw o)
  streaming-Within (tool_call_delta_event ∷ es) saw o = streaming-Within es saw o
  streaming-Within (done_event ∷ es) saw o = streaming-Within es saw o

  final_turn-Within : (ms : List ChatMessage) → Within 0 1 0 (final_turn box server ms)
  unfolding final_turn chats streams tools
  final_turn-Within ms =
      let w =
        streaming-Within (server.chat_stream ms).events false (server.chat_stream ms).failure in
      record {
        chats_le = w.chats_le;
        streams_le = omega (arith, w.streams_le);
        tools_le = w.tools_le;
      }

  answer-Within : (reason text : Text) → Within 0 0 0 (answer_after box server reason text)
  unfolding answer_after
  answer-Within [] text = Within-yields _ refl (Within-yields _ refl Within-nil)
  answer-Within (c ∷ s) text =
      Within-yields _ refl (Within-yields _ refl (Within-yields _ refl Within-nil))

  run_calls-Within :
      (calls : List ToolCall) (ms : List ChatMessage) {c s t : ℕ} {rest : List (Action Json)}
      → Within c s t rest
      → Within c s (length calls + t) ((run_calls box server calls ms).0 ++ rest)
  unfolding run_calls call_events chats streams tools
  run_calls-Within [] ms w = Within-le w (omega arith) (omega arith) (omega arith)
  run_calls-Within (call ∷ calls) ms w =
      let v = run_calls-Within calls (ms ++ tool_message box server call ∷ []) w in
      record {
        chats_le = v.chats_le;
        streams_le = v.streams_le;
        tools_le = omega (arith, v.tools_le);
      }

  module _ (next : List ChatMessage → List (Action Json)) (c t : ℕ)
      (next-Within : (ns : List ChatMessage) → Within c 1 t (next ns)) where
    after_result-Within :
        (ms : List ChatMessage) (r : ChatResult) (calls : List ToolCall)
        → Within c 1 (10 + t) (after_result box server next ms r calls)
    unfolding after_result answer
    after_result-Within ms r [] = elim (Bool-cases (trim r.content === [])) [
      | inl e ↦ rw e (Within-le (final_turn-Within ms) (omega arith) (omega arith) (omega arith))
      | inr e ↦ rw e (
          Within-le (answer-Within r.reasoning_content r.content) (omega arith) (omega arith)
            (omega arith))
    ]
    after_result-Within ms r (first ∷ more) =
        Within-le (run_calls-Within _ _ (next-Within _)) (omega arith) (omega arith)
          (omega (arith, length-take_le 10 (first ∷ more)))

    after_reply-Within :
        (ms : List ChatMessage) (reply : Reply)
        → Within c 1 (10 + t) (after_reply box server next ms reply)
    unfolding after_reply
    after_reply-Within ms (threw f) =
        Within-le (caught-Within f) (omega arith) (omega arith) (omega arith)
    after_reply-Within ms (returned r) = after_result-Within ms r r.tool_calls

  tool_rounds-Within :
      (left : ℕ) (ms : List ChatMessage)
      → Within left 1 (left * 10) (tool_rounds box server left ms)
  unfolding tool_rounds chats streams tools
  tool_rounds-Within zero ms = final_turn-Within _
  tool_rounds-Within (suc left) ms =
      let w =
        after_reply-Within (tool_rounds box server left) left (left * 10) (tool_rounds-Within left)
          ms (server.chat ms) in
      record {
        chats_le = omega (arith, w.chats_le);
        streams_le = w.streams_le;
        tools_le = omega (arith, w.tools_le);
      }

  -- However the server replies, one question takes at most 6 tool rounds, 60 calls of tools and one
  -- streamed request.
  pub ask-Within : (opts : AskOptions) → Within 6 1 60 (ask box server opts)
  unfolding ask
  ask-Within opts = Within-yields _ refl (tool_rounds-Within _ _)
