-- ===== src/Ask/Loop.antt =====
-- `ask` of src/llm/conversation.ts as the sequence of what it does: the events it yields and the
-- requests it sends. The digest of the analysis and the system prompt are texts of the options.
use c_interface_discovery.Prelude.{
  ℕ, zero, suc, Text, List, [], ◌∷◌, ◌++◌, Option, none, some, Bool, true, false, ◌===◌, codes,
  trim, take, if◌then◌else◌,
}
use c_interface_discovery.Ask.Types.{
  ChatRole, system, user, assistant, tool, ToolCall, ChatMessage, ChatResult, StreamEvent,
  content_event, reasoning_event, tool_call_delta_event, done_event, ErrorKind, network, http,
  protocol, aborted, timeout, config, Failure, llm_error, other_error, Reply, returned, threw,
  Server, AskEvent, digest, reasoning, content, tool_start, tool_result, thinking, done, error,
}
use c_interface_discovery.Ask.Tools.{Toolbox, execute_tool}

pub data Action (Json : Type 0) : Type 0 where
  yields : AskEvent Json → Action Json
  calls_chat calls_stream : List ChatMessage → Action Json

abbrev pub max_tool_rounds : ℕ
max_tool_rounds = 6

abbrev pub max_calls_per_round : ℕ
max_calls_per_round = 10

pub record AskOptions : Type 0 where
  pub system_prompt : Text
  pub digest_text : Text
  pub question : Text
  pub history : List ChatMessage

abbrev pub plain : ChatRole → Text → ChatMessage
plain role text = record {
  role = role;
  content = some text;
  tool_calls = none;
  tool_call_id = none;
  name = none;
}

-- `result.content || null`
unfoldable pub or_null : Text → Option Text
or_null [] = none
or_null (c ∷ s) = some (c ∷ s)

unfoldable pub assistant_message : ChatResult → List ToolCall → ChatMessage
assistant_message r calls = record {
  role = assistant;
  content = or_null r.content;
  tool_calls = some calls;
  tool_call_id = none;
  name = none;
}

unfoldable pub kind_text : ErrorKind → Text
kind_text network = codes "network"
kind_text http = codes "http"
kind_text protocol = codes "protocol"
kind_text aborted = codes "aborted"
kind_text timeout = codes "timeout"
kind_text config = codes "config"

-- `e.kind === 'aborted'`
unfoldable pub is_aborted : ErrorKind → Bool
is_aborted aborted = true
is_aborted _ = false

abbrev pub answer_now : ChatMessage
answer_now =
    plain user (codes "Answer now from what you have retrieved. Do not request more lookups.")

abbrev pub no_answer : Text
no_answer =
    codes
      "The model returned no answer text. It may have exhausted max_tokens on reasoning — try setting Thinking to off."

module _ {Json : Type 0} (box : Toolbox Json) (server : Server) where
  -- The `catch` block.
  unfoldable pub caught : Failure → List (Action Json)
  caught (llm_error kind message) =
      if is_aborted kind then yields done ∷ [] else yields (error message (kind_text kind)) ∷ []
  caught (other_error message) = yields (error message (codes "unknown")) ∷ []

  -- The loop over the stream, then the end of the turn; `saw_content` is the variable's value.
  unfoldable pub end_of_stream : Bool → Option Failure → List (Action Json)
  end_of_stream saw_content (some failure) = caught failure
  end_of_stream true none = yields done ∷ []
  end_of_stream false none = yields (error no_answer (codes "protocol")) ∷ []

  unfoldable pub streaming : List StreamEvent → Bool → Option Failure → List (Action Json)
  streaming [] saw_content failure = end_of_stream saw_content failure
  streaming (content_event delta ∷ events) saw_content failure =
      yields (content delta) ∷ streaming events true failure
  streaming (reasoning_event delta ∷ events) saw_content failure =
      yields (reasoning delta) ∷ streaming events saw_content failure
  streaming (tool_call_delta_event ∷ events) saw_content failure =
      streaming events saw_content failure
  streaming (done_event ∷ events) saw_content failure = streaming events saw_content failure

  unfoldable pub final_turn : List ChatMessage → List (Action Json)
  final_turn messages =
      let stream = server.chat_stream messages in
      calls_stream messages ∷ streaming stream.events false stream.failure

  -- The answer of a reply without tool calls.
  unfoldable pub answer_after : Text → Text → List (Action Json)
  answer_after [] text = yields (content text) ∷ yields done ∷ []
  answer_after (c ∷ s) text = yields (reasoning (c ∷ s)) ∷ yields (content text) ∷ yields done ∷ []

  unfoldable pub answer : ChatResult → List (Action Json)
  answer r = answer_after r.reasoning_content r.content

  -- The label of a call, with the fallback of its `catch`.
  unfoldable pub label_of : ToolCall → Text
  label_of call = elim (box.label call.name call.arguments) [
    | some label ↦ label
    | none ↦ call.name ++ codes "(?)"
  ]

  -- One round of the loop over the calls: the message pushed, and the events.
  unfoldable pub tool_message : ToolCall → ChatMessage
  tool_message call =
      let exec = execute_tool box call.name call.arguments in
      record {
        role = tool;
        content = some (box.stringify exec.result);
        tool_calls = none;
        tool_call_id = some call.id;
        name = some exec.name;
      }

  unfoldable pub call_events : ToolCall → List (Action Json)
  call_events call =
      yields (tool_start (label_of call))
      ∷ yields (
          tool_result (record {
            label = label_of call;
            execution = execute_tool box call.name call.arguments;
          }))
      ∷ []

  unfoldable pub run_calls :
      List ToolCall → List ChatMessage → List (Action Json) × List ChatMessage
  run_calls [] messages = ([], messages)
  run_calls (call ∷ calls) messages =
      let (actions, after) = run_calls calls (messages ++ tool_message call ∷ []) in
      (call_events call ++ actions, after)

  -- What follows a reply, where `continue` is the next round: the answer, the final turn, or the
  -- calls it asks for.
  unfoldable pub after_result :
      (List ChatMessage → List (Action Json))
      → List ChatMessage
      → ChatResult
      → List ToolCall
      → List (Action Json)
  after_result continue messages r [] =
      if trim r.content === [] then final_turn messages else answer r
  after_result continue messages r (first ∷ more) =
      let calls = take max_calls_per_round (first ∷ more) in
      let (actions, after) = run_calls calls (messages ++ assistant_message r calls ∷ []) in
      actions ++ continue after

  unfoldable pub after_reply :
      (List ChatMessage → List (Action Json)) → List ChatMessage → Reply → List (Action Json)
  after_reply continue messages (threw failure) = caught failure
  after_reply continue messages (returned r) = after_result continue messages r r.tool_calls

  -- The loop of the tool rounds, with the rounds left; behind the last one the model is told to answer.
  unfoldable pub tool_rounds : ℕ → List ChatMessage → List (Action Json)
  tool_rounds zero messages = final_turn (messages ++ answer_now ∷ [])
  tool_rounds (suc left) messages =
      yields thinking
      ∷ calls_chat messages
      ∷ after_reply (tool_rounds left) messages (server.chat messages)

  unfoldable pub ask : AskOptions → List (Action Json)
  ask opts =
      yields (digest opts.digest_text)
      ∷ tool_rounds max_tool_rounds (
          plain system
            (opts.system_prompt ++ (10 ∷ 10 ∷ codes "---" ++ (10 ∷ 10 ∷ opts.digest_text)))
          ∷ (opts.history ++ plain user opts.question ∷ []))
