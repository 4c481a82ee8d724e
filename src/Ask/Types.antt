-- ===== src/Ask/Types.antt =====
-- src/llm/types.ts: the messages and replies of the server, as far as the ask loop reads them, and
-- the events of src/llm/conversation.ts.
use c_interface_discovery.Prelude.{Text, List, Option, Bool}

pub data ChatRole : Type 0 where
  system user assistant tool : ChatRole

-- `function.name` and `function.arguments` are fields of the call itself.
pub record ToolCall : Type 0 where
  pub id : Text
  pub name : Text
  pub arguments : Text

pub record ChatMessage : Type 0 where
  pub role : ChatRole
  pub content : Option Text
  pub tool_calls : Option (List ToolCall)
  pub tool_call_id : Option Text
  pub name : Option Text

pub record ChatResult : Type 0 where
  pub content : Text
  pub reasoning_content : Text
  pub tool_calls : List ToolCall

pub data StreamEvent : Type 0 where
  content_event reasoning_event : Text → StreamEvent
  tool_call_delta_event done_event : StreamEvent

pub data ErrorKind : Type 0 where
  network http protocol aborted timeout config : ErrorKind

-- What a call can throw: an `LlmError`, or anything else with its message.
pub data Failure : Type 0 where
  llm_error : ErrorKind → Text → Failure
  other_error : Text → Failure

pub data Reply : Type 0 where
  returned : ChatResult → Reply
  threw : Failure → Reply

-- A streamed reply: the events, and what is thrown after the last of them, if anything.
pub record Stream : Type 0 where
  pub events : List StreamEvent
  pub failure : Option Failure

-- The server, behind `chat` and `chatStream`: any reply to any messages. The messages of one question
-- only grow, so that a server whose replies vary is covered.
pub record Server : Type 0 where
  pub chat : List ChatMessage → Reply
  pub chat_stream : List ChatMessage → Stream

pub record ToolExecution (Json : Type 0) : Type 0 where
  pub name : Text
  pub args : Json
  pub result : Json
  pub failed : Bool

pub record ToolTraceEntry (Json : Type 0) : Type 0 where
  pub label : Text
  pub execution : ToolExecution Json

pub data AskEvent (Json : Type 0) : Type 0 where
  digest reasoning content tool_start : Text → AskEvent Json
  tool_result : ToolTraceEntry Json → AskEvent Json
  thinking done : AskEvent Json
  error : Text → Text → AskEvent Json
