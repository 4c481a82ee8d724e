-- ===== src/Ask/Answers.antt =====
-- When src/llm/conversation.ts says that a question is done.
use c_interface_discovery.Prelude.{List, [], ◌∷◌, Option, none, some, Bool, true, false, ◌≡◌}
use c_interface_discovery.Ask.Types.{
  ChatMessage, Failure, llm_error, other_error, Reply, returned, threw, Server, content, done,
}
use c_interface_discovery.Ask.Loop.{Action, yields, is_aborted}

-- Each event `done` comes behind an event with answer text; `answered` says whether there was one.
abbrev pub IsHonest : {Json : Type 0} → Bool → List (Action Json) → Type 0
IsHonest answered [] = Unit
IsHonest answered (yields done ∷ rest) = (answered ≡ true) × IsHonest answered rest
IsHonest answered (yields (content text) ∷ rest) = IsHonest true rest
IsHonest answered (_ ∷ rest) = IsHonest answered rest

abbrev pub NotAborted : Failure → Type 0
NotAborted (llm_error kind message) = is_aborted kind ≡ false
NotAborted (other_error message) = Unit

abbrev pub NotAbortedReply : Reply → Type 0
NotAbortedReply (threw f) = NotAborted f
NotAbortedReply (returned r) = Unit

abbrev pub NotAbortedStream : Option Failure → Type 0
NotAbortedStream none = Unit
NotAbortedStream (some f) = NotAborted f

-- No call of the server is aborted by the user.
pub record NeverAborted (server : Server) : Type 0 where
  pub chat : (ms : List ChatMessage) → NotAbortedReply (server.chat ms)
  pub stream : (ms : List ChatMessage) → NotAbortedStream (server.chat_stream ms).failure
