-- ===== src/Ask/Tests.antt =====
-- Questions to a server that asks for one lookup and then streams.
use c_interface_discovery.Prelude.{
  Text, List, [], ◌∷◌, none, some, true, false, ◌===◌, ◌≡◌, refl, codes, trim,
}
use c_interface_discovery.Ask.Types.{
  ToolCall, ChatMessage, content_event, done_event, Reply, returned, Server,
}
use c_interface_discovery.Ask.Tools.{Toolbox}
use c_interface_discovery.Ask.Loop.{
  AskOptions, end_of_stream, streaming, final_turn, after_result, after_reply, call_events,
  run_calls, tool_rounds, ask,
}
use c_interface_discovery.Ask.Tools.{result}
use c_interface_discovery.Ask.Ending.{ends_once, ask-ends_once}
use c_interface_discovery.Ask.Bounds.{Within, ask-Within}
use c_interface_discovery.Ask.Pairing.{IsPaired, SendsPaired, pending_after, ask-SendsPaired}

-- JSON as its text.
abbrev box : Toolbox Text
box = record {
  parse = λ text. some text;
  is_object = λ json. true;
  no_arguments = codes "{}";
  has_error = λ json. false;
  err = λ message hint. message;
  executor = λ name. some (λ args. result (codes "4"));
  names = codes "size";
  label = λ name args. none;
  stringify = λ json. json;
}

abbrev lookup : ToolCall
lookup = record { id = codes "c1"; name = codes "size"; arguments = codes "{}" }

abbrev chat_once : List ChatMessage → Reply
chat_once (first ∷ second ∷ []) =
    returned (record { content = []; reasoning_content = []; tool_calls = lookup ∷ [] })
chat_once _ = returned (record { content = []; reasoning_content = []; tool_calls = [] })

abbrev server : Server
server = record {
  chat = chat_once;
  chat_stream =
      λ ms. record { events = content_event (codes "4 bytes") ∷ done_event ∷ []; failure = none };
}

abbrev opts : AskOptions
opts = record { system_prompt = []; digest_text = []; question = codes "size?"; history = [] }

asked : ends_once (ask box server opts) ≡ true
unfolding ask tool_rounds after_reply after_result run_calls call_events final_turn streaming
    end_of_stream ends_once trim ◌===◌
asked = refl

ask-ends_once_example : ends_once (ask box server opts) ≡ true
ask-ends_once_example = ask-ends_once box server opts

ask-Within_example : Within 6 1 60 (ask box server opts)
ask-Within_example = ask-Within box server opts

no_history : IsPaired []
unfolding pending_after
no_history = refl

ask-SendsPaired_example : SendsPaired (ask box server opts)
ask-SendsPaired_example = ask-SendsPaired box server opts no_history
