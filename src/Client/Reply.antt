-- ===== src/Client/Reply.antt =====
-- `parseChatResponse` of src/llm/client.ts.
use c_interface_discovery.Prelude.{ℕ, suc, Text, List, [], ◌∷◌, ◌++◌, Option, none, some, codes}
use c_interface_discovery.Prelude.Words.{show}
use c_interface_discovery.Ask.Types.{ToolCall, ChatResult, protocol}
use c_interface_discovery.Client.Values.{
  Json, str, Outcome, ok, throws, ◌>>=◌, llm_thrown, llm_error_of, Runtime, prop, read, or_object,
  as_text, text_or_empty, as_array, first_choice, if_truthy,
}

-- A `ChatResult`, with the fields that the ask loop does not read.
pub record FullResult : Type 0 where
  pub result : ChatResult
  pub finish_reason : Option Text
  pub usage : Option Json

-- `typeof c.id === 'string' && c.id !== '' ? c.id : `call_${i}``
unfoldable pub id_or : ℕ → Text → Text
id_or i [] = codes "call_" ++ show i
id_or i (c ∷ id) = c ∷ id

-- `typeof fn.arguments === 'string' ? fn.arguments : JSON.stringify(fn.arguments ?? {})`
unfoldable pub arguments_of : Runtime → Option Json → Text
arguments_of rt (some (str s)) = s
arguments_of rt v = rt.stringify (or_object v)

-- A call whose name is not a text is left out.
unfoldable pub call_of : Runtime → ℕ → Json → Json → Option Text → List ToolCall
call_of rt i c fn none = []
call_of rt i c fn (some name) =
    record {
      id = id_or i (text_or_empty (prop c (codes "id")));
      name = name;
      arguments = arguments_of rt (prop fn (codes "arguments"));
    }
    ∷ []

unfoldable pub tool_calls_of : Runtime → ℕ → List Json → Outcome (List ToolCall)
tool_calls_of rt i [] = ok []
tool_calls_of rt i (c ∷ raws) = do
  f ← read c (codes "function")
  let fn = or_object f
  rest ← tool_calls_of rt (suc i) raws
  ok (call_of rt i c fn (as_text (prop fn (codes "name"))) ++ rest)

unfoldable pub result_of : Runtime → Option Json → Option Json → Outcome FullResult
result_of rt usage none =
    throws (llm_thrown (llm_error_of (codes "Response contained no choices") protocol))
result_of rt usage (some choice) =
    let message = or_object (prop choice (codes "message")) in
    tool_calls_of rt 0 (as_array (prop message (codes "tool_calls"))) >>= λ calls. ok (record {
      result = record {
        content = text_or_empty (prop message (codes "content"));
        reasoning_content = text_or_empty (prop message (codes "reasoning_content"));
        tool_calls = calls;
      };
      finish_reason = as_text (prop choice (codes "finish_reason"));
      usage = if_truthy usage;
    })

unfoldable pub parse_chat_response : Runtime → Json → Outcome FullResult
parse_chat_response rt body = do
  choices ← read body (codes "choices")
  result_of rt (prop body (codes "usage")) (first_choice choices)
