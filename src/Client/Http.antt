-- ===== src/Client/Http.antt =====
-- The requests of src/llm/client.ts and the errors that it makes of what the network answers.
use c_interface_discovery.Prelude.{
  ℕ, Text, List, [], ◌∷◌, ◌++◌, reverse, Option, none, some, Bool, true, false, ◌||◌, ◌==◌, ◌===◌,
  codes, take, trim, if◌then◌else◌,
}
use c_interface_discovery.Prelude.Words.{show}
use c_interface_discovery.Ask.Types.{ChatMessage, network, http, aborted, timeout, config}
use c_interface_discovery.Client.Values.{
  Json, null, str, Outcome, ok, throws, Thrown, llm_thrown, other_thrown, LlmError, llm_error_of,
  Runtime, prop, is_truthy, or_object,
}

pub data Thinking : Type 0 where
  off auto : Thinking

-- src/llm/config.ts, as far as the client reads it; numbers that are only passed on are texts.
pub record LlmConfig : Type 0 where
  pub enabled : Bool
  pub base_url : Text
  pub model : Text
  pub api_key : Text
  pub temperature : Text
  pub max_tokens : Text
  pub thinking : Thinking

pub data ToolChoice : Type 0 where
  choose choose_none required : ToolChoice

pub record ChatOptions : Type 0 where
  pub messages : List ChatMessage
  pub tools : Option (List Json)
  pub tool_choice : Option ToolChoice
  pub response_format : Option Json
  pub temperature : Option Text
  pub max_tokens : Option Text
  pub thinking : Option Thinking

-- `thinking_off` says that `chat_template_kwargs` is `{ enable_thinking: false }`.
pub record ChatRequest : Type 0 where
  pub model : Text
  pub messages : List ChatMessage
  pub temperature : Text
  pub max_tokens : Text
  pub stream : Bool
  pub tools : Option (List Json)
  pub tool_choice : Option ToolChoice
  pub response_format : Option Json
  pub thinking_off : Bool

-- `a ?? b`
unfoldable pub or_else {ℓ} : {A : Type ℓ} → Option A → A → A
or_else none b = b
or_else (some a) b = a

unfoldable pub is_off : Thinking → Bool
is_off off = true
is_off auto = false

unfoldable pub only_none : Option ToolChoice → Option ToolChoice
only_none (some choose_none) = some choose_none
only_none _ = none

-- `if (opts.tools && opts.tools.length > 0) … else if (opts.toolChoice === 'none') …`
unfoldable pub tools_part :
    Option (List Json) → Option ToolChoice → Option (List Json) × Option ToolChoice
tools_part (some (t ∷ tools)) choice = (some (t ∷ tools), some (or_else choice choose))
tools_part _ choice = (none, only_none choice)

unfoldable pub build_request : LlmConfig → ChatOptions → Bool → ChatRequest
build_request cfg opts stream =
    let (tools, choice) = tools_part opts.tools opts.tool_choice in
    record {
      model = cfg.model;
      messages = opts.messages;
      temperature = or_else opts.temperature cfg.temperature;
      max_tokens = or_else opts.max_tokens cfg.max_tokens;
      stream = stream;
      tools = tools;
      tool_choice = choice;
      response_format = opts.response_format;
      thinking_off = is_off (or_else opts.thinking cfg.thinking);
    }

unfoldable pub assert_configured : LlmConfig → Outcome (Unit {0})
assert_configured cfg =
    if cfg.enabled
    then (if trim cfg.model === []
        then throws (llm_thrown (llm_error_of (codes "No model selected") config))
        else ok tt)
    else throws (llm_thrown (llm_error_of (codes "LLM integration is disabled") config))

-- `s.replace(/^\/+/, '')`, and `s.replace(/\/+$/, '')`
unfoldable pub strip_slashes : Text → Text
strip_slashes [] = []
strip_slashes (c ∷ s) = let rest = strip_slashes s in if c == b'/' then rest else c ∷ s

unfoldable pub join_url : Text → Text → Text
join_url base path = reverse (strip_slashes (reverse base)) ++ b'/' ∷ strip_slashes path

-- The headers, by name.
unfoldable pub auth_headers : LlmConfig → List (Text × Text)
auth_headers cfg =
    let key = trim cfg.api_key in
    (codes "Content-Type", codes "application/json")
    ∷ (if key === [] then [] else (codes "Authorization", codes "Bearer " ++ key) ∷ [])

-- `classifyAbort`; `cancelled` says whether the caller's signal is aborted.
unfoldable pub classify_abort : Bool → Text → Text → LlmError
classify_abort cancelled name message =
    if cancelled
    then llm_error_of (codes "Request cancelled") aborted
    else if name === codes "AbortError" || name === codes "TimeoutError"
    then llm_error_of (codes "Request timed out") timeout
    else llm_error_of message network

-- The `catch` block of the calls.
unfoldable pub caught : Bool → Thrown → LlmError
caught cancelled (llm_thrown e) = e
caught cancelled (other_thrown name message) = classify_abort cancelled name message

unfoldable pub or_http : Text → ℕ → Text
or_http [] status = codes "HTTP " ++ show status
or_http (c ∷ s) status = codes "HTTP " ++ show status ++ codes ": " ++ (c ∷ s)

unfoldable pub fallback_message : Text → ℕ → Text
fallback_message body_text status = or_http (take 200 (trim body_text)) status

unfoldable pub plain_message : Runtime → Json → Text → Text
plain_message rt parsed fallback =
    let message = prop parsed (codes "message") in
    if is_truthy message then rt.text_of (or_object message) else fallback

-- `parsed.error?.message` where the error is no text
unfoldable pub nested_message : Runtime → Json → Option Json → Text → Text
nested_message rt parsed (some (str message)) fallback = message
nested_message rt parsed err fallback =
    let message = prop (or_object err) (codes "message") in
    if is_truthy message then rt.text_of (or_object message) else plain_message rt parsed fallback

-- The `try` block; a body that is not JSON, or null, is caught.
unfoldable pub message_in : Runtime → Option Json → Text → Text
message_in rt none fallback = fallback
message_in rt (some null) fallback = fallback
message_in rt (some parsed) fallback =
    nested_message rt parsed (prop parsed (codes "error")) fallback

unfoldable pub extract_error_message : Runtime → Text → ℕ → Text
extract_error_message rt body_text status =
    message_in rt (rt.parse body_text) (fallback_message body_text status)

-- `throwForStatus`, with the text of the body, empty where it cannot be read
unfoldable pub status_error : Runtime → Text → ℕ → LlmError
status_error rt body_text status = record {
  message = extract_error_message rt body_text status;
  kind = http;
  status = some status;
  detail = some (take 2000 body_text);
}
