-- ===== src/Ask/Tools.antt =====
-- `executeTool` of src/llm/tools.ts, for any table of executors. JSON values and their parser are
-- parameters.
use c_interface_discovery.Prelude.{
  Text, [], ◌∷◌, ◌++◌, Option, none, some, Bool, true, ◌===◌, codes, trim, take, if◌then◌else◌,
}
use c_interface_discovery.Ask.Types.{ToolExecution}

-- What an executor does with its arguments: a result, or a thrown error's message.
pub data Outcome (Json : Type 0) : Type 0 where
  result : Json → Outcome Json
  thrown : Text → Outcome Json

-- `is_object` is `parsed && typeof parsed === 'object' && !Array.isArray(parsed)`, `has_error` the
-- test for the member `error`, `err` the error value of a message and a hint, and `executor` the
-- table `EXECUTORS` with its context. `label` is `describeCall` of a name and the arguments parsed,
-- `none` where parsing throws, and `stringify` is `JSON.stringify`.
pub record Toolbox (Json : Type 0) : Type 0 where
  pub parse : Text → Option Json
  pub is_object : Json → Bool
  pub no_arguments : Json
  pub has_error : Json → Bool
  pub err : Text → Option Text → Json
  pub executor : Text → Option (Json → Outcome Json)
  pub names : Text
  pub label : Text → Text → Option Text
  pub stringify : Json → Text

module _ {Json : Type 0} (box : Toolbox Json) where
  -- The arguments of a call, `none` where they are no JSON.
  unfoldable pub arguments_of : Text → Option Json
  arguments_of raw = if trim raw === [] then some box.no_arguments else (elim (box.parse raw) [
    | none ↦ none
    | some parsed ↦ some (if box.is_object parsed then parsed else box.no_arguments)
  ])

  unfoldable pub execution_of : Text → Json → Outcome Json → ToolExecution Json
  execution_of name args (result value) = record {
    name = name;
    args = args;
    result = value;
    failed = box.has_error value;
  }
  execution_of name args (thrown message) = record {
    name = name;
    args = args;
    result = box.err (name ++ (codes " failed: " ++ message)) none;
    failed = true;
  }

  unfoldable pub run_executor : Text → Json → Option (Json → Outcome Json) → ToolExecution Json
  run_executor name args none = record {
    name = name;
    args = args;
    result =
        box.err (codes "Unknown tool " ++ (34 ∷ (name ++ 34 ∷ codes ".")))
          (some (codes "Available: " ++ box.names));
    failed = true;
  }
  run_executor name args (some exec) = execution_of name args (exec args)

  unfoldable pub execute_tool : Text → Text → ToolExecution Json
  execute_tool name raw = elim (arguments_of raw) [
    | some args ↦ run_executor name args (box.executor name)
    | none ↦ record {
      name = name;
      args = box.no_arguments;
      result = box.err (codes "Arguments for " ++ (name ++ codes " were not valid JSON.")) (
          some (
            codes "Received: "
            ++ (take 200 raw ++ codes ". Re-issue the call with a JSON object.")));
      failed = true;
    }
  ]
