-- ===== src/Pack/Replay.antt =====
-- `buildPackMap`: the pack value in effect at each line, from the directives replayed once.
pub mod Lookup
pub mod Values
pub mod Nesting
use c_interface_discovery.Prelude.{
  ℕ, ltb, Text, List, [], ◌∷◌, Option, none, some, Bool, true, false, if◌then◌else◌,
}
use c_interface_discovery.Pack.Pragma.{
  Kind, set, push, pop, reset, PackDirective, scan_pack_pragmas,
}

-- `stack` and `current`; the top of the stack is the head of the list.
pub record PackState : Type 0 where
  pub stack : List (Option ℕ)
  pub current : Option ℕ

abbrev pub start : PackState
start = record { stack = []; current = none }

-- `if (d.value !== undefined) current = d.value`
unfoldable pub or_keep : Option ℕ → Option ℕ → Option ℕ
or_keep none current = current
or_keep (some n) current = some n

-- `stack.length > 0 ? stack.pop() : undefined`
unfoldable pub pop_state : List (Option ℕ) → PackState
pop_state [] = record { stack = []; current = none }
pop_state (top ∷ stack) = record { stack = stack; current = top }

-- The `switch` of the loop.
unfoldable pub step_kind : Kind → Option ℕ → PackState → PackState
step_kind set value s = record s { current = value }
step_kind reset value s = record s { current = none }
step_kind push value s = record { stack = s.current ∷ s.stack; current = or_keep value s.current }
step_kind pop value s = pop_state s.stack

unfoldable pub step : PackDirective → PackState → PackState
step d s = step_kind d.kind d.value s

pub record Checkpoint : Type 0 where
  pub line : ℕ
  pub value : Option ℕ

-- The loop over the directives.
unfoldable pub replay : List PackDirective → PackState → List Checkpoint
replay [] s = []
replay (d ∷ ds) s = let s' = step d s in record { line = d.line; value = s'.current } ∷ replay ds s'

-- The returned function's loop, with its `break` at the first checkpoint behind the line.
unfoldable pub value_at : List Checkpoint → Option ℕ → ℕ → Option ℕ
value_at [] value line = value
value_at (cp ∷ cps) value line =
    let rest = value_at cps cp.value line in if ltb line cp.line then value else rest

unfoldable pub pack_map : List PackDirective → ℕ → Option ℕ
pack_map [] line = none
pack_map (d ∷ ds) line = value_at (replay (d ∷ ds) start) none line

unfoldable pub build_pack_map : Text → ℕ → Option ℕ
build_pack_map content = pack_map (scan_pack_pragmas content)
