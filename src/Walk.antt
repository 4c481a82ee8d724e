-- ===== src/Walk.antt =====
-- The depth-first walk that src/analyzer/messageComposition.ts and src/analyzer/headerGenBundle.ts
-- write out: `if (seen.has(key)) return; seen.add(key); …`, with a call for each successor.
pub mod Fuel
pub mod Closed
pub mod Sound
pub mod Visits
pub mod Exact
use c_interface_discovery.Prelude.{ℕ, zero, suc, Text, List, [], ◌∷◌, ◌++◌, length, if◌then◌else◌}
use c_interface_discovery.Graph.{includes_text}

-- `seen`, and what the walk writes besides.
pub record Trail (O : Type 0) : Type 0 where
  pub seen : List Text
  pub out : O

-- What the body does behind the guard: a call of itself, or a write.
pub data Action (O : Type 0) : Type 0 where
  go : Text → Action O
  act : (O → O) → Action O

pub record Walker (O : Type 0) : Type 0 where
  pub key : Text → Text
  pub enter : Text → O → O
  pub actions : Text → List (Action O)

module _ {O : Type 0} where
  unfoldable pub write : (O → O) → Trail O → Trail O
  write change st = record { seen = st.seen; out = change st.out }

  unfoldable pub step : (Text → Trail O → Trail O) → Action O → Trail O → Trail O
  step call (go n) st = call n st
  step call (act change) st = write change st

  unfoldable pub run : (Text → Trail O → Trail O) → List (Action O) → Trail O → Trail O
  run call [] st = st
  run call (a ∷ more) st = run call more (step call a st)

  unfoldable pub mark : Walker O → Text → Trail O → Trail O
  mark w n st = record { seen = w.key n ∷ st.seen; out = w.enter n st.out }

  -- Each step down adds a key to `seen`.
  unfoldable pub walk : ℕ → Walker O → Text → Trail O → Trail O
  walk zero w n st = st
  walk (suc fuel) w n st =
      if includes_text st.seen (w.key n) then st else run (walk fuel w) (w.actions n) (mark w n st)

  -- Several walks, one after the other, with one `seen`.
  unfoldable pub walk_all : ℕ → Walker O → List Text → Trail O → Trail O
  walk_all fuel w [] st = st
  walk_all fuel w (n ∷ ns) st = walk_all fuel w ns (walk fuel w n st)
