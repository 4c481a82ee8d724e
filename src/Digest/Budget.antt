-- ===== src/Digest/Budget.antt =====
-- The budget of src/llm/digest.ts: what of the sections is shown, what is withheld, and the notice.
use c_interface_discovery.Prelude.{
  ℕ, zero, suc, ◌+◌, ◌-◌, ◌*◌, ◌/◌, min, max, Text, List, [], ◌∷◌, ◌++◌, map, Option, none, some,
  ◌&&◌, codes, leb, ltb, length, if◌then◌else◌,
}
use c_interface_discovery.Prelude.Words.{show}
use c_interface_discovery.Composition.Summary.{join_with}

pub data Reason : Type 0 where
  budget relevance : Reason

pub record DigestOmission : Type 0 where
  pub tier : ℕ
  pub section : Text
  pub count : ℕ
  pub reason : Reason
  pub retrievable_via : Text

pub record Overflow : Type 0 where
  pub count : ℕ
  pub via : Text

-- `lines` is the heading and the entries.
pub record Section : Type 0 where
  pub tier : ℕ
  pub name : Text
  pub heading : Text
  pub entries : List Text
  pub overflow : Option Overflow
  pub retrievable_via : Text

-- `Math.ceil(text.length / 3.5)`
unfoldable pub estimate_tokens : Text → ℕ
estimate_tokens text = (2 * length text + 6) / 7

-- `lines.join('\n')`
unfoldable pub join_lines : List Text → Text
join_lines lines = join_with (10 ∷ []) lines

-- `${lines.join('\n')}\n`
unfoldable pub body_of : Text → List Text → Text
body_of heading entries = join_lines (heading ∷ entries) ++ 10 ∷ []

-- The variables of the loop over the sections.
pub record Fill : Type 0 where
  pub parts : List Text
  pub used : ℕ
  pub omitted : List DigestOmission

unfoldable pub omit_overflow : Section → Option Overflow → List DigestOmission
omit_overflow s none = []
omit_overflow s (some o) =
    record {
      tier = s.tier;
      section = s.name;
      count = o.count;
      reason = relevance;
      retrievable_via = o.via;
    }
    ∷ []

unfoldable pub withheld : Section → ℕ → DigestOmission
withheld s count = record {
  tier = s.tier;
  section = s.name;
  count = count;
  reason = budget;
  retrievable_via = s.retrievable_via;
}

-- The loop over the entries: those kept, and the cursor behind them.
unfoldable pub fit : ℕ → ℕ → List Text → List Text × ℕ
fit fill_budget cursor [] = ([], cursor)
fit fill_budget cursor (line ∷ lines) =
    let next = cursor + estimate_tokens (line ++ 10 ∷ []) in
    let (kept, after) = fit fill_budget next lines in
    if ltb fill_budget next then ([], cursor) else (line ∷ kept, after)

-- A section that fits whole.
unfoldable pub show_whole : Section → Fill → Fill
show_whole s st = record {
  parts = st.parts ++ body_of s.heading s.entries ∷ [];
  used = st.used + estimate_tokens (body_of s.heading s.entries);
  omitted = st.omitted ++ omit_overflow s s.overflow;
}

-- `if (kept.length > 0) { … }`
unfoldable pub show_kept : Section → List Text × ℕ → Fill → Fill
show_kept s ([], cursor) st = st
show_kept s (line ∷ kept, cursor) st = record st {
  parts = st.parts ++ body_of s.heading (line ∷ kept) ∷ [];
  used = cursor;
}

unfoldable pub omit : List DigestOmission → Fill → Fill
omit omissions st = record st { omitted = st.omitted ++ omissions }

unfoldable pub show_partly : ℕ → Section → Fill → Fill
show_partly fill_budget s st =
    let fitted = fit fill_budget (st.used + estimate_tokens (s.heading ++ 10 ∷ [])) s.entries in
    omit (withheld s (length s.entries - length fitted.0) ∷ omit_overflow s s.overflow)
      (show_kept s fitted st)

unfoldable pub fill_section : ℕ → Section → Fill → Fill
fill_section fill_budget s st =
    if leb (st.used + estimate_tokens (body_of s.heading s.entries)) fill_budget
    then show_whole s st
    else show_partly fill_budget s st

unfoldable pub fill : ℕ → List Section → Fill → Fill
fill fill_budget [] st = st
fill fill_budget (s ∷ sections) st = fill fill_budget sections (fill_section fill_budget s st)

-- `Math.min(Math.max(80, Math.floor(budget * 0.1)), 400)`
unfoldable pub notional_reserve : ℕ → ℕ
notional_reserve budget_tokens = min (max 80 (budget_tokens / 10)) 400

unfoldable pub reason_text : Reason → Text
reason_text budget = codes "withheld to fit the context budget"
reason_text relevance = codes "excluded as unreferenced"

unfoldable pub omission_line : DigestOmission → Text
omission_line o =
    codes "- "
    ++ o.section
    ++ codes ": "
    ++ show o.count
    ++ codes " entries "
    ++ reason_text o.reason
    ++ codes " — retrieve via "
    ++ o.retrievable_via

-- The lines of the notice around those of the omissions.
unfoldable pub notice_lines : List Text → List Text
notice_lines omissions =
    []
    ∷ codes "## Context is partial"
    ∷ codes "These entries are not shown above. Use the named tool to retrieve any you need;"
    ∷ codes "do not assume something is absent because it is missing here."
    ∷ (omissions ++ [] ∷ [])

unfoldable pub notice_of : List Text → Text
notice_of omissions = join_lines (notice_lines omissions)

unfoldable pub init : List Text → List Text
init [] = []
init (line ∷ []) = []
init (line ∷ next ∷ lines) = line ∷ init (next ∷ lines)

-- `while (noticeLines.length > 5 && …) noticeLines.splice(noticeLines.length - 2, 1)`: each round
-- takes the last omission off, and the five lines around them stay.
unfoldable pub trim_notice : ℕ → ℕ → List Text → List Text
trim_notice zero reserve omissions = omissions
trim_notice (suc rounds) reserve omissions =
    let shorter = trim_notice rounds reserve (init omissions) in
    if ltb 0 (length omissions) && ltb reserve (estimate_tokens (notice_of omissions))
    then shorter
    else omissions

-- `if (omitted.length > 0) { … }`
unfoldable pub add_notice : ℕ → Fill → Fill
add_notice reserve st = elim st.omitted [
  | [] ↦ st
  | o ∷ omissions ↦
      let lines = map omission_line (o ∷ omissions) in
      let notice = notice_of (trim_notice (length lines) reserve lines) in
      record st { parts = st.parts ++ notice ∷ []; used = st.used + estimate_tokens notice }
]
