-- ===== src/Digest.antt =====
-- `buildDigest` of src/llm/digest.ts: the part of an analysis that goes into the prompt.
pub mod Budget
pub mod Rows
pub mod Edges
pub mod Sections
pub mod Filling
pub mod Notice
pub mod Limit
pub mod Growth
pub mod Structs
pub mod Account
mod Tests
use c_interface_discovery.Prelude.{
  ℕ, suc, ◌+◌, ◌-◌, Text, List, [], ◌∷◌, ◌++◌, map, keep, Option, none, some, Bool, true, false,
  codes, leb, length, ◌===◌, ◌&&◌, text_before, if◌then◌else◌,
}
use c_interface_discovery.Prelude.Words.{show}
use c_interface_discovery.Graph.{push_new, is_producer, is_consumer}
use c_interface_discovery.Layout.Primitives.{Target, bit32, bit64}
use c_interface_discovery.Roles.Report.{sort_by}
use c_interface_discovery.Composition.Summary.{join_with}
use c_interface_discovery.Digest.Budget.{
  DigestOmission, Fill, budget, estimate_tokens, join_lines, fill, notional_reserve, add_notice,
}
use c_interface_discovery.Digest.Rows.{
  Message, StringAnalysis, ScopedApp, DigestScope, app, all_apps, message, flat_map,
}
use c_interface_discovery.Digest.Edges.{produces, consumes}
use c_interface_discovery.Digest.Sections.{build_sections}

pub record ApplicationGroup : Type 0 where
  pub id : Text
  pub name : Text
  pub analysis : Option StringAnalysis

pub record DigestOptions : Type 0 where
  pub budget_tokens : ℕ
  pub scope : DigestScope

pub record AnalysisDigest : Type 0 where
  pub text : Text
  pub estimated_tokens : ℕ
  pub omitted : List DigestOmission
  pub app_names : List Text

unfoldable pub scoped_app : Text → Text → Option StringAnalysis → List ScopedApp
scoped_app id name none = []
scoped_app id name (some analysis) = record { id = id; name = name; analysis = analysis } ∷ []

unfoldable pub is_in : DigestScope → ScopedApp → Bool
is_in (app id) a = a.id === id
is_in all_apps a = true
is_in (message id constant) a = a.id === id

unfoldable pub resolve_scope : List ApplicationGroup → DigestScope → List ScopedApp
resolve_scope apps scope =
    keep (is_in scope) (flat_map (λ a. scoped_app a.id a.name a.analysis) apps)

-- The constants of the messages in which some file has a role, each once.
unfoldable pub constants : (Message → Bool) → List Message → List Text → List Text
constants takes_part [] set = set
constants takes_part (m ∷ ms) set =
    constants takes_part ms (if takes_part m then push_new set m.constant else set)

unfoldable pub target_text : Option Target → Text
target_text (some bit32) = codes "32bit"
target_text _ = codes "64bit"

unfoldable pub inventory_line : ScopedApp → Text
inventory_line a =
    codes "- "
    ++ a.name
    ++ codes ": "
    ++ show (length a.analysis.files)
    ++ codes " source files, "
    ++ show (length a.analysis.messages)
    ++ codes " message interfaces, "
    ++ show (length a.analysis.type_dict.structs)
    ++ codes " structs | layout target "
    ++ target_text a.analysis.layout_target

-- `if (set.size) detail.push(…)`
unfoldable pub detail_line : Text → List Text → List Text
detail_line label [] = []
detail_line label (c ∷ set) = (label ++ join_with (codes ", ") (sort_by text_before (c ∷ set))) ∷ []

unfoldable pub detail_of : ScopedApp → List Text
detail_of a =
    detail_line (codes "    produces: ") (constants produces a.analysis.messages [])
    ++ detail_line (codes "    consumes: ") (constants consumes a.analysis.messages [])

unfoldable pub detail_omission : ℕ → DigestOmission
detail_omission count = record {
  tier = 1;
  section = codes "APPLICATION PRODUCE/CONSUME LISTS";
  count = count;
  reason = budget;
  retrievable_via = codes "getCrossAppEdges";
}

-- The header behind the inventory, and whether the details were omitted.
unfoldable pub with_detail : ℕ → List Text → List Text → List Text × List DigestOmission
with_detail budget_tokens header [] = (header, [])
with_detail budget_tokens header (d ∷ detail) =
    if leb (estimate_tokens (join_lines (header ++ d ∷ detail))) budget_tokens
    then (header ++ d ∷ detail, [])
    else (header, detail_omission (length (d ∷ detail)) ∷ [])

unfoldable pub scope_lines : DigestScope → List Text
scope_lines (message id constant) = [] ∷ (codes "Scoped to message " ++ constant ++ codes ".") ∷ []
scope_lines _ = []

unfoldable pub header_of : List ScopedApp → DigestOptions → List Text × List DigestOmission
header_of scoped opts =
    let (lines, omitted) =
      with_detail opts.budget_tokens
        (codes "# C interface analysis" ∷ [] ∷ codes "## Applications" ∷ map inventory_line scoped)
        (flat_map detail_of scoped) in
    (lines ++ scope_lines opts.scope, omitted)

unfoldable pub header_text : List ScopedApp → DigestOptions → Text
header_text scoped opts = join_lines (header_of scoped opts).0 ++ 10 ∷ []

unfoldable pub start : List ScopedApp → DigestOptions → Fill
start scoped opts = record {
  parts = header_text scoped opts ∷ [];
  used = estimate_tokens (header_text scoped opts);
  omitted = (header_of scoped opts).1;
}

unfoldable pub digest_of : Text → List DigestOmission → List ScopedApp → AnalysisDigest
digest_of text omitted scoped = record {
  text = text;
  estimated_tokens = estimate_tokens text;
  omitted = omitted;
  app_names = map (λ a. a.name) scoped;
}

unfoldable pub nothing_in_scope : Text
nothing_in_scope =
    join_lines
      (codes "# C interface analysis" ∷ [] ∷ codes "No analyzed applications in scope." ∷ [])

module _ (locale_before : Text → Text → Bool) where
  -- The loop over the sections, before the notice.
  unfoldable pub filled : List ScopedApp → DigestOptions → Fill
  filled scoped opts =
      fill (opts.budget_tokens - notional_reserve opts.budget_tokens)
        (build_sections locale_before scoped opts.scope) (start scoped opts)

  unfoldable pub assemble : List ScopedApp → DigestOptions → AnalysisDigest
  assemble [] opts = digest_of nothing_in_scope [] []
  assemble (a ∷ scoped) opts =
      let st = filled (a ∷ scoped) opts in
      digest_of (join_lines (add_notice (notional_reserve opts.budget_tokens) st).parts) st.omitted
        (a ∷ scoped)

  unfoldable pub build_digest : List ApplicationGroup → DigestOptions → AnalysisDigest
  build_digest apps opts = assemble (resolve_scope apps opts.scope) opts
