-- ===== src/Digest/Sections.antt =====
-- The sections of src/llm/digest.ts, tier by tier; the order of `localeCompare` is a parameter.
use c_interface_discovery.Prelude.{
  ℕ, ◌+◌, ◌-◌, Text, List, [], ◌∷◌, ◌++◌, map, keep, drop, Option, none, some, Bool, true, false,
  not, ◌||◌, ◌==◌, ◌===◌, codes, ltb, length, starts_with, text_before, if◌then◌else◌,
}
use c_interface_discovery.Prelude.Dict.{Dict, get, set}
use c_interface_discovery.Prelude.Words.{show}
use c_interface_discovery.Graph.{push_all}
use c_interface_discovery.Layout.Compute.{CStructLayout}
use c_interface_discovery.Roles.Types.{StructRoleInfo, Confidence, low, unresolved}
use c_interface_discovery.Roles.Report.{sort_by}
use c_interface_discovery.Composition.{MessageComposition}
use c_interface_discovery.Composition.Summary.{join_with, summarize_composition}
use c_interface_discovery.HeaderGen.{kind_text}
use c_interface_discovery.HeaderGen.Roots.{confidence_text}
use c_interface_discovery.Digest.Budget.{Section, Overflow}
use c_interface_discovery.Digest.Rows.{
  MsgDirection, Message, Payload, ScopedApp, DigestScope, direction_text, role_text, warning_text,
  or_text, message_row, struct_stub, prefix_of, flat_map, unknown, message,
}
use c_interface_discovery.Digest.Edges.{CrossAppEdge, cross_app_edges}

-- A section, if it has lines.
unfoldable pub section_of :
    ℕ → Text → Text → List Text → List Text → Option Overflow → Text → List Section
section_of tier name heading intro [] overflow via = []
section_of tier name heading intro (line ∷ lines) overflow via =
    record {
      tier = tier;
      name = name;
      heading = heading;
      entries = intro ++ line ∷ lines;
      overflow = overflow;
      retrievable_via = via;
    }
    ∷ []

unfoldable pub dashed : Text → Text
dashed line = codes "- " ++ line

-- Tier 2
unfoldable pub composition_map :
    List MessageComposition → Dict MessageComposition → Dict MessageComposition
composition_map [] d = d
composition_map (c ∷ cs) d = composition_map cs (set d c.constant c)

unfoldable pub in_scope : DigestScope → Message → Bool
in_scope (message id constant) m = m.constant === constant
in_scope _ m = true

unfoldable pub composition_line : Option MessageComposition → List Text
composition_line none = []
composition_line (some c) = (codes "    = " ++ summarize_composition c) ∷ []

unfoldable pub message_lines : DigestScope → Bool → ScopedApp → List Text
message_lines scope single a =
    let comps = composition_map a.analysis.compositions [] in
    flat_map
      (λ m.
        let comp = get comps m.constant in
        (prefix_of single a ++ drop 2 (message_row m comp)) ∷ composition_line comp)
      (keep (in_scope scope) a.analysis.messages)

-- `l.startsWith('    ') ? l : `- ${l}``
unfoldable pub unless_indented : Text → Text
unless_indented line = if starts_with line (codes "    ") then line else dashed line

unfoldable pub messages_section : DigestScope → Bool → List ScopedApp → List Section
messages_section scope single scoped =
    section_of 2 (codes "MESSAGE INTERFACES") (codes "## Message interfaces")
      (codes
          "constant = value | struct | direction | transport | size64/size32 | defined-in | P:producers C:consumers"
        ∷ codes
            "The `=` line under each is its composition: named parts are embedded structs, pad(n) is alignment."
        ∷ [])
      (map unless_indented (flat_map (message_lines scope single) scoped)) none
      (codes "searchMessages")

-- Tier 3
unfoldable pub edge_line : CrossAppEdge → Text
edge_line e =
    codes "- "
    ++ join_with (codes "/") e.producers
    ++ codes " -> "
    ++ join_with (codes "/") e.consumers
    ++ codes " : "
    ++ e.constant

unfoldable pub edges_section : Bool → List ScopedApp → List Section
edges_section single scoped =
    if ltb 1 (length scoped)
    then section_of 3 (codes "CROSS-APP FLOWS") (codes "## Cross-application message flows") []
        (map edge_line (keep (λ e. not e.unmatched) (cross_app_edges scoped none))) none
        (codes "getCrossAppEdges")
    else []

-- Tier 4
unfoldable pub size_map : List CStructLayout → Dict ℕ → Dict ℕ
size_map [] d = d
size_map (l ∷ ls) d = size_map ls (set d l.name l.total_size_bytes)

unfoldable pub is_relevant : StructRoleInfo → Bool
is_relevant r = not (role_text r.role === codes "orphan")

unfoldable pub stub_lines : Bool → ScopedApp → List Text
stub_lines single a =
    let size_of = size_map a.analysis.layouts [] in
    map (λ r. prefix_of single a ++ drop 2 (struct_stub r (get size_of r.name)))
      (keep is_relevant a.analysis.roles)

unfoldable pub stub_overflow : List ScopedApp → ℕ
stub_overflow [] = 0
stub_overflow (a ∷ apps) =
    (length a.analysis.roles - length (keep is_relevant a.analysis.roles)) + stub_overflow apps

unfoldable pub overflow_of : ℕ → Option Overflow
overflow_of n = if ltb 0 n then some (record { count = n; via = codes "getStructLayout" }) else none

unfoldable pub structs_section : Bool → List ScopedApp → List Section
structs_section single scoped =
    section_of 4 (codes "STRUCTS")
      (codes "## Structs (stubs — call getStructLayout for field offsets)") []
      (map dashed (flat_map (stub_lines single) scoped)) (overflow_of (stub_overflow scoped))
      (codes "getStructLayout")

-- Tier 5
unfoldable pub is_unknown : MsgDirection → Bool
is_unknown unknown = true
is_unknown _ = false

unfoldable pub message_doubts : Text → Message → List Text
message_doubts prefix m =
    (if not m.struct_resolved
      then (prefix ++ m.constant ++ codes ": struct not resolved") ∷ []
      else if is_unknown m.direction || not m.direction_confident
      then (prefix
          ++ m.constant
          ++ codes ": direction "
          ++ direction_text m.direction
          ++ codes " (not confident)")
        ∷ []
      else [])
    ++ (if m.incomplete
        then (prefix ++ m.constant ++ codes ": only one side found in loaded files") ∷ []
        else [])

unfoldable pub is_weak : Confidence → Bool
is_weak low = true
is_weak unresolved = true
is_weak _ = false

unfoldable pub payload_doubts : Text → Payload → List Text
payload_doubts prefix r =
    if is_weak r.confidence
    then (prefix
        ++ r.send_site_file
        ++ codes ":"
        ++ show r.send_site_line
        ++ codes " payload "
        ++ or_text r.resolved_struct_name (codes "?")
        ++ codes " ("
        ++ confidence_text r.confidence
        ++ codes ", "
        ++ r.strategy
        ++ codes ")")
      ∷ []
    else []

unfoldable pub unresolved_lines : Bool → ScopedApp → List Text
unresolved_lines single a =
    let prefix = prefix_of single a in
    flat_map (message_doubts prefix) a.analysis.messages
    ++ (flat_map (payload_doubts prefix) a.analysis.payloads
        ++ (map (λ r. prefix ++ codes "[" ++ kind_text r.kind ++ codes "] " ++ r.message)
              a.analysis.review
            ++ map (λ w. prefix ++ codes "[" ++ warning_text w.kind ++ codes "] " ++ w.message)
                a.analysis.warnings))

unfoldable pub unresolved_section : Bool → List ScopedApp → List Section
unresolved_section single scoped =
    section_of 5 (codes "UNRESOLVED") (codes "## Unresolved and uncertain") []
      (map dashed (flat_map (unresolved_lines single) scoped)) none (codes "getPayloadResolutions")

-- Tier 6
unfoldable pub or_zero : Option ℕ → ℕ
or_zero none = 0
or_zero (some n) = n

unfoldable pub count_calls : List Text → Dict ℕ → Dict ℕ
count_calls [] counts = counts
count_calls (call ∷ calls) counts =
    count_calls calls (set counts call (or_zero (get counts call) + 1))

module _ (locale_before : Text → Text → Bool) where
  -- The most frequent first, then by name.
  unfoldable pub ranks_before : Text × ℕ → Text × ℕ → Bool
  ranks_before (call, n) (other, k) =
      if ltb k n then true else if ltb n k then false else locale_before call other

  unfoldable pub unknown_lines : Bool → ScopedApp → List Text
  unknown_lines single a =
      map (λ e. prefix_of single a ++ e.0 ++ codes " (" ++ show e.1 ++ codes " sites)")
        (sort_by ranks_before (count_calls (flat_map (λ f. f.unknown_calls) a.analysis.files) []))

  unfoldable pub unknown_section : Bool → List ScopedApp → List Section
  unknown_section single scoped =
      section_of 6 (codes "UNMATCHED CALLS")
        (codes "## Unmatched calls (candidate messaging wrappers)") []
        (map dashed (flat_map (unknown_lines single) scoped)) none (codes "getUnknownCalls")

-- Tier 7
unfoldable pub ipc_line : Text → List Text → List Text
ipc_line prefix [] = []
ipc_line prefix (t ∷ types) =
    (prefix ++ codes "IPC mechanisms: " ++ join_with (codes ", ") (t ∷ types)) ∷ []

unfoldable pub misc_lines : Bool → ScopedApp → List Text
misc_lines single a =
    let prefix = prefix_of single a in
    flat_map
      (λ f.
        map (λ r. prefix ++ f.filename ++ codes ": [" ++ r.severity ++ codes "] " ++ r.msg) f.risks)
      a.analysis.files
    ++ ipc_line prefix (sort_by text_before (push_all [] (flat_map (λ f. f.ipc) a.analysis.files)))

unfoldable pub misc_section : Bool → List ScopedApp → List Section
misc_section single scoped =
    section_of 7 (codes "RISKS AND IPC") (codes "## Risks and IPC mechanisms") []
      (map dashed (flat_map (misc_lines single) scoped)) none (codes "getSourceLines")

unfoldable pub build_sections : (Text → Text → Bool) → List ScopedApp → DigestScope → List Section
build_sections locale_before scoped scope =
    let single = length scoped == 1 in
    messages_section scope single scoped
    ++ (edges_section single scoped
        ++ (structs_section single scoped
            ++ (unresolved_section single scoped
                ++ (unknown_section locale_before single scoped ++ misc_section single scoped))))
