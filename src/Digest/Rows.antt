-- ===== src/Digest/Rows.antt =====
-- The data that src/llm/digest.ts reads, and a message and a struct as lines of text. An analysis part
-- that may be missing is read as empty, as the code does by `?? []`.
use c_interface_discovery.Prelude.{
  ℕ, Text, List, [], ◌∷◌, ◌++◌, map, keep, Option, none, some, Bool, true, false, codes, ltb,
  if◌then◌else◌,
}
use c_interface_discovery.Prelude.Words.{show}
use c_interface_discovery.Types.{
  AnalysisWarning, WarningKind, collision, conflict, encoding, oversized, circular_include,
  ifdef_variant, TypeDict,
}
use c_interface_discovery.Graph.{MsgFileRole, is_producer, is_consumer}
use c_interface_discovery.Layout.Primitives.{Target}
use c_interface_discovery.Layout.Compute.{CStructLayout}
use c_interface_discovery.Roles.Types.{
  StructRole, wire_root, wire_root_nested, envelope, root_candidate, shared_block, block, orphan,
  StructRoleInfo, Confidence,
}
use c_interface_discovery.Composition.{MessageComposition}
use c_interface_discovery.Composition.Summary.{join_with}
use c_interface_discovery.HeaderGen.Roots.{HeaderGenReview}

pub data MsgDirection : Type 0 where
  producer consumer both unknown : MsgDirection

-- A `MessageInterface` with the name of its struct; the transport is its text.
pub record Message : Type 0 where
  pub constant : Text
  pub value : Text
  pub struct_name : Option Text
  pub struct_resolved : Bool
  pub direction : MsgDirection
  pub direction_confident : Bool
  pub transport : Option Text
  pub defined_in : Text
  pub file_roles : List MsgFileRole
  pub incomplete : Bool

pub record Payload : Type 0 where
  pub send_site_file : Text
  pub send_site_line : ℕ
  pub resolved_struct_name : Option Text
  pub confidence : Confidence
  pub strategy : Text

pub record RiskFlag : Type 0 where
  pub severity : Text
  pub msg : Text

-- A `FileAnalysis`; `ipc` is the type of each call.
pub record File : Type 0 where
  pub filename : Text
  pub unknown_calls : List Text
  pub risks : List RiskFlag
  pub ipc : List Text

pub record StringAnalysis : Type 0 where
  pub files : List File
  pub type_dict : TypeDict
  pub messages : List Message
  pub compositions : List MessageComposition
  pub roles : List StructRoleInfo
  pub layouts : List CStructLayout
  pub layout_target : Option Target
  pub payloads : List Payload
  pub review : List HeaderGenReview
  pub warnings : List AnalysisWarning

pub record ScopedApp : Type 0 where
  pub id : Text
  pub name : Text
  pub analysis : StringAnalysis

pub data DigestScope : Type 0 where
  app : Text → DigestScope
  all_apps : DigestScope
  message : Text → Text → DigestScope

unfoldable pub direction_text : MsgDirection → Text
direction_text producer = codes "producer"
direction_text consumer = codes "consumer"
direction_text both = codes "both"
direction_text unknown = codes "unknown"

unfoldable pub role_text : StructRole → Text
role_text wire_root = codes "wire-root"
role_text wire_root_nested = codes "wire-root-nested"
role_text envelope = codes "envelope"
role_text root_candidate = codes "root-candidate"
role_text shared_block = codes "shared-block"
role_text block = codes "block"
role_text orphan = codes "orphan"

unfoldable pub warning_text : WarningKind → Text
warning_text collision = codes "collision"
warning_text conflict = codes "conflict"
warning_text encoding = codes "encoding"
warning_text oversized = codes "oversized"
warning_text circular_include = codes "circular-include"
warning_text ifdef_variant = codes "ifdef-variant"

unfoldable pub or_text : Option Text → Text → Text
or_text none fallback = fallback
or_text (some s) fallback = s

unfoldable pub commas : List Text → Text
commas names = join_with (codes ",") names

-- `names.length ? `${label}${names.join(',')}` : ''`
unfoldable pub listed : Text → List Text → Text
listed label [] = []
listed label (n ∷ names) = label ++ commas (n ∷ names)

unfoldable pub size_text : Option MessageComposition → Text
size_text none = []
size_text (some c) =
    codes " "
    ++ show c.size_by_target.on64
    ++ codes "B/64 "
    ++ show c.size_by_target.on32
    ++ codes "B/32"
    ++ (if c.differs_across_targets then codes " DIFFERS" else [])

-- `m.structResolved && m.struct ? m.struct.name : 'UNRESOLVED'`
unfoldable pub struct_text : Bool → Option Text → Text
struct_text true (some name) = name
struct_text _ _ = codes "UNRESOLVED"

unfoldable pub message_row : Message → Option MessageComposition → Text
message_row m comp =
    let producers = map (λ r. r.filename) (keep (λ r. is_producer r.role) m.file_roles) in
    let consumers = map (λ r. r.filename) (keep (λ r. is_consumer r.role) m.file_roles) in
    codes "- "
    ++ m.constant
    ++ codes " = "
    ++ m.value
    ++ codes " | "
    ++ struct_text m.struct_resolved m.struct_name
    ++ codes " | "
    ++ direction_text m.direction
    ++ (if m.direction_confident then [] else codes "?")
    ++ codes " | "
    ++ or_text m.transport (codes "unknown")
    ++ size_text comp
    ++ codes " | def:"
    ++ m.defined_in
    ++ listed (codes " | P:") producers
    ++ listed (codes " | C:") consumers

unfoldable pub is_envelope : StructRole → Bool
is_envelope envelope = true
is_envelope _ = false

unfoldable pub embedding : StructRoleInfo → List Text
embedding r =
    if is_envelope r.role
    then (codes "envelope in " ++ show r.in_degree) ∷ []
    else if ltb 0 r.in_degree
    then (codes "in " ++ commas (map (λ e. e.parent) r.contained_by)) ∷ []
    else []

-- `if (names.length) extra.push(…)`
unfoldable pub noted : Text → List Text → List Text
noted label [] = []
noted label (n ∷ names) = (label ++ commas (n ∷ names)) ∷ []

unfoldable pub bracketed : List Text → Text
bracketed [] = []
bracketed (e ∷ extra) = codes " [" ++ join_with (codes "; ") (e ∷ extra) ++ codes "]"

unfoldable pub bytes_text : Option ℕ → Text
bytes_text none = []
bytes_text (some size) = show size ++ codes "B, "

unfoldable pub struct_stub : StructRoleInfo → Option ℕ → Text
struct_stub r size =
    codes "- "
    ++ r.name
    ++ codes " ("
    ++ bytes_text size
    ++ show r.field_count
    ++ codes " fields, "
    ++ role_text r.role
    ++ codes ", "
    ++ r.source_file
    ++ codes ")"
    ++ bracketed (
        embedding r
        ++ noted (codes "ptr:") r.pointer_fields
        ++ noted (codes "var-array:") r.variable_array_fields)

-- `single ? '' : `[${app.name}] ``
unfoldable pub prefix_of : Bool → ScopedApp → Text
prefix_of single a = if single then [] else codes "[" ++ a.name ++ codes "] "

-- The lines of all applications, one after the other.
unfoldable pub flat_map {ℓ κ} : {A : Type ℓ} {B : Type κ} → (A → List B) → List A → List B
flat_map f [] = []
flat_map f (x ∷ xs) = f x ++ flat_map f xs
