-- ===== src/HeaderGen/Roots.antt =====
-- The types that src/analyzer/headerGenBundle.ts starts from, and the headers that define them.
use c_interface_discovery.Prelude.{
  ℕ, Text, List, [], ◌∷◌, ◌++◌, Option, none, some, Bool, true, false, not, ◌&&◌, ◌||◌, ◌==◌, ◌===◌,
  codes, find, keep, length, if◌then◌else◌,
}
use c_interface_discovery.Prelude.Words.{show}
use c_interface_discovery.Types.{CStruct, LoadedFile, TypeDict}
use c_interface_discovery.Graph.{includes_text}
use c_interface_discovery.References.{find_references}
use c_interface_discovery.Roles.Types.{Confidence, high, medium, low, unresolved}
use c_interface_discovery.Roles.Report.{is_strong}
use c_interface_discovery.HeaderGen.Includes.{
  Include, extract_includes, Resolution, resolved, ambiguous, missing, resolve_include, is_header,
}

pub data ReviewKind : Type 0 where
  unresolved_type ambiguous_include unresolved_include source_root : ReviewKind

pub record HeaderGenReview : Type 0 where
  pub kind : ReviewKind
  pub message : Text

unfoldable pub review_of : ReviewKind → Text → HeaderGenReview
review_of kind message = record { kind = kind; message = message }

-- A `MessageInterface`, a `PayloadResolution`, and the input, as far as the bundle reads them.
pub record Message : Type 0 where
  pub constant : Text
  pub struct_resolved : Bool
  pub struct : Option CStruct
  pub defined_in : Text

pub record Payload : Type 0 where
  pub send_site_file : Text
  pub send_site_line : ℕ
  pub resolved_struct_name : Option Text
  pub resolved_struct : Option CStruct
  pub confidence : Confidence

-- `analyses` is `impliedStructs` of each call of each analysis.
pub record HeaderGenInput : Type 0 where
  pub messages : List Message
  pub payloads : List Payload
  pub type_dict : TypeDict
  pub files : List LoadedFile
  pub analyses : List (List (Option (List Text)))

pub record TopLevel : Type 0 where
  pub name : Text
  pub file : Text

pub record Gathered : Type 0 where
  pub top_level : List TopLevel
  pub pending : List Message
  pub review : List HeaderGenReview

unfoldable pub push_top : Text → Text → Gathered → Gathered
push_top name file g = record g {
  top_level = g.top_level ++ record { name = name; file = file } ∷ [];
}

unfoldable pub push_review : ReviewKind → Text → Gathered → Gathered
push_review kind message g = record g { review = g.review ++ review_of kind message ∷ [] }

-- Whether the sources refer to a name.
unfoldable pub used_in : (Text → Text → Bool) → List LoadedFile → Text → Bool
used_in locale_before sources name =
    not (name === []) && not (length (find_references locale_before name sources) == 0)

unfoldable pub is_struct_used : (Text → Bool) → Option CStruct → Bool
is_struct_used used none = false
is_struct_used used (some s) = used s.name

-- `if (!msg.structResolved || !msg.struct)`
unfoldable pub place_message : Bool → Option CStruct → Message → Gathered → Gathered
place_message true (some s) msg g = push_top s.name s.source_file g
place_message _ _ msg g = record g { pending = g.pending ++ msg ∷ [] }

unfoldable pub gather_messages : (Text → Bool) → List Message → Gathered → Gathered
gather_messages used [] g = g
gather_messages used (msg ∷ msgs) g = gather_messages used msgs (
    if used msg.constant || is_struct_used used msg.struct
    then place_message msg.struct_resolved msg.struct msg g
    else g)

unfoldable pub confidence_text : Confidence → Text
confidence_text high = codes "high"
confidence_text medium = codes "medium"
confidence_text low = codes "low"
confidence_text unresolved = codes "unresolved"

-- `${res.sendSiteFile}:${res.sendSiteLine}`
unfoldable pub site_of : Payload → Text
site_of res = res.send_site_file ++ b':' ∷ show res.send_site_line

unfoldable pub weak_payload : Option Text → Payload → Gathered → Gathered
weak_payload none res g = g
weak_payload (some []) res g = g
weak_payload (some (c ∷ name)) res g =
    push_review unresolved_type
      ((c ∷ name)
        ++ codes " at "
        ++ site_of res
        ++ codes " ("
        ++ confidence_text res.confidence
        ++ codes ")")
      g

-- `res.resolvedStructName ?? 'payload'`
unfoldable pub or_payload : Option Text → Text
or_payload none = codes "payload"
or_payload (some name) = name

unfoldable pub no_header : Payload → Gathered → Gathered
no_header res = push_review unresolved_type (
    or_payload res.resolved_struct_name
    ++ codes " at "
    ++ site_of res
    ++ codes ": no defining header")

-- With a struct, the name and the file are those of the struct; without one there is no file.
unfoldable pub strong_payload : Option CStruct → Payload → Gathered → Gathered
strong_payload none res g = no_header res g
strong_payload (some s) res g =
    if s.name === [] || s.source_file === []
    then no_header res g
    else push_top s.name s.source_file g

unfoldable pub gather_payloads : List Payload → Gathered → Gathered
gather_payloads [] g = g
gather_payloads (res ∷ more) g = gather_payloads more (
    if is_strong res.confidence
    then strong_payload res.resolved_struct res g
    else weak_payload res.resolved_struct_name res g)

unfoldable pub push_structs : List CStruct → Gathered → Gathered
push_structs [] g = g
push_structs (s ∷ structs) g = push_structs structs (push_top s.name s.source_file g)

unfoldable pub push_found : Option CStruct → Gathered → Gathered
push_found none g = g
push_found (some s) g = push_top s.name s.source_file g

unfoldable pub gather_implied : TypeDict → List Text → Gathered → Gathered
gather_implied dict [] g = g
gather_implied dict (name ∷ names) g =
    gather_implied dict names (push_found (find (λ s. s.name === name) dict.structs) g)

-- `ipc.impliedStructs ?? []`
unfoldable pub gather_calls : TypeDict → List (Option (List Text)) → Gathered → Gathered
gather_calls dict [] g = g
gather_calls dict (none ∷ calls) g = gather_calls dict calls g
gather_calls dict (some names ∷ calls) g = gather_calls dict calls (gather_implied dict names g)

unfoldable pub gather_analyses : TypeDict → List (List (Option (List Text))) → Gathered → Gathered
gather_analyses dict [] g = g
gather_analyses dict (calls ∷ files) g = gather_analyses dict files (gather_calls dict calls g)

-- `matches.join(', ')`
unfoldable pub join_names : List Text → Text
join_names [] = []
join_names (f ∷ []) = f
join_names (f ∷ h ∷ files) = f ++ codes ", " ++ join_names (h ∷ files)

unfoldable pub include_text : Text → Text → Text
include_text from_file path = from_file ++ codes " includes \"" ++ path ++ codes "\" — "

unfoldable pub ambiguous_review : Text → Text → List Text → HeaderGenReview
ambiguous_review from_file path hits =
    review_of ambiguous_include (include_text from_file path ++ codes "matches " ++ join_names hits)

unfoldable pub unresolved_review : Text → Text → HeaderGenReview
unresolved_review from_file path =
    review_of unresolved_include (include_text from_file path ++ codes "not in loaded files")

unfoldable pub add_review : HeaderGenReview → Gathered → Gathered
add_review r g = record g { review = g.review ++ r ∷ [] }

-- A header puts its structs among the types; another file is reported as not loaded, and so is one
-- without a name, which is falsy.
unfoldable pub source_include : TypeDict → Text → Text → Resolution → Gathered → Gathered
source_include dict from_file path (resolved file) g =
    if not (file === []) && is_header file
    then push_structs (keep (λ s. s.source_file === file) dict.structs) g
    else add_review (unresolved_review from_file path) g
source_include dict from_file path (ambiguous hits) g =
    add_review (ambiguous_review from_file path hits) g
source_include dict from_file path missing g = add_review (unresolved_review from_file path) g

unfoldable pub source_includes : TypeDict → List Text → Text → List Include → Gathered → Gathered
source_includes dict loaded from_file [] g = g
source_includes dict loaded from_file (inc ∷ incs) g = source_includes dict loaded from_file incs (
    if inc.is_local
    then source_include dict from_file inc.path (resolve_include from_file inc.path loaded) g
    else g)

unfoldable pub gather_sources : TypeDict → List Text → List LoadedFile → Gathered → Gathered
gather_sources dict loaded [] g = g
gather_sources dict loaded (src ∷ sources) g =
    gather_sources dict loaded sources
      (source_includes dict loaded src.filename (extract_includes src.content) g)

-- The headers of the types, each once, and the review of the types of other files.
pub record Roots : Type 0 where
  pub roots : List Text
  pub review : List HeaderGenReview

unfoldable pub source_root_review : TopLevel → HeaderGenReview
source_root_review t =
    review_of source_root (t.name ++ codes " is defined in " ++ t.file ++ codes ", not a header")

unfoldable pub root_step : TopLevel → Roots → Roots
root_step t r =
    if not (is_header t.file)
    then record r { review = r.review ++ source_root_review t ∷ [] }
    else if includes_text r.roots t.file
    then r
    else record r { roots = r.roots ++ t.file ∷ [] }

unfoldable pub find_roots : List TopLevel → Roots → Roots
find_roots [] r = r
find_roots (t ∷ ts) r = find_roots ts (root_step t r)
