-- ===== src/HeaderGen/Walks.antt =====
-- The two walks of src/analyzer/headerGenBundle.ts: `walkType` over the fields of the types, and
-- `walkIncludes` over the local includes of the files.
use c_interface_discovery.Prelude.{
  suc, Text, List, [], ◌∷◌, ◌++◌, Option, none, some, Bool, ◌||◌, ◌===◌, codes, find, length,
  if◌then◌else◌,
}
use c_interface_discovery.Prelude.Dict.{Dict, get, set}
use c_interface_discovery.Types.{CField, CStruct, CEnum, LoadedFile, TypeDict}
use c_interface_discovery.Graph.{includes_text, push_new}
use c_interface_discovery.Roles.Containment.{list_at, canonical_name}
use c_interface_discovery.Walk.{Action, go, act, Walker, Trail, walk, walk_all}
use c_interface_discovery.HeaderGen.Includes.{
  Include, extract_includes, Resolution, resolved, ambiguous, missing, resolve_include, is_header,
}
use c_interface_discovery.HeaderGen.Roots.{
  HeaderGenReview, review_of, unresolved_type, TopLevel, ambiguous_review, unresolved_review,
}

abbrev pub primitives : List Text
primitives =
    codes "char"
    ∷ codes "short"
    ∷ codes "int"
    ∷ codes "long"
    ∷ codes "float"
    ∷ codes "double"
    ∷ codes "void"
    ∷ codes "signed"
    ∷ codes "unsigned"
    ∷ codes "_Bool"
    ∷ codes "bool"
    ∷ codes "int8_t"
    ∷ codes "int16_t"
    ∷ codes "int32_t"
    ∷ codes "int64_t"
    ∷ codes "uint8_t"
    ∷ codes "uint16_t"
    ∷ codes "uint32_t"
    ∷ codes "uint64_t"
    ∷ codes "size_t"
    ∷ codes "ssize_t"
    ∷ codes "uintptr_t"
    ∷ codes "intptr_t"
    ∷ codes "ptrdiff_t"
    ∷ codes "wchar_t"
    ∷ []

-- `CStruct | CEnum | null`
pub data FoundType : Type 0 where
  struct_type : CStruct → FoundType
  enum_type : CEnum → FoundType
  no_type : FoundType

unfoldable pub or_enum : Option CStruct → Option CEnum → FoundType
or_enum (some s) e = struct_type s
or_enum none (some e) = enum_type e
or_enum none none = no_type

unfoldable pub lookup_type : Text → TypeDict → FoundType
lookup_type name dict =
    or_enum (find (λ s. s.name === name) dict.structs) (find (λ e. e.name === name) dict.enums)

-- What the walk over the types writes.
pub record Types : Type 0 where
  pub reached_from : Dict (List Text)
  pub type_file : Dict Text
  pub review : List HeaderGenReview

unfoldable pub add_reached : Text → Text → Dict (List Text) → Dict (List Text)
add_reached name root reached = set reached name (push_new (list_at reached name) root)

unfoldable pub place_type : Text → Text → Text → Types → Types
place_type root name source_file out = record out {
  reached_from = add_reached name root out.reached_from;
  type_file = set out.type_file name source_file;
}

-- The body of `walkType` behind the two guards, without the calls.
unfoldable pub enter_type : Text → Text → FoundType → Types → Types
enter_type root name (struct_type s) out = place_type root name s.source_file out
enter_type root name (enum_type e) out = place_type root name e.source_file out
enter_type root name no_type out = record out {
  review =
      out.review
      ++ review_of unresolved_type
          (name ++ codes " (from " ++ root ++ codes "): not in type dictionary")
        ∷ [];
}

-- `!name || PRIMITIVES.has(name)`
unfoldable pub is_skipped : Text → Bool
is_skipped name = name === [] || includes_text primitives name

-- The calls for the fields whose types the first guard lets pass.
unfoldable pub field_calls : TypeDict → List CField → List (Action Types)
field_calls dict [] = []
field_calls dict (f ∷ fields) =
    let name = canonical_name f.type dict in
    let rest = field_calls dict fields in if is_skipped name then rest else go name ∷ rest

unfoldable pub calls_of : TypeDict → FoundType → List (Action Types)
calls_of dict (struct_type s) = field_calls dict s.fields
calls_of dict _ = []

-- `${root}::${name}`
unfoldable pub type_key : Text → Text → Text
type_key root name = root ++ b':' ∷ b':' ∷ name

-- `walkType` from one root, by the canonical names.
unfoldable pub type_walker : TypeDict → Text → Walker Types
type_walker dict root = record {
  key = type_key root;
  enter = λ name. enter_type root name (lookup_type name dict);
  actions = λ name. calls_of dict (lookup_type name dict);
}

unfoldable pub walk_type : TypeDict → Text → Text → Trail Types → Trail Types
walk_type dict raw root st =
    let name = canonical_name raw dict in
    if is_skipped name then st else walk (suc (length dict.structs)) (type_walker dict root) name st

unfoldable pub walk_types : TypeDict → List TopLevel → Trail Types → Trail Types
walk_types dict [] st = st
walk_types dict (t ∷ ts) st =
    walk_types dict ts (if is_header t.file then walk_type dict t.name t.file st else st)

-- `inputSet`, in the order of insertion
unfoldable pub input_set : Dict Text → List Text → List Text
input_set [] inputs = inputs
input_set ((name, file) ∷ types) inputs =
    input_set types (if is_header file then push_new inputs file else inputs)

-- `contentByFile`
unfoldable pub content_by_file : List LoadedFile → Dict Text → Dict Text
content_by_file [] d = d
content_by_file (f ∷ files) d = content_by_file files (set d f.filename f.content)

-- A call for a resolved include, and a review for any other; an empty name is falsy.
unfoldable pub include_action : Text → Text → Resolution → Action (List HeaderGenReview)
include_action file path (resolved []) = act (λ review. review ++ unresolved_review file path ∷ [])
include_action file path (resolved (c ∷ hit)) = go (c ∷ hit)
include_action file path (ambiguous hits) =
    act (λ review. review ++ ambiguous_review file path hits ∷ [])
include_action file path missing = act (λ review. review ++ unresolved_review file path ∷ [])

unfoldable pub include_actions :
    List Text → Text → List Include → List (Action (List HeaderGenReview))
include_actions loaded file [] = []
include_actions loaded file (inc ∷ incs) =
    let rest = include_actions loaded file incs in
    if inc.is_local
    then include_action file inc.path (resolve_include file inc.path loaded) ∷ rest
    else rest

unfoldable pub content_actions :
    List Text → Text → Option Text → List (Action (List HeaderGenReview))
content_actions loaded file none = []
content_actions loaded file (some content) = include_actions loaded file (extract_includes content)

-- `walkIncludes`. `seenIncludeWalk` and `includeReached` hold the same files.
unfoldable pub include_walker : List Text → Dict Text → Walker (List HeaderGenReview)
include_walker loaded contents = record {
  key = λ file. file;
  enter = λ file review. review;
  actions = λ file. content_actions loaded file (get contents file);
}

unfoldable pub walk_includes :
    List Text → Dict Text → List Text → List HeaderGenReview → Trail (List HeaderGenReview)
walk_includes loaded contents files review =
    walk_all (suc (length contents)) (include_walker loaded contents) files
      (record { seen = []; out = review })
