-- ===== src/HeaderGen.antt =====
-- `buildHeaderGenBundle` of src/analyzer/headerGenBundle.ts: the headers to generate from, those that
-- they need, and what a person has to look at. The order of `localeCompare` is a parameter.
pub mod Includes
pub mod Roots
pub mod Walks
pub mod Closure
pub mod Fuel
mod Tests
use c_interface_discovery.Prelude.{
  ℕ, Text, List, [], ◌∷◌, ◌++◌, map, Option, none, some, Bool, true, false, not, ◌&&◌, ◌||◌, ◌===◌,
  codes, split, last, keep, text_before, if◌then◌else◌,
}
use c_interface_discovery.Prelude.Dict.{Dict}
use c_interface_discovery.Types.{LoadedFile}
use c_interface_discovery.Graph.{includes_text, push_new, push_all}
use c_interface_discovery.Roles.Containment.{list_at}
use c_interface_discovery.Roles.Report.{sort_by}
use c_interface_discovery.Walk.{Trail}
use c_interface_discovery.HeaderGen.Includes.{dirs_of, is_header, is_source}
use c_interface_discovery.HeaderGen.Roots.{
  ReviewKind, unresolved_type, ambiguous_include, unresolved_include, source_root, HeaderGenReview,
  review_of, Message, HeaderGenInput, TopLevel, Gathered, used_in, gather_messages, gather_payloads,
  push_structs, gather_analyses, gather_sources, find_roots,
}
use c_interface_discovery.HeaderGen.Walks.{
  Types, walk_types, input_set, content_by_file, walk_includes,
}

pub record HeaderGenType : Type 0 where
  pub name : Text
  pub file : Text
  pub reached_from : List Text

pub record HeaderGenBundle : Type 0 where
  pub root : List Text
  pub input : List Text
  pub input_dirs : List Text
  pub include : List Text
  pub include_dirs : List Text
  pub types : List HeaderGenType
  pub review : List HeaderGenReview

-- The loops that fill `topLevel`, in order.
unfoldable pub gather : (Text → Text → Bool) → HeaderGenInput → Gathered
gather locale_before input =
    let sources = keep (λ f. is_source f.filename) input.files in
    let used = used_in locale_before sources in
    let dict = input.type_dict in
    let start : Gathered = record { top_level = []; pending = []; review = [] } in
    gather_sources dict (map (λ f. f.filename) input.files) sources (
      gather_analyses dict input.analyses (
        push_structs (keep (λ s. used s.name) dict.structs)
          (gather_payloads input.payloads (gather_messages used input.messages start))))

-- `f.split('/').pop() ?? f`
unfoldable pub or_path : Text → Option Text → Text
or_path path none = path
or_path path (some base) = base

unfoldable pub base_of : Text → Text
base_of path = or_path path (last (split b'/' path))

-- Whether the header that defines a message is selected, by its path or by its name alone.
unfoldable pub is_covered : List Text → Text → Bool
is_covered selected from =
    not (from === [])
    && (includes_text selected from || includes_text (map base_of selected) (base_of from))

unfoldable pub pending_reviews : List Text → List Message → List HeaderGenReview
pending_reviews selected [] = []
pending_reviews selected (msg ∷ msgs) =
    let rest = pending_reviews selected msgs in
    if is_covered selected msg.defined_in
    then rest
    else review_of unresolved_type (msg.constant ++ codes ": struct not resolved") ∷ rest

unfoldable pub type_entries : Dict (List Text) → Dict Text → List HeaderGenType
type_entries reached [] = []
type_entries reached ((name, file) ∷ types) =
    record { name = name; file = file; reached_from = sort_by text_before (list_at reached name) }
    ∷ type_entries reached types

unfoldable pub kind_text : ReviewKind → Text
kind_text unresolved_type = codes "unresolved-type"
kind_text ambiguous_include = codes "ambiguous-include"
kind_text unresolved_include = codes "unresolved-include"
kind_text source_root = codes "source-root"

-- `${r.kind}:${r.message}`
unfoldable pub review_key : HeaderGenReview → Text
review_key r = kind_text r.kind ++ b':' ∷ r.message

-- The filter, with `seenReview`.
unfoldable pub dedupe : List Text → List HeaderGenReview → List HeaderGenReview
dedupe seen [] = []
dedupe seen (r ∷ rs) =
    let again = dedupe seen rs in
    let fresh = dedupe (review_key r ∷ seen) rs in
    if includes_text seen (review_key r) then again else r ∷ fresh

-- The types found, and the files that the walk over the includes starts from and reaches.
unfoldable pub types_of : HeaderGenInput → List TopLevel → List HeaderGenReview → Trail Types
types_of input top_level review =
    walk_types input.type_dict top_level
      (record { seen = []; out = record { reached_from = []; type_file = []; review = review } })

unfoldable pub walk_start : List Text → List Text → List Text
walk_start roots inputs = roots ++ inputs

unfoldable pub reach_includes :
    HeaderGenInput → List Text → List HeaderGenReview → Trail (List HeaderGenReview)
reach_includes input =
    walk_includes (map (λ f. f.filename) input.files) (content_by_file input.files [])

-- `includeFiles`; the order of `includeReached` is lost in the sort.
unfoldable pub include_files : List Text → List Text → List Text
include_files inputs reached =
    sort_by text_before (keep (λ f. is_header f && not (includes_text inputs f)) reached)

unfoldable pub bundle_of :
    (Text → Text → Bool)
    → List Text
    → List Text
    → Types
    → List Message
    → Trail (List HeaderGenReview)
    → HeaderGenBundle
bundle_of locale_before roots inputs types pending walked =
    let include_list = include_files inputs walked.seen in
    let input_list = sort_by text_before inputs in
    let root_list = sort_by text_before roots in
    let selected = root_list ++ input_list ++ include_list in
    record {
      root = root_list;
      input = input_list;
      input_dirs = dirs_of input_list;
      include = include_list;
      include_dirs = sort_by text_before (push_all [] (dirs_of input_list ++ dirs_of include_list));
      types =
          sort_by (λ a b. locale_before a.name b.name)
            (type_entries types.reached_from types.type_file);
      review = dedupe [] (walked.out ++ pending_reviews selected pending);
    }

unfoldable pub build_header_gen_bundle : (Text → Text → Bool) → HeaderGenInput → HeaderGenBundle
build_header_gen_bundle locale_before input =
    let g = gather locale_before input in
    let found = find_roots g.top_level (record { roots = []; review = g.review }) in
    let types = types_of input g.top_level found.review in
    let inputs = input_set types.out.type_file [] in
    bundle_of locale_before found.roots inputs types.out g.pending
      (reach_includes input (walk_start found.roots inputs) types.out.review)
