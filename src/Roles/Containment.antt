-- ===== src/Roles/Containment.antt =====
-- The containment graph of src/analyzer/structRoleAnalyzer.ts, with `canonicalName` of
-- src/analyzer/headerGenBundle.ts.
use c_interface_discovery.Prelude.{
  ℕ, zero, suc, Text, List, [], ◌∷◌, ◌++◌, Option, none, some, Bool, true, false, not, ◌&&◌, ◌||◌,
  ◌==◌, ◌===◌, codes, starts_with, includes, trim, split, any, keep, last, length, find,
  if◌then◌else◌,
}
use c_interface_discovery.Prelude.Words.{is_decimal}
use c_interface_discovery.Prelude.Dict.{Dict, get, set}
use c_interface_discovery.Types.{CField, CStruct, TypeDict}
use c_interface_discovery.Layout.FieldType.{
  word_length, first_match, strip_matches, collapse, extents, remove_extents, product_from,
}
use c_interface_discovery.Layout.Typedefs.{no_next}
use c_interface_discovery.Graph.{push_new, update}
use c_interface_discovery.Roles.Types.{ContainmentEdge}

-- The alternatives of the pattern of `canonicalName`, in order, at the start of the text.
unfoldable pub keyword_length : Text → ℕ
keyword_length s = first_match (word_length s (codes "const")) (
    first_match (word_length s (codes "volatile")) (
      first_match (word_length s (codes "restrict")) (
        first_match (word_length s (codes "struct"))
          (first_match (word_length s (codes "union")) (word_length s (codes "enum"))))))

-- `t && t !== 'signed' && t !== 'unsigned'`
unfoldable pub is_type_token : Text → Bool
is_type_token t = not (t === []) && not (t === codes "signed") && not (t === codes "unsigned")

-- `tokens[tokens.length - 1] ?? ''`
unfoldable pub last_token : Option Text → Text
last_token none = []
last_token (some t) = t

-- The loop over the aliases, with the hops left.
unfoldable pub follow : ℕ → Dict Text → Text → Text
follow zero aliases name = name
follow (suc hops) aliases name = elim (get aliases name) [
  | none ↦ name
  | some next ↦ if no_next (some next) name then name else follow hops aliases next
]

unfoldable pub follow_aliases : Option (Dict Text) → Text → Text
follow_aliases none name = name
follow_aliases (some aliases) name = follow 4 aliases name

unfoldable pub canonical_name : Text → TypeDict → Text
canonical_name raw dict =
    let stripped = keep (λ c. not (c == b'*')) (strip_matches keyword_length 0 false raw) in
    let name = trim (collapse false (remove_extents 0 stripped)) in
    follow_aliases dict.typedef_aliases (last_token (last (keep is_type_token (split 32 name))))

unfoldable pub resolve_field_struct : Text → TypeDict → Option CStruct
resolve_field_struct raw_type dict =
    let name = canonical_name raw_type dict in
    if name === [] then none else find (λ s. s.name === name) dict.structs

unfoldable pub is_pointer_field : Text → Text → Bool
is_pointer_field type field_name = includes type b'*' || starts_with field_name (codes "*")

unfoldable pub array_extents : Text → Text → List Text
array_extents type field_name = extents 0 (field_name ++ type)

unfoldable pub array_length_of : Text → Text → Option ℕ
array_length_of type field_name =
    let es = array_extents type field_name in
    if length es == 0 || any (λ e. not (is_decimal e)) es then none else some (product_from 1 es)

unfoldable pub has_variable_array : Text → Text → Bool
has_variable_array type field_name =
    any (λ e. e === [] || not (is_decimal e)) (array_extents type field_name)

-- The four maps that the pass over the fields fills.
pub record Tables : Type 0 where
  pub contains : Dict (List Text)
  pub contained_by : Dict (List ContainmentEdge)
  pub pointer_fields : Dict (List Text)
  pub variable_arrays : Dict (List Text)

-- The first loop: every struct starts without entries.
unfoldable pub start_tables : List CStruct → Tables → Tables
start_tables [] t = t
start_tables (s ∷ ss) t = start_tables ss (record t {
  contains = set t.contains s.name [];
  pointer_fields = set t.pointer_fields s.name [];
  variable_arrays = set t.variable_arrays s.name [];
})

-- `found ?? []`
abbrev pub or_empty {ℓ} : {A : Type ℓ} → Option (List A) → List A
or_empty none = []
or_empty (some xs) = xs

-- `map.get(name) ?? []`
unfoldable pub list_at {ℓ} : {A : Type ℓ} → Dict (List A) → Text → List A
list_at d name = or_empty (get d name)

unfoldable pub has_parent : Text → List ContainmentEdge → Bool
has_parent parent edges = any (λ e. e.parent === parent) edges

unfoldable pub edge_of : Text → CField → Bool → ContainmentEdge
edge_of parent f is_first = record {
  parent = parent;
  is_first_field = is_first;
  array_length = array_length_of f.type f.name;
  field_name = f.name;
}

-- One parent counts once even if it embeds the child twice.
unfoldable pub add_parent : Text → CField → Bool → List ContainmentEdge → List ContainmentEdge
add_parent parent f is_first edges =
    if has_parent parent edges then edges else edges ++ edge_of parent f is_first ∷ []

unfoldable pub embed : Text → CField → Bool → Text → Tables → Tables
embed parent f is_first child t = record t {
  contains = update (λ names. push_new names child) parent t.contains;
  contained_by =
      set t.contained_by child (add_parent parent f is_first (list_at t.contained_by child));
}

unfoldable pub embed_found : CStruct → CField → Bool → Option CStruct → Tables → Tables
embed_found s f is_first none t = t
embed_found s f is_first (some child) t =
    if child.name === s.name then t else embed s.name f is_first child.name t

-- One round of the inner loop.
unfoldable pub field_step : TypeDict → CStruct → Bool → CField → Tables → Tables
field_step dict s is_first f t =
    let noted =
      (if has_variable_array f.type f.name
        then record t {
          variable_arrays = update (λ names. names ++ f.name ∷ []) s.name t.variable_arrays;
        }
        else t) in
    if is_pointer_field f.type f.name
    then record noted {
      pointer_fields = update (λ names. names ++ f.name ∷ []) s.name noted.pointer_fields;
    }
    else embed_found s f is_first (resolve_field_struct f.type dict) noted

unfoldable pub fields_step : TypeDict → CStruct → Bool → List CField → Tables → Tables
fields_step dict s is_first [] t = t
fields_step dict s is_first (f ∷ fields) t =
    fields_step dict s false fields (field_step dict s is_first f t)

unfoldable pub structs_step : TypeDict → List CStruct → Tables → Tables
structs_step dict [] t = t
structs_step dict (s ∷ ss) t = structs_step dict ss (fields_step dict s true s.fields t)

abbrev pub no_tables : Tables
no_tables = record { contains = []; contained_by = []; pointer_fields = []; variable_arrays = [] }

unfoldable pub containment : TypeDict → Tables
containment dict = structs_step dict dict.structs (start_tables dict.structs no_tables)
