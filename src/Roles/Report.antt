-- ===== src/Roles/Report.antt =====
-- Bindings, depths and roles of src/analyzer/structRoleAnalyzer.ts. The order of `localeCompare` is a
-- parameter, the test that its result is at most 0.
use c_interface_discovery.Prelude.{
  ℕ, zero, suc, ◌+◌, ◌*◌, max, Text, List, [], ◌∷◌, map, Option, none, some, Bool, true, false,
  ◌&&◌, ◌==◌, ltb, leb, codes, keep, length, if◌then◌else◌,
}
use c_interface_discovery.Prelude.Dict.{Dict, set}
use c_interface_discovery.Types.{CStruct}
use c_interface_discovery.Graph.{includes_text, push_new}
use c_interface_discovery.Roles.Types.{
  StructRole, wire_root, wire_root_nested, envelope, root_candidate, shared_block, block, orphan,
  StructRoleInfo, StructRoleReport, BoundMessage, Confidence, high, medium, PayloadResolution,
  StructRoleInput,
}
use c_interface_discovery.Roles.Containment.{Tables, list_at, containment}

-- `addBinding`; an empty constant is falsy.
unfoldable pub add_binding : Text → Text → Dict (List Text) → Dict (List Text)
add_binding struct_name [] bound = bound
add_binding struct_name (c ∷ constant) bound =
    set bound struct_name (push_new (list_at bound struct_name) (c ∷ constant))

unfoldable pub bind_messages : List BoundMessage → Dict (List Text) → Dict (List Text)
bind_messages [] bound = bound
bind_messages (msg ∷ msgs) bound =
    bind_messages msgs
      (elim msg.struct_name [ none ↦ bound | some name ↦ add_binding name msg.constant bound ])

unfoldable pub is_strong : Confidence → Bool
is_strong high = true
is_strong medium = true
is_strong _ = false

-- `res.msgIdConstant ?? '(payload)'`
unfoldable pub or_payload : Option Text → Text
or_payload none = codes "(payload)"
or_payload (some constant) = constant

-- `if (name) addBinding(name, …)`
unfoldable pub bind_payload : Option Text → Option Text → Dict (List Text) → Dict (List Text)
bind_payload none constant bound = bound
bind_payload (some []) constant bound = bound
bind_payload (some (c ∷ name)) constant bound = add_binding (c ∷ name) (or_payload constant) bound

unfoldable pub bind_payloads : List PayloadResolution → Dict (List Text) → Dict (List Text)
bind_payloads [] bound = bound
bind_payloads (r ∷ rs) bound =
    bind_payloads rs
      (if is_strong r.confidence then bind_payload r.struct_name r.msg_id_constant bound else bound)

unfoldable pub bindings : StructRoleInput → Dict (List Text)
bindings input = bind_payloads input.payload_resolutions (bind_messages input.messages [])

-- The greatest of `1 + depth` over the children.
unfoldable pub deepest : (Text → ℕ) → List Text → ℕ
deepest depth [] = 0
deepest depth (c ∷ children) = max (1 + depth c) (deepest depth children)

-- `depthOf`; each step down adds a name with children to `seen`. The memo, which is only read and
-- written for an empty `seen`, repeats a result and is left out.
unfoldable pub depth_of : ℕ → Dict (List Text) → List Text → Text → ℕ
depth_of zero contains seen name = 0
depth_of (suc fuel) contains seen name =
    if includes_text seen name
    then 0
    else deepest (depth_of fuel contains (name ∷ seen)) (list_at contains name)

abbrev pub envelope_min_parents : ℕ
envelope_min_parents = 3

-- `inDegree >= ENVELOPE_MIN_PARENTS && firstCount / inDegree >= ENVELOPE_FIRST_RATIO`
unfoldable pub is_envelope : ℕ → ℕ → Bool
is_envelope in_degree first_count =
    leb envelope_min_parents in_degree && leb (4 * in_degree) (5 * first_count)

unfoldable pub role_of : ℕ → ℕ → Bool → Bool → StructRole
role_of in_degree first_count is_bound referenced =
    if is_envelope in_degree first_count
    then envelope
    else if is_bound
    then (if ltb 0 in_degree then wire_root_nested else wire_root)
    else if leb 2 in_degree
    then shared_block
    else if in_degree == 1
    then block
    else if referenced
    then root_candidate
    else orphan

unfoldable pub role_order : StructRole → ℕ
role_order wire_root_nested = 0
role_order wire_root = 1
role_order envelope = 2
role_order root_candidate = 3
role_order shared_block = 4
role_order block = 5
role_order orphan = 6

-- A stable sort by a test that the first element may stand before the second.
unfoldable pub insert_by {ℓ} : {A : Type ℓ} → (A → A → Bool) → A → List A → List A
insert_by before x [] = x ∷ []
insert_by before x (y ∷ ys) =
    let later = insert_by before x ys in if before x y then x ∷ y ∷ ys else y ∷ later

unfoldable pub sort_by {ℓ} : {A : Type ℓ} → (A → A → Bool) → List A → List A
sort_by before [] = []
sort_by before (x ∷ xs) = insert_by before x (sort_by before xs)

unfoldable pub is_wire_root : StructRole → Bool
is_wire_root wire_root = true
is_wire_root wire_root_nested = true
is_wire_root _ = false

unfoldable pub is_envelope_role : StructRole → Bool
is_envelope_role envelope = true
is_envelope_role _ = false

-- `text_before` is the order of `sort()` on strings, `locale_before` that of `localeCompare`.
module _ (text_before locale_before : Text → Text → Bool) where
  unfoldable pub info_of : StructRoleInput → Tables → Dict (List Text) → CStruct → StructRoleInfo
  info_of input t bound s =
      let edges = list_at t.contained_by s.name in
      let constants = sort_by text_before (list_at bound s.name) in
      record {
        name = s.name;
        source_file = s.source_file;
        role =
            role_of (length edges) (length (keep (λ e. e.is_first_field) edges))
              (ltb 0 (length constants)) (includes_text input.referenced_in_source s.name);
        in_degree = length edges;
        contained_by = sort_by (λ a b. locale_before a.parent b.parent) edges;
        contains = sort_by text_before (list_at t.contains s.name);
        depth = depth_of (suc (length t.contains)) t.contains [] s.name;
        field_count = length s.fields;
        bound_constants = constants;
        pointer_fields = list_at t.pointer_fields s.name;
        variable_array_fields = list_at t.variable_arrays s.name;
      }

  -- By the role, then the deepest first, then by name.
  unfoldable pub reported_before : StructRoleInfo → StructRoleInfo → Bool
  reported_before a b =
      let x = role_order a.role in
      let y = role_order b.role in
      if ltb x y
      then true
      else if ltb y x
      then false
      else if ltb b.depth a.depth
      then true
      else if ltb a.depth b.depth
      then false
      else locale_before a.name b.name

  unfoldable pub by_name : List StructRoleInfo → Dict StructRoleInfo → Dict StructRoleInfo
  by_name [] d = d
  by_name (r ∷ rs) d = by_name rs (set d r.name r)

  unfoldable pub analyze_struct_roles : StructRoleInput → StructRoleReport
  analyze_struct_roles input =
      let t = containment input.type_dict in
      let roles =
        sort_by reported_before (map (info_of input t (bindings input)) input.type_dict.structs) in
      record {
        roles = roles;
        by_name = by_name roles [];
        wire_roots = map (λ r. r.name) (keep (λ r. is_wire_root r.role) roles);
        envelopes = map (λ r. r.name) (keep (λ r. is_envelope_role r.role) roles);
      }
