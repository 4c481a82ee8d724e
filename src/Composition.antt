-- ===== src/Composition.antt =====
-- src/analyzer/messageComposition.ts: each message as the ordered parts of its root struct, padding
-- included. `localeCompare` is a parameter.
pub mod Warnings
pub mod Reachable
pub mod Summary
pub mod Order
pub mod Size
mod Tests
use c_interface_discovery.Prelude.{
  ℕ, zero, suc, ◌+◌, Text, List, [], ◌∷◌, ◌++◌, map, Option, none, some, Bool, true, false, not,
  ◌&&◌, ◌==◌, ◌===◌, ltb, find, length, if◌then◌else◌,
}
use c_interface_discovery.Prelude.Dict.{Dict, get}
use c_interface_discovery.Types.{TypeDict}
use c_interface_discovery.Layout.Primitives.{Target, bit32, bit64}
use c_interface_discovery.Layout.Fields.{CFieldLayout, PaddingGap}
use c_interface_discovery.Layout.Compute.{
  LayoutOptions, CStructLayout, StructCatalog, build_struct_catalog,
}
use c_interface_discovery.Graph.{includes_text}
use c_interface_discovery.Roles.Types.{StructRole, StructRoleInfo, StructRoleReport}
use c_interface_discovery.Roles.Report.{sort_by}
use c_interface_discovery.Composition.Warnings.{collect_warnings}

pub data PartKind : Type 0 where
  block scalar padding : PartKind

-- A `CompositionPart` without its children.
pub record PartHead : Type 0 where
  pub kind : PartKind
  pub name : Option Text
  pub type_name : Option Text
  pub offset_bytes : ℕ
  pub size_bytes : ℕ
  pub role : Option StructRole
  pub array_length : Option ℕ
  pub caused_by_align : Option ℕ
  pub caused_by_type : Option Text
  pub at_composition_boundary : Option Bool

-- A part and its children; no children are the missing field.
mutual
  pub data CompositionPart : Type 0 where
    part : PartHead → Children → CompositionPart

  pub data Children : Type 0 where
    no_more : Children
    child : CompositionPart → Children → Children

unfoldable pub head_of : CompositionPart → PartHead
head_of (part head children) = head

unfoldable pub children_of : List CompositionPart → Children
children_of [] = no_more
children_of (p ∷ ps) = child p (children_of ps)

unfoldable pub layout_of : StructCatalog → Text → Option CStructLayout
layout_of catalog name = find (λ l. l.name === name) catalog.layouts

unfoldable pub role_in : StructRoleReport → Text → Option StructRole
role_in roles name = elim (get roles.by_name name) [ none ↦ none | some info ↦ some info.role ]

unfoldable pub block_part :
    StructRoleReport → ℕ → CFieldLayout → Text → List CompositionPart → CompositionPart
block_part roles base f type_name children =
    part
      (record {
        kind = block;
        name = some f.name;
        type_name = some type_name;
        offset_bytes = base + f.offset_bytes;
        size_bytes = f.size_bytes;
        role = role_in roles type_name;
        array_length = f.array_length;
        caused_by_align = none;
        caused_by_type = none;
        at_composition_boundary = none;
      })
      (children_of children)

unfoldable pub scalar_part : ℕ → CFieldLayout → CompositionPart
scalar_part base f =
    part
      (record {
        kind = scalar;
        name = some f.name;
        type_name = none;
        offset_bytes = base + f.offset_bytes;
        size_bytes = f.size_bytes;
        role = none;
        array_length = none;
        caused_by_align = none;
        caused_by_type = none;
        at_composition_boundary = none;
      })
      no_more

unfoldable pub padding_part : ℕ → PaddingGap → CompositionPart
padding_part base gap =
    part
      (record {
        kind = padding;
        name = none;
        type_name = none;
        offset_bytes = base + gap.offset_bytes;
        size_bytes = gap.size_bytes;
        role = none;
        array_length = none;
        caused_by_align = some gap.caused_by_align;
        caused_by_type = gap.caused_by_type;
        at_composition_boundary = some gap.at_composition_boundary;
      })
      no_more

unfoldable pub is_padding : PartKind → Bool
is_padding padding = true
is_padding _ = false

-- The comparator's result is at most 0: wire order, and padding first where offsets are equal.
unfoldable pub stands_before : CompositionPart → CompositionPart → Bool
stands_before p q =
    let a = head_of p in
    let b = head_of q in
    if ltb a.offset_bytes b.offset_bytes
    then true
    else if ltb b.offset_bytes a.offset_bytes
    then false
    else not (not (is_padding a.kind) && is_padding b.kind)

-- One field, where `below` gives the parts of a nested struct, `none` where the depth or a cycle
-- forbids to go down.
unfoldable pub field_part :
    StructRoleReport → (Text → ℕ → List CompositionPart) → ℕ → CFieldLayout → CompositionPart
field_part roles below base f = elim f.struct_type_name [
  | none ↦ scalar_part base f
  | some [] ↦ scalar_part base f
  | some (c ∷ name) ↦
      if f.is_struct_member
      then block_part roles base f (c ∷ name) (below (c ∷ name) (base + f.offset_bytes))
      else scalar_part base f
]

unfoldable pub level :
    StructRoleReport → (Text → ℕ → List CompositionPart) → ℕ → CStructLayout → List CompositionPart
level roles below base layout =
    sort_by stands_before (
      map (field_part roles below base) layout.fields
      ++ map (padding_part base) layout.padding_gaps)

-- `layoutOf`, then the parts, empty for a struct without a layout.
unfoldable pub level_of :
    StructRoleReport
    → (Text → ℕ → List CompositionPart)
    → ℕ
    → Option CStructLayout
    → List CompositionPart
level_of roles below base none = []
level_of roles below base (some layout) = level roles below base layout

-- `partsOf`, with the levels left below the depth cap.
unfoldable pub parts_of :
    ℕ → StructCatalog → StructRoleReport → List Text → ℕ → Text → List CompositionPart
parts_of zero catalog roles seen base struct_name =
    level_of roles (λ name at_offset. []) base (layout_of catalog struct_name)
parts_of (suc left) catalog roles seen base struct_name =
    let deeper = λ (name : Text).
      λ (at_offset : ℕ). parts_of left catalog roles (name ∷ seen) at_offset name in
    level_of roles (λ name at_offset. if includes_text seen name then [] else deeper name at_offset)
      base (layout_of catalog struct_name)

-- A message with the struct it was resolved to, if it was.
pub record RootedMessage : Type 0 where
  pub constant : Text
  pub value : Text
  pub root : Option Text
  pub source_file : Text

pub record BothTargets : Type 0 where
  pub on32 : ℕ
  pub on64 : ℕ

unfoldable pub by_target : Target → ℕ → ℕ → BothTargets
by_target bit32 here there = record { on32 = here; on64 = there }
by_target bit64 here there = record { on32 = there; on64 = here }

pub record MessageComposition : Type 0 where
  pub constant : Text
  pub value : Text
  pub root_struct : Text
  pub source_file : Text
  pub size_by_target : BothTargets
  pub padding_by_target : BothTargets
  pub differs_across_targets : Bool
  pub is_estimated : Bool
  pub pack_attribute : Option ℕ
  pub parts : List CompositionPart
  pub pointer_warnings : List Text
  pub variable_array_warnings : List Text

unfoldable pub other : Target → Target
other bit64 = bit32
other bit32 = bit64

unfoldable pub size_or : ℕ → Option CStructLayout → ℕ
size_or here none = here
size_or here (some there) = there.total_size_bytes

unfoldable pub padding_or : ℕ → Option CStructLayout → ℕ
padding_or here none = here
padding_or here (some there) = there.padding_bytes

unfoldable pub compose :
    ℕ
    → Target
    → StructCatalog
    → StructRoleReport
    → RootedMessage
    → Text
    → CStructLayout
    → Option CStructLayout
    → MessageComposition
compose max_depth target catalog roles msg root here there =
    let warnings = collect_warnings roles root in
    let sizes = by_target target here.total_size_bytes (size_or here.total_size_bytes there) in
    record {
      constant = msg.constant;
      value = msg.value;
      root_struct = root;
      source_file = msg.source_file;
      size_by_target = sizes;
      padding_by_target = by_target target here.padding_bytes (padding_or here.padding_bytes there);
      differs_across_targets = not (sizes.on32 == sizes.on64);
      is_estimated = here.is_estimated;
      pack_attribute = here.pack_attribute;
      parts = parts_of max_depth catalog roles (root ∷ []) 0 root;
      pointer_warnings = warnings.pointers;
      variable_array_warnings = warnings.variable_arrays;
    }

-- One round: a message without a struct or whose struct has no layout is skipped.
unfoldable pub compose_message :
    ℕ
    → Target
    → StructCatalog
    → StructCatalog
    → StructRoleReport
    → RootedMessage
    → List MessageComposition
    → List MessageComposition
compose_message max_depth target catalog other_catalog roles msg out = elim msg.root [
  | none ↦ out
  | some root ↦ (elim (layout_of catalog root) [
    | none ↦ out
    | some here ↦
        compose max_depth target catalog roles msg root here (layout_of other_catalog root) ∷ out
  ])
]

unfoldable pub compose_all :
    ℕ
    → Target
    → StructCatalog
    → StructCatalog
    → StructRoleReport
    → List RootedMessage
    → List MessageComposition
compose_all max_depth target catalog other_catalog roles [] = []
compose_all max_depth target catalog other_catalog roles (msg ∷ msgs) =
    compose_message max_depth target catalog other_catalog roles msg
      (compose_all max_depth target catalog other_catalog roles msgs)

unfoldable pub build_message_compositions :
    (Text → Text → Bool)
    → ℕ
    → Target
    → TypeDict
    → StructCatalog
    → StructRoleReport
    → List RootedMessage
    → List MessageComposition
build_message_compositions locale_before max_depth target dict catalog roles msgs =
    sort_by (λ a b. locale_before a.constant b.constant)
      (compose_all max_depth target catalog
        (build_struct_catalog dict (record { target = other target; pack_override = none })) roles
        msgs)
