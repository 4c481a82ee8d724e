-- ===== src/Layout/Fields.antt =====
-- The loop over the fields in `computeLayoutInternal` of src/analyzer/structLayoutEngine.ts, over what
-- the base type of each field was measured to be.
pub mod Loop
pub mod Tiling
pub mod Aligned
pub mod Packed
pub mod Gaps
use c_interface_discovery.Prelude.{
  ℕ, zero, suc, ◌+◌, ◌-◌, ◌*◌, min, max, Text, List, [], ◌∷◌, ◌++◌, Option, none, some, Bool, true,
  false, ◌&&◌, ◌||◌, leb, ltb, last, is_some, if◌then◌else◌,
}
use c_interface_discovery.Types.{CField}
use c_interface_discovery.Layout.Primitives.{align_up}
use c_interface_discovery.Layout.FieldType.{ParsedFieldType, parse_field_type}

pub record CFieldLayout : Type 0 where
  pub name : Text
  pub type : Text
  pub bit_width : Option ℕ
  pub offset_bytes : ℕ
  pub size_bytes : ℕ
  pub align_bytes : ℕ
  pub is_pointer : Bool
  pub is_array : Bool
  pub array_length : Option ℕ
  pub is_struct_member : Bool
  pub struct_type_name : Option Text

pub data GapReason : Type 0 where
  align_member align_struct_tail : GapReason

pub record PaddingGap : Type 0 where
  pub after_field : Option Text
  pub before_field : Option Text
  pub offset_bytes : ℕ
  pub size_bytes : ℕ
  pub reason : GapReason
  pub caused_by_align : ℕ
  pub caused_by_type : Option Text
  pub at_composition_boundary : Bool

-- `fieldSize`, `fieldAlign` and `structTypeName`, and whether measuring set `isEstimated`.
pub record Measured : Type 0 where
  pub size : ℕ
  pub align : ℕ
  pub struct_type_name : Option Text
  pub estimated : Bool

-- The variables of the loop.
pub record LoopState : Type 0 where
  pub field_layouts : List CFieldLayout
  pub padding_gaps : List PaddingGap
  pub offset : ℕ
  pub struct_align : ℕ
  pub is_estimated : Bool
  pub internal_padding_bytes : ℕ

abbrev pub begin : LoopState
begin = record {
  field_layouts = [];
  padding_gaps = [];
  offset = 0;
  struct_align = 1;
  is_estimated = false;
  internal_padding_bytes = 0;
}

-- `prev?.name ?? null` and `Boolean(prev?.isStructMember)`
unfoldable pub name_of : Option CFieldLayout → Option Text
name_of none = none
name_of (some f) = some f.name

unfoldable pub is_member : Option CFieldLayout → Bool
is_member none = false
is_member (some f) = f.is_struct_member

-- `recordGap`
unfoldable pub record_gap :
    ℕ → ℕ → Text → ℕ → Option Text → Bool → List CFieldLayout → List PaddingGap → List PaddingGap
record_gap from to before caused_by_align caused_by_type next_is_struct fields gaps =
    if leb to from
    then gaps
    else gaps
      ++ record {
        after_field = name_of (last fields);
        before_field = some before;
        offset_bytes = from;
        size_bytes = to - from;
        reason = align_member;
        caused_by_align = caused_by_align;
        caused_by_type = caused_by_type;
        at_composition_boundary = is_member (last fields) && next_is_struct;
      }
        ∷ []

-- Aligning the offset, with the gap that this opens: `recordGap`, the padding and the alignment.
unfoldable pub place : Text → ℕ → Option Text → Bool → LoopState → LoopState
place name effective_align caused_by_type next_is_struct st =
    let aligned = align_up st.offset effective_align in
    record st {
      padding_gaps =
          record_gap st.offset aligned name effective_align caused_by_type next_is_struct
            st.field_layouts st.padding_gaps;
      offset = aligned;
      struct_align = max st.struct_align effective_align;
      internal_padding_bytes = st.internal_padding_bytes + (aligned - st.offset);
    }

-- `fieldLayouts.push(…)` and `offset += size`
unfoldable pub append : CFieldLayout → LoopState → LoopState
append f st = record st {
  field_layouts = st.field_layouts ++ f ∷ [];
  offset = st.offset + f.size_bytes;
}

-- `structTypeName ?? baseType`
unfoldable pub type_or : Option Text → Text → Text
type_or none base = base
type_or (some name) base = name

-- `isArray ? elementSize * (arrayLength ?? 1) : elementSize`
unfoldable pub array_size : ℕ → Option ℕ → ℕ
array_size size none = size * 1
array_size size (some n) = size * n

unfoldable pub total_size : Bool → ℕ → Option ℕ → ℕ
total_size is_array size array_length = if is_array then array_size size array_length else size

-- The branch of a bit-field of a known width.
unfoldable pub bitfield_step : CField → ℕ → Measured → ℕ → LoopState → LoopState
bitfield_step field bit_width m pack st =
    let effective_align = min m.align pack in
    let placed = place field.name effective_align (some field.type) false st in
    append
      (record {
        name = field.name;
        type = field.type;
        bit_width = some bit_width;
        offset_bytes = placed.offset;
        size_bytes = m.size;
        align_bytes = effective_align;
        is_pointer = false;
        is_array = false;
        array_length = none;
        is_struct_member = false;
        struct_type_name = none;
      })
      placed

-- The rest of the loop's body, for every other field.
unfoldable pub member_step : CField → ParsedFieldType → Measured → ℕ → LoopState → LoopState
member_step field parsed m pack st =
    let effective_align = min m.align pack in
    let placed =
      place field.name effective_align (some (type_or m.struct_type_name parsed.base_type))
        (is_some m.struct_type_name) st in
    let unknown_length =
      parsed.is_array && (elim parsed.array_length [ none ↦ true | some _ ↦ false ]) in
    let estimated = record placed { is_estimated = placed.is_estimated || unknown_length } in
    append
      (record {
        name = field.name;
        type = field.type;
        bit_width = none;
        offset_bytes = placed.offset;
        size_bytes = total_size parsed.is_array m.size parsed.array_length;
        align_bytes = effective_align;
        is_pointer = parsed.is_pointer;
        is_array = parsed.is_array;
        array_length = parsed.array_length;
        is_struct_member = is_some m.struct_type_name;
        struct_type_name = m.struct_type_name;
      })
      estimated

-- `if (isBitfield && bitWidth !== undefined) { …; continue; }`, then the rest.
unfoldable pub place_field : CField → ParsedFieldType → Measured → ℕ → LoopState → LoopState
place_field field parsed m pack st = elim parsed.bit_width [
  | none ↦ member_step field parsed m pack st
  | some w ↦
      if parsed.is_bitfield
      then bitfield_step field w m pack st
      else member_step field parsed m pack st
]

-- One round: the field's type is parsed and measured, then the field is placed.
unfoldable pub field_step : (ParsedFieldType → Measured) → ℕ → CField → LoopState → LoopState
field_step measure pack field st =
    let parsed = parse_field_type field.type field.name in
    let m = measure parsed in
    place_field field parsed m pack (record st { is_estimated = st.is_estimated || m.estimated })

unfoldable pub fields_loop : (ParsedFieldType → Measured) → ℕ → List CField → LoopState → LoopState
fields_loop measure pack [] st = st
fields_loop measure pack (field ∷ fields) st =
    fields_loop measure pack fields (field_step measure pack field st)

-- What `computeLayoutInternal` returns.
pub record Layout : Type 0 where
  pub fields : List CFieldLayout
  pub total_size_bytes : ℕ
  pub align_bytes : ℕ
  pub padding_bytes : ℕ
  pub padding_gaps : List PaddingGap
  pub is_estimated : Bool

-- `if (totalSizeBytes > offset) paddingGaps.push(…)`
unfoldable pub tail_gap : ℕ → LoopState → List PaddingGap
tail_gap total st =
    if ltb st.offset total
    then st.padding_gaps
      ++ record {
        after_field = name_of (last st.field_layouts);
        before_field = none;
        offset_bytes = st.offset;
        size_bytes = total - st.offset;
        reason = align_struct_tail;
        caused_by_align = st.struct_align;
        caused_by_type = none;
        at_composition_boundary = false;
      }
        ∷ []
    else st.padding_gaps

-- The struct is padded to its alignment.
unfoldable pub finish : LoopState → Layout
finish st =
    let total = align_up st.offset st.struct_align in
    record {
      fields = st.field_layouts;
      total_size_bytes = total;
      align_bytes = st.struct_align;
      padding_bytes = st.internal_padding_bytes + (total - st.offset);
      padding_gaps = tail_gap total st;
      is_estimated = st.is_estimated;
    }

unfoldable pub layout_fields : (ParsedFieldType → Measured) → ℕ → List CField → Layout
layout_fields measure pack fields = finish (fields_loop measure pack fields begin)
