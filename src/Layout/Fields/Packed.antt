-- ===== src/Layout/Fields/Packed.antt =====
-- What packing does to a layout.
use c_interface_discovery.Prelude.{ℕ, ◌≤◌, List, [], ◌∷◌, ◌≡◌, refl, arith}
use c_interface_discovery.Types.{CField}
use c_interface_discovery.Layout.Primitives.{align_up}
use c_interface_discovery.Layout.FieldType.{ParsedFieldType}
use c_interface_discovery.Layout.Fields.{
  Measured, LoopState, begin, record_gap, place, append, tail_gap, finish, fields_loop,
  layout_fields,
}
use c_interface_discovery.Layout.Fields.Loop.{Keeps, fields_loop-keeps}
use c_interface_discovery.Layout.Fields.Tiling.{field_bytes, field_bytes-append}

align_up-packed : (offset align : ℕ) → align ≤ 1 → align_up offset align ≡ offset
unfolding align_up
align_up-packed offset align h = ground arith

record IsDense (st : LoopState) : Type 0 where
  no_gaps : st.padding_gaps ≡ []
  no_padding : st.internal_padding_bytes ≡ 0
  bytes : st.offset ≡ field_bytes st.field_layouts
  unaligned : st.struct_align ≡ 1

IsDense-keeps : Keeps (λ align. align ≤ 1) IsDense
unfolding place append record_gap
IsDense-keeps = record {
  flag = λ e st d. record {
    no_gaps = d.no_gaps;
    no_padding = d.no_padding;
    bytes = d.bytes;
    unaligned = d.unaligned;
  };
  next = λ f name align type inner st g at_offset at_align d.
      let still = align_up-packed st.offset align g in
      record {
        no_gaps = ground (arith, still, d.no_gaps);
        no_padding = omega (arith, still, d.no_padding);
        bytes = omega (arith, still, d.bytes, field_bytes-append st.field_layouts (f ∷ []));
        unaligned = omega (arith, d.unaligned);
      };
}

dense-finish :
    (st : LoopState)
    → IsDense st
    → ((finish st).padding_gaps ≡ [])
      × ((finish st).padding_bytes ≡ 0)
      × ((finish st).total_size_bytes ≡ field_bytes (finish st).fields)
      × ((finish st).align_bytes ≡ 1)
unfolding finish tail_gap
dense-finish st d =
    let still : align_up st.offset st.struct_align ≡ st.offset =
      align_up-packed st.offset st.struct_align (omega (arith, d.unaligned)) in
    (
      ground (arith, still, d.no_gaps),
      omega (arith, still, d.no_padding),
      omega (arith, still, d.bytes),
      d.unaligned,
    )

-- A struct packed to one byte has no padding gap and no padding, is as large as its fields together,
-- and asks for no alignment.
pub layout_fields-packed :
    (measure : ParsedFieldType → Measured) (pack : ℕ) (fields : List CField)
    → pack ≤ 1
    → ((layout_fields measure pack fields).padding_gaps ≡ [])
      × ((layout_fields measure pack fields).padding_bytes ≡ 0)
      × ((layout_fields measure pack fields).total_size_bytes
          ≡ field_bytes (layout_fields measure pack fields).fields)
      × ((layout_fields measure pack fields).align_bytes ≡ 1)
unfolding layout_fields
layout_fields-packed measure pack fields h = dense-finish (fields_loop measure pack fields begin) (
    fields_loop-keeps IsDense-keeps measure pack (λ parsed. omega arith) fields begin
      (record { no_gaps = refl; no_padding = refl; bytes = refl; unaligned = refl }))
