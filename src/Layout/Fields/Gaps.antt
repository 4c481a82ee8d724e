-- ===== src/Layout/Fields/Gaps.antt =====
-- How large the padding gaps are.
use c_interface_discovery.Prelude.{
  ℕ, ◌+◌, ◌-◌, ◌%◌, ◌≤◌, ◌<◌, Text, List, Option, Bool, ◌≡◌, arith, leb, ltb, All, All-append,
  Bool-cases, inl, inr,
}
use c_interface_discovery.Types.{CField}
use c_interface_discovery.Layout.Primitives.{align_up}
use c_interface_discovery.Layout.FieldType.{ParsedFieldType}
use c_interface_discovery.Layout.Fields.{
  CFieldLayout, PaddingGap, Measured, LoopState, begin, record_gap, place, append, tail_gap, finish,
  fields_loop, layout_fields,
}
use c_interface_discovery.Layout.Fields.Loop.{Keeps, fields_loop-keeps}
use c_interface_discovery.Layout.Fields.Tiling.{align_up-le}
use c_interface_discovery.Layout.Fields.Aligned.{align_up-lt, align_up-mod}

-- A gap has a byte, is smaller than the alignment that forced it, and ends at a multiple of that.
pub record IsMinimal (g : PaddingGap) : Type 0 where
  pub some_byte : 1 ≤ g.size_bytes
  pub small : g.size_bytes < g.caused_by_align
  pub ends : (g.offset_bytes + g.size_bytes) % g.caused_by_align ≡ 0

record HasMinimal (st : LoopState) : Type 0 where
  gaps : All IsMinimal st.padding_gaps
  positive : 1 ≤ st.struct_align

gap_ends : (from align : ℕ) → 1 ≤ align → (from + (align_up from align - from)) % align ≡ 0
gap_ends from align g =
    let reached : from + (align_up from align - from) ≡ align_up from align =
      omega (arith, align_up-le from align) in
    rw reached (align_up-mod from align g)

record_gap-IsMinimal :
    (from : ℕ) (name : Text) (align : ℕ) (type : Option Text) (inner : Bool)
    (fields : List CFieldLayout) (gaps : List PaddingGap)
    → 1 ≤ align
    → All IsMinimal gaps
    → All IsMinimal (record_gap from (align_up from align) name align type inner fields gaps)
unfolding record_gap
record_gap-IsMinimal from name align type inner fields gaps g h =
    elim (Bool-cases (leb (align_up from align) from)) [
      | inl e ↦ rw (e, record_gap) h
      | inr e ↦
          rw (e, record_gap)
            (All-append IsMinimal gaps _ h (
              record {
                some_byte = ground arith;
                small = omega (arith, align_up-lt from align g);
                ends = gap_ends from align g;
              },
              tt,
            ))
    ]

HasMinimal-keeps : Keeps (λ align. 1 ≤ align) HasMinimal
unfolding place append
HasMinimal-keeps = record {
  flag = λ e st h. record { gaps = h.gaps; positive = h.positive };
  next = λ f name align type inner st g at_offset at_align h. record {
    gaps =
        record_gap-IsMinimal st.offset name align type inner st.field_layouts st.padding_gaps g
          h.gaps;
    positive = omega (arith, h.positive);
  };
}

tail_gap-IsMinimal :
    (st : LoopState)
    → HasMinimal st
    → All IsMinimal (tail_gap (align_up st.offset st.struct_align) st)
unfolding tail_gap
tail_gap-IsMinimal st h = elim (Bool-cases (ltb st.offset (align_up st.offset st.struct_align))) [
  | inl e ↦
      rw (e, tail_gap)
        (All-append IsMinimal st.padding_gaps _ h.gaps (
          record {
            some_byte = ground arith;
            small = omega (arith, align_up-lt st.offset st.struct_align h.positive, h.positive);
            ends = gap_ends st.offset st.struct_align h.positive;
          },
          tt,
        ))
  | inr e ↦ rw (e, tail_gap) h.gaps
]

-- If every field type has an alignment of at least 1 and the pack value is at least 1, no padding is
-- wasted: every gap has at least one byte, fewer bytes than the alignment that forced it, and ends
-- at a multiple of that alignment.
pub layout_fields-IsMinimal :
    (measure : ParsedFieldType → Measured) (pack : ℕ) (fields : List CField)
    → ((parsed : ParsedFieldType) → 1 ≤ (measure parsed).align)
    → 1 ≤ pack
    → All IsMinimal (layout_fields measure pack fields).padding_gaps
unfolding layout_fields finish
layout_fields-IsMinimal measure pack fields g one =
    tail_gap-IsMinimal (fields_loop measure pack fields begin) (
      fields_loop-keeps HasMinimal-keeps measure pack (λ parsed. omega (arith, g parsed)) fields
        begin (record { gaps = tt; positive = omega arith }))
