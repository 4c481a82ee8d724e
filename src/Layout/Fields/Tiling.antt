-- ===== src/Layout/Fields/Tiling.antt =====
-- Fields and padding gaps cover a struct without overlap.
use c_interface_discovery.Prelude.{
  ℕ, ◌+◌, ◌-◌, ◌≤◌, Text, List, [], ◌∷◌, ◌++◌, Option, Bool, ◌≡◌, refl, arith, leb, ltb, Bool-cases,
  inl, inr,
}
use c_interface_discovery.Types.{CField}
use c_interface_discovery.Layout.Primitives.{align_up}
use c_interface_discovery.Layout.FieldType.{ParsedFieldType}
use c_interface_discovery.Layout.Fields.Loop.{Keeps, fields_loop-keeps}
use c_interface_discovery.Layout.Fields.{
  CFieldLayout, PaddingGap, Measured, LoopState, begin, record_gap, place, append, tail_gap, finish,
  layout_fields,
}

pub align_up-le : (offset align : ℕ) → offset ≤ align_up offset align
unfolding align_up
align_up-le offset align = ground arith

abbrev pub field_bytes : List CFieldLayout → ℕ
field_bytes [] = 0
field_bytes (f ∷ fs) = f.size_bytes + field_bytes fs

abbrev pub gap_bytes : List PaddingGap → ℕ
gap_bytes [] = 0
gap_bytes (g ∷ gs) = g.size_bytes + gap_bytes gs

pub field_bytes-append :
    (fs gs : List CFieldLayout) → field_bytes (fs ++ gs) ≡ field_bytes fs + field_bytes gs
field_bytes-append [] gs = omega arith
field_bytes-append (f ∷ fs) gs = omega (arith, field_bytes-append fs gs)

gap_bytes-append : (fs gs : List PaddingGap) → gap_bytes (fs ++ gs) ≡ gap_bytes fs + gap_bytes gs
gap_bytes-append [] gs = omega arith
gap_bytes-append (f ∷ fs) gs = omega (arith, gap_bytes-append fs gs)

gap_bytes-record_gap :
    (from to : ℕ) (before : Text) (align : ℕ) (type : Option Text) (next : Bool)
    (fields : List CFieldLayout) (gaps : List PaddingGap)
    → gap_bytes (record_gap from to before align type next fields gaps)
      ≡ gap_bytes gaps + (to - from)
unfolding record_gap
gap_bytes-record_gap from to before align type next fields gaps = elim (Bool-cases (leb to from)) [
  | inl e ↦ rw (e, record_gap) (ground arith)
  | inr e ↦ rw (e, record_gap) (rw gap_bytes-append (omega arith))
]

-- The bytes laid out so far are the fields' and the gaps'.
record IsTiled (st : LoopState) : Type 0 where
  covered : field_bytes st.field_layouts + gap_bytes st.padding_gaps ≡ st.offset
  padded : gap_bytes st.padding_gaps ≡ st.internal_padding_bytes

IsTiled-keeps : Keeps (λ align. Unit {0}) IsTiled
unfolding place append
IsTiled-keeps = record {
  flag = λ e st t. record { covered = t.covered; padded = t.padded };
  next = λ f name align type inner st g at_offset at_align t. record {
    covered = omega (
      arith,
      field_bytes-append st.field_layouts (f ∷ []),
      gap_bytes-record_gap st.offset (align_up st.offset align) name align type inner
          st.field_layouts st.padding_gaps,
      align_up-le st.offset align,
      t.covered,
    );
    padded = omega (
      arith,
      gap_bytes-record_gap st.offset (align_up st.offset align) name align type inner
          st.field_layouts st.padding_gaps,
      t.padded,
    );
  };
}

gap_bytes-tail_gap :
    (total : ℕ) (st : LoopState)
    → gap_bytes (tail_gap total st) ≡ gap_bytes st.padding_gaps + (total - st.offset)
unfolding tail_gap
gap_bytes-tail_gap total st = elim (Bool-cases (ltb st.offset total)) [
  | inl e ↦ rw (e, tail_gap) (rw gap_bytes-append (omega arith))
  | inr e ↦ rw (e, tail_gap) (ground arith)
]

finish-IsTiled :
    (st : LoopState)
    → IsTiled st
    → (field_bytes (finish st).fields + gap_bytes (finish st).padding_gaps
        ≡ (finish st).total_size_bytes)
      × (gap_bytes (finish st).padding_gaps ≡ (finish st).padding_bytes)
unfolding finish
finish-IsTiled st t =
    let total = align_up st.offset st.struct_align in
    (
      omega (arith, gap_bytes-tail_gap total st, align_up-le st.offset st.struct_align, t.covered),
      omega (arith, gap_bytes-tail_gap total st, t.padded),
    )

-- The padding that a struct reports is the sum of its gaps, and the fields and the gaps make up its
-- size, for any measure of the field types.
pub layout_fields-tiled :
    (measure : ParsedFieldType → Measured) (pack : ℕ) (fields : List CField)
    → (field_bytes (layout_fields measure pack fields).fields
          + gap_bytes (layout_fields measure pack fields).padding_gaps
        ≡ (layout_fields measure pack fields).total_size_bytes)
      × (gap_bytes (layout_fields measure pack fields).padding_gaps
          ≡ (layout_fields measure pack fields).padding_bytes)
unfolding layout_fields
layout_fields-tiled measure pack fields = finish-IsTiled _ (
    fields_loop-keeps IsTiled-keeps measure pack (λ _. tt) fields begin
      (record { covered = refl; padded = refl }))
