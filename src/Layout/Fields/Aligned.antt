-- ===== src/Layout/Fields/Aligned.antt =====
-- Where the fields of a struct land: aligned, in order, apart from one another.
use native.Mathlib.Nat.{mul-mod_left}
use c_interface_discovery.Prelude.{
  ℕ, ◌+◌, ◌-◌, ◌/◌, ◌%◌, ◌≤◌, ◌<◌, max, List, [], ◌∷◌, ◌++◌, ◌≡◌, refl, subst, arith, leb, leb→le,
  All, All-append, Bool-cases, inl, inr,
}
use c_interface_discovery.Types.{CField}
use c_interface_discovery.Layout.Primitives.{align_up}
use c_interface_discovery.Layout.FieldType.{ParsedFieldType}
use c_interface_discovery.Layout.Fields.{
  CFieldLayout, Measured, LoopState, begin, place, append, finish, layout_fields,
}
use c_interface_discovery.Layout.Fields.Loop.{Keeps, fields_loop-keeps}
use c_interface_discovery.Layout.Fields.Tiling.{align_up-le}

pub align_up-mod : (offset align : ℕ) → 1 ≤ align → align_up offset align % align ≡ 0
unfolding align_up
align_up-mod offset align h = elim (Bool-cases (leb align 1)) [
  | inl e ↦
      let one : align ≡ 1 = omega (arith, leb→le align 1 e) in
      rw (e, align_up) (rw one (omega arith))
  | inr e ↦ rw (e, align_up) (mul-mod_left ((offset + (align - 1)) / align) align)
]

pub align_up-lt : (offset align : ℕ) → 1 ≤ align → align_up offset align < offset + align
unfolding align_up
align_up-lt offset align h = ground arith

-- The fields lie between `lo` and `hi`, each behind the one before.
abbrev pub Fits : ℕ → List CFieldLayout → ℕ → Type 0
Fits lo [] hi = lo ≤ hi
Fits lo (f ∷ fs) hi = (lo ≤ f.offset_bytes) × Fits (f.offset_bytes + f.size_bytes) fs hi

Fits-append :
    (fs : List CFieldLayout) (lo hi : ℕ) (f : CFieldLayout)
    → Fits lo fs hi
    → hi ≤ f.offset_bytes
    → Fits lo (fs ++ f ∷ []) (f.offset_bytes + f.size_bytes)
Fits-append [] lo hi f h k = (omega arith, omega arith)
Fits-append (g ∷ fs) lo hi f (p, h) k = (p, Fits-append fs _ hi f h k)

Fits-le : (fs : List CFieldLayout) (lo hi top : ℕ) → Fits lo fs hi → hi ≤ top → Fits lo fs top
Fits-le [] lo hi top h k = omega arith
Fits-le (f ∷ fs) lo hi top (p, h) k = (p, Fits-le fs _ hi top h k)

-- The strictest alignment of the fields, at least 1.
abbrev pub max_align : List CFieldLayout → ℕ
max_align [] = 1
max_align (f ∷ fs) = max f.align_bytes (max_align fs)

max_align-append :
    (fs : List CFieldLayout) (f : CFieldLayout)
    → max_align (fs ++ f ∷ []) ≡ max (max_align fs) f.align_bytes
max_align-append [] f = omega arith
max_align-append (g ∷ fs) f = omega (arith, max_align-append fs f)

abbrev pub IsAligned : CFieldLayout → Type 0
IsAligned f = f.offset_bytes % f.align_bytes ≡ 0

record IsPlaced (st : LoopState) : Type 0 where
  aligned : All IsAligned st.field_layouts
  fits : Fits 0 st.field_layouts st.offset
  strictest : st.struct_align ≡ max_align st.field_layouts
  positive : 1 ≤ st.struct_align

IsPlaced-keeps : Keeps (λ align. 1 ≤ align) IsPlaced
unfolding place append
IsPlaced-keeps = record {
  flag = λ e st p. record {
    aligned = p.aligned;
    fits = p.fits;
    strictest = p.strictest;
    positive = p.positive;
  };
  next = λ f name align type inner st g at_offset at_align p. record {
    aligned =
        All-append IsAligned st.field_layouts (f ∷ []) p.aligned
          (rw (at_offset, at_align) (align_up-mod st.offset align g), tt);
    fits =
        subst (λ o. Fits 0 (st.field_layouts ++ f ∷ []) (o + f.size_bytes)) at_offset
          (Fits-append st.field_layouts 0 st.offset f p.fits
            (rw at_offset (align_up-le st.offset align)));
    strictest = omega (arith, max_align-append st.field_layouts f, p.strictest, at_align);
    positive = omega (arith, p.positive);
  };
}

-- If every field type has an alignment of at least 1 and the pack value is at least 1: each field
-- starts at a multiple of its alignment, behind the end of the field before it, and ends within the
-- struct; the struct's alignment is the strictest of its fields', and its size a multiple of that.
pub layout_fields-placed :
    (measure : ParsedFieldType → Measured) (pack : ℕ) (fields : List CField)
    → ((parsed : ParsedFieldType) → 1 ≤ (measure parsed).align)
    → 1 ≤ pack
    → All IsAligned (layout_fields measure pack fields).fields
      × Fits 0
          (layout_fields measure pack fields).fields
          (layout_fields measure pack fields).total_size_bytes
      × ((layout_fields measure pack fields).align_bytes
          ≡ max_align (layout_fields measure pack fields).fields)
      × ((layout_fields measure pack fields).total_size_bytes
            % (layout_fields measure pack fields).align_bytes
          ≡ 0)
unfolding layout_fields finish
layout_fields-placed measure pack fields g one =
    let start : IsPlaced begin = record {
      aligned = tt;
      fits = omega arith;
      strictest = refl;
      positive = omega arith;
    } in
    let p =
      fields_loop-keeps IsPlaced-keeps measure pack (λ parsed. omega (arith, g parsed)) fields begin
        start in
    (p.aligned, Fits-le _ 0 _ _ p.fits (align_up-le _ _), p.strictest, align_up-mod _ _ p.positive)
