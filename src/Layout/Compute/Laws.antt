-- ===== src/Layout/Compute/Laws.antt =====
-- What holds of every layout that `computeLayout` of src/analyzer/structLayoutEngine.ts returns.
use c_interface_discovery.Prelude.{ℕ, ◌+◌, ◌%◌, ◌≤◌, [], ◌≡◌, All, length, ◌∷◌, none}
use c_interface_discovery.Types.{CStruct, TypeDict}
use c_interface_discovery.Layout.FieldType.{ParsedFieldType}
use c_interface_discovery.Layout.Typedefs.{build_typedef_map}
use c_interface_discovery.Layout.Fields.{Measured}
use c_interface_discovery.Layout.Fields.Tiling.{field_bytes, gap_bytes, layout_fields-tiled}
use c_interface_discovery.Layout.Fields.Aligned.{IsAligned, Fits, max_align, layout_fields-placed}
use c_interface_discovery.Layout.Fields.Packed.{layout_fields-packed}
use c_interface_discovery.Layout.Fields.Gaps.{IsMinimal, layout_fields-IsMinimal}
use c_interface_discovery.Layout.Compute.{
  measure, pack_value, compute_layout_internal, compute_layout, LayoutOptions,
}
use c_interface_discovery.Layout.Compute.Positive.{measure-positive, compute-positive}

-- The alignment limit that `computeLayout` uses for a struct.
abbrev pub limit : CStruct → LayoutOptions → ℕ
limit struct opts = pack_value opts.pack_override struct.pack_attribute opts.target

-- How the fields of a struct are measured by `computeLayout`.
abbrev measured : CStruct → TypeDict → LayoutOptions → ParsedFieldType → Measured
measured struct dict opts =
    measure
      (λ s.
        compute_layout_internal (length dict.structs) opts.target dict (build_typedef_map dict)
          (s.name ∷ struct.name ∷ []) (pack_value none s.pack_attribute opts.target) s)
      opts.target dict (build_typedef_map dict) (struct.name ∷ [])

measured-positive :
    (struct : CStruct) (dict : TypeDict) (opts : LayoutOptions) (parsed : ParsedFieldType)
    → 1 ≤ (measured struct dict opts parsed).align
measured-positive struct dict opts parsed =
    measure-positive _ (λ s. compute-positive _ _ _ _ _ _ s) opts.target dict _ _ parsed

-- In the layout of any struct, the fields and the padding gaps together make up the size, and the
-- padding that is reported is the sum of the gaps.
pub compute_layout-tiled :
    (struct : CStruct) (dict : TypeDict) (opts : LayoutOptions)
    → (field_bytes (compute_layout struct dict opts).fields
          + gap_bytes (compute_layout struct dict opts).padding_gaps
        ≡ (compute_layout struct dict opts).total_size_bytes)
      × (gap_bytes (compute_layout struct dict opts).padding_gaps
          ≡ (compute_layout struct dict opts).padding_bytes)
unfolding compute_layout compute_layout_internal
compute_layout-tiled struct dict opts =
    layout_fields-tiled (measured struct dict opts) (limit struct opts) struct.fields

-- If the pack value in force is at least 1, then in the layout of any struct each field starts at a
-- multiple of its alignment, behind the end of the field before it, and ends within the struct; the
-- struct's alignment is the strictest of its fields', and its size a multiple of that.
pub compute_layout-placed :
    (struct : CStruct) (dict : TypeDict) (opts : LayoutOptions)
    → 1 ≤ limit struct opts
    → All IsAligned (compute_layout struct dict opts).fields
      × Fits 0
          (compute_layout struct dict opts).fields
          (compute_layout struct dict opts).total_size_bytes
      × ((compute_layout struct dict opts).align_bytes
          ≡ max_align (compute_layout struct dict opts).fields)
      × ((compute_layout struct dict opts).total_size_bytes
            % (compute_layout struct dict opts).align_bytes
          ≡ 0)
unfolding compute_layout compute_layout_internal
compute_layout-placed struct dict opts =
    layout_fields-placed (measured struct dict opts) (limit struct opts) struct.fields
      (measured-positive struct dict opts)

-- If the pack value in force is at least 1, no byte of padding is wasted: every gap has at least one
-- byte, fewer bytes than the alignment that forced it, and ends at a multiple of that alignment.
pub compute_layout-IsMinimal :
    (struct : CStruct) (dict : TypeDict) (opts : LayoutOptions)
    → 1 ≤ limit struct opts
    → All IsMinimal (compute_layout struct dict opts).padding_gaps
unfolding compute_layout compute_layout_internal
compute_layout-IsMinimal struct dict opts =
    layout_fields-IsMinimal (measured struct dict opts) (limit struct opts) struct.fields
      (measured-positive struct dict opts)

-- A struct packed to one byte has no padding, is as large as its fields together, and asks for no
-- alignment.
pub compute_layout-packed :
    (struct : CStruct) (dict : TypeDict) (opts : LayoutOptions)
    → limit struct opts ≤ 1
    → ((compute_layout struct dict opts).padding_gaps ≡ [])
      × ((compute_layout struct dict opts).padding_bytes ≡ 0)
      × ((compute_layout struct dict opts).total_size_bytes
          ≡ field_bytes (compute_layout struct dict opts).fields)
      × ((compute_layout struct dict opts).align_bytes ≡ 1)
unfolding compute_layout compute_layout_internal
compute_layout-packed struct dict opts =
    layout_fields-packed (measured struct dict opts) (limit struct opts) struct.fields
