-- ===== src/Layout/Compute/Catalog.antt =====
-- Which layouts `buildStructCatalog` of src/analyzer/structLayoutEngine.ts lists.
use c_interface_discovery.Prelude.{
  ℕ, Text, List, [], ◌∷◌, ◌++◌, Option, none, some, Bool, true, false, ◌==◌, ltb, map, keep, length,
  ◌≡◌, refl, sym, ap, ◌∙◌, Bool-cases, inl, inr, arith, if◌then◌else◌,
}
use mathlib.Core.List.{append-nil, append_assoc}
use c_interface_discovery.Types.{CField, CStruct, TypeDict}
use c_interface_discovery.Layout.FieldType.{ParsedFieldType}
use c_interface_discovery.Layout.Typedefs.{build_typedef_map}
use c_interface_discovery.Layout.Fields.{
  CFieldLayout, Measured, LoopState, begin, place, append, bitfield_step, member_step, place_field,
  field_step, fields_loop, finish, layout_fields,
}
use c_interface_discovery.Layout.Compute.{
  compute_layout_internal, compute_layout, LayoutOptions, is_opaque, catalog_layout,
  catalog_layouts, build_struct_catalog,
}

-- The names and types of the fields that are laid out, and of those that are declared.
abbrev pub laid_out : List CFieldLayout → List (Text × Text)
laid_out fields = map (λ f. (f.name, f.type)) fields

abbrev pub declared : List CField → List (Text × Text)
declared fields = map (λ f. (f.name, f.type)) fields

laid_out-append :
    (fs : List CFieldLayout) (f : CFieldLayout)
    → laid_out (fs ++ f ∷ []) ≡ laid_out fs ++ (f.name, f.type) ∷ []
laid_out-append [] f = refl
laid_out-append (g ∷ fs) f = ap (λ l. (g.name, g.type) ∷ l) (laid_out-append fs f)

-- The field stands behind those of the state.
abbrev Pushes : CField → LoopState → LoopState → Type 0
Pushes field st st' =
    laid_out st'.field_layouts ≡ laid_out st.field_layouts ++ (field.name, field.type) ∷ []

place_field-Pushes :
    (field : CField) (parsed : ParsedFieldType) (m : Measured) (pack : ℕ) (st : LoopState)
    → Pushes field st (place_field field parsed m pack st)
unfolding place_field bitfield_step member_step append place
place_field-Pushes field parsed m pack st = go parsed.bit_width parsed.is_bitfield
  where
    go :
        (w : Option ℕ) (b : Bool)
        → Pushes field st (elim w [
          | none ↦ member_step field parsed m pack st
          | some n ↦
              if b then bitfield_step field n m pack st else member_step field parsed m pack st
        ])
    go none b = laid_out-append st.field_layouts _
    go (some n) true = laid_out-append st.field_layouts _
    go (some n) false = laid_out-append st.field_layouts _

fields_loop-laid_out :
    (measure : ParsedFieldType → Measured) (pack : ℕ) (fields : List CField) (st : LoopState)
    → laid_out (fields_loop measure pack fields st).field_layouts
      ≡ laid_out st.field_layouts ++ declared fields
unfolding fields_loop field_step
fields_loop-laid_out measure pack [] st = sym (append-nil (laid_out st.field_layouts))
fields_loop-laid_out measure pack (f ∷ fields) st =
    fields_loop-laid_out measure pack fields _
    ∙ (ap (λ l. l ++ declared fields) (place_field-Pushes f _ _ pack _)
        ∙ append_assoc (laid_out st.field_layouts) ((f.name, f.type) ∷ []) (declared fields))

compute_layout-laid_out :
    (struct : CStruct) (dict : TypeDict) (opts : LayoutOptions)
    → laid_out (compute_layout struct dict opts).fields ≡ declared struct.fields
unfolding compute_layout compute_layout_internal layout_fields finish
compute_layout-laid_out struct dict opts = fields_loop-laid_out _ _ struct.fields begin

-- The struct is not opaque.
abbrev pub declares_fields : CStruct → Bool
declares_fields s = ltb 0 (length s.fields)

catalog_layouts-map :
    (structs : List CStruct) (dict : TypeDict) (opts : LayoutOptions)
    → catalog_layouts (build_typedef_map dict) dict opts structs
      ≡ map (λ s. compute_layout s dict opts) (keep declares_fields structs)
unfolding catalog_layouts is_opaque catalog_layout compute_layout
catalog_layouts-map [] dict opts = refl
catalog_layouts-map (s ∷ ss) dict opts =
    let rest = catalog_layouts-map ss dict opts in
    elim (Bool-cases (length s.fields == 0)) [
      | inl e ↦
          let no : ltb 0 (length s.fields) ≡ false = ground (arith, e) in
          rw (e, no, catalog_layouts) rest
      | inr e ↦
          let yes : ltb 0 (length s.fields) ≡ true = ground (arith, e) in
          rw (e, yes, catalog_layouts) (ap (λ ls. compute_layout s dict opts ∷ ls) rest)
    ]

laid_out_all :
    (structs : List CStruct) (dict : TypeDict) (opts : LayoutOptions)
    → map {B = Text × List (Text × Text)}
        (λ l. (l.name, laid_out l.fields))
        (map (λ s. compute_layout s dict opts) structs)
      ≡ map (λ s. (s.name, declared s.fields)) structs
unfolding compute_layout
laid_out_all [] dict opts = refl
laid_out_all (s ∷ ss) dict opts =
    rw (compute_layout-laid_out s dict opts, laid_out_all ss dict opts) refl

-- The catalog has, in the order of the dictionary, one layout for each struct that declares a field, and
-- no other: the one that `computeLayout` gives, though the catalog builds its typedef map only once.
-- Each lists the fields of its struct, all of them and in order, by their names and types.
pub build_struct_catalog-map :
    (dict : TypeDict) (opts : LayoutOptions)
    → let layouts = (build_struct_catalog dict opts).layouts in
      let structs = keep declares_fields dict.structs in
      (layouts ≡ map (λ s. compute_layout s dict opts) structs)
      × (map {B = Text × List (Text × Text)} (λ l. (l.name, laid_out l.fields)) layouts
          ≡ map (λ s. (s.name, declared s.fields)) structs)
unfolding build_struct_catalog
build_struct_catalog-map dict opts =
    let listed = catalog_layouts-map dict.structs dict opts in
    (listed, rw listed (laid_out_all (keep declares_fields dict.structs) dict opts))
