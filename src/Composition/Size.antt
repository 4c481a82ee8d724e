-- ===== src/Composition/Size.antt =====
-- The parts of a message in src/analyzer/messageComposition.ts make up its size.
use c_interface_discovery.Prelude.{
  ℕ, zero, suc, ◌+◌, Text, List, [], ◌∷◌, ◌++◌, map, keep, find, Option, none, some, Bool, true,
  false, All, ◌⊎◌, ◌≡◌, refl, sym, subst, ◌∙◌, Bool-cases, inl, inr, arith,
}
use c_interface_discovery.Types.{TypeDict}
use c_interface_discovery.Layout.Fields.{CFieldLayout, PaddingGap}
use c_interface_discovery.Layout.Fields.Tiling.{field_bytes, gap_bytes}
use c_interface_discovery.Layout.Compute.{
  LayoutOptions, CStructLayout, compute_layout, build_struct_catalog,
}
use c_interface_discovery.Layout.Compute.Laws.{compute_layout-tiled}
use c_interface_discovery.Layout.Compute.Catalog.{declares_fields, build_struct_catalog-map}
use c_interface_discovery.Roles.Types.{StructRoleReport}
use c_interface_discovery.Roles.Report.{insert_by, sort_by}
use c_interface_discovery.Composition.{
  CompositionPart, head_of, layout_of, block_part, scalar_part, padding_part, stands_before,
  field_part, level, level_of, parts_of,
}

abbrev pub total : List CompositionPart → ℕ
total [] = 0
total (p ∷ ps) = (head_of p).size_bytes + total ps

total-append : (ps qs : List CompositionPart) → total (ps ++ qs) ≡ total ps + total qs
total-append [] qs = omega arith
total-append (p ∷ ps) qs = omega (arith, total-append ps qs)

total-insert_by :
    (p : CompositionPart) (ps : List CompositionPart)
    → total (insert_by stands_before p ps) ≡ (head_of p).size_bytes + total ps
unfolding insert_by
total-insert_by p [] = refl
total-insert_by p (q ∷ ps) = elim (Bool-cases (stands_before p q)) [
  | inl e ↦ rw (e, insert_by) refl
  | inr e ↦ rw (e, insert_by) (omega (arith, total-insert_by p ps))
]

total-sort_by : (ps : List CompositionPart) → total (sort_by stands_before ps) ≡ total ps
unfolding sort_by
total-sort_by [] = refl
total-sort_by (p ∷ ps) =
    omega (arith, total-insert_by p (sort_by stands_before ps), total-sort_by ps)

module _ (roles : StructRoleReport) (below : Text → ℕ → List CompositionPart) (base : ℕ) where
  field_part-size :
      (f : CFieldLayout) → (head_of (field_part roles below base f)).size_bytes ≡ f.size_bytes
  unfolding field_part block_part scalar_part head_of
  field_part-size f = go f.struct_type_name refl (Bool-cases f.is_struct_member)
    where
      go :
          (o : Option Text)
          → f.struct_type_name ≡ o
          → ((f.is_struct_member ≡ true) ⊎ (f.is_struct_member ≡ false))
          → (head_of (field_part roles below base f)).size_bytes ≡ f.size_bytes
      go none e b = rw (e, field_part) refl
      go (some []) e b = rw (e, field_part) refl
      go (some (c ∷ name)) e (inl b) = rw (e, b, field_part) refl
      go (some (c ∷ name)) e (inr b) = rw (e, b, field_part) refl

  total-fields :
      (fs : List CFieldLayout) → total (map (field_part roles below base) fs) ≡ field_bytes fs
  total-fields [] = refl
  total-fields (f ∷ fs) = omega (arith, field_part-size f, total-fields fs)

  total-gaps : (gs : List PaddingGap) → total (map (padding_part base) gs) ≡ gap_bytes gs
  unfolding padding_part head_of
  total-gaps [] = refl
  total-gaps (g ∷ gs) = omega (arith, total-gaps gs)

  total-level :
      (l : CStructLayout)
      → total (level roles below base l) ≡ field_bytes l.fields + gap_bytes l.padding_gaps
  unfolding level
  total-level l =
      total-sort_by _
      ∙ (total-append (map (field_part roles below base) l.fields)
            (map (padding_part base) l.padding_gaps)
          ∙ omega (arith, total-fields l.fields, total-gaps l.padding_gaps))

-- The fields and the gaps of a layout make up its size.
abbrev IsWhole : CStructLayout → Type 0
IsWhole l = field_bytes l.fields + gap_bytes l.padding_gaps ≡ l.total_size_bytes

All-map :
    {A B : Type 0} (P : B → Type 0) (f : A → B) (xs : List A)
    → ((a : A) → P (f a))
    → All P (map f xs)
All-map P f [] h = tt
All-map P f (x ∷ xs) h = (h x, All-map P f xs h)

All-find :
    {A : Type 0} (P : A → Type 0) (p : A → Bool) (xs : List A) (x : A)
    → All P xs
    → find p xs ≡ some x
    → P x
All-find P p [] x h e = absurd (cc e)
All-find P p (y ∷ ys) x (h, hs) e = elim (Bool-cases (p y)) [
  | inl b ↦ subst P (ground (arith, b, e)) h
  | inr b ↦ All-find P p ys x hs (rw b at e)
]

catalog-IsWhole :
    (dict : TypeDict) (opts : LayoutOptions) → All IsWhole (build_struct_catalog dict opts).layouts
catalog-IsWhole dict opts = subst (All IsWhole) (sym (build_struct_catalog-map dict opts).0) (
    All-map IsWhole (λ s. compute_layout s dict opts) (keep declares_fields dict.structs)
      (λ s. (compute_layout-tiled s dict opts).0))

-- With the catalog of any dictionary, the parts of a struct that has a layout, padding included,
-- add up to the size of the struct, however many levels are left below it.
pub total-parts_of :
    (dict : TypeDict) (opts : LayoutOptions) (roles : StructRoleReport) (left : ℕ)
    (seen : List Text) (base : ℕ) (name : Text) (l : CStructLayout)
    → layout_of (build_struct_catalog dict opts) name ≡ some l
    → total (parts_of left (build_struct_catalog dict opts) roles seen base name)
      ≡ l.total_size_bytes
unfolding parts_of level_of layout_of
total-parts_of dict opts roles zero seen base name l h =
    rw (h, parts_of)
      (total-level roles _ base l ∙ All-find IsWhole _ _ l (catalog-IsWhole dict opts) h)
total-parts_of dict opts roles (suc left) seen base name l h =
    rw (h, parts_of)
      (total-level roles _ base l ∙ All-find IsWhole _ _ l (catalog-IsWhole dict opts) h)
