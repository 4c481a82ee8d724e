-- ===== src/Layout/Fields/Loop.antt =====
-- One rule for what the loop over the fields keeps.
use c_interface_discovery.Prelude.{
  ℕ, min, Text, List, [], ◌∷◌, Option, none, some, Bool, true, false, ◌≡◌, refl, if◌then◌else◌,
}
use c_interface_discovery.Types.{CField}
use c_interface_discovery.Layout.Primitives.{align_up}
use c_interface_discovery.Layout.FieldType.{ParsedFieldType}
use c_interface_discovery.Layout.Fields.{
  CFieldLayout, Measured, LoopState, place, append, bitfield_step, member_step, place_field,
  field_step, fields_loop,
}

-- `P` ignores the estimate flag, and outlives the placing of a field at an alignment that is `Good`.
pub record Keeps (Good : ℕ → Type 0) (P : LoopState → Type 0) : Type 0 where
  pub flag : (e : Bool) (st : LoopState) → P st → P (record st { is_estimated = e })
  pub next :
      (f : CFieldLayout) (name : Text) (align : ℕ) (type : Option Text) (inner : Bool)
      (st : LoopState)
      → Good align
      → f.offset_bytes ≡ align_up st.offset align
      → f.align_bytes ≡ align
      → P st
      → P (append f (place name align type inner st))

module _ {Good : ℕ → Type 0} {P : LoopState → Type 0} (k : Keeps Good P) where
  member_step-keeps :
      (field : CField) (parsed : ParsedFieldType) (m : Measured) (pack : ℕ) (st : LoopState)
      → Good (min m.align pack)
      → P st
      → P (member_step field parsed m pack st)
  unfolding member_step append place
  member_step-keeps field parsed m pack st g p =
      k.flag _ _ (k.next _ field.name (min m.align pack) _ _ st g refl refl p)

  bitfield_step-keeps :
      (field : CField) (w : ℕ) (m : Measured) (pack : ℕ) (st : LoopState)
      → Good (min m.align pack)
      → P st
      → P (bitfield_step field w m pack st)
  unfolding bitfield_step place
  bitfield_step-keeps field w m pack st g p =
      k.next _ field.name (min m.align pack) _ _ st g refl refl p

  place_field-keeps :
      (field : CField) (parsed : ParsedFieldType) (m : Measured) (pack : ℕ) (st : LoopState)
      → Good (min m.align pack)
      → P st
      → P (place_field field parsed m pack st)
  unfolding place_field
  place_field-keeps field parsed m pack st g p = go parsed.bit_width parsed.is_bitfield
    where
      go :
          (w : Option ℕ) (b : Bool)
          → P (elim w [
            | none ↦ member_step field parsed m pack st
            | some n ↦
                if b then bitfield_step field n m pack st else member_step field parsed m pack st
          ])
      go none b = member_step-keeps field parsed m pack st g p
      go (some n) true = bitfield_step-keeps field n m pack st g p
      go (some n) false = member_step-keeps field parsed m pack st g p

  pub fields_loop-keeps :
      (measure : ParsedFieldType → Measured) (pack : ℕ)
      → ((parsed : ParsedFieldType) → Good (min (measure parsed).align pack))
      → (fields : List CField) (st : LoopState) → P st
      → P (fields_loop measure pack fields st)
  unfolding fields_loop field_step
  fields_loop-keeps measure pack g [] st p = p
  fields_loop-keeps measure pack g (field ∷ fields) st p =
      fields_loop-keeps measure pack g fields (field_step measure pack field st)
        (place_field-keeps field _ _ pack _ (g _) (k.flag _ st p))
