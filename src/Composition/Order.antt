-- ===== src/Composition/Order.antt =====
-- The order of the parts in src/analyzer/messageComposition.ts.
use c_interface_discovery.Prelude.{
  ℕ, zero, suc, ◌+◌, ◌*◌, ◌≤◌, Text, List, Option, none, some, true, false, ◌≡◌, if◌then◌else◌,
  arith,
}
use c_interface_discovery.Layout.Compute.{CStructLayout, StructCatalog}
use c_interface_discovery.Roles.Types.{StructRoleReport}
use c_interface_discovery.Roles.Rules.{IsRanked, sort_by-IsRanked}
use c_interface_discovery.Composition.{
  CompositionPart, head_of, is_padding, stands_before, level, level_of, parts_of,
}

-- The place on the wire: the offset, and padding before a field at the same offset.
abbrev pub wire_rank : CompositionPart → ℕ
wire_rank p =
    let head = head_of p in 2 * head.offset_bytes + (if is_padding head.kind then 0 else 1)

stands_before-up : (p q : CompositionPart) → stands_before p q ≡ true → wire_rank p ≤ wire_rank q
unfolding stands_before
stands_before-up p q h = ground arith

stands_before-down : (p q : CompositionPart) → stands_before p q ≡ false → wire_rank q ≤ wire_rank p
unfolding stands_before
stands_before-down p q h = ground arith

level_of-IsRanked :
    (roles : StructRoleReport) (below : Text → ℕ → List CompositionPart) (base : ℕ)
    (o : Option CStructLayout)
    → IsRanked wire_rank (level_of roles below base o)
unfolding level_of level
level_of-IsRanked roles below base none = tt
level_of-IsRanked roles below base (some layout) =
    sort_by-IsRanked wire_rank stands_before stands_before-up stands_before-down _

-- The parts of any struct, however many levels are left below it, stand in wire order: by offset,
-- and at the same offset padding comes first.
pub parts_of-IsRanked :
    (left : ℕ) (catalog : StructCatalog) (roles : StructRoleReport) (seen : List Text) (base : ℕ)
    (name : Text)
    → IsRanked wire_rank (parts_of left catalog roles seen base name)
unfolding parts_of
parts_of-IsRanked zero catalog roles seen base name = level_of-IsRanked roles _ base _
parts_of-IsRanked (suc left) catalog roles seen base name = level_of-IsRanked roles _ base _
