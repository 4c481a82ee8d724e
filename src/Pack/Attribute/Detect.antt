-- ===== src/Pack/Attribute/Detect.antt =====
-- Which declarations `detectPackedAttribute` finds packed.
use c_interface_discovery.Prelude.{
  Text, [], ◌∷◌, ◌++◌, some, Bool, true, false, ◌||◌, ◌≡◌, refl, arith, starts_with, trim_start,
  is_space, IsBlank,
}
use c_interface_discovery.Pack.Attribute.{
  attr, packed_keyword, group_packed, attribute_packed, detect_packed_attribute,
}
use c_interface_discovery.Pack.Attribute.Balance.{IsBalanced, balanced_group_iff}

-- White space before a parenthesis is skipped.
trim_start-blank : (ws s : Text) → IsBlank ws → trim_start (ws ++ 40 ∷ s) ≡ 40 ∷ s
unfolding trim_start is_space
trim_start-blank [] s h = refl
trim_start-blank (c ∷ ws) s (p, h) = rw (p, trim_start) (trim_start-blank ws s h)

or_right : (a b : Bool) → b ≡ true → (a || b) ≡ true
or_right true b h = refl
or_right false b h = h

attribute_packed-append :
    (pre s : Text) → attribute_packed s ≡ true → attribute_packed (pre ++ s) ≡ true
unfolding attribute_packed
attribute_packed-append [] s h = h
attribute_packed-append (c ∷ pre) s h = or_right _ _ (attribute_packed-append pre s h)

attribute_packed-here :
    (ws inner post : Text)
    → IsBlank ws
    → IsBalanced inner
    → packed_keyword (some inner) ≡ true
    → attribute_packed (attr ++ (ws ++ 40 ∷ (inner ++ 41 ∷ post))) ≡ true
unfolding attribute_packed starts_with group_packed
attribute_packed-here ws inner post w b k =
    rw (trim_start-blank ws (inner ++ 41 ∷ post) w, group_packed)
      (rw ((balanced_group_iff (inner ++ 41 ∷ post) inner).1 (b, (post, refl)), k) refl)

-- `__attribute__`, white space and a parenthesised group with balanced contents, anywhere in a
-- declaration, pack it to one byte, if the contents have the word `packed` or `__packed__`, however
-- deep in parentheses the word stands.
pub detect_packed_attribute-group :
    (pre ws inner post : Text)
    → IsBlank ws
    → IsBalanced inner
    → packed_keyword (some inner) ≡ true
    → detect_packed_attribute (pre ++ (attr ++ (ws ++ 40 ∷ (inner ++ 41 ∷ post)))) ≡ some 1
unfolding detect_packed_attribute
detect_packed_attribute-group pre ws inner post w b k =
    let found = attribute_packed-append pre _ (attribute_packed-here ws inner post w b k) in
    ground (arith, found)
