-- ===== src/Pack/Resolve/Values.antt =====
-- What the packing of a declaration can be, with the pragmas of its file.
use c_interface_discovery.Prelude.{
  ℕ, Text, Option, none, some, ◌≡◌, ◌⊎◌, refl, subst, arith, Option-cases, inl, inr,
}
use c_interface_discovery.Pack.Attribute.{detect_packed_attribute}
use c_interface_discovery.Pack.Replay.{build_pack_map}
use c_interface_discovery.Pack.Replay.Values.{IsPack, build_pack_map-IsPack}
use c_interface_discovery.Pack.Resolve.{attribute, pragma, Pack, from_pragma, resolve_pack}

detect_packed_attribute-one : (text : Text) (n : ℕ) → detect_packed_attribute text ≡ some n → n ≡ 1
unfolding detect_packed_attribute
detect_packed_attribute-one text n h = ground arith

-- What is said of a result by its source.
abbrev pub Explained : Text → Option ℕ → Pack → Type 0
Explained decl_text pragma_value p =
    IsPack p.pack_attribute
    × ((p.pack_source ≡ attribute) × (p.pack_attribute ≡ 1)
        ⊎ (p.pack_source ≡ pragma)
          × (detect_packed_attribute decl_text ≡ none)
          × (pragma_value ≡ some p.pack_attribute))

-- The choice of `resolvePack` between an attribute and the value of the pragmas.
abbrev chosen : Option ℕ → Option ℕ → Option Pack
chosen attr value = elim attr [
  | some n ↦ some (record { pack_attribute = n; pack_source = attribute })
  | none ↦ from_pragma value
]

Explained-attribute :
    (decl_text : Text) (value : Option ℕ) (n : ℕ) (p : Pack)
    → n ≡ 1
    → some (record { pack_attribute = n; pack_source = attribute }) ≡ some p
    → Explained decl_text value p
Explained-attribute decl_text value n p one e =
    subst (Explained decl_text value) (ground arith) (inl one, inl (refl, one))

Explained-pragma :
    (decl_text : Text) (value : Option ℕ) (p : Pack)
    → detect_packed_attribute decl_text ≡ none
    → ((n : ℕ) → value ≡ some n → IsPack n)
    → from_pragma value ≡ some p
    → Explained decl_text value p
unfolding from_pragma
Explained-pragma decl_text none p d good h = absurd (cc h)
Explained-pragma decl_text (some n) p d good h =
    subst (Explained decl_text (some n)) (ground arith) (good n refl, inr (refl, d, refl))

-- With the pack value in effect at any line of any file, a declaration that is packed at all is
-- packed to 1, 2, 4, 8 or 16 bytes: to 1 by its attribute, or, only if it has no such attribute, to
-- the value of the pragmas.
pub resolve_pack-Explained :
    (decl_text content : Text) (line : ℕ) (p : Pack)
    → resolve_pack decl_text (build_pack_map content line) ≡ some p
    → Explained decl_text (build_pack_map content line) p
unfolding resolve_pack
resolve_pack-Explained decl_text content line p h =
    elim (Option-cases (detect_packed_attribute decl_text)) [
      | inl e ↦
          Explained-pragma decl_text _ p e (build_pack_map-IsPack content line)
            (subst (λ d. chosen d (build_pack_map content line) ≡ some p) e h)
      | inr (n, e) ↦
          Explained-attribute decl_text _ n p (detect_packed_attribute-one decl_text n e)
            (subst (λ d. chosen d (build_pack_map content line) ≡ some p) e h)
    ]
