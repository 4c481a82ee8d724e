-- ===== src/Layout/Primitives.antt =====
-- src/analyzer/structLayoutEngine.ts: sizes and alignments of the primitive types, `alignUp`, and the
-- machine word of each target.
use c_interface_discovery.Prelude.{
  ℕ, ◌+◌, ◌-◌, ◌*◌, ◌/◌, Text, [], ◌∷◌, Option, none, some, leb, codes, to_lower_case,
  if◌then◌else◌,
}
use c_interface_discovery.Prelude.Dict
use c_interface_discovery.Prelude.Dict.{Dict}

pub data Target : Type 0 where
  bit32 bit64 : Target

-- `PRIM32`: the size and the alignment under each name.
unfoldable pub prim32 : Dict (ℕ × ℕ)
prim32 =
    (codes "char", (1, 1))
    ∷ (codes "signed char", (1, 1))
    ∷ (codes "unsigned char", (1, 1))
    ∷ (codes "short", (2, 2))
    ∷ (codes "signed short", (2, 2))
    ∷ (codes "unsigned short", (2, 2))
    ∷ (codes "short int", (2, 2))
    ∷ (codes "unsigned short int", (2, 2))
    ∷ (codes "int", (4, 4))
    ∷ (codes "signed int", (4, 4))
    ∷ (codes "unsigned int", (4, 4))
    ∷ (codes "unsigned", (4, 4))
    ∷ (codes "long", (4, 4))
    ∷ (codes "signed long", (4, 4))
    ∷ (codes "unsigned long", (4, 4))
    ∷ (codes "long int", (4, 4))
    ∷ (codes "unsigned long int", (4, 4))
    ∷ (codes "long long", (8, 4))
    ∷ (codes "signed long long", (8, 4))
    ∷ (codes "unsigned long long", (8, 4))
    ∷ (codes "long long int", (8, 4))
    ∷ (codes "unsigned long long int", (8, 4))
    ∷ (codes "float", (4, 4))
    ∷ (codes "double", (8, 4))
    ∷ (codes "long double", (12, 4))
    ∷ (codes "bool", (1, 1))
    ∷ (codes "_Bool", (1, 1))
    ∷ (codes "uint8_t", (1, 1))
    ∷ (codes "int8_t", (1, 1))
    ∷ (codes "uint16_t", (2, 2))
    ∷ (codes "int16_t", (2, 2))
    ∷ (codes "uint32_t", (4, 4))
    ∷ (codes "int32_t", (4, 4))
    ∷ (codes "uint64_t", (8, 4))
    ∷ (codes "int64_t", (8, 4))
    ∷ (codes "size_t", (4, 4))
    ∷ (codes "ssize_t", (4, 4))
    ∷ (codes "ptrdiff_t", (4, 4))
    ∷ (codes "intptr_t", (4, 4))
    ∷ (codes "uintptr_t", (4, 4))
    ∷ []

-- The entries that `PRIM64` lays over those of `PRIM32`.
unfoldable pub overlay64 : Dict (ℕ × ℕ)
overlay64 =
    (codes "long", (8, 8))
    ∷ (codes "signed long", (8, 8))
    ∷ (codes "unsigned long", (8, 8))
    ∷ (codes "long int", (8, 8))
    ∷ (codes "unsigned long int", (8, 8))
    ∷ (codes "long long", (8, 8))
    ∷ (codes "signed long long", (8, 8))
    ∷ (codes "unsigned long long", (8, 8))
    ∷ (codes "long long int", (8, 8))
    ∷ (codes "unsigned long long int", (8, 8))
    ∷ (codes "long double", (16, 16))
    ∷ (codes "double", (8, 8))
    ∷ (codes "size_t", (8, 8))
    ∷ (codes "ssize_t", (8, 8))
    ∷ (codes "ptrdiff_t", (8, 8))
    ∷ (codes "intptr_t", (8, 8))
    ∷ (codes "uintptr_t", (8, 8))
    ∷ (codes "uint64_t", (8, 8))
    ∷ (codes "int64_t", (8, 8))
    ∷ []

unfoldable pub or_else {ℓ} : {A : Type ℓ} → Option A → Option A → Option A
or_else none other = other
or_else (some a) other = some a

-- A lookup in the table of the target.
unfoldable pub prim : Target → Text → Option (ℕ × ℕ)
prim bit32 name = Dict.get prim32 name
prim bit64 name = or_else (Dict.get overlay64 name) (Dict.get prim32 name)

-- The `replace` of `primitiveSizeAlign` puts back what it matched, so both lookups are one.
unfoldable pub primitive_size_align : Text → Target → Option (ℕ × ℕ)
primitive_size_align type_name target = prim target (to_lower_case type_name)

-- `Math.ceil(offset / align) * align`
unfoldable pub align_up : ℕ → ℕ → ℕ
align_up offset align = if leb align 1 then offset else (offset + (align - 1)) / align * align

unfoldable pub pointer_size : Target → ℕ
pointer_size bit32 = 4
pointer_size bit64 = 8

unfoldable pub pointer_align : Target → ℕ
pointer_align bit32 = 4
pointer_align bit64 = 8
