-- ===== src/Ingest/Bytes.antt =====
-- How many bytes of a sample are not plain text, for `isBinary` of src/analyzer/fileIngestion.ts.
use c_interface_discovery.Prelude.{
  ℕ, suc, ◌≤◌, List, [], ◌∷◌, true, false, not, keep, length, ◌≡◌, ◌⊎◌, inl, inr, refl, ap,
  Bool-cases, arith,
}
use c_interface_discovery.Ingest.{is_printable}

-- A byte of plain text: a tab, an end of line, or a printable ASCII character.
abbrev pub IsPlain : ℕ → Type 0
IsPlain byte = (byte ≡ 9) ⊎ ((byte ≡ 10) ⊎ ((byte ≡ 13) ⊎ ((32 ≤ byte) × (byte ≤ 126))))

-- So many bytes of a sample are not of plain text.
pub data Strange : List ℕ → ℕ → Type 0 where
  nil : Strange [] 0
  plain : {byte n : ℕ} {bytes : List ℕ} → IsPlain byte → Strange bytes n → Strange (byte ∷ bytes) n
  strange :
      {byte n : ℕ} {bytes : List ℕ}
      → ¬ IsPlain byte
      → Strange bytes n
      → Strange (byte ∷ bytes) (suc n)

printable-IsPlain : (byte : ℕ) → is_printable byte ≡ true → IsPlain byte
unfolding is_printable
printable-IsPlain byte h = ground arith

not_printable : (byte : ℕ) → is_printable byte ≡ false → ¬ IsPlain byte
unfolding is_printable
not_printable byte h p = ground arith

abbrev pub odd_count : List ℕ → ℕ
odd_count bytes = length (keep (λ byte. not (is_printable byte)) bytes)

pub odd_count-Strange : (bytes : List ℕ) → Strange bytes (odd_count bytes)
odd_count-Strange [] = nil
odd_count-Strange (byte ∷ bytes) = elim (Bool-cases (is_printable byte)) [
  | inl e ↦ rw e (plain (printable-IsPlain byte e) (odd_count-Strange bytes))
  | inr e ↦ rw e (strange (not_printable byte e) (odd_count-Strange bytes))
]

pub Strange-odd_count : {bytes : List ℕ} {n : ℕ} → Strange bytes n → odd_count bytes ≡ n
Strange-odd_count nil = refl
Strange-odd_count (plain {byte = byte} p s) = elim (Bool-cases (is_printable byte)) [
  | inl e ↦ rw e (Strange-odd_count s)
  | inr e ↦ absurd (not_printable byte e p)
]
Strange-odd_count (strange {byte = byte} p s) = elim (Bool-cases (is_printable byte)) [
  | inl e ↦ absurd (p (printable-IsPlain byte e))
  | inr e ↦ rw e (ap suc (Strange-odd_count s))
]
