-- ===== src/Ingest/Verdict.antt =====
-- What `ingestFile` of src/analyzer/fileIngestion.ts accepts, and what it reads.
use c_interface_discovery.Prelude.{
  ℕ, ◌*◌, ◌≤◌, ◌<◌, Text, List, [], ◌∷◌, none, some, true, false, ◌==◌, ltb, any, take, length, All,
  ◌≡◌, ◌↔◌, inl, inr, refl, sym, ap, subst, ◌∙◌, Bool-cases, Option-cases, arith,
}
use c_interface_discovery.Types.{FileZone, Encoding, utf_8, latin_1, LoadedFile}
use c_interface_discovery.Ingest.Bytes.{Strange, odd_count-Strange, Strange-odd_count}
use c_interface_discovery.Ingest.{
  File, Decoders, is_binary, normalize_line_endings, decoded, ingest_file,
}

-- The bytes read as this text: as UTF-8, or, if they do not, as ISO 8859-1, where at most a tenth of the
-- first 8192 bytes is strange.
pub data Reads (decoders : Decoders) (bytes : List ℕ) (text : Text) : Encoding → Type 0 where
  as_utf8 : decoders.utf8 bytes ≡ some text → Reads decoders bytes text utf_8
  as_latin1 :
      (n : ℕ)
      → decoders.utf8 bytes ≡ none
      → decoders.latin1 bytes ≡ text
      → Strange (take 8192 bytes) n
      → 10 * n ≤ length (take 8192 bytes)
      → Reads decoders bytes text latin_1

-- The file is not empty and not above two megabytes, its first 8192 bytes have no zero, and it reads as
-- a text with this content once its line endings are normalized.
pub record IsReadable (decoders : Decoders) (file : File) (encoding : Encoding) (content : Text)
    : Type 0 where
  pub not_empty : 0 < file.size
  pub not_large : file.size ≤ 2097152
  pub no_zero : All (λ byte. 0 < byte) (take 8192 file.bytes)
  pub text : Text
  pub reads : Reads decoders file.bytes text encoding
  pub normalized : content ≡ normalize_line_endings text

-- The file is accepted in the encoding and with the content.
abbrev pub IsAccepted : LoadedFile → Encoding → Text → Type 0
IsAccepted loaded encoding content =
    (loaded.rejected ≡ false) × ((loaded.encoding ≡ encoding) × (loaded.content ≡ content))

no_zero-All :
    (bytes : List ℕ) → any (λ byte. byte == 0) bytes ≡ false → All (λ byte. 0 < byte) bytes
no_zero-All [] h = tt
no_zero-All (byte ∷ bytes) h = (ground arith, no_zero-All bytes (ground arith))

All-no_zero :
    (bytes : List ℕ) → All (λ byte. 0 < byte) bytes → any (λ byte. byte == 0) bytes ≡ false
All-no_zero [] h = refl
All-no_zero (byte ∷ bytes) (p, h) = ground (arith, All-no_zero bytes h)

module _ (decoders : Decoders) (file : File) (zone : FileZone) (encoding : Encoding)
    (content : Text) where
  -- What the `try` and its `catch` accept.
  abbrev IsDecoded : Type 0
  IsDecoded =
      (text : Text) × (Reads decoders file.bytes text encoding
        × (content ≡ normalize_line_endings text))

  accepts_utf8 :
      (s : Text)
      → decoders.utf8 file.bytes ≡ some s
      → IsAccepted (decoded decoders file zone (some s)) encoding content
      → IsDecoded
  unfolding decoded
  accepts_utf8 s q (a, (e, c)) = (s, (subst (Reads decoders file.bytes s) e (as_utf8 q), sym c))

  accepts_latin1 :
      decoders.utf8 file.bytes ≡ none
      → IsAccepted (decoded decoders file zone none) encoding content
      → IsDecoded
  unfolding decoded is_binary
  accepts_latin1 q h = elim (Bool-cases (is_binary file.bytes)) [
    | inl b ↦ absurd (cc (rw (b, decoded) at h).0)
    | inr b ↦
        let (a, (e, c)) = (rw (b, decoded) at h) in
        (
          decoders.latin1 file.bytes,
          (
            subst (Reads decoders file.bytes (decoders.latin1 file.bytes)) e
                (as_latin1 _ q refl (odd_count-Strange (take 8192 file.bytes)) (ground (arith, b))),
            sym c,
          ),
        )
  ]

not_less : (a b : ℕ) → b ≤ a → ltb a b ≡ false
not_less a b h = ground arith

few_strange :
    (bytes : List ℕ) (n : ℕ)
    → Strange (take 8192 bytes) n
    → 10 * n ≤ length (take 8192 bytes)
    → is_binary bytes ≡ false
unfolding is_binary
few_strange bytes n s le =
    rw (Strange-odd_count s) (not_less (length (take 8192 bytes)) (10 * n) le)

decoded-IsAccepted :
    (decoders : Decoders) (file : File) (zone : FileZone) (encoding : Encoding)
    (content text : Text)
    → Reads decoders file.bytes text encoding
    → content ≡ normalize_line_endings text
    → IsAccepted (decoded decoders file zone (decoders.utf8 file.bytes)) encoding content
unfolding decoded
decoded-IsAccepted decoders file zone utf_8 content text (as_utf8 q) c = rw q (refl, (refl, sym c))
decoded-IsAccepted decoders file zone latin_1 content text (as_latin1 n q t s le) c =
    rw (q, few_strange file.bytes n s le, decoded)
      (refl, (refl, ap normalize_line_endings t ∙ sym c))

module _ (decoders : Decoders) (file : File) (zone : FileZone) where
  decoded_iff :
      (encoding : Encoding) (content : Text)
      → 0 < file.size
      → file.size ≤ 2097152
      → any (λ byte. byte == 0) (take 8192 file.bytes) ≡ false
      → IsAccepted (decoded decoders file zone (decoders.utf8 file.bytes)) encoding content
        ↔ IsReadable decoders file encoding content
  decoded_iff encoding content p q z = (
    λ h.
        let (text, (reads, c)) = accepts h in
        record {
          not_empty = p;
          not_large = q;
          no_zero = no_zero-All (take 8192 file.bytes) z;
          text = text;
          reads = reads;
          normalized = c;
        },
    λ r. decoded-IsAccepted decoders file zone encoding content r.text r.reads r.normalized,
  )
    where
      accepts :
          IsAccepted (decoded decoders file zone (decoders.utf8 file.bytes)) encoding content
          → IsDecoded decoders file zone encoding content
      accepts h = elim (Option-cases (decoders.utf8 file.bytes)) [
        | inl f ↦ accepts_latin1 decoders file zone encoding content f (rw f at h)
        | inr (s, f) ↦ accepts_utf8 decoders file zone encoding content s f (rw f at h)
      ]

  zero_size :
      {encoding : Encoding} {content : Text}
      → (file.size == 0) ≡ true
      → IsReadable decoders file encoding content
      → ⊥
  zero_size e r = let p = r.not_empty in ground arith

  large_size :
      {encoding : Encoding} {content : Text}
      → ltb 2097152 file.size ≡ true
      → IsReadable decoders file encoding content
      → ⊥
  large_size e r = let p = r.not_large in ground arith

  size_positive : (file.size == 0) ≡ false → 0 < file.size
  size_positive e = ground arith

  size_small : ltb 2097152 file.size ≡ false → file.size ≤ 2097152
  size_small e = ground arith

  -- A file is accepted with an encoding and a content exactly if it has from one byte to two megabytes,
  -- no zero among its first 8192 bytes, and a text that gives the content once its line endings are
  -- normalized: in UTF-8 the text that its bytes decode to, and in ISO 8859-1, only if they are no
  -- UTF-8 and at most a tenth of the first 8192 bytes is neither printable ASCII nor a tab or an end
  -- of line, the one of that decoder.
  pub ingest_file_iff :
      (encoding : Encoding) (content : Text)
      → IsAccepted (ingest_file decoders file zone) encoding content
        ↔ IsReadable decoders file encoding content
  unfolding ingest_file
  ingest_file_iff encoding content = elim (Bool-cases (file.size == 0)) [
    | inl e ↦ rw e (λ h. absurd (cc h.0), λ r. absurd (zero_size e r))
    | inr e ↦ rw e (elim (Bool-cases (ltb 2097152 file.size)) [
      | inl f ↦ rw f (λ h. absurd (cc h.0), λ r. absurd (large_size f r))
      | inr f ↦ rw f (elim (Bool-cases (any (λ byte. byte == 0) (take 8192 file.bytes))) [
        | inl g ↦ rw g (
          λ h. absurd (cc h.0),
          λ r. absurd (cc (g, All-no_zero (take 8192 file.bytes) r.no_zero)),
        )
        | inr g ↦ rw g (decoded_iff encoding content (size_positive e) (size_small f) g)
      ])
    ])
  ]
