-- ===== src/Composition/Summary.antt =====
-- `summarizeComposition` of src/analyzer/messageComposition.ts.
use c_interface_discovery.Prelude.{ℕ, Text, List, [], ◌∷◌, ◌++◌, map, Option, none, some, codes}
use c_interface_discovery.Prelude.Words.{show}
use c_interface_discovery.Composition.{
  PartKind, block, scalar, padding, PartHead, CompositionPart, head_of, MessageComposition,
}

-- `${name}` of a nullable text
unfoldable pub or_null : Option Text → Text
or_null none = codes "null"
or_null (some s) = s

-- `name ?? '?'`
unfoldable pub or_question : Option Text → Text
or_question none = codes "?"
or_question (some s) = s

-- `[${p.arrayLength}]`, where there is one
unfoldable pub extent_of : Option ℕ → Text
extent_of none = []
extent_of (some n) = b'[' ∷ show n ++ codes "]"

unfoldable pub summarize_head : PartKind → PartHead → Text
summarize_head padding p = codes "pad(" ++ show p.size_bytes ++ codes ")"
summarize_head block p = or_null p.type_name ++ extent_of p.array_length
summarize_head scalar p = or_question p.name

unfoldable pub summarize_part : CompositionPart → Text
summarize_part p = let head = head_of p in summarize_head head.kind head

-- `texts.join(separator)`
unfoldable pub join_with : Text → List Text → Text
join_with separator [] = []
join_with separator (s ∷ []) = s
join_with separator (s ∷ t ∷ texts) = s ++ separator ++ join_with separator (t ∷ texts)

unfoldable pub summarize_composition : MessageComposition → Text
summarize_composition c = join_with (codes " + ") (map summarize_part c.parts)
