-- ===== src/Digest/Account.antt =====
-- What src/llm/digest.ts does not show, it says it does not show.
use c_interface_discovery.Prelude.{none, some, ℕ, Text, List, [], ◌++◌, length, ◌≡◌, ◌⊎◌}
use mathlib.Core.List.{Memᴰ}
use c_interface_discovery.Digest.Budget.{
  Overflow, budget, relevance, Section, DigestOmission, body_of,
}

-- The omission that states how many entries of a section do not fit.
abbrev pub withheld_from : Section → ℕ → DigestOmission
withheld_from s count = record {
  tier = s.tier;
  section = s.name;
  count = count;
  reason = budget;
  retrievable_via = s.retrievable_via;
}

-- The omission that states how many items were left out of a section as irrelevant.
abbrev pub excluded_from : Section → Overflow → DigestOmission
excluded_from s o = record {
  tier = s.tier;
  section = s.name;
  count = o.count;
  reason = relevance;
  retrievable_via = o.via;
}

-- The entries of a section are a part shown and a part withheld. The first is empty or stands in the
-- parts behind the heading; the second is empty or counted by an omission that names its tool. If the
-- section left items out as irrelevant, another omission counts these and names their tool.
pub record Accounted (parts : List Text) (omitted : List DigestOmission) (s : Section)
    : Type 0 where
  pub kept : List Text
  pub dropped : List Text
  pub split : s.entries ≡ kept ++ dropped
  pub shown : (kept ≡ []) ⊎ Memᴰ (body_of s.heading kept) parts
  pub counted : (dropped ≡ []) ⊎ Memᴰ (withheld_from s (length dropped)) omitted
  pub excluded :
      (s.overflow ≡ none)
      ⊎ ((o : Overflow) × ((s.overflow ≡ some o) × Memᴰ (excluded_from s o) omitted))
