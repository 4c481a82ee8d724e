-- ===== src/Walk/Exact.antt =====
-- A walk that starts with nothing seen, where a key is the node itself, has seen exactly what the
-- starts lead to.
use c_interface_discovery.Prelude.{
  suc, Text, List, [], ◌∷◌, length, All, true, ◌≡◌, ◌↔◌, ◌⊎◌, sym, subst, ◌∙◌, inl, inr,
}
use mathlib.Core.List.{Memᴰ}
use c_interface_discovery.Graph.{includes_text}
use c_interface_discovery.Walk.{Walker, Trail, walk_all}
use c_interface_discovery.Walk.Fuel.{
  HasEntries, includes_text-cons, includes_text-here, includes_text-there,
}
use c_interface_discovery.Walk.Closed.{walk_all-Closes}
use c_interface_discovery.Walk.Sound.{Reach, walk_all-Reached, Reach-seen}

includes_text-mem : (ns : List Text) {n : Text} → Memᴰ n ns → includes_text ns n ≡ true
includes_text-mem [] m = elim m [ ]
includes_text-mem (k ∷ ns) (Memᴰ.head e) =
    subst (λ a. includes_text (k ∷ ns) a ≡ true) (sym e) (includes_text-here k ns)
includes_text-mem (k ∷ ns) (Memᴰ.tail m) = includes_text-there k ns _ (includes_text-mem ns m)

All-includes_text :
    (P : Text → Type 0) (ns : List Text) (n : Text) → All P ns → includes_text ns n ≡ true → P n
unfolding includes_text
All-includes_text P [] n all h = cc
All-includes_text P (k ∷ ns) n (p, all) h = elim (includes_text-cons k ns n h) [
  | inl same ↦ subst P same p
  | inr later ↦ All-includes_text P ns n all later
]

module _ {O : Type 0} (w : Walker O) (entries : List Text) (has_entries : HasEntries w entries)
    (plain : (n : Text) → w.key n ≡ n) where
  pub walk_all_iff :
      (starts : List Text) (out : O) (m : Text)
      → (includes_text
            (walk_all (suc (length entries)) w starts (record { seen = []; out = out })).seen
            m
          ≡ true)
        ↔ ((n : Text) × (includes_text starts n ≡ true) × Reach w n m)
  unfolding includes_text
  walk_all_iff starts out m =
      let start : Trail O = record { seen = []; out = out } in
      let final = (walk_all (suc (length entries)) w starts start).seen in
      let closed =
        walk_all-Closes w entries has_entries (λ a b e. sym (sym (plain a) ∙ (e ∙ plain b))) starts
          start in
      (
        λ h. from_starts (walk_all-Reached w _ starts start m h),
        λ (n, started, r).
            subst (λ k. includes_text final k ≡ true) (plain m)
              (Reach-seen w final closed.0 r (
                All-includes_text (λ c. includes_text final (w.key c) ≡ true) starts n closed.2
                  started)),
      )
    where
      from_starts :
          (includes_text [] m ≡ true)
            ⊎ ((n : Text) × (k : Text) × Memᴰ n starts × Reach w n k × (w.key k ≡ m))
          → (n : Text) × (includes_text starts n ≡ true) × Reach w n m
      from_starts (inl nowhere) = cc
      from_starts (inr (n, k, from, r, e)) =
          (n, includes_text-mem starts from, subst (Reach w n) (sym (plain k) ∙ e) r)
