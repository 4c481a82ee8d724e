-- ===== src/AppGraph/Hops.antt =====
-- The pairs that src/utils/buildAppGraph.ts connects for a message.
use mathlib.Core.List.{Memᴰ}
use c_interface_discovery.Prelude.{
  Text, List, [], ◌∷◌, map, Bool, true, false, not, ◌&&◌, ◌===◌, ===_iff, keep, Memᴰ-append_left,
  Memᴰ-append_right, ◌≡◌, ◌⊎◌, refl, sym, ap, subst, Bool-cases, inl, inr, arith,
}
use c_interface_discovery.Graph.{includes_text}
use c_interface_discovery.Graph.Members.{includes_text-keep}
use c_interface_discovery.Digest.Rows.{flat_map}
use c_interface_discovery.AppGraph.Senders.{MsgEntry}
use c_interface_discovery.AppGraph.Routes.{
  Hop, hops, transit_ids, pure_producers, pure_consumers, route, hops_of,
}

includes-Memᴰ : (xs : List Text) (k : Text) → includes_text xs k ≡ true → Memᴰ k xs
unfolding includes_text
includes-Memᴰ [] k h = absurd (cc h)
includes-Memᴰ (x ∷ xs) k h = elim (Bool-cases (x === k)) [
  | inl e ↦ Memᴰ.head (sym ((===_iff x k).0 e))
  | inr e ↦ Memᴰ.tail (includes-Memᴰ xs k (rw e at h))
]

Memᴰ-map : {A B : Type 0} (f : A → B) {x : A} (xs : List A) → Memᴰ x xs → Memᴰ (f x) (map f xs)
Memᴰ-map f [] m = elim m [ ]
Memᴰ-map f (y ∷ xs) (Memᴰ.head e) = Memᴰ.head (ap f e)
Memᴰ-map f (y ∷ xs) (Memᴰ.tail m) = Memᴰ.tail (Memᴰ-map f xs m)

Memᴰ-keep :
    {A : Type 0} (p : A → Bool) {x : A} (xs : List A) → p x ≡ true → Memᴰ x xs → Memᴰ x (keep p xs)
Memᴰ-keep p [] h m = elim m [ ]
Memᴰ-keep p (y ∷ xs) h (Memᴰ.head e) = rw (subst (λ z. p z ≡ true) e h) (Memᴰ.head e)
Memᴰ-keep p (y ∷ xs) h (Memᴰ.tail m) = elim (Bool-cases (p y)) [
  | inl e ↦ rw e (Memᴰ.tail (Memᴰ-keep p xs h m))
  | inr e ↦ rw e (Memᴰ-keep p xs h m)
]

Memᴰ-hops :
    {a b : Text} (froms tos : List Text)
    → Memᴰ a froms
    → Memᴰ b tos
    → Memᴰ (record { from = a; to = b }) (hops froms tos)
unfolding hops flat_map
Memᴰ-hops [] tos m n = elim m [ ]
Memᴰ-hops {b = b} (f ∷ froms) tos (Memᴰ.head e) n = Memᴰ-append_left _ _ (
    subst
      (λ x.
        Memᴰ (record { from = x; to = b }) (map {B = Hop} (λ t. record { from = f; to = t }) tos))
      (sym e) (Memᴰ-map (λ t. record { from = f; to = t }) tos n))
Memᴰ-hops (f ∷ froms) tos (Memᴰ.tail m) n = Memᴰ-append_right _ _ (Memᴰ-hops froms tos m n)

-- Two names that a list tells apart are different.
pub told_apart :
    (xs : List Text) (a b : Text)
    → includes_text xs a ≡ false
    → includes_text xs b ≡ true
    → (a === b) ≡ false
told_apart xs a b h k = elim (Bool-cases (a === b)) [
  | inr e ↦ e
  | inl e ↦ absurd (cc (subst (λ z. includes_text xs z ≡ false) ((===_iff a b).0 e) h, k))
]

pub told_apart_from :
    (xs : List Text) (a b : Text)
    → includes_text xs a ≡ true
    → includes_text xs b ≡ false
    → (a === b) ≡ false
told_apart_from xs a b h k = elim (Bool-cases (a === b)) [
  | inr e ↦ e
  | inl e ↦ absurd (cc (subst (λ z. includes_text xs z ≡ true) ((===_iff a b).0 e) h, k))
]

module _ (e : MsgEntry) (a b : Text) (produced : includes_text e.producers a ≡ true)
    (consumed : includes_text e.consumers b ≡ true)
    (one_end : (includes_text e.consumers a && includes_text e.producers b) ≡ false) where
  is_transit_from : includes_text e.consumers a ≡ true → Memᴰ a (transit_ids e)
  unfolding transit_ids
  is_transit_from h =
      includes-Memᴰ _ a
        (ground (arith, includes_text-keep (includes_text e.consumers) e.producers a))

  is_transit_to : includes_text e.producers b ≡ true → Memᴰ b (transit_ids e)
  unfolding transit_ids
  is_transit_to h =
      includes-Memᴰ _ b
        (ground (arith, includes_text-keep (includes_text e.consumers) e.producers b))

  is_pure_from : includes_text e.consumers a ≡ false → Memᴰ a (pure_producers e)
  unfolding pure_producers
  is_pure_from h =
      includes-Memᴰ _ a (
        ground (arith, includes_text-keep (λ id. not (includes_text e.consumers id)) e.producers a))

  is_pure_to : includes_text e.producers b ≡ false → Memᴰ b (pure_consumers e)
  unfolding pure_consumers
  is_pure_to h =
      includes-Memᴰ _ b (
        ground (arith, includes_text-keep (λ id. not (includes_text e.producers id)) e.consumers b))

  route-Memᴰ :
      (ts : List Text)
      → transit_ids e ≡ ts
      → (includes_text e.consumers a ≡ true) ⊎ ((includes_text e.producers b ≡ true) ⊎ (ts ≡ []))
      → Memᴰ (record { from = a; to = b }) (route ts e)
  unfolding route
  route-Memᴰ [] q way = elim (Bool-cases (includes_text e.consumers a)) [
    | inl h ↦ no_transit a (subst (λ ts. Memᴰ a ts) q (is_transit_from h))
    | inr h ↦ elim (Bool-cases (includes_text e.producers b)) [
      | inl k ↦ no_transit b (subst (λ ts. Memᴰ b ts) q (is_transit_to k))
      | inr k ↦
          let two = told_apart e.consumers a b h consumed in
          Memᴰ-keep (λ h. not (h.from === h.to)) _ (rw two refl)
            (Memᴰ-hops (pure_producers e) (pure_consumers e) (is_pure_from h) (is_pure_to k))
    ]
  ]
    where
      no_transit : (x : Text) → Memᴰ x [] → Memᴰ (record { from = a; to = b }) (route [] e)
      no_transit x m = elim m [ ]
  route-Memᴰ (t ∷ ts) q way = elim (Bool-cases (includes_text e.consumers a)) [
    | inl h ↦ Memᴰ-append_right (hops (pure_producers e) (t ∷ ts)) _ (
        Memᴰ-hops (t ∷ ts) (pure_consumers e) (subst (λ ts. Memᴰ a ts) q (is_transit_from h))
          (is_pure_to (ground (arith, one_end, h))))
    | inr h ↦ elim (Bool-cases (includes_text e.producers b)) [
      | inl k ↦ Memᴰ-append_left _ (hops (t ∷ ts) (pure_consumers e)) (
          Memᴰ-hops (pure_producers e) (t ∷ ts) (is_pure_from h)
            (subst (λ ts. Memᴰ b ts) q (is_transit_to k)))
      | inr k ↦ elim way [
        | inl w ↦ absurd (cc (w, h))
        | inr (inl w) ↦ absurd (cc (w, k))
        | inr (inr w) ↦ absurd (cc w)
      ]
    ]
  ]

  -- The pair of a sender and a receiver, one of which passes the message on if any application does.
  pub hops_of-Memᴰ :
      (includes_text e.consumers a ≡ true)
        ⊎ ((includes_text e.producers b ≡ true) ⊎ (transit_ids e ≡ []))
      → Memᴰ (record { from = a; to = b }) (hops_of e)
  unfolding hops_of
  hops_of-Memᴰ way = route-Memᴰ (transit_ids e) refl way
