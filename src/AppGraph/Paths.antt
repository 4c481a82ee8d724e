-- ===== src/AppGraph/Paths.antt =====
-- Every pair that src/utils/buildAppGraph.ts connects for a message is a way that the message takes.
use c_interface_discovery.Prelude.{
  Text, List, [], ◌∷◌, map, Bool, true, false, not, ◌&&◌, ◌===◌, ===_refl, keep, All, All-append,
  All-mono, ◌≡◌, ◌⊎◌, refl, subst, Bool-cases, inl, inr, arith,
}
use c_interface_discovery.Prelude.Dict.{has}
use c_interface_discovery.Graph.{includes_text}
use c_interface_discovery.Graph.Names.{IsPlainName}
use c_interface_discovery.Digest.Rows.{flat_map}
use c_interface_discovery.AppGraph.Senders.{MsgEntry}
use c_interface_discovery.AppGraph.Routes.{
  Hop, hops, transit_ids, pure_producers, pure_consumers, route, hops_of,
}
use c_interface_discovery.AppGraph.Ready.{IsReady}
use c_interface_discovery.AppGraph.Hops.{told_apart, told_apart_from}

-- A pair of a sender and a receiver, of which exactly one passes the message on, or none and no
-- application does.
pub record IsPath (e : MsgEntry) (h : Hop) : Type 0 where
  pub plain_from : IsPlainName h.from
  pub plain_to : IsPlainName h.to
  pub two_apps : (h.from === h.to) ≡ false
  pub interface : has e.interfaces h.from ≡ true
  pub sender : includes_text e.producers h.from ≡ true
  pub receiver : includes_text e.consumers h.to ≡ true
  pub one_end : (includes_text e.consumers h.from && includes_text e.producers h.to) ≡ false
  pub way :
      (includes_text e.consumers h.from ≡ true)
      ⊎ ((includes_text e.producers h.to ≡ true) ⊎ (transit_ids e ≡ []))

record Sender (e : MsgEntry) (id : Text) : Type 0 where
  plain : IsPlainName id
  interface : has e.interfaces id ≡ true
  sends_it : includes_text e.producers id ≡ true

record Receiver (e : MsgEntry) (id : Text) : Type 0 where
  plain : IsPlainName id
  receives_it : includes_text e.consumers id ≡ true

All-keep :
    {A : Type 0} (P : A → Type 0) (p : A → Bool) (xs : List A)
    → All P xs
    → All (λ x. P x × (p x ≡ true)) (keep p xs)
All-keep P p [] h = tt
All-keep P p (x ∷ xs) (q, h) = elim (Bool-cases (p x)) [
  | inl e ↦ rw e ((q, e), All-keep P p xs h)
  | inr e ↦ rw e (All-keep P p xs h)
]

All-hops :
    {P Q : Text → Type 0} (R : Hop → Type 0) (froms tos : List Text)
    → ((f t : Text) → P f → Q t → R (record { from = f; to = t }))
    → All P froms
    → All Q tos
    → All R (hops froms tos)
unfolding hops flat_map
All-hops R [] tos c ps qs = tt
All-hops {P} {Q} R (f ∷ froms) tos c (p, ps) qs =
    All-append R (map (λ t. record { from = f; to = t }) tos) _ (each tos qs)
      (All-hops R froms tos c ps qs)
  where
    each : (ts : List Text) → All Q ts → All R (map (λ t. record { from = f; to = t }) ts)
    each [] q = tt
    each (t ∷ ts) (q, qs) = (c f t p q, each ts qs)

pub All-listed : (xs : List Text) → All (λ x. includes_text xs x ≡ true) xs
unfolding includes_text
All-listed [] = tt
All-listed (x ∷ xs) =
    (ground (arith, ===_refl x), All-mono (λ y h. ground (arith, h)) xs (All-listed xs))

All-both : (P Q : Text → Type 0) (xs : List Text) → All P xs → All Q xs → All (λ x. P x × Q x) xs
All-both P Q [] h k = tt
All-both P Q (x ∷ xs) (p, h) (q, k) = ((p, q), All-both P Q xs h k)

module _ (m : Text) (e : MsgEntry) (ready : IsReady m e) where
  senders : All (Sender e) e.producers
  senders =
      All-mono (λ id h. record { plain = h.0; interface = h.1.0; sends_it = h.1.1 }) e.producers
        (All-both _ _ e.producers ready.plain_producers
          (All-both _ _ e.producers ready.interfaces (All-listed e.producers)))

  receivers : All (Receiver e) e.consumers
  receivers =
      All-mono (λ id h. record { plain = h.0; receives_it = h.1 }) e.consumers
        (All-both _ _ e.consumers ready.plain_consumers (All-listed e.consumers))

  transits : All (λ id. Sender e id × (includes_text e.consumers id ≡ true)) (transit_ids e)
  unfolding transit_ids
  transits = All-keep _ (includes_text e.consumers) e.producers senders

  pure_senders :
      All (λ id. Sender e id × (not (includes_text e.consumers id) ≡ true)) (pure_producers e)
  unfolding pure_producers
  pure_senders = All-keep _ (λ id. not (includes_text e.consumers id)) e.producers senders

  pure_receivers :
      All (λ id. Receiver e id × (not (includes_text e.producers id) ≡ true)) (pure_consumers e)
  unfolding pure_consumers
  pure_receivers = All-keep _ (λ id. not (includes_text e.producers id)) e.consumers receivers

  route-IsPath : (ts : List Text) → transit_ids e ≡ ts → All (IsPath e) (route ts e)
  unfolding route
  route-IsPath [] q =
      All-mono (λ h r. r.0) _
        (All-keep _ (λ h. not (h.from === h.to)) (hops (pure_producers e) (pure_consumers e))
          (All-hops (IsPath e) (pure_producers e) (pure_consumers e)
            (λ f t s r. record {
              plain_from = s.0.plain;
              plain_to = r.0.plain;
              two_apps = told_apart e.consumers f t (ground arith) r.0.receives_it;
              interface = s.0.interface;
              sender = s.0.sends_it;
              receiver = r.0.receives_it;
              one_end = ground arith;
              way = inr (inr q);
            })
            pure_senders pure_receivers))
  route-IsPath (x ∷ ts) q =
      All-append (IsPath e) (hops (pure_producers e) (x ∷ ts)) _
        (All-hops (IsPath e) (pure_producers e) (x ∷ ts)
          (λ f t s r. record {
            plain_from = s.0.plain;
            plain_to = r.0.plain;
            two_apps = told_apart e.consumers f t (ground arith) r.1;
            interface = s.0.interface;
            sender = s.0.sends_it;
            receiver = r.1;
            one_end = ground arith;
            way = inr (inl r.0.sends_it);
          })
          pure_senders
          (subst (All (λ id. Sender e id × (includes_text e.consumers id ≡ true))) q transits))
        (All-hops (IsPath e) (x ∷ ts) (pure_consumers e)
          (λ f t s r. record {
            plain_from = s.0.plain;
            plain_to = r.0.plain;
            two_apps = told_apart_from e.producers f t s.0.sends_it (ground arith);
            interface = s.0.interface;
            sender = s.0.sends_it;
            receiver = r.0.receives_it;
            one_end = ground arith;
            way = inl s.1;
          })
          (subst (All (λ id. Sender e id × (includes_text e.consumers id ≡ true))) q transits)
          pure_receivers)

  pub hops_of-IsPath : All (IsPath e) (hops_of e)
  unfolding hops_of
  hops_of-IsPath = route-IsPath (transit_ids e) refl
