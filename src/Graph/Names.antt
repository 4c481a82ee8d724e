-- ===== src/Graph/Names.antt =====
-- Keys and lists of messages of src/utils/buildGraph.ts.
use c_interface_discovery.Prelude.{
  suc, Text, List, [], ◌∷◌, ◌++◌, Option, none, some, Bool, true, false, ◌===◌, ===_iff, ===_refl,
  take, drop, length, index_of, index_of-append, take-length-append, drop-suc-length-append, ◌≡◌,
  refl, sym, ap, subst, ◌∙◌, Bool-cases, inl, inr, arith,
}
use c_interface_discovery.Prelude.Dict.{Dict, get, set, get-set}
use c_interface_discovery.Graph.{EdgeEntry, includes_text, push_new, push_all, key_of}

-- The arrow of a key does not stand in the name.
abbrev pub IsPlainName : Text → Type 0
IsPlainName name = index_of 8594 name ≡ none

pub key_of-inj :
    (s t u v : Text) → IsPlainName s → IsPlainName u → key_of s t ≡ key_of u v → (s ≡ u) × (t ≡ v)
unfolding key_of
key_of-inj s t u v p q e =
    let both : some (length s) ≡ some (length u) =
      sym (index_of-append 8594 s t p) ∙ (ap (index_of 8594) e ∙ index_of-append 8594 u v q) in
    let same : length s ≡ length u = ground (arith, both) in
    (
      sym (take-length-append s (8594 ∷ t))
          ∙ (ap (take (length s)) e
              ∙ (ap (λ n. take n (u ++ 8594 ∷ v)) same ∙ take-length-append u (8594 ∷ v))),
      sym (drop-suc-length-append s 8594 t)
          ∙ (ap (drop (suc (length s))) e
              ∙ (ap (λ n. drop (suc n) (u ++ 8594 ∷ v)) same ∙ drop-suc-length-append u 8594 v)),
    )

pub includes-push_new : (xs : List Text) (x : Text) → includes_text (push_new xs x) x ≡ true
unfolding push_new includes_text
includes-push_new xs x = elim (Bool-cases (includes_text xs x)) [
  | inl e ↦ rw (e, push_new) e
  | inr e ↦ rw (e, push_new) (last_one xs)
]
  where
    last_one : (ys : List Text) → includes_text (ys ++ x ∷ []) x ≡ true
    last_one [] = ground (arith, ===_refl x)
    last_one (y ∷ ys) = ground (arith, last_one ys)

pub includes-push_new_mono :
    (xs : List Text) (x y : Text)
    → includes_text xs y ≡ true
    → includes_text (push_new xs x) y ≡ true
unfolding push_new includes_text
includes-push_new_mono xs x y h = elim (Bool-cases (includes_text xs x)) [
  | inl e ↦ rw (e, push_new) h
  | inr e ↦ rw (e, push_new) (longer xs h)
]
  where
    longer : (ys : List Text) → includes_text ys y ≡ true → includes_text (ys ++ x ∷ []) y ≡ true
    longer [] k = absurd (cc k)
    longer (z ∷ ys) k = ground (arith, longer ys)

pub includes-push_all_mono :
    (ys xs : List Text) (y : Text)
    → includes_text xs y ≡ true
    → includes_text (push_all xs ys) y ≡ true
unfolding push_all
includes-push_all_mono [] xs y h = h
includes-push_all_mono (z ∷ ys) xs y h =
    includes-push_all_mono ys (push_new xs z) y (includes-push_new_mono xs z y h)

pub includes-push_all :
    (ys xs : List Text) (y : Text)
    → includes_text ys y ≡ true
    → includes_text (push_all xs ys) y ≡ true
unfolding push_all includes_text
includes-push_all [] xs y h = absurd (cc h)
includes-push_all (z ∷ ys) xs y h = elim (Bool-cases (z === y)) [
  | inl e ↦ includes-push_all_mono ys (push_new xs z) y (
      subst (λ w. includes_text (push_new xs z) w ≡ true) ((===_iff z y).0 e)
        (includes-push_new xs z))
  | inr e ↦ includes-push_all ys (push_new xs z) y (rw e at h)
]

-- The edge under a key carries a message.
abbrev pub carried : Option EdgeEntry → Text → Bool
carried none m = false
carried (some e) m = includes_text e.msg_types m

unfoldable pub carries : Dict EdgeEntry → Text → Text → Bool
carries edges k m = carried (get edges k) m

pub carries-set_same :
    (d : Dict EdgeEntry) (k m : Text) (e : EdgeEntry)
    → includes_text e.msg_types m ≡ true
    → carries (set d k e) k m ≡ true
unfolding carries
carries-set_same d k m e h = rw (get-set d k k e, ===_refl k) h

-- An entry that is replaced keeps its messages.
pub carries-set :
    (d : Dict EdgeEntry) (k j m : Text) (e : EdgeEntry)
    → ((old : EdgeEntry)
        → get d k ≡ some old
        → includes_text old.msg_types m ≡ true
        → includes_text e.msg_types m ≡ true)
    → carries d j m ≡ true
    → carries (set d k e) j m ≡ true
unfolding carries
carries-set d k j m e grows h = elim (Bool-cases (k === j)) [
  | inl same ↦
      subst (λ i. carried (get (set d k e) i) m ≡ true) ((===_iff k j).0 same)
        (rw (get-set d k k e, ===_refl k)
          (held (get d k) refl
            (subst (λ i. carried (get d i) m ≡ true) (sym ((===_iff k j).0 same)) h)))
  | inr other ↦ rw (get-set d k j e, other) h
]
  where
    held :
        (o : Option EdgeEntry)
        → get d k ≡ o
        → carried o m ≡ true
        → includes_text e.msg_types m ≡ true
    held none f c = absurd (cc c)
    held (some old) f c = grows old f c
