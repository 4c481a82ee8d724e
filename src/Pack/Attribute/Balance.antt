-- ===== src/Pack/Attribute/Balance.antt =====
-- `balancedGroup` finds exactly the balanced text up to the matching parenthesis.
use mathlib.Core.List.{append_assoc}
use c_interface_discovery.Prelude.{
  ℕ, zero, suc, Text, [], ◌∷◌, ◌++◌, Option, none, some, ◌==◌, ◌≢◌, ◌≡◌, ◌↔◌, refl, sym, subst, ap,
  ◌∙◌, arith, if◌then◌else◌, Bool-cases, inl, inr, ==_iff,
}
use c_interface_discovery.Prelude.Ints.{pos}
use c_interface_discovery.Pack.Attribute.{is_zero, cons_text, group_from, balanced_group}

-- Texts whose parentheses match.
pub data IsBalanced : Text → Type 0 where
  done : IsBalanced []
  plain : {c : ℕ} {s : Text} → c ≢ b'(' → c ≢ b')' → IsBalanced s → IsBalanced (c ∷ s)
  group : {s t : Text} → IsBalanced s → IsBalanced t → IsBalanced (b'(' ∷ (s ++ b')' ∷ t))

pub IsBalanced-append : {s t : Text} → IsBalanced s → IsBalanced t → IsBalanced (s ++ t)
IsBalanced-append done k = k
IsBalanced-append (plain p q h) k = plain p q (IsBalanced-append h k)
IsBalanced-append {t = u} (group {s} {t} g h) k =
    subst (λ v. IsBalanced (40 ∷ v)) (sym (append_assoc s (41 ∷ t) u))
      (group g (IsBalanced-append h k))

-- A text without parentheses.
abbrev pub IsPlain : Text → Type 0
IsPlain [] = Unit
IsPlain (c ∷ s) = ((c ≢ b'(') × (c ≢ b')')) × IsPlain s

pub IsBalanced-of_IsPlain : (s : Text) → IsPlain s → IsBalanced s
IsBalanced-of_IsPlain [] h = done
IsBalanced-of_IsPlain (c ∷ s) ((p, q), h) = plain p q (IsBalanced-of_IsPlain s h)

cons_texts : Text → Option Text → Option Text
cons_texts [] o = o
cons_texts (c ∷ s) o = cons_text c (cons_texts s o)

cons_texts-append :
    (s t : Text) (o : Option Text) → cons_texts (s ++ t) o ≡ cons_texts s (cons_texts t o)
unfolding cons_texts
cons_texts-append [] t o = refl
cons_texts-append (c ∷ s) t o = ap (cons_text c) (cons_texts-append s t o)

cons_texts-some : (s : Text) → cons_texts s (some []) ≡ some s
unfolding cons_texts cons_text
cons_texts-some [] = refl
cons_texts-some (c ∷ s) = ap (cons_text c) (cons_texts-some s)

-- A balanced text is passed over at any positive depth.
group_from-IsBalanced :
    {s : Text} (n : ℕ) (rest : Text)
    → IsBalanced s
    → group_from (pos (suc n)) (s ++ rest) ≡ cons_texts s (group_from (pos (suc n)) rest)
unfolding group_from cons_texts is_zero
group_from-IsBalanced n rest done = refl
group_from-IsBalanced n rest (plain {c} {s} p q b) = ground (arith, group_from-IsBalanced n rest b)
group_from-IsBalanced n rest (group {s} {t} a b) = ap (cons_text 40) (
    rw
      (
        append_assoc s (41 ∷ t) rest,
        group_from-IsBalanced (suc n) (41 ∷ (t ++ rest)) a,
        cons_texts-append s (41 ∷ t),
      )
      (ap (λ o. cons_texts s (cons_text 41 o)) (group_from-IsBalanced n rest b)))

-- What is read at depth `n + 1`: `n + 1` balanced texts with closing parentheses between them.
abbrev Closes : ℕ → Text → Type 0
Closes zero s = IsBalanced s
Closes (suc n) s = (a : Text) × (t : Text) × (s ≡ a ++ 41 ∷ t) × IsBalanced a × Closes n t

Closes-plain : (n : ℕ) (c : ℕ) (s : Text) → c ≢ 40 → c ≢ 41 → Closes n s → Closes n (c ∷ s)
Closes-plain zero c s p q h = plain p q h
Closes-plain (suc n) c s p q (a, t, e, b, h) = (c ∷ a, t, ap (λ u. c ∷ u) e, plain p q b, h)

Closes-group : (n : ℕ) (s t : Text) → IsBalanced s → Closes n t → Closes n (40 ∷ (s ++ 41 ∷ t))
Closes-group zero s t b h = group b h
Closes-group (suc n) s t b (a, u, e, c, h) = (
  40 ∷ (s ++ 41 ∷ a),
  u,
  ap (λ v. 40 ∷ (s ++ 41 ∷ v)) e ∙ ap (λ v. 40 ∷ v) (sym (append_assoc s (41 ∷ a) (41 ∷ u))),
  group b c,
  h,
)

-- `inner` was read from `text` at depth `n + 1`, up to a closing parenthesis.
abbrev Read : ℕ → Text → Text → Type 0
Read n text inner = Closes n inner × ((rest : Text) × (text ≡ inner ++ 41 ∷ rest))

cons_text-some :
    (c : ℕ) (o : Option Text) (inner : Text)
    → cons_text c o ≡ some inner
    → (s : Text) × (o ≡ some s) × (inner ≡ c ∷ s)
unfolding cons_text
cons_text-some c none inner h = cc
cons_text-some c (some s) inner h = (s, refl, ground arith)

Read-open : (n c : ℕ) (s t : Text) → c ≡ 40 → Read (suc n) s t → Read n (c ∷ s) (c ∷ t)
Read-open n c s t e ((a, u, q, b, h), (rest, r)) =
    let same : 40 ∷ (a ++ 41 ∷ u) ≡ c ∷ t = rw (e, q) refl in
    (subst (Closes n) same (Closes-group n a u b h), (rest, ap (λ v. c ∷ v) r))

Read-close : (n c : ℕ) (s t : Text) → c ≡ 41 → Read n s t → Read (suc n) (c ∷ s) (c ∷ t)
Read-close n c s t e (h, (rest, r)) = (([], t, rw e refl, done, h), (rest, ap (λ v. c ∷ v) r))

Read-plain : (n c : ℕ) (s t : Text) → c ≢ 40 → c ≢ 41 → Read n s t → Read n (c ∷ s) (c ∷ t)
Read-plain n c s t p q (h, (rest, r)) = (Closes-plain n c t p q h, (rest, ap (λ v. c ∷ v) r))

-- One more character was read.
Read-more :
    (m n c : ℕ) (s : Text) (o : Option Text) (inner : Text)
    → cons_text c o ≡ some inner
    → ((t : Text) → o ≡ some t → Read m s t)
    → ((t : Text) → Read m s t → Read n (c ∷ s) (c ∷ t))
    → Read n (c ∷ s) inner
Read-more m n c s o inner h read more =
    let (t, e, same) = cons_text-some c o inner h in
    subst (Read n (c ∷ s)) (sym same) (more t (read t e))

closing :
    (n c : ℕ) (s inner : Text)
    → ((m : ℕ) (t : Text) → group_from (pos (suc m)) s ≡ some t → Read m s t)
    → c ≡ 41
    → (if is_zero (pos n) then some [] else cons_text c (group_from (pos n) s)) ≡ some inner
    → Read n (c ∷ s) inner
unfolding is_zero
closing zero c s inner read e h =
    let same : [] ≡ inner = ground (arith, h) in subst (Read 0 (c ∷ s)) same (done, (s, rw e refl))
closing (suc n) c s inner read e h =
    Read-more n (suc n) c s (group_from (pos (suc n)) s) inner h (read n)
      (λ t. Read-close n c s t e)

group_from-Read :
    (n : ℕ) (text inner : Text) → group_from (pos (suc n)) text ≡ some inner → Read n text inner
unfolding group_from is_zero
group_from-Read n [] inner h = cc
group_from-Read n (c ∷ s) inner h = elim (Bool-cases (c == 40)) [
  | inl open_paren ↦
      Read-more (suc n) n c s _ inner (rw (open_paren, group_from) at h) (group_from-Read (suc n) s)
        (λ t. Read-open n c s t ((==_iff c 40).0 open_paren))
  | inr other ↦ elim (Bool-cases (c == 41)) [
    | inl close ↦
        closing n c s inner (λ m. group_from-Read m s) ((==_iff c 41).0 close)
          (rw (other, close, group_from) at h)
    | inr letter ↦
        Read-more n n c s _ inner (rw (other, letter, group_from) at h) (group_from-Read n s)
          (λ t. Read-plain n c s t (ground arith) (ground arith))
  ]
]

balanced_group_of_Read :
    (text inner : Text)
    → IsBalanced inner × ((rest : Text) × (text ≡ inner ++ 41 ∷ rest))
    → balanced_group (40 ∷ text) ≡ some inner
unfolding balanced_group group_from is_zero
balanced_group_of_Read text inner (b, (rest, e)) =
    rw (e, group_from-IsBalanced 0 (41 ∷ rest) b) (cons_texts-some inner)

-- At an opening parenthesis `balancedGroup` returns `inner` exactly if the parentheses of `inner`
-- match and `inner` and a closing parenthesis are the next that stands in the text.
pub balanced_group_iff :
    (text inner : Text)
    → (balanced_group (40 ∷ text) ≡ some inner)
      ↔ (IsBalanced inner × ((rest : Text) × (text ≡ inner ++ 41 ∷ rest)))
unfolding balanced_group
balanced_group_iff text inner =
    (λ h. group_from-Read 0 text inner h, λ r. balanced_group_of_Read text inner r)
