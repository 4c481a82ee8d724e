-- ===== src/Registry/Warnings.antt =====
-- The collision warnings: which names they carry after a collision and after a removal.
use c_interface_discovery.Prelude.{
  Text, List, [], ◌∷◌, ◌++◌, not, ◌&&◌, ◌||◌, ◌≡◌, refl, arith, ◌===◌, ===_iff, any, keep, find,
  All, All-append, is_some, Bool-cases, Option-cases, inl, inr,
}
use c_interface_discovery.Types.{AnalysisWarning}
use c_interface_discovery.Registry.{is_collision, collision_of, collision_warning, warn}

abbrev pub IsSingle : AnalysisWarning → Type 0
IsSingle w = (f : Text) × (w.files ≡ f ∷ [])

any-append :
    (f : Text) (xs ys : List AnalysisWarning)
    → any (collision_of f) (xs ++ ys) ≡ (any (collision_of f) xs || any (collision_of f) ys)
any-append f [] ys = refl
any-append f (x ∷ xs) ys = ground (arith, any-append f xs ys)

pub find-any :
    (f : Text) (xs : List AnalysisWarning)
    → is_some (find (collision_of f) xs) ≡ any (collision_of f) xs
find-any f [] = refl
find-any f (x ∷ xs) = ground (arith, find-any f xs)

pub collision_of-warning : (f g : Text) → collision_of f (collision_warning g) ≡ (g === f)
unfolding collision_of collision_warning
collision_of-warning f g = ground arith

-- A collision adds a warning for its name, unless there is one.
pub any-warn :
    (f g : Text) (ws : List AnalysisWarning)
    → any (collision_of f) (warn g ws) ≡ (g === f || any (collision_of f) ws)
unfolding warn
any-warn f g ws = elim (Option-cases (find (collision_of g) ws)) [
  | inl h ↦
      rw (h, warn)
        (rw (any-append f ws (collision_warning g ∷ [])) (ground (arith, collision_of-warning f g)))
  | inr (w, h) ↦ rw (h, warn) (ground (arith, find-any f ws, find-any g ws, ===_iff g f))
]

pub IsSingle-warn :
    (g : Text) (ws : List AnalysisWarning) → All IsSingle ws → All IsSingle (warn g ws)
unfolding warn collision_warning
IsSingle-warn g ws h = elim (Option-cases (find (collision_of g) ws)) [
  | inl e ↦ rw (e, warn) (All-append IsSingle ws (collision_warning g ∷ []) h ((g, refl), tt))
  | inr (w, e) ↦ rw (e, warn) h
]

collision_of-single :
    (f x : Text) (w : AnalysisWarning)
    → w.files ≡ x ∷ []
    → collision_of f w ≡ (is_collision w.kind && x === f)
unfolding collision_of
collision_of-single f x w e = rw (e, any) (ground arith)

-- The filter of `removeFile` takes away the warnings of its name and no other.
pub any-keep :
    (f g : Text) (ws : List AnalysisWarning)
    → All IsSingle ws
    → any (collision_of f) (keep (λ w. not (collision_of g w)) ws)
      ≡ (not (g === f) && any (collision_of f) ws)
any-keep f g [] h = ground arith
any-keep f g (w ∷ ws) ((x, e), h) = rw (collision_of-single g x w e) (
    ground (
      arith,
      collision_of-single f x w e,
      any-keep f g ws h,
      ===_iff x g,
      ===_iff x f,
      ===_iff g f,
    ))

pub IsSingle-keep :
    (g : Text) (ws : List AnalysisWarning)
    → All IsSingle ws
    → All IsSingle (keep (λ w. not (collision_of g w)) ws)
IsSingle-keep g [] h = tt
IsSingle-keep g (w ∷ ws) (p, h) = elim (Bool-cases (collision_of g w)) [
  | inl e ↦ rw e (IsSingle-keep g ws h)
  | inr e ↦ rw e (p, IsSingle-keep g ws h)
]
