-- ===== src/Roles/Duality.antt =====
-- The two sides of the containment graph of src/analyzer/structRoleAnalyzer.ts.
use c_interface_discovery.Prelude.{
  Text, List, [], ◌∷◌, ◌++◌, Option, none, some, Bool, true, false, ◌===◌, ===_refl, All, All-mono,
  is_some, ◌⊎◌, ◌≡◌, refl, sym, ap, ◌∙◌, if◌then◌else◌, Bool-cases, inl, inr,
}
use c_interface_discovery.Prelude.Dict.{Dict, get, set, get-set}
use c_interface_discovery.Types.{CField, CStruct, TypeDict}
use c_interface_discovery.Graph.{includes_text, push_new, update}
use c_interface_discovery.Roles.Containment.{
  Tables, start_tables, list_at, has_parent, embed, embed_found, field_step, fields_step,
  structs_step, no_tables, containment, has_variable_array, is_pointer_field, resolve_field_struct,
}
use c_interface_discovery.Roles.Embedding.{list_at-set, is_some-update, IsDual, embed-IsDual}

-- Every struct of a list has its entry.
abbrev Present : Tables → CStruct → Type 0
Present t s = is_some (get t.contains s.name) ≡ true

-- What a round keeps: both sides agree, and no entry goes away.
record Grows (t u : Tables) : Type 0 where
  dual : IsDual t → IsDual u
  present : (s : CStruct) → Present t s → Present u s

same-Grows : (t : Tables) → Grows t t
same-Grows t = record { dual = λ d. d; present = λ s p. p }

embed_found-Grows :
    (s : CStruct) (f : CField) (is_first : Bool) (found : Option CStruct) (t : Tables)
    → Present t s
    → Grows t (embed_found s f is_first found t)
unfolding embed_found embed
embed_found-Grows s f is_first none t p = same-Grows t
embed_found-Grows s f is_first (some child) t p = elim (Bool-cases (child.name === s.name)) [
  | inl e ↦ rw (e, embed_found) (same-Grows t)
  | inr e ↦
      rw (e, embed_found)
        (record {
          dual = embed-IsDual s.name f is_first child.name t p;
          present =
              λ x q. is_some-update (λ names. push_new names child.name) t.contains s.name x.name q;
        })
]

field_step-Grows :
    (dict : TypeDict) (s : CStruct) (is_first : Bool) (f : CField) (t : Tables)
    → Present t s
    → Grows t (field_step dict s is_first f t)
unfolding field_step
field_step-Grows dict s is_first f t p = elim (Bool-cases (has_variable_array f.type f.name)) [
  | inl v ↦
      rw (v, field_step)
        (pointer_or
          (record t {
            variable_arrays = update (λ names. names ++ f.name ∷ []) s.name t.variable_arrays;
          })
          p (λ d. d) (λ x q. q) (Bool-cases (is_pointer_field f.type f.name)))
  | inr v ↦
      rw (v, field_step)
        (pointer_or t p (λ d. d) (λ x q. q) (Bool-cases (is_pointer_field f.type f.name)))
]
  where
    pointer_or :
        (u : Tables)
        → Present u s
        → (IsDual t → IsDual u)
        → ((x : CStruct) → Present t x → Present u x)
        → ((is_pointer_field f.type f.name ≡ true) ⊎ (is_pointer_field f.type f.name ≡ false))
        → Grows t (
            if is_pointer_field f.type f.name
            then record u {
              pointer_fields = update (λ names. names ++ f.name ∷ []) s.name u.pointer_fields;
            }
            else embed_found s f is_first (resolve_field_struct f.type dict) u)
    pointer_or u q d k (inl e) = rw e (record { dual = d; present = k })
    pointer_or u q d k (inr e) =
        let g = embed_found-Grows s f is_first (resolve_field_struct f.type dict) u q in
        rw e (record { dual = λ x. g.dual (d x); present = λ x y. g.present x (k x y) })

fields_step-Grows :
    (dict : TypeDict) (s : CStruct) (is_first : Bool) (fields : List CField) (t : Tables)
    → Present t s
    → Grows t (fields_step dict s is_first fields t)
unfolding fields_step
fields_step-Grows dict s is_first [] t p = same-Grows t
fields_step-Grows dict s is_first (f ∷ fields) t p =
    let g = field_step-Grows dict s is_first f t p in
    let h =
      fields_step-Grows dict s false fields (field_step dict s is_first f t) (g.present s p) in
    record { dual = λ d. h.dual (g.dual d); present = λ x q. h.present x (g.present x q) }

structs_step-IsDual :
    (dict : TypeDict) (ss : List CStruct) (t : Tables)
    → All (Present t) ss
    → IsDual t
    → IsDual (structs_step dict ss t)
unfolding structs_step
structs_step-IsDual dict [] t p d = d
structs_step-IsDual dict (s ∷ ss) t (p, ps) d =
    let g = fields_step-Grows dict s true s.fields t p in
    structs_step-IsDual dict ss (fields_step dict s true s.fields t)
      (All-mono (λ x q. g.present x q) ss ps) (g.dual d)

-- The tables before the first field: entries without names.
record IsFresh (t : Tables) : Type 0 where
  nothing : (parent : Text) → list_at t.contains parent ≡ []
  no_edges : t.contained_by ≡ []

set_present :
    (d : Dict (List Text)) (k j : Text) (xs : List Text)
    → is_some (get d j) ≡ true
    → is_some (get (set d k xs) j) ≡ true
set_present d k j xs h = elim (Bool-cases (k === j)) [
  | inl e ↦ rw (get-set d k j xs) (rw e refl)
  | inr e ↦ rw (get-set d k j xs) (rw e h)
]

start_tables-keeps :
    (ss : List CStruct) (t : Tables) (s : CStruct) → Present t s → Present (start_tables ss t) s
unfolding start_tables
start_tables-keeps [] t s p = p
start_tables-keeps (x ∷ ss) t s p =
    start_tables-keeps ss _ s (set_present t.contains x.name s.name [] p)

start_tables-Present : (ss : List CStruct) (t : Tables) → All (Present (start_tables ss t)) ss
unfolding start_tables
start_tables-Present [] t = tt
start_tables-Present (s ∷ ss) t = (
  start_tables-keeps ss _ s (rw (get-set t.contains s.name s.name [], ===_refl s.name) refl),
  start_tables-Present ss _,
)

start_tables-IsFresh : (ss : List CStruct) (t : Tables) → IsFresh t → IsFresh (start_tables ss t)
unfolding start_tables
start_tables-IsFresh [] t f = f
start_tables-IsFresh (s ∷ ss) t f = start_tables-IsFresh ss _ (record {
  nothing = λ parent. list_at-set t.contains s.name parent [] ∙ either parent;
  no_edges = f.no_edges;
})
  where
    either : (parent : Text) → (if s.name === parent then [] else list_at t.contains parent) ≡ []
    either parent = elim (Bool-cases (s.name === parent)) [
      | inl e ↦ rw e refl
      | inr e ↦ rw e (f.nothing parent)
    ]

list_at-nil : (k : Text) → list_at {A = Text} [] k ≡ []
unfolding list_at get
list_at-nil k = refl

IsFresh-IsDual : (t : Tables) → IsFresh t → IsDual t
unfolding list_at includes_text has_parent get
IsFresh-IsDual t f parent child =
    ap (λ ns. includes_text ns child) (f.nothing parent)
    ∙ sym (ap (λ d. has_parent parent (list_at d child)) f.no_edges)

-- In the containment graph of any dictionary, a struct lists another among its blocks exactly if
-- that one lists it among its parents: pointers, repeated fields and typedefs included.
pub containment-IsDual : (dict : TypeDict) → IsDual (containment dict)
unfolding containment
containment-IsDual dict =
    structs_step-IsDual dict dict.structs (start_tables dict.structs no_tables)
      (start_tables-Present dict.structs no_tables)
      (IsFresh-IsDual _ (
        start_tables-IsFresh dict.structs no_tables
          (record { nothing = list_at-nil; no_edges = refl })))
