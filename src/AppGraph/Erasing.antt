-- ===== src/AppGraph/Erasing.antt =====
-- Without their interfaces, the edges of src/utils/buildAppGraph.ts are collapsed as those of
-- src/utils/buildGraph.ts are.
use c_interface_discovery.Prelude.{
  Text, List, [], ◌∷◌, Option, none, some, true, false, not, ◌&&◌, ◌||◌, ◌===◌, ◌≡◌, refl, ap, ◌∙◌,
  Bool-cases, Option-cases, inl, inr, arith,
}
use c_interface_discovery.Prelude.Dict.{Dict, get, set, has, delete}
use c_interface_discovery.Graph.{
  EdgeEntry, Pairs, includes_text, push_new, push_all, key_of, update, merge, collapse_edge,
  collapse_step, collapse,
}
use c_interface_discovery.AppGraph.Routes.{AppEdge}
use c_interface_discovery.AppGraph.Pairs.{
  AppPairs, merge_msgs, with_confident, merge_app, collapse_app_edge, collapse_app_step,
  collapse_apps,
}

abbrev pub erase : Dict AppEdge → Dict EdgeEntry
erase [] = []
erase ((k, x) ∷ d) = (k, x.entry) ∷ erase d

abbrev pub entry_of : Option AppEdge → Option EdgeEntry
entry_of none = none
entry_of (some x) = some x.entry

pub get-erase : (d : Dict AppEdge) (k : Text) → get (erase d) k ≡ entry_of (get d k)
unfolding get
get-erase [] k = refl
get-erase ((j, x) ∷ d) k = elim (Bool-cases (j === k)) [
  | inl e ↦ rw e refl
  | inr e ↦ rw e (get-erase d k)
]

pub has-erase : (d : Dict AppEdge) (k : Text) → has (erase d) k ≡ has d k
unfolding has
has-erase [] k = refl
has-erase ((j, x) ∷ d) k = ground (arith, has-erase d k)

pub set-erase :
    (d : Dict AppEdge) (k : Text) (x : AppEdge) → erase (set d k x) ≡ set (erase d) k x.entry
unfolding set
set-erase [] k x = refl
set-erase ((j, y) ∷ d) k x = elim (Bool-cases (j === k)) [
  | inl e ↦ rw e refl
  | inr e ↦ rw e (ap (λ r. (j, y.entry) ∷ r) (set-erase d k x))
]

pub delete-erase : (d : Dict AppEdge) (k : Text) → erase (delete d k) ≡ delete (erase d) k
unfolding delete
delete-erase [] k = refl
delete-erase ((j, y) ∷ d) k = elim (Bool-cases (j === k)) [
  | inl e ↦ rw e (delete-erase d k)
  | inr e ↦ rw e (ap (λ r. (j, y.entry) ∷ r) (delete-erase d k))
]

merge_msgs-erase :
    (ms : List Text) (e r : AppEdge)
    → (merge_msgs ms e r).entry ≡ record r.entry { msg_types = push_all r.entry.msg_types ms }
unfolding merge_msgs push_all push_new
merge_msgs-erase [] e r = refl
merge_msgs-erase (m ∷ ms) e r = elim (Bool-cases (includes_text r.entry.msg_types m)) [
  | inl h ↦ rw (h, merge_msgs, push_all, push_new) (merge_msgs-erase ms e r)
  | inr h ↦ rw (h, merge_msgs, push_all, push_new) (merge_msgs-erase ms e _)
]

merge_app-erase : (e r : AppEdge) → (merge_app e r).entry ≡ merge e.entry r.entry
unfolding merge_app with_confident merge
merge_app-erase e r =
    ap (λ (x : EdgeEntry). record x { confident = r.entry.confident || e.entry.confident })
      (merge_msgs-erase e.entry.msg_types e r)

update-erase :
    (e : AppEdge) (k : Text) (d : Dict AppEdge)
    → erase (update (merge_app e) k d) ≡ update (merge e.entry) k (erase d)
unfolding update
update-erase e k d = elim (Option-cases (get d k)) [
  | inl f ↦ let g : get (erase d) k ≡ none = get-erase d k ∙ ap entry_of f in rw (f, g, update) refl
  | inr (r, f) ↦
      let g : get (erase d) k ≡ some r.entry = get-erase d k ∙ ap entry_of f in
      rw (f, g, update) (set-erase d k (merge_app e r) ∙ ap (set (erase d) k) (merge_app-erase e r))
]

abbrev pub erase_pairs : AppPairs → Pairs
erase_pairs st = record { edges = erase st.edges; dropped = st.dropped }

collapse_app_edge-erase :
    (key : Text) (e : AppEdge) (st : AppPairs)
    → erase_pairs (collapse_app_edge key e st) ≡ collapse_edge key e.entry (erase_pairs st)
unfolding collapse_app_edge collapse_edge
collapse_app_edge-erase key e st =
    let reverse_key = key_of e.entry.target e.entry.source in
    elim (Bool-cases (has st.edges reverse_key && not (includes_text st.dropped reverse_key))) [
      | inl h ↦
          let g : (has (erase st.edges) reverse_key && not (includes_text st.dropped reverse_key))
              ≡ true =
            ap (λ b. b && not (includes_text st.dropped reverse_key))
              (has-erase st.edges reverse_key)
            ∙ h in
          rw (h, g, collapse_app_edge, collapse_edge)
            (ap (λ es. record { edges = es; dropped = push_new st.dropped key })
              (update-erase e reverse_key st.edges))
      | inr h ↦
          let g : (has (erase st.edges) reverse_key && not (includes_text st.dropped reverse_key))
              ≡ false =
            ap (λ b. b && not (includes_text st.dropped reverse_key))
              (has-erase st.edges reverse_key)
            ∙ h in
          rw (h, g, collapse_app_edge, collapse_edge) refl
    ]

collapse_app_step-erase :
    (key : Text) (st : AppPairs)
    → erase_pairs (collapse_app_step key st) ≡ collapse_step key (erase_pairs st)
unfolding collapse_app_step collapse_step
collapse_app_step-erase key st = elim (Option-cases (get st.edges key)) [
  | inl f ↦
      let g : get (erase st.edges) key ≡ none = get-erase st.edges key ∙ ap entry_of f in
      rw (f, g, collapse_app_step, collapse_step) refl
  | inr (e, f) ↦
      let g : get (erase st.edges) key ≡ some e.entry = get-erase st.edges key ∙ ap entry_of f in
      elim (Bool-cases (includes_text st.dropped key)) [
        | inl d ↦ rw (f, g, d, collapse_app_step, collapse_step) refl
        | inr d ↦ rw (f, g, d, collapse_app_step, collapse_step) (collapse_app_edge-erase key e st)
      ]
]

-- Without the interfaces that its edges list, the collapsing of reciprocal pairs between applications
-- is, step by step and from any state, the one between files in buildGraph.ts.
pub collapse_apps-erase :
    (keys : List Text) (st : AppPairs)
    → erase_pairs (collapse_apps keys st) ≡ collapse keys (erase_pairs st)
unfolding collapse_apps collapse
collapse_apps-erase [] st = refl
collapse_apps-erase (key ∷ keys) st =
    collapse_apps-erase keys (collapse_app_step key st)
    ∙ ap (collapse keys) (collapse_app_step-erase key st)
