-- ===== src/HeaderGen/Closure.antt =====
-- The headers that `buildHeaderGenBundle` of src/analyzer/headerGenBundle.ts includes are those that
-- the selected ones need.
use c_interface_discovery.Prelude.{
  Text, List, [], ◌∷◌, ◌++◌, map, keep, Bool, true, false, not, ◌&&◌, ◌||◌, ◌===◌, ◌≡◌, ◌↔◌, refl,
  sym, ap, ◌∙◌, text_before, Bool-cases, inl, inr, arith,
}
use c_interface_discovery.Prelude.Dict.{Dict}
use c_interface_discovery.Types.{LoadedFile}
use c_interface_discovery.Graph.{includes_text}
use c_interface_discovery.Graph.Members.{
  includes_text-append, includes_text-keep, keys, length-keys, get-keys,
}
use c_interface_discovery.Roles.Report.{insert_by, sort_by}
use c_interface_discovery.Walk.Fuel.{HasEntries}
use c_interface_discovery.Walk.Sound.{Reach}
use c_interface_discovery.Walk.Exact.{walk_all_iff}
use c_interface_discovery.HeaderGen.{
  include_files, bundle_of, build_header_gen_bundle, walk_start, reach_includes,
}
use c_interface_discovery.HeaderGen.Includes.{is_header}
use c_interface_discovery.HeaderGen.Roots.{HeaderGenInput, HeaderGenReview}
use c_interface_discovery.HeaderGen.Walks.{
  include_walker, content_actions, content_by_file, walk_includes,
}

-- The first file includes the second, directly or by files in between: every step is a local include
-- of a loaded file that resolves to a loaded file.
abbrev pub Leads : HeaderGenInput → Text → Text → Type 0
Leads input =
    Reach (include_walker (map (λ f. f.filename) input.files) (content_by_file input.files []))

includes_text-insert_by :
    (before : Text → Text → Bool) (x : Text) (xs : List Text) (k : Text)
    → includes_text (insert_by before x xs) k ≡ (x === k || includes_text xs k)
unfolding insert_by includes_text
includes_text-insert_by before x [] k = refl
includes_text-insert_by before x (y ∷ ys) k = elim (Bool-cases (before x y)) [
  | inl e ↦ rw (e, insert_by) refl
  | inr e ↦ rw (e, insert_by) (ground (arith, includes_text-insert_by before x ys k))
]

includes_text-sort_by :
    (before : Text → Text → Bool) (xs : List Text) (k : Text)
    → includes_text (sort_by before xs) k ≡ includes_text xs k
unfolding sort_by includes_text
includes_text-sort_by before [] k = refl
includes_text-sort_by before (x ∷ xs) k =
    includes_text-insert_by before x (sort_by before xs) k
    ∙ ap (λ b. x === k || b) (includes_text-sort_by before xs k)

module _ (loaded : List Text) (contents : Dict Text) where
  has_entries : HasEntries (include_walker loaded contents) (keys contents)
  unfolding include_walker content_actions
  has_entries n = elim (get-keys contents n) [ inl z ↦ inl (rw z refl) | inr h ↦ inr h ]

  walk_includes_iff :
      (starts : List Text) (review : List HeaderGenReview) (m : Text)
      → (includes_text (walk_includes loaded contents starts review).seen m ≡ true) ↔ (
          (n : Text) × (includes_text starts n ≡ true) × Reach (include_walker loaded contents) n m)
  unfolding walk_includes include_walker
  walk_includes_iff starts review m = rw (← length-keys contents) (
      walk_all_iff (include_walker loaded contents) (keys contents) has_entries (λ n. refl) starts
        review m)

abbrev sorted : List Text → List Text
sorted = sort_by text_before

-- The headers to include beside the selected ones, for any selection.
bundle_of_iff :
    (input : HeaderGenInput) (roots inputs : List Text) (review : List HeaderGenReview) (to : Text)
    → (includes_text
          (include_files inputs (reach_includes input (walk_start roots inputs) review).seen)
          to
        ≡ true)
      ↔ ((is_header to ≡ true)
          × (includes_text (sorted inputs) to ≡ false)
          × ((from : Text) × ((includes_text (sorted roots) from
                  || includes_text (sorted inputs) from)
                ≡ true)
              × Leads input from to))
unfolding include_files reach_includes walk_start
bundle_of_iff input roots inputs review to =
    let loaded = map (λ (f : LoadedFile). f.filename) input.files in
    let contents = content_by_file input.files [] in
    let seen = (walk_includes loaded contents (roots ++ inputs) review).seen in
    let chosen = λ (f : Text). is_header f && not (includes_text inputs f) in
    let listed : includes_text (sort_by text_before (keep chosen seen)) to
        ≡ ((is_header to && not (includes_text inputs to)) && includes_text seen to) =
      includes_text-sort_by text_before (keep chosen seen) to ∙ includes_text-keep chosen seen to in
    let reached = walk_includes_iff loaded contents (roots ++ inputs) review to in
    let started = λ (n : Text).
      includes_text-append roots inputs n
      ∙ (ap (λ b. b || includes_text inputs n) (sym (includes_text-sort_by text_before roots n))
          ∙ ap (λ b. includes_text (sorted roots) n || b)
              (sym (includes_text-sort_by text_before inputs n))) in
    let unsorted = includes_text-sort_by text_before inputs to in
    (
      λ h.
          let (n, from, r) = reached.0 (ground arith) in
          (ground arith, ground arith, (n, sym (started n) ∙ from, r)),
      λ (header, outside, (n, from, r)).
          let found = reached.1 (n, started n ∙ from, r) in ground arith,
    )

-- The bundle includes a file exactly if it is a header that is not an input, and a root or an input
-- leads to it by local includes of the loaded files, however many and whatever cycles they form.
pub build_header_gen_bundle_iff :
    (locale_before : Text → Text → Bool) (input : HeaderGenInput) (to : Text)
    → let b = build_header_gen_bundle locale_before input in
      (includes_text b.include to ≡ true) ↔ (
        (is_header to ≡ true)
        × (includes_text b.input to ≡ false)
        × ((from : Text) × ((includes_text b.root from || includes_text b.input from) ≡ true)
            × Leads input from to))
unfolding build_header_gen_bundle bundle_of
build_header_gen_bundle_iff locale_before input to = bundle_of_iff input _ _ _ to
