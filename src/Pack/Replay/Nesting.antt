-- ===== src/Pack/Replay/Nesting.antt =====
-- `push` and `pop` as a pair: what stands between them leaves no trace.
use c_interface_discovery.Prelude.{ℕ, List, [], ◌∷◌, ◌++◌, Option, ◌≡◌, refl, ap, ◌∙◌}
use c_interface_discovery.Pack.Pragma.{Kind, set, push, pop, reset, PackDirective}
use c_interface_discovery.Pack.Replay.{PackState, pop_state, step_kind, step}
use c_interface_discovery.Pack.Replay.Lookup.{run}

abbrev pub directive_at : ℕ → Kind → Option ℕ → PackDirective
directive_at line kind value = record { line = line; kind = kind; value = value }

-- Directives in which every `push` has its `pop`.
pub data Nested : List PackDirective → Type 0 where
  done : Nested []
  setting :
      {ds : List PackDirective} (line : ℕ) (value : Option ℕ)
      → Nested ds
      → Nested (directive_at line set value ∷ ds)
  resetting :
      {ds : List PackDirective} (line : ℕ) (value : Option ℕ)
      → Nested ds
      → Nested (directive_at line reset value ∷ ds)
  pair :
      {inner ds : List PackDirective} (line end : ℕ) (value other : Option ℕ)
      → Nested inner
      → Nested ds
      → Nested (directive_at line push value ∷ (inner ++ directive_at end pop other ∷ ds))

run-append : (ds es : List PackDirective) (s : PackState) → run (ds ++ es) s ≡ run es (run ds s)
unfolding run
run-append [] es s = refl
run-append (d ∷ ds) es s = run-append ds es (step d s)

pop-push :
    (line : ℕ) (other : Option ℕ) (s t : PackState)
    → t.stack ≡ s.current ∷ s.stack
    → step (directive_at line pop other) t ≡ s
unfolding step step_kind pop_state
pop-push line other s t h = rw h refl

stack-Nested : {ds : List PackDirective} (s : PackState) → Nested ds → (run ds s).stack ≡ s.stack
unfolding run step step_kind
stack-Nested s done = refl
stack-Nested s (setting line value n) = stack-Nested _ n
stack-Nested s (resetting line value n) = stack-Nested _ n
stack-Nested s (pair {inner} {ds} line end value other n m) =
    let opened = step (directive_at line push value) s in
    let closed = pop-push end other s (run inner opened) (stack-Nested opened n) in
    rw (run-append inner (directive_at end pop other ∷ ds) opened)
      (ap (λ t. (run ds t).stack) closed ∙ stack-Nested s m)

stack_opened :
    (line : ℕ) (value : Option ℕ) {inner : List PackDirective} (s : PackState)
    → Nested inner
    → (run inner (step (directive_at line push value) s)).stack ≡ s.current ∷ s.stack
unfolding step step_kind
stack_opened line value s n = stack-Nested (step (directive_at line push value) s) n

-- From any state, a `push`, nested directives and a `pop` lead back to that same state: the value in
-- effect and the whole stack are those from before the `push`.
pub run-pair :
    (line end : ℕ) (value other : Option ℕ) {inner : List PackDirective} (s : PackState)
    → Nested inner
    → run (directive_at line push value ∷ (inner ++ directive_at end pop other ∷ [])) s ≡ s
unfolding run
run-pair line end value other {inner} s n =
    let opened = step (directive_at line push value) s in
    rw (run-append inner (directive_at end pop other ∷ []) opened)
      (pop-push end other s (run inner opened) (stack_opened line value s n))
