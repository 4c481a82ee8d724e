-- ===== src/Pack/Replay/Lookup.antt =====
-- The checkpoints answer as a replay of the directives up to the line would.
use c_interface_discovery.Prelude.{
  ℕ, suc, ◌≤◌, ◌<◌, ltb, leb, Text, List, [], ◌∷◌, some, true, false, ◌≡◌, refl, arith, keep, All,
  All-mono, Bool-cases, Option-cases, trim, inl, inr, split, ltb→lt,
}
use c_interface_discovery.Pack.Pragma.{
  PackDirective, directive_of, set_or_reset, parts_of, pragma_args, scan_line, cons_some,
  scan_lines, scan_pack_pragmas,
}
use c_interface_discovery.Pack.Replay.{
  PackState, start, step, replay, value_at, pack_map, build_pack_map,
}

-- The state after a list of directives, without checkpoints.
unfoldable pub run : List PackDirective → PackState → PackState
run [] s = s
run (d ∷ ds) s = run ds (step d s)

abbrev pub up_to : ℕ → List PackDirective → List PackDirective
up_to line = keep (λ d. leb d.line line)

-- Each directive stands on a later line than those before it.
abbrev pub IsSorted : List PackDirective → Type 0
IsSorted [] = Unit
IsSorted (d ∷ ds) = All (λ e. d.line < e.line) ds × IsSorted ds

none_later : (line : ℕ) (ds : List PackDirective) → All (λ e. line < e.line) ds → up_to line ds ≡ []
none_later line [] h = refl
none_later line (d ∷ ds) (p, h) = ground (arith, none_later line ds h)

value_at-replay :
    (ds : List PackDirective) (s : PackState) (line : ℕ)
    → IsSorted ds
    → value_at (replay ds s) s.current line ≡ (run (up_to line ds) s).current
unfolding value_at replay run
value_at-replay [] s line h = refl
value_at-replay (d ∷ ds) s line (later, h) = elim (Bool-cases (ltb line d.line)) [
  | inl before ↦
      let none_here : leb d.line line ≡ false = ground arith in
      let lt = ltb→lt line d.line before in
      rw (before, value_at)
        (rw (none_here, none_later line ds (All-mono (λ e p. omega arith) ds later), run) refl)
  | inr reached ↦
      let here : leb d.line line ≡ true = ground arith in
      rw (reached, value_at) (rw (here, run) (value_at-replay ds (step d s) line h))
]

line-directive_of :
    (i : ℕ) (parts : List Text) (d : PackDirective) → directive_of i parts ≡ some d → d.line ≡ i
unfolding directive_of set_or_reset
line-directive_of i [] d h = ground arith
line-directive_of i (p ∷ ps) d h = ground arith

line-scan_line : (i : ℕ) (line : Text) (d : PackDirective) → scan_line i line ≡ some d → d.line ≡ i
unfolding scan_line
line-scan_line i line d h = elim (Option-cases (pragma_args line)) [
  | inl none_here ↦ cc (rw (none_here, scan_line) at h)
  | inr (m, args) ↦ ground (arith, line-directive_of i (parts_of (trim m)) d)
]

-- The directives of the lines from `i` on stand on lines from `i` on, in order.
scan_lines-IsSorted :
    (i : ℕ) (lines : List Text)
    → All (λ d. i ≤ d.line) (scan_lines i lines) × IsSorted (scan_lines i lines)
unfolding scan_lines cons_some
scan_lines-IsSorted i [] = (tt, tt)
scan_lines-IsSorted i (line ∷ lines) =
    let (from, sorted) = scan_lines-IsSorted (suc i) lines in
    elim (Option-cases (scan_line i line)) [
      | inl e ↦
          rw (e, cons_some) (All-mono (λ d p. omega arith) (scan_lines (suc i) lines) from, sorted)
      | inr (d, e) ↦
          let here = line-scan_line i line d e in
          rw (e, cons_some)
            (
              (omega arith, All-mono (λ d p. omega arith) (scan_lines (suc i) lines) from),
              (All-mono (λ d p. omega arith) (scan_lines (suc i) lines) from, sorted),
            )
    ]

pack_map-run :
    (ds : List PackDirective) (line : ℕ)
    → IsSorted ds
    → pack_map ds line ≡ (run (up_to line ds) start).current
unfolding pack_map run
pack_map-run [] line h = refl
pack_map-run (d ∷ ds) line h = value_at-replay (d ∷ ds) start line h

-- The value that the returned function gives for a line is the one in effect after the directives
-- on the lines up to and including it, replayed from the start of the file.
pub build_pack_map-run :
    (content : Text) (line : ℕ)
    → build_pack_map content line ≡ (run (up_to line (scan_pack_pragmas content)) start).current
unfolding build_pack_map scan_pack_pragmas
build_pack_map-run content line =
    pack_map-run (scan_lines 0 (split 10 content)) line (scan_lines-IsSorted 0 (split 10 content)).1
