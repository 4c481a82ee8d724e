-- ===== src/Pack/Tests.antt =====
-- Runs of the packing detection, and its theorems at concrete texts.
use c_interface_discovery.Prelude.{
  Text, [], ◌∷◌, ◌++◌, none, some, ◌≡◌, ◌↔◌, true, refl, arith, codes, ◌===◌, starts_with, split,
  trim, trim_start, is_space, is_digit, lower, index_of, is_word,
}
use c_interface_discovery.Prelude.Words.{has_word, decimal}
use c_interface_discovery.Pack.Number.{
  number, signed, unsigned, span_digits, fraction, exponent_sign, with_exponent, scaled, based,
  based_from, digit_value,
}
use c_interface_discovery.Pack.Pragma.{
  set, push, pop, is_pack_value, skip_blanks, expect, skip_blanks_1, pragma_args, parts_of,
  find_value, directive_of, scan_line, cons_some, scan_lines, scan_pack_pragmas,
}
use c_interface_discovery.Pack.Replay.{
  start, step, step_kind, or_keep, pop_state, replay, value_at, pack_map, build_pack_map,
}
use c_interface_discovery.Pack.Replay.Lookup.{run, up_to, build_pack_map-run}
use c_interface_discovery.Pack.Replay.Nesting.{directive_at, Nested, run-pair}
use c_interface_discovery.Pack.Resolve.{pragma, from_pragma, resolve_pack}
use c_interface_discovery.Pack.Resolve.Values.{Explained, resolve_pack-Explained}
use c_interface_discovery.Pack.Attribute.{
  attribute_packed, attr, balanced_group, packed_keyword, detect_packed_attribute,
}
use c_interface_discovery.Pack.Attribute.Balance.{
  IsBalanced, IsBalanced-append, IsBalanced-of_IsPlain, balanced_group_iff,
}
use c_interface_discovery.Pack.Attribute.Detect.{detect_packed_attribute-group}

-- Three lines: push 2, a struct, pop.
abbrev sample : Text
sample =
    codes "#pragma pack(push, 2)" ++ 10 ∷ (codes "struct S;" ++ 10 ∷ codes " # pragma pack ( POP )")

numbers :
    (number (codes "16") ≡ some 16)
    × (number (codes "0x8") ≡ some 8)
    × (number (codes "4.0") ≡ some 4)
    × (number (codes "40e-1") ≡ some 4)
    × (number (codes "4.5") ≡ none)
    × (number (codes "n") ≡ none)
    × (number (codes "-4") ≡ none)
unfolding number trim ◌===◌ starts_with signed unsigned span_digits fraction with_exponent scaled
    based is_digit decimal based_from digit_value lower exponent_sign
numbers = (refl, refl, refl, refl, refl, refl, refl)

sample_value : build_pack_map sample 1 ≡ some 2
unfolding build_pack_map scan_pack_pragmas pack_map scan_lines split cons_some scan_line pragma_args
    expect skip_blanks skip_blanks_1 index_of ◌===◌ trim directive_of parts_of lower value_at replay
    fraction number scaled signed span_digits unsigned with_exponent find_value is_pack_value
    or_keep pop_state step step_kind is_digit is_space starts_with trim_start decimal
sample_value = refl

build_pack_map-run_example :
    build_pack_map sample 1 ≡ (run (up_to 1 (scan_pack_pragmas sample)) start).current
build_pack_map-run_example = build_pack_map-run sample 1

run-pair_example :
    run
      (directive_at 0 push (some 2)
        ∷ ((directive_at 1 set (some 8) ∷ []) ++ directive_at 2 pop none ∷ []))
      start
    ≡ start
run-pair_example = run-pair 0 2 (some 2) none start (Nested.setting 1 (some 8) Nested.done)

abbrev inner : Text
inner = codes "(aligned(1), packed)"

inner-IsBalanced : IsBalanced inner
inner-IsBalanced =
    IsBalanced.group {s = codes "aligned(1), packed"} {t = []}
      (IsBalanced-append {s = codes "aligned"} {t = codes "(1), packed"}
        (IsBalanced-of_IsPlain (codes "aligned") (omega arith))
        (IsBalanced.group {s = codes "1"} {t = codes ", packed"}
          (IsBalanced-of_IsPlain (codes "1") (omega arith))
          (IsBalanced-of_IsPlain (codes ", packed") (omega arith))))
      IsBalanced.done

inner_packed : packed_keyword (some inner) ≡ true
unfolding packed_keyword has_word starts_with is_word
inner_packed = refl

detect_packed_attribute-group_example :
    detect_packed_attribute (codes "struct P " ++ (attr ++ ([] ++ 40 ∷ (inner ++ 41 ∷ codes ";"))))
    ≡ some 1
detect_packed_attribute-group_example =
    detect_packed_attribute-group (codes "struct P ") [] inner (codes ";") tt inner-IsBalanced
      inner_packed

balanced_group_iff_example :
    (balanced_group (40 ∷ codes "a)b") ≡ some (codes "a"))
    ↔ (IsBalanced (codes "a") × ((rest : Text) × (codes "a)b" ≡ codes "a" ++ 41 ∷ rest)))
balanced_group_iff_example = balanced_group_iff (codes "a)b") (codes "a")

pragma_two :
    resolve_pack (codes "struct S;") (build_pack_map sample 1)
    ≡ some (record { pack_attribute = 2; pack_source = pragma })
unfolding resolve_pack from_pragma detect_packed_attribute attribute_packed starts_with has_word
    is_word
pragma_two = rw sample_value refl

resolve_pack-Explained_example :
    Explained
      (codes "struct S;")
      (build_pack_map sample 1)
      (record { pack_attribute = 2; pack_source = pragma })
resolve_pack-Explained_example = resolve_pack-Explained (codes "struct S;") sample 1 _ pragma_two
