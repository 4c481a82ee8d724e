-- ===== src/Preprocessor/Tests.antt =====
-- A file with a block in a block, one of them with two branches.
use c_interface_discovery.Prelude.{
  Text, List, false, codes, join, split, trim_start, is_space, is_word, ltb, length, ◌≡◌, refl,
}
use c_interface_discovery.Pack.Pragma.{expect, skip_blanks}
use c_interface_discovery.Preprocessor.{
  extract_conditional_blocks, condition_of, is_alternative, is_end, keyword, word_of, some_word,
  name_after, or_second, ends_word,
}
use c_interface_discovery.Preprocessor.Nests.{
  Nest, stop, plain, block, divide, lines_of, blanked, blocks_of, IsNested, stops, plains, blocks,
  divides,
}
use c_interface_discovery.Preprocessor.Nesting.{extract_conditional_blocks-nested}
use c_interface_discovery.Preprocessor.Lines.{AllStripped, extract_conditional_blocks-AllStripped}

abbrev file : Nest
file =
    block (codes "#ifdef LINUX")
      (plain (codes "int x;") (
        block (codes " # ifndef B")
          (plain (codes "int y;") (divide (codes "#else") (plain (codes "int z;") stop)))
          (codes "#endif /* B */") stop))
      (codes "#endif") (plain (codes "int w;") stop)

file-IsNested : IsNested false file
unfolding condition_of is_alternative is_end keyword word_of some_word name_after or_second
    ends_word expect skip_blanks trim_start is_space is_word
file-IsNested =
    blocks (codes "LINUX", refl)
      (plains (refl, (refl, refl))
        (blocks (codes "B", refl)
          (plains (refl, (refl, refl)) (divides (refl, refl) (plains (refl, (refl, refl)) stops)))
          (refl, (refl, refl)) stops))
      (refl, (refl, refl)) (plains (refl, (refl, refl)) stops)

split_file : split 10 (join 10 (lines_of file)) ≡ lines_of file
unfolding split join
split_file = refl

extract_conditional_blocks-nested_example :
    extract_conditional_blocks (join 10 (lines_of file)) ≡ record {
      stripped_content = join 10 (blanked file);
      blocks = blocks_of 0 file;
      has_conditionals = ltb 0 (length (blocks_of 0 file));
    }
extract_conditional_blocks-nested_example =
    extract_conditional_blocks-nested (join 10 (lines_of file)) file split_file file-IsNested

extract_conditional_blocks-AllStripped_example :
    (ss : List Text) × (((extract_conditional_blocks (join 10 (lines_of file))).stripped_content
        ≡ join 10 ss)
      × AllStripped (split 10 (join 10 (lines_of file))) ss)
extract_conditional_blocks-AllStripped_example =
    extract_conditional_blocks-AllStripped (join 10 (lines_of file))
