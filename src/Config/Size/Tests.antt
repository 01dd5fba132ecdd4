-- ===== src/Config/Size/Tests.antt =====
-- Sizes, and one that does not fit.
use sirr_mesh.Base.{◌≡◌, refl, arith, inl, inr, [], ◌∷◌, text, text_eq, ok}
use sirr_mesh.Config.Number.{dec_digit, decimal, parse_int, parse_uint}
use sirr_mesh.Config.Size.{parse_data_size, unit_of}
use sirr_mesh.Config.Size.Sum.{Part, sum_of, parts_text, parse_data_size-sum_of}

two_sizes : parse_data_size dec_digit (text "1M 512K") ≡ ok 1572864
unfolding parse_data_size unit_of text_eq parse_int parse_uint decimal
two_sizes = refl

-- Overflow is not noticed: 17179869184 G are 2 ^ 64 bytes.
size_overflows : parse_data_size dec_digit (text "17179869184G") ≡ ok 0
unfolding parse_data_size unit_of text_eq parse_int parse_uint decimal
size_overflows = refl

-- Zero has any suffix.
zero_of_anything : parse_data_size dec_digit (text "0parsecs") ≡ ok 0
unfolding parse_data_size unit_of text_eq parse_int parse_uint decimal
zero_of_anything = refl

abbrev megabyte : Part
megabyte = record {
  first_digit = b'1';
  more_digits = [];
  part_suffix = text "M";
  number = 1;
  part_unit = 1048576;
}

abbrev kilobytes : Part
kilobytes = record {
  first_digit = b'5';
  more_digits = text "12";
  part_suffix = text "K";
  number = 512;
  part_unit = 1024;
}

parse_data_size-sum_of_example :
    parse_data_size dec_digit (parts_text megabyte (kilobytes ∷ []))
    ≡ ok (sum_of (megabyte ∷ kilobytes ∷ []))
unfolding parse_int parse_uint decimal unit_of text_eq
parse_data_size-sum_of_example =
    parse_data_size-sum_of dec_digit refl megabyte (kilobytes ∷ [])
      (
        (refl, refl, refl, inr (inl (refl, refl))),
        ((refl, refl, refl, inr (inr (inl (refl, refl)))), tt),
      )
      (omega arith)
