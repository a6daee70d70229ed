-- ===== src/Manifest/Uint/Tests.antt =====
-- Numbers as a manifest writes them.
use elfrc.Base.{◌%◌, ◌^◌, ◌-◌, ◌<◌, ◌≡◌, refl, arith, min, [], ◌∷◌, none, some}
use elfrc.Manifest.Uint.{
  isspace, isdigit, skip_space, strtol_sign, strtol_digits, number_of, unsigned_of, parse_uint,
}
use elfrc.Manifest.Uint.Laws.{decimal, parse_uint-decimal}

-- Blanks and a sign may come first, and nothing may follow.
spaced : parse_uint (some (b' ' ∷ b'+' ∷ b'7' ∷ [])) ≡ some 7
unfolding parse_uint skip_space isspace strtol_sign unsigned_of number_of strtol_digits isdigit
spaced = refl

trailing : parse_uint (some (b'7' ∷ b' ' ∷ [])) ≡ none
unfolding parse_uint skip_space isspace strtol_sign unsigned_of number_of strtol_digits isdigit
trailing = refl

negative : parse_uint (some (b'-' ∷ b'1' ∷ [])) ≡ none
unfolding parse_uint skip_space isspace strtol_sign unsigned_of number_of strtol_digits isdigit
negative = refl

parse_uint-decimal_example :
    (4294967297 < 2 ^ 32 → parse_uint (some (decimal 10 4294967297)) ≡ some 4294967297)
    × (parse_uint (some (decimal 10 4294967297)) ≡ some (min 4294967297 (2 ^ 63 - 1) % 2 ^ 32))
parse_uint-decimal_example = parse_uint-decimal 10 4294967297 (omega arith) (omega arith)
