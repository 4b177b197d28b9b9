-- ===== src/Tests/Figures.antt =====
-- Instances of the theorems on numbers, and runs.
use Prim.Native.Char.{code}
use Prim.Native.String.{String}
use simd_toon_improved.Base.{
  ◌*◌, ◌^◌, ◌+◌, Bool, true, false, [], ◌∷◌, ◌++◌, Bytes, length, ◌≡◌, refl,
}
use simd_toon_improved.Error.{Result, ok}
use simd_toon_improved.Tape.{StaticNode, f64}
use simd_toon_improved.Numbers.Parse.{
  try_parse_number, signed_part, integer_part, digits, eight_digits, fraction_digits, fraction_part,
  one_digit, exponent_loop, exponent_digits, exponent_sign, exponent_part, zeros_in_front,
  float_node, node_of,
}
use simd_toon_improved.Views.Slices.{sub_slice}
use simd_toon_improved.Numbers.Digits.{
  is_integer, is_made_of_eight_digits_fast, parse_eight_digits_swar,
}
use simd_toon_improved.Numbers.Floats.{nearest, parse_f64}
use simd_toon_improved.Numbers.Tables.{pow10_components, mantissa_128}
use simd_toon_improved.Numbers.Parts.{
  f64_from_parts, from_exact, from_components, product_of, refined, rounded, normalized, packed,
  f64_from_parts_slow,
}
use simd_toon_improved.Numbers.Spelled.{value, AreDigits, sign, integer, Answers}
use simd_toon_improved.Numbers.Integers.{try_parse_number-integer}
use simd_toon_improved.Numbers.Exact.{IsTruncated, tables-IsTruncated}
use simd_toon_improved.Base.{inl, inr, arith}
use simd_toon_improved.Scanner.Bytewise.{AreBytes}
use simd_toon_improved.Numbers.Grammar.{IsNumber}
use simd_toon_improved.Numbers.Safe.{Refuses}
use simd_toon_improved.Numbers.Stages.{IsGuarded}
use simd_toon_improved.Numbers.Swar.{all_digits, is_made_of_eight_digits_fast-all_digits}
use simd_toon_improved.Numbers.Eight.{parse_eight_digits_swar-value}
use simd_toon_improved.Numbers.Faster.{by_digits, fraction_digits-by_digits}
use simd_toon_improved.Document.{padding, padded}
use simd_toon_improved.Document.Tokens.{try_parse_number-IsNumber}

abbrev codes : String → Bytes
codes String.[] = []
codes (String.◌∷◌ c s) = code c ∷ codes s

abbrev behind : Bytes
behind = codes "\n                     "

abbrev read : Bool → Bytes → Result StaticNode
read negative s = try_parse_number (s ++ behind) 0 (length s) negative

-- Runs, and what an implementation of IEEE arithmetic gives for the same texts.
fraction_run : read false (codes "123.12345678901") ≡ ok (f64 4638364459969925401)
unfolding try_parse_number signed_part integer_part is_integer digits fraction_part fraction_digits
    eight_digits is_made_of_eight_digits_fast parse_eight_digits_swar exponent_part exponent_sign
    exponent_digits one_digit exponent_loop zeros_in_front node_of float_node sub_slice
    f64_from_parts from_exact from_components product_of refined rounded normalized packed
    f64_from_parts_slow nearest parse_f64 mantissa_128 pow10_components
fraction_run = refl

negative_run : read true (codes "-31.245270191439438") ≡ ok (f64 13852860016236358274)
unfolding try_parse_number signed_part integer_part is_integer digits fraction_part fraction_digits
    eight_digits is_made_of_eight_digits_fast parse_eight_digits_swar exponent_part exponent_sign
    exponent_digits one_digit exponent_loop zeros_in_front node_of float_node sub_slice
    f64_from_parts from_exact from_components product_of refined rounded normalized packed
    f64_from_parts_slow nearest parse_f64 mantissa_128 pow10_components
negative_run = refl

largest_run : read false (codes "1.7976931348623157e308") ≡ ok (f64 9218868437227405311)
unfolding try_parse_number signed_part integer_part is_integer digits fraction_part fraction_digits
    eight_digits is_made_of_eight_digits_fast parse_eight_digits_swar exponent_part exponent_sign
    exponent_digits one_digit exponent_loop zeros_in_front node_of float_node sub_slice
    f64_from_parts from_exact from_components product_of refined rounded normalized packed
    f64_from_parts_slow nearest parse_f64 mantissa_128 pow10_components
largest_run = refl

smallest_run : read false (codes "5e-324") ≡ ok (f64 1)
unfolding try_parse_number signed_part integer_part is_integer digits fraction_part fraction_digits
    eight_digits is_made_of_eight_digits_fast parse_eight_digits_swar exponent_part exponent_sign
    exponent_digits one_digit exponent_loop zeros_in_front node_of float_node sub_slice
    f64_from_parts from_exact from_components product_of refined rounded normalized packed
    f64_from_parts_slow nearest parse_f64 mantissa_128 pow10_components
smallest_run = refl

tie_run : read false (codes "9007199254740993.5") ≡ ok (f64 4845873199050653697)
unfolding try_parse_number signed_part integer_part is_integer digits fraction_part fraction_digits
    eight_digits is_made_of_eight_digits_fast parse_eight_digits_swar exponent_part exponent_sign
    exponent_digits one_digit exponent_loop zeros_in_front node_of float_node sub_slice
    f64_from_parts from_exact from_components product_of refined rounded normalized packed
    f64_from_parts_slow nearest parse_f64 mantissa_128 pow10_components
tie_run = refl

-- An exponent of 2^32 is 0 as an `i32`: the number is read as 1.
wrapped_exponent : read false (codes "1e4294967296") ≡ ok (f64 4607182418800017408)
unfolding try_parse_number signed_part integer_part is_integer digits fraction_part fraction_digits
    eight_digits is_made_of_eight_digits_fast parse_eight_digits_swar exponent_part exponent_sign
    exponent_digits one_digit exponent_loop zeros_in_front node_of float_node sub_slice
    f64_from_parts from_exact from_components product_of refined rounded normalized packed
    f64_from_parts_slow nearest parse_f64 mantissa_128 pow10_components
wrapped_exponent = refl

abbrev integer_text : Bytes
integer_text = codes "8446744073709551615"

-- Twenty digits, in front of a comma.
try_parse_number-integer_example : Answers (integer false (value 1 integer_text)) (
    try_parse_number
      (codes "x:" ++ (sign false ++ (b'1' ∷ integer_text ++ b',' ∷ [])))
      2
      (2 + 1 + length integer_text)
      false)
unfolding is_integer
try_parse_number-integer_example =
    try_parse_number-integer false b'1' integer_text b',' [] digits_example refl refl (codes "x:")
  where
    digits_example : AreDigits (b'1' ∷ integer_text)
    digits_example = (
      refl,
      (
        refl,
        (
          refl,
          (
            refl,
            (
              refl,
              (
                refl,
                (
                  refl,
                  (
                    refl,
                    (
                      refl,
                      (
                        refl,
                        (
                          refl,
                          (
                            refl,
                            (refl, (refl, (refl, (refl, (refl, (refl, (refl, (refl, tt)))))))),
                          ),
                        ),
                      ),
                    ),
                  ),
                ),
              ),
            ),
          ),
        ),
      ),
    )

tables-IsTruncated_example : IsTruncated (2 ^ 1214 * 10 ^ 325) 0x8000000000000000 1087 0
unfolding pow10_components mantissa_128
tables-IsTruncated_example = tables-IsTruncated 325 refl refl

-- A token in front of a comma.
abbrev document : Bytes
document = codes "x: -12.5e3,"

document-AreBytes : AreBytes document
document-AreBytes = (
  omega arith,
  (
    omega arith,
    (
      omega arith,
      (
        omega arith,
        (
          omega arith,
          (
            omega arith,
            (omega arith, (omega arith, (omega arith, (omega arith, (omega arith, tt))))),
          ),
        ),
      ),
    ),
  ),
)

try_parse_number-IsNumber_example :
    Refuses (IsNumber true) (codes "-12.5e3") (try_parse_number (padded document) 3 10 true)
unfolding padded padding
try_parse_number-IsNumber_example =
    try_parse_number-IsNumber document document-AreBytes 3 10 (omega arith) b'-' refl

-- Behind the point are eight digits and two more.
abbrev decimals : Bytes
decimals = codes "123456789012\n        "

decimals-AreBytes : AreBytes decimals
decimals-AreBytes = (
  omega arith,
  (
    omega arith,
    (
      omega arith,
      (
        omega arith,
        (
          omega arith,
          (
            omega arith,
            (
              omega arith,
              (
                omega arith,
                (
                  omega arith,
                  (
                    omega arith,
                    (
                      omega arith,
                      (
                        omega arith,
                        (
                          omega arith,
                          (
                            omega arith,
                            (
                              omega arith,
                              (
                                omega arith,
                                (
                                  omega arith,
                                  (omega arith, (omega arith, (omega arith, (omega arith, tt)))),
                                ),
                              ),
                            ),
                          ),
                        ),
                      ),
                    ),
                  ),
                ),
              ),
            ),
          ),
        ),
      ),
    ),
  ),
)

decimals-IsGuarded : IsGuarded decimals
decimals-IsGuarded =
    inr (inr (inr (inr (inr (inr (inr (inr (inr (inr (inr (inr (inl (refl, omega arith)))))))))))))

fraction_digits-by_digits_example : fraction_digits 7 2 decimals ≡ by_digits 7 2 decimals
fraction_digits-by_digits_example =
    fraction_digits-by_digits decimals 7 2 decimals-IsGuarded decimals-AreBytes

is_made_of_eight_digits_fast-all_digits_example :
    is_made_of_eight_digits_fast (codes "1234567:") ≡ all_digits (codes "1234567:")
is_made_of_eight_digits_fast-all_digits_example =
    is_made_of_eight_digits_fast-all_digits (codes "1234567:")
      (
        omega arith,
        (
          omega arith,
          (
            omega arith,
            (omega arith, (omega arith, (omega arith, (omega arith, (omega arith, tt))))),
          ),
        ),
      )
      refl

parse_eight_digits_swar-value_example : parse_eight_digits_swar (codes "12345678") ≡ 12345678
unfolding is_integer
parse_eight_digits_swar-value_example =
    parse_eight_digits_swar-value b'1' b'2' b'3' b'4' b'5' b'6' b'7' b'8'
      (refl, (refl, (refl, (refl, (refl, (refl, (refl, (refl, tt))))))))
      (
        omega arith,
        (
          omega arith,
          (
            omega arith,
            (omega arith, (omega arith, (omega arith, (omega arith, (omega arith, tt))))),
          ),
        ),
      )
