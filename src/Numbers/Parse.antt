-- ===== src/Numbers/Parse.antt =====
-- src/numberparse/correct.rs: `try_parse_number`, a function for each part of a number. `buf` from `idx`
-- on is kept beside `idx`; a read behind its end is a `fault`. `num` is a `u64`, `exponent` is an `i64`
-- and stands here as its bit pattern.
use simd_toon_improved.Base.{
  ℕ, ◌+◌, ◌-◌, ◌*◌, ◌%◌, ◌^◌, Bool, true, false, ◌||◌, not, [], ◌∷◌, Bytes, take, drop, length, leb,
  ltb, ◌==◌, if◌then◌else◌,
}
use simd_toon_improved.Error.{Result, ok, fault}
use simd_toon_improved.Tape.{StaticNode, u64, i64}
use simd_toon_improved.Stage2.Machine.{and_then}
use simd_toon_improved.Strings.Chars.{byte_of}
use simd_toon_improved.Views.Slices.{sub_slice}
use simd_toon_improved.Numbers.Digits.{
  is_integer, is_made_of_eight_digits_fast, parse_eight_digits_swar,
}
use simd_toon_improved.Numbers.Parts.{bad, f64_from_parts, f64_from_parts_slow}

-- What has been read: the digits as a number, the index, and the bytes from there on.
pub record Cursor : Type 0 where
  pub num : ℕ
  pub idx : ℕ
  pub rest : Bytes

abbrev pub at : ℕ → ℕ → Bytes → Cursor
at num idx rest = record { num = num; idx = idx; rest = rest }

-- `10_u64.wrapping_mul(num).wrapping_add(u64::from(c - b'0'))`
abbrev pub push_digit : ℕ → ℕ → ℕ
push_digit num c = (10 * num % 2 ^ 64 + (c - b'0')) % 2 ^ 64

-- `while is_integer(get!(buf, idx))`
unfoldable pub digits : ℕ → ℕ → Bytes → Result Cursor
digits num idx [] = fault
digits num idx (c ∷ rest) = elim (is_integer c) [
  | true ↦ digits (push_digit num c) (idx + 1) rest
  | false ↦ ok (at num idx (c ∷ rest))
]

-- A zero in front is the whole integer part.
unfoldable pub integer_part : ℕ → Bytes → Result Cursor
integer_part idx [] = fault
integer_part idx (c ∷ rest) = elim (c == b'0') [
  | true ↦ ok (at 0 (idx + 1) rest)
  | false ↦ elim (is_integer c) [ true ↦ digits (c - b'0') (idx + 1) rest | false ↦ bad idx c ]
]

-- The sign is behind `start`, and a digit must be behind it.
unfoldable pub signed_part : Bool → ℕ → Bytes → Result Cursor
signed_part false start rest = integer_part start rest
signed_part true start [] = fault
signed_part true start (_ ∷ []) = fault
signed_part true start (_ ∷ (c ∷ rest)) =
    if is_integer c then integer_part (start + 1) (c ∷ rest) else bad (start + 1) c

-- Eight digits at once, where there are eight.
unfoldable pub eight_digits : ℕ → ℕ → Bytes → Result Cursor
eight_digits num idx rest = elim (leb 8 (length rest)) [
  | true ↦ elim (is_made_of_eight_digits_fast (take 8 rest)) [
    | true ↦ ok (
        at ((100000000 * num % 2 ^ 64 + parse_eight_digits_swar (take 8 rest)) % 2 ^ 64) (idx + 8)
          (drop 8 rest))
    | false ↦ ok (at num idx rest)
  ]
  | false ↦ fault
]

-- The digits of a number, and whether it is a float, with its power of ten.
pub record Decimal : Type 0 where
  pub cursor : Cursor
  pub is_float : Bool
  pub exponent : ℕ

abbrev pub decimal : Bool → ℕ → Cursor → Decimal
decimal is_float exponent c = record { cursor = c; is_float = is_float; exponent = exponent }

-- The digits behind a point, the first of which must be there. `first_after_period.wrapping_sub(idx)`
-- is the power of ten.
unfoldable pub fraction_digits : ℕ → ℕ → Bytes → Result Decimal
fraction_digits num first_after_period [] = fault
fraction_digits num first_after_period (c ∷ rest) = elim (is_integer c) [
  | true ↦ and_then (eight_digits (push_digit num c) (first_after_period + 1) rest) λ e.
      and_then (digits e.num e.idx e.rest)
        λ d. ok (decimal true ((first_after_period + 2 ^ 64 - d.idx) % 2 ^ 64) d)
  | false ↦ bad first_after_period c
]

unfoldable pub fraction_part : ℕ → ℕ → Bytes → Result Decimal
fraction_part num idx [] = fault
fraction_part num idx (c ∷ rest) = elim (c == b'.') [
  | true ↦ fraction_digits num (idx + 1) rest
  | false ↦ ok (decimal false 0 (at num idx (c ∷ rest)))
]

-- One digit of an exponent that may be there. The exponent is below 2^36, as `exponent_loop` tests,
-- so that its `i64` does not overflow; it is the `num` of the cursor.
unfoldable pub one_digit : ℕ → ℕ → Bytes → Result Cursor
one_digit exp_number idx [] = fault
one_digit exp_number idx (c ∷ rest) =
    if is_integer c
    then ok (at (10 * exp_number + (c - b'0')) (idx + 1) rest)
    else ok (at exp_number idx (c ∷ rest))

unfoldable pub exponent_loop : ℕ → ℕ → Bytes → Result Cursor
exponent_loop exp_number idx [] = fault
exponent_loop exp_number idx (c ∷ rest) = elim (is_integer c) [
  | true ↦ elim (ltb 0x100000000 exp_number) [
    | true ↦ bad idx c
    | false ↦ exponent_loop (10 * exp_number + (c - b'0')) (idx + 1) rest
  ]
  | false ↦ ok (at exp_number idx (c ∷ rest))
]

unfoldable pub exponent_digits : ℕ → Bytes → Result Cursor
exponent_digits idx [] = fault
exponent_digits idx (c ∷ rest) = elim (is_integer c) [
  | true ↦
      and_then (one_digit (c - b'0') (idx + 1) rest)
        λ e. and_then (one_digit e.num e.idx e.rest) λ e. exponent_loop e.num e.idx e.rest
  | false ↦ bad idx c
]

-- Behind the sign, if one is there.
unfoldable pub exponent_sign : ℕ → Bytes → Result (Bool × Cursor)
exponent_sign idx [] = fault
exponent_sign idx (c ∷ rest) = elim (c == b'-') [
  | true ↦ and_then (exponent_digits (idx + 1) rest) λ e. ok (true, e)
  | false ↦ elim (c == b'+') [
    | true ↦ and_then (exponent_digits (idx + 1) rest) λ e. ok (false, e)
    | false ↦ and_then (exponent_digits idx (c ∷ rest)) λ e. ok (false, e)
  ]
]

-- `exponent += if neg_exp { -exp_number } else { exp_number }`
abbrev pub add_exponent : ℕ → Bool → ℕ → ℕ
add_exponent exponent true exp_number = (exponent + 2 ^ 64 - exp_number) % 2 ^ 64
add_exponent exponent false exp_number = (exponent + exp_number) % 2 ^ 64

unfoldable pub exponent_part : Bool → ℕ → ℕ → ℕ → Bytes → Result Decimal
exponent_part is_float exponent num idx [] = fault
exponent_part is_float exponent num idx (c ∷ rest) = elim (c == b'e' || c == b'E') [
  | true ↦
      and_then (exponent_sign (idx + 1) rest) λ (neg_exp, e).
        ok (decimal true (add_exponent exponent neg_exp e.num) (at num e.idx e.rest))
  | false ↦ ok (decimal is_float exponent (at num idx (c ∷ rest)))
]

-- The zeros and points in front.
unfoldable pub zeros_in_front : Bytes → Result ℕ
zeros_in_front [] = fault
zeros_in_front (c ∷ rest) = elim (c == b'0' || c == b'.') [
  | true ↦ and_then (zeros_in_front rest) λ n. ok (n + 1)
  | false ↦ ok 0
]

-- A number overflows: `check_overflow!`, without the feature that makes it a float.
unfoldable pub large_digits : ℕ → ℕ → Bytes → Result Cursor
large_digits num idx [] = fault
large_digits num idx (c ∷ rest) = elim (is_integer c) [
  | true ↦ elim (leb (2 ^ 64) (10 * num)) [
    | true ↦ bad idx c
    | false ↦ elim (leb (2 ^ 64) (10 * num + (c - b'0'))) [
      | true ↦ bad idx c
      | false ↦ large_digits (10 * num + (c - b'0')) (idx + 1) rest
    ]
  ]
  | false ↦ ok (at num idx (c ∷ rest))
]

unfoldable pub large_part : ℕ → Bytes → Result Cursor
large_part idx [] = fault
large_part idx (c ∷ rest) =
    if c == b'0' then ok (at 0 (idx + 1) rest) else large_digits (c - b'0') (idx + 1) rest

-- `-(num as i64)`, and `i64::MIN` for 2^63.
unfoldable pub large_node : Bool → Cursor → Result StaticNode
large_node false c = ok (u64 c.num)
large_node true c = elim (leb c.num (2 ^ 63)) [
  | true ↦ ok (i64 ((2 ^ 64 - c.num) % 2 ^ 64))
  | false ↦ byte_of c.rest 0 (bad c.idx)
]

-- The index behind the sign.
abbrev pub behind_sign : Bool → ℕ → ℕ
behind_sign true start = start + 1
behind_sign false start = start

-- Without 128-bit numbers.
unfoldable pub parse_large_integer : ℕ → Bytes → Bool → Result StaticNode
parse_large_integer start buf negative =
    and_then (large_part (behind_sign negative start) (drop (behind_sign negative start) buf))
      (large_node negative)

-- What is done with a float whose digits count for a `u64`, or too many.
unfoldable pub float_node : ℕ → ℕ → Bytes → Bool → ℕ → Decimal → Result StaticNode
float_node start end buf negative digit_count d =
    let parts =
      and_then (sub_slice buf start end)
        λ slice. f64_from_parts (not negative) d.cursor.num (d.exponent % 2 ^ 32) slice start in
    elim (leb 19 digit_count) [
      | true ↦ and_then (zeros_in_front (drop (behind_sign negative start) buf)) λ n.
          elim (leb 19 ((digit_count + 2 ^ 64 - n) % 2 ^ 64)) [
            | true ↦ and_then (sub_slice buf start end) λ slice. f64_from_parts_slow slice start
            | false ↦ parts
          ]
      | false ↦ parts
    ]

-- The number has to end where the token does. `wrapping_neg` makes a negative number.
unfoldable pub node_of : ℕ → ℕ → Bytes → Bool → ℕ → Decimal → Result StaticNode
node_of start end buf negative digit_count d = elim (d.cursor.idx == end) [
  | true ↦ elim d.is_float [
    | true ↦ float_node start end buf negative digit_count d
    | false ↦ elim (leb 18 digit_count) [
      | true ↦ parse_large_integer start buf negative
      | false ↦ ok (if negative then i64 ((2 ^ 64 - d.cursor.num) % 2 ^ 64) else u64 d.cursor.num)
    ]
  ]
  | false ↦ byte_of d.cursor.rest 0 (bad d.cursor.idx)
]

-- The digits are counted before the exponent; a point counts as one, and the first is left out.
unfoldable pub try_parse_number : Bytes → ℕ → ℕ → Bool → Result StaticNode
try_parse_number buf start end negative =
    and_then (signed_part negative start (drop start buf)) λ c.
      and_then (fraction_part c.num c.idx c.rest) λ f.
        let digit_count = f.cursor.idx - start - 1 - (if negative then 1 else 0) in
        and_then (exponent_part f.is_float f.exponent f.cursor.num f.cursor.idx f.cursor.rest)
          (node_of start end buf negative digit_count)
