-- ===== src/Numbers/Digits.antt =====
-- src/numberparse.rs: digits, one by one and eight at a time in a `u64`.
use Prim.Native.Nat.{bit_and, bit_or}
use simd_toon_improved.Base.{ℕ, ◌+◌, ◌*◌, ◌/◌, ◌%◌, ◌^◌, Bool, ◌&&◌, [], ◌∷◌, Bytes, leb, ◌==◌}

-- `c.is_ascii_digit()`
unfoldable pub is_integer : ℕ → Bool
is_integer c = leb b'0' c && leb c b'9'

-- `u64::from_le`: the first byte is the lowest. On the little-endian targets `from_ne_bytes` is the same.
abbrev pub from_le : Bytes → ℕ
from_le [] = 0
from_le (b ∷ bs) = b + 256 * from_le bs

abbrev pub is_made_of_eight_digits : ℕ → Bool
is_made_of_eight_digits val =
    bit_or (bit_and val 0xF0F0F0F0F0F0F0F0)
      (bit_and ((val + 0x0606060606060606) % 2 ^ 64) 0xF0F0F0F0F0F0F0F0 / 2 ^ 4)
    == 0x3333333333333333

unfoldable pub is_made_of_eight_digits_fast : Bytes → Bool
is_made_of_eight_digits_fast chars = is_made_of_eight_digits (from_le chars)

abbrev pub pair_up : ℕ → ℕ
pair_up val = bit_and val 0x0F0F0F0F0F0F0F0F * 2561 % 2 ^ 64 / 2 ^ 8

abbrev pub pair_pairs : ℕ → ℕ
pair_pairs val = bit_and val 0x00FF00FF00FF00FF * 6553601 % 2 ^ 64 / 2 ^ 16

abbrev pub join_fours : ℕ → ℕ
join_fours val = bit_and val 0x0000FFFF0000FFFF * 42949672960001 % 2 ^ 64 / 2 ^ 32 % 2 ^ 32

unfoldable pub parse_eight_digits_swar : Bytes → ℕ
parse_eight_digits_swar chars = join_fours (pair_pairs (pair_up (from_le chars)))
