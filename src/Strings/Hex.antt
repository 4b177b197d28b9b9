-- ===== src/Strings/Hex.antt =====
-- src/charutils.rs: `hex_to_u32_nocheck` against the value of four digits.
use Prim.Native.Nat.{bit_or}
use simd_toon_improved.Base.{
  ℕ, ◌+◌, ◌-◌, ◌*◌, ◌^◌, ◌≤◌, ◌<◌, ◌⊎◌, inl, inr, ◌&&◌, Option, none, some, leb, Bool-cases,
  if◌then◌else◌, ◌≡◌, refl, arith,
}
use simd_toon_improved.Base.Bits.{bit_or-add, le-bit_or, ge-bit_or}
use simd_toon_improved.Strings.Chars.{digit_to_val, shift_left, combine}

-- The value of a hexadecimal digit, in either case.
abbrev pub hex_digit : ℕ → Option ℕ
hex_digit c =
    if leb b'0' c && leb c b'9'
    then some (c - b'0')
    else if leb b'A' c && leb c b'F'
    then some (c - b'A' + 10)
    else if leb b'a' c && leb c b'f'
    then some (c - b'a' + 10)
    else none

-- The number of four digits, if they are four.
unfoldable pub hex_value : Option ℕ → Option ℕ → Option ℕ → Option ℕ → Option ℕ
hex_value (some a) (some b) (some c) (some d) = some (((a * 16 + b) * 16 + c) * 16 + d)
hex_value _ _ _ _ = none

abbrev invalid : ℕ
invalid = 2 ^ 32 - 1

abbrev pub HexMatches : Option ℕ → ℕ → Type 0
HexMatches none v = 0xFFFF0000 ≤ v
HexMatches (some n) v = (v ≡ n) × (n < 2 ^ 16)

-- A table entry that agrees with a digit.
abbrev IsDigit : Option ℕ → ℕ → Type 0
IsDigit none v = v ≡ invalid
IsDigit (some n) v = (v ≡ n) × (n < 16)

hex_digit-IsDigit : (c : ℕ) → IsDigit (hex_digit c) (digit_to_val c)
unfolding digit_to_val
hex_digit-IsDigit c = elim (Bool-cases (leb b'0' c && leb c b'9')) [
  | inl y ↦ rw (hex_digit, y) (refl, ground arith)
  | inr n ↦
      rw (hex_digit, n)
        (elim (Bool-cases (leb b'A' c && leb c b'F')) [
          | inl y ↦ rw y (refl, ground arith)
          | inr n' ↦ rw n' (elim (Bool-cases (leb b'a' c && leb c b'f')) [
            | inl y ↦ rw y (refl, ground arith)
            | inr n'' ↦ rw n'' refl
          ])
        ])
]

-- The digits side by side.
combine_digits :
    (a b c d : ℕ)
    → a < 16
    → b < 16
    → c < 16
    → d < 16
    → bit_or (bit_or (bit_or (shift_left a 12) (shift_left b 8)) (shift_left c 4)) d
      ≡ ((a * 16 + b) * 16 + c) * 16 + d
combine_digits a b c d p q r s =
    rw
      (
        by_12,
        by_8,
        by_4,
        bit_or-add 12 a (b * 256) (omega arith),
        first,
        bit_or-add 8 (a * 16 + b) (c * 16) (omega arith),
        second,
        bit_or-add 4 ((a * 16 + b) * 16 + c) d (omega arith),
      )
      refl
  where
    by_12 : shift_left a 12 ≡ a * 2 ^ 12
    by_12 = omega arith

    by_8 : shift_left b 8 ≡ b * 256
    by_8 = omega arith

    by_4 : shift_left c 4 ≡ c * 16
    by_4 = omega arith

    first : a * 2 ^ 12 + b * 256 ≡ (a * 16 + b) * 2 ^ 8
    first = omega arith

    second : (a * 16 + b) * 2 ^ 8 + c * 16 ≡ ((a * 16 + b) * 16 + c) * 2 ^ 4
    second = omega arith

-- Any digit that is none leaves the upper bits set.
invalid-le :
    (x y z w : ℕ)
    → (x ≡ invalid) ⊎ ((y ≡ invalid) ⊎ ((z ≡ invalid) ⊎ (w ≡ invalid)))
    → 0xFFFF0000 ≤ bit_or (bit_or (bit_or (shift_left x 12) (shift_left y 8)) (shift_left z 4)) w
invalid-le x y z w h = ground (
  arith,
  le-bit_or (shift_left x 12) (shift_left y 8),
  ge-bit_or (shift_left x 12) (shift_left y 8),
  le-bit_or (bit_or (shift_left x 12) (shift_left y 8)) (shift_left z 4),
  ge-bit_or (bit_or (shift_left x 12) (shift_left y 8)) (shift_left z 4),
  le-bit_or (bit_or (bit_or (shift_left x 12) (shift_left y 8)) (shift_left z 4)) w,
  ge-bit_or (bit_or (bit_or (shift_left x 12) (shift_left y 8)) (shift_left z 4)) w,
)

matches :
    (a b c d : Option ℕ) (x y z w : ℕ)
    → IsDigit a x
    → IsDigit b y
    → IsDigit c z
    → IsDigit d w
    → HexMatches
        (hex_value a b c d)
        (bit_or (bit_or (bit_or (shift_left x 12) (shift_left y 8)) (shift_left z 4)) w)
unfolding hex_value
matches (some a) (some b) (some c) (some d) x y z w (e, p) (f, q) (g, r) (h, s) =
    rw (e, f, g, h) (combine_digits a b c d p q r s, omega arith)
matches none b c d x y z w h h' h'' h''' = invalid-le x y z w (inl h)
matches (some a) none c d x y z w h h' h'' h''' = invalid-le x y z w (inr (inl h'))
matches (some a) (some b) none d x y z w h h' h'' h''' = invalid-le x y z w (inr (inr (inl h'')))
matches (some a) (some b) (some c) none x y z w h h' h'' h''' =
    invalid-le x y z w (inr (inr (inr h''')))

-- Four hexadecimal digits give the number that they write, below 2^16, and four bytes that are not all
-- such digits give a number with upper bits set, which is how the caller tells.
pub combine-HexMatches :
    (a b c d : ℕ)
    → HexMatches
        (hex_value (hex_digit a) (hex_digit b) (hex_digit c) (hex_digit d))
        (combine a b c d)
unfolding combine hex_value
combine-HexMatches a b c d =
    matches (hex_digit a) (hex_digit b) (hex_digit c) (hex_digit d) _ _ _ _ (hex_digit-IsDigit a)
      (hex_digit-IsDigit b) (hex_digit-IsDigit c) (hex_digit-IsDigit d)
