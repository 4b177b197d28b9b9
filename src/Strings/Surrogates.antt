-- ===== src/Strings/Surrogates.antt =====
-- src/stringparse.rs: what `get_unicode_codepoint` makes of the units that an escape writes.
use Prim.Native.Nat.{bit_or}
use simd_toon_improved.Base.{
  ℕ, ◌+◌, ◌-◌, ◌*◌, ◌^◌, ◌≤◌, ◌<◌, true, false, Option, none, some, [], ◌∷◌, ◌++◌, Bytes, ◌≡◌, refl,
  ap, subst, arith, Bool-cases, inl, inr, leb, leb→lt,
}
use simd_toon_improved.Base.Bits.{bit_or-add, bit_or-lt}
use simd_toon_improved.Error.{Result, ok, err, generic, invalid_utf8}
use simd_toon_improved.Strings.Chars.{hex_to_u32_nocheck, shift_left, codepoint_to_utf8, combine}
use simd_toon_improved.Strings.Hex.{hex_digit, hex_value, HexMatches, combine-HexMatches}
use simd_toon_improved.Strings.Escape.{
  is_high, is_low, first_unit, join_units, second_unit, get_unicode_codepoint,
  handle_unicode_codepoint,
}
use simd_toon_improved.Strings.Utf8.{IsScalar, decode_utf8, decode_utf8-codepoint_to_utf8}

-- The four digits of a unit, and `\u` before them.
pub record Digits : Type 0 where
  pub d1 : ℕ
  pub d2 : ℕ
  pub d3 : ℕ
  pub d4 : ℕ

abbrev pub unit_of : Digits → Option ℕ
unit_of u = hex_value (hex_digit u.d1) (hex_digit u.d2) (hex_digit u.d3) (hex_digit u.d4)

abbrev pub escaped : Digits → Bytes → Bytes
escaped u rest = b'\\' ∷ b'u' ∷ u.d1 ∷ u.d2 ∷ u.d3 ∷ u.d4 ∷ rest

-- A unit that is written is the number that is read.
pub combine-unit :
    (u : Digits) (n : ℕ) → unit_of u ≡ some n → (combine u.d1 u.d2 u.d3 u.d4 ≡ n) × (n < 2 ^ 16)
combine-unit u n e =
    subst (λ o. HexMatches o (combine u.d1 u.d2 u.d3 u.d4)) e
      (combine-HexMatches u.d1 u.d2 u.d3 u.d4)

pub combine-none : (u : Digits) → unit_of u ≡ none → 0xFFFF0000 ≤ combine u.d1 u.d2 u.d3 u.d4
combine-none u e =
    subst (λ o. HexMatches o (combine u.d1 u.d2 u.d3 u.d4)) e
      (combine-HexMatches u.d1 u.d2 u.d3 u.d4)

-- The number of a pair of surrogates.
abbrev pub pair : ℕ → ℕ → ℕ
pair hi lo = 0x10000 + (hi - 0xd800) * 0x400 + (lo - 0xdc00)

join_units-pair :
    (hi lo : ℕ) → is_high hi ≡ true → is_low lo ≡ true → join_units hi lo ≡ ok (pair hi lo, 12)
unfolding join_units
join_units-pair hi lo p q = ground (arith, bit_or-lt 16 hi lo, joined)
  where
    joined :
        bit_or (shift_left (hi - 0xd800) 10) (lo - 0xdc00) ≡ (hi - 0xd800) * 2 ^ 10 + (lo - 0xdc00)
    joined = rw shifted (bit_or-add 10 (hi - 0xd800) (lo - 0xdc00) (ground arith))
      where
        shifted : shift_left (hi - 0xd800) 10 ≡ (hi - 0xd800) * 2 ^ 10
        shifted = ground arith

-- A unit as it is read, before it is looked at.
read_unit :
    (u : Digits) (rest : Bytes) (n : ℕ)
    → unit_of u ≡ some n
    → hex_to_u32_nocheck (u.d1 ∷ u.d2 ∷ u.d3 ∷ u.d4 ∷ rest) ≡ ok n
unfolding hex_to_u32_nocheck
read_unit u rest n e = ap ok (combine-unit u n e).0

escape-first_unit :
    (u : Digits) (rest : Bytes) (n : ℕ)
    → unit_of u ≡ some n
    → get_unicode_codepoint (escaped u rest) ≡ first_unit n rest
unfolding get_unicode_codepoint
escape-first_unit u rest n e = rw (read_unit u rest n e) refl

escape-second_unit :
    (v : Digits) (rest : Bytes) (hi lo : ℕ)
    → unit_of v ≡ some lo
    → second_unit hi (escaped v rest) ≡ join_units hi lo
unfolding second_unit
escape-second_unit v rest hi lo e = rw (read_unit v rest lo e) refl

-- A result that writes a code point in UTF-8 and takes so many bytes of the source.
abbrev pub Writes : ℕ → ℕ → Result (Bytes × ℕ) → Type 0
Writes cp taken r =
    (bs : Bytes) × (r ≡ ok (bs, taken))
    × ((rest : Bytes) → decode_utf8 (bs ++ rest) ≡ some (cp, rest))

unit-IsScalar : (n : ℕ) → is_high n ≡ false → is_low n ≡ false → n ≤ 0xFFFF → IsScalar n
unit-IsScalar n p q l = elim (Bool-cases (leb 0xD800 n)) [
  | inl y ↦ inr (ground arith, omega arith)
  | inr n ↦ inl (leb→lt _ _ n)
]

-- An escape whose unit is no surrogate writes that unit as a code point in UTF-8, which a decoder reads
-- back, and takes six bytes, whatever is behind it.
pub handle_unicode_codepoint_unit :
    (u : Digits) (rest : Bytes) (n : ℕ)
    → unit_of u ≡ some n
    → is_high n ≡ false
    → is_low n ≡ false
    → Writes n 6 (handle_unicode_codepoint (escaped u rest))
unfolding handle_unicode_codepoint first_unit
handle_unicode_codepoint_unit u rest n e p q = (
  codepoint_to_utf8 n,
  rw (escape-first_unit u rest n e, first_unit, p, q) refl,
  λ rest.
      decode_utf8-codepoint_to_utf8 n rest
        (unit-IsScalar n p q (omega (arith, (combine-unit u n e).1))),
)

-- An escape of a high surrogate with an escape of a low surrogate behind it writes the code point that
-- UTF-16 gives the pair, in UTF-8, which a decoder reads back, and takes twelve bytes.
pub handle_unicode_codepoint-pair :
    (u v : Digits) (rest : Bytes) (hi lo : ℕ)
    → unit_of u ≡ some hi
    → unit_of v ≡ some lo
    → is_high hi ≡ true
    → is_low lo ≡ true
    → Writes (pair hi lo) 12 (handle_unicode_codepoint (escaped u (escaped v rest)))
unfolding handle_unicode_codepoint first_unit
handle_unicode_codepoint-pair u v rest hi lo e f p q = (
  codepoint_to_utf8 (pair hi lo),
  rw
      (
        escape-first_unit u (escaped v rest) hi e,
        first_unit,
        p,
        escape-second_unit v rest hi lo f,
        join_units-pair hi lo p q,
      )
      refl,
  λ rest. decode_utf8-codepoint_to_utf8 (pair hi lo) rest (inr (ground arith, ground arith)),
)

-- Numbers with upper bits set are no surrogates and no code points.
pub first_unit_huge : (n : ℕ) (rest : Bytes) → 0xFFFF0000 ≤ n → first_unit n rest ≡ ok (n, 6)
unfolding first_unit
first_unit_huge n rest h = ground arith

pub codepoint_to_utf8_huge : (n : ℕ) → 0xFFFF0000 ≤ n → codepoint_to_utf8 n ≡ []
unfolding codepoint_to_utf8
codepoint_to_utf8_huge n h = ground arith

first_unit_low :
    (n : ℕ) (rest : Bytes) → is_low n ≡ true → first_unit n rest ≡ err (generic invalid_utf8)
unfolding first_unit
first_unit_low n rest h = ground arith

-- An escape of a low surrogate is an error, and one with a byte that is no hexadecimal digit writes
-- nothing, which the caller takes for an error.
pub handle_unicode_codepoint-refuses :
    (u : Digits) (rest : Bytes)
    → ((n : ℕ)
        → unit_of u ≡ some n
        → is_low n ≡ true
        → handle_unicode_codepoint (escaped u rest) ≡ err (generic invalid_utf8))
      × (unit_of u ≡ none → handle_unicode_codepoint (escaped u rest) ≡ ok ([], 6))
unfolding handle_unicode_codepoint get_unicode_codepoint hex_to_u32_nocheck
handle_unicode_codepoint-refuses u rest = (
  λ n e q. rw (escape-first_unit u rest n e, first_unit_low n rest q) refl,
  λ e.
      rw (first_unit_huge _ rest (combine-none u e), codepoint_to_utf8_huge _ (combine-none u e))
        refl,
)
