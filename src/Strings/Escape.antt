-- ===== src/Strings/Escape.antt =====
-- src/stringparse.rs: escapes, and code points in one or two units of UTF-16.
use Prim.Native.Nat.{bit_or}
use simd_toon_improved.Base.{
  ℕ, ◌+◌, ◌-◌, ◌/◌, ◌^◌, Bool, true, false, not, ◌&&◌, Bytes, leb, ltb, ◌==◌, if◌then◌else◌, drop,
}
use simd_toon_improved.Error.{Result, ok, err, generic, invalid_utf8}
use simd_toon_improved.Stage2.Machine.{and_then}
use simd_toon_improved.Strings.Chars.{hex_to_u32_nocheck, byte_of, shift_left, codepoint_to_utf8}

-- `ESCAPE_MAP`
unfoldable pub escape_map : ℕ → ℕ
escape_map c =
    if c == 0x22
    then 0x22
    else if c == 0x2f
    then 0x2f
    else if c == 0x5c
    then 0x5c
    else if c == b'b'
    then 0x08
    else if c == b'f'
    then 0x0c
    else if c == b'n'
    then 0x0a
    else if c == b'r'
    then 0x0d
    else if c == b't'
    then 0x09
    else 0

-- `HIGH_SURROGATES.contains` and `LOW_SURROGATES.contains`
abbrev pub is_high : ℕ → Bool
is_high u = leb 0xd800 u && ltb u 0xdc00

abbrev pub is_low : ℕ → Bool
is_low u = leb 0xdc00 u && ltb u 0xe000

-- `checked_sub`, or the error behind it. The code returns an `ErrorType`, which its caller drops.
abbrev checked_sub : {B : Type 0} → ℕ → ℕ → (ℕ → Result B) → Result B
checked_sub a b f = if ltb a b then err (generic invalid_utf8) else f (a - b)

-- What is done with the second unit.
unfoldable pub join_units : ℕ → ℕ → Result (ℕ × ℕ)
join_units code_point code_point_2 =
    if not (bit_or code_point code_point_2 / 2 ^ 16 == 0)
    then ok (0, 6)
    else checked_sub code_point 0xd800
        λ c1. checked_sub code_point_2 0xdc00 λ c2. ok (bit_or (shift_left c1 10) c2 + 0x10000, 12)

-- Behind a high surrogate.
unfoldable pub second_unit : ℕ → Bytes → Result (ℕ × ℕ)
second_unit code_point src = byte_of src 0 λ a. elim (a == b'\\') [
  | false ↦ ok (0, 6)
  | true ↦ byte_of src 1 λ b. elim (b == b'u') [
    | false ↦ ok (0, 6)
    | true ↦
        and_then (hex_to_u32_nocheck (drop 2 src))
          λ code_point_2. join_units code_point code_point_2
  ]
]

-- The checks on the first unit.
unfoldable pub first_unit : ℕ → Bytes → Result (ℕ × ℕ)
first_unit code_point src = elim (is_high code_point) [
  | true ↦ second_unit code_point src
  | false ↦ if is_low code_point then err (generic invalid_utf8) else ok (code_point, 6)
]

-- From the backslash on: the code point, and how many bytes of the source it takes.
unfoldable pub get_unicode_codepoint : Bytes → Result (ℕ × ℕ)
get_unicode_codepoint src =
    and_then (hex_to_u32_nocheck (drop 2 src)) λ code_point. first_unit code_point (drop 6 src)

-- The bytes that are written, whose number the code returns, and how many of the source are read.
unfoldable pub handle_unicode_codepoint : Bytes → Result (Bytes × ℕ)
handle_unicode_codepoint src =
    and_then (get_unicode_codepoint src)
      λ (code_point, src_offset). ok (codepoint_to_utf8 code_point, src_offset)
