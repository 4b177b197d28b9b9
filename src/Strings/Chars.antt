-- ===== src/Strings/Chars.antt =====
-- src/charutils.rs: hexadecimal digits, and the UTF-8 form of a code point.
use Prim.Native.Nat.{bit_or}
use simd_toon_improved.Base.{
  ℕ, ◌+◌, ◌-◌, ◌*◌, ◌/◌, ◌%◌, ◌^◌, ◌&&◌, none, some, [], ◌∷◌, Bytes, leb, if◌then◌else◌, get_elem?,
}
use simd_toon_improved.Error.{Result, ok, fault}

-- `DIGITTOVAL`, as the 32 bits that an entry is extended to: -1 is all ones.
unfoldable pub digit_to_val : ℕ → ℕ
digit_to_val c =
    if leb b'0' c && leb c b'9'
    then c - b'0'
    else if leb b'A' c && leb c b'F'
    then c - b'A' + 10
    else if leb b'a' c && leb c b'f'
    then c - b'a' + 10
    else 2 ^ 32 - 1

-- `v << k`, on 32 bits.
abbrev pub shift_left : ℕ → ℕ → ℕ
shift_left v k = v * 2 ^ k % 2 ^ 32

-- The last expression of `hex_to_u32_nocheck`, on the four bytes.
unfoldable pub combine : ℕ → ℕ → ℕ → ℕ → ℕ
combine a b c d =
    bit_or
      (bit_or (bit_or (shift_left (digit_to_val a) 12) (shift_left (digit_to_val b) 8))
        (shift_left (digit_to_val c) 4))
      (digit_to_val d)

-- `*src.get_kinda_unchecked(i)`
abbrev pub byte_of : {B : Type 0} → Bytes → ℕ → (ℕ → Result B) → Result B
byte_of src i f = elim (get_elem? src i) [ none ↦ fault | some c ↦ f c ]

unfoldable pub hex_to_u32_nocheck : Bytes → Result ℕ
hex_to_u32_nocheck src =
    byte_of src 0 λ a. byte_of src 1 λ b. byte_of src 2 λ c. byte_of src 3 λ d. ok (combine a b c d)

-- `(cp >> k & 63) + 128` as a byte.
abbrev pub continuation : ℕ → ℕ → ℕ
continuation cp k = (cp / 2 ^ k % 64 + 128) % 256

-- The bytes that `codepoint_to_utf8` writes; it returns how many.
unfoldable pub codepoint_to_utf8 : ℕ → Bytes
codepoint_to_utf8 cp =
    if leb cp 0x7F
    then cp % 256 ∷ []
    else if leb cp 0x7FF
    then (cp / 2 ^ 6 + 192) % 256 ∷ continuation cp 0 ∷ []
    else if leb cp 0xFFFF
    then (cp / 2 ^ 12 + 224) % 256 ∷ continuation cp 6 ∷ continuation cp 0 ∷ []
    else if leb cp 0x10FFFF
    then (cp / 2 ^ 18 + 240) % 256 ∷ continuation cp 12 ∷ continuation cp 6 ∷ continuation cp 0 ∷ []
    else []
