-- ===== src/Strings/Parse.antt =====
-- src/impls/avx2/deser.rs: `parse_str` and `parse_str_quotes`, which look at 32 bytes at a time.
-- A `u32` that a comparison makes is its 32 bits, lowest first.
use simd_toon_improved.Base.{
  ℕ, zero, suc, ◌+◌, Bool, true, false, ◌&&◌, ◌||◌, List, [], ◌∷◌, ◌++◌, Bytes, leb, ◌==◌,
  if◌then◌else◌, take, drop, length,
}
use simd_toon_improved.Error.{
  Result, ok, err, fault, out_of_fuel, new_c, invalid_escape, invalid_unicode_codepoint, ErrorType,
}
use simd_toon_improved.Stage2.Machine.{and_then}
use simd_toon_improved.Views.Slices.{sub_slice}
use simd_toon_improved.Strings.Chars.{byte_of}
use simd_toon_improved.Strings.Escape.{escape_map, handle_unicode_codepoint}

-- `_mm256_movemask_epi8(_mm256_cmpeq_epi8(v, _mm256_set1_epi8(c)))`
abbrev pub equals_mask : ℕ → Bytes → List Bool
equals_mask c [] = []
equals_mask c (b ∷ v) = (b == c) ∷ equals_mask c v

-- `wrapping_sub(1)`: the lowest bit that is set goes, and all below it come.
abbrev pub wrapping_sub_one : List Bool → List Bool
wrapping_sub_one [] = []
wrapping_sub_one (true ∷ bits) = false ∷ bits
wrapping_sub_one (false ∷ bits) = true ∷ wrapping_sub_one bits

-- `(a & b) != 0`
abbrev pub meets : List Bool → List Bool → Bool
meets (x ∷ a) (y ∷ b) = (x && y) || meets a b
meets _ _ = false

abbrev pub trailing_zeros : List Bool → ℕ
trailing_zeros [] = 0
trailing_zeros (true ∷ bits) = 0
trailing_zeros (false ∷ bits) = suc (trailing_zeros bits)

-- The branches of both loops: quotes first, a backslash first, or neither, with the distance.
pub data Found : Type 0 where
  quote backslash : ℕ → Found
  neither : Found

unfoldable pub look_bits : List Bool → List Bool → Found
look_bits bs_bits quote_bits =
    if meets (wrapping_sub_one bs_bits) quote_bits
    then quote (trailing_zeros quote_bits)
    else if meets (wrapping_sub_one quote_bits) bs_bits
    then backslash (trailing_zeros bs_bits)
    else neither

unfoldable pub look : Bytes → Found
look v = look_bits (equals_mask b'\\' v) (equals_mask b'"' v)

-- `_mm256_loadu_si256` at the start of what is left, which must not reach behind the data.
abbrev pub window : {B : Type 0} → Bytes → (Bytes → Result B) → Result B
window src f = elim (leb 32 (length src)) [ true ↦ f (take 32 src) | false ↦ fault ]

-- How the first loop ends: the string is closed after `len` bytes, or the second loop goes on from
-- the backslash there. `src` is the source from `src_i` on, which is `len` here.
pub data Start : Type 0 where
  closed : ℕ → Start
  escapes : ℕ → Bytes → Start

unfoldable pub first_loop : ℕ → Bytes → ℕ → Result Start
first_loop zero src len = out_of_fuel
first_loop (suc fuel) src len = window src λ v. elim (look v) [
  | quote quote_dist ↦ ok (closed (len + quote_dist))
  | backslash bs_dist ↦ ok (escapes (len + bs_dist) (drop bs_dist src))
  | neither ↦ first_loop fuel (drop 32 src) (len + 32)
]

abbrev invalid : ℕ → ℕ → ErrorType → Result (Bytes × (ℕ × Bytes))
invalid src_i c t = err (new_c src_i c t)

-- `map_err` and the test on `o` of an escape of a code point.
unfoldable pub unicode_escape : Bytes → ℕ → ℕ → Result (Bytes × ℕ) → Result (Bytes × (ℕ × Bytes))
unicode_escape src src_i bs_dist (ok ([], s)) =
    invalid (src_i + bs_dist) b'u' invalid_unicode_codepoint
unicode_escape src src_i bs_dist (ok (b ∷ bs, s)) =
    ok (b ∷ bs, (src_i + bs_dist + s, drop (bs_dist + s) src))
unicode_escape src src_i bs_dist (err e) = invalid (src_i + bs_dist) b'u' invalid_unicode_codepoint
unicode_escape src src_i bs_dist fault = fault
unicode_escape src src_i bs_dist out_of_fuel = out_of_fuel

-- The escape at `bs_dist` bytes behind `src_i`: what it writes behind the bytes before it, and the
-- source behind it with its index.
unfoldable pub escape : Bytes → ℕ → ℕ → Result (Bytes × (ℕ × Bytes))
escape src src_i bs_dist = byte_of src (bs_dist + 1) λ escape_char. elim (escape_char == b'u') [
  | true ↦ unicode_escape src src_i bs_dist (handle_unicode_codepoint (drop bs_dist src))
  | false ↦ elim (escape_map escape_char == 0) [
    | true ↦ invalid src_i escape_char invalid_escape
    | false ↦ ok (escape_map escape_char ∷ [], (src_i + bs_dist + 2, drop (bs_dist + 2) src))
  ]
]

-- `dst` is the buffer up to `dst_i`: what the code stores behind that is stored again before it is
-- read.
unfoldable pub second_loop : ℕ → Bytes → ℕ → Bytes → Result Bytes
second_loop zero src src_i dst = out_of_fuel
second_loop (suc fuel) src src_i dst = window src λ v. elim (look v) [
  | quote quote_dist ↦ ok (dst ++ take quote_dist v)
  | backslash bs_dist ↦
      and_then (escape src src_i bs_dist)
        λ (o, (src_i, src)). second_loop fuel src src_i ((dst ++ take bs_dist v) ++ o)
  | neither ↦ second_loop fuel (drop 32 src) (src_i + 32) (dst ++ v)
]

-- From the byte behind the opening quotes: the text that `input` then holds, where the second loop
-- has copied its buffer behind the bytes of the first. A round of a loop takes a byte or more.
unfoldable pub parse_str_quotes : Bytes → Result Bytes
parse_str_quotes src = and_then (first_loop (suc (length src)) src 0) λ start. elim start [
  | closed len ↦ ok (take len src)
  | escapes len rest ↦
      and_then (second_loop (suc (length src)) rest len []) λ dst. ok (take len src ++ dst)
]

-- Text in quotes ends where it is closed, whatever `end` is.
unfoldable pub parse_str : Bytes → ℕ → ℕ → Result Bytes
parse_str input idx end = byte_of input idx λ c. elim (c == b'"') [
  | true ↦ parse_str_quotes (drop (idx + 1) input)
  | false ↦ sub_slice input idx end
]
