-- ===== src/Numbers/Parts.antt =====
-- src/numberparse/correct.rs: `f64_from_parts`, from the digits and the power of ten of a number to its
-- bits. An `i32` is its bit pattern.
use Prim.Native.Nat.{bit_or}
use simd_toon_improved.Base.{
  ℕ, zero, suc, ◌+◌, ◌-◌, ◌*◌, ◌/◌, ◌%◌, ◌^◌, Bool, true, false, ◌||◌, ◌&&◌, Option, none, some,
  Bytes, get_elem?, leb, ltb, ◌==◌, if◌then◌else◌,
}
use simd_toon_improved.Error.{Result, ok, err, fault, new_c, invalid_number}
use simd_toon_improved.Tape.{StaticNode, f64}
use simd_toon_improved.Stage2.Machine.{and_then}
use simd_toon_improved.Strings.Chars.{byte_of}
use simd_toon_improved.Numbers.Floats.{nearest, is_infinite, with_sign, parse_f64}
use simd_toon_improved.Numbers.Tables.{pow10_components, mantissa_128}

-- `err!($idx, $num)`
abbrev pub bad : {A : Type 0} → ℕ → ℕ → Result A
bad idx num = err (new_c idx num invalid_number)

-- `get!($buf, $idx)` on a table.
abbrev pub entry : {A B : Type 0} → Option A → (A → Result B) → Result B
entry none f = fault
entry (some a) f = f a

unfoldable pub f64_from_parts_slow : Bytes → ℕ → Result StaticNode
f64_from_parts_slow slice offset = elim (parse_f64 slice) [
  | some val ↦ if is_infinite val then byte_of slice 0 (bad offset) else ok (f64 val)
  | none ↦ byte_of slice offset (bad offset)
]

-- The low and the high half of a product.
abbrev pub multiply_as_u128 : ℕ → ℕ → ℕ × ℕ
multiply_as_u128 a b = (a * b % 2 ^ 64, a * b / 2 ^ 64)

-- `leading_zeros` of a word of that many bits.
abbrev pub leading_zeros : ℕ → ℕ → ℕ
leading_zeros zero n = 0
leading_zeros (suc bits) n = if leb (2 ^ bits) n then 0 else suc (leading_zeros bits n)

-- The product with the lower bits of the power of ten too, or none where that does not tell enough.
unfoldable pub refined : ℕ → ℕ → ℕ → ℕ → Option (ℕ × ℕ)
refined f factor_mantissa_low lower upper =
    let product = multiply_as_u128 f factor_mantissa_low in
    let product_middle = (lower + product.1) % 2 ^ 64 in
    let product_high = if ltb product_middle lower then upper + 1 else upper in
    if ((product_middle + 1) % 2 ^ 64 == 0 && product_high % 2 ^ 9 == 0x1FF)
      && ltb ((product.0 + f) % 2 ^ 64) product.0
    then none
    else some (product_middle, product_high)

-- `lower` and `upper`
unfoldable pub product_of : ℕ → ℕ → ℕ → Option (ℕ × ℕ)
product_of f factor_mantissa factor_mantissa_low =
    let product = multiply_as_u128 f factor_mantissa in
    if product.1 % 2 ^ 9 == 0x1FF && ltb ((product.0 + f) % 2 ^ 64) product.0
    then refined f factor_mantissa_low product.0 product.1
    else some product

-- A mantissa that is rounded up to 2^53 is one of 2^52 with a greater exponent. The subtraction on
-- `u64` panics below 0.
unfoldable pub normalized : ℕ → ℕ → Result (ℕ × ℕ)
normalized mantissa leading_zeroes = elim (leb (2 ^ 53) mantissa) [
  | true ↦ elim (leading_zeroes == 0) [ true ↦ fault | false ↦ ok (2 ^ 52, leading_zeroes - 1) ]
  | false ↦ ok (mantissa, leading_zeroes)
]

-- The bits are put together, where the exponent is in range. `mantissa &= !(1 << 52)` clears the
-- highest of 53 bits.
unfoldable pub packed : Bool → ℕ → Bytes → ℕ → ℕ × ℕ → Result StaticNode
packed positive factor_exponent slice offset (mantissa, leading_zeroes) =
    let real_exponent = (factor_exponent + 2 ^ 64 - leading_zeroes) % 2 ^ 64 in
    let bits = bit_or (real_exponent * 2 ^ 52) (mantissa % 2 ^ 52) in
    elim (leb 1 real_exponent && leb real_exponent 2046) [
      | true ↦ elim (is_infinite (with_sign positive bits)) [
        | true ↦ byte_of slice offset (bad offset)
        | false ↦ ok (f64 (with_sign positive bits))
      ]
      | false ↦ f64_from_parts_slow slice offset
    ]

-- `upper` has its highest bit set or the one below: 54 bits are kept, and the last is rounded off.
unfoldable pub rounded : Bool → ℕ → Bytes → ℕ → ℕ → ℕ × ℕ → Result StaticNode
rounded positive factor_exponent slice offset leading_zeroes (lower, upper) =
    let upperbit = upper / 2 ^ 63 in
    let mantissa = upper / 2 ^ (upperbit + 9) in
    elim ((lower == 0 && upper % 2 ^ 9 == 0) && mantissa % 4 == 1) [
      | true ↦ f64_from_parts_slow slice offset
      | false ↦
          and_then (normalized ((mantissa + mantissa % 2) / 2) (leading_zeroes + (1 - upperbit)))
            (packed positive factor_exponent slice offset)
    ]

-- The branch that multiplies with a power of ten of 64 or 128 bits.
unfoldable pub from_components : Bool → ℕ → ℕ → Bytes → ℕ → Result StaticNode
from_components positive significand exponent slice offset =
    entry (get_elem? pow10_components ((exponent + 325) % 2 ^ 32))
      λ (factor_mantissa, factor_exponent).
        entry (get_elem? mantissa_128 ((exponent + 325) % 2 ^ 32)) λ factor_mantissa_low.
          let leading_zeroes = leading_zeros 64 significand in
          elim (product_of (significand * 2 ^ leading_zeroes % 2 ^ 64) factor_mantissa
            factor_mantissa_low) [
              | none ↦ f64_from_parts_slow slice offset
              | some product ↦ rounded positive factor_exponent slice offset leading_zeroes product
            ]

-- `POW10` holds the powers of ten up to 10^22, each of which is an `f64`, as is `significand` here.
unfoldable pub from_exact : Bool → ℕ → ℕ → Result StaticNode
from_exact positive significand exponent = ok (
    f64 (
      with_sign positive (
        if leb (2 ^ 31) exponent
        then nearest significand (10 ^ (2 ^ 32 - exponent))
        else nearest (significand * 10 ^ exponent) 1)))

-- `(-low..=high).contains(&e)`
abbrev pub between : ℕ → ℕ → ℕ → Bool
between low high e = leb e high || leb (2 ^ 32 - low) e

unfoldable pub f64_from_parts : Bool → ℕ → ℕ → Bytes → ℕ → Result StaticNode
f64_from_parts positive significand exponent slice offset =
    elim (between 22 22 exponent && leb significand 9007199254740991) [
      | true ↦ from_exact positive significand exponent
      | false ↦ elim (significand == 0) [
        | true ↦ ok (f64 (with_sign positive 0))
        | false ↦ elim (between 325 308 exponent) [
          | true ↦ from_components positive significand exponent slice offset
          | false ↦ f64_from_parts_slow slice offset
        ]
      ]
    ]
