-- ===== src/Numbers/Range.antt =====
-- src/numberparse/correct.rs: the indexes, subtractions and exponents of `f64_from_parts`.
use Prim.Native.Nat.{bit_or}
use native.Mathlib.Nat.{mul-le-mul_right}
use simd_toon_improved.Base.{
  ℕ, zero, suc, ◌+◌, ◌-◌, ◌*◌, ◌/◌, ◌%◌, ◌^◌, ◌≤◌, ◌<◌, Bool, true, false, ◌&&◌, some, List, [],
  ◌∷◌, Bytes, get_elem?, length, leb, leb→le, leb→lt, ◌==◌, Bool-cases, Option-cases, inl, inr, ◌≡◌,
  refl, sym, subst, arith,
}
use simd_toon_improved.Base.Bits.{bit_or-add}
use simd_toon_improved.Error.{Result, ok, err, fault, out_of_fuel}
use simd_toon_improved.Stage2.Machine.{and_then}
use simd_toon_improved.Strings.Chars.{byte_of}
use simd_toon_improved.Numbers.Floats.{is_infinite, infinity, with_sign, parse_f64}
use simd_toon_improved.Numbers.Tables.{pow10_components, mantissa_128}
use simd_toon_improved.Numbers.Parts.{
  f64_from_parts_slow, leading_zeros, entry, refined, product_of, normalized, packed, rounded,
  from_components, from_exact, between, f64_from_parts,
}

-- A value or an error: nothing panicked, and no fuel ran out.
abbrev pub Settled : {A : Type 0} → Result A → Type 0
Settled (ok a) = Unit
Settled (err e) = Unit
Settled fault = ⊥
Settled out_of_fuel = ⊥

pub then-Settled :
    {A B : Type 0} (r : Result A) (f : A → Result B)
    → Settled r
    → ((a : A) → Settled (f a))
    → Settled (and_then r f)
then-Settled (ok a) f h k = k a
then-Settled (err e) f h k = tt
then-Settled fault f h k = absurd h
then-Settled out_of_fuel f h k = absurd h

-- The largest mantissa of the table is well below 2^64.
abbrev all_at_most : ℕ → List (ℕ × ℕ) → Bool
all_at_most n [] = true
all_at_most n ((m, e) ∷ components) = leb m n && all_at_most n components

all_at_most-at :
    (n : ℕ) (components : List (ℕ × ℕ)) (i : ℕ) {m e : ℕ}
    → all_at_most n components ≡ true
    → get_elem? components i ≡ some (m, e)
    → m ≤ n
all_at_most-at n [] i h p = absurd (cc)
all_at_most-at n ((m', e') ∷ components) zero {m} {e} h p =
    let m_eq : m' ≡ m = cc in ground (arith, m_eq)
all_at_most-at n ((m', e') ∷ components) (suc i) h p =
    all_at_most-at n components i (ground arith) p

abbrev largest : ℕ
largest = 0xffbbcfe994e5c61f

components_at_most : all_at_most largest pow10_components ≡ true
unfolding pow10_components
components_at_most = refl

get_elem?-some :
    {A : Type 0} (xs : List A) (i : ℕ) → i < length xs → (a : A) × (get_elem? xs i ≡ some a)
get_elem?-some [] i l = absurd (omega arith)
get_elem?-some (x ∷ xs) zero l = (x, refl)
get_elem?-some (x ∷ xs) (suc i) l = get_elem?-some xs i (omega arith)

length-components : length pow10_components ≡ 634
unfolding pow10_components
length-components = refl

length-mantissas : length mantissa_128 ≡ 634
unfolding mantissa_128
length-mantissas = refl

-- Two words have a product whose upper half is less than either.
upper_lt : (f m : ℕ) → f < 2 ^ 64 → f * m / 2 ^ 64 ≤ m
upper_lt f m l = omega (arith, mul-le-mul_right m below)
  where
    below : f ≤ 2 ^ 64
    below = omega arith

product_of-le :
    (f m low : ℕ) {lower upper : ℕ}
    → f < 2 ^ 64
    → m ≤ largest
    → product_of f m low ≡ some (lower, upper)
    → upper ≤ largest + 1
unfolding product_of refined
product_of-le f m low {lower} {upper} l le h = ground (arith, upper_lt f m l)

-- With a factor of the table, a mantissa that is rounded up to 2^53 has a zero in front of it.
normalized-Settled :
    (upper leading_zeroes : ℕ)
    → upper ≤ largest + 1
    → Settled (
        normalized
          ((upper / 2 ^ (upper / 2 ^ 63 + 9) + upper / 2 ^ (upper / 2 ^ 63 + 9) % 2) / 2)
          (leading_zeroes + (1 - upper / 2 ^ 63)))
unfolding normalized
normalized-Settled upper leading_zeroes l = elim (Bool-cases (leb (2 ^ 63) upper)) [
  | inl y ↦ rw (high (leb→le _ _ y)) (small_mantissa _ (leading_zeroes + 0) (omega arith))
  | inr n ↦ rw (low (leb→lt _ _ n)) (zero_in_front _ leading_zeroes)
]
  where
    high : 2 ^ 63 ≤ upper → upper / 2 ^ 63 ≡ 1
    high y = omega arith

    low : upper < 2 ^ 63 → upper / 2 ^ 63 ≡ 0
    low n = omega arith

    small_mantissa : (m k : ℕ) → m < 2 ^ 53 → Settled (normalized m k)
    small_mantissa m k l = rw (normalized, small m l) tt
      where
        small : (m : ℕ) → m < 2 ^ 53 → leb (2 ^ 53) m ≡ false
        small m l = ground arith

    zero_in_front : (m k : ℕ) → Settled (normalized m (k + 1))
    zero_in_front m k = elim (Bool-cases (leb (2 ^ 53) m)) [
      | inl y ↦ rw (normalized, y, positive) tt
      | inr n ↦ rw (normalized, n) tt
    ]
      where
        positive : (k + 1 == 0) ≡ false
        positive = ground arith

finite_bits :
    (positive : Bool) (bits : ℕ) → bits < infinity → is_infinite (with_sign positive bits) ≡ false
finite_bits true bits l = ground arith
finite_bits false bits l = ground arith

module _ (slice : Bytes) (offset v c : ℕ) (valid : parse_f64 slice ≡ some v)
    (start : get_elem? slice 0 ≡ some c) where
  pub slow-Settled : Settled (f64_from_parts_slow slice offset)
  unfolding f64_from_parts_slow
  slow-Settled = elim (Bool-cases (is_infinite v)) [
    | inl y ↦ rw (f64_from_parts_slow, valid, y, byte_of, start) tt
    | inr n ↦ rw (f64_from_parts_slow, valid, n) tt
  ]

  packed-Settled :
      (positive : Bool) (factor_exponent mantissa leading_zeroes : ℕ)
      → Settled (packed positive factor_exponent slice offset (mantissa, leading_zeroes))
  unfolding packed
  packed-Settled positive factor_exponent mantissa leading_zeroes =
      elim (Bool-cases (leb 1 real && leb real 2046)) [
        | inl y ↦ rw (packed, y, finite_bits positive _ (fits y)) tt
        | inr n ↦ rw (packed, n) slow-Settled
      ]
    where
      real : ℕ
      real = (factor_exponent + 2 ^ 64 - leading_zeroes) % 2 ^ 64

      fits :
          (leb 1 real && leb real 2046) ≡ true
          → bit_or (real * 2 ^ 52) (mantissa % 2 ^ 52) < infinity
      fits y =
          subst (λ t. t < infinity) (sym (bit_or-add 52 real (mantissa % 2 ^ 52) (omega arith)))
            (in_range real (mantissa % 2 ^ 52) y (omega arith))
        where
          in_range :
              (r m : ℕ) → (leb 1 r && leb r 2046) ≡ true → m < 2 ^ 52 → r * 2 ^ 52 + m < infinity
          in_range r m y l = ground arith

  rounded-Settled :
      (positive : Bool) (factor_exponent leading_zeroes lower upper : ℕ)
      → upper ≤ largest + 1
      → Settled (rounded positive factor_exponent slice offset leading_zeroes (lower, upper))
  unfolding rounded
  rounded-Settled positive factor_exponent leading_zeroes lower upper l =
      elim (Bool-cases
        ((lower == 0 && upper % 2 ^ 9 == 0) && upper / 2 ^ (upper / 2 ^ 63 + 9) % 4 == 1)) [
          | inl y ↦ rw (rounded, y) slow-Settled
          | inr n ↦
              rw (rounded, n)
                (then-Settled _ _ (normalized-Settled upper leading_zeroes l)
                  λ p. packed-Settled positive factor_exponent p.0 p.1)
        ]

  components-Settled :
      (positive : Bool) (significand exponent : ℕ)
      → (exponent + 325) % 2 ^ 32 < 634
      → Settled (from_components positive significand exponent slice offset)
  unfolding from_components
  components-Settled positive significand exponent l =
      let (c, c_eq) =
        get_elem?-some pow10_components ((exponent + 325) % 2 ^ 32)
          (omega (arith, length-components)) in
      let (m, m_eq) =
        get_elem?-some mantissa_128 ((exponent + 325) % 2 ^ 32) (omega (arith, length-mantissas)) in
      rw (from_components, entry, c_eq, m_eq)
        (elim (Option-cases (product_of shifted c.0 m)) [
          | inl e ↦ rw e slow-Settled
          | inr (p, e) ↦ rw e (
              rounded-Settled positive c.1 _ p.0 p.1 (
                product_of-le shifted c.0 m (omega arith)
                  (all_at_most-at largest pow10_components _ components_at_most c_eq) e))
        ])
    where
      shifted : ℕ
      shifted = significand * 2 ^ leading_zeros 64 significand % 2 ^ 64

  -- What f64_from_parts reads is in its tables, and no subtraction goes below 0.
  pub f64_from_parts-Settled :
      (positive : Bool) (significand exponent : ℕ)
      → exponent < 2 ^ 32
      → Settled (f64_from_parts positive significand exponent slice offset)
  unfolding f64_from_parts from_exact
  f64_from_parts-Settled positive significand exponent l =
      elim (Bool-cases (between 22 22 exponent && leb significand 9007199254740991)) [
        | inl y ↦ rw (f64_from_parts, y, from_exact) tt
        | inr n ↦ elim (Bool-cases (significand == 0)) [
          | inl y ↦ rw (f64_from_parts, n, y) tt
          | inr n' ↦ elim (Bool-cases (between 325 308 exponent)) [
            | inl y ↦
                rw (f64_from_parts, n, n', y)
                  (components-Settled positive significand exponent (ground arith))
            | inr n'' ↦ rw (f64_from_parts, n, n', n'') slow-Settled
          ]
        ]
      ]
