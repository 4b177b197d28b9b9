-- ===== src/Numbers/Floats.antt =====
-- The arithmetic of `f64` that src/numberparse/correct.rs uses, on bit patterns: a product or a quotient
-- is rounded to the nearest number, ties to even, and so is the value of a text that is parsed.
use simd_toon_improved.Base.{
  ℕ, zero, suc, ◌+◌, ◌-◌, ◌*◌, ◌/◌, ◌%◌, ◌^◌, Bool, true, false, ◌||◌, ◌&&◌, Option, none, some, [],
  ◌∷◌, Bytes, leb, ltb, ◌==◌, if◌then◌else◌,
}
use simd_toon_improved.Numbers.Digits.{is_integer}

-- The largest biased exponent up to `e` of a power of two that is not above n / d.
abbrev pub exponent_of : ℕ → ℕ → ℕ → ℕ
exponent_of zero n d = 0
exponent_of (suc e) n d = elim (leb (d * 2 ^ suc e) (n * 2 ^ 1023)) [
  | true ↦ suc e
  | false ↦ exponent_of e n d
]

-- `n / d` to an integer, ties to even.
abbrev pub round_even : ℕ → ℕ → ℕ
round_even n d =
    if ltb d (2 * (n % d)) || (2 * (n % d) == d && n / d % 2 == 1) then n / d + 1 else n / d

abbrev pub infinity : ℕ
infinity = 2047 * 2 ^ 52

-- A number that is rounded up to a power of two carries into the exponent, and from the largest one
-- into infinity.
abbrev pub with_exponent : ℕ → ℕ → ℕ → ℕ
with_exponent zero n d = round_even (n * 2 ^ 1075) (d * 2)
with_exponent (suc e) n d =
    if e == 2046 then infinity else e * 2 ^ 52 + round_even (n * 2 ^ 1075) (d * 2 ^ suc e)

-- The bits of the `f64` nearest to n / d.
unfoldable pub nearest : ℕ → ℕ → ℕ
nearest n d = with_exponent (exponent_of 2047 n d) n d

abbrev pub is_infinite : ℕ → Bool
is_infinite bits = bits % 2 ^ 63 == infinity

-- `-f`
abbrev pub with_sign : Bool → ℕ → ℕ
with_sign positive bits = if positive then bits else bits + 2 ^ 63

-- A run of digits: its value behind `n`, how many they are, and what is behind them.
abbrev pub spelled : ℕ → ℕ → Bytes → ℕ × (ℕ × Bytes)
spelled n k [] = (n, (k, []))
spelled n k (c ∷ s) = elim (is_integer c) [
  | true ↦ spelled (n * 10 + (c - b'0')) (k + 1) s
  | false ↦ (n, (k, c ∷ s))
]

-- Whether a power of ten is negative, and its digits, which must be the rest.
abbrev pub power_digits : Bool → ℕ × (ℕ × Bytes) → Option (Bool × ℕ)
power_digits negative (n, (zero, s)) = none
power_digits negative (n, (suc k, [])) = some (negative, n)
power_digits negative (n, (suc k, c ∷ s)) = none

abbrev pub signed_power : Bytes → Option (Bool × ℕ)
signed_power [] = none
signed_power (c ∷ s) =
    if c == b'-'
    then power_digits true (spelled 0 0 s)
    else if c == b'+'
    then power_digits false (spelled 0 0 s)
    else power_digits false (spelled 0 0 (c ∷ s))

-- A power of ten is behind an `e`, or none.
abbrev pub power_of : Bytes → Option (Bool × ℕ)
power_of [] = some (false, 0)
power_of (e ∷ s) = if e == b'e' || e == b'E' then signed_power s else none

-- The number with `d` for its digits, `k` of them behind the point.
abbrev pub scaled : ℕ → ℕ → Bool × ℕ → ℕ
scaled d k (true, e) = nearest d (10 ^ (k + e))
scaled d k (false, e) = if leb k e then nearest (d * 10 ^ (e - k)) 1 else nearest d (10 ^ (k - e))

-- The digits with those behind a point, how many these are, and the rest.
abbrev pub with_fraction : ℕ × (ℕ × Bytes) → Option (ℕ × (ℕ × Bytes))
with_fraction (d, (zero, s)) = none
with_fraction (d, (suc n, [])) = some (d, (0, []))
with_fraction (d, (suc n, c ∷ s)) = some (if c == b'.' then spelled d 0 s else (d, (0, c ∷ s)))

abbrev pub or_else_none : {A B : Type 0} → Option A → (A → Option B) → Option B
or_else_none none f = none
or_else_none (some a) f = f a

abbrev pub magnitude : Bytes → Option ℕ
magnitude s =
    or_else_none (with_fraction (spelled 0 0 s))
      λ t. or_else_none (power_of t.1.1) λ e. some (scaled t.0 t.1.0 e)

-- `str::parse::<f64>`, of a text with digits in front of a point or none; it is asked for no other.
unfoldable pub parse_f64 : Bytes → Option ℕ
parse_f64 [] = none
parse_f64 (c ∷ s) =
    if c == b'-'
    then or_else_none (magnitude s) (λ bits. some (with_sign false bits))
    else magnitude (c ∷ s)
