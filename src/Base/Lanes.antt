-- ===== src/Base/Lanes.antt =====
-- `bit_and` and `bit_or` work on the parts of a word one by one.
use Prim.Native.Nat.{
  ℕ, zero, suc, ◌+◌, ◌*◌, ◌/◌, ◌%◌, ◌^◌, ◌≤◌, ◌<◌, min, max, digits, bit_and, bit_and-bitwise,
  bit_or,
}
use mathlib.Core.Path.{◌≡◌, refl, ◌∙◌, ap, ap₂}
use native.Mathlib.Nat.{pow-suc}
use native.Mathlib.Omega.{arith}
use simd_toon_improved.Base.Bits.{lowest_digit}

abbrev and_within : ℕ → ℕ → ℕ → ℕ
and_within n a b = digits (λ b. zero) min n a b

and_within-any : (n m a b : ℕ) → a ≤ n → a ≤ m → and_within n a b ≡ and_within m a b
and_within-any (suc n) (suc m) (suc a) b p q =
    omega (arith, and_within-any n m (suc a / 2) (b / 2) (omega arith) (omega arith))
and_within-any (suc n) (suc m) zero b p q = refl
and_within-any zero zero zero b p q = refl
and_within-any (suc n) zero zero b p q = refl
and_within-any zero (suc m) zero b p q = refl
and_within-any zero m (suc a) b p q = absurd (omega arith)
and_within-any (suc n) zero (suc a) b p q = absurd (omega arith)

lowest_digit_and : (a b : ℕ) → bit_and a b ≡ bit_and (a / 2) (b / 2) * 2 + min (a % 2) (b % 2)
lowest_digit_and zero b = omega (arith, bit_and-bitwise 0 b, bit_and-bitwise 0 (b / 2))
lowest_digit_and (suc a) b = omega (
  arith,
  bit_and-bitwise (suc a) b,
  bit_and-bitwise (suc a / 2) (b / 2),
  and_within-any a (suc a / 2) (suc a / 2) (b / 2) (omega arith) (omega arith),
)

module _ (f op : ℕ → ℕ → ℕ) (low : op 0 0 ≡ 0)
    (lowest : (a b : ℕ) → f a b ≡ f (a / 2) (b / 2) * 2 + op (a % 2) (b % 2)) where
  no_bits : f 0 0 ≡ 0
  no_bits = omega (arith, lowest 0 0, low)

  -- What two numbers have above and below a bit is worked on apart.
  lanes :
      (k q q' r r' : ℕ)
      → r < 2 ^ k
      → r' < 2 ^ k
      → f (q * 2 ^ k + r) (q' * 2 ^ k + r') ≡ f q q' * 2 ^ k + f r r'
  lanes zero q q' zero zero h h' = ap₂ f (same q) (same q') ∙ omega (arith, no_bits)
    where
      same : (q : ℕ) → q * 2 ^ 0 + 0 ≡ q
      same q = omega arith
  lanes zero q q' (suc r) r' h h' = absurd (omega arith)
  lanes zero q q' zero (suc r') h h' = absurd (omega arith)
  lanes (suc k) q q' r r' h h' =
      lowest (q * 2 ^ suc k + r) (q' * 2 ^ suc k + r')
      ∙ ap₂ (λ x y. x * 2 + y)
          (ap₂ f (half q r) (half q' r')
            ∙ lanes k q q' (r / 2) (r' / 2) (omega (arith, pow-suc 2 k))
                (omega (arith, pow-suc 2 k)))
          (ap₂ op (odd q r) (odd q' r'))
      ∙ omega (arith, lowest r r', doubled (f q q'))
    where
      doubled : (q : ℕ) → q * 2 ^ suc k ≡ 2 * (q * 2 ^ k)
      doubled q = omega (arith, ap (λ t. q * t) (pow-suc 2 k))

      half : (q r : ℕ) → (q * 2 ^ suc k + r) / 2 ≡ q * 2 ^ k + r / 2
      half q r = omega (arith, doubled q)

      odd : (q r : ℕ) → (q * 2 ^ suc k + r) % 2 ≡ r % 2
      odd q r = omega (arith, doubled q)

pub bit_and-lanes :
    (k q q' r r' : ℕ)
    → r < 2 ^ k
    → r' < 2 ^ k
    → bit_and (q * 2 ^ k + r) (q' * 2 ^ k + r') ≡ bit_and q q' * 2 ^ k + bit_and r r'
bit_and-lanes = lanes bit_and min refl lowest_digit_and

pub bit_or-lanes :
    (k q q' r r' : ℕ)
    → r < 2 ^ k
    → r' < 2 ^ k
    → bit_or (q * 2 ^ k + r) (q' * 2 ^ k + r') ≡ bit_or q q' * 2 ^ k + bit_or r r'
bit_or-lanes = lanes bit_or max refl lowest_digit
