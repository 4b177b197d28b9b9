-- ===== src/Base/Bits.antt =====
-- `bit_or` at variables: it adds fields that do not overlap, and is no less than either side.
use Prim.Native.Nat.{
  ℕ, zero, suc, ◌+◌, ◌*◌, ◌/◌, ◌%◌, ◌^◌, ◌≤◌, ◌<◌, max, digits, bit_or, bit_or-bitwise,
}
use mathlib.Core.Path.{◌≡◌, refl, sym, ◌∙◌, ap}
use native.Mathlib.Nat.{pow-suc}
use native.Mathlib.Omega.{arith}

-- The recursion behind `bit_or`, on a bound of the first number.
abbrev or_within : ℕ → ℕ → ℕ → ℕ
or_within n a b = digits (λ y. y) max n a b

-- Any bound will do.
or_within-any : (n m a b : ℕ) → a ≤ n → a ≤ m → or_within n a b ≡ or_within m a b
or_within-any (suc n) (suc m) (suc a) b p q =
    omega (arith, or_within-any n m (suc a / 2) (b / 2) (omega arith) (omega arith))
or_within-any n m zero b p q = left n ∙ sym (left m)
  where
    left : (k : ℕ) → or_within k 0 b ≡ b
    left zero = refl
    left (suc k) = refl
or_within-any zero m (suc a) b p q = absurd (omega arith)
or_within-any (suc n) zero (suc a) b p q = absurd (omega arith)

pub lowest_digit : (a b : ℕ) → bit_or a b ≡ bit_or (a / 2) (b / 2) * 2 + max (a % 2) (b % 2)
lowest_digit zero b = omega (arith, bit_or-bitwise 0 b, bit_or-bitwise 0 (b / 2))
lowest_digit (suc a) b = omega (
  arith,
  bit_or-bitwise (suc a) b,
  bit_or-bitwise (suc a / 2) (b / 2),
  or_within-any a (suc a / 2) (suc a / 2) (b / 2) (omega arith) (omega arith),
)

bit_or-le_within : (n a b : ℕ) → a ≤ n → (a ≤ bit_or a b) × (b ≤ bit_or a b)
bit_or-le_within n zero b h = (omega arith, omega (arith, bit_or-bitwise 0 b))
bit_or-le_within zero (suc a) b h = absurd (omega arith)
bit_or-le_within (suc n) (suc a) b h =
    let below = bit_or-le_within n (suc a / 2) (b / 2) (omega arith) in
    (omega (arith, lowest_digit (suc a) b, below.0), omega (arith, lowest_digit (suc a) b, below.1))

pub le-bit_or : (a b : ℕ) → a ≤ bit_or a b
le-bit_or a b = (bit_or-le_within a a b (omega arith)).0

pub ge-bit_or : (a b : ℕ) → b ≤ bit_or a b
ge-bit_or a b = (bit_or-le_within a a b (omega arith)).1

or-zero_within : (n a : ℕ) → a ≤ n → bit_or a 0 ≡ a
or-zero_within n zero h = refl
or-zero_within zero (suc a) h = absurd (omega arith)
or-zero_within (suc n) (suc a) h =
    omega (arith, lowest_digit (suc a) 0, or-zero_within n (suc a / 2) (omega arith))

-- `(q << k) | r`, where `r` has at most `k` digits.
pub bit_or-add : (k q r : ℕ) → r < 2 ^ k → bit_or (q * 2 ^ k) r ≡ q * 2 ^ k + r
bit_or-add zero q r h = ground (arith, or-zero_within q q (omega arith))
bit_or-add (suc k) q r h = ground (
  arith,
  doubled,
  lowest_digit (q * 2 ^ suc k) r,
  bit_or-add k q (r / 2) (omega (arith, pow-suc 2 k)),
)
  where
    doubled : q * 2 ^ suc k ≡ 2 * (q * 2 ^ k)
    doubled = omega (arith, ap (λ t. q * t) (pow-suc 2 k))

pub bit_or-lt : (k a b : ℕ) → a < 2 ^ k → b < 2 ^ k → bit_or a b < 2 ^ k
bit_or-lt zero zero zero p q = omega (arith, bit_or-bitwise 0 0)
bit_or-lt zero (suc a) b p q = absurd (omega arith)
bit_or-lt zero zero (suc b) p q = absurd (omega arith)
bit_or-lt (suc k) a b p q = omega (
  arith,
  pow-suc 2 k,
  lowest_digit a b,
  bit_or-lt k (a / 2) (b / 2) (omega (arith, pow-suc 2 k)) (omega (arith, pow-suc 2 k)),
)
