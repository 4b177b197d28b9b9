-- ===== src/Numbers/Spelled.antt =====
-- src/numberparse/correct.rs: the loops over digits and the number that the digits spell.
use native.Mathlib.Nat.{pow-suc, mul-le-mul_right, pow-le-pow_right}
use simd_toon_improved.Base.{
  ℕ, suc, ◌+◌, ◌-◌, ◌*◌, ◌%◌, ◌^◌, ◌≤◌, ◌<◌, Bool, true, false, ◌||◌, Option, none, some, [], ◌∷◌,
  ◌++◌, Bytes, leb, ltb, leb→lt, ◌==◌, if◌then◌else◌, length, Bool-cases, inl, inr, ◌≡◌, ◌∙◌, ap,
  arith,
}
use simd_toon_improved.Error.{Result, ok, err, fault, out_of_fuel}
use simd_toon_improved.Tape.{StaticNode, u64, i64}
use simd_toon_improved.Numbers.Digits.{is_integer}
use simd_toon_improved.Numbers.Parse.{at, push_digit, digits, large_digits}

-- The number that digits spell behind `n`.
abbrev pub value : ℕ → Bytes → ℕ
value n [] = n
value n (c ∷ ds) = value (10 * n + (c - b'0')) ds

abbrev pub AreDigits : Bytes → Type 0
AreDigits [] = Unit
AreDigits (c ∷ ds) = (is_integer c ≡ true) × AreDigits ds

-- Zero alone starts with a zero.
abbrev pub is_plain : Bytes → Bool
is_plain [] = false
is_plain (c ∷ []) = true
is_plain (c ∷ (d ∷ ds)) = if c == b'0' then false else true

-- A byte that ends an integer.
abbrev pub ends_integer : ℕ → Bool
ends_integer t = if is_integer t || (t == b'.' || (t == b'e' || t == b'E')) then false else true

abbrev pub sign : Bool → Bytes
sign true = b'-' ∷ []
sign false = []

-- The node of an integer, if its type has it.
abbrev pub integer : Bool → ℕ → Option StaticNode
integer false n = if ltb n (2 ^ 64) then some (u64 n) else none
integer true n = if leb n (2 ^ 63) then some (i64 ((2 ^ 64 - n) % 2 ^ 64)) else none

abbrev pub Answers : Option StaticNode → Result StaticNode → Type 0
Answers (some v) r = r ≡ ok v
Answers none (err e) = Unit
Answers none (ok v) = ⊥
Answers none fault = ⊥
Answers none out_of_fuel = ⊥

pub push_digit-mod : (n c : ℕ) → push_digit (n % 2 ^ 64) c ≡ (10 * n + (c - b'0')) % 2 ^ 64
push_digit-mod n c = omega arith

pub digits-value :
    (ds : Bytes) (n idx t : ℕ) (rest : Bytes)
    → AreDigits ds
    → is_integer t ≡ false
    → digits (n % 2 ^ 64) idx (ds ++ t ∷ rest)
      ≡ ok (at (value n ds % 2 ^ 64) (idx + length ds) (t ∷ rest))
unfolding digits
digits-value [] n idx t rest h e =
    rw (digits, e) (ap (λ i. ok (at (n % 2 ^ 64) i (t ∷ rest))) (omega arith))
digits-value (c ∷ ds) n idx t rest h e =
    rw (digits, h.0, push_digit-mod n c)
      (digits-value ds (10 * n + (c - b'0')) (idx + 1) t rest h.1 e
        ∙ ap (λ i. ok (at (value n (c ∷ ds) % 2 ^ 64) i (t ∷ rest))) (omega arith))

le-value : (ds : Bytes) (n : ℕ) → n ≤ value n ds
le-value [] n = omega arith
le-value (c ∷ ds) n = omega (arith, le-value ds (10 * n + (c - b'0')))

pub digit-lt : (c : ℕ) → is_integer c ≡ true → c - b'0' < 10
unfolding is_integer
digit-lt c h = ground arith

value-lt : (ds : Bytes) (n : ℕ) → AreDigits ds → value n ds < (n + 1) * 10 ^ length ds
value-lt [] n h = omega arith
value-lt (c ∷ ds) n h = omega (
  arith,
  value-lt ds (10 * n + (c - b'0')) h.1,
  mul-le-mul_right (10 ^ length ds) below,
  regrouped,
)
  where
    below : 10 * n + (c - b'0') + 1 ≤ 10 * (n + 1)
    below = omega (arith, digit-lt c h.0)

    regrouped : 10 * (n + 1) * 10 ^ length ds ≡ (n + 1) * 10 ^ suc (length ds)
    regrouped = omega (arith, ap (λ t. (n + 1) * t) (pow-suc 10 (length ds)))

-- Up to eighteen digits the value is below 2^64.
pub short_lt :
    (c : ℕ) (ds : Bytes) → AreDigits (c ∷ ds) → length ds ≤ 17 → value (c - b'0') ds < 10 ^ 18
short_lt c ds h le = omega (
  arith,
  value-lt ds (c - b'0') h.1,
  mul-le-mul_right (10 ^ length ds) digit,
  pow-le-pow_right {n = 10} (omega arith) le,
)
  where
    digit : c - b'0' + 1 ≤ 10
    digit = omega (arith, digit-lt c h.0)

-- The slow loop has the value of the digits, or an error where it overflows.
pub large_digits-value :
    (ds : Bytes) (n idx t : ℕ) (rest : Bytes)
    → AreDigits ds
    → is_integer t ≡ false
    → value n ds < 2 ^ 64
    → large_digits n idx (ds ++ t ∷ rest) ≡ ok (at (value n ds) (idx + length ds) (t ∷ rest))
unfolding large_digits
large_digits-value [] n idx t rest h e l =
    rw (large_digits, e) (ap (λ i. ok (at n i (t ∷ rest))) (omega arith))
large_digits-value (c ∷ ds) n idx t rest h e l =
    rw (large_digits, h.0, small, small')
      (large_digits-value ds (10 * n + (c - b'0')) (idx + 1) t rest h.1 e l
        ∙ ap (λ i. ok (at (value n (c ∷ ds)) i (t ∷ rest))) (omega arith))
  where
    small : leb (2 ^ 64) (10 * n) ≡ false
    small = ground (arith, le-value ds (10 * n + (c - b'0')))

    small' : leb (2 ^ 64) (10 * n + (c - b'0')) ≡ false
    small' = ground (arith, le-value ds (10 * n + (c - b'0')))

abbrev pub IsErr : {A : Type 0} → Result A → Type 0
IsErr (err e) = Unit
IsErr (ok v) = ⊥
IsErr fault = ⊥
IsErr out_of_fuel = ⊥

pub large_digits-overflow :
    (ds : Bytes) (n idx t : ℕ) (rest : Bytes)
    → AreDigits ds
    → n < 2 ^ 64
    → 2 ^ 64 ≤ value n ds
    → IsErr (large_digits n idx (ds ++ t ∷ rest))
unfolding large_digits
large_digits-overflow [] n idx t rest h s l = absurd (omega arith)
large_digits-overflow (c ∷ ds) n idx t rest h s l = elim (Bool-cases (leb (2 ^ 64) (10 * n))) [
  | inl y ↦ rw (large_digits, h.0, y) tt
  | inr y ↦ elim (Bool-cases (leb (2 ^ 64) (10 * n + (c - b'0')))) [
    | inl z ↦ rw (large_digits, h.0, y, z) tt
    | inr z ↦
        rw (large_digits, h.0, y, z)
          (large_digits-overflow ds (10 * n + (c - b'0')) (idx + 1) t rest h.1 (leb→lt _ _ z) l)
  ]
]
