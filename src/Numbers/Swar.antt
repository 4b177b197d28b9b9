-- ===== src/Numbers/Swar.antt =====
-- src/numberparse.rs: eight digits in a `u64`, against a loop over them.
use Prim.Native.Nat.{bit_and, bit_or}
use mathlib.Core.Path.{ap₂}
use simd_toon_improved.Base.{
  ℕ, zero, suc, ◌+◌, ◌*◌, ◌/◌, ◌%◌, ◌^◌, ◌<◌, Bool, true, false, ◌&&◌, [], ◌∷◌, Bytes, ◌==◌, length,
  Bool-cases, inl, inr, ◌≡◌, refl, sym, ◌∙◌, ap, subst, arith,
}
use simd_toon_improved.Base.Bits.{bit_or-lt}
use simd_toon_improved.Base.Lanes.{bit_and-lanes, bit_or-lanes}
use simd_toon_improved.Scanner.Bytewise.{AreBytes, all_below, all_below-at, same, same-eq}
use simd_toon_improved.Numbers.Digits.{is_integer, from_le, is_made_of_eight_digits_fast}

eq : (a b : ℕ) → (a == b) ≡ true → a ≡ b
eq a b h = ground arith

-- A mask with the same byte all over, of so many bytes.
abbrev all_of : ℕ → ℕ → ℕ
all_of m zero = 0
all_of m (suc n) = m + 256 * all_of m n

and_byte :
    (b x m y : ℕ)
    → b < 256
    → m < 256
    → bit_and (b + 256 * x) (m + 256 * y) ≡ bit_and b m + 256 * bit_and x y
and_byte b x m y l l' =
    ap₂ bit_and (turned b x) (turned m y) ∙ bit_and-lanes 8 x y b m l l' ∙ omega arith
  where
    turned : (b x : ℕ) → b + 256 * x ≡ x * 2 ^ 8 + b
    turned b x = omega arith

or_byte :
    (b x m y : ℕ)
    → b < 256
    → m < 256
    → bit_or (b + 256 * x) (m + 256 * y) ≡ bit_or b m + 256 * bit_or x y
or_byte b x m y l l' =
    ap₂ bit_or (turned b x) (turned m y) ∙ bit_or-lanes 8 x y b m l l' ∙ omega arith
  where
    turned : (b x : ℕ) → b + 256 * x ≡ x * 2 ^ 8 + b
    turned b x = omega arith

-- A byte's upper half, and the test of one byte, on all bytes.
high_nibble : (b : ℕ) → b < 256 → bit_and b 0xF0 ≡ b / 16 * 16
high_nibble b l = eq _ _ (all_below-at 256 (λ b. bit_and b 0xF0 == b / 16 * 16) refl b l)

low_nibble : (b : ℕ) → b < 256 → bit_and b 0x0F ≡ b % 16
low_nibble b l = eq _ _ (all_below-at 256 (λ b. bit_and b 0x0F == b % 16) refl b l)

eight_test : (b : ℕ) → b < 256 → (bit_or (b / 16 * 16) ((b + 6) % 256 / 16) == 0x33) ≡ is_integer b
unfolding is_integer
eight_test b l = same-eq _ _ (
    all_below-at 256 (λ b. same (bit_or (b / 16 * 16) ((b + 6) % 256 / 16) == 0x33) (is_integer b))
      closed b l)
  where
    closed :
        all_below 256 (λ b. same (bit_or (b / 16 * 16) ((b + 6) % 256 / 16) == 0x33) (is_integer b))
        ≡ true
    closed = refl

abbrev each : (ℕ → ℕ) → Bytes → Bytes
each f [] = []
each f (b ∷ bs) = f b ∷ each f bs

-- A mask that is the same on all bytes.
and_each :
    (m : ℕ) (f : ℕ → ℕ)
    → m < 256
    → ((b : ℕ) → b < 256 → bit_and b m ≡ f b)
    → (bs : Bytes) → AreBytes bs
    → bit_and (from_le bs) (all_of m (length bs)) ≡ from_le (each f bs)
and_each m f l h [] a = refl
and_each m f l h (b ∷ bs) a =
    and_byte b (from_le bs) m (all_of m (length bs)) a.0 l
    ∙ ap₂ (λ x y. x + 256 * y) (h b a.0) (and_each m f l h bs a.1)

-- The sums of the bytes with 6, and the carry behind them.
abbrev sums : ℕ → Bytes → Bytes
sums k [] = []
sums k (b ∷ bs) = (b + 6 + k) % 256 ∷ sums ((b + 6 + k) / 256) bs

abbrev carry : ℕ → Bytes → ℕ
carry k [] = k
carry k (b ∷ bs) = carry ((b + 6 + k) / 256) bs

abbrev lift : ℕ → ℕ → ℕ
lift zero x = x
lift (suc n) x = 256 * lift n x

sums-from_le :
    (bs : Bytes) (k : ℕ)
    → from_le bs + all_of 6 (length bs) + k ≡ from_le (sums k bs) + lift (length bs) (carry k bs)
sums-from_le [] k = omega arith
sums-from_le (b ∷ bs) k = omega (arith, sums-from_le bs ((b + 6 + k) / 256))

sums-AreBytes : (bs : Bytes) (k : ℕ) → AreBytes (sums k bs)
sums-AreBytes [] k = tt
sums-AreBytes (b ∷ bs) k = (omega arith, sums-AreBytes bs ((b + 6 + k) / 256))

upper-halves :
    (bs : Bytes) → from_le (each (λ b. b / 16 * 16) bs) ≡ 16 * from_le (each (λ b. b / 16) bs)
upper-halves [] = refl
upper-halves (b ∷ bs) = omega (arith, upper-halves bs)

-- What the bytes of the word are that is compared with 0x33 all over.
abbrev tested : ℕ → Bytes → Bytes
tested k [] = []
tested k (b ∷ bs) = bit_or (b / 16 * 16) ((b + 6 + k) % 256 / 16) ∷ tested ((b + 6 + k) / 256) bs

or_tested :
    (bs : Bytes) (k : ℕ)
    → AreBytes bs
    → bit_or (from_le (each (λ b. b / 16 * 16) bs)) (from_le (each (λ b. b / 16) (sums k bs)))
      ≡ from_le (tested k bs)
or_tested [] k a = refl
or_tested (b ∷ bs) k a =
    or_byte (b / 16 * 16) _ ((b + 6 + k) % 256 / 16) _ (omega (arith, a.0)) (omega arith)
    ∙ ap (λ y. bit_or (b / 16 * 16) ((b + 6 + k) % 256 / 16) + 256 * y)
        (or_tested bs ((b + 6 + k) / 256) a.1)

abbrev pub all_digits : Bytes → Bool
all_digits [] = true
all_digits (b ∷ bs) = is_integer b && all_digits bs

tested-AreBytes : (bs : Bytes) (k : ℕ) → AreBytes bs → AreBytes (tested k bs)
tested-AreBytes [] k a = tt
tested-AreBytes (b ∷ bs) k a = (
  bit_or-lt 8 (b / 16 * 16) ((b + 6 + k) % 256 / 16) (omega (arith, a.0)) (omega arith),
  tested-AreBytes bs _ a.1,
)

tail_test : (x y : ℕ) → (0x33 + 256 * x == 0x33 + 256 * y) ≡ (x == y)
tail_test x y = ground arith

other_test : (t x y : ℕ) → t < 256 → (t == 0x33) ≡ false → (t + 256 * x == 0x33 + 256 * y) ≡ false
other_test t x y l h = ground arith

-- A digit makes no carry, and any other byte fails the test by itself.
tested-digits :
    (bs : Bytes) → AreBytes bs → (from_le (tested 0 bs) == all_of 0x33 (length bs)) ≡ all_digits bs
unfolding is_integer
tested-digits [] a = refl
tested-digits (b ∷ bs) a = elim (Bool-cases (is_integer b)) [
  | inl y ↦
      ap₂ (λ x t. x + 256 * from_le (tested t bs) == 0x33 + 256 * all_of 0x33 (length bs))
        (this ∙ eq _ _ (eight_test b a.0 ∙ y)) (carries y)
      ∙ tail_test (from_le (tested 0 bs)) (all_of 0x33 (length bs))
      ∙ tested-digits bs a.1
      ∙ rw y refl
  | inr n ↦
      other_test _ _ _ (bit_or-lt 8 (b / 16 * 16) _ (omega (arith, a.0)) (omega arith))
        (ap (λ x. x == 0x33) this ∙ eight_test b a.0 ∙ n)
      ∙ rw n refl
]
  where
    this : bit_or (b / 16 * 16) ((b + 6 + 0) % 256 / 16) ≡ bit_or (b / 16 * 16) ((b + 6) % 256 / 16)
    this = ap (λ t. bit_or (b / 16 * 16) (t % 256 / 16)) (omega arith)

    carries : is_integer b ≡ true → (b + 6 + 0) / 256 ≡ 0
    carries y = ground arith

from_le-lt : (bs : Bytes) → AreBytes bs → from_le bs < lift (length bs) 1
from_le-lt [] a = omega arith
from_le-lt (b ∷ bs) a = omega (arith, a.0, from_le-lt bs a.1)

length-sums : (bs : Bytes) (k : ℕ) → length (sums k bs) ≡ length bs
length-sums [] k = refl
length-sums (b ∷ bs) k = ap suc (length-sums bs ((b + 6 + k) / 256))

and_eight :
    (m : ℕ) (f : ℕ → ℕ)
    → m < 256
    → ((b : ℕ) → b < 256 → bit_and b m ≡ f b)
    → (bs : Bytes) → AreBytes bs
    → length bs ≡ 8
    → bit_and (from_le bs) (all_of m 8) ≡ from_le (each f bs)
and_eight m f l h bs a e =
    ap (λ n. bit_and (from_le bs) (all_of m n)) (sym e) ∙ and_each m f l h bs a

module _ (bs : Bytes) (a : AreBytes bs) (eight : length bs ≡ 8) where
  sum_eight : (from_le bs + 0x0606060606060606) % 2 ^ 64 ≡ from_le (sums 0 bs)
  sum_eight = omega (arith, added, small)
    where
      added : from_le bs + 0x0606060606060606 + 0 ≡ from_le (sums 0 bs) + 2 ^ 64 * carry 0 bs
      added =
          ap (λ n. from_le bs + all_of 6 n + 0) (sym eight)
          ∙ sums-from_le bs 0
          ∙ ap (λ n. from_le (sums 0 bs) + lift n (carry 0 bs)) eight
          ∙ omega arith

      small : from_le (sums 0 bs) < 2 ^ 64
      small =
          subst (λ n. from_le (sums 0 bs) < lift n 1) (length-sums bs 0 ∙ eight)
            (from_le-lt (sums 0 bs) (sums-AreBytes bs 0))

  lower_eight :
      bit_and ((from_le bs + 0x0606060606060606) % 2 ^ 64) 0xF0F0F0F0F0F0F0F0 / 2 ^ 4
      ≡ from_le (each (λ b. b / 16) (sums 0 bs))
  lower_eight =
      ap (λ t. bit_and t 0xF0F0F0F0F0F0F0F0 / 2 ^ 4) sum_eight
      ∙ ap (λ t. t / 2 ^ 4)
          (and_eight 0xF0 (λ b. b / 16 * 16) (omega arith) high_nibble (sums 0 bs)
              (sums-AreBytes bs 0) (length-sums bs 0 ∙ eight)
            ∙ upper-halves (sums 0 bs))
      ∙ omega arith

  -- For eight bytes, is_made_of_eight_digits_fast, a test on their word, tells whether all are digits.
  pub is_made_of_eight_digits_fast-all_digits : is_made_of_eight_digits_fast bs ≡ all_digits bs
  unfolding is_made_of_eight_digits_fast
  is_made_of_eight_digits_fast-all_digits =
      ap₂ (λ x y. bit_or x y == 0x3333333333333333)
        (and_eight 0xF0 (λ b. b / 16 * 16) (omega arith) high_nibble bs a eight) lower_eight
      ∙ ap (λ t. t == 0x3333333333333333) (or_tested bs 0 a)
      ∙ ap (λ n. from_le (tested 0 bs) == all_of 0x33 n) (sym eight)
      ∙ tested-digits bs a
