-- ===== src/Numbers/Eight.antt =====
-- src/numberparse.rs: `parse_eight_digits_swar`, against the number that the digits spell.
use Prim.Native.Nat.{bit_and}
use mathlib.Core.Path.{ap₂}
use simd_toon_improved.Base.{
  ℕ, ◌+◌, ◌-◌, ◌*◌, ◌/◌, ◌%◌, ◌^◌, ◌<◌, true, [], ◌∷◌, ◌==◌, ◌≡◌, refl, ◌∙◌, ap, arith,
}
use simd_toon_improved.Base.Lanes.{bit_and-lanes}
use simd_toon_improved.Scanner.Bytewise.{AreBytes, all_below-at}
use simd_toon_improved.Numbers.Digits.{
  is_integer, from_le, pair_pairs, join_fours, parse_eight_digits_swar,
}
use simd_toon_improved.Numbers.Spelled.{value, AreDigits}

eq : (a b : ℕ) → (a == b) ≡ true → a ≡ b
eq a b h = ground arith

kept : (b : ℕ) → b < 256 → bit_and b 0xFF ≡ b
kept b l = eq _ _ (all_below-at 256 (λ b. bit_and b 0xFF == b) refl b l)

cleared : (b : ℕ) → b < 256 → bit_and b 0 ≡ 0
cleared b l = eq _ _ (all_below-at 256 (λ b. bit_and b 0 == 0) refl b l)

digit_of : (b : ℕ) → is_integer b ≡ true → (bit_and b 0x0F ≡ b - b'0') × (b - b'0' < 10)
unfolding is_integer
digit_of b h = (eq _ _ (apart b h), ground arith)
  where
    low : (d : ℕ) → d < 10 → (bit_and (48 + d) 0x0F == d) ≡ true
    low d l = all_below-at 10 (λ d. bit_and (48 + d) 0x0F == d) refl d l

    apart : (b : ℕ) → is_integer b ≡ true → (bit_and b 0x0F == b - b'0') ≡ true
    apart b h = ap (λ t. bit_and t 0x0F == b - b'0') (ground arith) ∙ low (b - b'0') (ground arith)

-- A byte with what is above it.
and_byte :
    (x y : ℕ) {b m c z : ℕ}
    → b < 256
    → m < 256
    → bit_and b m ≡ c
    → bit_and x y ≡ z
    → bit_and (b + 256 * x) (m + 256 * y) ≡ c + 256 * z
and_byte x y {b} {m} l l' h i =
    ap₂ bit_and (turned b x) (turned m y) ∙ bit_and-lanes 8 x y b m l l' ∙ omega (arith, h, i)
  where
    turned : (b x : ℕ) → b + 256 * x ≡ x * 2 ^ 8 + b
    turned b x = omega arith

-- Digits side by side, two by two, and so on.
pair_up_lem :
    (a b c d e f g h : ℕ)
    → a < 10
    → b < 10
    → c < 10
    → d < 10
    → e < 10
    → f < 10
    → g < 10
    → h < 10
    → from_le (a ∷ b ∷ c ∷ d ∷ e ∷ f ∷ g ∷ h ∷ []) * 2561 % 2 ^ 64 / 2 ^ 8
      ≡ from_le (
          (10 * a + b)
          ∷ (10 * b + c)
          ∷ (10 * c + d)
          ∷ (10 * d + e)
          ∷ (10 * e + f)
          ∷ (10 * f + g)
          ∷ (10 * g + h)
          ∷ 0
          ∷ [])
pair_up_lem a b c d e f g h p q r s t u v w = omega arith

pair_pairs_lem :
    (a b c d : ℕ)
    → a < 100
    → b < 100
    → c < 100
    → d < 100
    → from_le (a ∷ 0 ∷ b ∷ 0 ∷ c ∷ 0 ∷ d ∷ 0 ∷ []) * 6553601 % 2 ^ 64 / 2 ^ 16
      ≡ (100 * a + b) + 2 ^ 16 * ((100 * b + c) + 2 ^ 16 * (100 * c + d))
pair_pairs_lem a b c d p q r s = omega arith

join_fours_lem :
    (a b : ℕ)
    → a < 10000
    → b < 10000
    → (a + 2 ^ 32 * b) * 42949672960001 % 2 ^ 64 / 2 ^ 32 % 2 ^ 32 ≡ 10000 * a + b
join_fours_lem a b p q = omega arith

-- The masks of the three rounds.
mask_digits :
    (a b c d e f g h : ℕ)
    → AreDigits (a ∷ b ∷ c ∷ d ∷ e ∷ f ∷ g ∷ h ∷ [])
    → AreBytes (a ∷ b ∷ c ∷ d ∷ e ∷ f ∷ g ∷ h ∷ [])
    → bit_and (from_le (a ∷ b ∷ c ∷ d ∷ e ∷ f ∷ g ∷ h ∷ [])) 0x0F0F0F0F0F0F0F0F
      ≡ from_le (
          (a - b'0')
          ∷ (b - b'0')
          ∷ (c - b'0')
          ∷ (d - b'0')
          ∷ (e - b'0')
          ∷ (f - b'0')
          ∷ (g - b'0')
          ∷ (h - b'0')
          ∷ [])
mask_digits a b c d e f g h (p, (q, (r, (s, (t, (u, (v, (w, _))))))))
      (p', (q', (r', (s', (t', (u', (v', (w', _)))))))) =
    and_byte _ 0x0F0F0F0F0F0F0F p' (omega arith) (digit_of a p).0 (
      and_byte _ 0x0F0F0F0F0F0F q' (omega arith) (digit_of b q).0 (
        and_byte _ 0x0F0F0F0F0F r' (omega arith) (digit_of c r).0 (
          and_byte _ 0x0F0F0F0F s' (omega arith) (digit_of d s).0 (
            and_byte _ 0x0F0F0F t' (omega arith) (digit_of e t).0 (
              and_byte _ 0x0F0F u' (omega arith) (digit_of f u).0 (
                and_byte _ 0x0F v' (omega arith) (digit_of g v).0
                  (and_byte 0 0 w' (omega arith) (digit_of h w).0 refl)))))))

mask_pairs :
    (a b c d e f g : ℕ)
    → a < 256
    → b < 256
    → c < 256
    → d < 256
    → e < 256
    → f < 256
    → g < 256
    → bit_and (from_le (a ∷ b ∷ c ∷ d ∷ e ∷ f ∷ g ∷ 0 ∷ [])) 0x00FF00FF00FF00FF
      ≡ from_le (a ∷ 0 ∷ c ∷ 0 ∷ e ∷ 0 ∷ g ∷ 0 ∷ [])
mask_pairs a b c d e f g p q r s t u v = and_byte _ 0x00FF00FF00FF00 p (omega arith) (kept a p) (
    and_byte _ 0x00FF00FF00FF q (omega arith) (cleared b q) (
      and_byte _ 0x00FF00FF00 r (omega arith) (kept c r) (
        and_byte _ 0x00FF00FF s (omega arith) (cleared d s) (
          and_byte _ 0x00FF00 t (omega arith) (kept e t) (
            and_byte _ 0x00FF u (omega arith) (cleared f u)
              (and_byte (0 + 256 * 0) 0 v (omega arith) (kept g v) refl))))))

-- A number of 16 bits, as its two bytes.
two_bytes : (x n : ℕ) → n % 256 + 256 * (n / 256 + 256 * x) ≡ n + 2 ^ 16 * x
two_bytes x n = omega arith

mask_fours :
    (a b c : ℕ)
    → a < 10000
    → b < 10000
    → c < 10000
    → bit_and (a + 2 ^ 16 * (b + 2 ^ 16 * c)) 0x0000FFFF0000FFFF ≡ a + 2 ^ 32 * c
mask_fours a b c p q r =
    ap (λ t. bit_and t 0x0000FFFF0000FFFF) (as_bytes a b c)
    ∙ and_byte _ 0x0000FFFF0000FF (omega arith) (omega arith) (kept (a % 256) (omega arith)) (
        and_byte _ 0x0000FFFF0000 (omega arith) (omega arith) (kept (a / 256) (omega arith)) (
          and_byte _ 0x0000FFFF00 (omega arith) (omega arith) (cleared (b % 256) (omega arith)) (
            and_byte _ 0x0000FFFF (omega arith) (omega arith) (cleared (b / 256) (omega arith)) (
              and_byte _ 0x0000FF (omega arith) (omega arith) (kept (c % 256) (omega arith))
                (and_byte 0 0 (omega arith) (omega arith) (kept (c / 256) (omega arith)) refl)))))
    ∙ omega arith
  where
    as_bytes :
        (a b c : ℕ)
        → a + 2 ^ 16 * (b + 2 ^ 16 * c)
          ≡ a % 256
            + 256
              * (a / 256
                  + 256 * (b % 256 + 256 * (b / 256 + 256 * (c % 256 + 256 * (c / 256 + 256 * 0)))))
    as_bytes a b c = omega arith

abbrev pair : ℕ → ℕ → ℕ
pair a b = 10 * (a - b'0') + (b - b'0')

-- For eight digits, parse_eight_digits_swar, three products of words, gives the number that they spell.
pub parse_eight_digits_swar-value :
    (a b c d e f g h : ℕ)
    → AreDigits (a ∷ b ∷ c ∷ d ∷ e ∷ f ∷ g ∷ h ∷ [])
    → AreBytes (a ∷ b ∷ c ∷ d ∷ e ∷ f ∷ g ∷ h ∷ [])
    → parse_eight_digits_swar (a ∷ b ∷ c ∷ d ∷ e ∷ f ∷ g ∷ h ∷ [])
      ≡ value 0 (a ∷ b ∷ c ∷ d ∷ e ∷ f ∷ g ∷ h ∷ [])
unfolding parse_eight_digits_swar
parse_eight_digits_swar-value a b c d e f g h ds bs =
    ap join_fours (
      ap pair_pairs (
        ap (λ t. t * 2561 % 2 ^ 64 / 2 ^ 8) (mask_digits a b c d e f g h ds bs)
        ∙ pair_up_lem (a - b'0') (b - b'0') (c - b'0') (d - b'0') (e - b'0') (f - b'0') (g - b'0')
            (h - b'0') la lb lc ld le lf lg lh)
      ∙ ap (λ t. t * 6553601 % 2 ^ 64 / 2 ^ 16)
          (mask_pairs (pair a b) (pair b c) (pair c d) (pair d e) (pair e f) (pair f g) (pair g h)
            (omega (arith, la, lb)) (omega (arith, lb, lc)) (omega (arith, lc, ld))
            (omega (arith, ld, le)) (omega (arith, le, lf)) (omega (arith, lf, lg))
            (omega (arith, lg, lh)))
      ∙ pair_pairs_lem (pair a b) (pair c d) (pair e f) (pair g h) (omega (arith, la, lb))
          (omega (arith, lc, ld)) (omega (arith, le, lf)) (omega (arith, lg, lh)))
    ∙ ap (λ t. t * 42949672960001 % 2 ^ 64 / 2 ^ 32 % 2 ^ 32)
        (mask_fours (100 * pair a b + pair c d) (100 * pair c d + pair e f)
          (100 * pair e f + pair g h) (omega (arith, la, lb, lc, ld))
          (omega (arith, lc, ld, le, lf)) (omega (arith, le, lf, lg, lh)))
    ∙ join_fours_lem (100 * pair a b + pair c d) (100 * pair e f + pair g h)
        (omega (arith, la, lb, lc, ld)) (omega (arith, le, lf, lg, lh))
    ∙ omega arith
  where
    la : a - b'0' < 10
    la = (digit_of a ds.0).1

    lb : b - b'0' < 10
    lb = (digit_of b ds.1.0).1

    lc : c - b'0' < 10
    lc = (digit_of c ds.1.1.0).1

    ld : d - b'0' < 10
    ld = (digit_of d ds.1.1.1.0).1

    le : e - b'0' < 10
    le = (digit_of e ds.1.1.1.1.0).1

    lf : f - b'0' < 10
    lf = (digit_of f ds.1.1.1.1.1.0).1

    lg : g - b'0' < 10
    lg = (digit_of g ds.1.1.1.1.1.1.0).1

    lh : h - b'0' < 10
    lh = (digit_of h ds.1.1.1.1.1.1.1.0).1
