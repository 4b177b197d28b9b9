-- ===== src/Numbers/Integers.antt =====
-- src/numberparse/correct.rs: `try_parse_number` on an integer, against its value.
use mathlib.Core.Path.{ap₂}
use simd_toon_improved.Base.{
  ℕ, suc, ◌+◌, ◌-◌, ◌%◌, ◌^◌, ◌≤◌, ◌<◌, Bool, true, false, ◌||◌, none, [], ◌∷◌, ◌++◌, Bytes, leb,
  ltb, leb→lt, leb→le, ◌==◌, if◌then◌else◌, length, drop, Bool-cases, inl, inr, ◌≡◌, refl, ◌∙◌, ap,
  subst, arith,
}
use simd_toon_improved.Error.{Result, ok, err, fault, out_of_fuel}
use simd_toon_improved.Tape.{StaticNode, u64, i64}
use simd_toon_improved.Stage2.Machine.{and_then}
use simd_toon_improved.Views.Slices.{drop-append}
use simd_toon_improved.Numbers.Digits.{is_integer}
use simd_toon_improved.Numbers.Parse.{
  Cursor, at, decimal, digits, integer_part, signed_part, fraction_part, exponent_part, large_part,
  large_node, behind_sign, parse_large_integer, node_of, try_parse_number,
}
use simd_toon_improved.Numbers.Spelled.{
  value, AreDigits, is_plain, ends_integer, sign, integer, Answers, digits-value, digit-lt,
  short_lt, large_digits-value, IsErr, large_digits-overflow,
}

-- A byte that ends an integer is no digit, no point and no `e`.
ends_facts :
    (t : ℕ)
    → ends_integer t ≡ true
    → (is_integer t ≡ false) × (((t == b'.') ≡ false) × ((t == b'e' || t == b'E') ≡ false))
ends_facts t h = ground arith

from_digits :
    (c : ℕ) (ds : Bytes) (idx t : ℕ) (rest : Bytes)
    → AreDigits (c ∷ ds)
    → is_integer t ≡ false
    → digits (c - b'0') (idx + 1) (ds ++ t ∷ rest)
      ≡ ok (at (value (c - b'0') ds % 2 ^ 64) (idx + 1 + length ds) (t ∷ rest))
from_digits c ds idx t rest h e =
    subst
      (λ m.
        digits m (idx + 1) (ds ++ t ∷ rest)
        ≡ ok (at (value (c - b'0') ds % 2 ^ 64) (idx + 1 + length ds) (t ∷ rest)))
      small (digits-value ds (c - b'0') (idx + 1) t rest h.1 e)
  where
    small : (c - b'0') % 2 ^ 64 ≡ c - b'0'
    small = omega (arith, digit-lt c h.0)

-- An integer part is read to its end.
integer_part-value :
    (c : ℕ) (ds : Bytes) (idx t : ℕ) (rest : Bytes)
    → AreDigits (c ∷ ds)
    → is_plain (c ∷ ds) ≡ true
    → is_integer t ≡ false
    → integer_part idx (c ∷ ds ++ t ∷ rest)
      ≡ ok (at (value (c - b'0') ds % 2 ^ 64) (idx + 1 + length ds) (t ∷ rest))
unfolding integer_part
integer_part-value c [] idx t rest h p e = elim (Bool-cases (c == b'0')) [
  | inl z ↦ rw (integer_part, z) (ap₂ (λ m i. ok (at m i (t ∷ rest))) (ground arith) (omega arith))
  | inr z ↦ rw (integer_part, z, h.0) (from_digits c [] idx t rest h e)
]
integer_part-value c (d ∷ ds) idx t rest h p e = elim (Bool-cases (c == b'0')) [
  | inl z ↦ absurd (ground arith)
  | inr z ↦ rw (integer_part, z, h.0) (from_digits c (d ∷ ds) idx t rest h e)
]

pub drop-sign :
    (negative : Bool) (pre s : Bytes)
    → drop (behind_sign negative (length pre)) (pre ++ (sign negative ++ s)) ≡ s
drop-sign false [] s = refl
drop-sign true [] s = refl
drop-sign false (x ∷ pre) s = drop-sign false pre s
drop-sign true (x ∷ pre) s =
    ap (λ n. drop n (x ∷ (pre ++ (sign true ++ s)))) more ∙ drop-sign true pre s
  where
    more : suc (length pre) + 1 ≡ suc (length pre + 1)
    more = omega arith

signed_part-value :
    (negative : Bool) (start c : ℕ) (s : Bytes)
    → is_integer c ≡ true
    → signed_part negative start (sign negative ++ (c ∷ s))
      ≡ integer_part (behind_sign negative start) (c ∷ s)
unfolding signed_part
signed_part-value false start c s h = refl
signed_part-value true start c s h = rw (signed_part, h) refl

-- Behind an integer there is no fraction and no exponent.
integer_rest :
    (num idx t : ℕ) (rest : Bytes)
    → ends_integer t ≡ true
    → (fraction_part num idx (t ∷ rest) ≡ ok (decimal false 0 (at num idx (t ∷ rest))))
      × (exponent_part false 0 num idx (t ∷ rest) ≡ ok (decimal false 0 (at num idx (t ∷ rest))))
unfolding fraction_part exponent_part
integer_rest num idx t rest e =
    let f = ends_facts t e in (rw (fraction_part, f.1.0) refl, rw (exponent_part, f.1.1) refl)

short-Answers :
    (negative : Bool) (n : ℕ)
    → n < 10 ^ 18
    → Answers
        (integer negative n)
        (ok (if negative then i64 ((2 ^ 64 - n % 2 ^ 64) % 2 ^ 64) else u64 (n % 2 ^ 64)))
short-Answers false n l = rw fits (ap (λ m. ok (u64 m)) (omega arith))
  where
    fits : ltb n (2 ^ 64) ≡ true
    fits = ground arith
short-Answers true n l = rw fits (ap (λ m. ok (i64 m)) (omega arith))
  where
    fits : leb n (2 ^ 63) ≡ true
    fits = ground arith

-- What the slow loop leaves.
large_node-Answers :
    (negative : Bool) (n idx t : ℕ) (rest : Bytes)
    → n < 2 ^ 64
    → Answers (integer negative n) (large_node negative (at n idx (t ∷ rest)))
unfolding large_node
large_node-Answers false n idx t rest l = rw fits refl
  where
    fits : ltb n (2 ^ 64) ≡ true
    fits = ground arith
large_node-Answers true n idx t rest l = elim (Bool-cases (leb n (2 ^ 63))) [
  | inl y ↦ rw (large_node, y) refl
  | inr y ↦ rw (large_node, y) tt
]

no_integer : (negative : Bool) (n : ℕ) → 2 ^ 64 ≤ n → integer negative n ≡ none
no_integer false n l = rw over refl
  where
    over : ltb n (2 ^ 64) ≡ false
    over = ground arith
no_integer true n l = rw over refl
  where
    over : leb n (2 ^ 63) ≡ false
    over = ground arith

then-Answers :
    (r : Result Cursor) (f : Cursor → Result StaticNode) → IsErr r → Answers none (and_then r f)
then-Answers (err e) f h = tt
then-Answers (ok v) f h = absurd h
then-Answers fault f h = absurd h
then-Answers out_of_fuel f h = absurd h

plain_start : (c : ℕ) (ds : Bytes) → is_plain (c ∷ ds) ≡ true → 1 ≤ length ds → (c == b'0') ≡ false
plain_start c [] p l = absurd (omega arith)
plain_start c (d ∷ ds) p l = ground arith

-- The digits of a token with the bytes behind them.
module _ (negative : Bool) (c : ℕ) (ds : Bytes) (t : ℕ) (rest : Bytes) (h : AreDigits (c ∷ ds))
    (p : is_plain (c ∷ ds) ≡ true) (e : ends_integer t ≡ true) where
  abbrev number : ℕ
  number = value (c - b'0') ds

  large-Answers :
      (start : ℕ) (buf : Bytes)
      → drop (behind_sign negative start) buf ≡ c ∷ ds ++ t ∷ rest
      → 1 ≤ length ds
      → Answers (integer negative number) (parse_large_integer start buf negative)
  unfolding parse_large_integer large_part
  large-Answers start buf b l =
      rw (parse_large_integer, b, large_part, plain_start c ds p l)
        (elim (Bool-cases (ltb number (2 ^ 64))) [
          | inl y ↦
              rw
                (large_digits-value ds (c - b'0') (behind_sign negative start + 1) t rest h.1
                  (ends_facts t e).0 (below y))
                (large_node-Answers negative number _ t rest (below y))
          | inr y ↦ rw (no_integer negative number (above y)) (
              then-Answers _ _ (
                large_digits-overflow ds (c - b'0') (behind_sign negative start + 1) t rest h.1
                  first (above y)))
        ])
    where
      below : ltb number (2 ^ 64) ≡ true → number < 2 ^ 64
      below y = ground arith

      above : ltb number (2 ^ 64) ≡ false → 2 ^ 64 ≤ number
      above y = ground arith

      first : c - b'0' < 2 ^ 64
      first = omega (arith, digit-lt c h.0)

  node-Answers :
      (start end digit_count : ℕ) (buf : Bytes)
      → drop (behind_sign negative start) buf ≡ c ∷ ds ++ t ∷ rest
      → digit_count ≡ length ds
      → Answers (integer negative number) (
          node_of start end buf negative digit_count
            (decimal false 0 (at (number % 2 ^ 64) end (t ∷ rest))))
  unfolding node_of
  node-Answers start end digit_count buf b count =
      rw (node_of, same)
        (elim (Bool-cases (leb 18 digit_count)) [
          | inl y ↦ rw y (large-Answers start buf b (omega (arith, leb→le _ _ y)))
          | inr y ↦
              rw y (short-Answers negative number (short_lt c ds h (omega (arith, leb→lt _ _ y))))
        ])
    where
      same : (end == end) ≡ true
      same = ground arith

  -- Digits without a zero in front, or a zero alone, with or without a minus, and with a byte behind them
  -- that is no digit, point or e: try_parse_number gives their value as a u64, or as an i64 with the minus,
  -- and an error where that type does not have it.
  pub try_parse_number-integer :
      (pre : Bytes)
      → Answers (integer negative number) (
          try_parse_number
            (pre ++ (sign negative ++ (c ∷ ds ++ t ∷ rest)))
            (length pre)
            (behind_sign negative (length pre) + 1 + length ds)
            negative)
  unfolding try_parse_number
  try_parse_number-integer pre =
      rw
        (
          drop-append pre (sign negative ++ (c ∷ ds ++ t ∷ rest)),
          signed_part-value negative (length pre) c (ds ++ t ∷ rest) h.0,
          integer_part-value c ds (behind_sign negative (length pre)) t rest h p (ends_facts t e).0,
          (integer_rest (number % 2 ^ 64) (behind_sign negative (length pre) + 1 + length ds) t rest
              e).0,
          (integer_rest (number % 2 ^ 64) (behind_sign negative (length pre) + 1 + length ds) t rest
              e).1,
        )
        (node-Answers (length pre) _ _ _ (drop-sign negative pre (c ∷ ds ++ t ∷ rest))
          (counted negative))
    where
      counted :
          (negative : Bool)
          → behind_sign negative (length pre)
              + 1
              + length ds
              - length pre
              - 1
              - (if negative then 1 else 0)
            ≡ length ds
      counted true = omega arith
      counted false = omega arith
