-- ===== src/Stage2/Scan/Number.antt =====
-- src/stage2.rs: `parse_string_number!`, the declared count of a header.
use simd_toon_improved.Base.{
  ℕ, ◌+◌, ◌-◌, ◌*◌, ◌^◌, ◌≤◌, ◌<◌, ◌≡◌, refl, sym, ◌∙◌, arith, Bool, true, false, ◌&&◌, Option,
  none, some, [], ◌∷◌, Bytes, if◌then◌else◌, ltb, Bool-cases, inl, inr, ap,
}
use mathlib.Core.Path.{fun_ext}
use simd_toon_improved.Error.{syntax}
use simd_toon_improved.Stage2.Machine.{Env, M, ◌>>=◌, pure, lift, fail, slice}
use simd_toon_improved.Stage2.Scan.{
  is_digit, checked_digit, fold_digits, some_or_syntax, parse_string_number,
}

-- The decimal value of a string, `acc` being that of the digits before it.
abbrev value_from : ℕ → Bytes → ℕ
value_from acc [] = acc
value_from acc (b ∷ bs) = value_from (acc * 10 + (b - b'0')) bs

abbrev all_digits : Bytes → Bool
all_digits [] = true
all_digits (b ∷ bs) = is_digit b && all_digits bs

value_from-le : (acc : ℕ) (bs : Bytes) → acc ≤ value_from acc bs
value_from-le acc [] = omega arith
value_from-le acc (b ∷ bs) = omega (arith, value_from-le (acc * 10 + (b - b'0')) bs)

fold_digits-none : (bs : Bytes) → fold_digits bs none ≡ none
unfolding fold_digits
fold_digits-none [] = refl
fold_digits-none (b ∷ bs) = refl

-- What the fold should come to, when `acc` fits 32 bits.
abbrev expected : ℕ → Bytes → Option ℕ
expected acc bs =
    if all_digits bs && ltb (value_from acc bs) (2 ^ 32) then some (value_from acc bs) else none

checked_digit-fits :
    (acc d : ℕ)
    → ltb (acc * 10 + d) (2 ^ 32) ≡ true
    → (checked_digit acc d ≡ some (acc * 10 + d)) × (acc * 10 + d < 2 ^ 32)
checked_digit-fits acc d h = ground arith

checked_digit-exceeds :
    (acc d : ℕ)
    → ltb (acc * 10 + d) (2 ^ 32) ≡ false
    → (checked_digit acc d ≡ none) × (2 ^ 32 ≤ acc * 10 + d)
checked_digit-exceeds acc d h = ground arith

expected-exceeds : (acc : ℕ) (bs : Bytes) → 2 ^ 32 ≤ acc → expected acc bs ≡ none
expected-exceeds acc bs h = ground (arith, value_from-le acc bs)

next_digit :
    (acc d : ℕ) (bs : Bytes)
    → ((a : ℕ) → a < 2 ^ 32 → fold_digits bs (some a) ≡ expected a bs)
    → fold_digits bs (checked_digit acc d) ≡ expected (acc * 10 + d) bs
next_digit acc d bs ih = elim (Bool-cases (ltb (acc * 10 + d) (2 ^ 32))) [
  | inl y ↦ let (e, fits) = checked_digit-fits acc d y in ap (fold_digits bs) e ∙ ih _ fits
  | inr n ↦
      let (e, large) = checked_digit-exceeds acc d n in
      ap (fold_digits bs) e ∙ fold_digits-none bs ∙ sym (expected-exceeds (acc * 10 + d) bs large)
]

any_byte :
    (g : Bool) (acc d : ℕ) (bs : Bytes)
    → fold_digits bs (checked_digit acc d) ≡ expected (acc * 10 + d) bs
    → fold_digits bs (if g then checked_digit acc d else none) ≡ (
        if (g && all_digits bs) && ltb (value_from (acc * 10 + d) bs) (2 ^ 32)
        then some (value_from (acc * 10 + d) bs)
        else none)
any_byte true acc d bs h = h
any_byte false acc d bs h = fold_digits-none bs

fold_digits-expected :
    (acc : ℕ) (bs : Bytes) → acc < 2 ^ 32 → fold_digits bs (some acc) ≡ expected acc bs
unfolding fold_digits
fold_digits-expected acc [] h = ground arith
fold_digits-expected acc (b ∷ bs) h =
    any_byte (is_digit b) acc (b - b'0') bs
      (next_digit acc (b - b'0') bs λ a. fold_digits-expected a bs)

-- The value of a run of digits, if it fits 32 bits.
abbrev pub declared : Env → Bytes → M ℕ
declared env bs =
    if all_digits bs && ltb (value_from 0 bs) (2 ^ 32) then pure (value_from 0 bs) else fail syntax

some_or_syntax-if :
    (g : Bool) (v : ℕ)
    → some_or_syntax (if g then some v else none) ≡ (if g then pure v else fail syntax)
some_or_syntax-if true v = refl
some_or_syntax-if false v = refl

-- `parse_string_number` gives the decimal value of the token's bytes, zeros in front included, if they
-- are all digits and the value is less than 2^32, and a syntax error for every other token; it fails on
-- the token's bounds just as `slice` does. So 03 is read as 3.
pub parse_string_number-declared :
    (env : Env) (from to : ℕ)
    → parse_string_number env from to ≡ (lift (slice env from to) >>= declared env)
unfolding parse_string_number
parse_string_number-declared env from to =
    ap (λ f. lift (slice env from to) >>= f)
      (fun_ext
        λ bs. ap some_or_syntax (fold_digits-expected 0 bs (omega arith)) ∙ some_or_syntax-if _ _)
