-- ===== src/Numbers/Stops.antt =====
-- src/numberparse/correct.rs: the loops of `try_parse_number` over digits, on any buffer.
use simd_toon_improved.Base.{
  ℕ, ◌+◌, Bool, true, false, ◌||◌, [], ◌∷◌, Bytes, get_elem?, length, take, leb, ltb, ◌==◌,
  if◌then◌else◌, Option-cases, inl, inr, arith,
}
use simd_toon_improved.Error.{Result, ok, err, fault, out_of_fuel}
use simd_toon_improved.Stage2.Machine.{and_then}
use simd_toon_improved.Strings.Chars.{byte_of}
use simd_toon_improved.Strings.Ends.{Ended}
use simd_toon_improved.Views.Slices.{sub_slice}
use simd_toon_improved.Numbers.Digits.{is_integer, is_made_of_eight_digits_fast}
use simd_toon_improved.Numbers.Parse.{
  push_digit, digits, integer_part, signed_part, eight_digits, fraction_digits, fraction_part,
  one_digit, exponent_loop, exponent_digits, exponent_sign, exponent_part,
}

pub Ended-then :
    {A B : Type 0} (r : Result A) (f : A → Result B)
    → Ended r
    → ((a : A) → Ended (f a))
    → Ended (and_then r f)
Ended-then (ok a) f h k = k a
Ended-then (err e) f h k = tt
Ended-then fault f h k = tt
Ended-then out_of_fuel f h k = absurd h

-- A test with two branches that end.
pub Ended-if :
    {A : Type 0} (b : Bool) (r s : Result A)
    → Ended r
    → Ended s
    → Ended (elim b [ true ↦ r | false ↦ s ])
Ended-if true r s h k = h
Ended-if false r s h k = k

pub Ended-either :
    {A : Type 0} (b : Bool) (r s : Result A) → Ended r → Ended s → Ended (if b then r else s)
Ended-either true r s h k = h
Ended-either false r s h k = k

pub byte_of-Ended :
    {A : Type 0} (s : Bytes) (i : ℕ) (f : ℕ → Result A)
    → ((c : ℕ) → Ended (f c))
    → Ended (byte_of s i f)
byte_of-Ended s i f h = elim (Option-cases (get_elem? s i)) [
  | inl e ↦ rw (byte_of, e) tt
  | inr (c, e) ↦ rw (byte_of, e) (h c)
]

pub sub_slice-Ended : (s : Bytes) (i j : ℕ) → Ended (sub_slice s i j)
unfolding sub_slice
sub_slice-Ended s i j = ground arith

digits-Ended : (s : Bytes) (num idx : ℕ) → Ended (digits num idx s)
unfolding digits
digits-Ended [] num idx = tt
digits-Ended (c ∷ s) num idx =
    Ended-if (is_integer c) _ _ (digits-Ended s (push_digit num c) (idx + 1)) tt

integer_part-Ended : (s : Bytes) (idx : ℕ) → Ended (integer_part idx s)
unfolding integer_part
integer_part-Ended [] idx = tt
integer_part-Ended (c ∷ s) idx =
    Ended-if (c == b'0') _ _ tt (Ended-if (is_integer c) _ _ (digits-Ended s _ (idx + 1)) tt)

pub signed_part-Ended :
    (negative : Bool) (start : ℕ) (s : Bytes) → Ended (signed_part negative start s)
unfolding signed_part
signed_part-Ended false start s = integer_part-Ended s start
signed_part-Ended true start [] = tt
signed_part-Ended true start (_ ∷ []) = tt
signed_part-Ended true start (_ ∷ c ∷ s) =
    Ended-either (is_integer c) _ _ (integer_part-Ended (c ∷ s) (start + 1)) tt

eight_digits-Ended : (s : Bytes) (num idx : ℕ) → Ended (eight_digits num idx s)
unfolding eight_digits
eight_digits-Ended s num idx =
    Ended-if (leb 8 (length s)) _ _ (Ended-if (is_made_of_eight_digits_fast (take 8 s)) _ _ tt tt)
      tt

fraction_digits-Ended : (s : Bytes) (num idx : ℕ) → Ended (fraction_digits num idx s)
unfolding fraction_digits
fraction_digits-Ended [] num idx = tt
fraction_digits-Ended (c ∷ s) num idx =
    Ended-if (is_integer c) _ _
      (Ended-then _ _ (eight_digits-Ended s (push_digit num c) (idx + 1))
        λ e. Ended-then _ _ (digits-Ended e.rest e.num e.idx) λ d. tt)
      tt

pub fraction_part-Ended : (s : Bytes) (num idx : ℕ) → Ended (fraction_part num idx s)
unfolding fraction_part
fraction_part-Ended [] num idx = tt
fraction_part-Ended (c ∷ s) num idx =
    Ended-if (c == b'.') _ _ (fraction_digits-Ended s num (idx + 1)) tt

one_digit-Ended : (s : Bytes) (num idx : ℕ) → Ended (one_digit num idx s)
unfolding one_digit
one_digit-Ended [] num idx = tt
one_digit-Ended (c ∷ s) num idx = Ended-either (is_integer c) _ _ tt tt

exponent_loop-Ended : (s : Bytes) (num idx : ℕ) → Ended (exponent_loop num idx s)
unfolding exponent_loop
exponent_loop-Ended [] num idx = tt
exponent_loop-Ended (c ∷ s) num idx =
    Ended-if (is_integer c) _ _
      (Ended-if (ltb 0x100000000 num) _ _ tt (exponent_loop-Ended s _ (idx + 1))) tt

exponent_digits-Ended : (s : Bytes) (idx : ℕ) → Ended (exponent_digits idx s)
unfolding exponent_digits
exponent_digits-Ended [] idx = tt
exponent_digits-Ended (c ∷ s) idx =
    Ended-if (is_integer c) _ _
      (Ended-then _ _ (one_digit-Ended s _ (idx + 1)) λ d.
        Ended-then _ _ (one_digit-Ended d.rest d.num d.idx)
          λ e. exponent_loop-Ended e.rest e.num e.idx)
      tt

exponent_sign-Ended : (s : Bytes) (idx : ℕ) → Ended (exponent_sign idx s)
unfolding exponent_sign
exponent_sign-Ended [] idx = tt
exponent_sign-Ended (c ∷ s) idx =
    Ended-if (c == b'-') _ _ (Ended-then _ _ (exponent_digits-Ended s (idx + 1)) λ e. tt) (
      Ended-if (c == b'+') _ _ (Ended-then _ _ (exponent_digits-Ended s (idx + 1)) λ e. tt)
        (Ended-then _ _ (exponent_digits-Ended (c ∷ s) idx) λ e. tt))

pub exponent_part-Ended :
    (s : Bytes) (is_float : Bool) (x num idx : ℕ) → Ended (exponent_part is_float x num idx s)
unfolding exponent_part
exponent_part-Ended [] is_float x num idx = tt
exponent_part-Ended (c ∷ s) is_float x num idx =
    Ended-if (c == b'e' || c == b'E') _ _ (Ended-then _ _ (exponent_sign-Ended s (idx + 1)) λ e. tt)
      tt
