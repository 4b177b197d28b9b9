-- ===== src/Numbers/Points.antt =====
-- src/numberparse/correct.rs: the fraction and the exponent that `try_parse_number` takes.
use simd_toon_improved.Base.{
  ℕ, ◌+◌, Bool, true, false, ◌||◌, [], ◌∷◌, ◌++◌, Bytes, ltb, ◌==◌, Bool-cases, inl, inr, ◌≡◌, refl,
  sym, subst, subst₂, arith,
}
use simd_toon_improved.Error.{Result, ok, err, fault, out_of_fuel}
use simd_toon_improved.Stage2.Triple.{and_then_assoc}
use simd_toon_improved.Stage2.Machine.{and_then}
use simd_toon_improved.Scanner.Bytewise.{AreBytes}
use simd_toon_improved.Numbers.Digits.{is_integer}
use simd_toon_improved.Numbers.Spelled.{AreDigits}
use simd_toon_improved.Numbers.Parse.{
  Cursor, push_digit, eight_digits, Decimal, fraction_digits, fraction_part, one_digit,
  exponent_loop, exponent_digits, exponent_sign, exponent_part,
}
use simd_toon_improved.Numbers.Stages.{
  IsGuarded, Took, Takes, IsGuarded-tail, Took-cons, Takes-cons, Took-nothing, Takes-then,
  digits-Takes, eight_digits-Takes, digit_no_newline, IsEmpty,
}

-- A point with digits behind it, or nothing.
pub data IsFraction : Bytes → Type 0 where
  whole : IsFraction []
  point : (c : ℕ) (ds : Bytes) → AreDigits (c ∷ ds) → IsFraction (b'.' ∷ (c ∷ ds))

abbrev pub is_e : ℕ → Bool
is_e e = e == b'e' || e == b'E'

abbrev pub is_sign : ℕ → Bool
is_sign c = c == b'-' || c == b'+'

-- An `e` with digits behind it, or behind a sign, or nothing.
pub data IsExponent : Bytes → Type 0 where
  missing : IsExponent []
  unsigned : (e c : ℕ) (ds : Bytes) → is_e e ≡ true → AreDigits (c ∷ ds) → IsExponent (e ∷ (c ∷ ds))
  signed :
      (e x c : ℕ) (ds : Bytes)
      → is_e e ≡ true
      → is_sign x ≡ true
      → AreDigits (c ∷ ds)
      → IsExponent (e ∷ (x ∷ (c ∷ ds)))

-- A digit, and more behind it.
abbrev AreSome : Bytes → Type 0
AreSome [] = ⊥
AreSome (c ∷ ds) = AreDigits (c ∷ ds)

AreDigits-append : (a b : Bytes) → AreDigits a → AreDigits b → AreDigits (a ++ b)
AreDigits-append [] b p q = q
AreDigits-append (c ∷ a) b p q = (p.0, AreDigits-append a b p.1 q)

one_digit-Takes :
    (s : Bytes) (num idx : ℕ)
    → IsGuarded s
    → AreBytes s
    → Takes AreDigits idx s (one_digit num idx s)
unfolding one_digit
one_digit-Takes [] num idx g a = absurd g
one_digit-Takes (c ∷ s) num idx g a = elim (Bool-cases (is_integer c)) [
  | inl y ↦
      rw (one_digit, y)
        (Took-cons {P = IsEmpty} (λ text e. subst (λ t. AreDigits (c ∷ t)) (sym e) (y, tt))
          (Took-nothing refl (IsGuarded-tail c s (digit_no_newline c y) g) a.1))
  | inr n ↦ rw (one_digit, n) (Took-nothing tt g a)
]

exponent_loop-Takes :
    (s : Bytes) (num idx : ℕ)
    → IsGuarded s
    → AreBytes s
    → Takes AreDigits idx s (exponent_loop num idx s)
unfolding exponent_loop
exponent_loop-Takes [] num idx g a = absurd g
exponent_loop-Takes (c ∷ s) num idx g a = elim (Bool-cases (is_integer c)) [
  | inl y ↦ elim (Bool-cases (ltb 0x100000000 num)) [
    | inl z ↦ rw (exponent_loop, y, z) tt
    | inr z ↦
        rw (exponent_loop, y, z)
          (Takes-cons AreDigits AreDigits idx c s _ (λ text p. (y, p))
            (exponent_loop-Takes s _ (idx + 1) (IsGuarded-tail c s (digit_no_newline c y) g) a.1))
  ]
  | inr n ↦ rw (exponent_loop, n) (Took-nothing tt g a)
]

exponent_digits-Takes :
    (s : Bytes) (idx : ℕ) → IsGuarded s → AreBytes s → Takes AreSome idx s (exponent_digits idx s)
unfolding exponent_digits
exponent_digits-Takes [] idx g a = absurd g
exponent_digits-Takes (c ∷ s) idx g a = elim (Bool-cases (is_integer c)) [
  | inl y ↦
      rw (exponent_digits, y)
        (Takes-cons AreDigits AreSome idx c s _ (λ text p. (y, p))
          (Takes-then AreDigits AreDigits AreDigits (idx + 1) s _ _ AreDigits-append
            (one_digit-Takes s _ (idx + 1) (IsGuarded-tail c s (digit_no_newline c y) g) a.1)
            λ d g a.
              Takes-then AreDigits AreDigits AreDigits d.idx d.rest _ _ AreDigits-append
                (one_digit-Takes d.rest d.num d.idx g a)
                λ e g a. exponent_loop-Takes e.rest e.num e.idx g a))
  | inr n ↦ rw (exponent_digits, n) tt
]

-- The same for a result that has a cursor in it.
abbrev pub Gives : {A : Type 0} → (A → Cursor) → (Bytes → Type 0) → ℕ → Bytes → Result A → Type 0
Gives cursor_of P idx s (ok a) = Took P idx s (cursor_of a).idx (cursor_of a).rest
Gives cursor_of P idx s (err e) = Unit
Gives cursor_of P idx s fault = ⊥
Gives cursor_of P idx s out_of_fuel = ⊥

Gives-map :
    {A B : Type 0} (of_a : A → Cursor) (of_b : B → Cursor) (P Q : Bytes → Type 0) (idx c : ℕ)
    (s : Bytes) (r : Result A) (f : A → B)
    → ((a : A) → ((of_a a).idx ≡ (of_b (f a)).idx) × ((of_a a).rest ≡ (of_b (f a)).rest))
    → ((text : Bytes) → P text → Q (c ∷ text))
    → Gives of_a P (idx + 1) s r
    → Gives of_b Q idx (c ∷ s) (and_then r λ a. ok (f a))
Gives-map of_a of_b P Q idx c s (ok a) f same form t =
    subst₂ (λ i x. Took Q idx (c ∷ s) i x) (same a).0 (same a).1 (Took-cons form t)
Gives-map of_a of_b P Q idx c s (err e) f same form t = tt
Gives-map of_a of_b P Q idx c s fault f same form t = absurd t
Gives-map of_a of_b P Q idx c s out_of_fuel f same form t = absurd t

abbrev pub itself : Cursor → Cursor
itself c = c

pub as_given :
    (P : Bytes → Type 0) (idx : ℕ) (s : Bytes) (r : Result Cursor)
    → Takes P idx s r
    → Gives itself P idx s r
as_given P idx s (ok c) t = t
as_given P idx s (err e) t = tt
as_given P idx s fault t = absurd t
as_given P idx s out_of_fuel t = absurd t

abbrev behind : Bool × Cursor → Cursor
behind p = p.1

abbrev pub of_decimal : Decimal → Cursor
of_decimal d = d.cursor

-- What may stand behind an `e`.
abbrev IsPower : Bytes → Type 0
IsPower text = (e : ℕ) → is_e e ≡ true → IsExponent (e ∷ text)

some_power : (ds : Bytes) → AreSome ds → IsPower ds
some_power [] p = absurd p
some_power (c ∷ ds) p = λ e h. unsigned e c ds h p

signed_power : (x : ℕ) → is_sign x ≡ true → (ds : Bytes) → AreSome ds → IsPower (x ∷ ds)
signed_power x g [] p = absurd p
signed_power x g (c ∷ ds) p = λ e h. signed e x c ds h g p

unsigned_power :
    (r : Result Cursor) (idx : ℕ) (s : Bytes)
    → Takes AreSome idx s r
    → Gives behind IsPower idx s (and_then r λ e. ok (false, e))
unsigned_power (ok c) idx s t = record {
  text = t.text;
  form = some_power t.text t.form;
  split = t.split;
  counted = t.counted;
  guarded = t.guarded;
  bytes = t.bytes;
}
unsigned_power (err e) idx s t = tt
unsigned_power fault idx s t = absurd t
unsigned_power out_of_fuel idx s t = absurd t

exponent_sign-Gives :
    (s : Bytes) (idx : ℕ)
    → IsGuarded s
    → AreBytes s
    → Gives behind IsPower idx s (exponent_sign idx s)
unfolding exponent_sign
exponent_sign-Gives [] idx g a = absurd g
exponent_sign-Gives (c ∷ s) idx g a = elim (Bool-cases (c == b'-')) [
  | inl y ↦
      rw (exponent_sign, y)
        (Gives-map itself behind AreSome IsPower idx c s _ (λ e. (true, e)) (λ a. (refl, refl))
          (signed_power c (ground arith))
          (as_given AreSome (idx + 1) s _
            (exponent_digits-Takes s (idx + 1) (IsGuarded-tail c s (ground arith) g) a.1)))
  | inr n ↦ elim (Bool-cases (c == b'+')) [
    | inl y ↦
        rw (exponent_sign, n, y)
          (Gives-map itself behind AreSome IsPower idx c s _ (λ e. (false, e)) (λ a. (refl, refl))
            (signed_power c (ground arith))
            (as_given AreSome (idx + 1) s _
              (exponent_digits-Takes s (idx + 1) (IsGuarded-tail c s (ground arith) g) a.1)))
    | inr n' ↦
        rw (exponent_sign, n, n')
          (unsigned_power _ idx (c ∷ s) (exponent_digits-Takes (c ∷ s) idx g a))
  ]
]

pub exponent_part-Gives :
    (s : Bytes) (is_float : Bool) (x num idx : ℕ)
    → IsGuarded s
    → AreBytes s
    → Gives of_decimal IsExponent idx s (exponent_part is_float x num idx s)
unfolding exponent_part
exponent_part-Gives [] is_float x num idx g a = absurd g
exponent_part-Gives (c ∷ s) is_float x num idx g a = elim (Bool-cases (is_e c)) [
  | inl y ↦
      rw (exponent_part, y)
        (Gives-map behind of_decimal IsPower IsExponent idx c s (exponent_sign (idx + 1) s) _
          (λ a. (refl, refl)) (λ text p. p c y)
          (exponent_sign-Gives s (idx + 1) (IsGuarded-tail c s (ground arith) g) a.1))
  | inr n ↦ rw (exponent_part, n) (Took-nothing missing g a)
]

Gives-cons :
    {A : Type 0} (of_a : A → Cursor) (P Q : Bytes → Type 0) (idx c : ℕ) (s : Bytes) (r : Result A)
    → ((text : Bytes) → P text → Q (c ∷ text))
    → Gives of_a P (idx + 1) s r
    → Gives of_a Q idx (c ∷ s) r
Gives-cons of_a P Q idx c s (ok a) form t = Took-cons form t
Gives-cons of_a P Q idx c s (err e) form t = tt
Gives-cons of_a P Q idx c s fault form t = absurd t
Gives-cons of_a P Q idx c s out_of_fuel form t = absurd t

fraction_digits-Gives :
    (s : Bytes) (num idx : ℕ)
    → IsGuarded s
    → AreBytes s
    → Gives of_decimal AreSome idx s (fraction_digits num idx s)
unfolding fraction_digits
fraction_digits-Gives [] num idx g a = absurd g
fraction_digits-Gives (c ∷ s) num idx g a = elim (Bool-cases (is_integer c)) [
  | inl y ↦
      rw (fraction_digits, y)
        (subst (Gives of_decimal AreSome idx (c ∷ s))
          (and_then_assoc (eight_digits (push_digit num c) (idx + 1) s) _ _)
          (Gives-map itself of_decimal AreDigits AreSome idx c s _ _ (λ a. (refl, refl))
            (λ text p. (y, p))
            (as_given AreDigits (idx + 1) s _ (
              Takes-then AreDigits AreDigits AreDigits (idx + 1) s _ _ AreDigits-append
                (eight_digits-Takes s (push_digit num c) (idx + 1)
                  (IsGuarded-tail c s (digit_no_newline c y) g) a.1)
                λ e g a. digits-Takes e.rest e.num e.idx g a))))
  | inr n ↦ rw (fraction_digits, n) tt
]

some_point : (c : ℕ) → (c == b'.') ≡ true → (ds : Bytes) → AreSome ds → IsFraction (c ∷ ds)
some_point c h [] p = absurd p
some_point c h (d ∷ ds) p = subst (λ x. IsFraction (x ∷ (d ∷ ds))) (ground arith) (point d ds p)

pub fraction_part-Gives :
    (s : Bytes) (num idx : ℕ)
    → IsGuarded s
    → AreBytes s
    → Gives of_decimal IsFraction idx s (fraction_part num idx s)
unfolding fraction_part
fraction_part-Gives [] num idx g a = absurd g
fraction_part-Gives (c ∷ s) num idx g a = elim (Bool-cases (c == b'.')) [
  | inl y ↦
      rw (fraction_part, y)
        (Gives-cons of_decimal AreSome IsFraction idx c s _ (some_point c y)
          (fraction_digits-Gives s num (idx + 1) (IsGuarded-tail c s (ground arith) g) a.1))
  | inr n ↦ rw (fraction_part, n) (Took-nothing whole g a)
]
