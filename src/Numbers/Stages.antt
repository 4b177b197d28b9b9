-- ===== src/Numbers/Stages.antt =====
-- src/numberparse/correct.rs: what each stage of `try_parse_number` takes from a buffer that is padded.
use simd_toon_improved.Base.{
  ℕ, zero, suc, ◌+◌, ◌≤◌, Bool, true, false, ◌&&◌, [], ◌∷◌, ◌++◌, append_assoc, Bytes, length,
  length-append, take, drop, leb, ◌==◌, Bool-cases, inl, inr, ◌⊎◌, ◌≡◌, refl, sym, ap, subst, ◌∙◌,
  arith,
}
use simd_toon_improved.Error.{Result, ok, err, fault, out_of_fuel}
use simd_toon_improved.Stage2.Machine.{and_then}
use simd_toon_improved.Scanner.Bytewise.{AreBytes}
use simd_toon_improved.Numbers.Digits.{is_integer, is_made_of_eight_digits_fast}
use simd_toon_improved.Numbers.Swar.{all_digits, is_made_of_eight_digits_fast-all_digits}
use simd_toon_improved.Numbers.Spelled.{AreDigits, is_plain}
use simd_toon_improved.Numbers.Parse.{Cursor, push_digit, digits, integer_part, eight_digits}

-- A newline is there, with eight bytes behind it: digits end before it, and eight bytes can be loaded.
abbrev pub IsGuarded : Bytes → Type 0
IsGuarded [] = ⊥
IsGuarded (b ∷ s) = ((b ≡ b'\n') × (8 ≤ length s)) ⊎ IsGuarded s

-- The stage has taken a text of that form, and what is left is still guarded.
pub record Took (P : Bytes → Type 0) (idx : ℕ) (s : Bytes) (idx' : ℕ) (rest : Bytes) : Type 0 where
  pub text : Bytes
  pub form : P text
  pub split : s ≡ text ++ rest
  pub counted : idx' ≡ idx + length text
  pub guarded : IsGuarded rest
  pub bytes : AreBytes rest

abbrev pub Takes : (Bytes → Type 0) → ℕ → Bytes → Result Cursor → Type 0
Takes P idx s (ok c) = Took P idx s c.idx c.rest
Takes P idx s (err e) = Unit
Takes P idx s fault = ⊥
Takes P idx s out_of_fuel = ⊥

-- A byte that is no newline is taken from what is guarded.
pub IsGuarded-tail : (b : ℕ) (s : Bytes) → (b == b'\n') ≡ false → IsGuarded (b ∷ s) → IsGuarded s
IsGuarded-tail b s h (inl g) = absurd (ground arith)
IsGuarded-tail b s h (inr g) = g

pub digit_no_newline : (c : ℕ) → is_integer c ≡ true → (c == b'\n') ≡ false
unfolding is_integer
digit_no_newline c h = ground arith

pub guarded-le : (s : Bytes) → IsGuarded s → 9 ≤ length s
guarded-le [] g = absurd g
guarded-le (b ∷ s) (inl g) = omega arith
guarded-le (b ∷ s) (inr g) = omega (arith, guarded-le s g)

-- One byte more in front.
pub Took-cons :
    {P Q : Bytes → Type 0} {idx c : ℕ} {s : Bytes} {idx' : ℕ} {rest : Bytes}
    → ((text : Bytes) → P text → Q (c ∷ text))
    → Took P (idx + 1) s idx' rest
    → Took Q idx (c ∷ s) idx' rest
Took-cons {idx = idx} {c = c} f t = record {
  text = c ∷ t.text;
  form = f t.text t.form;
  split = ap (λ s. c ∷ s) t.split;
  counted = omega (arith, t.counted);
  guarded = t.guarded;
  bytes = t.bytes;
}

pub Takes-cons :
    (P Q : Bytes → Type 0) (idx c : ℕ) (s : Bytes) (r : Result Cursor)
    → ((text : Bytes) → P text → Q (c ∷ text))
    → Takes P (idx + 1) s r
    → Takes Q idx (c ∷ s) r
Takes-cons P Q idx b s (ok c) f t = Took-cons f t
Takes-cons P Q idx b s (err e) f t = tt
Takes-cons P Q idx b s fault f t = absurd t
Takes-cons P Q idx b s out_of_fuel f t = absurd t

abbrev pub IsEmpty : Bytes → Type 0
IsEmpty s = s ≡ []

pub Took-nothing :
    {P : Bytes → Type 0} {idx : ℕ} {s : Bytes}
    → P []
    → IsGuarded s
    → AreBytes s
    → Took P idx s idx s
Took-nothing {idx = idx} p g a = record {
  text = [];
  form = p;
  split = refl;
  counted = omega arith;
  guarded = g;
  bytes = a;
}

-- Two stages in a row.
pub Took-append :
    {P Q R : Bytes → Type 0} {idx : ℕ} {s : Bytes} {idx' : ℕ} {s' : Bytes} {idx'' : ℕ}
    {rest : Bytes}
    → ((a b : Bytes) → P a → Q b → R (a ++ b))
    → Took P idx s idx' s'
    → Took Q idx' s' idx'' rest
    → Took R idx s idx'' rest
Took-append {rest = rest} f t u = record {
  text = t.text ++ u.text;
  form = f t.text u.text t.form u.form;
  split = t.split ∙ ap (λ x. t.text ++ x) u.split ∙ sym (append_assoc t.text u.text rest);
  counted = omega (arith, t.counted, u.counted, length-append t.text u.text);
  guarded = u.guarded;
  bytes = u.bytes;
}

pub Takes-then :
    (P Q R : Bytes → Type 0) (idx : ℕ) (s : Bytes) (r : Result Cursor) (f : Cursor → Result Cursor)
    → ((a b : Bytes) → P a → Q b → R (a ++ b))
    → Takes P idx s r
    → ((c : Cursor) → IsGuarded c.rest → AreBytes c.rest → Takes Q c.idx c.rest (f c))
    → Takes R idx s (and_then r f)
Takes-then P Q R idx s (ok c) f join t k = joined (f c) (k c t.guarded t.bytes)
  where
    joined : (r : Result Cursor) → Takes Q c.idx c.rest r → Takes R idx s r
    joined (ok d) u = Took-append join t u
    joined (err e) u = tt
    joined fault u = absurd u
    joined out_of_fuel u = absurd u
Takes-then P Q R idx s (err e) f join t k = tt
Takes-then P Q R idx s fault f join t k = absurd t
Takes-then P Q R idx s out_of_fuel f join t k = absurd t

pub digits-Takes :
    (s : Bytes) (num idx : ℕ) → IsGuarded s → AreBytes s → Takes AreDigits idx s (digits num idx s)
unfolding digits
digits-Takes [] num idx g a = absurd g
digits-Takes (c ∷ s) num idx g a = elim (Bool-cases (is_integer c)) [
  | inl y ↦
      rw (digits, y)
        (Takes-cons AreDigits AreDigits idx c s _ (λ text p. (y, p))
          (digits-Takes s (push_digit num c) (idx + 1) (IsGuarded-tail c s (digit_no_newline c y) g)
            a.1))
  | inr n ↦ rw (digits, n) (Took-nothing tt g a)
]

pub all_digits-AreDigits : (s : Bytes) → all_digits s ≡ true → AreDigits s
all_digits-AreDigits [] h = tt
all_digits-AreDigits (b ∷ s) h =
    let b_digit = both (is_integer b) _ h in (b_digit.0, all_digits-AreDigits s b_digit.1)
  where
    both : (x y : Bool) → (x && y) ≡ true → (x ≡ true) × (y ≡ true)
    both true y q = (refl, q)
    both false y q = absurd (ground arith)

AreBytes-take : (n : ℕ) (s : Bytes) → AreBytes s → AreBytes (take n s)
AreBytes-take zero s a = tt
AreBytes-take (suc n) [] a = tt
AreBytes-take (suc n) (b ∷ s) a = (a.0, AreBytes-take n s a.1)

length-take : (n : ℕ) (s : Bytes) → n ≤ length s → length (take n s) ≡ n
length-take zero s l = refl
length-take (suc n) [] l = absurd (omega arith)
length-take (suc n) (b ∷ s) l = omega (arith, length-take n s (omega arith))

-- A stretch of a buffer.
module _ (P : Bytes → Type 0) where
  Took-take :
      (n idx : ℕ) (s : Bytes)
      → n ≤ length s
      → AreDigits (take n s)
      → P (take n s)
      → IsGuarded s
      → AreBytes s
      → Took P idx s (idx + n) (drop n s)
  Took-take n idx s l d p g a = record {
    text = take n s;
    form = p;
    split = take-drop n s;
    counted = omega (arith, length-take n s l);
    guarded = guarded-drop n s d g;
    bytes = AreBytes-drop n s a;
  }
    where
      take-drop : (n : ℕ) (s : Bytes) → s ≡ take n s ++ drop n s
      take-drop zero s = refl
      take-drop (suc n) [] = refl
      take-drop (suc n) (b ∷ s) = ap (λ t. b ∷ t) (take-drop n s)

      guarded-drop : (n : ℕ) (s : Bytes) → AreDigits (take n s) → IsGuarded s → IsGuarded (drop n s)
      guarded-drop zero s d g = g
      guarded-drop (suc n) [] d g = absurd g
      guarded-drop (suc n) (b ∷ s) d g =
          guarded-drop n s d.1 (IsGuarded-tail b s (digit_no_newline b d.0) g)

      AreBytes-drop : (n : ℕ) (s : Bytes) → AreBytes s → AreBytes (drop n s)
      AreBytes-drop zero s a = a
      AreBytes-drop (suc n) [] a = tt
      AreBytes-drop (suc n) (b ∷ s) a = AreBytes-drop n s a.1

pub eight_digits-Takes :
    (s : Bytes) (num idx : ℕ)
    → IsGuarded s
    → AreBytes s
    → Takes AreDigits idx s (eight_digits num idx s)
unfolding eight_digits
eight_digits-Takes s num idx g a =
    rw (eight_digits, enough)
      (elim (Bool-cases (is_made_of_eight_digits_fast (take 8 s))) [
        | inl y ↦ rw y (Took-take AreDigits 8 idx s (long g) (are y) (are y) g a)
        | inr n ↦ rw n (Took-nothing tt g a)
      ])
  where
    long : IsGuarded s → 8 ≤ length s
    long g = omega (arith, guarded-le s g)

    enough : leb 8 (length s) ≡ true
    enough = ground (arith, guarded-le s g)

    are : is_made_of_eight_digits_fast (take 8 s) ≡ true → AreDigits (take 8 s)
    are y = all_digits-AreDigits (take 8 s) (
        sym (
          is_made_of_eight_digits_fast-all_digits (take 8 s) (AreBytes-take 8 s a)
            (length-take 8 s (long g)))
        ∙ y)

abbrev pub IsInteger : Bytes → Type 0
IsInteger text = AreDigits text × (is_plain text ≡ true)

plain_cons : (c : ℕ) (ds : Bytes) → (c == b'0') ≡ false → is_plain (c ∷ ds) ≡ true
plain_cons c [] h = refl
plain_cons c (d ∷ ds) h = rw h refl

zero_form : (c : ℕ) → (c == b'0') ≡ true → IsInteger (c ∷ [])
unfolding is_integer
zero_form c z = ((ground arith, tt), refl)

pub integer_part-Takes :
    (s : Bytes) (idx : ℕ) → IsGuarded s → AreBytes s → Takes IsInteger idx s (integer_part idx s)
unfolding integer_part
integer_part-Takes [] idx g a = absurd g
integer_part-Takes (c ∷ s) idx g a = elim (Bool-cases (c == b'0')) [
  | inl z ↦
      rw (integer_part, z)
        (Took-cons {P = IsEmpty} (λ text e. subst (λ t. IsInteger (c ∷ t)) (sym e) (zero_form c z))
          (Took-nothing refl (IsGuarded-tail c s (ground arith) g) a.1))
  | inr z ↦ elim (Bool-cases (is_integer c)) [
    | inl y ↦
        rw (integer_part, z, y)
          (Takes-cons AreDigits IsInteger idx c s _ (λ text p. ((y, p), plain_cons c text z))
            (digits-Takes s _ (idx + 1) (IsGuarded-tail c s (digit_no_newline c y) g) a.1))
    | inr n ↦ rw (integer_part, z, n) tt
  ]
]
