-- ===== src/Numbers/Leads.antt =====
-- src/numberparse/correct.rs: a sign and an integer in a padded buffer, and the zeros in front.
use simd_toon_improved.Base.{
  ℕ, ◌+◌, ◌-◌, ◌*◌, ◌^◌, Bool, true, false, ◌||◌, some, [], ◌∷◌, ◌++◌, append_assoc, Bytes,
  get_elem?, leb, ◌==◌, Bool-cases, inl, inr, ◌≡◌, refl, sym, ap, subst, ◌∙◌, arith,
}
use simd_toon_improved.Error.{Result, ok, err, fault, out_of_fuel}
use simd_toon_improved.Stage2.Machine.{and_then}
use simd_toon_improved.Strings.Chars.{byte_of}
use simd_toon_improved.Scanner.Bytewise.{AreBytes}
use simd_toon_improved.Numbers.Digits.{is_integer}
use simd_toon_improved.Numbers.Floats.{parse_f64}
use simd_toon_improved.Numbers.Range.{Settled, then-Settled}
use simd_toon_improved.Numbers.Spelled.{sign}
use simd_toon_improved.Numbers.Stages.{
  IsGuarded, Takes, IsGuarded-tail, digit_no_newline, IsInteger, integer_part-Takes, Takes-cons,
}
use simd_toon_improved.Numbers.Points.{IsFraction, IsExponent}
use simd_toon_improved.Numbers.Grammar.{IsNumber, number}
use simd_toon_improved.Numbers.Parse.{
  Cursor, signed_part, zeros_in_front, large_digits, large_part, large_node,
}

pub zeros-Settled : (s : Bytes) → IsGuarded s → Settled (zeros_in_front s)
unfolding zeros_in_front
zeros-Settled [] g = absurd g
zeros-Settled (c ∷ s) g = elim (Bool-cases (c == b'0' || c == b'.')) [
  | inl y ↦
      rw (zeros_in_front, y)
        (then-Settled _ _ (zeros-Settled s (IsGuarded-tail c s (ground arith) g)) λ n. tt)
  | inr n ↦ rw (zeros_in_front, n) tt
]

-- What the slow loop over an integer leaves has a byte.
abbrev pub Leaves : Result Cursor → Type 0
Leaves (ok c) = (b : ℕ) × (get_elem? c.rest 0 ≡ some b)
Leaves (err e) = Unit
Leaves fault = ⊥
Leaves out_of_fuel = ⊥

large_digits-Leaves : (s : Bytes) (num idx : ℕ) → IsGuarded s → Leaves (large_digits num idx s)
unfolding large_digits
large_digits-Leaves [] num idx g = absurd g
large_digits-Leaves (c ∷ s) num idx g = elim (Bool-cases (is_integer c)) [
  | inl y ↦ elim (Bool-cases (leb (2 ^ 64) (10 * num))) [
    | inl z ↦ rw (large_digits, y, z) tt
    | inr z ↦ elim (Bool-cases (leb (2 ^ 64) (10 * num + (c - b'0')))) [
      | inl z' ↦ rw (large_digits, y, z, z') tt
      | inr z' ↦
          rw (large_digits, y, z, z')
            (large_digits-Leaves s _ (idx + 1) (IsGuarded-tail c s (no_newline c y) g))
    ]
  ]
  | inr n ↦ rw (large_digits, n) (c, refl)
]
  where
    no_newline : (c : ℕ) → is_integer c ≡ true → (c == b'\n') ≡ false
    no_newline c h = digit_no_newline c h

pub large_part-Leaves :
    (c : ℕ) (s : Bytes) (idx : ℕ) → IsGuarded s → Leaves (large_part idx (c ∷ s))
unfolding large_part
large_part-Leaves c s idx g = elim (Bool-cases (c == b'0')) [
  | inl y ↦ rw (large_part, y) (first s g)
  | inr n ↦ rw (large_part, n) (large_digits-Leaves s _ (idx + 1) g)
]
  where
    first : (s : Bytes) → IsGuarded s → (b : ℕ) × (get_elem? s 0 ≡ some b)
    first [] g = absurd g
    first (b ∷ s) g = (b, refl)

pub large_node-Settled :
    (negative : Bool) (r : Result Cursor) → Leaves r → Settled (and_then r (large_node negative))
unfolding large_node
large_node-Settled false (ok c) h = tt
large_node-Settled true (ok c) (b, e) = elim (Bool-cases (leb c.num (2 ^ 63))) [
  | inl y ↦ rw (large_node, y) tt
  | inr n ↦ rw (large_node, n, byte_of, e) tt
]
large_node-Settled negative (err e) h = tt
large_node-Settled negative fault h = absurd h
large_node-Settled negative out_of_fuel h = absurd h

-- A sign with an integer behind it.
abbrev pub IsSigned : Bool → Bytes → Type 0
IsSigned negative text = (n : Bytes) × (IsInteger n × (text ≡ sign negative ++ n))

pub signed_part-Takes :
    (negative : Bool) (s : Bytes) (start : ℕ)
    → IsGuarded s
    → AreBytes s
    → Takes
        (IsSigned negative)
        start
        (sign negative ++ s)
        (signed_part negative start (sign negative ++ s))
unfolding signed_part
signed_part-Takes negative [] start g a = absurd g
signed_part-Takes true (c ∷ s) start g a = elim (Bool-cases (is_integer c)) [
  | inl y ↦
      rw (signed_part, y)
        (Takes-cons IsInteger (IsSigned true) start b'-' (c ∷ s) _ (λ text p. (text, (p, refl)))
          (integer_part-Takes (c ∷ s) (start + 1) g a))
  | inr n ↦ rw (signed_part, n) tt
]
signed_part-Takes false (c ∷ s) start g a = as_signed _ (integer_part-Takes (c ∷ s) start g a)
  where
    as_signed :
        (r : Result Cursor)
        → Takes IsInteger start (c ∷ s) r
        → Takes (IsSigned false) start (c ∷ s) r
    as_signed (ok d) t = record {
      text = t.text;
      form = (t.text, (t.form, refl));
      split = t.split;
      counted = t.counted;
      guarded = t.guarded;
      bytes = t.bytes;
    }
    as_signed (err e) t = tt
    as_signed fault t = absurd t
    as_signed out_of_fuel t = absurd t

abbrev pub StartsDigit : Bytes → Type 0
StartsDigit [] = ⊥
StartsDigit (c ∷ s) = is_integer c ≡ true

pub parsed_first :
    (text : Bytes) (v : ℕ) → parse_f64 text ≡ some v → (c : ℕ) × (get_elem? text 0 ≡ some c)
unfolding parse_f64
parsed_first [] v h = cc
parsed_first (c ∷ text) v h = (c, refl)

pub guarded_first : (s : Bytes) → IsGuarded s → (b : ℕ) × (get_elem? s 0 ≡ some b)
guarded_first [] g = absurd g
guarded_first (b ∷ s) g = (b, refl)

abbrev pub IsMantissa : Bool → Bytes → Type 0
IsMantissa negative text =
    (a : Bytes) × ((b : Bytes) × (IsSigned negative a × (IsFraction b × (text ≡ a ++ b))))

pub number_of :
    (negative : Bool) (x e : Bytes)
    → IsMantissa negative x
    → IsExponent e
    → IsNumber negative (x ++ e)
number_of negative x e (a, (b, ((n, (i, a_eq)), (f, x_eq)))) p =
    subst (IsNumber negative) (sym whole_text) (number negative n b e i f p)
  where
    whole_text : x ++ e ≡ sign negative ++ (n ++ (b ++ e))
    whole_text =
        ap (λ t. t ++ e) (x_eq ∙ ap (λ t. t ++ b) a_eq)
        ∙ append_assoc (sign negative ++ n) b e
        ∙ append_assoc (sign negative) n (b ++ e)

pub first_digit :
    (negative : Bool) (s n rest : Bytes)
    → IsInteger n
    → sign negative ++ s ≡ (sign negative ++ n) ++ rest
    → StartsDigit s
first_digit negative s [] rest i h = absurd (ground arith)
first_digit true [] (c ∷ n) rest i h = cc
first_digit false [] (c ∷ n) rest i h = cc
first_digit true (b ∷ s) (c ∷ n) rest i h =
    let same : b ≡ c = cc in subst (λ t. is_integer t ≡ true) (sym same) i.0.0
first_digit false (b ∷ s) (c ∷ n) rest i h =
    let same : b ≡ c = cc in subst (λ t. is_integer t ≡ true) (sym same) i.0.0
