-- ===== src/Numbers/Grammar.antt =====
-- src/numberparse/correct.rs: the grammar of numbers, and `str::parse` on it.
use simd_toon_improved.Base.{
  ℕ, suc, ◌+◌, ◌-◌, ◌*◌, Bool, true, false, Option, some, [], ◌∷◌, ◌++◌, append-nil, Bytes, ◌==◌,
  if◌then◌else◌, Bool-cases, inl, inr, ◌≡◌, refl, sym, ap, subst, ◌∙◌, arith,
}
use simd_toon_improved.Numbers.Digits.{is_integer}
use simd_toon_improved.Numbers.Floats.{
  spelled, power_digits, power_of, with_fraction, magnitude, scaled, with_sign, parse_f64,
}
use simd_toon_improved.Numbers.Spelled.{AreDigits, sign}
use simd_toon_improved.Numbers.Stages.{IsInteger}
use simd_toon_improved.Numbers.Points.{
  IsFraction, whole, point, IsExponent, missing, unsigned, signed,
}

-- A sign if there is one, an integer without zeros in front, a fraction and an exponent.
pub data IsNumber : Bool → Bytes → Type 0 where
  number :
      (negative : Bool) (n f e : Bytes)
      → IsInteger n
      → IsFraction f
      → IsExponent e
      → IsNumber negative (sign negative ++ (n ++ (f ++ e)))

abbrev Answer : {A : Type 0} → Option A → Type 0
Answer {A} o = (a : A) × (o ≡ some a)

abbrev stops : Bytes → Bool
stops [] = true
stops (c ∷ s) = if is_integer c then false else true

-- What one digit or more are spelled as.
abbrev Spelled : ℕ × (ℕ × Bytes) → Bytes → Type 0
Spelled r s = (m : ℕ) × ((j : ℕ) × (r ≡ (m, (suc j, s))))

spelled_more :
    (ds s : Bytes) (n k : ℕ)
    → AreDigits ds
    → stops s ≡ true
    → Spelled (spelled n (suc k) (ds ++ s)) s
spelled_more [] [] n k d h = (n, (k, refl))
spelled_more [] (c ∷ s) n k d h = (n, (k, rw (spelled, no) refl))
  where
    no : is_integer c ≡ false
    no = ground arith
spelled_more (c ∷ ds) s n k d h =
    rw (spelled, d.0)
      (subst (λ t. Spelled (spelled (n * 10 + (c - b'0')) t (ds ++ s)) s) next
        (spelled_more ds s (n * 10 + (c - b'0')) (suc k) d.1 h))
  where
    next : suc (suc k) ≡ suc k + 1
    next = omega arith

spelled_some :
    (c : ℕ) (ds s : Bytes) (n : ℕ)
    → AreDigits (c ∷ ds)
    → stops s ≡ true
    → Spelled (spelled n 0 (c ∷ ds ++ s)) s
spelled_some c ds s n d h = rw (spelled, d.0) (spelled_more ds s (n * 10 + (c - b'0')) 0 d.1 h)

Answer-digits :
    (negative : Bool) (c : ℕ) (ds : Bytes)
    → AreDigits (c ∷ ds)
    → Answer (power_digits negative (spelled 0 0 (c ∷ ds)))
Answer-digits negative c ds d =
    let (m, (j, e)) = spelled_some c ds [] 0 d refl in
    (
      (negative, m),
      ap (λ s. power_digits negative (spelled 0 0 s)) (sym (append-nil (c ∷ ds)))
          ∙ ap (power_digits negative) e,
    )

Answer-power : {e : Bytes} → IsExponent e → Answer (power_of e)
unfolding is_integer
Answer-power missing = ((false, 0), refl)
Answer-power (unsigned e c ds h d) =
    rw h (rw (no_minus c d.0, no_plus c d.0) (Answer-digits false c ds d))
  where
    no_minus : (c : ℕ) → is_integer c ≡ true → (c == b'-') ≡ false
    no_minus c h = ground arith

    no_plus : (c : ℕ) → is_integer c ≡ true → (c == b'+') ≡ false
    no_plus c h = ground arith
Answer-power (signed e x c ds h g d) = rw h (elim (Bool-cases (x == b'-')) [
  | inl y ↦ rw y (Answer-digits true c ds d)
  | inr y ↦ rw (y, plus y) (Answer-digits false c ds d)
])
  where
    plus : (x == b'-') ≡ false → (x == b'+') ≡ true
    plus y = ground arith

stops-exponent : {e : Bytes} → IsExponent e → stops e ≡ true
unfolding is_integer
stops-exponent missing = refl
stops-exponent (unsigned e c ds h d) = ground arith
stops-exponent (signed e x c ds h g d) = ground arith

no_fraction :
    {e : Bytes} → IsExponent e → (m j : ℕ) → with_fraction (m, (suc j, e)) ≡ some (m, (0, e))
no_fraction missing m j = refl
no_fraction (unsigned e c ds h d) m j = rw no_point refl
  where
    no_point : (e == b'.') ≡ false
    no_point = ground arith
no_fraction (signed e x c ds h g d) m j = rw no_point refl
  where
    no_point : (e == b'.') ≡ false
    no_point = ground arith

Answer-magnitude_of :
    (s : Bytes) (d k : ℕ) (e : Bytes)
    → with_fraction (spelled 0 0 s) ≡ some (d, (k, e))
    → IsExponent e
    → Answer (magnitude s)
Answer-magnitude_of s d k e h x =
    let (a, a_eq) = Answer-power x in (scaled d k a, rw (magnitude, h, a_eq) refl)

stops-point : (s : Bytes) → stops (b'.' ∷ s) ≡ true
unfolding is_integer
stops-point s = refl

Answer-magnitude :
    (n f e : Bytes) → IsInteger n → IsFraction f → IsExponent e → Answer (magnitude (n ++ (f ++ e)))
Answer-magnitude [] f e i p x = absurd (ground arith)
Answer-magnitude (c ∷ ds) _ e i whole x =
    let (m, (j, r)) = spelled_some c ds e 0 i.0 (stops-exponent x) in
    Answer-magnitude_of ((c ∷ ds) ++ e) m 0 e (ap with_fraction r ∙ no_fraction x m j) x
Answer-magnitude (c ∷ ds) _ e i (point c' ds' q) x =
    let (m, (j, r)) =
      spelled_some c ds (b'.' ∷ (c' ∷ ds') ++ e) 0 i.0 (stops-point ((c' ∷ ds') ++ e)) in
    let (m', (j', r')) = spelled_some c' ds' e m q (stops-exponent x) in
    Answer-magnitude_of ((c ∷ ds) ++ (b'.' ∷ (c' ∷ ds') ++ e)) m' (suc j') e
      (ap with_fraction r ∙ ap some r') x

-- Every number of the grammar is parsed.
pub parse_f64-number :
    {negative : Bool} {text : Bytes} → IsNumber negative text → (v : ℕ) × (parse_f64 text ≡ some v)
unfolding parse_f64 is_integer
parse_f64-number (number true n f e i p x) =
    let (v, h) = Answer-magnitude n f e i p x in (with_sign false v, rw h refl)
parse_f64-number (number false [] f e i p x) = absurd (ground arith)
parse_f64-number (number false (c ∷ ds) f e i p x) =
    let (v, h) = Answer-magnitude (c ∷ ds) f e i p x in (v, rw (no_minus c i.0.0) h)
  where
    no_minus : (c : ℕ) → is_integer c ≡ true → (c == b'-') ≡ false
    no_minus c h = ground arith
