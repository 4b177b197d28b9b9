-- ===== src/Numbers/Faster.antt =====
-- src/numberparse/correct.rs: the digits of a fraction, against a loop over them.
use simd_toon_improved.Base.{
  ℕ, ◌+◌, ◌-◌, ◌*◌, ◌%◌, ◌^◌, ◌≤◌, true, false, [], ◌∷◌, ◌++◌, Bytes, length, leb, Bool-cases, inl,
  inr, ◌≡◌, refl, sym, ap, ◌∙◌, arith,
}
use simd_toon_improved.Error.{Result, ok, fault}
use simd_toon_improved.Stage2.Machine.{and_then}
use simd_toon_improved.Scanner.Bytewise.{AreBytes}
use simd_toon_improved.Numbers.Digits.{
  is_integer, is_made_of_eight_digits_fast, parse_eight_digits_swar,
}
use simd_toon_improved.Numbers.Parts.{bad}
use simd_toon_improved.Numbers.Swar.{is_made_of_eight_digits_fast-all_digits}
use simd_toon_improved.Numbers.Eight.{parse_eight_digits_swar-value}
use simd_toon_improved.Numbers.Spelled.{value, AreDigits, push_digit-mod}
use simd_toon_improved.Numbers.Stages.{
  IsGuarded, IsGuarded-tail, guarded-le, digit_no_newline, all_digits-AreDigits,
}
use simd_toon_improved.Stage2.Triple.{and_then_assoc}
use simd_toon_improved.Numbers.Parse.{
  push_digit, digits, eight_digits, Decimal, decimal, fraction_digits,
}

digits-append :
    (ds s : Bytes) (n idx : ℕ)
    → AreDigits ds
    → digits (n % 2 ^ 64) idx (ds ++ s) ≡ digits (value n ds % 2 ^ 64) (idx + length ds) s
unfolding digits
digits-append [] s n idx h = ap (λ i. digits (n % 2 ^ 64) i s) (omega arith)
digits-append (c ∷ ds) s n idx h =
    rw (digits, h.0, push_digit-mod n c)
      (digits-append ds s (10 * n + (c - b'0')) (idx + 1) h.1
        ∙ ap (λ i. digits (value n (c ∷ ds) % 2 ^ 64) i s) (omega arith))

-- Eight digits at once leave the loop where it would be behind them.
eight_steps :
    (a b c d e f g h : ℕ) (s : Bytes) (n idx : ℕ)
    → AreDigits (a ∷ b ∷ c ∷ d ∷ e ∷ f ∷ g ∷ h ∷ [])
    → AreBytes (a ∷ b ∷ c ∷ d ∷ e ∷ f ∷ g ∷ h ∷ [])
    → digits
        ((100000000 * (n % 2 ^ 64) % 2 ^ 64
            + parse_eight_digits_swar (a ∷ b ∷ c ∷ d ∷ e ∷ f ∷ g ∷ h ∷ []))
          % 2 ^ 64)
        (idx + 8)
        s
      ≡ digits (n % 2 ^ 64) idx (a ∷ b ∷ c ∷ d ∷ e ∷ f ∷ g ∷ h ∷ s)
eight_steps a b c d e f g h s n idx ds bs =
    ap (λ m. digits m (idx + 8) s) same
    ∙ sym (digits-append (a ∷ b ∷ c ∷ d ∷ e ∷ f ∷ g ∷ h ∷ []) s n idx ds)
  where
    same :
        (100000000 * (n % 2 ^ 64) % 2 ^ 64
            + parse_eight_digits_swar (a ∷ b ∷ c ∷ d ∷ e ∷ f ∷ g ∷ h ∷ []))
          % 2 ^ 64
        ≡ value n (a ∷ b ∷ c ∷ d ∷ e ∷ f ∷ g ∷ h ∷ []) % 2 ^ 64
    same = omega (arith, parse_eight_digits_swar-value a b c d e f g h ds bs)

abbrev LoopsOn : ℕ → ℕ → Bytes → Type 0
LoopsOn num idx s =
    and_then (eight_digits num idx s) (λ e. digits e.num e.idx e.rest) ≡ digits num idx s

eight_digits-digits :
    (s : Bytes) (n idx : ℕ) → 8 ≤ length s → AreBytes s → LoopsOn (n % 2 ^ 64) idx s
unfolding eight_digits
eight_digits-digits (a ∷ b ∷ c ∷ d ∷ e ∷ f ∷ g ∷ h ∷ s) n idx l
      (p, (q, (r, (t, (u, (v, (w, (x, z)))))))) =
    elim (Bool-cases (is_made_of_eight_digits_fast (a ∷ b ∷ c ∷ d ∷ e ∷ f ∷ g ∷ h ∷ []))) [
      | inl y ↦ rw (eight_digits, enough, y) (eight_steps a b c d e f g h s n idx (are y) bytes)
      | inr m ↦ rw (eight_digits, enough, m) refl
    ]
  where
    bytes : AreBytes (a ∷ b ∷ c ∷ d ∷ e ∷ f ∷ g ∷ h ∷ [])
    bytes = (p, (q, (r, (t, (u, (v, (w, (x, tt))))))))

    enough : leb 8 (length (a ∷ b ∷ c ∷ d ∷ e ∷ f ∷ g ∷ h ∷ s)) ≡ true
    enough = ground (arith, l)

    are :
        is_made_of_eight_digits_fast (a ∷ b ∷ c ∷ d ∷ e ∷ f ∷ g ∷ h ∷ []) ≡ true
        → AreDigits (a ∷ b ∷ c ∷ d ∷ e ∷ f ∷ g ∷ h ∷ [])
    are y = all_digits-AreDigits (a ∷ b ∷ c ∷ d ∷ e ∷ f ∷ g ∷ h ∷ []) (
        sym
          (is_made_of_eight_digits_fast-all_digits (a ∷ b ∷ c ∷ d ∷ e ∷ f ∷ g ∷ h ∷ []) bytes refl)
        ∙ y)
eight_digits-digits [] n idx l a = absurd (omega arith)
eight_digits-digits (_ ∷ []) n idx l a = absurd (omega arith)
eight_digits-digits (_ ∷ _ ∷ []) n idx l a = absurd (omega arith)
eight_digits-digits (_ ∷ _ ∷ _ ∷ []) n idx l a = absurd (omega arith)
eight_digits-digits (_ ∷ _ ∷ _ ∷ _ ∷ []) n idx l a = absurd (omega arith)
eight_digits-digits (_ ∷ _ ∷ _ ∷ _ ∷ _ ∷ []) n idx l a = absurd (omega arith)
eight_digits-digits (_ ∷ _ ∷ _ ∷ _ ∷ _ ∷ _ ∷ []) n idx l a = absurd (omega arith)
eight_digits-digits (_ ∷ _ ∷ _ ∷ _ ∷ _ ∷ _ ∷ _ ∷ []) n idx l a = absurd (omega arith)

-- A fraction whose digits are read by the loop alone.
unfoldable pub by_digits : ℕ → ℕ → Bytes → Result Decimal
by_digits num first_after_period [] = fault
by_digits num first_after_period (c ∷ rest) = elim (is_integer c) [
  | true ↦
      and_then (digits (push_digit num c) (first_after_period + 1) rest)
        λ d. ok (decimal true ((first_after_period + 2 ^ 64 - d.idx) % 2 ^ 64) d)
  | false ↦ bad first_after_period c
]

-- On bytes in which a newline has eight bytes behind it, fraction_digits, which reads eight digits at
-- once, gives what the loop over single digits gives, errors included.
pub fraction_digits-by_digits :
    (s : Bytes) (num idx : ℕ)
    → IsGuarded s
    → AreBytes s
    → fraction_digits num idx s ≡ by_digits num idx s
unfolding fraction_digits by_digits
fraction_digits-by_digits [] num idx g a = absurd g
fraction_digits-by_digits (c ∷ s) num idx g a = elim (Bool-cases (is_integer c)) [
  | inl y ↦
      rw (fraction_digits, by_digits, y)
        (sym (and_then_assoc (eight_digits (push_digit num c) (idx + 1) s) _ _)
          ∙ ap (λ r. and_then r (λ d. ok (decimal true ((idx + 2 ^ 64 - d.idx) % 2 ^ 64) d)))
              (eight_digits-digits s (10 * num % 2 ^ 64 + (c - b'0')) (idx + 1) (long y) a.1))
  | inr n ↦ rw (fraction_digits, by_digits, n) refl
]
  where
    long : is_integer c ≡ true → 8 ≤ length s
    long y = omega (arith, guarded-le s (IsGuarded-tail c s (digit_no_newline c y) g))
