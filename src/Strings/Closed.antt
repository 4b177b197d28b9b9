-- ===== src/Strings/Closed.antt =====
-- src/impls/avx2/deser.rs and src/stringparse.rs: a string whose closing quotes are there.
use Prim.Native.Nat.{bit_or}
use simd_toon_improved.Base.{
  ℕ, zero, suc, ◌+◌, ◌-◌, ◌/◌, ◌^◌, ◌≤◌, Bool, true, false, not, ◌&&◌, Option, none, some, [], ◌∷◌,
  ◌++◌, Bytes, length, length-append, get_elem?, drop, leb, leb→le, ltb, ◌==◌, if◌then◌else◌,
  Bool-cases, Option-cases, inl, inr, ◌⊎◌, ◌≡◌, refl, sym, ◌∙◌, subst, arith,
}
use simd_toon_improved.Base.Bits.{ge-bit_or}
use simd_toon_improved.Error.{Result, ok, err, fault, out_of_fuel, generic, invalid_utf8}
use simd_toon_improved.Stage2.Machine.{and_then}
use simd_toon_improved.Strings.Chars.{
  hex_to_u32_nocheck, byte_of, combine, shift_left, codepoint_to_utf8,
}
use simd_toon_improved.Strings.Hex.{hex_digit, hex_value}
use simd_toon_improved.Strings.Escape.{is_high, is_low, first_unit, join_units, second_unit}
use simd_toon_improved.Strings.Surrogates.{
  Digits, unit_of, combine-none, first_unit_huge, codepoint_to_utf8_huge,
}
use simd_toon_improved.Strings.Parse.{Found, quote, backslash, neither}
use simd_toon_improved.Strings.Windows.{seek}

-- Whether quotes close the text, where the byte behind a backslash is skipped.
unfoldable pub closes : Bool → Bytes → Bool
closes skip [] = false
closes true (b ∷ s) = closes false s
closes false (b ∷ s) = if b == b'"' then true else closes (b == b'\\') s

-- The same, with 31 bytes behind the quotes.
unfoldable pub is_closed : Bool → Bytes → Bool
is_closed skip [] = false
is_closed true (b ∷ s) = is_closed false s
is_closed false (b ∷ s) = if b == b'"' then leb 31 (length s) else is_closed (b == b'\\') s

pub is_closed-append :
    (skip : Bool) (s p : Bytes)
    → closes skip s ≡ true
    → 31 ≤ length p
    → is_closed skip (s ++ p) ≡ true
unfolding closes is_closed
is_closed-append skip [] p h l = cc
is_closed-append true (b ∷ s) p h l = is_closed-append false s p h l
is_closed-append false (b ∷ s) p h l = elim (Bool-cases (b == b'"')) [
  | inl y ↦ rw y (ground (arith, length-append s p))
  | inr n ↦ rw n (is_closed-append (b == b'\\') s p (ground arith) l)
]

pub drop-closes :
    (n : ℕ) (s p : Bytes) → closes false (drop n s) ≡ true → drop n (s ++ p) ≡ drop n s ++ p
unfolding closes
drop-closes zero s p h = refl
drop-closes (suc n) [] p h = cc
drop-closes (suc n) (b ∷ s) p h = drop-closes n s p h

is_closed-length : (skip : Bool) (s : Bytes) → is_closed skip s ≡ true → 32 ≤ length s
unfolding is_closed
is_closed-length skip [] h = cc
is_closed-length true (b ∷ s) h = omega (arith, is_closed-length false s h)
is_closed-length false (b ∷ s) h = elim (Bool-cases (b == b'"')) [
  | inl y ↦ omega (arith, leb→le 31 (length s) (ground arith))
  | inr n ↦ omega (arith, is_closed-length (b == b'\\') s (ground arith))
]

-- What the search finds in such a text.
abbrev pub Finds : Bytes → Found → Type 0
Finds s (quote d) = Unit
Finds s (backslash d) =
    (is_closed true (drop (suc d) s) ≡ true) × (is_closed false (drop d s) ≡ true)
Finds s neither = ⊥

pub seek-Finds : (s : Bytes) → is_closed false s ≡ true → Finds s (seek s)
unfolding is_closed seek
seek-Finds [] h = cc
seek-Finds (b ∷ s) h = elim (Bool-cases (b == b'"')) [
  | inl y ↦ rw y tt
  | inr n ↦ elim (Bool-cases (b == b'\\')) [
    | inl y ↦ rw (n, y) (here n y, h)
    | inr n' ↦ rw (n, n') (farther_on (seek s) (seek-Finds s (ground arith)))
  ]
]
  where
    here : (b == b'"') ≡ false → (b == b'\\') ≡ true → is_closed true s ≡ true
    here n y = ground arith

    farther_on :
        (f : Found)
        → Finds s f
        → Finds (b ∷ s) (elim f [
          | quote d ↦ quote (suc d)
          | backslash d ↦ backslash (suc d)
          | neither ↦ neither
        ])
    farther_on (quote d) k = tt
    farther_on (backslash d) k = k
    farther_on neither k = k

-- A byte that is neither quotes nor a backslash is passed.
abbrev is_plain : ℕ → Bool
is_plain b = not (b == b'"') && not (b == b'\\')

is_closed_plain :
    (b : ℕ) (s : Bytes) → is_plain b ≡ true → is_closed false (b ∷ s) ≡ is_closed false s
unfolding is_closed
is_closed_plain b s h = rw (quotes, other) refl
  where
    quotes : (b == b'"') ≡ false
    quotes = ground arith

    other : (b == b'\\') ≡ false
    other = ground arith

hex_digit_plain : (b : ℕ) {v : ℕ} → hex_digit b ≡ some v → is_plain b ≡ true
hex_digit_plain b h = ground arith

-- Four digits that have a value are plain.
plain_digits :
    (a b c d : Option ℕ) {n : ℕ}
    → hex_value a b c d ≡ some n
    → ((v : ℕ) × (a ≡ some v))
      × ((v : ℕ) × (b ≡ some v))
      × ((v : ℕ) × (c ≡ some v))
      × ((v : ℕ) × (d ≡ some v))
unfolding hex_value
plain_digits (some a) (some b) (some c) (some d) h = ((a, refl), (b, refl), (c, refl), (d, refl))
plain_digits none b c d h = cc
plain_digits (some a) none c d h = cc
plain_digits (some a) (some b) none d h = cc
plain_digits (some a) (some b) (some c) none h = cc

is_closed_unit :
    (u : Digits) (s : Bytes) {n : ℕ}
    → unit_of u ≡ some n
    → is_closed false (u.d1 ∷ u.d2 ∷ u.d3 ∷ u.d4 ∷ s) ≡ is_closed false s
is_closed_unit u s h =
    let (a, b, c, d) =
      plain_digits (hex_digit u.d1) (hex_digit u.d2) (hex_digit u.d3) (hex_digit u.d4) h in
    is_closed_plain u.d1 _ (hex_digit_plain u.d1 a.1)
    ∙ is_closed_plain u.d2 _ (hex_digit_plain u.d2 b.1)
    ∙ is_closed_plain u.d3 _ (hex_digit_plain u.d3 c.1)
    ∙ is_closed_plain u.d4 _ (hex_digit_plain u.d4 d.1)

-- Behind what an escape takes, counted from the byte behind its `u`, the text is closed; or the escape
-- writes nothing, which is an error.
abbrev pub Goes : Bytes → Result (ℕ × ℕ) → Type 0
Goes s (ok (cp, taken)) =
    (codepoint_to_utf8 cp ≡ [])
    ⊎ ((taken ≡ 6) × (is_closed false (drop 4 s) ≡ true))
    ⊎ ((taken ≡ 12) × (is_closed false (drop 10 s) ≡ true))
Goes s (err e) = Unit
Goes s fault = ⊥
Goes s out_of_fuel = ⊥

abbrev digits_of : ℕ → ℕ → ℕ → ℕ → Digits
digits_of a b c d = record { d1 = a; d2 = b; d3 = c; d4 = d }

abbrev behind_unit : Digits → Bytes → Bytes
behind_unit u r = u.d1 ∷ u.d2 ∷ u.d3 ∷ u.d4 ∷ r

abbrev number_of : Digits → ℕ
number_of u = combine u.d1 u.d2 u.d3 u.d4

-- The second of two units, which is joined only where it is one.
joined-Goes :
    (u v : Digits) (n : ℕ) (r : Bytes)
    → is_closed false (b'\\' ∷ b'u' ∷ behind_unit v r) ≡ true
    → Goes (behind_unit u (b'\\' ∷ b'u' ∷ behind_unit v r)) (join_units n (number_of v))
unfolding is_closed join_units
joined-Goes u v n r h = elim (Bool-cases (bit_or n (number_of v) / 2 ^ 16 == 0)) [
  | inr f ↦ rw (join_units, f) (inr (inl (refl, h)))
  | inl y ↦ elim (Option-cases (unit_of v)) [
    | inl e ↦ absurd (omega (arith, combine-none v e, ge-bit_or n (number_of v), low_bits y))
    | inr (m, e) ↦ rw (join_units, y) (checked (sym (is_closed_unit v r e) ∙ h))
  ]
]
  where
    low_bits : (bit_or n (number_of v) / 2 ^ 16 == 0) ≡ true → bit_or n (number_of v) / 2 ^ 16 ≡ 0
    low_bits y = ground arith

    checked :
        is_closed false r ≡ true
        → Goes (behind_unit u (b'\\' ∷ b'u' ∷ behind_unit v r)) (
            if ltb n 0xd800
            then err (generic invalid_utf8)
            else if ltb (number_of v) 0xdc00
            then err (generic invalid_utf8)
            else ok (bit_or (shift_left (n - 0xd800) 10) (number_of v - 0xdc00) + 0x10000, 12))
    checked c = elim (Bool-cases (ltb n 0xd800)) [
      | inl y ↦ rw y tt
      | inr f ↦ elim (Bool-cases (ltb (number_of v) 0xdc00)) [
        | inl y ↦ rw (f, y) tt
        | inr f' ↦ rw (f, f') (inr (inr (refl, c)))
      ]
    ]

-- Behind a backslash.
backslash-Goes :
    (u v : Digits) (n b : ℕ) (r : Bytes)
    → is_closed false (b'\\' ∷ b ∷ behind_unit v r) ≡ true
    → Goes
        (behind_unit u (b'\\' ∷ b ∷ behind_unit v r))
        (second_unit n (b'\\' ∷ b ∷ behind_unit v r))
unfolding second_unit hex_to_u32_nocheck
backslash-Goes u v n b r h = elim (Bool-cases (b == b'u')) [
  | inr f ↦ rw (Goes, second_unit, byte_of, get_elem?, f) (inr (inl (refl, h)))
  | inl y ↦
      subst
        (λ c.
          is_closed false (b'\\' ∷ c ∷ behind_unit v r) ≡ true
          → Goes (behind_unit u (b'\\' ∷ c ∷ behind_unit v r))
              (second_unit n (b'\\' ∷ c ∷ behind_unit v r)))
        (is_u b y) (joined-Goes u v n r) h
]
  where
    is_u : (b : ℕ) → (b == b'u') ≡ true → b'u' ≡ b
    is_u b y = ground arith

-- What stands behind a high surrogate, which is enough to be read.
second-Goes :
    (u : Digits) (n : ℕ) (r : Bytes)
    → is_closed false r ≡ true
    → 10 ≤ length r
    → Goes (behind_unit u r) (second_unit n r)
unfolding second_unit
second-Goes u n (a ∷ b ∷ v1 ∷ v2 ∷ v3 ∷ v4 ∷ r) h l = elim (Bool-cases (a == b'\\')) [
  | inr f ↦ rw (Goes, second_unit, byte_of, get_elem?, f) (inr (inl (refl, h)))
  | inl y ↦
      subst
        (λ c.
          is_closed false (c ∷ b ∷ v1 ∷ v2 ∷ v3 ∷ v4 ∷ r) ≡ true
          → Goes (behind_unit u (c ∷ b ∷ v1 ∷ v2 ∷ v3 ∷ v4 ∷ r))
              (second_unit n (c ∷ b ∷ v1 ∷ v2 ∷ v3 ∷ v4 ∷ r)))
        (is_backslash a y) (backslash-Goes u (digits_of v1 v2 v3 v4) n b r) h
]
  where
    is_backslash : (a : ℕ) → (a == b'\\') ≡ true → b'\\' ≡ a
    is_backslash a y = ground arith
second-Goes u n [] h l = absurd (omega arith)
second-Goes u n (_ ∷ []) h l = absurd (omega arith)
second-Goes u n (_ ∷ _ ∷ []) h l = absurd (omega arith)
second-Goes u n (_ ∷ _ ∷ _ ∷ []) h l = absurd (omega arith)
second-Goes u n (_ ∷ _ ∷ _ ∷ _ ∷ []) h l = absurd (omega arith)
second-Goes u n (_ ∷ _ ∷ _ ∷ _ ∷ _ ∷ []) h l = absurd (omega arith)

first-Goes :
    (u : Digits) (r : Bytes)
    → is_closed false (behind_unit u r) ≡ true
    → Goes (behind_unit u r) (first_unit (number_of u) r)
unfolding first_unit
first-Goes u r h = elim (Option-cases (unit_of u)) [
  | inl e ↦
      rw (first_unit_huge (number_of u) r (combine-none u e))
        (inl (codepoint_to_utf8_huge (number_of u) (combine-none u e)))
  | inr (n, e) ↦ valid (sym (is_closed_unit u r e) ∙ h)
]
  where
    valid : is_closed false r ≡ true → Goes (behind_unit u r) (first_unit (number_of u) r)
    valid c = elim (Bool-cases (is_high (number_of u))) [
      | inl y ↦
          rw (first_unit, y)
            (second-Goes u (number_of u) r c (omega (arith, is_closed-length false r c)))
      | inr f ↦ elim (Bool-cases (is_low (number_of u))) [
        | inl y ↦ rw (first_unit, f, y) tt
        | inr f' ↦ rw (first_unit, f, f') (inr (inl (refl, c)))
      ]
    ]

pub units-Goes :
    (s : Bytes)
    → is_closed false s ≡ true
    → Goes s (and_then (hex_to_u32_nocheck s) λ n. first_unit n (drop 4 s))
unfolding hex_to_u32_nocheck
units-Goes (a ∷ b ∷ c ∷ d ∷ r) h = first-Goes (digits_of a b c d) r h
units-Goes [] h = absurd (omega (arith, is_closed-length false [] h))
units-Goes (a ∷ []) h = absurd (omega (arith, is_closed-length false (a ∷ []) h))
units-Goes (a ∷ b ∷ []) h = absurd (omega (arith, is_closed-length false (a ∷ b ∷ []) h))
units-Goes (a ∷ b ∷ c ∷ []) h = absurd (omega (arith, is_closed-length false (a ∷ b ∷ c ∷ []) h))
