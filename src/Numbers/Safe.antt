-- ===== src/Numbers/Safe.antt =====
-- src/numberparse/correct.rs: `try_parse_number` on a padded buffer.
use simd_toon_improved.Base.{
  ℕ, ◌+◌, ◌-◌, ◌%◌, ◌^◌, Bool, true, not, [], ◌∷◌, ◌++◌, Bytes, length, take, leb, ◌==◌, Bool-cases,
  inl, inr, ◌≡◌, refl, sym, ap, subst, subst₂, ◌∙◌, arith,
}
use simd_toon_improved.Error.{Result, ok, err, fault, out_of_fuel}
use simd_toon_improved.Tape.{StaticNode}
use simd_toon_improved.Stage2.Machine.{and_then}
use simd_toon_improved.Strings.Chars.{byte_of}
use simd_toon_improved.Views.Slices.{sub_slice, sub_slice-append, drop-append, take-append}
use simd_toon_improved.Scanner.Bytewise.{AreBytes}
use simd_toon_improved.Numbers.Range.{Settled, then-Settled, slow-Settled, f64_from_parts-Settled}
use simd_toon_improved.Numbers.Spelled.{sign}
use simd_toon_improved.Numbers.Integers.{drop-sign}
use simd_toon_improved.Numbers.Stages.{
  IsGuarded, Took, IsGuarded-tail, digit_no_newline, Took-append,
}
use simd_toon_improved.Numbers.Points.{
  itself, as_given, IsFraction, IsExponent, Gives, of_decimal, fraction_part-Gives,
  exponent_part-Gives,
}
use simd_toon_improved.Numbers.Grammar.{IsNumber, parse_f64-number}
use simd_toon_improved.Numbers.Parse.{
  Cursor, Decimal, behind_sign, large_part, parse_large_integer, float_node, node_of,
  try_parse_number,
}
use simd_toon_improved.Numbers.Leads.{
  zeros-Settled, Leaves, large_part-Leaves, large_node-Settled, IsSigned, signed_part-Takes,
  StartsDigit, parsed_first, guarded_first, IsMantissa, number_of, first_digit,
}

-- A value for a number of the grammar, or an error.
abbrev pub Refuses : (Bytes → Type 0) → Bytes → Result StaticNode → Type 0
Refuses P token (ok v) = P token
Refuses P token (err e) = Unit
Refuses P token fault = ⊥
Refuses P token out_of_fuel = ⊥

Settled-Refuses :
    (P : Bytes → Type 0) (token : Bytes) (r : Result StaticNode)
    → P token
    → Settled r
    → Refuses P token r
Settled-Refuses P token (ok v) p h = p
Settled-Refuses P token (err e) p h = tt
Settled-Refuses P token fault p h = absurd h
Settled-Refuses P token out_of_fuel p h = absurd h

Refuses-then :
    {A : Type 0} (cursor_of : A → Cursor) (P Q : Bytes → Type 0) (idx : ℕ) (s token : Bytes)
    (r : Result A) (f : A → Result StaticNode)
    → Gives cursor_of P idx s r
    → ((a : A) → Took P idx s (cursor_of a).idx (cursor_of a).rest → Refuses Q token (f a))
    → Refuses Q token (and_then r f)
Refuses-then cursor_of P Q idx s token (ok a) f t k = k a t
Refuses-then cursor_of P Q idx s token (err e) f t k = tt
Refuses-then cursor_of P Q idx s token fault f t k = absurd t
Refuses-then cursor_of P Q idx s token out_of_fuel f t k = absurd t

module _ (negative : Bool) (pre s : Bytes) (g : IsGuarded s) (a : AreBytes s) where
  abbrev buffer : Bytes
  buffer = pre ++ (sign negative ++ s)

  integer-Settled : StartsDigit s → Settled (parse_large_integer (length pre) buffer negative)
  unfolding parse_large_integer
  integer-Settled h =
      rw (parse_large_integer, drop-sign negative pre s)
        (large_node-Settled negative _ (part s g h))
    where
      part :
          (s : Bytes)
          → IsGuarded s
          → StartsDigit s
          → Leaves (large_part (behind_sign negative (length pre)) s)
      part [] g h = absurd g
      part (c ∷ s) g h = large_part-Leaves c s _ (IsGuarded-tail c s (digit_no_newline c h) g)

  float-Settled :
      (end digit_count : ℕ) (d : Decimal) (text : Bytes)
      → sub_slice buffer (length pre) end ≡ ok text
      → IsNumber negative text
      → Settled (float_node (length pre) end buffer negative digit_count d)
  unfolding float_node
  float-Settled end digit_count d text token_slice p =
      let (v, v_eq) = parse_f64-number p in
      let (c, c_eq) = parsed_first text v v_eq in
      let parts =
        f64_from_parts-Settled text (length pre) v c v_eq c_eq (not negative) d.cursor.num
          (d.exponent % 2 ^ 32) (omega arith) in
      let slow = slow-Settled text (length pre) v c v_eq c_eq in
      elim (Bool-cases (leb 19 digit_count)) [
        | inr n ↦ rw (float_node, n, token_slice) parts
        | inl y ↦
            rw (float_node, y, drop-sign negative pre s)
              (then-Settled _ _ (zeros-Settled s g) λ n.
                elim (Bool-cases (leb 19 ((digit_count + 2 ^ 64 - n) % 2 ^ 64))) [
                  | inl z ↦ rw (z, token_slice) slow
                  | inr z ↦ rw (z, token_slice) parts
                ])
      ]

  node-Refuses :
      (end digit_count : ℕ) (d : Decimal)
      → StartsDigit s
      → Took (IsNumber negative) (length pre) (sign negative ++ s) d.cursor.idx d.cursor.rest
      → Refuses
          (IsNumber negative)
          (take (end - length pre) (sign negative ++ s))
          (node_of (length pre) end buffer negative digit_count d)
  unfolding node_of
  node-Refuses end digit_count d h t = elim (Bool-cases (d.cursor.idx == end)) [
    | inr n ↦
        let (b, b_eq) = guarded_first d.cursor.rest t.guarded in rw (node_of, n, byte_of, b_eq) tt
    | inl y ↦
        rw (node_of, y)
          (Settled-Refuses (IsNumber negative) _ _
            (subst (IsNumber negative) (sym (token y)) t.form)
            (elim (Bool-cases d.is_float) [
              | inl f ↦ rw f (float-Settled end digit_count d t.text (token_slice y) t.form)
              | inr f ↦ elim (Bool-cases (leb 18 digit_count)) [
                | inl l ↦ rw (f, l) (integer-Settled h)
                | inr l ↦ rw (f, l) tt
              ]
            ]))
  ]
    where
      ends : (d.cursor.idx == end) ≡ true → length pre + length t.text ≡ end
      ends y = ground (arith, t.counted)

      token_slice : (d.cursor.idx == end) ≡ true → sub_slice buffer (length pre) end ≡ ok t.text
      token_slice y =
          subst₂ (λ b n. sub_slice (pre ++ b) (length pre) n ≡ ok t.text) (sym t.split) (ends y)
            (sub_slice-append pre t.text d.cursor.rest)

      token : (d.cursor.idx == end) ≡ true → take (end - length pre) (sign negative ++ s) ≡ t.text
      token y =
          ap (λ b. take (end - length pre) b) t.split
          ∙ ap (λ n. take n (t.text ++ d.cursor.rest)) (omega (arith, ends y))
          ∙ take-append t.text d.cursor.rest

  -- A read of a number stays in a buffer that is guarded.
  pub try_parse_number-Refuses :
      (end : ℕ)
      → Refuses
          (IsNumber negative)
          (take (end - length pre) (sign negative ++ s))
          (try_parse_number buffer (length pre) end negative)
  unfolding try_parse_number
  try_parse_number-Refuses end =
      rw (try_parse_number, drop-append pre (sign negative ++ s))
        (Refuses-then itself (IsSigned negative) (IsNumber negative) (length pre)
          (sign negative ++ s) _ _ _
          (as_given (IsSigned negative) (length pre) (sign negative ++ s) _
            (signed_part-Takes negative s (length pre) g a))
          λ c t.
            Refuses-then of_decimal IsFraction (IsNumber negative) c.idx c.rest _ _ _
              (fraction_part-Gives c.rest c.num c.idx t.guarded t.bytes)
              λ f u.
                Refuses-then of_decimal IsExponent (IsNumber negative) f.cursor.idx f.cursor.rest _
                  _ _
                  (exponent_part-Gives f.cursor.rest f.is_float f.exponent f.cursor.num f.cursor.idx
                    u.guarded u.bytes)
                  λ d v.
                    node-Refuses end _ d
                      (first_digit negative s t.form.0 c.rest t.form.1.0
                        (t.split ∙ ap (λ x. x ++ c.rest) t.form.1.1))
                      (Took-append (number_of negative)
                        (Took-append {R = IsMantissa negative} (λ a b p q. (a, (b, (p, (q, refl)))))
                          t u)
                        v))
