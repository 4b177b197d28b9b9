-- ===== src/Scanner/Bodies.antt =====
-- src/comments_stripper.rs: the addition that carries comments against a scan of the lines.
use simd_toon_improved.Base.{
  ℕ, Bool, true, false, not, ◌&&◌, ◌||◌, List, [], ◌∷◌, Bytes, ◌≡◌, refl, arith, Bool-cases, inl,
  inr, sym, ap, ◌∙◌,
}
use mathlib.Core.Path.{ap₂}
use simd_toon_improved.Strings.Parse.{equals_mask}
use simd_toon_improved.Scanner.Masks.{
  not_bits, and_bits, xor_bits, zeros, is_zero, or_low, overflowing_add, add_carry, xor, carry_of,
}
use simd_toon_improved.Scanner.Comments.{bodies}
use simd_toon_improved.Scanner.Lines.{
  Line, indent, text, comment, Kind, newline, space, hash, other, kinds, is_comment, next_line,
  line_after, commented, opening, ends_line, mask_of, equals_mask-ends_line,
}

-- The second addition, from a carry that says whether a comment is open.
abbrev body_from : Line → List Kind → List Bool × Bool
body_from line ks = add_carry (is_comment line) (not_bits (mask_of ends_line ks)) (opening line ks)

abbrev start_bit : Line → Kind → Bool
start_bit line k = not (is_comment line) && is_comment (next_line line k)

each_kind :
    (f g : Kind → Bool)
    → f newline ≡ g newline
    → f space ≡ g space
    → f hash ≡ g hash
    → f other ≡ g other
    → (k : Kind) → f k ≡ g k
each_kind f g p q r s newline = p
each_kind f g p q r s space = q
each_kind f g p q r s hash = r
each_kind f g p q r s other = s

body_carry :
    (line : Line) (k : Kind)
    → carry_of (is_comment line) (not (ends_line k)) (start_bit line k)
      ≡ is_comment (next_line line k)
body_carry indent = each_kind _ _ refl refl refl refl
body_carry text = each_kind _ _ refl refl refl refl
body_carry comment = each_kind _ _ refl refl refl refl

body_bit :
    (line : Line) (k : Kind)
    → (xor (not (ends_line k)) (xor (is_comment line) (xor (not (ends_line k)) (start_bit line k)))
        && not (ends_line k))
      ≡ is_comment (next_line line k)
body_bit indent = each_kind _ _ refl refl refl refl
body_bit text = each_kind _ _ refl refl refl refl
body_bit comment = each_kind _ _ refl refl refl refl

abbrev blanked : List Bool → List Bool → List Bool
blanked newlines sum = and_bits (xor_bits (not_bits newlines) sum) (not_bits newlines)

body-comment :
    (line : Line) (ks : List Kind) → (body_from line ks).1 ≡ is_comment (line_after line ks)
unfolding line_after opening
body-comment line [] = refl
body-comment line (k ∷ ks) = rw (body_carry line k) (body-comment (next_line line k) ks)

body-commented :
    (line : Line) (ks : List Kind)
    → blanked (mask_of ends_line ks) (body_from line ks).0 ≡ commented line ks
unfolding commented opening
body-commented line [] = refl
body-commented line (k ∷ ks) =
    ap₂ (λ x y. x ∷ y) (body_bit line k)
      (rw (body_carry line k) (body-commented (next_line line k) ks))

-- A carry and a start are never both there, so that the carry can come in at the lowest bit.
low_carry :
    (line : Line) (k : Kind)
    → carry_of false (not (ends_line k)) (start_bit line k || is_comment line)
      ≡ is_comment (next_line line k)
low_carry indent = each_kind _ _ refl refl refl refl
low_carry text = each_kind _ _ refl refl refl refl
low_carry comment = each_kind _ _ refl refl refl refl

low_sum :
    (line : Line) (k : Kind)
    → xor false (xor (not (ends_line k)) (start_bit line k || is_comment line))
      ≡ xor (is_comment line) (xor (not (ends_line k)) (start_bit line k))
low_sum indent = each_kind _ _ refl refl refl refl
low_sum text = each_kind _ _ refl refl refl refl
low_sum comment = each_kind _ _ refl refl refl refl

low_start :
    (line : Line) (k : Kind) (ks : List Kind)
    → overflowing_add
        (not_bits (mask_of ends_line (k ∷ ks)))
        (or_low (is_comment line) (opening line (k ∷ ks)))
      ≡ body_from line (k ∷ ks)
unfolding opening
low_start line k ks = rw (low_carry line k, low_sum line k, body_carry line k) refl

no_start : (a b r : Bool) → (not (not a && b) && r) ≡ true → a ≡ false → (b ≡ false) × (r ≡ true)
no_start a b r z h = ground arith

-- Where nothing starts, no comment is read.
quiet_after :
    (line : Line) (ks : List Kind)
    → is_comment line ≡ false
    → is_zero (opening line ks) ≡ true
    → (is_comment (line_after line ks) ≡ false) × (commented line ks ≡ zeros (mask_of ends_line ks))
unfolding opening line_after commented
quiet_after line [] h z = (h, refl)
quiet_after line (k ∷ ks) h z =
    let next =
      no_start (is_comment line) (is_comment (next_line line k))
        (is_zero (opening (next_line line k) ks)) z h in
    let rest = quiet_after (next_line line k) ks next.0 next.1 in
    (rest.0, ap₂ (λ x y. x ∷ y) next.0 rest.1)

no_low : (a b r : Bool) → (not (a || b) && r) ≡ true → (b ≡ false) × ((not a && r) ≡ true)
no_low a b r z = ground arith

bodies_none :
    (newlines starts : List Bool)
    → is_zero starts ≡ true
    → bodies newlines starts ≡ (false, zeros newlines)
unfolding bodies
bodies_none newlines starts z = rw (bodies, z) refl

bodies_some :
    (newlines starts : List Bool)
    → is_zero starts ≡ false
    → bodies newlines starts ≡ (
      (overflowing_add (not_bits newlines) starts).1,
      blanked newlines (overflowing_add (not_bits newlines) starts).0,
    )
unfolding bodies
bodies_some newlines starts z = rw (bodies, z) refl

bodies_mask :
    (line : Line) (k : Kind) (ks : List Kind)
    → bodies (mask_of ends_line (k ∷ ks)) (or_low (is_comment line) (opening line (k ∷ ks)))
      ≡ (is_comment (line_after line (k ∷ ks)), commented line (k ∷ ks))
unfolding opening
bodies_mask line k ks =
    elim (Bool-cases (is_zero (or_low (is_comment line) (opening line (k ∷ ks))))) [
      | inl z ↦
          let none =
            no_low (start_bit line k) (is_comment line) (is_zero (opening (next_line line k) ks))
              z in
          let quiet = quiet_after line (k ∷ ks) none.0 none.1 in
          bodies_none _ _ z ∙ ap₂ (λ x y. (x, y)) (sym quiet.0) (sym quiet.1)
      | inr z ↦
          bodies_some _ _ z
          ∙ ap (λ t. (t.1, blanked (mask_of ends_line (k ∷ ks)) t.0)) (low_start line k ks)
          ∙ ap₂ (λ x y. (x, y)) (body-comment line (k ∷ ks)) (body-commented line (k ∷ ks))
    ]

pub bodies-commented :
    (line : Line) (b : ℕ) (v : Bytes)
    → bodies (equals_mask b'\n' (b ∷ v)) (or_low (is_comment line) (opening line (kinds (b ∷ v))))
      ≡ (is_comment (line_after line (kinds (b ∷ v))), commented line (kinds (b ∷ v)))
bodies-commented line b v = rw (equals_mask-ends_line (b ∷ v)) (bodies_mask line _ _)
