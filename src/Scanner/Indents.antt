-- ===== src/Scanner/Indents.antt =====
-- src/comments_stripper.rs: the addition that carries indentations against a scan of the lines.
use simd_toon_improved.Base.{
  ℕ, Bool, true, false, not, ◌&&◌, ◌||◌, List, [], ◌∷◌, Bytes, ◌≡◌, refl, sym, ap, ◌∙◌,
}
use mathlib.Core.Path.{ap₂}
use simd_toon_improved.Strings.Parse.{equals_mask}
use simd_toon_improved.Scanner.Masks.{
  not_bits, and_bits, shift_in, top_bit, add_carry, xor, carry_of,
}
use simd_toon_improved.Scanner.Comments.{indents}
use simd_toon_improved.Scanner.Lines.{
  Line, indent, text, comment, Kind, newline, space, hash, other, kinds, is_indent, is_comment,
  next_line, line_after, opening, ends_line, is_space, is_hash, mask_of, equals_mask-ends_line,
  equals_mask-is_space, equals_mask-is_hash,
}

-- `newlines >> 63`, or the bit shifted in where there is no byte.
abbrev last_or : Bool → List Bool → Bool
last_or low [] = low
last_or low (x ∷ a) = last_or x a

last_or-top_bit : (low x : Bool) (a : List Bool) → last_or low (x ∷ a) ≡ top_bit (x ∷ a)
last_or-top_bit low x [] = refl
last_or-top_bit low x (y ∷ a) = last_or-top_bit x y a

-- An indentation runs on as a bit shifted in or as a carry, never both.
data Carries : Line → Bool → Bool → Type 0 where
  shifted : Carries indent true false
  carried : Carries indent false true
  in_text : Carries text false false
  in_comment : Carries comment false false

Carries-next_line :
    {line : Line} {low c : Bool}
    → Carries line low c
    → (k : Kind) → Carries (next_line line k) (ends_line k) (carry_of c (is_space k) low)
Carries-next_line shifted newline = shifted
Carries-next_line shifted space = carried
Carries-next_line shifted hash = in_comment
Carries-next_line shifted other = in_text
Carries-next_line carried newline = shifted
Carries-next_line carried space = carried
Carries-next_line carried hash = in_comment
Carries-next_line carried other = in_text
Carries-next_line in_text newline = shifted
Carries-next_line in_text space = in_text
Carries-next_line in_text hash = in_text
Carries-next_line in_text other = in_text
Carries-next_line in_comment newline = shifted
Carries-next_line in_comment space = in_comment
Carries-next_line in_comment hash = in_comment
Carries-next_line in_comment other = in_comment

abbrev open_bit : Bool → Bool → Kind → Bool
open_bit low c k = (xor c (xor (is_space k) low) && not (is_space k)) && is_hash k

opens :
    {line : Line} {low c : Bool}
    → Carries line low c
    → (k : Kind) → open_bit low c k ≡ (not (is_comment line) && is_comment (next_line line k))
opens shifted newline = refl
opens shifted space = refl
opens shifted hash = refl
opens shifted other = refl
opens carried newline = refl
opens carried space = refl
opens carried hash = refl
opens carried other = refl
opens in_text newline = refl
opens in_text space = refl
opens in_text hash = refl
opens in_text other = refl
opens in_comment newline = refl
opens in_comment space = refl
opens in_comment hash = refl
opens in_comment other = refl

abbrev sum_from : Bool → Bool → List Kind → List Bool × Bool
sum_from low c ks = add_carry c (mask_of is_space ks) (shift_in low (mask_of ends_line ks))

spills : {line : Line} {low c : Bool} → Carries line low c → (c || low) ≡ is_indent line
spills shifted = refl
spills carried = refl
spills in_text = refl
spills in_comment = refl

sum-indent :
    (line : Line) (low c : Bool) (ks : List Kind)
    → Carries line low c
    → ((sum_from low c ks).1 || last_or low (mask_of ends_line ks)) ≡ is_indent (line_after line ks)
unfolding line_after
sum-indent line low c [] h = spills h
sum-indent line low c (k ∷ ks) h =
    sum-indent (next_line line k) (ends_line k) (carry_of c (is_space k) low) ks
      (Carries-next_line h k)

sum-opening :
    (line : Line) (low c : Bool) (ks : List Kind)
    → Carries line low c
    → and_bits
        (and_bits (sum_from low c ks).0 (not_bits (mask_of is_space ks)))
        (mask_of is_hash ks)
      ≡ opening line ks
unfolding opening
sum-opening line low c [] h = refl
sum-opening line low c (k ∷ ks) h =
    ap₂ (λ x y. x ∷ y) (opens h k)
      (sum-opening (next_line line k) (ends_line k) (carry_of c (is_space k) low) ks
        (Carries-next_line h k))

indents_mask :
    (line : Line) (k : Kind) (ks : List Kind)
    → indents
        (is_indent line)
        (mask_of ends_line (k ∷ ks))
        (mask_of is_space (k ∷ ks))
        (mask_of is_hash (k ∷ ks))
      ≡ (is_indent (line_after line (k ∷ ks)), opening line (k ∷ ks))
unfolding indents
indents_mask line k ks =
    ap₂ (λ x y. (x, y))
      (ap (λ t. (sum_from (is_indent line) false (k ∷ ks)).1 || t)
          (sym (last_or-top_bit (is_indent line) (ends_line k) (mask_of ends_line ks)))
        ∙ sum-indent line (is_indent line) false (k ∷ ks) (at_start line))
      (sum-opening line (is_indent line) false (k ∷ ks) (at_start line))
  where
    at_start : (line : Line) → Carries line (is_indent line) false
    at_start indent = shifted
    at_start text = in_text
    at_start comment = in_comment

pub indents-opening :
    (line : Line) (b : ℕ) (v : Bytes)
    → indents
        (is_indent line)
        (equals_mask b'\n' (b ∷ v))
        (equals_mask b' ' (b ∷ v))
        (equals_mask b'#' (b ∷ v))
      ≡ (is_indent (line_after line (kinds (b ∷ v))), opening line (kinds (b ∷ v)))
indents-opening line b v =
    rw (equals_mask-ends_line (b ∷ v), equals_mask-is_space (b ∷ v), equals_mask-is_hash (b ∷ v))
      (indents_mask line _ _)
