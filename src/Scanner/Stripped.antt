-- ===== src/Scanner/Stripped.antt =====
-- src/comments_stripper.rs: `strip_block` against the lines of its block.
use mathlib.Core.Path.{ap₂}
use simd_toon_improved.Base.{
  subst, ℕ, zero, suc, ◌+◌, Bool, true, false, ◌&&◌, ◌||◌, List, [], ◌∷◌, ◌++◌, Bytes, ◌==◌, take,
  drop, Bool-cases, inl, inr, ◌≡◌, refl, arith, sym, ap, ◌∙◌,
}
use simd_toon_improved.Strings.Parse.{equals_mask}
use simd_toon_improved.Scanner.Masks.{or_bits, zeros, is_zero, or_low}
use simd_toon_improved.Scanner.Comments.{
  CommentStripper, indents, bodies, highest, pop_newline, swallow_preceding_newline, swallow_all,
  blank_bytes, strip_block,
}
use simd_toon_improved.Scanner.Classes.{find_whitespace_structurals_hashes}
use simd_toon_improved.Scanner.Bytewise.{AreBytes, find_whitespace_structurals_hashes-bytewise}
use simd_toon_improved.Scanner.Lines.{
  Line, next_line, kind, kinds, is_indent, is_comment, line_after, commented, opening,
}
use simd_toon_improved.Scanner.Indents.{indents-opening}
use simd_toon_improved.Scanner.Bodies.{bodies-commented}

-- All bits of the first mask are set in the last, and what else is set there is set in the second.
pub data Adds : List Bool → List Bool → List Bool → Type 0 where
  none : Adds [] [] []
  bit :
      {x n y : Bool} {a newlines b : List Bool}
      → y ≡ (x || (y && n))
      → Adds a newlines b
      → Adds (x ∷ a) (n ∷ newlines) (y ∷ b)

Adds-zeros : (n : List Bool) → Adds (zeros n) n (zeros n)
Adds-zeros [] = none
Adds-zeros (x ∷ n) = bit refl (Adds-zeros n)

or_bit : (x n y z : Bool) → y ≡ (x || (y && n)) → z ≡ (z && n) → (y || z) ≡ (x || ((y || z) && n))
or_bit x n y z p q = ground arith

or_bits-Adds : {a n b m : List Bool} → Adds a n b → Adds (zeros n) n m → Adds a n (or_bits b m)
or_bits-Adds none none = none
or_bits-Adds (bit {x = x} {n = k} {y = y} p ps) (bit {y = z} q qs) =
    bit (or_bit x k y z p q) (or_bits-Adds ps qs)

and_self : (x : Bool) → x ≡ (x && x)
and_self true = refl
and_self false = refl

taken-Adds : (o : ℕ) (n : List Bool) → Adds (zeros n) n (take o n ++ zeros (drop o n))
taken-Adds zero n = Adds-zeros n
taken-Adds (suc o) [] = none
taken-Adds (suc o) (x ∷ n) = bit (and_self x) (taken-Adds o n)

highest-Adds : (o : ℕ) (n : List Bool) → Adds (zeros n) n (highest (take o n) ++ zeros (drop o n))
highest-Adds zero n = Adds-zeros n
highest-Adds (suc o) [] = none
highest-Adds (suc o) (x ∷ n) = elim (Bool-cases (is_zero (take o n))) [
  | inl z ↦ rw z (bit (and_self x) (taken-Adds o n))
  | inr z ↦ rw z (bit refl (highest-Adds o n))
]

-- The flags of a stripper.
abbrev pub HasFlags : CommentStripper → Bool → Bool → Type 0
HasFlags c i k = (c.inside_indent ≡ i) × (c.inside_comment ≡ k)

-- What a newline taken back leaves: a mask of newlines, and the flags.
abbrev Keeps : List Bool → List Bool → Bool → Bool → List Bool × (CommentStripper × List ℕ) → Type 0
Keeps a newlines i k r = Adds a newlines r.0 × HasFlags r.1.0 i k

pop_newline-flags :
    (c : CommentStripper) (newline : ℕ) (indexes : List ℕ)
    → HasFlags (pop_newline c newline indexes).0 c.inside_indent c.inside_comment
unfolding pop_newline
pop_newline-flags c newline [] = (refl, refl)
pop_newline-flags c newline (last ∷ indexes) = ground arith

swallow-Keeps :
    (c : CommentStripper) (idx opener : ℕ) (newlines : List Bool) (indexes : List ℕ)
    → Keeps
        (zeros newlines)
        newlines
        c.inside_indent
        c.inside_comment
        (swallow_preceding_newline c idx opener newlines indexes)
unfolding swallow_preceding_newline
swallow-Keeps c idx opener newlines indexes = elim (Bool-cases (is_zero (take opener newlines))) [
  | inl z ↦ elim (Bool-cases (idx + opener == 0)) [
    | inl e ↦ rw (z, e) (Adds-zeros newlines, (refl, refl))
    | inr e ↦ rw (z, e) (Adds-zeros newlines, pop_newline-flags c _ indexes)
  ]
  | inr z ↦ rw z (highest-Adds opener newlines, (refl, refl))
]

swallow_all-Keeps :
    (c : CommentStripper) (idx : ℕ) (openers : List ℕ) (a newlines blank : List Bool)
    (indexes : List ℕ) (i k : Bool)
    → HasFlags c i k
    → Adds a newlines blank
    → Keeps a newlines i k (swallow_all c idx openers newlines blank indexes)
unfolding swallow_all
swallow_all-Keeps c idx [] a newlines blank indexes i k f h = (h, f)
swallow_all-Keeps c idx (opener ∷ openers) a newlines blank indexes i k f h =
    let one = swallow-Keeps c idx opener newlines indexes in
    let s = swallow_preceding_newline c idx opener newlines indexes in
    swallow_all-Keeps s.1.0 idx openers a newlines (or_bits blank s.0) s.1.1 i k
      (one.1.0 ∙ f.0, one.1.1 ∙ f.1) (or_bits-Adds h one.0)

-- What a block of bytes leaves, from a line on: the flags of the line behind it, and a mask of all
-- bytes of comments and, besides them, of newlines.
unfoldable pub Reads : Line → Bytes → List Bool × (CommentStripper × List ℕ) → Type 0
Reads line v r =
    Keeps (commented line (kinds v)) (equals_mask b'\n' v) (is_indent (line_after line (kinds v)))
      (is_comment (line_after line (kinds v))) r

or_self : (x n : Bool) → x ≡ (x || (x && n))
or_self true n = refl
or_self false n = refl

commented-Adds :
    (v : Bytes) (line : Line)
    → Adds (commented line (kinds v)) (equals_mask b'\n' v) (commented line (kinds v))
unfolding commented
commented-Adds [] line = none
commented-Adds (b ∷ v) line = bit (or_self _ _) (commented-Adds v (next_line line (kind b)))

strip_masks-Reads :
    (c : CommentStripper) (line : Line) (idx b : ℕ) (v : Bytes) (indexes : List ℕ)
    → HasFlags c (is_indent line) (is_comment line)
    → Reads line (b ∷ v) (
        strip_block c idx
          (equals_mask b'\n' (b ∷ v))
          (equals_mask b' ' (b ∷ v))
          (equals_mask b'#' (b ∷ v))
          indexes)
unfolding strip_block blank_bytes Reads
strip_masks-Reads c line idx b v indexes f =
    swallow_all-Keeps _ idx _ _ _ _ indexes _ _ (ap (λ t. t.0) opened, ap (λ t. t.0) body)
      (subst (Adds (commented line (kinds (b ∷ v))) (equals_mask b'\n' (b ∷ v)))
        (sym (ap (λ t. t.1) body)) (commented-Adds (b ∷ v) line))
  where
    opened :
        indents c.inside_indent
          (equals_mask b'\n' (b ∷ v))
          (equals_mask b' ' (b ∷ v))
          (equals_mask b'#' (b ∷ v))
        ≡ (is_indent (line_after line (kinds (b ∷ v))), opening line (kinds (b ∷ v)))
    opened =
        ap
          (λ t.
            indents t (equals_mask b'\n' (b ∷ v)) (equals_mask b' ' (b ∷ v))
              (equals_mask b'#' (b ∷ v)))
          f.0
        ∙ indents-opening line b v

    body :
        bodies (equals_mask b'\n' (b ∷ v)) (
          or_low c.inside_comment
            (indents c.inside_indent
              (equals_mask b'\n' (b ∷ v))
              (equals_mask b' ' (b ∷ v))
              (equals_mask b'#' (b ∷ v))).1)
        ≡ (is_comment (line_after line (kinds (b ∷ v))), commented line (kinds (b ∷ v)))
    body =
        ap₂ (λ t s. bodies (equals_mask b'\n' (b ∷ v)) (or_low t s)) f.1 (ap (λ t. t.1) opened)
        ∙ bodies-commented line b v

-- From a stripper whose two carries say where a line is read to, strip_block on the masks of a
-- block, whose bytes are less than 256, leaves the carries of the line behind the block, and the
-- mask that it returns has all bytes of the block's comments and, besides them, newlines only, as
-- a scan of the lines byte by byte tells them.
pub strip_block-Reads :
    (c : CommentStripper) (line : Line) (idx b : ℕ) (v : Bytes) (indexes : List ℕ)
    → AreBytes (b ∷ v)
    → HasFlags c (is_indent line) (is_comment line)
    → Reads line (b ∷ v) (
        strip_block c idx
          (find_whitespace_structurals_hashes (b ∷ v)).newlines
          (find_whitespace_structurals_hashes (b ∷ v)).whitespace
          (find_whitespace_structurals_hashes (b ∷ v)).hashes
          indexes)
strip_block-Reads c line idx b v indexes l f =
    subst (λ m. Reads line (b ∷ v) (strip_block c idx m.newlines m.whitespace m.hashes indexes))
      (sym (find_whitespace_structurals_hashes-bytewise (b ∷ v) l))
      (strip_masks-Reads c line idx b v indexes f)
