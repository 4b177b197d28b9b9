-- ===== src/Scanner/Lines.antt =====
-- src/comments_stripper.rs: what a comment is, byte by byte, to compare the masks with.
use simd_toon_improved.Base.{
  ℕ, Bool, true, false, not, ◌&&◌, List, [], ◌∷◌, Bytes, ◌==◌, if◌then◌else◌, ◌≡◌, refl, arith,
}
use mathlib.Core.Path.{ap₂}
use simd_toon_improved.Strings.Parse.{equals_mask}

-- Where a line is read to: nothing but spaces yet, in its text, or in a comment.
pub data Line : Type 0 where
  indent text comment : Line

pub data Kind : Type 0 where
  newline space hash other : Kind

unfoldable pub kind : ℕ → Kind
kind b =
    if b == b'\n' then newline else if b == b' ' then space else if b == b'#' then hash else other

abbrev pub kinds : Bytes → List Kind
kinds [] = []
kinds (b ∷ v) = kind b ∷ kinds v

abbrev pub is_indent : Line → Bool
is_indent indent = true
is_indent text = false
is_indent comment = false

abbrev pub is_comment : Line → Bool
is_comment comment = true
is_comment text = false
is_comment indent = false

-- The line behind a byte.
abbrev pub next_line : Line → Kind → Line
next_line line newline = indent
next_line indent space = indent
next_line indent hash = comment
next_line indent other = text
next_line text space = text
next_line text hash = text
next_line text other = text
next_line comment space = comment
next_line comment hash = comment
next_line comment other = comment

-- The line behind all bytes.
unfoldable pub line_after : Line → List Kind → Line
line_after line [] = line
line_after line (k ∷ ks) = line_after (next_line line k) ks

-- Which bytes are of comments: those behind which a comment is read.
unfoldable pub commented : Line → List Kind → List Bool
commented line [] = []
commented line (k ∷ ks) = is_comment (next_line line k) ∷ commented (next_line line k) ks

-- Which bytes open a comment.
unfoldable pub opening : Line → List Kind → List Bool
opening line [] = []
opening line (k ∷ ks) =
    (not (is_comment line) && is_comment (next_line line k)) ∷ opening (next_line line k) ks

abbrev pub ends_line : Kind → Bool
ends_line newline = true
ends_line space = false
ends_line hash = false
ends_line other = false

abbrev pub is_space : Kind → Bool
is_space newline = false
is_space space = true
is_space hash = false
is_space other = false

abbrev pub is_hash : Kind → Bool
is_hash newline = false
is_hash space = false
is_hash hash = true
is_hash other = false

abbrev pub mask_of : (Kind → Bool) → List Kind → List Bool
mask_of p [] = []
mask_of p (k ∷ ks) = p k ∷ mask_of p ks

kind_newline : (b : ℕ) → (b == b'\n') ≡ ends_line (kind b)
unfolding kind
kind_newline b = ground arith

kind_space : (b : ℕ) → (b == b' ') ≡ is_space (kind b)
unfolding kind
kind_space b = ground arith

kind_hash : (b : ℕ) → (b == b'#') ≡ is_hash (kind b)
unfolding kind
kind_hash b = ground arith

mask_eq :
    (p : Kind → Bool) (c : ℕ) (h : (b : ℕ) → (b == c) ≡ p (kind b)) (v : Bytes)
    → equals_mask c v ≡ mask_of p (kinds v)
mask_eq p c h [] = refl
mask_eq p c h (b ∷ v) = ap₂ (λ x y. x ∷ y) (h b) (mask_eq p c h v)

pub equals_mask-ends_line : (v : Bytes) → equals_mask b'\n' v ≡ mask_of ends_line (kinds v)
equals_mask-ends_line = mask_eq ends_line b'\n' kind_newline

pub equals_mask-is_space : (v : Bytes) → equals_mask b' ' v ≡ mask_of is_space (kinds v)
equals_mask-is_space = mask_eq is_space b' ' kind_space

pub equals_mask-is_hash : (v : Bytes) → equals_mask b'#' v ≡ mask_of is_hash (kinds v)
equals_mask-is_hash = mask_eq is_hash b'#' kind_hash
