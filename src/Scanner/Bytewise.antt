-- ===== src/Scanner/Bytewise.antt =====
-- src/impls/avx2/stage1.rs: the masks of the classes against comparisons of each byte.
use simd_toon_improved.Base.{
  ℕ, zero, suc, ◌<◌, Bool, true, false, ◌&&◌, ◌||◌, List, [], ◌∷◌, Bytes, ◌==◌, inl, inr,
  Bool-cases, ◌≡◌, refl, sym, arith, ◌∙◌,
}
use mathlib.Core.Path.{ap₂, subst}
use simd_toon_improved.Strings.Parse.{equals_mask}
use simd_toon_improved.Scanner.Classes.{in_class, class_mask, find_whitespace_structurals_hashes}

abbrev pub same : Bool → Bool → Bool
same true y = y
same false true = false
same false false = true

pub same-eq : (x y : Bool) → same x y ≡ true → x ≡ y
same-eq true y h = sym h
same-eq false false h = refl
same-eq false true h = h

abbrev pub all_below : ℕ → (ℕ → Bool) → Bool
all_below zero p = true
all_below (suc n) p = p n && all_below n p

pub all_below-at : (n : ℕ) (p : ℕ → Bool) → all_below n p ≡ true → (b : ℕ) → b < n → p b ≡ true
all_below-at zero p h b l = absurd (omega arith)
all_below-at (suc n) p h b l = elim (Bool-cases (b == n)) [
  | inl e ↦ subst (λ t. p t ≡ true) (ground arith) (both (p n) _ h).0
  | inr e ↦ all_below-at n p (both (p n) _ h).1 b (ground arith)
]
  where
    both : (x y : Bool) → (x && y) ≡ true → (x ≡ true) × (y ≡ true)
    both true true q = (refl, refl)
    both true false q = (refl, q)
    both false y q = absurd (ground arith)

-- The bytes that the scanner gives an index of their own.
unfoldable pub is_structural : ℕ → Bool
is_structural b =
    b == b':'
    || b == b'['
    || b == b'{'
    || b == b','
    || b == b'|'
    || b == b'-'
    || b == b']'
    || b == b'}'
    || b == b'\r'
    || b == b'\t'
    || b == b'\n'

abbrev pub bytewise : (ℕ → Bool) → Bytes → List Bool
bytewise p [] = []
bytewise p (b ∷ v) = p b ∷ bytewise p v

abbrev pub AreBytes : Bytes → Type 0
AreBytes [] = Unit
AreBytes (b ∷ v) = (b < 256) × AreBytes v

class_mask-bytewise :
    (class : ℕ) (p : ℕ → Bool)
    → all_below 256 (λ b. same (in_class class b) (p b)) ≡ true
    → (v : Bytes) → AreBytes v
    → class_mask v class ≡ bytewise p v
unfolding class_mask
class_mask-bytewise class p h [] l = refl
class_mask-bytewise class p h (b ∷ v) l =
    ap₂ (λ x y. x ∷ y) (same-eq _ _ (all_below-at 256 (λ x. same (in_class class x) (p x)) h b l.0))
      (class_mask-bytewise class p h v l.1)

whitespace_class : all_below 256 (λ b. same (in_class 0x20 b) (b == b' ')) ≡ true
whitespace_class = refl

structural_class : all_below 256 (λ b. same (in_class 0x5F b) (is_structural b)) ≡ true
unfolding is_structural
structural_class = refl

newline_class : all_below 256 (λ b. same (in_class 0x40 b) (b == b'\n')) ≡ true
newline_class = refl

hash_class : all_below 256 (λ b. same (in_class 0x80 b) (b == b'#')) ≡ true
hash_class = refl

equals_mask-bytewise : (c : ℕ) (v : Bytes) → bytewise (λ b. b == c) v ≡ equals_mask c v
equals_mask-bytewise c [] = refl
equals_mask-bytewise c (b ∷ v) = ap₂ (λ x y. x ∷ y) refl (equals_mask-bytewise c v)

-- For bytes less than 256, the masks that the two table lookups give are those of a comparison of
-- each byte with a space, a newline, a hash, and the eleven structural bytes.
pub find_whitespace_structurals_hashes-bytewise :
    (v : Bytes)
    → AreBytes v
    → find_whitespace_structurals_hashes v ≡ record {
      whitespace = equals_mask b' ' v;
      structurals = bytewise is_structural v;
      newlines = equals_mask b'\n' v;
      hashes = equals_mask b'#' v;
    }
unfolding find_whitespace_structurals_hashes
find_whitespace_structurals_hashes-bytewise v l = λ i. record {
  whitespace =
      (class_mask-bytewise 0x20 (λ b. b == b' ') whitespace_class v l ∙ equals_mask-bytewise b' ' v)
        i;
  structurals = class_mask-bytewise 0x5F is_structural structural_class v l i;
  newlines =
      (class_mask-bytewise 0x40 (λ b. b == b'\n') newline_class v l ∙ equals_mask-bytewise b'\n' v)
        i;
  hashes =
      (class_mask-bytewise 0x80 (λ b. b == b'#') hash_class v l ∙ equals_mask-bytewise b'#' v) i;
}
