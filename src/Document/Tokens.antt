-- ===== src/Document/Tokens.antt =====
-- src/lib.rs and src/numberparse/correct.rs: a number in the padded input.
use simd_toon_improved.Base.{
  ℕ, zero, suc, ◌-◌, ◌≤◌, ◌<◌, Bool, true, false, some, [], ◌∷◌, ◌++◌, Bytes, length, get_elem?,
  take, drop, ◌==◌, Bool-cases, inl, inr, ◌≡◌, refl, sym, ap, subst, subst₂, ◌∙◌, arith,
}
use simd_toon_improved.Scanner.Bytewise.{AreBytes}
use simd_toon_improved.Views.Slices.{drop-append}
use simd_toon_improved.Numbers.Spelled.{sign}
use simd_toon_improved.Numbers.Parse.{try_parse_number}
use simd_toon_improved.Numbers.Stages.{IsGuarded}
use simd_toon_improved.Numbers.Grammar.{IsNumber}
use simd_toon_improved.Numbers.Safe.{Refuses, try_parse_number-Refuses}
use simd_toon_improved.Document.{padding, padded}

padding-IsGuarded : (input : Bytes) → IsGuarded (input ++ padding)
unfolding padding
padding-IsGuarded [] = inl (refl, omega arith)
padding-IsGuarded (b ∷ input) = inr (padding-IsGuarded input)

padding-AreBytes : (input : Bytes) → AreBytes input → AreBytes (input ++ padding)
unfolding padding
padding-AreBytes [] a = omega arith
padding-AreBytes (b ∷ input) a = (a.0, padding-AreBytes input a.1)

-- What is behind a byte of the input.
behind-IsGuarded :
    (k : ℕ) (input : Bytes) → k ≤ length input → IsGuarded (drop k (input ++ padding))
behind-IsGuarded zero input l = padding-IsGuarded input
behind-IsGuarded (suc k) [] l = absurd (omega arith)
behind-IsGuarded (suc k) (b ∷ input) l = behind-IsGuarded k input (omega arith)

behind-AreBytes : (k : ℕ) (s : Bytes) → AreBytes s → AreBytes (drop k s)
behind-AreBytes zero s a = a
behind-AreBytes (suc k) [] a = tt
behind-AreBytes (suc k) (b ∷ s) a = behind-AreBytes k s a.1

at_byte :
    (k : ℕ) (s : Bytes) {b : ℕ}
    → get_elem? s k ≡ some b
    → (take k s ++ (b ∷ drop (suc k) s) ≡ s) × (length (take k s) ≡ k)
at_byte k [] h = cc
at_byte zero (c ∷ s) h = (cc, refl)
at_byte (suc k) (c ∷ s) h = let rest = at_byte k s h in (ap (λ t. c ∷ t) rest.0, ap suc rest.1)

byte_lt : (k : ℕ) (s : Bytes) {b : ℕ} → AreBytes s → get_elem? s k ≡ some b → b < 256
byte_lt k [] a h = cc
byte_lt zero (c ∷ s) {b} a h = let same : c ≡ b = cc in subst (λ t. t < 256) same a.0
byte_lt (suc k) (c ∷ s) a h = byte_lt k s a.1 h

abbrev Token : Bytes → ℕ → ℕ → Bool → Type 0
Token buf start end negative =
    Refuses (IsNumber negative) (take (end - start) (drop start buf))
      (try_parse_number buf start end negative)

at-Token :
    (negative : Bool) (pre s : Bytes) (end : ℕ)
    → IsGuarded s
    → AreBytes s
    → Token (pre ++ (sign negative ++ s)) (length pre) end negative
at-Token negative pre s end g a =
    subst
      (λ t.
        Refuses (IsNumber negative) (take (end - length pre) t)
          (try_parse_number (pre ++ (sign negative ++ s)) (length pre) end negative))
      (sym (drop-append pre (sign negative ++ s))) (try_parse_number-Refuses negative pre s g a end)

module _ (input : Bytes) (a : AreBytes input) (start end : ℕ) (l : start < length input) where
  -- For an input of bytes, and a token that starts in it with any byte, wherever it is said to end:
  -- try_parse_number, told whether that byte is a minus, has a value only where the token is a number of
  -- the grammar, and else an error. It reads nothing outside the padded input and does not panic.
  pub try_parse_number-IsNumber :
      (first : ℕ)
      → get_elem? (padded input) start ≡ some first
      → Refuses
          (IsNumber (first == b'-'))
          (take (end - start) (drop start (padded input)))
          (try_parse_number (padded input) start end (first == b'-'))
  unfolding padded
  try_parse_number-IsNumber first h = elim (Bool-cases (first == b'-')) [
    | inl y ↦ rw y (
        subst₂ (λ b k. Token b k end true) (minus y ∙ split.0) split.1
          (at-Token true (take start (input ++ padding)) (drop (suc start) (input ++ padding)) end
            guarded bytes))
    | inr n ↦ rw n (
        subst₂ (λ b k. Token b k end false) split.0 split.1
          (at-Token false (take start (input ++ padding))
            (first ∷ drop (suc start) (input ++ padding)) end (inr guarded)
            (byte_lt start (input ++ padding) (padding-AreBytes input a) h, bytes)))
  ]
    where
      split :
          (take start (input ++ padding) ++ (first ∷ drop (suc start) (input ++ padding))
            ≡ input ++ padding)
          × (length (take start (input ++ padding)) ≡ start)
      split = at_byte start (input ++ padding) h

      guarded : IsGuarded (drop (suc start) (input ++ padding))
      guarded = behind-IsGuarded (suc start) input (omega arith)

      bytes : AreBytes (drop (suc start) (input ++ padding))
      bytes = behind-AreBytes (suc start) (input ++ padding) (padding-AreBytes input a)

      minus :
          (first == b'-') ≡ true
          → take start (input ++ padding) ++ (sign true ++ drop (suc start) (input ++ padding))
            ≡ take start (input ++ padding) ++ (first ∷ drop (suc start) (input ++ padding))
      minus y =
          ap (λ b. take start (input ++ padding) ++ (b ∷ drop (suc start) (input ++ padding)))
            (ground arith)
