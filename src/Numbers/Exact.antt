-- ===== src/Numbers/Exact.antt =====
-- src/numberparse/correct/numberconst.rs: the tables, against powers of ten.
use native.Mathlib.Nat.{pow-suc, mul_assoc}
use simd_toon_improved.Base.{
  ℕ, zero, suc, ◌+◌, ◌*◌, ◌^◌, ◌≤◌, ◌<◌, Bool, true, false, ◌&&◌, some, List, [], ◌∷◌, leb, ltb,
  get_elem?, leb→le, subst, subst₂, ap, ◌≡◌, refl, arith,
}
use simd_toon_improved.Numbers.Tables.{pow10_components, mantissa_128}

-- The mantissa of 128 bits has its highest bit set, and the power of ten is between it and the next, where
-- both are scaled by the exponent. All sides are multiplied by 10^325 and 2^1214, so that none is a
-- fraction.
pub record IsTruncated (scaled factor_mantissa factor_exponent low : ℕ) : Type 0 where
  pub normal : 2 ^ 63 ≤ factor_mantissa
  pub word : factor_mantissa < 2 ^ 64
  pub low_word : low < 2 ^ 64
  pub below : (factor_mantissa * 2 ^ 64 + low) * (2 ^ factor_exponent * 10 ^ 325) ≤ scaled
  pub above : scaled < (factor_mantissa * 2 ^ 64 + low + 1) * (2 ^ factor_exponent * 10 ^ 325)

abbrev is_truncated : ℕ → ℕ × ℕ → ℕ → Bool
is_truncated scaled (m, e) low =
    leb (2 ^ 63) m
    && (ltb m (2 ^ 64)
        && (ltb low (2 ^ 64)
            && (leb ((m * 2 ^ 64 + low) * (2 ^ e * 10 ^ 325)) scaled
                && ltb scaled ((m * 2 ^ 64 + low + 1) * (2 ^ e * 10 ^ 325)))))

abbrev all_truncated : ℕ → List (ℕ × ℕ) → List ℕ → Bool
all_truncated scaled (c ∷ components) (low ∷ lows) =
    is_truncated scaled c low && all_truncated (scaled * 10) components lows
all_truncated scaled _ _ = true

tables : all_truncated (2 ^ 1214) pow10_components mantissa_128 ≡ true
unfolding pow10_components mantissa_128
tables = refl

and_both : (x y : Bool) → (x && y) ≡ true → (x ≡ true) × (y ≡ true)
and_both true y h = (refl, h)
and_both false y h = absurd (ground arith)

reflected :
    (scaled m e low : ℕ) → is_truncated scaled (m, e) low ≡ true → IsTruncated scaled m e low
reflected scaled m e low h =
    let a = and_both _ _ h in
    let b = and_both _ _ a.1 in
    let c = and_both _ _ b.1 in
    let d = and_both _ _ c.1 in
    record {
      normal = leb→le _ _ a.0;
      word = ltb→lt _ _ b.0;
      low_word = ltb→lt _ _ c.0;
      below = leb→le _ _ d.0;
      above = ltb→lt _ _ d.1;
    }
  where
    ltb→lt : (a b : ℕ) → ltb a b ≡ true → a < b
    ltb→lt a b h = ground arith

all_truncated-at :
    (scaled : ℕ) (components : List (ℕ × ℕ)) (lows : List ℕ) (i : ℕ) {m e low : ℕ}
    → all_truncated scaled components lows ≡ true
    → get_elem? components i ≡ some (m, e)
    → get_elem? lows i ≡ some low
    → IsTruncated (scaled * 10 ^ i) m e low
all_truncated-at scaled [] lows i h p q = cc
all_truncated-at scaled (c ∷ components) [] i h p q = cc
all_truncated-at scaled (c ∷ components) (l ∷ lows) zero {m} {e} {low} h p q =
    let c_eq : c ≡ (m, e) = cc in
    let l_eq : l ≡ low = cc in
    subst (λ t. IsTruncated t m e low) one
      (reflected scaled m e low
        (subst₂ (λ t u. is_truncated scaled t u ≡ true) c_eq l_eq (and_both _ _ h).0))
  where
    one : scaled ≡ scaled * 10 ^ 0
    one = omega arith
all_truncated-at scaled (c ∷ components) (l ∷ lows) (suc i) {m} {e} {low} h p q =
    subst (λ t. IsTruncated t m e low) times
      (all_truncated-at (scaled * 10) components lows i (and_both _ _ h).1 p q)
  where
    times : scaled * 10 * 10 ^ i ≡ scaled * 10 ^ suc i
    times = omega (arith, ap (λ t. scaled * t) (pow-suc 10 i), mul_assoc scaled 10 (10 ^ i))

-- Where both tables have an entry i, the two are the upper and the lower word of 10^(i - 325), scaled by
-- a power of two to 128 bits of which the highest is set, and cut there; beside the upper word is the
-- exponent that scales it back, plus 1214.
pub tables-IsTruncated :
    (i : ℕ) {m e low : ℕ}
    → get_elem? pow10_components i ≡ some (m, e)
    → get_elem? mantissa_128 i ≡ some low
    → IsTruncated (2 ^ 1214 * 10 ^ i) m e low
tables-IsTruncated i p q = all_truncated-at (2 ^ 1214) pow10_components mantissa_128 i tables p q
