-- ===== src/Scanner/Backslashes.antt =====
-- src/lib.rs: `find_odd_backslash_sequences`, against a count along each run of backslashes.
use simd_toon_improved.Base.{
  ℕ, sym, Bool, true, false, not, ◌&&◌, ◌||◌, List, [], ◌∷◌, Bytes, ◌≡◌, refl, ap,
}
use mathlib.Core.Path.{ap₂}
use simd_toon_improved.Strings.Parse.{equals_mask}
use simd_toon_improved.Scanner.Masks.{
  not_bits, and_bits, or_bits, xor, shift_in, or_low, overflowing_add, add_carry, carry_of,
}

-- `EVEN_BITS` where the first bit is of an even place, or else `ODD_BITS`, at the width of a mask.
abbrev pub even_bits : Bool → List Bool → List Bool
even_bits even [] = []
even_bits even (x ∷ a) = even ∷ even_bits (not even) a

-- `a ^ low`, for a `low` of one bit.
abbrev pub xor_low : Bool → List Bool → List Bool
xor_low low [] = []
xor_low low (x ∷ a) = xor low x ∷ a

abbrev start_edges : Bool → List Bool → List Bool
start_edges low bs_bits = and_bits bs_bits (not_bits (shift_in low bs_bits))

-- `odd_ends`, of the sums.
abbrev odd_ends : Bool → List Bool → List Bool → List Bool → List Bool
odd_ends even bs_bits even_carries odd_carries =
    or_bits
      (and_bits (and_bits even_carries (not_bits bs_bits)) (not_bits (even_bits even bs_bits)))
      (and_bits (and_bits odd_carries (not_bits bs_bits)) (even_bits even bs_bits))

-- The bits that end an odd run, and whether the block ends in one.
unfoldable pub odd_sequences : List Bool → Bool → List Bool × Bool
odd_sequences bs_bits prev =
    let even_start_mask = xor_low prev (even_bits true bs_bits) in
    let edges = start_edges false bs_bits in
    let even = overflowing_add bs_bits (and_bits edges even_start_mask) in
    let odd = overflowing_add bs_bits (and_bits edges (not_bits even_start_mask)) in
    (odd_ends true bs_bits even.0 (or_low prev odd.0), odd.1)

unfoldable pub find_odd_backslash_sequences : Bytes → Bool → List Bool × Bool
find_odd_backslash_sequences v prev_iter_ends_odd_backslash =
    odd_sequences (equals_mask b'\\' v) prev_iter_ends_odd_backslash

-- Whether an odd run of backslashes is read, behind one more bit.
abbrev run_on : Bool → Bool → Bool
run_on odd x = x && not odd

-- The bits behind odd runs.
unfoldable pub escaped_bits : Bool → List Bool → List Bool
escaped_bits odd [] = []
escaped_bits odd (x ∷ a) = (odd && not x) ∷ escaped_bits (run_on odd x) a

unfoldable pub odd_after : Bool → List Bool → Bool
odd_after odd [] = odd
odd_after odd (x ∷ a) = odd_after (run_on odd x) a

-- Whether the place behind a mask is even, as the first is or is not.
abbrev pub even_after : Bool → List Bool → Bool
even_after even [] = even
even_after even (x ∷ a) = even_after (not even) a

-- The bit before, the carries of both sums, and the run that they tell, by the parity of the place.
data Run : Bool → Bool → Bool → Bool → Bool → Type 0 where
  idle : (even : Bool) → Run even false false false false
  from_even : (even : Bool) → Run even true true false (not even)
  from_odd : (even : Bool) → Run even true false true even

abbrev edge : Bool → Bool → Bool
edge low x = x && not low

Run-run_on :
    {even low ce co odd : Bool}
    → Run even low ce co odd
    → (x : Bool)
    → Run
        (not even)
        x
        (carry_of ce x (edge low x && even))
        (carry_of co x (edge low x && not even))
        (run_on odd x)
Run-run_on (idle true) true = from_even false
Run-run_on (idle false) true = from_odd true
Run-run_on (idle true) false = idle false
Run-run_on (idle false) false = idle true
Run-run_on (from_even true) true = from_even false
Run-run_on (from_even false) true = from_even true
Run-run_on (from_even true) false = idle false
Run-run_on (from_even false) false = idle true
Run-run_on (from_odd true) true = from_odd false
Run-run_on (from_odd false) true = from_odd true
Run-run_on (from_odd true) false = idle false
Run-run_on (from_odd false) false = idle true

abbrev sum_bit : Bool → Bool → Bool → Bool
sum_bit c x start = xor c (xor x start) && not x

abbrev end_bit : Bool → Bool → Bool → Bool → Bool → Bool
end_bit even low ce co x =
    (sum_bit ce x (edge low x && even) && not even)
    || (sum_bit co x (edge low x && not even) && even)

Run-bit :
    {even low ce co odd : Bool}
    → Run even low ce co odd
    → (x : Bool) → end_bit even low ce co x ≡ (odd && not x)
Run-bit (idle true) true = refl
Run-bit (idle false) true = refl
Run-bit (idle true) false = refl
Run-bit (idle false) false = refl
Run-bit (from_even true) true = refl
Run-bit (from_even false) true = refl
Run-bit (from_even true) false = refl
Run-bit (from_even false) false = refl
Run-bit (from_odd true) true = refl
Run-bit (from_odd false) true = refl
Run-bit (from_odd true) false = refl
Run-bit (from_odd false) false = refl

abbrev even_sum : Bool → Bool → Bool → List Bool → List Bool × Bool
even_sum even low c a = add_carry c a (and_bits (start_edges low a) (even_bits even a))

abbrev odd_sum : Bool → Bool → Bool → List Bool → List Bool × Bool
odd_sum even low c a = add_carry c a (and_bits (start_edges low a) (not_bits (even_bits even a)))

ends-escaped :
    (a : List Bool) {even low ce co odd : Bool}
    → Run even low ce co odd
    → odd_ends even a (even_sum even low ce a).0 (odd_sum even low co a).0 ≡ escaped_bits odd a
unfolding escaped_bits
ends-escaped [] r = refl
ends-escaped (x ∷ a) r = ap₂ (λ y b. y ∷ b) (Run-bit r x) (ends-escaped a (Run-run_on r x))

sum-odd_after :
    (a : List Bool) {even low ce co odd : Bool}
    → Run even low ce co odd
    → even_after even a ≡ true
    → (odd_sum even low co a).1 ≡ odd_after odd a
unfolding odd_after
sum-odd_after [] r e = at_end r e
  where
    at_end : {even low ce co odd : Bool} → Run even low ce co odd → even ≡ true → co ≡ odd
    at_end (idle _) e = refl
    at_end (from_even even) e = ap not (sym e)
    at_end (from_odd even) e = sym e
sum-odd_after (x ∷ a) r e = sum-odd_after a (Run-run_on r x) e

-- A run that the block before has left odd goes on as one that starts at an odd place.
block_start :
    (prev x : Bool)
    → Run false x
        (carry_of false x (edge false x && xor prev true))
        (carry_of false x (edge false x && not (xor prev true)))
        (run_on prev x)
block_start false true = from_even false
block_start false false = idle false
block_start true true = from_odd false
block_start true false = idle false

abbrev first_bit : Bool → Bool → Bool
first_bit prev x =
    (sum_bit false x (edge false x && xor prev true) && false)
    || (((xor false (xor x (edge false x && not (xor prev true))) || prev) && not x) && true)

first_bit_eq : (prev x : Bool) → first_bit prev x ≡ (prev && not x)
first_bit_eq false true = refl
first_bit_eq false false = refl
first_bit_eq true true = refl
first_bit_eq true false = refl

odd_sequences_mask :
    (prev x : Bool) (a : List Bool)
    → even_after true (x ∷ a) ≡ true
    → odd_sequences (x ∷ a) prev ≡ (escaped_bits prev (x ∷ a), odd_after prev (x ∷ a))
unfolding odd_sequences escaped_bits odd_after
odd_sequences_mask prev x a e =
    ap₂ (λ y b. (y, b))
      (ap₂ (λ y b. y ∷ b) (first_bit_eq prev x) (ends-escaped a (block_start prev x)))
      (sum-odd_after a (block_start prev x) e)

-- For a block of an even number of bytes, find_odd_backslash_sequences marks the bytes behind a
-- run of backslashes of odd length, one that the block before began included, and says whether the
-- block ends in such a run, as a count along each run tells.
pub find_odd_backslash_sequences-escaped_bits :
    (prev : Bool) (b : ℕ) (v : Bytes)
    → even_after true (equals_mask b'\\' (b ∷ v)) ≡ true
    → find_odd_backslash_sequences (b ∷ v) prev
      ≡ (escaped_bits prev (equals_mask b'\\' (b ∷ v)), odd_after prev (equals_mask b'\\' (b ∷ v)))
unfolding find_odd_backslash_sequences
find_odd_backslash_sequences-escaped_bits prev b v e = odd_sequences_mask prev _ _ e
