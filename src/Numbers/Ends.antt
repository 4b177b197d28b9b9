-- ===== src/Numbers/Ends.antt =====
-- src/numberparse/correct.rs: `try_parse_number` on any buffer.
use Prim.Native.Nat.{bit_or}
use simd_toon_improved.Base.{
  ◌/◌, ℕ, ◌+◌, ◌-◌, ◌*◌, ◌%◌, ◌^◌, Bool, true, false, ◌||◌, ◌&&◌, not, Option, none, some, [], ◌∷◌,
  Bytes, get_elem?, drop, leb, ◌==◌, Option-cases, inl, inr, ◌≢◌,
}
use simd_toon_improved.Error.{Result, out_of_fuel}
use simd_toon_improved.Stage2.Machine.{and_then}
use simd_toon_improved.Strings.Ends.{Ended, Ended-ne-out_of_fuel}
use simd_toon_improved.Views.Slices.{sub_slice}
use simd_toon_improved.Numbers.Digits.{is_integer}
use simd_toon_improved.Numbers.Floats.{is_infinite, with_sign, parse_f64}
use simd_toon_improved.Numbers.Tables.{pow10_components, mantissa_128}
use simd_toon_improved.Numbers.Parts.{
  entry, f64_from_parts_slow, leading_zeros, normalized, packed, rounded, from_components,
  from_exact, between, f64_from_parts,
}
use simd_toon_improved.Numbers.Parse.{
  Cursor, Decimal, zeros_in_front, large_digits, large_part, large_node, behind_sign,
  parse_large_integer, float_node, node_of, try_parse_number,
}
use simd_toon_improved.Numbers.Stops.{
  Ended-then, Ended-if, Ended-either, byte_of-Ended, sub_slice-Ended, signed_part-Ended,
  fraction_part-Ended, exponent_part-Ended,
}

zeros_in_front-Ended : (s : Bytes) → Ended (zeros_in_front s)
unfolding zeros_in_front
zeros_in_front-Ended [] = tt
zeros_in_front-Ended (c ∷ s) =
    Ended-if (c == b'0' || c == b'.') _ _ (Ended-then _ _ (zeros_in_front-Ended s) λ n. tt) tt

large_digits-Ended : (s : Bytes) (num idx : ℕ) → Ended (large_digits num idx s)
unfolding large_digits
large_digits-Ended [] num idx = tt
large_digits-Ended (c ∷ s) num idx =
    Ended-if (is_integer c) _ _
      (Ended-if (leb (2 ^ 64) (10 * num)) _ _ tt
        (Ended-if (leb (2 ^ 64) (10 * num + (c - b'0'))) _ _ tt (large_digits-Ended s _ (idx + 1))))
      tt

large_part-Ended : (s : Bytes) (idx : ℕ) → Ended (large_part idx s)
unfolding large_part
large_part-Ended [] idx = tt
large_part-Ended (c ∷ s) idx = Ended-either (c == b'0') _ _ tt (large_digits-Ended s _ (idx + 1))

large_node-Ended : (negative : Bool) (c : Cursor) → Ended (large_node negative c)
unfolding large_node
large_node-Ended false c = tt
large_node-Ended true c = Ended-if (leb c.num (2 ^ 63)) _ _ tt (byte_of-Ended c.rest 0 _ λ b. tt)

slow-Ended : (slice : Bytes) (offset : ℕ) → Ended (f64_from_parts_slow slice offset)
unfolding f64_from_parts_slow
slow-Ended slice offset = elim (Option-cases (parse_f64 slice)) [
  | inl e ↦ rw (f64_from_parts_slow, e) (byte_of-Ended slice offset _ λ c. tt)
  | inr (v, e) ↦
      rw (f64_from_parts_slow, e)
        (Ended-either (is_infinite v) _ _ (byte_of-Ended slice 0 _ λ c. tt) tt)
]

packed-Ended :
    (positive : Bool) (x : ℕ) (slice : Bytes) (offset m z : ℕ)
    → Ended (packed positive x slice offset (m, z))
unfolding packed
packed-Ended positive x slice offset m z =
    Ended-if (leb 1 real && leb real 2046) _ _
      (Ended-if (is_infinite (with_sign positive (bit_or (real * 2 ^ 52) (m % 2 ^ 52)))) _ _
        (byte_of-Ended slice offset _ λ c. tt) tt)
      (slow-Ended slice offset)
  where
    real : ℕ
    real = (x + 2 ^ 64 - z) % 2 ^ 64

normalized-Ended : (m z : ℕ) → Ended (normalized m z)
unfolding normalized
normalized-Ended m z = Ended-if (leb (2 ^ 53) m) _ _ (Ended-if (z == 0) _ _ tt tt) tt

rounded-Ended :
    (positive : Bool) (x : ℕ) (slice : Bytes) (offset z lower upper : ℕ)
    → Ended (rounded positive x slice offset z (lower, upper))
unfolding rounded
rounded-Ended positive x slice offset z lower upper =
    Ended-if ((lower == 0 && upper % 2 ^ 9 == 0) && upper / 2 ^ (upper / 2 ^ 63 + 9) % 4 == 1) _ _
      (slow-Ended slice offset)
      (Ended-then _ _ (normalized-Ended _ _) λ p. packed-Ended positive x slice offset p.0 p.1)

entry-Ended :
    {A B : Type 0} (o : Option A) (f : A → Result B) → ((a : A) → Ended (f a)) → Ended (entry o f)
entry-Ended none f h = tt
entry-Ended (some a) f h = h a

product-Ended :
    (positive : Bool) (x : ℕ) (slice : Bytes) (offset z : ℕ) (o : Option (ℕ × ℕ))
    → Ended (elim o [
      | none ↦ f64_from_parts_slow slice offset
      | some product ↦ rounded positive x slice offset z product
    ])
product-Ended positive x slice offset z none = slow-Ended slice offset
product-Ended positive x slice offset z (some p) = rounded-Ended positive x slice offset z p.0 p.1

components-Ended :
    (positive : Bool) (n x : ℕ) (slice : Bytes) (offset : ℕ)
    → Ended (from_components positive n x slice offset)
unfolding from_components
components-Ended positive n x slice offset =
    entry-Ended (get_elem? pow10_components ((x + 325) % 2 ^ 32)) _ λ c.
      entry-Ended (get_elem? mantissa_128 ((x + 325) % 2 ^ 32)) _
        λ m. product-Ended positive c.1 slice offset (leading_zeros 64 n) _

parts-Ended :
    (positive : Bool) (n x : ℕ) (slice : Bytes) (offset : ℕ)
    → Ended (f64_from_parts positive n x slice offset)
unfolding f64_from_parts from_exact
parts-Ended positive n x slice offset =
    Ended-if (between 22 22 x && leb n 9007199254740991) _ _ tt (
      Ended-if (n == 0) _ _ tt (
        Ended-if (between 325 308 x) _ _ (components-Ended positive n x slice offset)
          (slow-Ended slice offset)))

float_node-Ended :
    (start end : ℕ) (buf : Bytes) (negative : Bool) (k : ℕ) (d : Decimal)
    → Ended (float_node start end buf negative k d)
unfolding float_node
float_node-Ended start end buf negative k d =
    Ended-if (leb 19 k) _ _
      (Ended-then _ _ (zeros_in_front-Ended (drop (behind_sign negative start) buf)) λ n.
        Ended-if (leb 19 ((k + 2 ^ 64 - n) % 2 ^ 64)) _ _
          (Ended-then _ _ (sub_slice-Ended buf start end) λ slice. slow-Ended slice start) parts)
      parts
  where
    parts : Ended (
        and_then
          (sub_slice buf start end)
          λ slice. f64_from_parts (not negative) d.cursor.num (d.exponent % 2 ^ 32) slice start)
    parts =
        Ended-then _ _ (sub_slice-Ended buf start end)
          λ slice. parts-Ended (not negative) d.cursor.num (d.exponent % 2 ^ 32) slice start

node_of-Ended :
    (start end : ℕ) (buf : Bytes) (negative : Bool) (k : ℕ) (d : Decimal)
    → Ended (node_of start end buf negative k d)
unfolding node_of parse_large_integer
node_of-Ended start end buf negative k d =
    Ended-if (d.cursor.idx == end) _ _
      (Ended-if d.is_float _ _ (float_node-Ended start end buf negative k d) (
        Ended-if (leb 18 k) _ _
          (Ended-then _ _ (large_part-Ended (drop (behind_sign negative start) buf) _)
            (large_node-Ended negative))
          tt))
      (byte_of-Ended d.cursor.rest 0 _ λ c. tt)

-- The parser of numbers ends on any buffer, at any token.
pub try_parse_number-ne-out_of_fuel :
    (buf : Bytes) (start end : ℕ) (negative : Bool)
    → try_parse_number buf start end negative ≢ out_of_fuel
unfolding try_parse_number
try_parse_number-ne-out_of_fuel buf start end negative = Ended-ne-out_of_fuel _ (
    Ended-then _ _ (signed_part-Ended negative start (drop start buf)) λ c.
      Ended-then _ _ (fraction_part-Ended c.rest c.num c.idx) λ f.
        Ended-then _ _
          (exponent_part-Ended f.cursor.rest f.is_float f.exponent f.cursor.num f.cursor.idx)
          (node_of-Ended start end buf negative _))
