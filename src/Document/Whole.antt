-- ===== src/Document/Whole.antt =====
-- src/lib.rs and src/value/owned.rs: the stages together.
use simd_toon_improved.Base.{ℕ, List, Bytes, ltb, length, Bool-cases, inl, inr, ◌≢◌, refl}
use simd_toon_improved.Error.{Result, ok, err, fault, out_of_fuel}
use simd_toon_improved.Options.{DecodeOptions}
use simd_toon_improved.Stage2.Machine.{and_then}
use simd_toon_improved.Stage2.Quiet.{IsTotal}
use simd_toon_improved.Stage2.Total.{build_tape-ne-out_of_fuel}
use simd_toon_improved.Strings.Ends.{parse_str-ne-out_of_fuel}
use simd_toon_improved.Numbers.Ends.{try_parse_number-ne-out_of_fuel}
use simd_toon_improved.Values.Ends.{parse_tape-ne-out_of_fuel}
use simd_toon_improved.Document.{padded, env_of, fill_tape, to_value}

module _ (growth : ℕ → ℕ) (find_structural_bits : Bytes → Result (Bytes × List ℕ))
    (find_ends : (input : Bytes) → find_structural_bits input ≢ out_of_fuel) where
  env_of-IsTotal :
      (options : DecodeOptions) (input2 : Bytes) → IsTotal (env_of growth options input2)
  unfolding env_of
  env_of-IsTotal options input2 = record {
    parse_str_ends = parse_str-ne-out_of_fuel input2;
    try_parse_number_ends = try_parse_number-ne-out_of_fuel input2;
  }

  and_then-ne :
      {A B : Type 0} (r : Result A) (f : A → Result B)
      → r ≢ out_of_fuel
      → ((a : A) → f a ≢ out_of_fuel)
      → and_then r f ≢ out_of_fuel
  and_then-ne (ok a) f h g = g a
  and_then-ne (err e) f h g = cc
  and_then-ne fault f h g = cc
  and_then-ne out_of_fuel f h g = absurd (h refl)

  fill_tape-ne-out_of_fuel :
      (options : DecodeOptions) (input : Bytes)
      → fill_tape growth find_structural_bits options input ≢ out_of_fuel
  unfolding fill_tape
  fill_tape-ne-out_of_fuel options input = elim (Bool-cases (ltb 4294967295 (length input))) [
    | inl y ↦ rw y (λ e. cc)
    | inr n ↦ rw n (
        and_then-ne _ _ (find_ends input) λ (text, ks).
          build_tape-ne-out_of_fuel (env_of growth options (padded text))
            (env_of-IsTotal options (padded text)) _)
  ]

  -- Where the first stage ends, whatever indexes it gives, a document is read to its end: what reads
  -- strings and numbers, builds the tape and builds the value from it has fuel enough on any input.
  pub to_value-ne-out_of_fuel :
      (options : DecodeOptions) (input : Bytes)
      → to_value growth find_structural_bits options input ≢ out_of_fuel
  unfolding to_value
  to_value-ne-out_of_fuel options input =
      and_then-ne _ _ (fill_tape-ne-out_of_fuel options input) parse_tape-ne-out_of_fuel
