-- ===== src/Document.antt =====
-- src/lib.rs: from the input and its structural indexes to a tape, and src/value/owned.rs: to a value.
pub mod Whole
pub mod Tokens
pub mod Quotes
use simd_toon_improved.Base.{
  ℕ, zero, suc, ◌^◌, Bool, true, false, List, [], ◌∷◌, ◌++◌, Bytes, ltb, if◌then◌else◌, length,
}
use simd_toon_improved.Error.{Result, ok, err, generic, input_too_large, ErrorType}
use simd_toon_improved.Options.{DecodeOptions}
use simd_toon_improved.Stage2.Machine.{Env, and_then}
use simd_toon_improved.Stage2.Build.{build_tape}
use simd_toon_improved.Strings.Parse.{parse_str}
use simd_toon_improved.Numbers.Parse.{try_parse_number}
use simd_toon_improved.Views.Tree.{Nodes, Tree}
use simd_toon_improved.Values.Parse.{parse_tape}

-- `LOTS_OF_SPACES` behind the input, with a newline written over the first.
abbrev pub spaces : ℕ → Bytes
spaces zero = []
spaces (suc n) = b' ' ∷ spaces n

unfoldable pub padding : Bytes
padding = b'\n' ∷ spaces 63

unfoldable pub padded : Bytes → Bytes
padded input = input ++ padding

-- What `build_tape` reads with. `growth` is how a tape that is full grows.
unfoldable pub env_of : (ℕ → ℕ) → DecodeOptions → Bytes → Env
env_of growth options input2 = record {
  input2 = input2;
  strict = options.strict;
  indent_size = options.indent_size;
  parse_str = parse_str input2;
  try_parse_number = try_parse_number input2;
  growth = growth;
}

-- `fill_tape`. The first stage is given by what it leaves: the input with its comments blanked out and
-- the structural indexes, or an error.
unfoldable pub fill_tape :
    (ℕ → ℕ) → (Bytes → Result (Bytes × List ℕ)) → DecodeOptions → Bytes → Result Nodes
fill_tape growth find_structural_bits options input =
    if ltb 4294967295 (length input)
    then err (generic input_too_large)
    else and_then (find_structural_bits input) λ (input, structural_indexes).
      build_tape (env_of growth options (padded input)) (structural_indexes ++ length input ∷ [])

-- `to_value_with_options`
unfoldable pub to_value :
    (ℕ → ℕ) → (Bytes → Result (Bytes × List ℕ)) → DecodeOptions → Bytes → Result Tree
to_value growth find_structural_bits options input =
    and_then (fill_tape growth find_structural_bits options input) parse_tape
