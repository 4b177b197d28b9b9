-- ===== src/Options.antt =====
-- src/decode_options.rs: the options of a decoder. A setter returns the new options with its result.
pub mod Bounds
use simd_toon_improved.Base.{ℕ, Bool, true, false, ◌==◌, if◌then◌else◌}
use simd_toon_improved.Error.{Result, ok, err, generic, invalid_indent_size}

abbrev pub default_indent_size : ℕ
default_indent_size = 2

pub record DecodeOptions : Type 0 where
  pub strict : Bool
  pub indent_size : ℕ

unfoldable pub new : DecodeOptions
new = record { strict = true; indent_size = default_indent_size }

unfoldable pub set_strict : DecodeOptions → Bool → DecodeOptions
set_strict self strict = record self { strict = strict }

unfoldable pub with_strict : DecodeOptions → Bool → DecodeOptions
with_strict self strict = record self { strict = strict }

unfoldable pub lenient : DecodeOptions
unfolding new with_strict
lenient = with_strict new false

-- The options afterwards, and whether the call succeeded.
unfoldable pub set_indent_size : DecodeOptions → ℕ → DecodeOptions × Result (Unit {0})
set_indent_size self indent_size =
    if indent_size == 0
    then (self, err (generic invalid_indent_size))
    else (record self { indent_size = indent_size }, ok tt)

abbrev after_set : DecodeOptions × Result (Unit {0}) → Result DecodeOptions
after_set (self, ok u) = ok self
after_set (self, err e) = err e
after_set (self, Result.fault) = Result.fault
after_set (self, Result.out_of_fuel) = Result.out_of_fuel

unfoldable pub with_indent_size : DecodeOptions → ℕ → Result DecodeOptions
unfolding set_indent_size
with_indent_size self indent_size = after_set (set_indent_size self indent_size)
