-- ===== src/Error/Equality.antt =====
-- src/error.rs: what `PartialEq for ErrorType` makes of one value.
use simd_toon_improved.Base.{Bool, true, false, ◌≡◌, refl, [], ◌∷◌, Bytes, equal, arith}
use simd_toon_improved.Error.{
  ErrorType, serde, unexpected, input_too_large, simd_unsupported, error_type_eq,
}

-- The types that the list in `eq` leaves out.
abbrev pub is_listed : ErrorType → Bool
is_listed (unexpected a b) = false
is_listed input_too_large = false
is_listed simd_unsupported = false
is_listed other = true

equal_self : (s : Bytes) → equal s s ≡ true
equal_self [] = refl
equal_self (b ∷ s) = ground (arith, equal_self s)

-- A value equals itself under `error_type_eq` just if it is none of `unexpected`, `input_too_large`
-- and `simd_unsupported`.
pub error_type_eq_self : (t : ErrorType) → error_type_eq t t ≡ is_listed t
unfolding error_type_eq
error_type_eq_self (serde s) = equal_self s
error_type_eq_self t = ground arith
