-- ===== src/Error/Classes.antt =====
-- src/error.rs: the classes of errors.
use simd_toon_improved.Base.{ℕ, ◌+◌, Bool, true, false, ◌≡◌, arith}
use simd_toon_improved.Error.{Error, is_io, is_eof, is_data, is_syntax}

abbrev pub to_ℕ : Bool → ℕ
to_ℕ true = 1
to_ℕ false = 0

-- Of `is_io`, `is_eof`, `is_data` and `is_syntax`, exactly one answers true on any error.
pub one_class :
    (e : Error) → to_ℕ (is_io e) + to_ℕ (is_eof e) + to_ℕ (is_data e) + to_ℕ (is_syntax e) ≡ 1
unfolding is_io is_eof is_data is_syntax
one_class e = ground arith
