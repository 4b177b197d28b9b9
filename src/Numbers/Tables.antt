-- ===== src/Numbers/Tables.antt =====
-- src/numberparse/correct/numberconst.rs: the powers of ten from 10^-325 to 10^308.
pub mod Components
pub mod Mantissas
use simd_toon_improved.Base.{ℕ, List, ◌++◌}
use simd_toon_improved.Numbers.Tables.Components.{
  components_0, components_1, components_2, components_3, components_4,
}
use simd_toon_improved.Numbers.Tables.Mantissas.{
  mantissas_0, mantissas_1, mantissas_2, mantissas_3, mantissas_4,
}

-- The 64 highest bits of a power of ten, and its exponent.
unfoldable pub pow10_components : List (ℕ × ℕ)
pow10_components = components_0 ++ components_1 ++ components_2 ++ components_3 ++ components_4

-- The 64 bits behind them.
unfoldable pub mantissa_128 : List ℕ
mantissa_128 = mantissas_0 ++ mantissas_1 ++ mantissas_2 ++ mantissas_3 ++ mantissas_4
