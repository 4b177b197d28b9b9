-- ===== src/Options/Bounds.antt =====
-- src/decode_options.rs: the options that a program can build.
use simd_toon_improved.Base.{ℕ, ◌≤◌, Bool, arith, ◌≡◌}
use simd_toon_improved.Error.{ok}
use simd_toon_improved.Options.{
  DecodeOptions, new, lenient, set_strict, with_strict, set_indent_size, with_indent_size,
}

-- The options that the constructors and the setters lead to, the failing calls of the setters included.
pub data Reachable : DecodeOptions → Type 0 where
  from_new : Reachable new
  from_lenient : Reachable lenient
  by_set_strict : {o : DecodeOptions} → (b : Bool) → Reachable o → Reachable (set_strict o b)
  by_with_strict : {o : DecodeOptions} → (b : Bool) → Reachable o → Reachable (with_strict o b)
  by_set_indent_size :
      {o : DecodeOptions} → (n : ℕ) → Reachable o → Reachable (set_indent_size o n).0
  by_with_indent_size :
      {o o' : DecodeOptions} → (n : ℕ) → Reachable o → with_indent_size o n ≡ ok o' → Reachable o'

set_indent_size-positive :
    (o : DecodeOptions) (n : ℕ) → 1 ≤ o.indent_size → 1 ≤ ((set_indent_size o n).0).indent_size
unfolding set_indent_size
set_indent_size-positive o n h = ground arith

with_indent_size-positive :
    (o o' : DecodeOptions) (n : ℕ) → with_indent_size o n ≡ ok o' → 1 ≤ o'.indent_size
unfolding with_indent_size set_indent_size
with_indent_size-positive o o' n h = ground arith

-- Whatever calls build the options, failing ones included, the indentation is at least 1.
pub Reachable-positive : (o : DecodeOptions) → Reachable o → 1 ≤ o.indent_size
unfolding new lenient set_strict with_strict
Reachable-positive o from_new = omega arith
Reachable-positive o from_lenient = omega arith
Reachable-positive o (by_set_strict {o = p} b r) = Reachable-positive p r
Reachable-positive o (by_with_strict {o = p} b r) = Reachable-positive p r
Reachable-positive o (by_set_indent_size {o = p} n r) =
    set_indent_size-positive p n (Reachable-positive p r)
Reachable-positive o (by_with_indent_size {o = p} n r e) = with_indent_size-positive p o n e
