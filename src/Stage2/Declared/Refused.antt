-- ===== src/Stage2/Declared/Refused.antt =====
-- src/stage2.rs: the two tests of a block array against the count on top of `pending_counts`.
use simd_toon_improved.Base.{ℕ, ◌≤◌, ◌≡◌, ◌≢◌, refl, arith, true, false, List, ◌∷◌, leb, ◌==◌}
use simd_toon_improved.Error.{err, new_c, syntax}
use simd_toon_improved.Stage2.Machine.{Env, Machine, ◌>>◌, ◌>>=◌, pure, modify, reading, fail}
use simd_toon_improved.Stage2.States.Close.{check_pending, on_scope_end}
use simd_toon_improved.Stage2.States.Arrays.{on_expect_item}

==-self : (n : ℕ) → (n == n) ≡ true
==-self n = ground arith

==-ne : (a b : ℕ) → a ≢ b → (a == b) ≡ false
==-ne a b h = ground arith

le→leb : (a b : ℕ) → a ≤ b → leb a b ≡ true
le→leb a b h = ground arith

module _ (env : Env) (m : Machine) {expected : ℕ} {ps : List (ℕ × ℕ)} (strict : env.strict ≡ true)
    (top : m.pending_counts ≡ (m.depth, expected) ∷ ps) where
  -- In strict mode, a block array whose declared count is on top of `pending_counts` does not end with
  -- another number of items: that is a syntax error at the current token.
  pub on_scope_end-refuses :
      1 ≤ m.depth → m.cnt ≢ expected → on_scope_end env m ≡ err (new_c m.idx m.c syntax)
  unfolding on_scope_end ◌>>◌ reading check_pending modify pure fail
  on_scope_end-refuses deep h =
      rw (==-ne m.depth 0 (omega arith), top, ==-self m.depth, strict, ==-ne m.cnt expected h) refl

  -- In strict mode, a block array that has as many items as the declared count on top of
  -- `pending_counts`, or more, takes no further item: that is a syntax error at the current token.
  pub on_expect_item-refuses :
      m.c ≡ b'-' → expected ≤ m.cnt → on_expect_item env m ≡ err (new_c m.idx m.c syntax)
  unfolding on_expect_item ◌>>◌ ◌>>=◌ reading pure fail
  on_expect_item-refuses dash h =
      rw (dash, strict, top, ==-self m.depth, le→leb expected m.cnt h) refl
