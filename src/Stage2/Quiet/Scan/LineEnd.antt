-- ===== src/Stage2/Quiet/Scan/LineEnd.antt =====
-- src/stage2.rs: `get_eol_state!` among the pieces that open and close no container.
use simd_toon_improved.Base.{
  ℕ, ◌+◌, ◌≤◌, ◌⊎◌, Bool, true, false, not, Option, List, [], ◌∷◌, ◌≡◌, ◌≢◌, refl, inl, inr, arith,
  length, ◌==◌,
}
use simd_toon_improved.Error.{syntax, out_of_fuel}
use simd_toon_improved.Stage2.Machine.{
  Env, Machine, and_then, ◌>>=◌, pure, modify, gets, reading, fail, move, checked_sub,
}
use simd_toon_improved.Stage2.Triple.{
  Ensures, holds, if_Ensures, branch-Ensures, fail-Ensures, ends-Ensures, mono-Ensures,
}
use simd_toon_improved.Stage2.Scan.{
  skip_blank, bottom, inside_pending, measure_dedent, read_from, read_newline, get_eol_state,
  is_empty, EolState, close_scope,
}
use simd_toon_improved.Stage2.Quiet.{
  Kind, Extends-refl, Counts-refl, Same, Same-refl, Same-trans, Quiet, quiet, Quiet-lift,
  Quiet-bind, Quiet-reading, Quiet-if, Quiet-then, Quiet-pure, Quiet-fail,
}
use simd_toon_improved.Stage2.Quiet.Scan.{
  byte_at-ends, Same-move, eol_state_from_ws-Quiet, Steps, run-Steps, update_char-Steps, Steps-then,
}

skip_blank-Same :
    {kind : Kind}
    → (env : Env) (ks : List ℕ) (old : ℕ) (consecutive : Bool) (m : Machine)
    → length ks ≤ length m.rest
    → Ensures (λ a m'. Same kind m m') (skip_blank env ks old consecutive m)
unfolding skip_blank
skip_blank-Same env [] old consecutive m h =
    if_Ensures (m.c == b'\n') (holds (Same-refl m)) (holds (Same-refl m))
skip_blank-Same env (k ∷ ks) old consecutive m h =
    if_Ensures (m.c == b'\n')
      (ends-Ensures _ _ (byte_at-ends env k) λ b.
        mono-Ensures (skip_blank-Same env ks m.idx true (move m k b ks) (omega arith))
          λ a m'. Same-trans (Same-move m b k ks (omega arith)))
      (holds (Same-refl m))

set_dedent-Quiet :
    {kind : Kind} → (ws : ℕ) → Quiet kind (modify λ m. record m { last_dedent_ws = ws })
unfolding modify
set_dedent-Quiet {kind} ws = quiet λ m. holds (record {
  fewer = omega arith;
  depth = refl;
  stack = refl;
  last_start = refl;
  content_ws_stack = refl;
  pending_counts = refl;
  tape = Extends-refl kind m.tape;
  entries = Counts-refl kind m.cnt;
})

inside_pending-ends : (m : Machine) (p : Option (ℕ × ℕ)) → inside_pending m p ≢ out_of_fuel
inside_pending-ends m p = ground arith

measure_dedent-Quiet :
    {kind : Kind}
    → (env : Env) (should_error : Bool) (old : ℕ) (consecutive : Bool)
    → Quiet kind (measure_dedent env should_error old consecutive)
unfolding measure_dedent
measure_dedent-Quiet env should_error old consecutive =
    Quiet-bind (Quiet-reading _ λ m. Quiet-lift _ (gap-ends m.idx old)) λ gap.
      Quiet-then (set_dedent-Quiet gap) (
        Quiet-bind
          (Quiet-reading _ λ m. Quiet-lift _ (inside_pending-ends m (bottom m.pending_counts)))
          λ inside. Quiet-if _ (Quiet-fail _) (eol_state_from_ws-Quiet env gap))
  where
    gap-ends : (a b : ℕ) → and_then (checked_sub a b) (λ d. checked_sub d 1) ≢ out_of_fuel
    gap-ends a b = ground arith

skip_blank-Quiet :
    {kind : Kind}
    → (env : Env) (old : ℕ) → Quiet kind (reading λ m. skip_blank env m.rest old false)
unfolding reading
skip_blank-Quiet env old = quiet λ m. skip_blank-Same env m.rest old false m (omega arith)

read_newline-Steps :
    {kind : Kind}
    → (env : Env) (should_error : Bool) (old : ℕ) → Steps kind (read_from env should_error old)
unfolding read_from
read_newline-Steps env should_error old = Steps-then (update_char-Steps env) (
    Quiet-bind (skip_blank-Quiet env old) λ blank.
      Quiet-reading _
        λ m. Quiet-if _ (Quiet-pure _) (measure_dedent-Quiet env should_error blank.0 blank.1))

-- A line that does not end the scope lies behind a newline that was read.
abbrev pub Advances : Kind → Machine → EolState → Machine → Type 0
Advances kind m eol m' =
    Same kind m m' × ((eol ≡ close_scope) ⊎ (length m'.rest + 1 ≤ length m.rest))

pub get_eol_state-Advances :
    {kind : Kind}
    → (env : Env) (should_error : Bool) (m : Machine)
    → Ensures (Advances kind m) (get_eol_state env should_error m)
unfolding get_eol_state reading pure read_newline gets ◌>>=◌
get_eol_state-Advances env should_error m =
    branch-Ensures (is_empty m.rest) _ _ (holds (Same-refl m, inl refl)) (
      branch-Ensures (not (m.c == b'\n')) (fail syntax) _ (fail-Ensures _ m) (
        mono-Ensures (run-Steps (read_newline-Steps env should_error m.idx) m)
          λ eol m' s. (s.0, inr s.1)))

pub get_eol_state-Quiet :
    {kind : Kind} → (env : Env) (should_error : Bool) → Quiet kind (get_eol_state env should_error)
get_eol_state-Quiet env should_error =
    quiet λ m. mono-Ensures (get_eol_state-Advances env should_error m) λ eol m' s. s.0
