-- ===== src/Stage2/States/Close.antt =====
-- src/stage2.rs: the state `ScopeEnd`.
use simd_toon_improved.Base.{
  ℕ, ◌-◌, false, not, ◌&&◌, Option, none, some, List, [], ◌∷◌, ◌==◌, if◌then◌else◌, get_elem?,
}
use simd_toon_improved.Error.{syntax, ok}
use simd_toon_improved.Tape.{Node}
use simd_toon_improved.Stage2.Machine.{
  StackState, Env, M, ◌>>=◌, ◌>>◌, pure, modify, reading, panic, fail, fail_tape, update_char,
  backfilled, leave,
}
use simd_toon_improved.Stage2.Scan.{EolState, get_eol_state, eol_state_from_ws, is_empty}
use simd_toon_improved.Stage2.States.{Next, next_field, next_item, scope_end, goto, success}

-- The declared count of the block array that ends here.
unfoldable pub check_pending : Env → List (ℕ × ℕ) → M (Unit {0})
check_pending env [] = pure tt
check_pending env ((d, expected) ∷ ps) = reading λ m.
    if d == m.depth
    then (modify (λ k. record k { pending_counts = ps })
        >> (if env.strict && not (m.cnt == expected) then fail syntax else pure tt))
    else pure tt

unfoldable pub backfill : Option Node → M (Unit {0})
backfill (some (Node.object len n)) m = ok (tt, record m { tape = backfilled Node.object m })
backfill (some (Node.array len n)) m = ok (tt, record m { tape = backfilled Node.array m })
backfill (some (Node.string s)) m = fail_tape m
backfill (some (Node.static v)) m = fail_tape m
backfill none m = panic m

-- A newline that is not consumed yet, or the indentation measured at the last one.
unfoldable pub eol_after_close : Env → M EolState
eol_after_close env =
    reading
      λ m. if m.c == b'\n' then get_eol_state env false else eol_state_from_ws env m.last_dedent_ws

unfoldable pub skip_trailing : Env → List ℕ → M (Unit {0})
skip_trailing env [] m = ok (tt, m)
skip_trailing env (k ∷ ks) m =
    if m.c == b'\n' then (update_char env >> λ m'. skip_trailing env ks m') m else ok (tt, m)

unfoldable pub resume : Env → List StackState → M Next
resume env (StackState.object l parent_cnt ∷ s) = do
  modify λ m. record m { last_start = l; cnt = parent_cnt; stack = s }
  eol ← eol_after_close env
  next_field eol
resume env (StackState.array l parent_cnt ∷ s) = do
  modify λ m. record m { last_start = l; cnt = parent_cnt; stack = s }
  reading
      λ m. if is_empty m.rest then pure (goto scope_end) else (eol_after_close env >>= next_item)
resume env (StackState.start ∷ s) = do
  reading λ m. skip_trailing env m.rest
  reading λ m. if is_empty m.rest then pure success else fail_tape
resume env [] = panic

unfoldable pub on_scope_end : Env → M Next
unfolding check_pending backfill resume eol_after_close
on_scope_end env = do
  reading λ m. if m.depth == 0 then fail syntax else pure tt
  reading λ m. check_pending env m.pending_counts
  modify λ m. leave m (m.depth - 1)
  reading λ m. backfill (get_elem? m.tape m.last_start)
  reading λ m. resume env m.stack
