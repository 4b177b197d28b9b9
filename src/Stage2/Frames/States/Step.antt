-- ===== src/Stage2/Frames/States/Step.antt =====
-- src/stage2.rs: the frames across a round of the loop.
use simd_toon_improved.Base.{ℕ, arith}
use simd_toon_improved.Stage2.Machine.{Env}
use simd_toon_improved.Stage2.Triple.{Triple, bind_rule}
use simd_toon_improved.Stage2.States.{
  State, scope_end, parse_header, parse_simple_object_value, parse_inline_array,
  parse_tabular_objects, parse_empty_array, parse_tabular_array_strict, parse_tabular_array_lenient,
  parse_nested_field_groups_array_strict, parse_block_array, expect_block_array_item,
}
use simd_toon_improved.Stage2.States.Step.{step}
use simd_toon_improved.Stage2.Quiet.{IsTotal}
use simd_toon_improved.Stage2.Frames.{Good}
use simd_toon_improved.Stage2.Frames.Close.{rank, After, on_scope_end-After}
use simd_toon_improved.Stage2.Frames.States.{shift_rule, read_header-Good}
use simd_toon_improved.Stage2.Frames.States.Values.{
  on_parse_header-After, on_simple_object_value-After,
}
use simd_toon_improved.Stage2.Frames.States.Arrays.{
  on_empty_array-After, on_inline_array-After, on_block_array-After, on_expect_item-After,
}
use simd_toon_improved.Stage2.Frames.States.Tables.{
  on_tabular_objects-After, on_tabular_array_strict-After, on_tabular_array_lenient-After,
  on_nested_field_groups-After,
}

module _ (env : Env) (t : IsTotal env) {w : ℕ} where
  -- A round of the loop over the states leaves less to do than it found, keeps the frames, and
  -- succeeds only with a root that spans the tape.
  pub step-After : (s : State) → Triple (Good w (rank s)) (step env s) (After w)
  unfolding step
  step-After scope_end = on_scope_end-After env
  step-After parse_header =
      bind_rule (read_header-Good env) λ h. shift_rule (omega arith) (on_parse_header-After env t h)
  step-After parse_simple_object_value = on_simple_object_value-After env t
  step-After (parse_tabular_objects key hs n d r) = on_tabular_objects-After env t key hs n d r
  step-After (parse_inline_array n key d r) = on_inline_array-After env t n key d r
  step-After (parse_empty_array key r) = on_empty_array-After env t key r
  step-After (parse_tabular_array_strict key hs n d r) =
      on_tabular_array_strict-After env t key hs n d r
  step-After (parse_tabular_array_lenient key hs d r) =
      on_tabular_array_lenient-After env t key hs d r
  step-After (parse_nested_field_groups_array_strict key fs n d r) =
      on_nested_field_groups-After env t key fs n d r
  step-After (parse_block_array n key r) = on_block_array-After env t n key r
  step-After expect_block_array_item = on_expect_item-After env t
