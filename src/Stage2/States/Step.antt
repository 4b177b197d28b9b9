-- ===== src/Stage2/States/Step.antt =====
-- src/stage2.rs: the arms of the loop over the states.
use simd_toon_improved.Stage2.Machine.{Env, M, ◌>>=◌}
use simd_toon_improved.Stage2.Header.{read_header}
use simd_toon_improved.Stage2.States.{
  State, Next, scope_end, parse_header, parse_simple_object_value, parse_tabular_objects,
  parse_inline_array, parse_empty_array, parse_tabular_array_strict, parse_tabular_array_lenient,
  parse_nested_field_groups_array_strict, parse_block_array, expect_block_array_item,
}
use simd_toon_improved.Stage2.States.Values.{on_parse_header, on_simple_object_value}
use simd_toon_improved.Stage2.States.Arrays.{
  on_empty_array, on_inline_array, on_block_array, on_expect_item,
}
use simd_toon_improved.Stage2.States.Tables.{
  on_tabular_objects, on_tabular_array_lenient, on_tabular_array_strict, on_nested_field_groups,
}
use simd_toon_improved.Stage2.States.Close.{on_scope_end}

-- One round of the loop over the states.
unfoldable pub step : Env → State → M Next
step env scope_end = on_scope_end env
step env parse_header = do header_type ← read_header env; on_parse_header env header_type
step env parse_simple_object_value = on_simple_object_value env
step env (parse_tabular_objects key headers rows_count delimiter is_root) =
    on_tabular_objects env key headers rows_count delimiter is_root
step env (parse_inline_array count key delimiter is_root) =
    on_inline_array env count key delimiter is_root
step env (parse_empty_array key is_root) = on_empty_array env key is_root
step env (parse_tabular_array_strict key headers rows_count delimiter is_root) =
    on_tabular_array_strict env key headers rows_count delimiter is_root
step env (parse_tabular_array_lenient key headers delimiter is_root) =
    on_tabular_array_lenient env key headers delimiter is_root
step env (parse_nested_field_groups_array_strict key nested_fields rows_count delimiter is_root) =
    on_nested_field_groups env key nested_fields rows_count delimiter is_root
step env (parse_block_array count key is_root) = on_block_array env count key is_root
step env expect_block_array_item = on_expect_item env
