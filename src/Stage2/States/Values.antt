-- ===== src/Stage2/States/Values.antt =====
-- src/stage2.rs: the states `ParseHeader` and `ParseSimpleObjectValue`.
use simd_toon_improved.Base.{ℕ, ◌+◌, false, [], ◌∷◌, ◌==◌, if◌then◌else◌, equal}
use simd_toon_improved.Error.{no_structure}
use simd_toon_improved.Tape.{Node}
use simd_toon_improved.Stage2.Machine.{
  Env, M, ◌>>=◌, ◌>>◌, pure, lift, gets, reading, fail, slice, update_char, insert_res, insert_str,
  bump_cnt, curr_indent, frame_object, open_scope,
}
use simd_toon_improved.Stage2.Scan.{
  get_value_end, insert_inferred_value, EolState, sibling, nested, get_eol_state, is_empty,
}
use simd_toon_improved.Stage2.Header.{
  HeaderType, primitive_value, object_start, empty_object, simple_array, empty_array,
  keyed_tabular_objects, tabular_array, nested_field_groups_array,
}
use simd_toon_improved.Stage2.Rows.{is_newline}
use simd_toon_improved.Stage2.States.{
  Next, array_state, next_field, scope_end, parse_header, parse_simple_object_value,
  parse_tabular_objects, parse_empty_array, parse_tabular_array_strict,
  parse_nested_field_groups_array_strict, goto,
}

unfoldable pub on_parse_header : Env → HeaderType → M Next
on_parse_header env (object_start (key_start, key_end)) = do
  bump_cnt
  insert_str env key_start key_end
  update_char env
  pure (goto parse_simple_object_value)
on_parse_header env (simple_array count key delimiter) = do
  update_char env
  gets λ m. goto (array_state count key delimiter false m)
on_parse_header env (empty_array key) = pure (goto (parse_empty_array key false))
on_parse_header env (keyed_tabular_objects key headers rows_count delimiter) =
    pure (goto (parse_tabular_objects key headers rows_count delimiter false))
on_parse_header env (tabular_array key headers rows_count delimiter) =
    pure (goto (parse_tabular_array_strict key headers rows_count delimiter false))
on_parse_header env (nested_field_groups_array key nested_fields rows_count delimiter) =
    pure
      (goto (parse_nested_field_groups_array_strict key nested_fields rows_count delimiter false))
on_parse_header env (primitive_value val) = fail no_structure
on_parse_header env empty_object = fail no_structure

-- A line that ends behind `key:`.
abbrev pub after_empty_value : Env → EolState → M Next
after_empty_value env nested = do
  open_scope (Node.object 0 0) frame_object (λ m. curr_indent m + env.indent_size)
  pure (goto parse_header)
after_empty_value env sibling = do insert_res (Node.object 0 0); pure (goto parse_header)
after_empty_value env EolState.close_scope = pure (goto scope_end)

unfoldable pub insert_value : Env → ℕ → ℕ → M (Unit {0})
insert_value env value_start value_end = do
  word ← lift (slice env value_start value_end)
  if equal word (b'[' ∷ b']' ∷ [])
      then insert_res (Node.array 0 0)
      else insert_inferred_value env value_start value_end

unfoldable pub on_empty_value : Env → M Next
on_empty_value env = reading λ m.
    if is_empty m.rest
    then (insert_res (Node.object 0 0) >> pure (goto scope_end))
    else (get_eol_state env false >>= after_empty_value env)

unfoldable pub on_value : Env → M Next
unfolding insert_value
on_value env = do
  value_start ← gets λ m. m.idx
  value_end ← get_value_end env is_newline
  insert_value env value_start value_end
  reading λ m.
      if is_empty m.rest then pure (goto scope_end) else (get_eol_state env false >>= next_field)

unfoldable pub on_simple_object_value : Env → M Next
unfolding on_empty_value on_value
on_simple_object_value env = reading λ m. if m.c == b'\n' then on_empty_value env else on_value env
