-- ===== src/Stage2/States/Arrays.antt =====
-- src/stage2.rs: the states of empty, inline and block arrays.
use simd_toon_improved.Base.{
  ℕ, zero, suc, ◌+◌, ◌-◌, Bool, true, false, not, Option, none, some, List, [], ◌∷◌, leb, ◌==◌,
  if◌then◌else◌,
}
use simd_toon_improved.Error.{syntax, expected_array, ok}
use simd_toon_improved.Tape.{Node}
use simd_toon_improved.Stage2.Machine.{
  Span, Env, Machine, M, ◌>>=◌, ◌>>◌, pure, modify, gets, reading, panic, fail, update_char,
  insert_res, insert_str, bump_cnt, curr_indent, frame_array, open_scope,
}
use simd_toon_improved.Stage2.Scan.{insert_inferred_value, get_eol_state}
use simd_toon_improved.Stage2.Header.{
  HeaderType, primitive_value, object_start, empty_object, simple_array, empty_array,
  keyed_tabular_objects, tabular_array, nested_field_groups_array, read_header,
}
use simd_toon_improved.Stage2.Rows.{is_newline, insert_cell}
use simd_toon_improved.Stage2.States.{
  Next, insert_key, array_state, open_container, end_scope, require_nested, next_item,
  parse_simple_object_value, parse_tabular_objects, parse_empty_array, parse_tabular_array_strict,
  parse_nested_field_groups_array_strict, expect_block_array_item, goto,
}

unfoldable pub on_empty_array : Env → Option Span → Bool → M Next
unfolding open_container
on_empty_array env key is_root = do
  update_char env
  insert_key env key
  open_container env (Node.array 0 0) key (λ m. curr_indent m + env.indent_size) is_root
  eol ← get_eol_state env false
  end_scope eol

unfoldable pub inline_item : Env → ℕ → M (Unit {0})
inline_item env delimiter = do
  bump_cnt
  insert_cell env (λ c. c == delimiter)
  reading λ m. if not (m.c == delimiter) then fail syntax else pure tt
  update_char env

-- All elements but the last.
unfoldable pub inline_items : Env → ℕ → ℕ → M (Unit {0})
inline_items env delimiter zero m = ok (tt, m)
inline_items env delimiter (suc n) m =
    (inline_item env delimiter >> λ m'. inline_items env delimiter n m') m

unfoldable pub on_inline_array : Env → ℕ → Option Span → ℕ → Bool → M Next
unfolding open_container
on_inline_array env count key delimiter is_root = do
  insert_key env key
  open_container env (Node.array 0 0) key curr_indent is_root
  inline_items env delimiter (count - 1)
  bump_cnt
  insert_cell env is_newline
  eol ← get_eol_state env true
  end_scope eol

unfoldable pub on_block_array : Env → ℕ → Option Span → Bool → M Next
unfolding open_container
on_block_array env count key is_root = do
  insert_key env key
  eol ← get_eol_state env false
  require_nested eol
  open_container env (Node.array 0 0) key (λ m. curr_indent m + env.indent_size) is_root
  modify λ m. record m { pending_counts = (m.depth, count) ∷ m.pending_counts }
  pure (goto expect_block_array_item)

-- The object around an item `- key[..]..`.
unfoldable pub open_item : Env → Option Span → M (Unit {0})
open_item env none = pure tt
open_item env (some key) =
    open_scope (Node.object 0 0) frame_array (λ m. curr_indent m + env.indent_size)

unfoldable pub on_item : Env → HeaderType → M Next
unfolding open_item
on_item env (primitive_value (val_start, val_end)) = do
  insert_inferred_value env val_start val_end
  eol ← get_eol_state env false
  next_item eol
on_item env empty_object = do
  insert_res (Node.object 0 0)
  eol ← get_eol_state env false
  next_item eol
on_item env (object_start (key_start, key_end)) = do
  open_scope (Node.object 0 0) frame_array (λ m. curr_indent m + 2)
  insert_str env key_start key_end
  bump_cnt
  update_char env
  pure (goto parse_simple_object_value)
on_item env (simple_array count key delimiter) = do
  open_item env key
  update_char env
  gets λ m. goto (array_state count key delimiter false m)
on_item env (empty_array key) = do open_item env key; pure (goto (parse_empty_array key false))
on_item env (keyed_tabular_objects key headers rows_count delimiter) = do
  open_item env key
  pure (goto (parse_tabular_objects key headers rows_count delimiter false))
on_item env (tabular_array key headers rows_count delimiter) = do
  open_item env key
  pure (goto (parse_tabular_array_strict key headers rows_count delimiter false))
on_item env (nested_field_groups_array key nested_fields rows_count delimiter) = do
  open_item env key
  pure (goto (parse_nested_field_groups_array_strict key nested_fields rows_count delimiter false))

-- More items than declared. The innermost count belongs to this depth: `debug_assert_eq!(d, depth)`.
abbrev pub check_declared : Machine → List (ℕ × ℕ) → M (Unit {0})
check_declared m [] = pure tt
check_declared m ((d, expected) ∷ ps) =
    if d == m.depth then (if leb expected m.cnt then fail syntax else pure tt) else panic

unfoldable pub on_expect_item : Env → M Next
unfolding on_item
on_expect_item env = do
  reading λ m. if not (m.c == b'-') then fail expected_array else pure tt
  reading λ m. if env.strict then check_declared m m.pending_counts else pure tt
  update_char env
  bump_cnt
  header_type ← read_header env
  on_item env header_type
