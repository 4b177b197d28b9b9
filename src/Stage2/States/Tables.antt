-- ===== src/Stage2/States/Tables.antt =====
-- src/stage2.rs: the tabular states.
use simd_toon_improved.Base.{ℕ, ◌+◌, ◌*◌, Bool, false, Option, List, length}
use simd_toon_improved.Tape.{Node}
use simd_toon_improved.Stage2.Machine.{
  Span, Env, M, ◌>>=◌, ◌>>◌, pure, lift, reading, checked_sub, update_char, curr_indent,
  reserve_rows,
}
use simd_toon_improved.Stage2.Scan.{get_eol_state}
use simd_toon_improved.Stage2.Header.{NestedFields}
use simd_toon_improved.Stage2.Rows.{
  keyed_row, array_row, nested_row, counted_rows, row_loop, lenient_rows,
}
use simd_toon_improved.Stage2.States.{
  Next, insert_key, open_container, require_nested, scope_end, goto,
}

-- The key, the line end behind the header, and the container of a tabular form.
unfoldable pub open_table : Env → Node → Option Span → Bool → M (Unit {0})
unfolding open_container
open_table env node key is_root = do
  insert_key env key
  update_char env
  eol ← get_eol_state env false
  require_nested eol
  open_container env node key (λ m. curr_indent m + env.indent_size) is_root

unfoldable pub on_tabular_objects : Env → Option Span → List Span → ℕ → ℕ → Bool → M Next
unfolding open_table
on_tabular_objects env key headers rows_count delimiter is_root = do
  open_table env (Node.object 0 0) key is_root
  counted_rows env (keyed_row env delimiter headers) rows_count
  pure (goto scope_end)

unfoldable pub on_tabular_array_lenient : Env → Option Span → List Span → ℕ → Bool → M Next
unfolding open_table
on_tabular_array_lenient env key headers delimiter is_root = do
  open_table env (Node.array 0 0) key is_root
  reading λ m. lenient_rows (4 * length m.rest + m.depth + 1) env delimiter headers
  pure (goto scope_end)

unfoldable pub on_tabular_array_strict : Env → Option Span → List Span → ℕ → ℕ → Bool → M Next
unfolding open_table
on_tabular_array_strict env key headers rows_count delimiter is_root = do
  reserve_rows env rows_count
  open_table env (Node.array 0 0) key is_root
  counted_rows env (array_row env delimiter headers) rows_count
  pure (goto scope_end)

unfoldable pub on_nested_field_groups : Env → Option Span → NestedFields → ℕ → ℕ → Bool → M Next
unfolding open_table
on_nested_field_groups env key nested_fields rows_count delimiter is_root = do
  reserve_rows env (rows_count * (1 + 2 * nested_fields.nested_count))
  open_table env (Node.array 0 0) key is_root
  n ← lift (checked_sub rows_count 1)
  row_loop env (nested_row env delimiter nested_fields) n
  pure (goto scope_end)
