-- ===== src/Stage2/States.antt =====
-- src/stage2.rs: the states of `build_tape`, and what each does before the next.
pub mod Values
pub mod Arrays
pub mod Tables
pub mod Close
pub mod Step
use simd_toon_improved.Base.{ℕ, ◌+◌, ◌-◌, Bool, Option, none, some, List, ◌==◌, if◌then◌else◌}
use simd_toon_improved.Error.{no_structure, expected_array_content}
use simd_toon_improved.Tape.{Node}
use simd_toon_improved.Stage2.Machine.{
  Span, Env, Machine, M, ◌>>◌, pure, fail, insert_str, bump_cnt, curr_indent, frame_keyed,
  open_scope, push_ws,
}
use simd_toon_improved.Stage2.Scan.{EolState, sibling, nested}
use simd_toon_improved.Stage2.Header.{NestedFields}

-- The fields of each are those of the source, in its order.
pub data State : Type 0 where
  scope_end parse_header parse_simple_object_value : State
  parse_tabular_objects : Option Span → List Span → ℕ → ℕ → Bool → State
  parse_inline_array : ℕ → Option Span → ℕ → Bool → State
  parse_empty_array : Option Span → Bool → State
  parse_tabular_array_strict : Option Span → List Span → ℕ → ℕ → Bool → State
  parse_tabular_array_lenient : Option Span → List Span → ℕ → Bool → State
  parse_nested_field_groups_array_strict : Option Span → NestedFields → ℕ → ℕ → Bool → State
  parse_block_array : ℕ → Option Span → Bool → State
  expect_block_array_item : State

-- `goto!`, and `success!`
pub data Next : Type 0 where
  goto : State → Next
  success : Next

unfoldable pub insert_key : Env → Option Span → M (Unit {0})
insert_key env none = pure tt
insert_key env (some (key_start, key_end)) = do bump_cnt; insert_str env key_start key_end

-- `\n` behind the header's `:` means a block array.
abbrev pub array_state : ℕ → Option Span → ℕ → Bool → Machine → State
array_state count key delimiter is_root m =
    if m.c == b'\n'
    then parse_block_array count key is_root
    else parse_inline_array count key delimiter is_root

abbrev pub next_field : EolState → M Next
next_field sibling = pure (goto parse_header)
next_field EolState.close_scope = pure (goto scope_end)
next_field nested = fail no_structure

-- The container of a header: the root's is on the tape already.
unfoldable pub open_container : Env → Node → Option Span → (Machine → ℕ) → Bool → M (Unit {0})
open_container env node key ws is_root =
    if is_root
    then push_ws (λ m. curr_indent m + env.indent_size)
    else open_scope node (frame_keyed key) ws

abbrev pub end_scope : EolState → M Next
end_scope EolState.close_scope = pure (goto scope_end)
end_scope sibling = pure (goto scope_end)
end_scope nested = fail no_structure

abbrev pub require_nested : EolState → M (Unit {0})
require_nested nested = pure tt
require_nested sibling = fail expected_array_content
require_nested EolState.close_scope = fail expected_array_content

abbrev pub next_item : EolState → M Next
next_item sibling = pure (goto expect_block_array_item)
next_item EolState.close_scope = pure (goto scope_end)
next_item nested = fail no_structure
