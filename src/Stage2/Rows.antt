-- ===== src/Stage2/Rows.antt =====
-- src/stage2.rs: the rows of the tabular forms.
pub mod Walk
use simd_toon_improved.Base.{
  ℕ, zero, suc, ◌+◌, Bool, true, false, not, ◌&&◌, Option, none, some, List, [], ◌∷◌, leb, ◌==◌,
  if◌then◌else◌, length, take,
}
use simd_toon_improved.Error.{syntax, expected_array_content, ok, out_of_fuel}
use simd_toon_improved.Tape.{Node}
use simd_toon_improved.Stage2.Machine.{
  Span, Env, M, ◌>>=◌, ◌>>◌, pure, lift, gets, reading, fail, fail_tape, checked_sub, update_char,
  insert_str, bump_cnt, curr_indent, frame_object, frame_array, open_scope, close_and_pop_state,
  grow_res, spend_slack,
}
use simd_toon_improved.Stage2.Scan.{
  get_value_end, insert_inferred_value, EolState, sibling, nested, get_eol_state,
}
use simd_toon_improved.Stage2.Header.{FieldEntry, FieldEntries, nil, cons, NestedFields, leaf}

-- One token, up to a byte where it stops, as a value. The result is its span.
unfoldable pub insert_cell : Env → (ℕ → Bool) → M Span
insert_cell env stops = do
  value_start ← gets λ m. m.idx
  value_end ← get_value_end env stops
  insert_inferred_value env value_start value_end
  pure (value_start, value_end)

unfoldable pub insert_field_name : Env → Span → M (Unit {0})
insert_field_name env (h_start, h_end) = do insert_str env h_start h_end; bump_cnt

abbrev pub is_newline : ℕ → Bool
is_newline c = c == b'\n'

unfoldable pub expect_delimiter : Bool → ℕ → M (Unit {0})
expect_delimiter check delimiter =
    reading λ m. if check && not (m.c == delimiter) then fail syntax else pure tt

-- The loop over all headers but the last. Rows of keyed objects test the delimiter once more.
unfoldable pub first_cells : Env → Bool → ℕ → List Span → M (Unit {0})
first_cells env check delimiter [] = pure tt
first_cells env check delimiter (h ∷ hs) = do
  insert_field_name env h
  insert_cell env (λ c. c == delimiter)
  expect_delimiter check delimiter
  update_char env
  first_cells env check delimiter hs

abbrev pub last_elem? {ℓ} : {A : Type ℓ} → List A → Option A
last_elem? [] = none
last_elem? (x ∷ []) = some x
last_elem? (x ∷ y ∷ ys) = last_elem? (y ∷ ys)

-- `reject_cell_less_row!`, for keyed objects
abbrev pub reject_cell_less_row : Bool → ℕ → Span → M (Unit {0})
reject_cell_less_row check n_headers (value_start, value_end) =
    if check && (n_headers == 1 && value_start == value_end)
    then fail expected_array_content
    else pure tt

unfoldable pub last_cell : Env → Bool → ℕ → Option Span → M (Unit {0})
last_cell env check n_headers none = fail_tape
last_cell env check n_headers (some h) = do
  insert_field_name env h
  value_start ← gets λ m. m.idx
  value_end ← get_value_end env is_newline
  reject_cell_less_row check n_headers (value_start, value_end)
  insert_inferred_value env value_start value_end

unfoldable pub row_cells : Env → Bool → ℕ → List Span → M (Unit {0})
unfolding first_cells last_cell
row_cells env check delimiter headers = do
  n ← lift (checked_sub (length headers) 1)
  first_cells env check delimiter (take n headers)
  last_cell env check (length headers) (last_elem? headers)

-- A row of `ParseTabularObjects`.
unfoldable pub keyed_row : Env → ℕ → List Span → M (Unit {0})
keyed_row env delimiter headers = do
  row_key_start ← gets λ m. m.idx
  row_key_end ← get_value_end env (λ c. c == b':')
  reading λ m. if not (m.c == b':') then fail syntax else pure tt
  bump_cnt
  insert_str env row_key_start row_key_end
  open_scope (Node.object 0 0) frame_object curr_indent
  update_char env
  row_cells env true delimiter headers
  close_and_pop_state

-- A row of `ParseTabularArrayStrict` and `ParseTabularArrayLenient`.
unfoldable pub array_row : Env → ℕ → List Span → M (Unit {0})
array_row env delimiter headers = do
  bump_cnt
  open_scope (Node.object 0 0) frame_array curr_indent
  row_cells env false delimiter headers
  close_and_pop_state

pub data WorkItem : Type 0 where
  process : FieldEntry → WorkItem
  close_scope : WorkItem

-- `children.iter().rev()`, each pushed
unfoldable pub push_children : FieldEntries → List WorkItem → List WorkItem
push_children nil work = work
push_children (cons x xs) work = process x ∷ push_children xs work

-- A leaf of a row: the last one runs to the end of the line.
unfoldable pub insert_leaf : Env → ℕ → ℕ → ℕ → Span → M (Unit {0})
insert_leaf env delimiter leaf_count curr_leaf_count h = do
  insert_field_name env h
  if curr_leaf_count + 1 == leaf_count
      then (insert_cell env is_newline >> pure tt)
      else (insert_cell env (λ c. c == delimiter) >> update_char env)

unfoldable pub enter_group : Env → Span → M (Unit {0})
enter_group env name = do
  insert_field_name env name
  open_scope (Node.object 0 0) frame_object curr_indent

-- `while let Some(work_item) = entry_stack.pop()`; the result is `curr_leaf_count`.
unfoldable pub work_loop : ℕ → Env → ℕ → ℕ → ℕ → List WorkItem → M ℕ
work_loop fuel env delimiter leaf_count curr [] m = ok (curr, m)
work_loop zero env delimiter leaf_count curr (w ∷ work) m = out_of_fuel
work_loop (suc fuel) env delimiter leaf_count curr (process (leaf h) ∷ work) m =
    (insert_leaf env delimiter leaf_count curr h >> λ m'.
    work_loop fuel env delimiter leaf_count (curr + 1) work m')
      m
work_loop (suc fuel) env delimiter leaf_count curr
      (process (FieldEntry.nested name children) ∷ work) m =
    (enter_group env name >> λ m'.
    work_loop fuel env delimiter leaf_count curr (push_children children (close_scope ∷ work)) m')
      m
work_loop (suc fuel) env delimiter leaf_count curr (close_scope ∷ work) m =
    (close_and_pop_state >> λ m'. work_loop fuel env delimiter leaf_count curr work m') m

-- The rounds that an entry takes.
unfoldable mutual
  pub work_size : FieldEntry → ℕ
  work_size (leaf h) = 1
  work_size (FieldEntry.nested name children) = 2 + work_sizes children

  pub work_sizes : FieldEntries → ℕ
  work_sizes nil = 0
  work_sizes (cons x xs) = work_size x + work_sizes xs

-- `for field_entry in field_entries`
unfoldable pub entry_loop : Env → ℕ → ℕ → ℕ → FieldEntries → M ℕ
entry_loop env delimiter leaf_count curr nil m = ok (curr, m)
entry_loop env delimiter leaf_count curr (cons e es) m =
    (work_loop (work_size e) env delimiter leaf_count curr (process e ∷ []) >>= λ curr'.
    λ m'. entry_loop env delimiter leaf_count curr' es m')
      m

-- A row of `ParseNestedFieldGroupsArrayStrict`.
unfoldable pub nested_row : Env → ℕ → NestedFields → M (Unit {0})
nested_row env delimiter fields = do
  bump_cnt
  open_scope (Node.object 0 0) frame_array curr_indent
  entry_loop env delimiter fields.leaf_count 0 fields.field_entries
  close_and_pop_state

-- Rows must stay at the same indentation.
abbrev pub expect_sibling : EolState → M (Unit {0})
expect_sibling sibling = pure tt
expect_sibling nested = fail syntax
expect_sibling EolState.close_scope = fail syntax

-- `n` rows, each followed by a line of the same indentation, and the final row.
unfoldable pub row_loop : Env → M (Unit {0}) → ℕ → M (Unit {0})
row_loop env row zero m = row m
row_loop env row (suc n) m =
    (do row; eol ← get_eol_state env true; expect_sibling eol; λ m'. row_loop env row n m') m

-- `if rows_count > 0`
unfoldable pub counted_rows : Env → M (Unit {0}) → ℕ → M (Unit {0})
counted_rows env row zero = pure tt
counted_rows env row (suc n) = row_loop env row n

abbrev pub after_row : M (Unit {0}) → EolState → M (Unit {0})
after_row continue sibling = continue
after_row continue nested = fail syntax
after_row continue EolState.close_scope = pure tt

-- The loop of `ParseTabularArrayLenient`, which runs until the indentation falls.
unfoldable pub lenient_rows : ℕ → Env → ℕ → List Span → M (Unit {0})
lenient_rows zero env delimiter headers m = out_of_fuel
lenient_rows (suc fuel) env delimiter headers m =
    (do
      reading λ m. if leb m.tape_slack 1 then grow_res env 1 else pure tt
      spend_slack 1
      array_row env delimiter headers
      eol ← get_eol_state env true
      after_row (lenient_rows fuel env delimiter headers) eol)
      m
