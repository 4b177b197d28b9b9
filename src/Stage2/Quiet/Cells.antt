-- ===== src/Stage2/Quiet/Cells.antt =====
-- src/stage2.rs: names, cells, keys and values among the pieces that open and close no container.
use simd_toon_improved.Base.{ℕ, zero, suc, Bool, Option, none, some, List, [], ◌∷◌, length, take}
use simd_toon_improved.Stage2.Machine.{Span, Env, Machine, ◌>>◌}
use simd_toon_improved.Stage2.Triple.{Ensures, holds, bind-Ensures, mono-Ensures}
use simd_toon_improved.Stage2.Scan.{EolState, sibling, close_scope, nested}
use simd_toon_improved.Stage2.Rows.{
  insert_cell, insert_field_name, is_newline, expect_delimiter, first_cells, last_elem?,
  reject_cell_less_row, last_cell, row_cells, insert_leaf, expect_sibling,
}
use simd_toon_improved.Stage2.States.{insert_key, require_nested}
use simd_toon_improved.Stage2.States.Values.{insert_value}
use simd_toon_improved.Stage2.States.Arrays.{inline_item, inline_items}
use simd_toon_improved.Stage2.Quiet.{
  writes, Same, Same-refl, Same-trans, IsTotal, Quiet, quiet, run-Quiet, quiet_rules, Quiet-bind,
  Quiet-reading, Quiet-if, Quiet-then, Quiet-pure, Quiet-fail, Quiet-gets, Quiet-lift,
}
use simd_toon_improved.Stage2.Quiet.Scan.{
  update_char-Quiet, get_value_end-Quiet, insert_str-Quiet, insert_res-Quiet, bump_cnt-Quiet,
  insert_inferred_value-Quiet, checked_sub-ends, slice-ends,
}

expect_delimiter-Quiet :
    (check : Bool) (delimiter : ℕ) → Quiet writes (expect_delimiter check delimiter)
unfolding expect_delimiter
expect_delimiter-Quiet check delimiter = search quiet_rules

reject-Quiet : (check : Bool) (n : ℕ) (s : Span) → Quiet writes (reject_cell_less_row check n s)
reject-Quiet check n s = search quiet_rules

pub expect_sibling-Quiet : (eol : EolState) → Quiet writes (expect_sibling eol)
expect_sibling-Quiet sibling = Quiet-pure _
expect_sibling-Quiet nested = Quiet-fail _
expect_sibling-Quiet close_scope = Quiet-fail _

pub require_nested-Quiet : (eol : EolState) → Quiet writes (require_nested eol)
require_nested-Quiet nested = Quiet-pure _
require_nested-Quiet sibling = Quiet-fail _
require_nested-Quiet close_scope = Quiet-fail _

module _ (env : Env) (t : IsTotal env) where
  pub insert_cell-Quiet : (stops : ℕ → Bool) → Quiet writes (insert_cell env stops)
  unfolding insert_cell
  insert_cell-Quiet stops = Quiet-bind (Quiet-gets _) λ from.
      Quiet-bind (get_value_end-Quiet env stops)
        λ to. Quiet-then (insert_inferred_value-Quiet env t from to) (Quiet-pure _)

  pub insert_field_name-Quiet : (h : Span) → Quiet writes (insert_field_name env h)
  unfolding insert_field_name
  insert_field_name-Quiet (from, to) = Quiet-then (insert_str-Quiet env t from to) bump_cnt-Quiet

  first_cells-Quiet :
      (check : Bool) (delimiter : ℕ) (headers : List Span)
      → Quiet writes (first_cells env check delimiter headers)
  unfolding first_cells
  first_cells-Quiet check delimiter [] = Quiet-pure _
  first_cells-Quiet check delimiter (h ∷ hs) = Quiet-then (insert_field_name-Quiet h) (
      Quiet-then (insert_cell-Quiet _) (
        Quiet-then (expect_delimiter-Quiet check delimiter)
          (Quiet-then (update_char-Quiet env) (first_cells-Quiet check delimiter hs))))

  last_cell-Quiet :
      (check : Bool) (n : ℕ) (h : Option Span) → Quiet writes (last_cell env check n h)
  unfolding last_cell
  last_cell-Quiet check n none = Quiet-fail _
  last_cell-Quiet check n (some h) = Quiet-then (insert_field_name-Quiet h) (
      Quiet-bind (Quiet-gets _) λ from. Quiet-bind (get_value_end-Quiet env is_newline) λ to.
        Quiet-then (reject-Quiet check n (from, to)) (insert_inferred_value-Quiet env t from to))

  pub row_cells-Quiet :
      (check : Bool) (delimiter : ℕ) (headers : List Span)
      → Quiet writes (row_cells env check delimiter headers)
  unfolding row_cells
  row_cells-Quiet check delimiter headers =
      Quiet-bind (Quiet-lift _ (checked_sub-ends (length headers) 1)) λ n.
        Quiet-then (first_cells-Quiet check delimiter (take n headers))
          (last_cell-Quiet check (length headers) (last_elem? headers))

  pub insert_leaf-Quiet :
      (delimiter leaf_count curr : ℕ) (h : Span)
      → Quiet writes (insert_leaf env delimiter leaf_count curr h)
  unfolding insert_leaf
  insert_leaf-Quiet delimiter leaf_count curr h = Quiet-then (insert_field_name-Quiet h) (
      Quiet-if _ (Quiet-then (insert_cell-Quiet _) (Quiet-pure _))
        (Quiet-then (insert_cell-Quiet _) (update_char-Quiet env)))

  pub insert_key-Quiet : (key : Option Span) → Quiet writes (insert_key env key)
  unfolding insert_key
  insert_key-Quiet none = Quiet-pure _
  insert_key-Quiet (some (from, to)) = Quiet-then bump_cnt-Quiet (insert_str-Quiet env t from to)

  pub insert_value-Quiet : (from to : ℕ) → Quiet writes (insert_value env from to)
  unfolding insert_value
  insert_value-Quiet from to =
      Quiet-bind (Quiet-lift _ (slice-ends env from to))
        λ word. Quiet-if _ (insert_res-Quiet _) (insert_inferred_value-Quiet env t from to)

  inline_item-Quiet : (delimiter : ℕ) → Quiet writes (inline_item env delimiter)
  unfolding inline_item
  inline_item-Quiet delimiter = Quiet-then bump_cnt-Quiet (
      Quiet-then (insert_cell-Quiet _)
        (Quiet-then (Quiet-reading _ λ m. search quiet_rules) (update_char-Quiet env)))

  inline_items-Same :
      (delimiter n : ℕ) (m : Machine)
      → Ensures (λ a m'. Same writes m m') (inline_items env delimiter n m)
  unfolding inline_items ◌>>◌
  inline_items-Same delimiter zero m = holds (Same-refl m)
  inline_items-Same delimiter (suc n) m =
      bind-Ensures _ (run-Quiet (inline_item-Quiet delimiter) m)
        λ u k s. mono-Ensures (inline_items-Same delimiter n k) λ a m'. Same-trans s

  pub inline_items-Quiet : (delimiter n : ℕ) → Quiet writes (inline_items env delimiter n)
  inline_items-Quiet delimiter n = quiet (inline_items-Same delimiter n)
