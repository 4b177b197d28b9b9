-- ===== src/Stage2/Frames/States/Arrays.antt =====
-- src/stage2.rs: the frames across the states of arrays.
use simd_toon_improved.Base.{ℕ, ◌+◌, ◌-◌, Bool, true, false, Option, List, [], ◌∷◌, arith}
use simd_toon_improved.Stage2.Machine.{Span, Env, Machine, modify}
use simd_toon_improved.Stage2.Triple.{holds, Triple, triple, bind_rule, then_rule}
use simd_toon_improved.Stage2.Header.{
  HeaderType, primitive_value, object_start, empty_object, simple_array, empty_array,
  keyed_tabular_objects, tabular_array, nested_field_groups_array,
}
use simd_toon_improved.Stage2.Rows.{is_newline}
use simd_toon_improved.Stage2.States.Arrays.{
  on_empty_array, on_inline_array, on_block_array, on_item, check_declared, on_expect_item,
}
use simd_toon_improved.Stage2.Quiet.{Quiet, writes, Quiet-pure, IsTotal, Quiet-reading, quiet_rules}
use simd_toon_improved.Stage2.Quiet.Scan.{
  insert_str-Quiet, bump_cnt-Quiet, insert_res-Quiet, insert_inferred_value-Quiet,
}
use simd_toon_improved.Stage2.Quiet.Cells.{insert_key-Quiet, inline_items-Quiet, insert_cell-Quiet}
use simd_toon_improved.Stage2.Frames.{
  Good, Good-Quiet, get_eol_state-Good, update_char-Good, open_scope-Good, frame_array-IsFrame,
}
use simd_toon_improved.Stage2.Frames.Close.{After}
use simd_toon_improved.Stage2.Frames.States.{
  header_gain, goto_rule, array_state-After, read_header-Good, require_nested-Good,
  open_container-Good, open_item-Good, next_item-Good, end_scope-Good,
}

check_declared-Quiet : (m : Machine) (ps : List (ℕ × ℕ)) → Quiet writes (check_declared m ps)
check_declared-Quiet m [] = Quiet-pure _
check_declared-Quiet m ((d, expected) ∷ ps) = search quiet_rules

module _ (env : Env) (t : IsTotal env) {w : ℕ} where
  pub on_empty_array-After :
      (key : Option Span) (is_root : Bool)
      → Triple (Good w 0) (on_empty_array env key is_root) (After w)
  unfolding on_empty_array
  on_empty_array-After key is_root = then_rule (update_char-Good env) (
      then_rule (Good-Quiet (insert_key-Quiet env t key)) (
        then_rule (open_container-Good {b = 3} env _ key _ is_root)
          (bind_rule (get_eol_state-Good env false) λ eol. end_scope-Good eol (omega arith))))

  pub on_inline_array-After :
      (count : ℕ) (key : Option Span) (delimiter : ℕ) (is_root : Bool)
      → Triple (Good w 2) (on_inline_array env count key delimiter is_root) (After w)
  unfolding on_inline_array
  on_inline_array-After count key delimiter is_root =
      then_rule (Good-Quiet (insert_key-Quiet env t key)) (
        then_rule (open_container-Good {b = 1} env _ key _ is_root) (
          then_rule (Good-Quiet (inline_items-Quiet env t delimiter (count - 1))) (
            then_rule (Good-Quiet bump_cnt-Quiet) (
              then_rule (Good-Quiet (insert_cell-Quiet env t is_newline)) (
                bind_rule (get_eol_state-Good env true) λ eol. end_scope-Good eol (omega arith))))))

  push_pending-Good :
      {b : ℕ} (count : ℕ)
      → Triple
          (Good w b)
          (modify λ m. record m { pending_counts = (m.depth, count) ∷ m.pending_counts })
          (λ a. Good w b)
  unfolding modify
  push_pending-Good count =
      triple λ m g. holds (record { bound = g.bound; chain = g.chain; depth = g.depth })

  pub on_block_array-After :
      (count : ℕ) (key : Option Span) (is_root : Bool)
      → Triple (Good w 0) (on_block_array env count key is_root) (After w)
  unfolding on_block_array
  on_block_array-After count key is_root = then_rule (Good-Quiet (insert_key-Quiet env t key)) (
      bind_rule (get_eol_state-Good env false) λ eol. then_rule (require_nested-Good 0 eol) (
        then_rule (open_container-Good {b = 3} env _ key _ is_root)
          (then_rule (push_pending-Good count) (goto_rule _ (omega arith)))))

  on_item-After : (h : HeaderType) → Triple (Good w (4 + header_gain h)) (on_item env h) (After w)
  unfolding on_item
  on_item-After (primitive_value (from, to)) =
      then_rule (Good-Quiet (insert_inferred_value-Quiet env t from to))
        (bind_rule (get_eol_state-Good env false) λ eol. next_item-Good eol (omega arith))
  on_item-After empty_object =
      then_rule (Good-Quiet (insert_res-Quiet _))
        (bind_rule (get_eol_state-Good env false) λ eol. next_item-Good eol (omega arith))
  on_item-After (object_start (from, to)) =
      then_rule (open_scope-Good {b = 3} _ _ _ frame_array-IsFrame) (
        then_rule (Good-Quiet (insert_str-Quiet env t from to)) (
          then_rule (Good-Quiet bump_cnt-Quiet)
            (then_rule (update_char-Good env) (goto_rule _ (omega arith)))))
  on_item-After (simple_array count key delimiter) =
      then_rule (open_item-Good {b = 7} env key) (
        then_rule (update_char-Good env)
          (array_state-After count key delimiter false (omega arith)))
  on_item-After (empty_array key) =
      then_rule (open_item-Good {b = 7} env key) (goto_rule _ (omega arith))
  on_item-After (keyed_tabular_objects key hs n d) =
      then_rule (open_item-Good {b = 7} env key) (goto_rule _ (omega arith))
  on_item-After (tabular_array key hs n d) =
      then_rule (open_item-Good {b = 7} env key) (goto_rule _ (omega arith))
  on_item-After (nested_field_groups_array key fs n d) =
      then_rule (open_item-Good {b = 7} env key) (goto_rule _ (omega arith))

  pub on_expect_item-After : Triple (Good w 0) (on_expect_item env) (After w)
  unfolding on_expect_item
  on_expect_item-After = then_rule (Good-Quiet (Quiet-reading _ λ m. search quiet_rules)) (
      then_rule
        (Good-Quiet
          (Quiet-reading _ λ m. search (quiet_rules, check_declared-Quiet m m.pending_counts)))
        (then_rule (update_char-Good env)
          (then_rule (Good-Quiet bump_cnt-Quiet) (bind_rule (read_header-Good env) on_item-After))))
