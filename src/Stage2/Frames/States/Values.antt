-- ===== src/Stage2/Frames/States/Values.antt =====
-- src/stage2.rs: the frames across the states of keys and values.
use simd_toon_improved.Base.{ℕ, ◌+◌, false, arith, ◌==◌}
use simd_toon_improved.Stage2.Machine.{Env}
use simd_toon_improved.Stage2.Triple.{
  Triple, bind_rule, then_rule, reading_rule, if_rule, fail_rule,
}
use simd_toon_improved.Stage2.Scan.{EolState, sibling, close_scope, nested, is_empty}
use simd_toon_improved.Stage2.Header.{
  HeaderType, primitive_value, object_start, empty_object, simple_array, empty_array,
  keyed_tabular_objects, tabular_array, nested_field_groups_array,
}
use simd_toon_improved.Stage2.Rows.{is_newline}
use simd_toon_improved.Stage2.States.Values.{
  on_parse_header, after_empty_value, on_empty_value, on_value, on_simple_object_value,
}
use simd_toon_improved.Stage2.Quiet.{IsTotal, Quiet-gets}
use simd_toon_improved.Stage2.Quiet.Scan.{
  insert_str-Quiet, bump_cnt-Quiet, insert_res-Quiet, get_value_end-Quiet,
}
use simd_toon_improved.Stage2.Quiet.Cells.{insert_value-Quiet}
use simd_toon_improved.Stage2.Frames.{
  Good, Good-Quiet, gain, get_eol_state-Good, update_char-Good, open_scope-Good,
  frame_object-IsFrame,
}
use simd_toon_improved.Stage2.Frames.Close.{After}
use simd_toon_improved.Stage2.Frames.States.{
  header_gain, goto_rule, array_state-After, next_field-Good,
}

module _ (env : Env) (t : IsTotal env) {w : ℕ} where
  pub on_parse_header-After :
      (h : HeaderType) → Triple (Good w (header_gain h)) (on_parse_header env h) (After w)
  unfolding on_parse_header
  on_parse_header-After (object_start (from, to)) = then_rule (Good-Quiet bump_cnt-Quiet) (
      then_rule (Good-Quiet (insert_str-Quiet env t from to))
        (then_rule (update_char-Good env) (goto_rule _ (omega arith))))
  on_parse_header-After (simple_array count key delimiter) =
      then_rule (update_char-Good env) (array_state-After count key delimiter false (omega arith))
  on_parse_header-After (empty_array key) = goto_rule _ (omega arith)
  on_parse_header-After (keyed_tabular_objects key hs n d) = goto_rule _ (omega arith)
  on_parse_header-After (tabular_array key hs n d) = goto_rule _ (omega arith)
  on_parse_header-After (nested_field_groups_array key fs n d) = goto_rule _ (omega arith)
  on_parse_header-After (primitive_value val) = fail_rule _
  on_parse_header-After empty_object = fail_rule _

  after_empty_value-After :
      (eol : EolState) → Triple (Good w (1 + gain eol)) (after_empty_value env eol) (After w)
  after_empty_value-After nested =
      then_rule (open_scope-Good {b = 4} _ _ _ frame_object-IsFrame) (goto_rule _ (omega arith))
  after_empty_value-After sibling =
      then_rule (Good-Quiet (insert_res-Quiet _)) (goto_rule _ (omega arith))
  after_empty_value-After close_scope = goto_rule _ (omega arith)

  on_empty_value-After : Triple (Good w 1) (on_empty_value env) (After w)
  unfolding on_empty_value
  on_empty_value-After = reading_rule _ λ m.
      if_rule (is_empty m.rest)
        (then_rule (Good-Quiet (insert_res-Quiet _)) (goto_rule _ (omega arith)))
        (bind_rule (get_eol_state-Good env false) after_empty_value-After)

  on_value-After : Triple (Good w 1) (on_value env) (After w)
  unfolding on_value
  on_value-After = bind_rule (Good-Quiet (Quiet-gets _)) λ from.
      bind_rule (Good-Quiet (get_value_end-Quiet env is_newline)) λ to.
        then_rule (Good-Quiet (insert_value-Quiet env t from to)) (
          reading_rule _ λ m.
            if_rule (is_empty m.rest) (goto_rule _ (omega arith))
              (bind_rule (get_eol_state-Good env false) λ eol. next_field-Good eol (omega arith)))

  pub on_simple_object_value-After : Triple (Good w 1) (on_simple_object_value env) (After w)
  unfolding on_simple_object_value
  on_simple_object_value-After =
      reading_rule _ λ m. if_rule (m.c == b'\n') on_empty_value-After on_value-After
