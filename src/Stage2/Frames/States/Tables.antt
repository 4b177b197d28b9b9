-- ===== src/Stage2/Frames/States/Tables.antt =====
-- src/stage2.rs: the frames across the tabular states.
use simd_toon_improved.Base.{ℕ, Bool, false, Option, List, arith}
use simd_toon_improved.Tape.{Node}
use simd_toon_improved.Stage2.Machine.{Span, Env, reading}
use simd_toon_improved.Stage2.Triple.{Triple, triple, bind_rule, then_rule}
use simd_toon_improved.Stage2.Header.{NestedFields}
use simd_toon_improved.Stage2.States.Tables.{
  open_table, on_tabular_objects, on_tabular_array_lenient, on_tabular_array_strict,
  on_nested_field_groups,
}
use simd_toon_improved.Stage2.Quiet.{IsTotal, Quiet-lift}
use simd_toon_improved.Stage2.Quiet.Scan.{reserve_rows-Quiet, checked_sub-ends}
use simd_toon_improved.Stage2.Quiet.Cells.{insert_key-Quiet}
use simd_toon_improved.Stage2.Frames.{Good, Good-Quiet, get_eol_state-Good, update_char-Good}
use simd_toon_improved.Stage2.Frames.Rows.{
  keyed_row-Good, array_row-Good, nested_row-Good, row_loop-Triple, counted_rows-Good,
  lenient_rows-Good,
}
use simd_toon_improved.Stage2.Frames.Close.{After}
use simd_toon_improved.Stage2.Frames.States.{goto_rule, require_nested-Good, open_container-Good}

module _ (env : Env) (t : IsTotal env) {w : ℕ} where
  open_table-Good :
      (node : Node) (key : Option Span) (is_root : Bool)
      → Triple (Good w 0) (open_table env node key is_root) (λ a. Good w 7)
  unfolding open_table
  open_table-Good node key is_root = then_rule (Good-Quiet (insert_key-Quiet env t key)) (
      then_rule (update_char-Good env) (
        bind_rule (get_eol_state-Good env false) λ eol.
          then_rule (require_nested-Good 4 eol)
            (open_container-Good {b = 7} env node key _ is_root)))

  pub on_tabular_objects-After :
      (key : Option Span) (headers : List Span) (n delimiter : ℕ) (is_root : Bool)
      → Triple (Good w 0) (on_tabular_objects env key headers n delimiter is_root) (After w)
  unfolding on_tabular_objects
  on_tabular_objects-After key headers n delimiter is_root =
      then_rule (open_table-Good _ key is_root) (
        then_rule (counted_rows-Good env t _ n (keyed_row-Good env t delimiter headers))
          (goto_rule _ (omega arith)))

  pub on_tabular_array_strict-After :
      (key : Option Span) (headers : List Span) (n delimiter : ℕ) (is_root : Bool)
      → Triple (Good w 0) (on_tabular_array_strict env key headers n delimiter is_root) (After w)
  unfolding on_tabular_array_strict
  on_tabular_array_strict-After key headers n delimiter is_root =
      then_rule (Good-Quiet (reserve_rows-Quiet env n)) (
        then_rule (open_table-Good _ key is_root) (
          then_rule (counted_rows-Good env t _ n (array_row-Good env t delimiter headers))
            (goto_rule _ (omega arith))))

  pub on_tabular_array_lenient-After :
      (key : Option Span) (headers : List Span) (delimiter : ℕ) (is_root : Bool)
      → Triple (Good w 0) (on_tabular_array_lenient env key headers delimiter is_root) (After w)
  unfolding on_tabular_array_lenient
  on_tabular_array_lenient-After key headers delimiter is_root =
      then_rule (open_table-Good _ key is_root) (
        then_rule {S = Good w 7}
          (triple
            λ m g. unfold reading in lenient_rows-Good env t _ delimiter headers m (omega arith) g)
          (goto_rule _ (omega arith)))

  pub on_nested_field_groups-After :
      (key : Option Span) (fields : NestedFields) (n delimiter : ℕ) (is_root : Bool)
      → Triple (Good w 0) (on_nested_field_groups env key fields n delimiter is_root) (After w)
  unfolding on_nested_field_groups
  on_nested_field_groups-After key fields n delimiter is_root =
      then_rule (Good-Quiet (reserve_rows-Quiet env _)) (
        then_rule (open_table-Good _ key is_root) (
          bind_rule (Good-Quiet (Quiet-lift _ (checked_sub-ends n 1))) λ k.
            then_rule (row_loop-Triple env t _ k (nested_row-Good env t delimiter fields))
              (goto_rule _ (omega arith))))
