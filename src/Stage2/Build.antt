-- ===== src/Stage2/Build.antt =====
-- src/stage2.rs: `build_tape`, from its first token to the end of its loop.
use simd_toon_improved.Base.{
  ℕ, zero, suc, ◌+◌, ◌*◌, ◌/◌, Bool, true, false, not, Option, none, some, List, [], ◌∷◌, ◌==◌,
  if◌then◌else◌, length,
}
use simd_toon_improved.Error.{syntax, no_structure, Result, ok, out_of_fuel}
use simd_toon_improved.Tape.{Node}
use simd_toon_improved.Stage2.Machine.{
  StackState, Env, Machine, M, and_then, ◌>>=◌, ◌>>◌, pure, gets, reading, fail, update_char,
  insert_res, insert_str, bump_cnt,
}
use simd_toon_improved.Stage2.Scan.{insert_inferred_value, is_empty}
use simd_toon_improved.Stage2.Header.{
  HeaderType, primitive_value, object_start, empty_object, simple_array, empty_array,
  keyed_tabular_objects, tabular_array, nested_field_groups_array, read_header,
}
use simd_toon_improved.Stage2.States.{
  parse_simple_object_value, parse_tabular_objects, parse_empty_array, parse_tabular_array_strict,
  parse_tabular_array_lenient, parse_nested_field_groups_array_strict, Next, goto, success,
  array_state,
}
use simd_toon_improved.Stage2.States.Step.{step}

-- `capacity` is that of the tape after `res.reserve`.
abbrev pub initial : List ℕ → Machine
initial structural_indexes = record {
  tape = [];
  capacity = length structural_indexes + length structural_indexes / 5;
  tape_slack = length structural_indexes / 5;
  stack = StackState.start ∷ [];
  depth = 1;
  last_start = 0;
  cnt = 0;
  idx = 0;
  c = 0;
  rest = structural_indexes;
  content_ws_stack = 0 ∷ [];
  pending_counts = [];
  last_dedent_ws = 0;
}

-- `while c == b'\n'`
unfoldable pub skip_newlines : Env → List ℕ → M (Unit {0})
skip_newlines env [] m = if m.c == b'\n' then update_char env m else ok (tt, m)
skip_newlines env (k ∷ ks) m =
    if m.c == b'\n' then (update_char env >> λ m'. skip_newlines env ks m') m else ok (tt, m)

-- Comments before the first line leave one `#` at most.
unfoldable pub skip_prelude : Env → M (Unit {0})
unfolding skip_newlines
skip_prelude env = do
  update_char env
  reading λ m. if m.c == b'#' then update_char env else pure tt
  reading λ m. skip_newlines env m.rest

-- `root_is_object` and `root_is_array`
abbrev pub by_key {ℓ} : {K : Type ℓ} → Option K → Bool × Bool
by_key (some k) = (true, false)
by_key none = (false, true)

unfoldable pub root_kind : HeaderType → Bool × Bool
root_kind (object_start key) = (true, false)
root_kind (keyed_tabular_objects key headers rows_count delimiter) = (true, false)
root_kind (simple_array count key delimiter) = by_key key
root_kind (empty_array key) = by_key key
root_kind (tabular_array key headers rows_count delimiter) = by_key key
root_kind (nested_field_groups_array key nested_fields rows_count delimiter) = by_key key
root_kind (primitive_value val) = (false, false)
root_kind empty_object = (true, false)

unfoldable pub insert_root : Bool × Bool → M (Unit {0})
insert_root (root_is_object, root_is_array) = do
  if root_is_object then insert_res (Node.object 0 0) else pure tt
  if root_is_array then insert_res (Node.array 0 0) else pure tt

abbrev pub is_none {ℓ} : {A : Type ℓ} → Option A → Bool
is_none none = true
is_none (some a) = false

-- The first state, after the first header. `is_array` is `root_is_array`.
unfoldable pub first_state : Env → Bool → HeaderType → M Next
first_state env is_array (object_start (key_start, key_end)) = do
  bump_cnt
  insert_str env key_start key_end
  update_char env
  pure (goto parse_simple_object_value)
first_state env is_array (simple_array count key delimiter) = do
  update_char env
  gets λ m. goto (array_state count key delimiter is_array m)
first_state env is_array (empty_array key) = pure (goto (parse_empty_array key is_array))
first_state env is_array (keyed_tabular_objects key headers rows_count delimiter) =
    pure (goto (parse_tabular_objects key headers rows_count delimiter (is_none key)))
first_state env is_array (tabular_array key headers rows_count delimiter) =
    if env.strict
    then pure (goto (parse_tabular_array_strict key headers rows_count delimiter is_array))
    else pure (goto (parse_tabular_array_lenient key headers delimiter is_array))
first_state env is_array (nested_field_groups_array key nested_fields rows_count delimiter) =
    pure (
      goto (parse_nested_field_groups_array_strict key nested_fields rows_count delimiter is_array))
first_state env is_array (primitive_value val) = fail no_structure
first_state env is_array empty_object = fail no_structure

-- A document that is one value has no further line.
unfoldable pub start_container : Env → HeaderType → M Next
start_container env header_type = do
  insert_root (root_kind header_type)
  first_state env (root_kind header_type).1 header_type

unfoldable pub start_root : Env → HeaderType → M Next
start_root env (primitive_value (val_start, val_end)) = do
  reading λ m. if not (is_empty m.rest) then fail syntax else pure tt
  insert_inferred_value env val_start val_end
  pure success
start_root env header_type = start_container env header_type

unfoldable pub start : Env → M Next
start env = do skip_prelude env; header_type ← read_header env; start_root env header_type

-- The loop over the states, on fuel.
unfoldable pub run : ℕ → Env → Next → Machine → Result (List Node)
run fuel env success m = ok m.tape
run zero env (goto state) m = out_of_fuel
run (suc fuel) env (goto state) m = and_then (step env state m) λ (next, m'). run fuel env next m'

unfoldable pub build_tape : Env → List ℕ → Result (List Node)
unfolding start run
build_tape env structural_indexes =
    and_then (start env (initial structural_indexes))
      λ (next, m). run (4 * length structural_indexes + 4) env next m
