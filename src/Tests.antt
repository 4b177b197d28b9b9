-- ===== src/Tests.antt =====
-- Runs of the model on concrete documents, and instances of the theorems.
mod Tapes
mod Texts
mod Scans
mod Figures
mod Counts
use Prim.Native.Char.{code}
use Prim.Native.String.{String}
use simd_toon_improved.Base.{
  ◌==◌, ℕ, ◌+◌, ◌-◌, ◌≤◌, ◌<◌, List, [], ◌∷◌, ◌++◌, Bytes, Bool, true, false, ◌≡◌, ◌≢◌, ◌⊎◌, ◌↔◌,
  refl, take, drop, arith,
}
use simd_toon_improved.Error.{
  Result, ok, err, out_of_fuel, new_c, generic, syntax, invalid_number, error_type_eq, is_io,
  is_eof, is_data, is_syntax, overflow, input_too_large,
}
use simd_toon_improved.Error.Equality.{error_type_eq_self, is_listed}
use simd_toon_improved.Options.{set_indent_size, with_strict, new}
use simd_toon_improved.Options.Bounds.{
  Reachable-positive, from_new, by_set_indent_size, by_with_strict,
}
use simd_toon_improved.Tape.{Node, string, object, array, static, StaticNode}
use simd_toon_improved.Stage2.Machine.{
  Env, Machine, ◌>>◌, ◌>>=◌, open_scope, modify, slice, lift, reserve_rows, pure, gets, reading,
  fail, byte_at, update_char, insert_res, insert_str, bump_cnt,
}
use simd_toon_improved.Stage2.Triple.{Ensures}
use simd_toon_improved.Stage2.Quiet.{IsTotal}
use simd_toon_improved.Stage2.Scan.{
  nested, eol_state_from_ws, trim_trailing_spaces, insert_inferred_value, parse_string_number,
  trim_loop, insert_word, seek, get_value_end, skip_blank, measure_dedent, read_from, read_newline,
  get_eol_state, fold_digits,
}
use simd_toon_improved.Stage2.Scan.Trim.{IsTrimmedEnd, trim_trailing_spaces-IsTrimmedEnd}
use simd_toon_improved.Stage2.Scan.Number.{declared, parse_string_number-declared}
use simd_toon_improved.Stage2.Slack.{reserved, reserve_rows-reserved}
use simd_toon_improved.Stage2.Header.{
  FieldEntry, FieldEntries, nil, cons, leaf, grouped, read_field_list, push, leaves, close_groups,
  close_leaf, read_groups, read_fields, step_if, read_delimiter, read_bracket, dispatch_header,
  read_header,
}
use simd_toon_improved.Stage2.Header.Counts.{IsCounted, read_field_list-IsCounted}
use simd_toon_improved.Stage2.Rows.{row_cells, entry_loop, insert_cell}
use simd_toon_improved.Stage2.Rows.Walk.{walk_all, entry_loop-walk_all}
use simd_toon_improved.Stage2.States.Step.{step}
use simd_toon_improved.Stage2.States.{parse_header, insert_key, open_container}
use simd_toon_improved.Stage2.States.Close.{
  on_scope_end, check_pending, backfill, eol_after_close, skip_trailing, resume,
}
use simd_toon_improved.Stage2.States.Arrays.{
  on_expect_item, inline_item, inline_items, on_inline_array,
}
use simd_toon_improved.Stage2.States.Values.{
  on_parse_header, insert_value, on_empty_value, on_value, on_simple_object_value,
}
use simd_toon_improved.Stage2.Scan.Value.{Delimits, get_value_end-Delimits}
use simd_toon_improved.Stage2.Adds.{IsMore}
use simd_toon_improved.Stage2.Adds.Rows.{row_cells-IsMore, inline_items-IsMore}
use simd_toon_improved.Stage2.Frames.Close.{SpansFrom, After}
use simd_toon_improved.Stage2.Build.{
  initial, build_tape, skip_newlines, skip_prelude, root_kind, insert_root, first_state,
  start_container, start_root, start, run,
}
use simd_toon_improved.Stage2.Total.{
  AddsScalar, insert_inferred_value-adds, step-keeps, build_tape-ne-out_of_fuel,
  build_tape-SpansFrom,
}

abbrev codes : String → Bytes
codes String.[] = []
codes (String.◌∷◌ c s) = code c ∷ codes s

-- Bare strings, and numbers of one digit.
abbrev digit_end : Bytes → Result StaticNode
digit_end (b ∷ []) = ok (StaticNode.u64 (b - b'0'))
digit_end other = err (generic invalid_number)

abbrev env_of : Bool → Bytes → Env
env_of strict text = record {
  input2 = text ++ b'\n' ∷ b' ' ∷ [];
  strict = strict;
  indent_size = 2;
  parse_str = λ from to. ok (take (to - from) (drop from text));
  try_parse_number = λ from to negative. digit_end (take (to - from) (drop from text));
  growth = λ n. n;
}

digit_end-ends : (bs : Bytes) → digit_end bs ≢ out_of_fuel
digit_end-ends [] e = cc
digit_end-ends (b ∷ []) e = cc
digit_end-ends (a ∷ b ∷ bs) e = cc

env_of-IsTotal : (strict : Bool) (text : Bytes) → IsTotal (env_of strict text)
env_of-IsTotal strict text = record {
  parse_str_ends = λ from to e. cc;
  try_parse_number_ends = λ from to negative. digit_end-ends (take (to - from) (drop from text));
}

-- Two keys, the first with an object that holds an inline array.
abbrev document : Env
document = env_of true (codes "a:\n  b[2]: 1,2\nc: d")

abbrev structurals : List ℕ
structurals = 0 ∷ 1 ∷ 2 ∷ 5 ∷ 6 ∷ 7 ∷ 8 ∷ 9 ∷ 11 ∷ 12 ∷ 13 ∷ 14 ∷ 15 ∷ 16 ∷ 18 ∷ 19 ∷ []

abbrev document_tape : List Node
document_tape =
    object 2 8
    ∷ string (b'a' ∷ [])
    ∷ object 1 4
    ∷ string (b'b' ∷ [])
    ∷ array 2 2
    ∷ static (StaticNode.u64 1)
    ∷ static (StaticNode.u64 2)
    ∷ string (b'c' ∷ [])
    ∷ string (b'd' ∷ [])
    ∷ []

document_run : build_tape document structurals ≡ ok document_tape
unfolding ◌>>=◌ ◌>>◌ pure lift modify gets reading fail byte_at slice update_char insert_res
    insert_str bump_cnt open_scope trim_loop trim_trailing_spaces insert_word insert_inferred_value
    seek get_value_end eol_state_from_ws skip_blank measure_dedent read_from read_newline
    get_eol_state fold_digits parse_string_number step_if read_delimiter read_bracket
    dispatch_header read_header insert_cell insert_key on_parse_header insert_value on_empty_value
    on_value on_simple_object_value open_container inline_item inline_items on_inline_array
    check_pending backfill eol_after_close skip_trailing resume on_scope_end step skip_newlines
    skip_prelude root_kind insert_root first_state start_container start_root start run build_tape
document_run = refl

-- The value of `a` ends with its scope, and no node stands for it: `len` is 1, `count` is 1.
abbrev valueless : Env
valueless = env_of true (codes "a:\n")

valueless_run :
    build_tape valueless (0 ∷ 1 ∷ 2 ∷ 3 ∷ []) ≡ ok (object 1 1 ∷ string (b'a' ∷ []) ∷ [])
unfolding ◌>>=◌ ◌>>◌ pure lift modify gets reading fail byte_at update_char insert_res insert_str
    bump_cnt trim_loop trim_trailing_spaces seek get_value_end skip_blank read_from read_newline
    get_eol_state dispatch_header read_header on_empty_value on_simple_object_value check_pending
    backfill eol_after_close skip_trailing resume on_scope_end step skip_newlines skip_prelude
    root_kind insert_root first_state start_container start_root start run build_tape
valueless_run = refl

build_tape-SpansFrom_example : SpansFrom 0 document_tape
build_tape-SpansFrom_example =
    build_tape-SpansFrom document (env_of-IsTotal true _) structurals document_run

build_tape-ne-out_of_fuel_example : build_tape document structurals ≢ out_of_fuel
build_tape-ne-out_of_fuel_example =
    build_tape-ne-out_of_fuel document (env_of-IsTotal true _) structurals

-- At the token `b` of the second line, with the first key on the tape.
abbrev machine : Machine
machine = record (initial structurals) {
  tape = object 0 0 ∷ string (b'a' ∷ []) ∷ [];
  cnt = 1;
  idx = 5;
  c = b'b';
  rest = 6 ∷ 7 ∷ 8 ∷ 9 ∷ 11 ∷ 12 ∷ 13 ∷ 14 ∷ 15 ∷ 16 ∷ 18 ∷ 19 ∷ [];
}

step-keeps_example : Ensures (After 50) (step document parse_header machine)
step-keeps_example =
    step-keeps document (env_of-IsTotal true _) parse_header machine
      (record { bound = omega arith; chain = (refl, refl); depth = refl })

-- `{a{b,c},d}:`
abbrev groups : Env
groups = env_of true (codes "{a{b,c},d}:")

abbrev group_fields : FieldEntries
group_fields =
    cons (FieldEntry.nested (1, 2) (cons (leaf (3, 4)) (cons (leaf (5, 6)) nil)))
      (cons (leaf (8, 9)) nil)

abbrev group_machine : Machine
group_machine = record (initial (1 ∷ 2 ∷ 3 ∷ 4 ∷ 5 ∷ 6 ∷ 7 ∷ 8 ∷ 9 ∷ 10 ∷ [])) { c = b'{' }

groups_run :
    read_field_list groups b',' group_machine
    ≡ ok (
      grouped (record { field_entries = group_fields; leaf_count = 3; nested_count = 1 }),
      record group_machine { idx = 10; c = b':'; rest = [] },
    )
unfolding ◌>>=◌ ◌>>◌ pure gets reading byte_at update_char trim_loop trim_trailing_spaces seek
    get_value_end push leaves close_groups close_leaf read_groups read_fields read_field_list
groups_run = refl

read_field_list-IsCounted_example :
    IsCounted (record { field_entries = group_fields; leaf_count = 3; nested_count = 1 })
read_field_list-IsCounted_example = read_field_list-IsCounted groups b',' group_machine groups_run

entry_loop-walk_all_example :
    entry_loop document b',' 3 0 group_fields machine
    ≡ walk_all document b',' 3 group_fields 0 machine
entry_loop-walk_all_example = entry_loop-walk_all document b',' 3 group_fields 0 machine

parse_string_number-declared_example :
    parse_string_number document 7 8 ≡ (lift (slice document 7 8) >>= declared document)
parse_string_number-declared_example = parse_string_number-declared document 7 8

trim_trailing_spaces-IsTrimmedEnd_example :
    (e : ℕ) × (trim_trailing_spaces document 2 5 ≡ ok e) × IsTrimmedEnd document 2 5 e
trim_trailing_spaces-IsTrimmedEnd_example =
    trim_trailing_spaces-IsTrimmedEnd document 2 5 (omega arith) (omega arith)

Reachable-positive_example : 1 ≤ ((set_indent_size (with_strict new false) 0).0).indent_size
Reachable-positive_example =
    Reachable-positive _ (by_set_indent_size 0 (by_with_strict false from_new))

get_value_end-Delimits_example :
    Ensures
      (Delimits document (λ c. c == b':') machine)
      (get_value_end document (λ c. c == b':') machine)
get_value_end-Delimits_example = get_value_end-Delimits document (λ c. c == b':') machine refl

row_cells-IsMore_example :
    Ensures (λ a. IsMore 2 4 machine) (row_cells document false b',' ((0, 1) ∷ (5, 6) ∷ []) machine)
row_cells-IsMore_example =
    row_cells-IsMore document (env_of-IsTotal true _) false b',' ((0, 1) ∷ (5, 6) ∷ []) machine

-- At the first element of the inline array.
abbrev at_element : Machine
at_element = record machine { idx = 11; c = b'1'; rest = 12 ∷ 13 ∷ 14 ∷ 15 ∷ 16 ∷ 18 ∷ 19 ∷ [] }

inline_items-IsMore_example :
    Ensures (λ a. IsMore 1 1 at_element) (inline_items document b',' 1 at_element)
inline_items-IsMore_example = inline_items-IsMore document (env_of-IsTotal true _) b',' 1 at_element
