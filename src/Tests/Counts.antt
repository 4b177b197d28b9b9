-- ===== src/Tests/Counts.antt =====
-- An instance of the theorem on declared counts, in a block array of two items.
use Prim.Native.Char.{code}
use Prim.Native.String.{String}
use simd_toon_improved.Base.{false, ℕ, ◌≤◌, some, [], ◌∷◌, Bytes, ◌≡◌, ◌≢◌, refl, true}
use simd_toon_improved.Error.{Result, ok, err, fault, out_of_fuel, new_c, syntax}
use simd_toon_improved.Tape.{object, StaticNode}
use simd_toon_improved.Stage2.Machine.{
  Env, Machine, ◌>>=◌, ◌>>◌, pure, lift, modify, gets, reading, fail, byte_at, slice, update_char,
  insert_res, insert_str, bump_cnt, open_scope,
}
use simd_toon_improved.Stage2.Quiet.{IsTotal}
use simd_toon_improved.Stage2.Scan.{
  trim_loop, trim_trailing_spaces, insert_word, insert_inferred_value, seek, get_value_end,
  eol_state_from_ws, skip_blank, measure_dedent, read_from, read_newline, get_eol_state,
}
use simd_toon_improved.Stage2.Header.{dispatch_header, read_header}
use simd_toon_improved.Stage2.States.{
  Next, goto, expect_block_array_item, insert_key, open_container,
}
use simd_toon_improved.Stage2.States.Arrays.{on_block_array, on_item, on_expect_item}
use simd_toon_improved.Stage2.States.Close.{on_scope_end}
use simd_toon_improved.Stage2.Build.{initial}
use simd_toon_improved.Stage2.Declared.{is_one_line, Listed, opened, taken, Listed-declared}

abbrev codes : String → Bytes
codes String.[] = []
codes (String.◌∷◌ c s) = code c ∷ codes s

abbrev listing : Env
listing = record {
  input2 = codes "k[2]:\n  - 1\n  - 2\n ";
  strict = true;
  indent_size = 2;
  parse_str = λ from to. ok [];
  try_parse_number = λ from to negative. ok (StaticNode.u64 1);
  growth = λ n. n;
}

listing-IsTotal : IsTotal listing
listing-IsTotal = record {
  parse_str_ends = λ from to e. cc;
  try_parse_number_ends = λ from to negative e. cc;
}

-- Behind the header, and where a round of the loop leads to.
abbrev header_read : Machine
header_read = record (initial []) {
  tape = object 0 0 ∷ [];
  idx = 5;
  c = b'\n';
  rest = 8 ∷ 10 ∷ 11 ∷ 14 ∷ 16 ∷ 17 ∷ [];
}

abbrev reached : Result (Next × Machine) → Machine
reached (ok (next, m)) = m
reached (err e) = header_read
reached fault = header_read
reached out_of_fuel = header_read

abbrev no_item : Machine
no_item = reached (on_block_array listing 2 (some (0, 1)) false header_read)

abbrev one_item : Machine
one_item = reached (on_expect_item listing no_item)

Listed-one : Listed listing 2 1 one_item
unfolding ◌>>=◌ ◌>>◌ pure lift modify gets reading fail byte_at slice update_char insert_res
    insert_str bump_cnt open_scope trim_loop trim_trailing_spaces insert_word insert_inferred_value
    seek get_value_end eol_state_from_ws skip_blank measure_dedent read_from read_newline
    get_eol_state dispatch_header read_header insert_key open_container on_block_array on_item
    on_expect_item is_one_line
Listed-one =
    taken (goto expect_block_array_item) no_item
      (opened (some (0, 1)) (goto expect_block_array_item) header_read refl) refl refl

Listed-declared_example :
    (1 ≤ 2)
    × (◌≢◌ {A = ℕ} 1 2 → on_scope_end listing one_item ≡ err (new_c one_item.idx one_item.c syntax))
    × (◌≡◌ {A = ℕ} 1 2
        → one_item.c ≡ b'-'
        → on_expect_item listing one_item ≡ err (new_c one_item.idx one_item.c syntax))
Listed-declared_example = Listed-declared listing listing-IsTotal refl 2 Listed-one
