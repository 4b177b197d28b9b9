-- ===== src/Lib.antt =====
-- A model of simd-toon, a decoder of TOON documents, with the theorems about it.
--
-- The program decodes in two stages. Stage 1 (src/lib.rs, src/impls) finds the structural indexes of a
-- document: the offsets of the bytes that start tokens, of delimiters and of line ends. Stage 2
-- (src/stage2.rs, `Deserializer::build_tape`) reads the bytes at these offsets and writes the tape: a
-- flat list of nodes in which the node of an object or an array carries the number of its entries and
-- of the nodes behind it that belong to it. The values that a caller sees (src/value) are views of the
-- tape or trees built from it. This library models stage 2 whole, the errors and options that it uses,
-- the parsers of strings and of numbers that it calls, the views of a tape, the values that are built
-- from one, and of stage 1 the classes of bytes, the comments and the runs of backslashes.
--
-- Files:
--   Base          names and lemmas that the rest shares: Boolean tests on numbers, sequences; the bits of
--                 numbers are in its child Bits, the bytes of a word in Lanes.
--   Error         src/error.rs: `ErrorType`, its `PartialEq`, `Error` and its classes. `Result` is the
--                 outcome of all fallible code here.
--   Options       src/decode_options.rs: `DecodeOptions`, its constructors, builders and setters.
--   Tape          src/value/tape.rs: `Node`, `as_str`, `count`.
--   Scanner       stage 1, as far as it is modelled:
--     Masks       the operations on `u64`, on a list of bits.
--     Classes     src/impls/avx2/stage1.rs: `find_whitespace_structurals_hashes`.
--     Comments    src/comments_stripper.rs.
--     Backslashes src/lib.rs: `find_odd_backslash_sequences`, with its theorem.
--     Lines       lines read byte by byte, to compare the masks with.
--     Bytewise, Indents, Bodies, Stripped     theorems.
--   Strings       quoted strings:
--     Chars       src/charutils.rs: hexadecimal digits, and a code point as UTF-8.
--     Escape      src/stringparse.rs: the table of escapes, and the units of UTF-16.
--     Parse       src/impls/avx2/deser.rs: `parse_str`, `parse_str_quotes`.
--     Utf8, Hex, Surrogates, Windows, Loops, Takes, Ends, Closed, Settled, Text, Quoted
--                 theorems and what they compare with: a decoder of UTF-8, a search byte by byte,
--                 a writer of quoted text.
--   Numbers       src/numberparse.rs and src/numberparse/:
--     Digits      numberparse.rs: `is_integer`, and eight digits in a word.
--     Parse       correct.rs: `try_parse_number`, a function for each part of a number, and
--                 `parse_large_integer`.
--     Parts       correct.rs: `f64_from_parts` and `f64_from_parts_slow`.
--     Floats      the arithmetic of `f64` and `str::parse::<f64>`, on bits.
--     Tables      correct/numberconst.rs, in pieces of 127 entries.
--     Spelled, Integers, Exact, Swar, Eight, Faster     theorems on values.
--     Stages, Points, Grammar, Range, Leads, Safe, Stops, Ends     theorems on what is read, and on panics
--                 and fuel.
--   Views         src/value/tape/: views that read a tape in place.
--     Slices      slices and `split_at`, which panic out of bounds.
--     Tree        the values that own their tree (src/value/owned.rs), and the nodes that each is
--                 written as, which is what a tape is compared with.
--     Array, Object, Access     array.rs, object.rs and trait_impls.rs.
--     Lookup, Walk, Containers  theorems.
--   Values        src/value/: values built from a tape.
--     Parse       src/value/owned.rs: `OwnedDeserializer`.
--     Lazy        src/value/lazy.rs and lazy/trait_impls.rs: a tape that becomes a value when changed.
--     Merge, Rebuild, Paths, Ends, Distinct     theorems; those on Lazy are in its child Refines.
--   Document      src/lib.rs: `fill_tape`; src/value/owned.rs: `to_value_with_options`; theorems on
--                 them are in the child Whole, on a string in
--                 quotes in Quotes, and on a number in Tokens.
--   Stage2        src/stage2.rs:
--     Machine     the variables of `build_tape` as a record, and the macros that change them.
--     Scan        `trim_trailing_spaces!`, `insert_inferred_value!`, `get_value_end!`,
--                 `eol_state_from_ws!`, `get_eol_state!`, `parse_string_number!`.
--     Header      `read_header!`, `HeaderType` and the trees of nested fields.
--     Rows        the rows of the tabular states; counted, lenient, and with groups of fields.
--     States      `State`, and what its arms share; the arms, one function for each, in the children
--                 Values, Arrays, Tables and Close; `step`, a round of the loop, in Step.
--     Build       what comes before the loop, the loop, and `build_tape`.
--     Triple      rules for what holds after a piece of code that may fail.
--     Quiet       the pieces that open and close no container.
--     Frames      the frames of the open containers, and the bound on the work left.
--     Adds        the pieces that add a known number of entries and of nodes.
--     Scopes, Slack, Declared, Total     theorems; others are in the children of Scan, Header, Rows.
--   Tests         runs on small documents, and an instance of each theorem.
--
-- How state corresponds. `Machine` holds the local variables. `tape` is `res[..r_i]`: each write through
-- `res_ptr` at `r_i` appends, and a write back through `res_ptr.add(last_start)` is `set`. `rest` is
-- `structural_indexes[i..]`, so `i >= structural_indexes.len()` is the test that it is empty. `stack`,
-- `content_ws_stack` and `pending_counts` have their top first. `capacity` and `tape_slack` are counted
-- as the code counts them, and no write looks at them. A macro is a function of the machine to a
-- `Result`; a `return Err(..)` drops the machine, as the callers of `build_tape` do.
--
-- Results. `err` is an `Err` of the program. `fault` is a panic of a debug build: an index out of
-- range, a slice whose ends are out of order, a subtraction on `usize` below 0, a failed
-- `debug_assert_eq!`. A release build reads unchecked there, or wraps around. `out_of_fuel` has no
-- counterpart in the program.
--
-- Fuel. The loop over the states has four rounds for each structural index and four more. `lenient_rows`
-- has four for each index left, the depth and one more; the loops over a header's fields have one for
-- each index left and one more; a stack of work has the size of its field. Building a value has three
-- for each node and one more; the loops over a string's windows have one for each byte and one more, and
-- a loop over an iterator one for each node and one more. All other loops are by recursion on what they
-- read.
--
-- Strings. The source of a string is the padded copy of the input from its opening quotes on, and an
-- index into it is kept beside what is left of it. A mask of 32 comparisons is the list of its bits,
-- lowest first. A load that reaches behind the data is a `fault`. Of the buffer only the bytes up to
-- `dst_i` are kept, since a store behind them is repeated before it is read.
--
-- Masks. A `u64` of stage 1 is the list of its bits, lowest first, as long as the block, which is 64 bytes
-- in the program; the theorems hold for any length. `inside_indent` and `inside_comment` are 0 or 1 and
-- are Booleans. The input that `base` points to is kept in the stripper.
--
-- Values. A `HashMap` is a list of entries with each key once, in which an insertion replaces or
-- appends; no order of entries is claimed of the program. `Cow` is left out: a lazy value holds its
-- tape or its tree.
--
-- Numbers. `usize` is ℕ: the offsets and counts are bounded by the input, which is shorter than 2^32,
-- and a product such as `rows_count * (1 + 2 * nested_count)` fits 64 bits. The declared counts are
-- folded on `u32` with its overflow checks. In Numbers, `num` and the words of eight digits are `u64`
-- with their wrap-around; `exponent`, an `i64` and then an `i32`, is the bit pattern of its two's
-- complement. An `f64` is its 64 bits: a product or a quotient of two numbers that an `f64` has is
-- rounded once, to the nearest, ties to even, and `str::parse` rounds the value of the text so.
--
-- Not modelled. The product of a float that sizes `grow_res!` is an argument. `Env` has fields for
-- `try_parse_number` and `parse_str`, which Document fills; the theorems on stage 2 alone take that they
-- end (`IsTotal`). Numbers are read with the features that are on by default: the SSSE3 form of the step
-- of eight digits, and 128bit, big-int-as-float and approx-number-parsing, are left out. `parse_str` writes unescaped bytes into the input buffer, which
-- `build_tape` does not read again through `input2`; that aliasing is left out. Stage 1 is an
-- argument of `fill_tape`, given by what it leaves; of its parts (src/lib.rs `_find_structural_bits`,
-- src/impls/avx2/stage1.rs) only the classes, the comments and the runs of
-- backslashes are modelled. The buffers and their capacities, the branch hints, the per-ISA choice of a function, the JSON
-- generators and comparisons of src/value, the wrappers of lazy arrays and objects, the conversions
-- between values and the serde adapters are not modelled. The scalar methods of `StaticNode` are of the
-- value_trait crate and arguments of the accessors here. `StaticNode`, `ValueType` and `io::Error` belong
-- to other crates: the first two are given by the constructors built here, values of the last by numbers.
pub mod Base
pub mod Error
pub mod Options
pub mod Tape
pub mod Stage2
pub mod Views
pub mod Values
pub mod Numbers
pub mod Scanner
pub mod Strings
pub mod Document
mod Tests
