-- ===== src/Stage2/Header.antt =====
-- src/stage2.rs: `read_header!`, which reads the header of a line and classifies it.
pub mod Counts
use simd_toon_improved.Base.{
  ℕ, zero, suc, ◌+◌, Bool, true, false, not, ◌||◌, Option, none, some, List, [], ◌∷◌, ◌++◌, ltb,
  ◌==◌, if◌then◌else◌, length,
}
use simd_toon_improved.Error.{syntax, no_structure, ok, out_of_fuel}
use simd_toon_improved.Stage2.Machine.{
  Span, Env, M, ◌>>=◌, ◌>>◌, pure, gets, reading, fail, update_char,
}
use simd_toon_improved.Stage2.Scan.{get_value_end, parse_string_number}

-- `FieldEntries` is `Vec<FieldEntry>`.
mutual
  pub data FieldEntry : Type 0 where
    leaf : Span → FieldEntry
    nested : Span → FieldEntries → FieldEntry

  pub data FieldEntries : Type 0 where
    nil : FieldEntries
    cons : FieldEntry → FieldEntries → FieldEntries

-- `Vec::push`
unfoldable pub push : FieldEntries → FieldEntry → FieldEntries
push nil e = cons e nil
push (cons x xs) e = cons x (push xs e)

-- `fields.drain(..).map(FieldEntry::Leaf).collect()`
unfoldable pub leaves : List Span → FieldEntries
leaves [] = nil
leaves (s ∷ ss) = cons (leaf s) (leaves ss)

pub record NestedFields : Type 0 where
  pub field_entries : FieldEntries
  pub leaf_count : ℕ
  pub nested_count : ℕ

-- The fields of each are those of the source, in its order.
pub data HeaderType : Type 0 where
  primitive_value : Span → HeaderType
  object_start : Span → HeaderType
  empty_object : HeaderType
  simple_array : ℕ → Option Span → ℕ → HeaderType
  empty_array : Option Span → HeaderType
  keyed_tabular_objects : Option Span → List Span → ℕ → ℕ → HeaderType
  tabular_array : Option Span → List Span → ℕ → ℕ → HeaderType
  nested_field_groups_array : Option Span → NestedFields → ℕ → ℕ → HeaderType

abbrev pub ends_field : ℕ → ℕ → Bool
ends_field delimiter c = c == delimiter || c == b'}' || c == b'{'

-- The open field lists of a header: the innermost, which `field_stack` never lacks, the outer ones
-- with their names from the inside out, and the counts so far.
pub record Groups : Type 0 where
  pub level : FieldEntries
  pub outer : List FieldEntries
  pub pending_names : List Span
  pub leaf_count : ℕ
  pub nested_count : ℕ

pub data Closing : Type 0 where
  finished : FieldEntries → ℕ → Closing
  continuing : Groups → Closing

-- `while c == b'}'`: the innermost list becomes a field of the one around it.
unfoldable pub close_groups : Env → FieldEntries → List FieldEntries → List Span → ℕ → ℕ → M Closing
close_groups env children [] names leaf_count nested_count m =
    if m.c == b'}'
    then (update_char env >> pure (finished children nested_count)) m
    else ok (
      continuing (record {
        level = children;
        outer = [];
        pending_names = names;
        leaf_count = leaf_count;
        nested_count = nested_count;
      }),
      m,
    )
close_groups env children (level ∷ outer) [] leaf_count nested_count m =
    if m.c == b'}'
    then fail no_structure m
    else ok (
      continuing (record {
        level = children;
        outer = level ∷ outer;
        pending_names = [];
        leaf_count = leaf_count;
        nested_count = nested_count;
      }),
      m,
    )
close_groups env children (level ∷ outer) (name ∷ names) leaf_count nested_count m =
    if m.c == b'}'
    then (update_char env >> λ m'.
          close_groups env (push level (nested name children)) outer names leaf_count
            (nested_count + 1) m')
        m
    else ok (
      continuing (record {
        level = children;
        outer = level ∷ outer;
        pending_names = name ∷ names;
        leaf_count = leaf_count;
        nested_count = nested_count;
      }),
      m,
    )

abbrev pub open_group : Groups → Span → Groups
open_group g name = record {
  level = nil;
  outer = g.level ∷ g.outer;
  pending_names = name ∷ g.pending_names;
  leaf_count = g.leaf_count;
  nested_count = g.nested_count;
}

-- A leaf, and the lists that end behind it.
unfoldable pub close_leaf : Env → Groups → Span → M Closing
close_leaf env g h =
    close_groups env (push g.level (leaf h)) g.outer g.pending_names (g.leaf_count + 1)
      g.nested_count

abbrev pub after_closing : ℕ → (Groups → M NestedFields) → Closing → M NestedFields
after_closing leaf_count resume_with (finished entries nested_count) =
    pure (record { field_entries = entries; leaf_count = leaf_count; nested_count = nested_count })
after_closing leaf_count resume_with (continuing g) = resume_with g

-- The loop `'field_list`, on fuel: every round steps to the next structural index.
unfoldable pub read_groups : ℕ → Env → ℕ → Groups → M NestedFields
read_groups zero env delimiter g m = out_of_fuel
read_groups (suc fuel) env delimiter g m =
    (do
      update_char env
      value_start ← gets λ m. m.idx
      value_end ← get_value_end env (ends_field delimiter)
      reading λ m.
          if m.c == b'{'
          then read_groups fuel env delimiter (open_group g (value_start, value_end))
          else (close_leaf env g (value_start, value_end)
              >>= after_closing (g.leaf_count + 1) (read_groups fuel env delimiter)))
      m

pub data FieldList : Type 0 where
  flat : List Span → FieldList
  grouped : NestedFields → FieldList

abbrev pub first_group : List Span → Span → Groups
first_group fields name = record {
  level = nil;
  outer = leaves fields ∷ [];
  pending_names = name ∷ [];
  leaf_count = length fields;
  nested_count = 0;
}

-- The loop over a flat list of fields, which goes over to groups at the first `{`.
unfoldable pub read_fields : ℕ → Env → ℕ → List Span → M FieldList
read_fields zero env delimiter fields m = out_of_fuel
read_fields (suc fuel) env delimiter fields m =
    (do
      update_char env
      value_start ← gets λ m. m.idx
      value_end ← get_value_end env (ends_field delimiter)
      reading λ m.
          if m.c == b'{'
          then (read_groups fuel env delimiter (first_group fields (value_start, value_end))
              >>= λ fields'. pure (grouped fields'))
          else if m.c == b'}'
          then (update_char env >> pure (flat (fields ++ (value_start, value_end) ∷ [])))
          else read_fields fuel env delimiter (fields ++ (value_start, value_end) ∷ []))
      m

-- As much fuel as there are structural indexes.
unfoldable pub read_field_list : Env → ℕ → M FieldList
read_field_list env delimiter = reading λ m. read_fields (length m.rest + 1) env delimiter []

-- A header with no field list is complete after its `]`.
abbrev pub without_fields : Bool → Option Span → ℕ → ℕ → HeaderType
without_fields keyed key rows_count delimiter =
    if keyed
    then keyed_tabular_objects key [] rows_count delimiter
    else if rows_count == 0
    then empty_array key
    else simple_array rows_count key delimiter

-- Groups of fields in a keyed header are refused.
abbrev pub with_fields : Bool → Option Span → ℕ → ℕ → FieldList → M HeaderType
with_fields true key rows_count delimiter (grouped fields) = fail no_structure
with_fields false key rows_count delimiter (grouped fields) =
    pure (nested_field_groups_array key fields rows_count delimiter)
with_fields true key rows_count delimiter (flat fields) =
    pure (keyed_tabular_objects key fields rows_count delimiter)
with_fields false key rows_count delimiter (flat fields) =
    pure (tabular_array key fields rows_count delimiter)

unfoldable pub step_if : Env → Bool → M (Unit {0})
step_if env b = if b then update_char env else pure tt

-- `is_non_default_delimiter!`, and the step past the delimiter
unfoldable pub read_delimiter : Env → M ℕ
read_delimiter env =
    reading λ m. if m.c == b'|' || m.c == b'\t' then (update_char env >> pure m.c) else pure b','

-- The case `b'['`.
unfoldable pub read_bracket : Env → Option Span → M HeaderType
read_bracket env key = do
  update_char env
  rows_count_start ← gets λ m. m.idx
  update_char env
  rows_count ← reading λ m. parse_string_number env rows_count_start m.idx
  keyed ← gets λ m. m.c == b':'
  step_if env keyed
  delimiter ← read_delimiter env
  reading λ m. if not (m.c == b']') then fail syntax else pure tt
  update_char env
  reading λ m.
      if not (m.c == b'{')
      then pure (without_fields keyed key rows_count delimiter)
      else (read_field_list env delimiter >>= with_fields keyed key rows_count delimiter)

abbrev pub key_of : ℕ → ℕ → Option Span
key_of key_start key_end = if ltb key_start key_end then some (key_start, key_end) else none

abbrev pub keyed_or_syntax : Option Span → M HeaderType
keyed_or_syntax (some v) = pure (object_start v)
keyed_or_syntax none = fail syntax

abbrev pub value_or_empty : Option Span → HeaderType
value_or_empty (some key) = primitive_value key
value_or_empty none = empty_object

abbrev pub ends_key : ℕ → Bool
ends_key c = c == b':' || c == b'[' || c == b'\n'

unfoldable pub dispatch_header : Env → Option Span → M HeaderType
dispatch_header env key = reading λ m.
    if m.c == b':'
    then keyed_or_syntax key
    else if m.c == b'\n'
    then pure (value_or_empty key)
    else if m.c == b'['
    then read_bracket env key
    else fail syntax

unfoldable pub read_header : Env → M HeaderType
read_header env = do
  key_start ← gets λ m. m.idx
  key_end ← get_value_end env ends_key
  dispatch_header env (key_of key_start key_end)
