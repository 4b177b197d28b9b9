-- ===== src/Tests/Tapes.antt =====
-- Instances of the theorems on tapes and on the values that are built from them, and runs.
use simd_toon_improved.Base.{true, false, some, [], ◌∷◌, Bytes, List, inl, ◌≡◌, ◌≢◌, refl}
use simd_toon_improved.Error.{ok, fault, out_of_fuel}
use simd_toon_improved.Tape.{string, object, array, static, null, bool}
use simd_toon_improved.Views.Tree.{
  Tree, str, stat, arr, obj, Items, nil, cons, Fields, end, field, write, written, item_of,
  value_of, all_items, all_fields, all_keys, all_values, first_value, header, write_items,
  write_fields, len_items, len_fields,
}
use simd_toon_improved.Views.Object
use simd_toon_improved.Views.Array
use simd_toon_improved.Views.Lookup.{get_idx-item_of, get-value_of}
use simd_toon_improved.Views.Walk.{run_iter, iter-all_fields, iter-all_items}
use simd_toon_improved.Views.Access
use simd_toon_improved.Views.Access.{
  array_count, object_count, try_get_array, try_get_object, found, Tried,
}
use simd_toon_improved.Views.Containers.{clipped, try_get-clipped}
use simd_toon_improved.Values.Parse.{parse_tape, parse, insert}
use simd_toon_improved.Views.Slices.{sub_slice}
use simd_toon_improved.Values.Merge.{merge}
use simd_toon_improved.Values.Rebuild.{parse_tape-merge}
use simd_toon_improved.Values.Paths.{
  Step, key, find, find_last, last_entry, scalar, parse_tape-find,
}
use simd_toon_improved.Values.Ends.{parse_tape-ne-out_of_fuel}
use simd_toon_improved.Values.Distinct.{is_distinct, has_key}
use simd_toon_improved.Values.Lazy
use simd_toon_improved.Values.Lazy.{Lazy, tape, value}
use simd_toon_improved.Values.Lazy.Refines.{Answers, get-Answers, change-Represents}

abbrev key_a : Bytes
key_a = b'a' ∷ []

abbrev key_b : Bytes
key_b = b'b' ∷ []

-- `{"a": ["x", null], "b": true}`, and an object with its key twice.
abbrev a_list : Items
a_list = cons (str (b'x' ∷ [])) (cons (stat null) nil)

abbrev some_fields : Fields
some_fields = field key_a (arr a_list) (field key_b (stat (bool true)) end)

abbrev twice : Fields
twice = field key_a (stat (bool true)) (field key_a (stat (bool false)) end)

some_tape :
    write (obj some_fields)
    ≡ object 2 6
      ∷ string key_a
      ∷ array 2 2
      ∷ string (b'x' ∷ [])
      ∷ static null
      ∷ string key_b
      ∷ static (bool true)
      ∷ []
unfolding write header write_items write_fields len_items len_fields
some_tape = refl

some_distinct : is_distinct (obj some_fields) ≡ true
unfolding is_distinct has_key
some_distinct = refl

-- The view of a key that is there twice and the value that is built from it differ.
view_of_twice : Access.get (write (obj twice)) key_a ≡ ok (some (write (stat (bool true))))
unfolding value_of first_value
view_of_twice = get-value_of (obj twice) key_a

value_of_twice : parse_tape (write (obj twice)) ≡ ok (obj (field key_a (stat (bool false)) end))
unfolding merge insert
value_of_twice = parse_tape-merge (obj twice)

-- The tape of a key with no value is none that a value is written as, and panics.
valueless_panics : parse_tape (object 1 1 ∷ string key_a ∷ []) ≡ fault
unfolding parse_tape parse
valueless_panics = refl

-- The last item of an array under a key is missing from its view, and an empty array has no header.
last_item_missing :
    Access.get_array (write (obj some_fields)) key_a
    ≡ ok (some (array 2 2 ∷ string (b'x' ∷ []) ∷ []))
unfolding Access.get_array Access.try_container Access.container_from write header write_items
    write_fields len_items len_fields sub_slice
last_item_missing = refl

get_idx-item_of_example :
    Access.get_idx (write (arr a_list)) 1 ≡ ok (written (item_of (arr a_list) 1))
get_idx-item_of_example = get_idx-item_of (arr a_list) 1

get-value_of_example :
    Access.get (write (obj some_fields)) key_b ≡ ok (written (value_of (obj some_fields) key_b))
get-value_of_example = get-value_of (obj some_fields) key_b

iter-all_items_example :
    run_iter Array.next (Array.iter (write (arr a_list))) ≡ ok (all_items a_list)
iter-all_items_example = iter-all_items a_list

iter-all_fields_example :
    (run_iter Object.next (Object.iter (write (obj some_fields))) ≡ ok (all_fields some_fields))
    × (run_iter Object.next_key (Object.iter (write (obj some_fields))) ≡ ok (all_keys some_fields))
    × (run_iter Object.next_value (Object.iter (write (obj some_fields)))
        ≡ ok (all_values some_fields))
iter-all_fields_example = iter-all_fields some_fields

try_get-clipped_example :
    (try_get_array (write (obj some_fields)) key_a
      ≡ ok (clipped array_count (first_value some_fields key_a)))
    × (try_get_object (write (obj some_fields)) key_a
        ≡ ok (clipped object_count (first_value some_fields key_a)))
try_get-clipped_example = try_get-clipped some_fields key_a

parse_tape-merge_example : parse_tape (write (obj twice)) ≡ ok (merge (obj twice))
parse_tape-merge_example = parse_tape-merge (obj twice)

-- The path to a key that is there twice leads to its last value.
abbrev path_a : List Step
path_a = key key_a ∷ []

parse_tape-find_example :
    (w : Tree) × (parse_tape (write (obj twice)) ≡ ok w)
    × ((p : List Step) → find w p ≡ find_last (obj twice) p)
parse_tape-find_example = parse_tape-find (obj twice)

last_of_twice : find_last (obj twice) path_a ≡ some (scalar (bool false))
unfolding find_last last_entry
last_of_twice = refl

parse_tape-ne-out_of_fuel_example : parse_tape (object 1 1 ∷ string key_a ∷ []) ≢ out_of_fuel
parse_tape-ne-out_of_fuel_example = parse_tape-ne-out_of_fuel (object 1 1 ∷ string key_a ∷ [])

get-Answers_example :
    Answers (value_of (obj some_fields) key_a) (Lazy.get (tape (write (obj some_fields))) key_a)
    × Answers (item_of (obj some_fields) 0) (Lazy.get_idx (tape (write (obj some_fields))) 0)
get-Answers_example =
    get-Answers (obj some_fields) (tape (write (obj some_fields))) key_a 0 (some_distinct, inl refl)

change-Represents_example :
    (Lazy.into_value (tape (write (obj some_fields))) ≡ ok (obj some_fields))
    × (Lazy.upgrade (tape (write (obj some_fields))) ≡ ok (value (obj some_fields)))
    × (Lazy.change (λ v. stat null) (tape (write (obj some_fields))) ≡ ok (value (stat null)))
change-Represents_example =
    change-Represents (obj some_fields) (tape (write (obj some_fields))) (λ v. stat null)
      (some_distinct, inl refl)
