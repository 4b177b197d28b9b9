-- ===== src/Values/Rebuild.antt =====
-- src/value/owned.rs: what `OwnedDeserializer` makes of the nodes of a value.
use simd_toon_improved.Base.{
  ℕ, zero, suc, ◌+◌, ◌*◌, ◌≤◌, ◌<◌, [], ◌∷◌, ◌++◌, append_assoc, append-nil, length, length-append,
  ◌≡◌, refl, sym, ◌∙◌, ap, subst, arith,
}
use simd_toon_improved.Error.{Result, ok}
use simd_toon_improved.Tape.{Node, string, static}
use simd_toon_improved.Views.Slices.{get_elem?-append}
use simd_toon_improved.Views.Tree.{
  Nodes, Tree, str, stat, arr, obj, Items, nil, cons, Fields, end, field, write, header, body,
  write_items, write_fields, len_items, len_fields,
}
use simd_toon_improved.Values.Parse.{next_, insert, parse, parse_array, parse_map, parse_tape}
use simd_toon_improved.Values.Merge.{merge, merge_items, insert_all}

-- With three rounds of fuel for a node, the value that stands behind a prefix is read, and no more.
next-header :
    (pre : Nodes) (n : Node) (rest : Nodes)
    → next_ (pre ++ (n ∷ rest)) (length pre) ≡ ok (n, length pre + 1)
next-header pre n rest = rw (next_, get_elem?-append pre (n ∷ rest)) refl

-- Grouping of the nodes, and lengths.
behind : (pre xs ys : Nodes) → pre ++ (xs ++ ys) ≡ (pre ++ xs) ++ ys
behind pre xs ys = sym (append_assoc pre xs ys)

-- A function of a tape and an index, behind one more stretch of nodes.
module _ {B : Type 0} (f : Nodes → ℕ → Result B) where
  move_behind :
      (pre xs ys : Nodes) (r : Result B)
      → f ((pre ++ xs) ++ ys) (length (pre ++ xs)) ≡ r
      → f (pre ++ (xs ++ ys)) (length pre + length xs) ≡ r
  move_behind pre xs ys r h = rw (behind pre xs ys, sym (length-append pre xs)) h

-- Two stretches of nodes, one behind the other, end where both do.
length-two : (pre xs ys : Nodes) → length (pre ++ xs) + length ys ≡ length pre + length (xs ++ ys)
length-two pre xs ys = omega (arith, length-append pre xs, length-append xs ys)

abbrev read_to : {A : Type 0} → A → Nodes → Nodes → Result (A × ℕ)
read_to v pre xs = ok (v, length pre + length xs)

mutual
  unfolding parse parse_array parse_map write header body write_items write_fields len_items
      len_fields merge merge_items insert_all

  parse-write :
      (v : Tree) (fuel : ℕ) (pre rest : Nodes)
      → 3 * length (write v) ≤ fuel
      → parse fuel (pre ++ (write v ++ rest)) (length pre) ≡ read_to (merge v) pre (write v)
  parse-write v zero pre rest h = absurd (omega arith)
  parse-write v (suc zero) pre rest h = absurd (omega arith)
  parse-write (str s) (suc (suc fuel)) pre rest h = rw (next-header pre (string s) rest) refl
  parse-write (stat s) (suc (suc fuel)) pre rest h = rw (next-header pre (static s) rest) refl
  parse-write (arr xs) (suc (suc fuel)) pre rest h =
      rw
        (
          next-header pre (header (arr xs)) (write_items xs ++ rest),
          move_behind (parse_array fuel (len_items xs)) pre (header (arr xs) ∷ [])
              (write_items xs ++ rest) _
              (parse_array-write xs fuel (pre ++ (header (arr xs) ∷ [])) rest (omega arith)),
          length-two pre (header (arr xs) ∷ []) (write_items xs),
        )
        refl
  parse-write (obj fs) (suc (suc fuel)) pre rest h =
      rw
        (
          next-header pre (header (obj fs)) (write_fields fs ++ rest),
          move_behind (parse_map fuel (len_fields fs) end) pre (header (obj fs) ∷ [])
              (write_fields fs ++ rest) _
              (parse_map-write fs fuel end (pre ++ (header (obj fs) ∷ [])) rest (omega arith)),
          length-two pre (header (obj fs) ∷ []) (write_fields fs),
        )
        refl

  parse_array-write :
      (xs : Items) (fuel : ℕ) (pre rest : Nodes)
      → 3 * length (write_items xs) < fuel
      → parse_array fuel (len_items xs) (pre ++ (write_items xs ++ rest)) (length pre)
        ≡ read_to (merge_items xs) pre (write_items xs)
  parse_array-write xs zero pre rest h = absurd (omega arith)
  parse_array-write nil (suc fuel) pre rest h = ap (λ j. ok (nil, j)) (omega arith)
  parse_array-write (cons x xs) (suc fuel) pre rest h =
      rw
        (
          append_assoc (write x) (write_items xs) rest,
          parse-write x fuel pre (write_items xs ++ rest)
              (omega (arith, length-append (body x) (write_items xs))),
          move_behind (parse_array fuel (len_items xs)) pre (write x) (write_items xs ++ rest) _ (
              parse_array-write xs fuel (pre ++ write x) rest
                (omega (arith, length-append (body x) (write_items xs)))),
          length-two pre (write x) (write_items xs),
        )
        refl

  parse_map-write :
      (fs : Fields) (fuel : ℕ) (res : Fields) (pre rest : Nodes)
      → 3 * length (write_fields fs) < fuel
      → parse_map fuel (len_fields fs) res (pre ++ (write_fields fs ++ rest)) (length pre)
        ≡ read_to (insert_all fs res) pre (write_fields fs)
  parse_map-write fs zero res pre rest h = absurd (omega arith)
  parse_map-write end (suc fuel) res pre rest h = ap (λ j. ok (res, j)) (omega arith)
  parse_map-write (field k v fs) (suc zero) res pre rest h = absurd (omega arith)
  parse_map-write (field k v fs) (suc (suc fuel)) res pre rest h =
      subst
        (λ t.
          parse_map (suc (suc fuel)) (suc (len_fields fs)) res (pre ++ t) (length pre)
          ≡ read_to (insert_all fs (insert res k (merge v))) pre (write_fields (field k v fs)))
        (sym (append_assoc (string k ∷ write v) (write_fields fs) rest))
        (rw
          (
            next-header pre (string k) (write v ++ (write_fields fs ++ rest)),
            move_behind (parse fuel) pre (string k ∷ []) (write v ++ (write_fields fs ++ rest)) _ (
                parse-write v fuel (pre ++ (string k ∷ [])) (write_fields fs ++ rest)
                  (omega (arith, length-append (body v) (write_fields fs)))),
            behind pre (string k ∷ []) (write v ++ (write_fields fs ++ rest)),
            move_behind (parse_map fuel (len_fields fs) (insert res k (merge v)))
                (pre ++ (string k ∷ [])) (write v) (write_fields fs ++ rest) _
                (parse_map-write fs fuel (insert res k (merge v))
                  ((pre ++ (string k ∷ [])) ++ write v) rest
                  (omega (arith, length-append (body v) (write_fields fs)))),
            length-two (pre ++ (string k ∷ [])) (write v) (write_fields fs),
            length-two pre (string k ∷ []) (write v ++ write_fields fs),
          )
          refl)

-- The value that the deserializer builds from the nodes of a value is that value, each object as the
-- map that its entries insert in turn. It does not panic, and its fuel is enough.
pub parse_tape-merge : (v : Tree) → parse_tape (write v) ≡ ok (merge v)
unfolding parse_tape
parse_tape-merge v = rw whole refl
  where
    whole : parse (3 * length (write v) + 1) (write v) 0 ≡ ok (merge v, length (write v))
    whole =
        subst (λ t. parse (3 * length (write v) + 1) t 0 ≡ ok (merge v, length (write v)))
          (append-nil (write v))
          (parse-write v (3 * length (write v) + 1) [] [] (omega arith)
            ∙ ap (λ j. ok (merge v, j)) (omega arith))
