-- ===== src/Views/Walk.antt =====
-- src/value/tape/array.rs and object.rs: the iterators, on the nodes of a value.
use simd_toon_improved.Base.{
  ℕ, zero, suc, ◌+◌, ◌<◌, Option, none, some, List, [], ◌∷◌, ◌++◌, append-nil, Bytes, length,
  length-append, ◌≡◌, refl, subst, arith,
}
use simd_toon_improved.Error.{Result, ok}
use simd_toon_improved.Stage2.Machine.{and_then}
use simd_toon_improved.Tape.{Node, string}
use simd_toon_improved.Views.Slices.{sub_slice, split_at-append, sub_slice-append}
use simd_toon_improved.Views.Tree.{
  Nodes, Tree, arr, obj, Items, nil, cons, Fields, end, field, header, body, write, write_items,
  write_fields, len_items, len_fields, count-header, all_items, all_keys, all_values, all_fields,
}
use simd_toon_improved.Views.Array
use simd_toon_improved.Views.Object

-- An iterator that gives `x` and goes on, or is at its end.
collect-next :
    {A : Type 0} (next : Nodes → Result (Option (A × Nodes))) (fuel : ℕ) (v rest : Nodes) (x : A)
    (xs : List A)
    → next v ≡ ok (some (x, rest))
    → Array.collect next fuel rest ≡ ok xs
    → Array.collect next (suc fuel) v ≡ ok (x ∷ xs)
unfolding Array.collect
collect-next next fuel v rest x xs p q = rw (p, q) refl

collect-end :
    {A : Type 0} (next : Nodes → Result (Option (A × Nodes))) (fuel : ℕ)
    → next [] ≡ ok none
    → Array.collect next (suc fuel) [] ≡ ok []
unfolding Array.collect
collect-end next fuel p = rw p refl

next-write : (v : Tree) (rest : Nodes) → Array.next (write v ++ rest) ≡ ok (some (write v, rest))
unfolding Array.next write
next-write v rest = rw (count-header v, split_at-append (write v) rest) refl

split_value-write :
    (v : Tree) (rest : Nodes) → Object.split_value (write v ++ rest) ≡ ok (some (write v, rest))
unfolding Object.split_value write
split_value-write v rest = rw (count-header v, split_at-append (write v) rest) refl

collect_items :
    (xs : Items) (fuel : ℕ)
    → len_items xs < fuel
    → Array.collect Array.next fuel (write_items xs) ≡ ok (all_items xs)
unfolding Array.collect Array.next write_items len_items all_items write
collect_items xs zero h = absurd (omega arith)
collect_items nil (suc fuel) h = refl
collect_items (cons x xs) (suc fuel) h =
    collect-next Array.next fuel (write x ++ write_items xs) _ _ _ (next-write x (write_items xs))
      (collect_items xs fuel (omega arith))

module _ (k : Bytes) (v : Tree) (rest : Nodes) where
  next-field : Object.next (string k ∷ (write v ++ rest)) ≡ ok (some ((k, write v), rest))
  unfolding Object.next
  next-field = rw (split_value-write v rest) refl

  next_key-field : Object.next_key (string k ∷ (write v ++ rest)) ≡ ok (some (k, rest))
  unfolding Object.next_key
  next_key-field = rw (split_value-write v rest) refl

  next_value-field : Object.next_value (string k ∷ (write v ++ rest)) ≡ ok (some (write v, rest))
  unfolding Object.next_value
  next_value-field = split_value-write v rest

-- An iterator over an object that gives `f k v` for the entry of `k` and `v`.
module _ {A : Type 0} (next : Nodes → Result (Option (A × Nodes))) (f : Bytes → Tree → A)
    (all : Fields → List A) (all_end : all end ≡ [])
    (all_field : (k : Bytes) (v : Tree) (fs : Fields) → all (field k v fs) ≡ f k v ∷ all fs)
    (at_end : next [] ≡ ok none)
    (at_field : (k : Bytes) (v : Tree) (rest : Nodes)
      → next (string k ∷ (write v ++ rest)) ≡ ok (some (f k v, rest))) where
  collect_fields :
      (fs : Fields) (fuel : ℕ)
      → len_fields fs < fuel
      → Array.collect next fuel (write_fields fs) ≡ ok (all fs)
  unfolding write_fields len_fields write
  collect_fields fs zero h = absurd (omega arith)
  collect_fields end (suc fuel) h = rw all_end (collect-end next fuel at_end)
  collect_fields (field k v fs) (suc fuel) h = rw (all_field k v fs) (
      collect-next next fuel _ _ _ _ (at_field k v (write_fields fs))
        (collect_fields fs fuel (omega arith)))

-- The nodes are as many as the entries, or more.
len_items-le : (xs : Items) → len_items xs < suc (length (write_items xs))
unfolding write_items len_items
len_items-le nil = omega arith
len_items-le (cons x xs) = omega (arith, len_items-le xs, length-append (body x) (write_items xs))

len_fields-le : (fs : Fields) → len_fields fs < suc (length (write_fields fs))
unfolding write_fields len_fields
len_fields-le end = omega arith
len_fields-le (field k v fs) =
    omega (arith, len_fields-le fs, length-append (body v) (write_fields fs))

-- `&self.0[1..]`
sub_slice-body : (n : Node) (xs : Nodes) → sub_slice (n ∷ xs) 1 (length (n ∷ xs)) ≡ ok xs
sub_slice-body n xs =
    subst (λ t. sub_slice (n ∷ t) 1 (suc (length xs)) ≡ ok xs) (append-nil xs)
      (rw (one (length xs)) (sub_slice-append (n ∷ []) xs []))
  where
    one : (k : ℕ) → suc k ≡ 1 + k
    one k = omega arith

-- What a `for` loop over the iterator sees: as many rounds as there are nodes, and one more, are
-- enough.
unfoldable pub run_iter :
    {A : Type 0} → (Nodes → Result (Option (A × Nodes))) → Result Nodes → Result (List A)
run_iter next start = and_then start λ v. Array.collect next (suc (length v)) v

-- A loop over an array's values sees the nodes of each of its items in order, and ends.
pub iter-all_items :
    (xs : Items) → run_iter Array.next (Array.iter (write (arr xs))) ≡ ok (all_items xs)
unfolding run_iter Array.iter write header body
iter-all_items xs =
    rw (sub_slice-body (header (arr xs)) (write_items xs)) (collect_items xs _ (len_items-le xs))

-- Loops over an object's entries, keys and values see those of each entry in order, one for every
-- key that is there twice included, and end.
pub iter-all_fields :
    (fs : Fields)
    → (run_iter Object.next (Object.iter (write (obj fs))) ≡ ok (all_fields fs))
      × (run_iter Object.next_key (Object.iter (write (obj fs))) ≡ ok (all_keys fs))
      × (run_iter Object.next_value (Object.iter (write (obj fs))) ≡ ok (all_values fs))
unfolding run_iter Object.iter write header body all_fields all_keys all_values Object.next
    Object.next_key Object.next_value
iter-all_fields fs = (
  rw (sub_slice-body (header (obj fs)) (write_fields fs)) (
      collect_fields Object.next (λ k v. (k, write v)) all_fields refl (λ k v fs. refl) refl
        next-field fs _ (len_fields-le fs)),
  rw (sub_slice-body (header (obj fs)) (write_fields fs)) (
      collect_fields Object.next_key (λ k v. k) all_keys refl (λ k v fs. refl) refl next_key-field
        fs _ (len_fields-le fs)),
  rw (sub_slice-body (header (obj fs)) (write_fields fs)) (
      collect_fields Object.next_value (λ k v. write v) all_values refl (λ k v fs. refl) refl
        next_value-field fs _ (len_fields-le fs)),
)
