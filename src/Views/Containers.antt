-- ===== src/Views/Containers.antt =====
-- src/value/tape/trait_impls.rs: `get_array`, `get_object` and their `try_` forms, on the nodes of a
-- value.
use simd_toon_improved.Base.{
  ℕ, suc, ◌+◌, ◌≤◌, Bool, true, false, Option, none, some, [], ◌∷◌, ◌++◌, Bytes, equal, get_elem?,
  length, take, ◌≡◌, refl, ◌∙◌, ap, subst, arith,
}
use simd_toon_improved.Error.{Result, ok}
use simd_toon_improved.Stage2.Machine.{and_then}
use simd_toon_improved.Tape.{Node, string, count}
use simd_toon_improved.Views.Slices.{sub_slice, sub_slice-within, get_elem?-append}
use simd_toon_improved.Views.Tree.{
  Nodes, Tree, str, stat, arr, obj, Fields, end, field, header, body, write, write_fields,
  len_fields, first_value,
}
use simd_toon_improved.Views.Lookup.{header_at, length-write, length_key, key_node, behind}
use simd_toon_improved.Views.Access.{
  Tried, found, type_error, index, container_from, try_container, array_count, object_count,
  try_get_array, try_get_object,
}

-- What the loop answers for the first value of the key: as many of its nodes as `counted` says.
abbrev pub clipped : (Node → Tried ℕ) → Option Tree → Tried (Option Nodes)
clipped counted none = found none
clipped counted (some v) = elim (counted (header v)) [
  | found c ↦ found (some (take c (write v)))
  | type_error expected got ↦ type_error expected got
]

-- A count that is none of more nodes than there are.
abbrev IsWithin : (Node → Tried ℕ) → Type 0
IsWithin counted = (v : Tree) (c : ℕ) → counted (header v) ≡ found c → c ≤ length (write v)

-- One round of the loop, on the nodes that it reads.
look_at_field :
    (counted : Node → Tried ℕ) (k : Bytes) (v : Nodes) (s : Bytes) (n : Node) (len idx : ℕ)
    → get_elem? v idx ≡ some (string s)
    → get_elem? v (idx + 1) ≡ some n
    → container_from counted k v (suc len) idx ≡ elim (equal s k) [
      | true ↦ elim (counted n) [
        | found c ↦ and_then (sub_slice v (idx + 1) (idx + 1 + c)) λ a. ok (found (some a))
        | type_error expected got ↦ ok (type_error expected got)
      ]
      | false ↦ container_from counted k v len (idx + 1 + count n)
    ]
unfolding container_from
look_at_field counted k v s n len idx p q = rw (index, p, q) refl

by_entry :
    (counted : Node → Tried ℕ) (b : Bool) (x y : Result (Tried (Option Nodes))) (v : Tree)
    (o : Option Tree)
    → x ≡ ok (clipped counted (some v))
    → y ≡ ok (clipped counted o)
    → elim b [ true ↦ x | false ↦ y ] ≡ ok (clipped counted (elim b [ true ↦ some v | false ↦ o ]))
by_entry counted true x y v o p q = p
by_entry counted false x y v o p q = q

container_from-clipped :
    (counted : Node → Tried ℕ)
    → IsWithin counted
    → (k : Bytes) (pre : Nodes) (fs : Fields)
    → container_from counted k (pre ++ write_fields fs) (len_fields fs) (length pre)
      ≡ ok (clipped counted (first_value fs k))
unfolding container_from write_fields len_fields first_value write
container_from-clipped counted w k pre end = refl
container_from-clipped counted w k pre (field s v fs) =
    ap (λ t. container_from counted k t (suc (len_fields fs)) (length pre)) regroup
    ∙ look_at_field counted k tape s (header v) (len_fields fs) (length pre) here
        (rw (length_key pre s) (header_at pre' v rest))
    ∙ by_entry counted (equal s k) _ _ v (first_value fs k)
        (taken (length pre + 1) (length_key pre s) (counted (header v)) (w v))
        (rw (length_key pre s, length-write pre' v)
          (ap (λ t. container_from counted k t (len_fields fs) (length (pre' ++ write v)))
              (behind pre' (write v) rest)
            ∙ container_from-clipped counted w k (pre' ++ write v) fs))
  where
    rest : Nodes
    rest = write_fields fs

    pre' : Nodes
    pre' = pre ++ key_node s

    tape : Nodes
    tape = pre' ++ (write v ++ rest)

    regroup : pre ++ (key_node s ++ (write v ++ rest)) ≡ tape
    regroup = behind pre (key_node s) (write v ++ rest)

    here : get_elem? tape (length pre) ≡ some (string s)
    here =
        subst (λ t. get_elem? t (length pre) ≡ some (string s)) regroup
          (get_elem?-append pre (key_node s ++ (write v ++ rest)))

    taken :
        (j : ℕ)
        → j ≡ length pre'
        → (t : Tried ℕ) → ((c : ℕ) → t ≡ found c → c ≤ length (write v))
        → elim t [
          | found c ↦ and_then (sub_slice tape j (j + c)) λ a. ok (found (some a))
          | type_error expected got ↦ ok (type_error expected got)
        ]
          ≡ ok (elim t [
            | found c ↦ found (some (take c (write v)))
            | type_error expected got ↦ type_error expected got
          ])
    taken j e (type_error expected got) g = refl
    taken j e (found c) g = rw (e, sub_slice-within pre' (write v) rest c (g c refl)) refl

array_count-IsWithin : IsWithin array_count
unfolding write header body
array_count-IsWithin (arr xs) c e = ground arith
array_count-IsWithin (str s) c e = cc
array_count-IsWithin (stat s) c e = cc
array_count-IsWithin (obj fs) c e = cc

object_count-IsWithin : IsWithin object_count
unfolding write header body
object_count-IsWithin (obj fs) c e = ground arith
object_count-IsWithin (str s) c e = cc
object_count-IsWithin (stat s) c e = cc
object_count-IsWithin (arr xs) c e = cc

-- On the nodes of an object, `try_get_array` and `try_get_object` answer for the first value of the
-- key, with none where there is no such key and a type error where it is no such container. What they
-- answer with lacks the last node of the container: it is as many nodes as the count of its header,
-- which does not count the header. So an empty container has no node at all.
pub try_get-clipped :
    (fs : Fields) (k : Bytes)
    → (try_get_array (write (obj fs)) k ≡ ok (clipped array_count (first_value fs k)))
      × (try_get_object (write (obj fs)) k ≡ ok (clipped object_count (first_value fs k)))
unfolding try_get_array try_get_object try_container write header body
try_get-clipped fs k = (
  container_from-clipped array_count array_count-IsWithin k (header (obj fs) ∷ []) fs,
  container_from-clipped object_count object_count-IsWithin k (header (obj fs) ∷ []) fs,
)
