-- ===== src/Views/Lookup.antt =====
-- src/value/tape/: `get` of arrays, objects and values, on the nodes of a value.
use simd_toon_improved.Base.{
  ℕ, zero, suc, ◌+◌, Bool, true, false, Option, some, [], ◌∷◌, ◌++◌, append_assoc, append-nil,
  Bytes, equal, get_elem?, length, length-append, ◌≡◌, refl, sym, ◌∙◌, ap, subst, arith,
}
use simd_toon_improved.Error.{Result, ok}
use simd_toon_improved.Tape.{Node, string, count}
use simd_toon_improved.Views.Slices.{sub_slice, get_elem?-append, sub_slice-append}
use simd_toon_improved.Views.Tree.{
  Nodes, Tree, str, stat, arr, obj, Items, nil, cons, Fields, end, field, header, body, write,
  write_items, write_fields, len_fields, count-header, nth, first_value, item_of, value_of, written,
}
use simd_toon_improved.Views.Array
use simd_toon_improved.Views.Object
use simd_toon_improved.Views.Access.{as_array, as_object, get_idx, get}

-- A value within the nodes of a tape.
pub header_at :
    (pre : Nodes) (v : Tree) (rest : Nodes)
    → get_elem? (pre ++ (write v ++ rest)) (length pre) ≡ some (header v)
unfolding write
header_at pre v rest = get_elem?-append pre (write v ++ rest)

pub length-write :
    (pre : Nodes) (v : Tree) → length pre + count (header v) ≡ length (pre ++ write v)
unfolding write
length-write pre v = omega (arith, count-header v, length-append pre (write v))

value_at-write :
    (pre : Nodes) (v : Tree) (rest : Nodes)
    → Array.value_at (pre ++ (write v ++ rest)) (length pre) ≡ ok (some (write v))
unfolding Array.value_at
value_at-write pre v rest =
    rw
      (
        header_at pre v rest,
        length-write pre v,
        length-append pre (write v),
        sub_slice-append pre (write v) rest,
      )
      refl

-- Behind a prefix, the next one.
pub behind : (pre xs ys : Nodes) → pre ++ (xs ++ ys) ≡ (pre ++ xs) ++ ys
behind pre xs ys = sym (append_assoc pre xs ys)

skip_value :
    (pre : Nodes) (v : Tree) (rest : Nodes) (i : ℕ)
    → Array.get_from (pre ++ (write v ++ rest)) (suc i) (length pre)
      ≡ Array.get_from ((pre ++ write v) ++ rest) i (length (pre ++ write v))
unfolding Array.get_from
skip_value pre v rest i =
    rw (header_at pre v rest, length-write pre v)
      (ap (λ t. Array.get_from t i (length (pre ++ write v))) (behind pre (write v) rest))

get_from-nth :
    (pre : Nodes) (xs : Items) (i : ℕ)
    → Array.get_from (pre ++ write_items xs) i (length pre) ≡ ok (written (nth xs i))
unfolding Array.get_from Array.value_at write_items nth write
get_from-nth pre nil zero = rw (get_elem?-append pre []) refl
get_from-nth pre nil (suc i) = rw (get_elem?-append pre []) refl
get_from-nth pre (cons x xs) zero = value_at-write pre x (write_items xs)
get_from-nth pre (cons x xs) (suc i) =
    skip_value pre x (write_items xs) i ∙ get_from-nth (pre ++ write x) xs i

-- An entry within the nodes of a tape: its value if it has the key, or what is behind it.
abbrev pub key_node : Bytes → Nodes
key_node s = string s ∷ []

-- `get_from` on its entry, with the nodes it reads.
look_at_field :
    (k : Bytes) (v : Nodes) (s : Bytes) (n : Node) (len idx : ℕ)
    → get_elem? v idx ≡ some (string s)
    → get_elem? v (idx + 1) ≡ some n
    → Object.get_from k v (suc len) idx ≡ elim (equal s k) [
      | true ↦ Array.value_at v (idx + 1)
      | false ↦ Object.get_from k v len (idx + 1 + count n)
    ]
unfolding Object.get_from
look_at_field k v s n len idx p q = rw (Object.key_at, p, q) refl

by_entry :
    (b : Bool) (x y : Result (Option Nodes)) (v : Tree) (o : Option Tree)
    → x ≡ ok (written (some v))
    → y ≡ ok (written o)
    → elim b [ true ↦ x | false ↦ y ] ≡ ok (written (elim b [ true ↦ some v | false ↦ o ]))
by_entry true x y v o p q = p
by_entry false x y v o p q = q

pub length_key : (pre : Nodes) (s : Bytes) → length pre + 1 ≡ length (pre ++ key_node s)
length_key pre s = omega (arith, length-append pre (key_node s))

object_from-first_value :
    (k : Bytes) (pre : Nodes) (fs : Fields)
    → Object.get_from k (pre ++ write_fields fs) (len_fields fs) (length pre)
      ≡ ok (written (first_value fs k))
unfolding Object.get_from write_fields len_fields first_value write
object_from-first_value k pre end = refl
object_from-first_value k pre (field s v fs) =
    ap (λ t. Object.get_from k t (suc (len_fields fs)) (length pre)) regroup
    ∙ look_at_field k tape s (header v) (len_fields fs) (length pre) here
        (rw (length_key pre s) (header_at pre' v rest))
    ∙ by_entry (equal s k) _ _ v (first_value fs k)
        (rw (length_key pre s) (value_at-write pre' v rest))
        (rw (length_key pre s, length-write pre' v)
          (ap (λ t. Object.get_from k t (len_fields fs) (length (pre' ++ write v)))
              (behind pre' (write v) rest)
            ∙ object_from-first_value k (pre' ++ write v) fs))
  where
    rest : Nodes
    rest = write_fields fs

    pre' : Nodes
    pre' = pre ++ key_node s

    tape : Nodes
    tape = pre' ++ (write v ++ rest)

    regroup : pre ++ (key_node s ++ (write v ++ rest)) ≡ tape
    regroup = behind pre (key_node s) (write v ++ rest)

    here : get_elem? tape (length pre) ≡ some (string s)
    here =
        subst (λ t. get_elem? t (length pre) ≡ some (string s)) regroup
          (get_elem?-append pre (key_node s ++ (write v ++ rest)))

-- The slice of a whole tape.
sub_slice-whole : (n : Node) (xs : Nodes) → sub_slice (n ∷ xs) 0 (length xs + 1) ≡ ok (n ∷ xs)
sub_slice-whole n xs =
    subst (λ t. sub_slice t 0 (length xs + 1) ≡ ok (n ∷ xs)) (append-nil (n ∷ xs))
      (rw (one (length xs)) (sub_slice-append [] (n ∷ xs) []))
  where
    one : (k : ℕ) → k + 1 ≡ 0 + suc k
    one k = omega arith

-- `get_idx` on the nodes of a value finds those of its item of that number: none where it has no
-- such item, or is no array. It never panics.
pub get_idx-item_of : (v : Tree) (i : ℕ) → get_idx (write v) i ≡ ok (written (item_of v i))
unfolding get_idx as_array item_of Array.get header body write
get_idx-item_of (str s) i = refl
get_idx-item_of (stat s) i = refl
get_idx-item_of (obj fs) i = refl
get_idx-item_of (arr xs) i =
    rw (sub_slice-whole (header (arr xs)) (write_items xs))
      (get_from-nth (header (arr xs) ∷ []) xs i)

-- `get` on the nodes of a value finds those of its first value with that key: none where it has no
-- such key, or is no object. It never panics.
pub get-value_of : (v : Tree) (k : Bytes) → get (write v) k ≡ ok (written (value_of v k))
unfolding get as_object value_of Object.get header body write
get-value_of (str s) k = refl
get-value_of (stat s) k = refl
get-value_of (arr xs) k = refl
get-value_of (obj fs) k =
    rw (sub_slice-whole (header (obj fs)) (write_fields fs))
      (object_from-first_value k (header (obj fs) ∷ []) fs)
