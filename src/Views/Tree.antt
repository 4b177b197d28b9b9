-- ===== src/Views/Tree.antt =====
-- The nodes of src/value/tape.rs that a value is written as: an independent description of a tape.
use simd_toon_improved.Base.{
  ℕ, zero, suc, true, false, Option, none, some, List, [], ◌∷◌, ◌++◌, Bytes, equal, length, ◌≡◌,
  refl, arith,
}
use simd_toon_improved.Tape.{Node, string, object, array, static, StaticNode, count}

-- `Tape(Vec<Node>)`, and what a `Value` of src/value/tape.rs borrows.
abbrev pub Nodes : Type 0
Nodes = List Node

mutual
  pub data Tree : Type 0 where
    str : Bytes → Tree
    stat : StaticNode → Tree
    arr : Items → Tree
    obj : Fields → Tree

  pub data Items : Type 0 where
    nil : Items
    cons : Tree → Items → Items

  -- An object may have a key twice.
  pub data Fields : Type 0 where
    end : Fields
    field : Bytes → Tree → Fields → Fields

unfoldable pub len_items : Items → ℕ
len_items nil = 0
len_items (cons x xs) = suc (len_items xs)

unfoldable pub len_fields : Fields → ℕ
len_fields end = 0
len_fields (field k v fs) = suc (len_fields fs)

unfoldable mutual
  -- The first node of a value, and the nodes behind it.
  pub header : Tree → Node
  header (str s) = string s
  header (stat v) = static v
  header (arr xs) = array (len_items xs) (length (write_items xs))
  header (obj fs) = object (len_fields fs) (length (write_fields fs))

  pub body : Tree → Nodes
  body (str s) = []
  body (stat v) = []
  body (arr xs) = write_items xs
  body (obj fs) = write_fields fs

  pub write_items : Items → Nodes
  write_items nil = []
  write_items (cons x xs) = header x ∷ body x ++ write_items xs

  pub write_fields : Fields → Nodes
  write_fields end = []
  write_fields (field k v fs) = string k ∷ header v ∷ body v ++ write_fields fs

unfoldable pub write : Tree → Nodes
write v = header v ∷ body v

pub count-header : (v : Tree) → count (header v) ≡ suc (length (body v))
unfolding header body
count-header (str s) = refl
count-header (stat v) = refl
count-header (arr xs) = omega arith
count-header (obj fs) = omega arith

-- The item of a number, and the first value of a key.
unfoldable pub nth : Items → ℕ → Option Tree
nth nil i = none
nth (cons x xs) zero = some x
nth (cons x xs) (suc i) = nth xs i

unfoldable pub first_value : Fields → Bytes → Option Tree
first_value end k = none
first_value (field s v fs) k = elim (equal s k) [ true ↦ some v | false ↦ first_value fs k ]

-- Of a value that may be no array or no object.
unfoldable pub item_of : Tree → ℕ → Option Tree
item_of (arr xs) i = nth xs i
item_of v i = none

unfoldable pub value_of : Tree → Bytes → Option Tree
value_of (obj fs) k = first_value fs k
value_of v k = none

abbrev pub written : Option Tree → Option Nodes
written none = none
written (some v) = some (write v)

-- What the iterators are to give, in order.
unfoldable pub all_items : Items → List Nodes
all_items nil = []
all_items (cons x xs) = write x ∷ all_items xs

unfoldable pub all_keys : Fields → List Bytes
all_keys end = []
all_keys (field k v fs) = k ∷ all_keys fs

unfoldable pub all_values : Fields → List Nodes
all_values end = []
all_values (field k v fs) = write v ∷ all_values fs

unfoldable pub all_fields : Fields → List (Bytes × Nodes)
all_fields end = []
all_fields (field k v fs) = (k, write v) ∷ all_fields fs
