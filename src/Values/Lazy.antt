-- ===== src/Values/Lazy.antt =====
-- src/value/lazy.rs and src/value/lazy/trait_impls.rs: a value that stays a tape until it is changed.
pub mod Refines
use simd_toon_improved.Base.{ℕ, Bool, true, false, not, Option, none, some, [], ◌∷◌, Bytes}
use simd_toon_improved.Error.{Result, ok, fault}
use simd_toon_improved.Stage2.Machine.{and_then}
use simd_toon_improved.Tape.{static, StaticNode, null}
use simd_toon_improved.Views.Tree.{Nodes, Tree, str, stat, arr, obj, item_of, value_of}
use simd_toon_improved.Views.Access
use simd_toon_improved.Views.Access.{
  ValueType, string_type, array_type, object_type, static_type, is_some,
}
use simd_toon_improved.Values.Parse.{parse_tape}

-- `Value::Tape` and `Value::Value`. That a `Cow` may borrow what it holds is not kept.
pub data Lazy : Type 0 where
  tape : Nodes → Lazy
  value : Tree → Lazy

-- `Value::null()` of src/value/tape.rs, and the default of a lazy value.
abbrev pub null_tape : Nodes
null_tape = static null ∷ []

unfoldable pub default : Lazy
default = tape null_tape

unfoldable pub from_tape : Nodes → Lazy
from_tape t = tape t

unfoldable pub is_tape : Lazy → Bool
is_tape (tape t) = true
is_tape (value v) = false

unfoldable pub is_value : Lazy → Bool
is_value l = not (is_tape l)

unfoldable pub into_value : Lazy → Result Tree
into_value (tape t) = parse_tape t
into_value (value v) = ok v

-- `into_tape`, which is for tapes only.
abbrev into_tape : Lazy → Result Nodes
into_tape (tape t) = ok t
into_tape (value v) = fault

unfoldable pub upgrade : Lazy → Result Lazy
upgrade (value v) = ok (value v)
upgrade (tape t) = and_then (into_tape (tape t)) λ t. and_then (parse_tape t) λ v. ok (value v)

-- `as_mut`, and a change through the reference that it gives.
unfoldable pub change : (Tree → Tree) → Lazy → Result Lazy
change f l =
    and_then (elim (is_tape l) [ true ↦ upgrade l | false ↦ ok l ])
      λ l. elim l [ value v ↦ ok (value (f v)) | tape t ↦ fault ]

abbrev over_tape : Option Nodes → Option Lazy
over_tape none = none
over_tape (some t) = some (tape t)

abbrev over_value : Option Tree → Option Lazy
over_value none = none
over_value (some v) = some (value v)

unfoldable pub get : Lazy → Bytes → Result (Option Lazy)
get (tape t) k = and_then (Access.get t k) λ o. ok (over_tape o)
get (value v) k = ok (over_value (value_of v k))

unfoldable pub get_idx : Lazy → ℕ → Result (Option Lazy)
get_idx (tape t) i = and_then (Access.get_idx t i) λ o. ok (over_tape o)
get_idx (value v) i = ok (over_value (item_of v i))

-- `as_object()` and `get` on what it gives.
unfoldable pub contains_key : Lazy → Bytes → Result Bool
contains_key (tape t) k = Access.contains_key t k
contains_key (value v) k = ok (is_some (value_of v k))

-- `value_type` of a value that owns its tree.
abbrev tree_type : Tree → ValueType
tree_type (str s) = string_type
tree_type (stat v) = static_type v
tree_type (arr xs) = array_type
tree_type (obj fs) = object_type

unfoldable pub value_type : Lazy → Result ValueType
value_type (tape t) = Access.value_type t
value_type (value v) = ok (tree_type v)

abbrev tree_str : Tree → Option Bytes
tree_str (str s) = some s
tree_str v = none

unfoldable pub as_str : Lazy → Option Bytes
as_str (tape t) = Access.into_string t
as_str (value v) = tree_str v

abbrev tree_static : Tree → Option StaticNode
tree_static (stat s) = some s
tree_static v = none

-- `as_null`, `as_bool` and the other scalars: `scalar` is the method of `StaticNode`.
unfoldable pub as_scalar : {A : Type 0} → (StaticNode → Option A) → Lazy → Option A
as_scalar scalar (tape t) = Access.as_scalar scalar t
as_scalar scalar (value v) = elim (tree_static v) [ none ↦ none | some s ↦ scalar s ]
