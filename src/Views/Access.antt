-- ===== src/Views/Access.antt =====
-- src/value/tape/trait_impls.rs: what a `Value` of a tape is, and access to what it holds.
use simd_toon_improved.Base.{
  ℕ, zero, suc, ◌+◌, Bool, true, false, Option, none, some, [], ◌∷◌, Bytes, equal, get_elem?,
}
use simd_toon_improved.Error.{Result, ok, fault}
use simd_toon_improved.Stage2.Machine.{and_then}
use simd_toon_improved.Tape.{
  Node, string, object, array, static, StaticNode, i64, u64, f64, bool, null, count, as_str,
}
use simd_toon_improved.Views.Slices.{or_none, sub_slice}
use simd_toon_improved.Views.Tree.{Nodes}
use simd_toon_improved.Views.Array
use simd_toon_improved.Views.Object

-- `ValueType` of the value_trait crate, by the constructors that the program builds.
pub data ValueType : Type 0 where
  null_type bool_type i64_type u64_type f64_type string_type array_type object_type : ValueType

-- `Result<A, TryTypeError>`: the error has the type expected and the type there.
pub data Tried (A : Type 0) : Type 0 where
  found : A → Tried A
  type_error : ValueType → ValueType → Tried A

abbrev pub is_some : {A : Type 0} → Option A → Bool
is_some none = false
is_some (some a) = true

abbrev pub static_type : StaticNode → ValueType
static_type (i64 n) = i64_type
static_type (u64 n) = u64_type
static_type (f64 n) = f64_type
static_type (bool b) = bool_type
static_type null = null_type

-- `Node::value_type`
abbrev pub node_type : Node → ValueType
node_type (string s) = string_type
node_type (object l n) = object_type
node_type (array l n) = array_type
node_type (static v) = static_type v

-- `Node::array_count`, `Node::object_count` and `Node::object_len`
abbrev pub array_count : Node → Tried ℕ
array_count (array l n) = found n
array_count n = type_error array_type (node_type n)

abbrev pub object_count : Node → Tried ℕ
object_count (object l n) = found n
object_count n = type_error object_type (node_type n)

abbrev pub object_len : Node → Tried ℕ
object_len (object l n) = found l
object_len n = type_error object_type (node_type n)

-- `Value::value_type`
unfoldable pub value_type : Nodes → Result ValueType
value_type [] = fault
value_type (n ∷ rest) = ok (node_type n)

unfoldable pub as_static : Nodes → Option StaticNode
as_static (static v ∷ rest) = some v
as_static v = none

-- `as_null`, `as_bool`, `as_i64`, `as_u64` and `as_f64`: `scalar` is that method of `StaticNode`,
-- which is of the value_trait crate.
unfoldable pub as_scalar : {A : Type 0} → (StaticNode → Option A) → Nodes → Option A
as_scalar scalar v = elim (as_static v) [ none ↦ none | some s ↦ scalar s ]

-- `into_string`, which `as_str` calls.
unfoldable pub into_string : Nodes → Option Bytes
into_string (string s ∷ rest) = some s
into_string v = none

-- `as_array` and `into_array`
unfoldable pub as_array : Nodes → Result (Option Nodes)
as_array (array l n ∷ rest) = and_then (sub_slice (array l n ∷ rest) 0 (n + 1)) λ s. ok (some s)
as_array v = ok none

-- `as_object` and `into_object`
unfoldable pub as_object : Nodes → Result (Option Nodes)
as_object (object l n ∷ rest) = and_then (sub_slice (object l n ∷ rest) 0 (n + 1)) λ s. ok (some s)
as_object v = ok none

unfoldable pub is_array : Nodes → Result Bool
is_array v = and_then (as_array v) λ o. ok (is_some o)

unfoldable pub is_object : Nodes → Result Bool
is_object v = and_then (as_object v) λ o. ok (is_some o)

-- `Option::ok_or`, whose argument is computed whatever the option is.
abbrev ok_or : ValueType → Nodes → Option Nodes → Result (Tried Nodes)
ok_or expected v o =
    and_then (value_type v)
      λ got. elim o [ none ↦ ok (type_error expected got) | some a ↦ ok (found a) ]

unfoldable pub try_as_array : Nodes → Result (Tried Nodes)
try_as_array v = and_then (as_array v) λ o. ok_or array_type v o

unfoldable pub try_as_object : Nodes → Result (Tried Nodes)
try_as_object v = and_then (as_object v) λ o. ok_or object_type v o

-- `Ok(e?.f())`
abbrev tried : {A B : Type 0} → Tried A → (A → Result B) → Result (Tried B)
tried (found a) f = and_then (f a) λ b. ok (found b)
tried (type_error expected got) f = ok (type_error expected got)

unfoldable pub try_get : Nodes → Bytes → Result (Tried (Option Nodes))
try_get v k = and_then (try_as_object v) λ t. tried t λ o. Object.get o k

unfoldable pub try_get_idx : Nodes → ℕ → Result (Tried (Option Nodes))
try_get_idx v i = and_then (try_as_array v) λ t. tried t λ a. Array.get a i

unfoldable pub get : Nodes → Bytes → Result (Option Nodes)
get v k = and_then (as_object v) λ o. or_none o λ o. Object.get o k

unfoldable pub contains_key : Nodes → Bytes → Result Bool
contains_key v k = and_then (get v k) λ o. ok (is_some o)

unfoldable pub get_idx : Nodes → ℕ → Result (Option Nodes)
get_idx v i = and_then (as_array v) λ o. or_none o λ a. Array.get a i

unfoldable pub get_str : Nodes → Bytes → Result (Option Bytes)
get_str v k = and_then (get v k) λ o. or_none o λ v. ok (into_string v)

-- `self.0[idx]`
abbrev pub index : {B : Type 0} → Nodes → ℕ → (Node → Result B) → Result B
index v idx f = elim (get_elem? v idx) [ none ↦ fault | some n ↦ f n ]

-- `get_array`, `get_object` and their `try_` forms share their loop: `counted` is `array_count` or
-- `object_count`.
unfoldable pub container_from :
    (Node → Tried ℕ) → Bytes → Nodes → ℕ → ℕ → Result (Tried (Option Nodes))
container_from counted k v zero idx = ok (found none)
container_from counted k v (suc len) idx = index v idx λ s. elim (as_str s) [
  | none ↦ fault
  | some s ↦ index v (idx + 1) λ n. elim (equal s k) [
    | true ↦ elim (counted n) [
      | found c ↦ and_then (sub_slice v (idx + 1) (idx + 1 + c)) λ a. ok (found (some a))
      | type_error expected got ↦ ok (type_error expected got)
    ]
    | false ↦ container_from counted k v len (idx + 1 + count n)
  ]
]

unfoldable pub try_container : (Node → Tried ℕ) → Nodes → Bytes → Result (Tried (Option Nodes))
try_container counted v k = index v 0 λ n. elim (object_len n) [
  | found len ↦ container_from counted k v len 1
  | type_error expected got ↦ ok (type_error expected got)
]

unfoldable pub try_get_array : Nodes → Bytes → Result (Tried (Option Nodes))
try_get_array v k = try_container array_count v k

unfoldable pub try_get_object : Nodes → Bytes → Result (Tried (Option Nodes))
try_get_object v k = try_container object_count v k

-- `.ok()?` for the same error.
abbrev without_error : {A : Type 0} → Tried (Option A) → Option A
without_error (found o) = o
without_error (type_error expected got) = none

unfoldable pub get_array : Nodes → Bytes → Result (Option Nodes)
get_array v k = and_then (try_container array_count v k) λ t. ok (without_error t)

unfoldable pub get_object : Nodes → Bytes → Result (Option Nodes)
get_object v k = and_then (try_container object_count v k) λ t. ok (without_error t)

-- `get_bool` and the other scalars: `as_scalar` is the method of `Value`.
unfoldable pub get_scalar : {A : Type 0} → (Nodes → Option A) → Nodes → Bytes → Result (Option A)
get_scalar as_scalar v k = and_then (get v k) λ o. or_none o λ v. ok (as_scalar v)

-- `try_get_bool` and the other scalars, `try_get_str` too: `try_as_scalar` is the method of
-- `Value` that the value_trait crate derives.
unfoldable pub try_get_scalar :
    {A : Type 0} → (Nodes → Tried A) → Nodes → Bytes → Result (Tried (Option A))
try_get_scalar try_as_scalar v k = and_then (try_get v k) λ t. elim t [
  | type_error expected got ↦ ok (type_error expected got)
  | found none ↦ ok (found none)
  | found (some v) ↦ elim (try_as_scalar v) [
    | found a ↦ ok (found (some a))
    | type_error expected got ↦ ok (type_error expected got)
  ]
]
