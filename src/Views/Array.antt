-- ===== src/Views/Array.antt =====
-- src/value/tape/array.rs: an array over the nodes of a tape. An array is its slice, its header
-- first; an iterator is the slice that is left.
use simd_toon_improved.Base.{
  ℕ, zero, suc, ◌+◌, Bool, Option, none, some, List, [], ◌∷◌, ◌==◌, get_elem?, length,
}
use simd_toon_improved.Error.{Result, ok, fault, out_of_fuel}
use simd_toon_improved.Stage2.Machine.{and_then}
use simd_toon_improved.Tape.{array, count}
use simd_toon_improved.Views.Slices.{first, or_none, sub_slice, split_at}
use simd_toon_improved.Views.Tree.{Nodes}

-- The value at an offset, as `get` of both views takes it: `&v[offset..offset + count]`.
unfoldable pub value_at : Nodes → ℕ → Result (Option Nodes)
value_at v offset =
    or_none (get_elem? v offset)
      λ n. and_then (sub_slice v offset (offset + count n)) λ s. ok (some s)

-- The loop of `get` with what follows it.
unfoldable pub get_from : Nodes → ℕ → ℕ → Result (Option Nodes)
get_from v zero offset = value_at v offset
get_from v (suc idx) offset = or_none (get_elem? v offset) λ n. get_from v idx (offset + count n)

unfoldable pub get : Nodes → ℕ → Result (Option Nodes)
get v idx = get_from v idx 1

-- `&self.0[1..]`
unfoldable pub iter : Nodes → Result Nodes
iter v = sub_slice v 1 (length v)

unfoldable pub len : Nodes → Result ℕ
len (array l n ∷ rest) = ok l
len v = fault

unfoldable pub is_empty : Nodes → Result Bool
is_empty v = and_then (len v) λ n. ok (n == 0)

-- The value and the iterator behind it.
unfoldable pub next : Nodes → Result (Option (Nodes × Nodes))
next v = or_none (first v) λ n. and_then (split_at v (count n)) λ s. ok (some s)

-- `collect()`: the values until `next` answers `None`.
unfoldable pub collect :
    {A : Type 0} → (Nodes → Result (Option (A × Nodes))) → ℕ → Nodes → Result (List A)
collect next zero v = out_of_fuel
collect next (suc fuel) v = and_then (next v) λ o. elim o [
  | none ↦ ok []
  | some (x, rest) ↦ and_then (collect next fuel rest) λ xs. ok (x ∷ xs)
]
