-- ===== src/Views/Object.antt =====
-- src/value/tape/object.rs: an object over the nodes of a tape, and its three iterators.
use simd_toon_improved.Base.{
  ℕ, zero, suc, ◌+◌, Bool, true, false, Option, none, some, [], ◌∷◌, ◌==◌, Bytes, equal, get_elem?,
  length,
}
use simd_toon_improved.Error.{Result, ok, fault}
use simd_toon_improved.Stage2.Machine.{and_then}
use simd_toon_improved.Tape.{object, count, as_str}
use simd_toon_improved.Views.Slices.{first, or_none, sub_slice, split_at}
use simd_toon_improved.Views.Tree.{Nodes}
use simd_toon_improved.Views.Array.{value_at}

-- `self.0.get(idx)?.as_str()?`
abbrev pub key_at : Nodes → ℕ → Option Bytes
key_at v idx = elim (get_elem? v idx) [ none ↦ none | some n ↦ as_str n ]

-- The loop of `get`, on the entries that are left.
unfoldable pub get_from : Bytes → Nodes → ℕ → ℕ → Result (Option Nodes)
get_from k v zero idx = ok none
get_from k v (suc len) idx = or_none (key_at v idx) λ s. or_none (get_elem? v (idx + 1)) λ n.
    elim (equal s k) [ true ↦ value_at v (idx + 1) | false ↦ get_from k v len (idx + 1 + count n) ]

unfoldable pub get : Nodes → Bytes → Result (Option Nodes)
get (object l n ∷ rest) k = get_from k (object l n ∷ rest) l 1
get v k = ok none

-- `iter`, `keys` and `values` start alike, at `&self.0[1..]`.
unfoldable pub iter : Nodes → Result Nodes
iter v = sub_slice v 1 (length v)

unfoldable pub len : Nodes → Result ℕ
len (object l n ∷ rest) = ok l
len v = fault

unfoldable pub is_empty : Nodes → Result Bool
is_empty v = and_then (len v) λ n. ok (n == 0)

-- `v.split_at(v.first()?.count())`
unfoldable pub split_value : Nodes → Result (Option (Nodes × Nodes))
split_value v = or_none (first v) λ n. and_then (split_at v (count n)) λ s. ok (some s)

-- `Iter::next`
unfoldable pub next : Nodes → Result (Option ((Bytes × Nodes) × Nodes))
next [] = ok none
next (k ∷ v) =
    or_none (as_str k)
      λ k. and_then (split_value v) λ o. or_none o λ (head, tail). ok (some ((k, head), tail))

-- `Keys::next`
unfoldable pub next_key : Nodes → Result (Option (Bytes × Nodes))
next_key [] = ok none
next_key (k ∷ v) =
    or_none (as_str k)
      λ k. and_then (split_value v) λ o. or_none o λ (head, tail). ok (some (k, tail))

-- `Values::next`
unfoldable pub next_value : Nodes → Result (Option (Nodes × Nodes))
next_value [] = ok none
next_value (k ∷ v) = split_value v
