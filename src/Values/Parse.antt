-- ===== src/Values/Parse.antt =====
-- src/value/owned.rs: `OwnedDeserializer`, which builds a value from a tape. The deserializers of
-- src/value/borrowed.rs and src/value.rs have the same text over other types.
use simd_toon_improved.Base.{
  ℕ, zero, suc, ◌+◌, ◌*◌, true, false, none, some, Bytes, equal, get_elem?, length,
}
use simd_toon_improved.Error.{Result, ok, fault, out_of_fuel}
use simd_toon_improved.Stage2.Machine.{and_then}
use simd_toon_improved.Tape.{Node, string, object, array, static}
use simd_toon_improved.Views.Tree.{
  Nodes, Tree, str, stat, arr, obj, Items, nil, cons, Fields, end, field,
}

-- `Deserializer::next_`, on the tape and the index.
abbrev pub next_ : Nodes → ℕ → Result (Node × ℕ)
next_ tape idx = elim (get_elem? tape idx) [ none ↦ fault | some n ↦ ok (n, idx + 1) ]

-- `HashMap::insert`, on a list that stands for the map: a key that is there gets the new value. The map
-- has no order, and only what a key answers is read off the list.
unfoldable pub insert : Fields → Bytes → Tree → Fields
insert end k v = field k v end
insert (field s w fs) k v = elim (equal s k) [
  | true ↦ field s v fs
  | false ↦ field s w (insert fs k v)
]

-- Each with the index behind what it has read. The first argument bounds the nesting of the calls.
unfoldable mutual
  pub parse : ℕ → Nodes → ℕ → Result (Tree × ℕ)
  parse zero tape idx = out_of_fuel
  parse (suc fuel) tape idx = and_then (next_ tape idx) λ (n, idx). parse_node fuel n tape idx

  -- The `match` on the node.
  pub parse_node : ℕ → Node → Nodes → ℕ → Result (Tree × ℕ)
  parse_node zero n tape idx = out_of_fuel
  parse_node (suc fuel) (static v) tape idx = ok (stat v, idx)
  parse_node (suc fuel) (string s) tape idx = ok (str s, idx)
  parse_node (suc fuel) (array len count) tape idx =
      and_then (parse_array fuel len tape idx) λ (xs, idx). ok (arr xs, idx)
  parse_node (suc fuel) (object len count) tape idx =
      and_then (parse_map fuel len end tape idx) λ (fs, idx). ok (obj fs, idx)

  pub parse_array : ℕ → ℕ → Nodes → ℕ → Result (Items × ℕ)
  parse_array zero len tape idx = out_of_fuel
  parse_array (suc fuel) zero tape idx = ok (nil, idx)
  parse_array (suc fuel) (suc len) tape idx =
      and_then (parse fuel tape idx)
        λ (x, idx). and_then (parse_array fuel len tape idx) λ (xs, idx). ok (cons x xs, idx)

  pub parse_map : ℕ → ℕ → Fields → Nodes → ℕ → Result (Fields × ℕ)
  parse_map zero len res tape idx = out_of_fuel
  parse_map (suc fuel) zero res tape idx = ok (res, idx)
  parse_map (suc fuel) (suc len) res tape idx =
      and_then (next_ tape idx) λ (n, idx). parse_entry fuel len res n tape idx

  -- `if let Node::String(key)`, and the rounds that are left.
  pub parse_entry : ℕ → ℕ → Fields → Node → Nodes → ℕ → Result (Fields × ℕ)
  parse_entry zero len res n tape idx = out_of_fuel
  parse_entry (suc fuel) len res (string key) tape idx =
      and_then (parse fuel tape idx) λ (v, idx). parse_map fuel len (insert res key v) tape idx
  parse_entry (suc fuel) len res n tape idx = fault

-- `from_deserializer(de).parse()`, from the start of the tape.
unfoldable pub parse_tape : Nodes → Result Tree
parse_tape tape = and_then (parse (3 * length tape + 1) tape 0) λ (v, idx). ok v
