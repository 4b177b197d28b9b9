-- ===== src/Tape.antt =====
-- src/value/tape.rs: the nodes of a tape.
use simd_toon_improved.Base.{ℕ, ◌+◌, Bool, Option, none, some, Bytes}

-- `StaticNode` of the value_trait crate, by the constructors that the program builds. An `i64` is
-- its bit pattern, an `f64` too.
pub data StaticNode : Type 0 where
  i64 : ℕ → StaticNode
  u64 : ℕ → StaticNode
  f64 : ℕ → StaticNode
  bool : Bool → StaticNode
  null : StaticNode

-- The fields of `object` and `array` are `len` and `count`.
pub data Node : Type 0 where
  string : Bytes → Node
  object : ℕ → ℕ → Node
  array : ℕ → ℕ → Node
  static : StaticNode → Node

abbrev pub as_str : Node → Option Bytes
as_str (string s) = some s
as_str _ = none

-- The nodes of this node, itself included.
abbrev pub count : Node → ℕ
count (object len n) = n + 1
count (array len n) = n + 1
count (string s) = 1
count (static v) = 1
