-- ===== src/Stage2/Scopes.antt =====
-- src/stage2.rs: `open_scope!` and `close_and_pop_state!`.
use simd_toon_improved.Base.{ℕ, List, ◌++◌}
use simd_toon_improved.Tape.{Node}
use simd_toon_improved.Stage2.Machine.{Machine}

-- The body of a scope: it adds nodes, and counts entries.
abbrev pub fill : List Node → ℕ → Machine → Machine
fill added n m = record m { tape = m.tape ++ added; cnt = n }
