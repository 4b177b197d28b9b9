-- ===== src/Stage2/Quiet/Scan.antt =====
-- src/stage2.rs: the macros that read tokens and values, among the pieces that open and close no
-- container.
pub mod LineEnd
use simd_toon_improved.Base.{
  ℕ, zero, suc, ◌+◌, ◌-◌, ◌≤◌, Bool, Option, none, some, List, [], ◌∷◌, ◌≢◌, refl, arith, length,
  Bytes, ◌==◌,
}
use simd_toon_improved.Error.{Result, ok, err, fault, out_of_fuel}
use simd_toon_improved.Tape.{Node, StaticNode}
use simd_toon_improved.Stage2.Machine.{
  Env, Machine, M, and_then, ◌>>◌, modify, byte_at, slice, advance, update_char, insert_res,
  insert_str, bump_cnt, move, checked_sub, spend_slack, grow_res, reserve_rows,
}
use simd_toon_improved.Stage2.Triple.{
  Ensures, holds, if_Ensures, fail-Ensures, ends-Ensures, bind-Ensures, mono-Ensures,
}
use simd_toon_improved.Stage2.Scan.{
  trim_loop, trim_trailing_spaces, insert_number, insert_word, insert_inferred_value, seek,
  get_value_end, eol_state_from_ws, skip_blank, some_or_syntax, parse_string_number, fold_digits,
}
use simd_toon_improved.Stage2.Quiet.{
  Kind, writes, Extends-refl, Counts-refl, Same, Same-refl, Same-trans, IsTotal, Quiet, quiet,
  run-Quiet, quiet_rules, Quiet-lift, Quiet-bind, Quiet-reading, Quiet-if, Quiet-pure, Quiet-fail,
  Quiet-panic,
}

pub byte_at-ends : (env : Env) (k : ℕ) → byte_at env k ≢ out_of_fuel
unfolding byte_at
byte_at-ends env k = ground arith

pub slice-ends : (env : Env) (from to : ℕ) → slice env from to ≢ out_of_fuel
unfolding slice
slice-ends env from to = ground arith

pub checked_sub-ends : (a b : ℕ) → checked_sub a b ≢ out_of_fuel
checked_sub-ends a b = ground arith

-- A step to index `k`, where only `ks` is left.
pub Same-move :
    {kind : Kind}
    → (m : Machine) (b k : ℕ) (ks : List ℕ) → length ks ≤ length m.rest
    → Same kind m (record m { idx = k; c = b; rest = ks })
Same-move {kind} m b k ks h = record {
  fewer = h;
  depth = refl;
  stack = refl;
  last_start = refl;
  content_ws_stack = refl;
  pending_counts = refl;
  tape = Extends-refl kind m.tape;
  entries = Counts-refl kind m.cnt;
}

pub insert_res-Quiet : (t : Node) → Quiet writes (insert_res t)
unfolding insert_res
insert_res-Quiet t = quiet λ m. holds (record {
  fewer = omega arith;
  depth = refl;
  stack = refl;
  last_start = refl;
  content_ws_stack = refl;
  pending_counts = refl;
  tape = (t ∷ [], refl);
  entries = tt;
})

pub bump_cnt-Quiet : Quiet writes bump_cnt
unfolding bump_cnt
bump_cnt-Quiet = quiet λ m. holds (record {
  fewer = omega arith;
  depth = refl;
  stack = refl;
  last_start = refl;
  content_ws_stack = refl;
  pending_counts = refl;
  tape = Extends-refl writes m.tape;
  entries = tt;
})

trim_loop-ends : (env : Env) (from n : ℕ) → trim_loop env from n ≢ out_of_fuel
unfolding trim_loop
trim_loop-ends env from zero = cc
trim_loop-ends env from (suc n) =
    ground (arith, byte_at-ends env (from + n), trim_loop-ends env from n)

pub trim-ends : (env : Env) (from to : ℕ) → trim_trailing_spaces env from to ≢ out_of_fuel
unfolding trim_trailing_spaces
trim-ends env from to = ground (arith, trim_loop-ends env from (to - from))

-- Each round of `seek` and of `skip_blank` goes to the next structural index.
pub update_char-Quiet : {kind : Kind} → (env : Env) → Quiet kind (update_char env)
unfolding update_char
update_char-Quiet env = quiet λ m. go m.rest m (omega arith)
  where
    go :
        {kind : Kind}
        → (ks : List ℕ) (m : Machine) → length ks ≤ length m.rest
        → Ensures (λ a m'. Same kind m m') (advance env ks m)
    go [] m h = fail-Ensures _ m
    go (k ∷ ks) m h =
        ends-Ensures _ _ (byte_at-ends env k) λ b. holds (Same-move m b k ks (omega arith))

seek-Same :
    {kind : Kind}
    → (env : Env) (stops : ℕ → Bool) (ks : List ℕ) (m : Machine) → length ks ≤ length m.rest
    → Ensures (λ a m'. Same kind m m') (seek env stops ks m)
unfolding seek
seek-Same env stops [] m h = if_Ensures (stops m.c) (holds (Same-refl m)) (fail-Ensures _ m)
seek-Same env stops (k ∷ ks) m h = if_Ensures (stops m.c) (holds (Same-refl m)) (
    if_Ensures (m.c == b'\n') (fail-Ensures _ m) (
      ends-Ensures _ _ (byte_at-ends env k) λ b.
        mono-Ensures (seek-Same env stops ks (move m k b ks) (omega arith))
          λ a m'. Same-trans (Same-move m b k ks (omega arith))))

pub get_value_end-Quiet :
    {kind : Kind} → (env : Env) (stops : ℕ → Bool) → Quiet kind (get_value_end env stops)
unfolding get_value_end
get_value_end-Quiet env stops = quiet λ m.
    bind-Ensures (λ u m'. and_then (trim_trailing_spaces env m.idx m'.idx) λ e. ok (e, m'))
      (seek-Same env stops m.rest m (omega arith))
      λ u k s. ends-Ensures _ _ (trim-ends env m.idx k.idx) λ e. holds s

pub eol_state_from_ws-Quiet :
    {kind : Kind} → (env : Env) (ws : ℕ) → Quiet kind (eol_state_from_ws env ws)
unfolding eol_state_from_ws
eol_state_from_ws-Quiet env ws = search quiet_rules

-- A quiet piece that goes to a later structural index.
pub data Steps {A : Type 0} (kind : Kind) (p : M A) : Type 0 where
  steps :
      ((m : Machine)
        → Ensures (λ a m'. Same kind m m' × (length m'.rest + 1 ≤ length m.rest)) (p m))
      → Steps kind p

pub run-Steps :
    {kind : Kind}
    → {A : Type 0} {p : M A} → Steps kind p
    → (m : Machine) → Ensures (λ a m'. Same kind m m' × (length m'.rest + 1 ≤ length m.rest)) (p m)
run-Steps (steps h) m = h m

pub update_char-Steps : {kind : Kind} → (env : Env) → Steps kind (update_char env)
unfolding update_char
update_char-Steps env = steps λ m. go m.rest m (omega arith)
  where
    go :
        {kind : Kind}
        → (ks : List ℕ) (m : Machine) → length ks ≤ length m.rest
        → Ensures (λ a m'. Same kind m m' × (length m'.rest + 1 ≤ length m.rest)) (advance env ks m)
    go [] m h = fail-Ensures _ m
    go (k ∷ ks) m h =
        ends-Ensures _ _ (byte_at-ends env k)
          λ b. holds (Same-move m b k ks (omega arith), omega arith)

steps_result :
    {kind : Kind}
    → {A B : Type 0} {m : Machine} {r : Result (A × Machine)} (f : A → M B)
    → Ensures (λ a m'. Same kind m m' × (length m'.rest + 1 ≤ length m.rest)) r
    → ((a : A) → Quiet kind (f a))
    → Ensures
        (λ b m'. Same kind m m' × (length m'.rest + 1 ≤ length m.rest))
        (and_then r λ (a, m'). f a m')
steps_result f h k = bind-Ensures f h λ a m' s.
    mono-Ensures (run-Quiet (k a) m') λ b m'' t. (Same-trans s.0 t, omega (arith, t.fewer, s.1))

pub Steps-then :
    {kind : Kind}
    → {A B : Type 0} {p : M A} {q : M B} → Steps kind p
    → Quiet kind q
    → Steps kind (p >> q)
unfolding ◌>>◌
Steps-then {q} h k = steps λ m. steps_result (λ _. q) (run-Steps h m) (λ _. k)

pub Quiet-Steps : {kind : Kind} → {A : Type 0} {p : M A} → Steps kind p → Quiet kind p
Quiet-Steps h = quiet λ m. mono-Ensures (run-Steps h m) λ a m' s. s.0

pub parse_string_number-Quiet :
    {kind : Kind} → (env : Env) (from to : ℕ) → Quiet kind (parse_string_number env from to)
unfolding parse_string_number
parse_string_number-Quiet env from to =
    Quiet-bind (Quiet-lift _ (slice-ends env from to))
      λ bytes. some-Quiet (fold_digits bytes (some 0))
  where
    some-Quiet : {kind : Kind} → (o : Option ℕ) → Quiet kind (some_or_syntax o)
    some-Quiet none = Quiet-fail _
    some-Quiet (some v) = Quiet-pure v

pub spend_slack-Quiet : {kind : Kind} → (n : ℕ) → Quiet kind (spend_slack n)
unfolding spend_slack modify
spend_slack-Quiet {kind} n =
    Quiet-bind (Quiet-reading _ λ m. Quiet-lift _ (checked_sub-ends m.tape_slack n)) λ s. quiet λ m.
      holds (record {
        fewer = omega arith;
        depth = refl;
        stack = refl;
        last_start = refl;
        content_ws_stack = refl;
        pending_counts = refl;
        tape = Extends-refl kind m.tape;
        entries = Counts-refl kind m.cnt;
      })

pub grow_res-Quiet : {kind : Kind} → (env : Env) (n : ℕ) → Quiet kind (grow_res env n)
unfolding grow_res modify
grow_res-Quiet {kind} env n = quiet λ m. holds (record {
  fewer = omega arith;
  depth = refl;
  stack = refl;
  last_start = refl;
  content_ws_stack = refl;
  pending_counts = refl;
  tape = Extends-refl kind m.tape;
  entries = Counts-refl kind m.cnt;
})

pub reserve_rows-Quiet : {kind : Kind} → (env : Env) (n : ℕ) → Quiet kind (reserve_rows env n)
unfolding reserve_rows
reserve_rows-Quiet env n = search (quiet_rules, spend_slack-Quiet, grow_res-Quiet)

module _ (env : Env) (t : IsTotal env) where
  pub insert_str-Quiet : (from to : ℕ) → Quiet writes (insert_str env from to)
  unfolding insert_str
  insert_str-Quiet from to =
      Quiet-bind (Quiet-lift _ (t.parse_str_ends from to)) λ s. insert_res-Quiet _

  insert_number-Quiet :
      (from to : ℕ) (r : Result StaticNode)
      → r ≢ out_of_fuel
      → Quiet writes (insert_number env from to r)
  insert_number-Quiet from to (ok n) h = insert_res-Quiet _
  insert_number-Quiet from to (err e) h = insert_str-Quiet from to
  insert_number-Quiet from to fault h = Quiet-panic
  insert_number-Quiet from to out_of_fuel h = absurd (h refl)

  insert_word-Quiet : (from to : ℕ) (word : Bytes) → Quiet writes (insert_word env from to word)
  unfolding insert_word
  insert_word-Quiet from to word = search (quiet_rules, insert_res-Quiet, insert_str-Quiet from to)

  pub insert_inferred_value-Quiet : (from to : ℕ) → Quiet writes (insert_inferred_value env from to)
  unfolding insert_inferred_value
  insert_inferred_value-Quiet from to = Quiet-bind (Quiet-lift _ (byte_at-ends env from)) λ first.
      Quiet-if _ (insert_number-Quiet from to _ (t.try_parse_number_ends from to _))
        (Quiet-bind (Quiet-lift _ (slice-ends env from to)) λ word. insert_word-Quiet from to word)
