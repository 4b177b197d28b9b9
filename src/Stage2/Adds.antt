-- ===== src/Stage2/Adds.antt =====
-- src/stage2.rs: pieces of `build_tape` that add a known number of entries and of nodes.
pub mod Rows
use simd_toon_improved.Base.{
  ℕ, zero, suc, ◌+◌, ◌-◌, ◌*◌, ◌≤◌, ◌≡◌, ◌≢◌, refl, arith, Bool, true, false, not, ◌&&◌, Option,
  none, some, List, [], ◌∷◌, ◌++◌, Bytes, length, take, length-append, if◌then◌else◌, ◌==◌, subst₂,
}
use simd_toon_improved.Error.{ErrorType, Result, ok, err, fault, out_of_fuel}
use simd_toon_improved.Tape.{Node, StaticNode}
use simd_toon_improved.Stage2.Machine.{
  Span, Env, Machine, M, and_then, ◌>>=◌, ◌>>◌, pure, lift, gets, reading, panic, fail, fail_tape,
  checked_sub, byte_at, slice, move, advance, update_char, insert_res, insert_str, bump_cnt,
}
use simd_toon_improved.Stage2.Triple.{
  Ensures, holds, raised, panicked, if_Ensures, fail-Ensures, ends-Ensures, bind-Ensures,
  mono-Ensures,
}

-- `k` entries and `n` nodes more.
pub record IsMore (k n : ℕ) (m m' : Machine) : Type 0 where
  pub entries : m'.cnt ≡ m.cnt + k
  pub slots : length m'.tape ≡ length m.tape + n

pub data Adds {A : Type 0} (k n : ℕ) (p : M A) : Type 0 where
  adds : ((m : Machine) → Ensures (λ a. IsMore k n m) (p m)) → Adds k n p

pub run-Adds :
    {A : Type 0} {k n : ℕ} {p : M A}
    → Adds k n p
    → (m : Machine) → Ensures (λ a. IsMore k n m) (p m)
run-Adds (adds h) m = h m

no-IsMore : (m : Machine) → IsMore 0 0 m m
no-IsMore m = record { entries = omega arith; slots = omega arith }

more :
    {k n l o : ℕ} (a b c : Machine) → IsMore k n a b → IsMore l o b c → IsMore (k + l) (n + o) a c
more a b c h g = record {
  entries = omega (arith, h.entries, g.entries);
  slots = omega (arith, h.slots, g.slots);
}

module _ {A : Type 0} where
  pub Adds-sum : {k k' n n' : ℕ} {p : M A} → k ≡ k' → n ≡ n' → Adds k n p → Adds k' n' p
  Adds-sum {p} e f h = subst₂ (λ x y. Adds x y p) e f h

  pub Adds-pure : (a : A) → Adds 0 0 (pure a)
  unfolding pure
  Adds-pure a = adds λ m. holds (no-IsMore m)

  pub Adds-gets : (f : Machine → A) → Adds 0 0 (gets f)
  unfolding gets
  Adds-gets f = adds λ m. holds (no-IsMore m)

  pub Adds-fail : {k n : ℕ} (t : ErrorType) → Adds k n (fail {A = A} t)
  unfolding fail
  Adds-fail t = adds λ m. raised

  pub Adds-panic : {k n : ℕ} → Adds k n (panic {A = A})
  unfolding panic
  Adds-panic = adds λ m. panicked

  pub Adds-if :
      {k n : ℕ} (b : Bool) {p q : M A} → Adds k n p → Adds k n q → Adds k n (if b then p else q)
  Adds-if true h g = h
  Adds-if false h g = g

  pub Adds-reading :
      {k n : ℕ} (g : Machine → M A) → ((m : Machine) → Adds k n (g m)) → Adds k n (reading g)
  unfolding reading
  Adds-reading g h = adds λ m. run-Adds (h m) m

  pub Adds-lift : (r : Result A) → r ≢ out_of_fuel → Adds 0 0 (lift r)
  unfolding lift
  Adds-lift (ok a) h = adds λ m. holds (no-IsMore m)
  Adds-lift (err e) h = adds λ m. raised
  Adds-lift fault h = adds λ m. panicked
  Adds-lift out_of_fuel h = absurd (h refl)

module _ {A B : Type 0} {k n l o : ℕ} where
  Adds-result :
      {m : Machine} {r : Result (A × Machine)} (f : A → M B)
      → Ensures (λ a. IsMore k n m) r
      → ((a : A) → Adds l o (f a))
      → Ensures (λ b. IsMore (k + l) (n + o) m) (and_then r λ (a, m'). f a m')
  Adds-result {m} f h g =
      bind-Ensures f h λ a m' s. mono-Ensures (run-Adds (g a) m') λ b m''. more m m' m'' s

  pub Adds-bind :
      {p : M A} {f : A → M B}
      → Adds k n p
      → ((a : A) → Adds l o (f a))
      → Adds (k + l) (n + o) (p >>= f)
  unfolding ◌>>=◌
  Adds-bind {f} h g = adds λ m. Adds-result f (run-Adds h m) g

  pub Adds-then : {p : M A} {q : M B} → Adds k n p → Adds l o q → Adds (k + l) (n + o) (p >> q)
  unfolding ◌>>◌
  Adds-then {q} h g = adds λ m. Adds-result (λ _. q) (run-Adds h m) (λ _. g)
