-- ===== src/Stage2/Quiet.antt =====
-- src/stage2.rs: the pieces of `build_tape` that open and close no container.
pub mod Scan
pub mod Header
pub mod Cells
use simd_toon_improved.Base.{
  ℕ, ◌+◌, ◌≤◌, Bool, true, false, List, [], ◌++◌, ◌≡◌, ◌≢◌, refl, ◌∙◌, sym, append_assoc,
  append-nil, if◌then◌else◌, arith, length,
}
use simd_toon_improved.Error.{ErrorType, Result, ok, err, fault, out_of_fuel}
use simd_toon_improved.Tape.{Node}
use simd_toon_improved.Stage2.Machine.{
  Env, Machine, M, and_then, ◌>>=◌, ◌>>◌, pure, lift, gets, reading, panic, fail,
}
use simd_toon_improved.Stage2.Triple.{
  Ensures, holds, raised, panicked, bind-Ensures, mono-Ensures, Triple, triple,
}

-- Whether a piece only reads, or may also add nodes at the end of the tape.
pub data Kind : Type 0 where
  reads writes : Kind

abbrev pub Extends : Kind → List Node → List Node → Type 0
Extends reads tape tape' = tape' ≡ tape
Extends writes tape tape' = (added : List Node) × (tape' ≡ tape ++ added)

pub Extends-refl : (kind : Kind) (tape : List Node) → Extends kind tape tape
Extends-refl reads tape = refl
Extends-refl writes tape = ([], sym (append-nil tape))

Extends-trans :
    (kind : Kind) (a b c : List Node) → Extends kind a b → Extends kind b c → Extends kind a c
Extends-trans reads a b c p q = q ∙ p
Extends-trans writes a b c (x, p) (y, q) = (x ++ y, q ∙ rw p (append_assoc a x y))

-- What only reads leaves the number of entries.
abbrev pub Counts : Kind → ℕ → ℕ → Type 0
Counts reads n n' = n' ≡ n
Counts writes n n' = Unit

pub Counts-refl : (kind : Kind) (n : ℕ) → Counts kind n n
Counts-refl reads n = refl
Counts-refl writes n = tt

Counts-trans : (kind : Kind) (a b c : ℕ) → Counts kind a b → Counts kind b c → Counts kind a c
Counts-trans reads a b c p q = q ∙ p
Counts-trans writes a b c p q = tt

pub record Same (kind : Kind) (m m' : Machine) : Type 0 where
  pub fewer : length m'.rest ≤ length m.rest
  pub depth : m'.depth ≡ m.depth
  pub stack : m'.stack ≡ m.stack
  pub last_start : m'.last_start ≡ m.last_start
  pub content_ws_stack : m'.content_ws_stack ≡ m.content_ws_stack
  pub pending_counts : m'.pending_counts ≡ m.pending_counts
  pub tape : Extends kind m.tape m'.tape
  pub entries : Counts kind m.cnt m'.cnt

pub Same-refl : {kind : Kind} (m : Machine) → Same kind m m
Same-refl {kind} m = record {
  fewer = omega arith;
  depth = refl;
  stack = refl;
  last_start = refl;
  content_ws_stack = refl;
  pending_counts = refl;
  tape = Extends-refl kind m.tape;
  entries = Counts-refl kind m.cnt;
}

pub Same-trans : {kind : Kind} {a b c : Machine} → Same kind a b → Same kind b c → Same kind a c
Same-trans {kind} {a} {b} {c} s t = record {
  fewer = omega (arith, s.fewer, t.fewer);
  depth = t.depth ∙ s.depth;
  stack = t.stack ∙ s.stack;
  last_start = t.last_start ∙ s.last_start;
  content_ws_stack = t.content_ws_stack ∙ s.content_ws_stack;
  pending_counts = t.pending_counts ∙ s.pending_counts;
  tape = Extends-trans kind a.tape b.tape c.tape s.tape t.tape;
  entries = Counts-trans kind a.cnt b.cnt c.cnt s.entries t.entries;
}

-- What the parsers of strings and of numbers are taken to do: they end.
pub record IsTotal (env : Env) : Type 0 where
  pub parse_str_ends : (from to : ℕ) → env.parse_str from to ≢ out_of_fuel
  pub try_parse_number_ends :
      (from to : ℕ) (negative : Bool) → env.try_parse_number from to negative ≢ out_of_fuel

pub data Quiet {A : Type 0} (kind : Kind) (p : M A) : Type 0 where
  quiet : ((m : Machine) → Ensures (λ a m'. Same kind m m') (p m)) → Quiet kind p

pub run-Quiet :
    {kind : Kind}
    → {A : Type 0} {p : M A} → Quiet kind p
    → (m : Machine) → Ensures (λ a m'. Same kind m m') (p m)
run-Quiet (quiet h) m = h m

module _ {A : Type 0} where
  pub Quiet-pure : {kind : Kind} → (a : A) → Quiet kind (pure a)
  unfolding pure
  Quiet-pure a = quiet λ m. holds (Same-refl m)

  pub Quiet-gets : {kind : Kind} → (f : Machine → A) → Quiet kind (gets f)
  unfolding gets
  Quiet-gets f = quiet λ m. holds (Same-refl m)

  pub Quiet-fail : {kind : Kind} → (t : ErrorType) → Quiet kind (fail {A = A} t)
  unfolding fail
  Quiet-fail t = quiet λ m. raised

  pub Quiet-panic : {kind : Kind} → Quiet kind (panic {A = A})
  unfolding panic
  Quiet-panic = quiet λ m. panicked

  pub Quiet-if :
      {kind : Kind}
      → (b : Bool) {p q : M A} → Quiet kind p
      → Quiet kind q
      → Quiet kind (if b then p else q)
  Quiet-if true h k = h
  Quiet-if false h k = k

  pub Quiet-reading :
      {kind : Kind}
      → (g : Machine → M A) → ((k : Machine) → Quiet kind (g k))
      → Quiet kind (reading g)
  unfolding reading
  Quiet-reading g h = quiet λ m. run-Quiet (h m) m

  pub Quiet-lift : {kind : Kind} → (r : Result A) → r ≢ out_of_fuel → Quiet kind (lift r)
  unfolding lift
  Quiet-lift (ok a) h = quiet λ m. holds (Same-refl m)
  Quiet-lift (err e) h = quiet λ m. raised
  Quiet-lift fault h = quiet λ m. panicked
  Quiet-lift out_of_fuel h = absurd (h refl)

module _ {A B : Type 0} where
  Quiet-result :
      {kind : Kind}
      → {m : Machine} {r : Result (A × Machine)} (f : A → M B) → Ensures (λ a m'. Same kind m m') r
      → ((a : A) → Quiet kind (f a))
      → Ensures (λ b m'. Same kind m m') (and_then r λ (a, m'). f a m')
  Quiet-result f h k =
      bind-Ensures f h λ a m' s. mono-Ensures (run-Quiet (k a) m') λ b m''. Same-trans s

  pub Quiet-bind :
      {kind : Kind}
      → {p : M A} {f : A → M B} → Quiet kind p
      → ((a : A) → Quiet kind (f a))
      → Quiet kind (p >>= f)
  unfolding ◌>>=◌
  Quiet-bind {f} h k = quiet λ m. Quiet-result f (run-Quiet h m) k

  pub Quiet-then :
      {kind : Kind} → {p : M A} {q : M B} → Quiet kind p → Quiet kind q → Quiet kind (p >> q)
  unfolding ◌>>◌
  Quiet-then {q} h k = quiet λ m. Quiet-result (λ _. q) (run-Quiet h m) (λ _. k)

pub ruleset quiet_rules = (
  Quiet-pure, Quiet-gets, Quiet-fail, Quiet-panic, Quiet-if, Quiet-reading, Quiet-bind, Quiet-then,
)

-- A predicate that such changes keep is kept.
pub Quiet-keeps :
    {kind : Kind}
    → {A : Type 0} {p : M A} {P : Machine → Type 0}
    → ((m m' : Machine) → Same kind m m' → P m → P m')
    → Quiet kind p
    → Triple P p (λ a. P)
Quiet-keeps {P} keep h = triple λ m k. mono-Ensures (run-Quiet h m) λ a m' s. keep m m' s k
