-- ===== src/Stage2/Frames.antt =====
-- src/stage2.rs: the frames of the open containers during `build_tape`, and the work that is left.
pub mod Rows
pub mod States
pub mod Close
use simd_toon_improved.Base.{
  ℕ, suc, ◌+◌, ◌*◌, ◌-◌, ◌≤◌, Option, none, some, List, [], ◌∷◌, ◌≡◌, refl, sym, subst, subst₂, inl,
  inr, arith, leb, leb→le, Bool-cases, ap, length, get_elem?, Bool,
}
use simd_toon_improved.Tape.{Node}
use simd_toon_improved.Stage2.Machine.{
  Span, StackState, Env, Machine, M, ◌>>=◌, ◌>>◌, modify, reading, lift, update_char, open_scope,
  push_ws, backfill_object, restore_parent, leave, close_and_pop_state, frame_object, frame_array,
  frame_keyed,
}
use simd_toon_improved.Stage2.Triple.{
  Ensures, holds, panicked, mono-Ensures, bind-Ensures, fail-Ensures, Triple, triple,
}
use simd_toon_improved.Stage2.Scan.{EolState, sibling, close_scope, nested, get_eol_state}
use simd_toon_improved.Stage2.Quiet.{writes, Same, Quiet, Quiet-keeps}
use simd_toon_improved.Stage2.Quiet.Scan.{run-Steps, update_char-Steps}
use simd_toon_improved.Stage2.Quiet.Scan.LineEnd.{get_eol_state-Advances, Advances}

-- The frames from the innermost out, for a container that starts at the given slot: only the
-- document's own frame is left below the root, whose node is the first of the tape.
abbrev pub Chain : List StackState → ℕ → Type 0
Chain [] l = ⊥
Chain (StackState.start ∷ s) l = (l ≡ 0) × (s ≡ [])
Chain (StackState.object p n ∷ s) l = Chain s p
Chain (StackState.array p n ∷ s) l = Chain s p

-- What is left to read, and what is open, with `b` to spare below `w`.
pub record Good (w b : ℕ) (m : Machine) : Type 0 where
  pub bound : 4 * length m.rest + m.depth + b ≤ w
  pub chain : Chain m.stack m.last_start
  pub depth : m.depth ≡ length m.stack

pub Same-Good : {w b : ℕ} (m m' : Machine) → Same writes m m' → Good w b m → Good w b m'
Same-Good m m' s g = record {
  bound = omega (arith, s.fewer, s.depth, g.bound);
  chain = subst₂ Chain (sym s.stack) (sym s.last_start) g.chain;
  depth = rw (s.depth, s.stack) g.depth;
}

pub Good-Quiet :
    {w b : ℕ} {A : Type 0} {p : M A} → Quiet writes p → Triple (Good w b) p (λ a. Good w b)
Good-Quiet h = Quiet-keeps Same-Good h

pub Good-weaken : {w b c : ℕ} {m : Machine} → b ≤ c → Good w c m → Good w b m
Good-weaken h g = record { bound = omega (arith, g.bound); chain = g.chain; depth = g.depth }

-- What is to spare depends on the difference alone.
pub Good-shift : {w w' b b' : ℕ} {m : Machine} → w + b' ≤ w' + b → Good w b m → Good w' b' m
Good-shift h g = record { bound = omega (arith, g.bound); chain = g.chain; depth = g.depth }

pub Good-steps :
    {w b : ℕ} (m m' : Machine)
    → Same writes m m' × (length m'.rest + 1 ≤ length m.rest)
    → Good w b m
    → Good w (b + 4) m'
Good-steps m m' (s, less) g =
    let g' = Same-Good m m' s g in
    record { bound = omega (arith, s.depth, g.bound); chain = g'.chain; depth = g'.depth }

pub update_char-Good :
    {w b : ℕ} (env : Env) → Triple (Good w b) (update_char env) (λ a. Good w (b + 4))
update_char-Good env =
    triple λ m g. mono-Ensures (run-Steps (update_char-Steps env) m) λ a m' s. Good-steps m m' s g

-- What the next line's state gives back.
abbrev pub gain : EolState → ℕ
gain close_scope = 0
gain sibling = 4
gain nested = 4

pub get_eol_state-Good :
    {w b : ℕ} (env : Env) (should_error : Bool)
    → Triple (Good w b) (get_eol_state env should_error) (λ eol. Good w (b + gain eol))
get_eol_state-Good env should_error =
    triple
      λ m g. mono-Ensures (get_eol_state-Advances env should_error m) λ eol m' s. go m m' eol s g
  where
    go :
        {w b : ℕ} (m m' : Machine) (eol : EolState)
        → Advances writes m eol m'
        → Good w b m
        → Good w (b + gain eol) m'
    go m m' close_scope (s, step) g = Good-weaken (omega arith) (Same-Good m m' s g)
    go m m' sibling (s, inl e) g = cc
    go m m' nested (s, inl e) g = cc
    go m m' sibling (s, inr less) g = Good-steps m m' (s, less) g
    go m m' nested (s, inr less) g = Good-steps m m' (s, less) g

-- A frame for the container that the machine is inside of.
abbrev pub IsFrame : (Machine → StackState) → Type 0
IsFrame parent =
    (m : Machine) (s : List StackState) (l : ℕ) → Chain s m.last_start → Chain (parent m ∷ s) l

pub frame_object-IsFrame : IsFrame frame_object
frame_object-IsFrame m s l h = h

pub frame_array-IsFrame : IsFrame frame_array
frame_array-IsFrame m s l h = h

pub frame_keyed-IsFrame : (key : Option Span) → IsFrame (frame_keyed key)
frame_keyed-IsFrame none m s l h = h
frame_keyed-IsFrame (some k) m s l h = h

-- Opening takes one of what is to spare, or one more.
pub open_scope-Good :
    {w b : ℕ} (node : Node) (parent : Machine → StackState) (ws : Machine → ℕ)
    → IsFrame parent
    → Triple (Good w (suc b)) (open_scope node parent ws) (λ a. Good w b)
unfolding open_scope
open_scope-Good node parent ws f = triple λ m g. holds (record {
  bound = omega (arith, g.bound);
  chain = f m m.stack _ g.chain;
  depth = omega (arith, g.depth);
})

pub open_scope-Good_wider :
    {w b : ℕ} (node : Node) (parent : Machine → StackState) (ws : Machine → ℕ)
    → IsFrame parent
    → Triple (Good w b) (open_scope node parent ws) (λ a. Good (suc w) b)
unfolding open_scope
open_scope-Good_wider node parent ws f = triple λ m g. holds (record {
  bound = omega (arith, g.bound);
  chain = f m m.stack _ g.chain;
  depth = omega (arith, g.depth);
})

pub push_ws-Good : {w b : ℕ} (ws : Machine → ℕ) → Triple (Good w b) (push_ws ws) (λ a. Good w b)
unfolding push_ws
push_ws-Good ws = triple λ m g. holds (record { bound = g.bound; chain = g.chain; depth = g.depth })

-- Between the fall of the depth and the return to the parent's frame.
pub record IsLeaving (w b : ℕ) (m : Machine) : Type 0 where
  pub bound : 4 * length m.rest + m.depth + b ≤ w
  pub chain : Chain m.stack m.last_start
  pub depth : m.depth + 1 ≡ length m.stack

backfill_object-IsLeaving :
    {w b : ℕ} (o : Option Node) (m : Machine)
    → IsLeaving w b m
    → Ensures (λ a. IsLeaving w b) (backfill_object o m)
backfill_object-IsLeaving (some (Node.object l n)) m g =
    holds (record { bound = g.bound; chain = g.chain; depth = g.depth })
backfill_object-IsLeaving (some other) m g = fail-Ensures _ m
backfill_object-IsLeaving none m g = panicked

restore_parent-Good :
    {w b : ℕ} (s : List StackState) (m : Machine)
    → m.stack ≡ s
    → IsLeaving w b m
    → Ensures (λ a. Good w b) (restore_parent s m)
restore_parent-Good [] m e g = panicked
restore_parent-Good (StackState.start ∷ s) m e g = fail-Ensures _ m
restore_parent-Good (StackState.object l n ∷ s) m e g = holds (record {
  bound = g.bound;
  chain = subst (λ k. Chain k m.last_start) e g.chain;
  depth = omega (arith, ap length e, g.depth);
})
restore_parent-Good (StackState.array l n ∷ s) m e g = holds (record {
  bound = g.bound;
  chain = subst (λ k. Chain k m.last_start) e g.chain;
  depth = omega (arith, ap length e, g.depth);
})

-- Closing a row gives one back.
pub close_and_pop-Good : {w b : ℕ} → Triple (Good (suc w) b) close_and_pop_state (λ a. Good w b)
unfolding close_and_pop_state ◌>>=◌ ◌>>◌ reading lift modify
close_and_pop-Good {w} {b} = triple λ m g. elim (Bool-cases (leb 1 m.depth)) [
  | inl e ↦ rw e (
      bind-Ensures (λ a k. restore_parent k.stack k)
        (backfill_object-IsLeaving (get_elem? m.tape m.last_start) (leave m (m.depth - 1)) (record {
          bound = omega (arith, g.bound, leb→le 1 m.depth e);
          chain = g.chain;
          depth = omega (arith, g.depth, leb→le 1 m.depth e);
        }))
        λ a k h. restore_parent-Good k.stack k refl h)
  | inr e ↦ rw e panicked
]
