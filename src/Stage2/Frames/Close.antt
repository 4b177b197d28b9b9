-- ===== src/Stage2/Frames/Close.antt =====
-- src/stage2.rs: the frames across `ScopeEnd`, and the nodes that a container's node counts.
use simd_toon_improved.Base.{
  ℕ, zero, suc, ◌+◌, ◌-◌, ◌≤◌, ◌≡◌, refl, sym, ap, ◌∙◌, subst, false, not, ◌&&◌, Option, none, some,
  List, [], ◌∷◌, arith, length, get_elem?, get_elem?-lt, set, length-set, if◌then◌else◌, ◌==◌,
  Bool-cases, inl, inr,
}
use simd_toon_improved.Error.{syntax}
use simd_toon_improved.Tape.{Node, count}
use simd_toon_improved.Stage2.Machine.{
  StackState, Env, Machine, ◌>>=◌, ◌>>◌, pure, modify, reading, fail, update_char, leave, advance,
}
use simd_toon_improved.Stage2.Triple.{
  Ensures, holds, fail-Ensures, bind-Ensures, mono-Ensures, Triple, triple, run_triple,
  ends-Ensures, bind_rule, then_rule, reading_rule, if_rule, pure_rule, fail_rule, panic_rule,
  if_Ensures,
}
use simd_toon_improved.Stage2.Scan.{EolState, sibling, close_scope, nested}
use simd_toon_improved.Stage2.States.{
  State, Next, goto, success, parse_simple_object_value, parse_inline_array, next_field, next_item,
}
use simd_toon_improved.Stage2.States.Close.{
  check_pending, backfill, eol_after_close, skip_trailing, resume, on_scope_end,
}
use simd_toon_improved.Stage2.Quiet.Scan.{eol_state_from_ws-Quiet, byte_at-ends}
use simd_toon_improved.Stage2.Frames.{
  Chain, Good, Good-Quiet, Good-shift, get_eol_state-Good, IsLeaving,
}

-- The node at slot `l` counts all from there to the end of the tape.
abbrev pub SpansFrom : ℕ → List Node → Type 0
SpansFrom l tape = (x : Node) × (get_elem? tape l ≡ some x) × (count x + l ≡ length tape)

-- What a state has to spare when it starts.
abbrev pub rank : State → ℕ
rank parse_simple_object_value = 1
rank (parse_inline_array n key delimiter is_root) = 2
rank _ = 0

abbrev pub After : ℕ → Next → Machine → Type 0
After w (goto state) m = Good w (suc (rank state)) m
After w success m = SpansFrom 0 m.tape

get_elem?-set_self :
    (xs : List Node) (i : ℕ) (v : Node) {x : Node}
    → get_elem? xs i ≡ some x
    → get_elem? (set xs i v) i ≡ some v
get_elem?-set_self [] i v h = cc
get_elem?-set_self (y ∷ ys) zero v h = refl
get_elem?-set_self (y ∷ ys) (suc i) v h = get_elem?-set_self ys i v h

record IsFilled (w b : ℕ) (m : Machine) : Type 0 where
  leaving : IsLeaving w b m
  spans : SpansFrom m.last_start m.tape

backfill-IsFilled :
    {w b : ℕ} (o : Option Node) (m : Machine)
    → get_elem? m.tape m.last_start ≡ o
    → IsLeaving w b m
    → Ensures (λ a. IsFilled w b) (backfill o m)
unfolding backfill
backfill-IsFilled (some (Node.object l n)) m e g = holds (record {
  leaving = record { bound = g.bound; chain = g.chain; depth = g.depth };
  spans = (
    _,
    get_elem?-set_self m.tape m.last_start _ e,
    omega (
      arith,
      get_elem?-lt m.tape m.last_start e,
      length-set m.tape m.last_start (Node.object m.cnt (length m.tape - m.last_start - 1)),
    ),
  );
})
backfill-IsFilled (some (Node.array l n)) m e g = holds (record {
  leaving = record { bound = g.bound; chain = g.chain; depth = g.depth };
  spans = (
    _,
    get_elem?-set_self m.tape m.last_start _ e,
    omega (
      arith,
      get_elem?-lt m.tape m.last_start e,
      length-set m.tape m.last_start (Node.array m.cnt (length m.tape - m.last_start - 1)),
    ),
  );
})
backfill-IsFilled (some (Node.string s)) m e g = fail-Ensures _ m
backfill-IsFilled (some (Node.static v)) m e g = fail-Ensures _ m
backfill-IsFilled none m e g = run_triple {P = λ k. Unit {0}} panic_rule m tt

eol_after_close-Good :
    {w b : ℕ} (env : Env) → Triple (Good w b) (eol_after_close env) (λ eol. Good w b)
unfolding eol_after_close
eol_after_close-Good env = reading_rule _ λ m.
    if_rule _
      (triple λ k g.
        mono-Ensures (run_triple (get_eol_state-Good env false) k g)
          λ eol m'. Good-shift (omega arith))
      (Good-Quiet (eol_state_from_ws-Quiet env m.last_dedent_ws))

next_field-After : {w : ℕ} (eol : EolState) → Triple (Good w 1) (next_field eol) (After w)
next_field-After sibling = pure_rule _ λ m g. g
next_field-After close_scope = pure_rule _ λ m g. g
next_field-After nested = fail_rule _

next_item-After : {w : ℕ} (eol : EolState) → Triple (Good w 1) (next_item eol) (After w)
next_item-After sibling = pure_rule _ λ m g. g
next_item-After close_scope = pure_rule _ λ m g. g
next_item-After nested = fail_rule _

skip_trailing-tape :
    (env : Env) (ks : List ℕ) (m : Machine)
    → Ensures (λ a m'. m'.tape ≡ m.tape) (skip_trailing env ks m)
unfolding skip_trailing update_char ◌>>◌
skip_trailing-tape env [] m = holds refl
skip_trailing-tape env (k ∷ ks) m =
    if_Ensures (m.c == b'\n')
      (bind-Ensures _ (one m.rest)
        λ a m' e. mono-Ensures (skip_trailing-tape env ks m') λ b m'' f. f ∙ e)
      (holds refl)
  where
    one : (js : List ℕ) → Ensures (λ a m'. m'.tape ≡ m.tape) (advance env js m)
    one [] = fail-Ensures _ m
    one (j ∷ js) = ends-Ensures _ _ (byte_at-ends env j) λ b. holds refl

finish_root :
    {w : ℕ} (env : Env) (m : Machine)
    → SpansFrom 0 m.tape
    → Ensures (After w) (resume env (StackState.start ∷ []) m)
unfolding resume
finish_root {w} env =
    run_triple (then_rule skip (reading_rule _ λ k. if_rule _ (pure_rule _ λ m h. h) (fail_rule _)))
  where
    skip :
        Triple
          (λ k. SpansFrom 0 k.tape)
          (reading λ m. skip_trailing env m.rest)
          (λ a k. SpansFrom 0 k.tape)
    skip = triple λ m h.
        unfold reading in
        mono-Ensures (skip_trailing-tape env m.rest m) λ a m' e. subst (SpansFrom 0) (sym e) h

resume-After :
    {w : ℕ} (env : Env) (s : List StackState) (m : Machine)
    → m.stack ≡ s
    → IsFilled w 1 m
    → Ensures (After w) (resume env s m)
unfolding resume ◌>>=◌ ◌>>◌ modify
resume-After env (StackState.object l n ∷ s) m e g =
    run_triple (bind_rule (eol_after_close-Good env) next_field-After) _ (record {
      bound = g.leaving.bound;
      chain = subst (λ k. Chain k m.last_start) e g.leaving.chain;
      depth = omega (arith, ap length e, g.leaving.depth);
    })
resume-After env (StackState.array l n ∷ s) m e g =
    run_triple
      (reading_rule _ λ k.
        if_rule _ (pure_rule _ λ m g. g) (bind_rule (eol_after_close-Good env) next_item-After))
      _
      (record {
        bound = g.leaving.bound;
        chain = subst (λ k. Chain k m.last_start) e g.leaving.chain;
        depth = omega (arith, ap length e, g.leaving.depth);
      })
resume-After env (StackState.start ∷ []) m e g =
    let root : m.last_start ≡ 0 = (subst (λ k. Chain k m.last_start) e g.leaving.chain).0 in
    finish_root env m (subst (λ l. SpansFrom l m.tape) root g.spans)
resume-After env (StackState.start ∷ f ∷ s) m e g =
    cc ((subst (λ k. Chain k m.last_start) e g.leaving.chain).1)
resume-After env [] m e g = run_triple {P = λ k. Unit {0}} panic_rule m tt

-- A container is open.
abbrev IsOpen : ℕ → Machine → Type 0
IsOpen w m = Good w 0 m × (1 ≤ m.depth)

set_pending-IsOpen :
    {w : ℕ} (ps : List (ℕ × ℕ))
    → Triple (IsOpen w) (modify λ k. record k { pending_counts = ps }) (λ a. IsOpen w)
unfolding modify
set_pending-IsOpen ps =
    triple λ m g. holds (record { bound = g.0.bound; chain = g.0.chain; depth = g.0.depth }, g.1)

check_pending-IsOpen :
    {w : ℕ} (env : Env) (ps : List (ℕ × ℕ))
    → Triple (IsOpen w) (check_pending env ps) (λ a. IsOpen w)
unfolding check_pending
check_pending-IsOpen env [] = pure_rule _ λ m g. g
check_pending-IsOpen env ((d, expected) ∷ ps) = reading_rule _ λ m.
    if_rule (d == m.depth)
      (then_rule (set_pending-IsOpen ps)
        (if_rule (env.strict && not (m.cnt == expected)) (fail_rule _) (pure_rule _ λ k g. g)))
      (pure_rule _ λ k g. g)

pub on_scope_end-After : {w : ℕ} (env : Env) → Triple (Good w 0) (on_scope_end env) (After w)
unfolding on_scope_end
on_scope_end-After {w} env = then_rule {S = IsOpen w} open_depth (
    then_rule (reading_rule _ λ m. check_pending-IsOpen env m.pending_counts)
      (then_rule {S = IsLeaving w 1} fall (then_rule {S = IsFilled w 1} fill up)))
  where
    open_depth :
        Triple
          (Good w 0)
          (reading λ m. if m.depth == 0 then fail syntax else pure tt)
          (λ a. IsOpen w)
    open_depth = triple λ m g.
        unfold reading in
        elim (Bool-cases (m.depth == 0)) [
          | inl e ↦ rw e (fail-Ensures _ m)
          | inr e ↦ rw e (run_triple {P = IsOpen w} (pure_rule _ λ k h. h) m (g, ground arith))
        ]

    fall : Triple (IsOpen w) (modify λ m. leave m (m.depth - 1)) (λ a. IsLeaving w 1)
    fall = triple λ m g.
        unfold modify in
        holds {m = leave m (m.depth - 1)} (record {
          bound = omega (arith, g.0.bound, g.1);
          chain = g.0.chain;
          depth = omega (arith, g.0.depth, g.1);
        })

    fill :
        Triple
          (IsLeaving w 1)
          (reading λ m. backfill (get_elem? m.tape m.last_start))
          (λ a. IsFilled w 1)
    fill =
        triple λ m g. unfold reading in backfill-IsFilled (get_elem? m.tape m.last_start) m refl g

    up : Triple (IsFilled w 1) (reading λ m. resume env m.stack) (After w)
    up = triple λ m g. unfold reading in resume-After env m.stack m refl g
