-- ===== src/Stage2/Total.antt =====
-- src/stage2.rs: whole runs of `build_tape`.
use simd_toon_improved.Base.{
  ℕ, zero, suc, ◌+◌, ◌*◌, ◌≡◌, ◌≢◌, refl, sym, ap, ◌∙◌, subst, Bool, not, List, [], ◌∷◌, ◌++◌,
  arith, length, append-nil, Bytes, if◌then◌else◌, ◌==◌,
}
use simd_toon_improved.Error.{Error, syntax, Result, ok, err, fault, out_of_fuel}
use simd_toon_improved.Tape.{Node, StaticNode, count}
use simd_toon_improved.Stage2.Machine.{
  Env, Machine, M, and_then, ◌>>=◌, ◌>>◌, pure, reading, lift, update_char, insert_res, insert_str,
  slice,
}
use simd_toon_improved.Stage2.Triple.{
  Ensures, holds, if_Ensures, bind-Ensures, mono-Ensures, Triple, triple, run_triple, bind_rule,
  then_rule, if_rule, pure_rule, fail_rule, lift_rule, panic_rule,
}
use simd_toon_improved.Stage2.Scan.{insert_number, insert_word, insert_inferred_value, is_empty}
use simd_toon_improved.Stage2.Header.{
  HeaderType, primitive_value, object_start, empty_object, simple_array, empty_array,
  keyed_tabular_objects, tabular_array, nested_field_groups_array,
}
use simd_toon_improved.Stage2.States.{State, Next, goto, success}
use simd_toon_improved.Stage2.States.Step.{step}
use simd_toon_improved.Stage2.Build.{
  initial, skip_newlines, skip_prelude, root_kind, insert_root, first_state, start_container,
  start_root, start, run, build_tape,
}
use simd_toon_improved.Stage2.Quiet.{
  Kind, reads, writes, Same, Same-refl, Same-trans, IsTotal, Quiet, quiet, run-Quiet, Quiet-reading,
  Quiet-then, Quiet-if, Quiet-pure, Quiet-fail, Quiet-keeps,
}
use simd_toon_improved.Stage2.Quiet.Scan.{
  update_char-Quiet, insert_str-Quiet, bump_cnt-Quiet, insert_res-Quiet, byte_at-ends, slice-ends,
}
use simd_toon_improved.Stage2.Quiet.Header.{read_header-Quiet}
use simd_toon_improved.Stage2.Frames.{Good, Same-Good, Good-Quiet, Good-shift, update_char-Good}
use simd_toon_improved.Stage2.Frames.Close.{SpansFrom, rank, After, rank}
use simd_toon_improved.Stage2.Frames.States.Step.{step-After}
use simd_toon_improved.Stage2.Frames.States.{goto_rule, array_state-After}

skip_newlines-Same :
    {kind : Kind}
    → (env : Env) (ks : List ℕ) (m : Machine)
    → Ensures (λ a m'. Same kind m m') (skip_newlines env ks m)
unfolding skip_newlines ◌>>◌
skip_newlines-Same env [] m =
    if_Ensures (m.c == b'\n') (run-Quiet (update_char-Quiet env) m) (holds (Same-refl m))
skip_newlines-Same env (k ∷ ks) m =
    if_Ensures (m.c == b'\n')
      (bind-Ensures _ (run-Quiet (update_char-Quiet env) m)
        λ u m' s. mono-Ensures (skip_newlines-Same env ks m') λ a m''. Same-trans s)
      (holds (Same-refl m))

skip_prelude-Quiet : {kind : Kind} → (env : Env) → Quiet kind (skip_prelude env)
unfolding skip_prelude reading
skip_prelude-Quiet env =
    Quiet-then (update_char-Quiet env)
      (Quiet-then (unfold reading in hash) (quiet λ m. skip_newlines-Same env m.rest m))
  where
    hash :
        {kind : Kind} → Quiet kind (reading λ m. if m.c == b'#' then update_char env else pure tt)
    hash = Quiet-reading _ λ m. Quiet-if (m.c == b'#') (update_char-Quiet env) (Quiet-pure _)

-- Exactly one node is added, and it is no container.
abbrev pub AddsScalar : List Node → Machine → Type 0
AddsScalar tape m' = (x : Node) × (m'.tape ≡ tape ++ x ∷ []) × (count x ≡ 1)

abbrev pub TapeIs : List Node → Machine → Type 0
TapeIs tape m = m.tape ≡ tape

module _ (env : Env) (t : IsTotal env) (tape : List Node) where
  scalar : (x : Node) → count x ≡ 1 → Triple (TapeIs tape) (insert_res x) (λ a. AddsScalar tape)
  unfolding insert_res
  scalar x one = triple λ m e. holds (x, ap (λ k. k ++ x ∷ []) e, one)

  insert_static-AddsScalar :
      (v : StaticNode) → Triple (TapeIs tape) (insert_res (Node.static v)) (λ a. AddsScalar tape)
  insert_static-AddsScalar v = scalar (Node.static v) refl

  insert_str-AddsScalar :
      (from to : ℕ) → Triple (TapeIs tape) (insert_str env from to) (λ a. AddsScalar tape)
  unfolding insert_str
  insert_str-AddsScalar from to =
      bind_rule (lift_rule {Q = λ s. TapeIs tape} _ (t.parse_str_ends from to) λ a m e. e)
        λ s. scalar (Node.string s) refl

  insert_number-AddsScalar :
      (from to : ℕ) (r : Result StaticNode)
      → r ≢ out_of_fuel
      → Triple (TapeIs tape) (insert_number env from to r) (λ a. AddsScalar tape)
  insert_number-AddsScalar from to (ok n) h = insert_static-AddsScalar n
  insert_number-AddsScalar from to (err e) h = insert_str-AddsScalar from to
  insert_number-AddsScalar from to fault h = panic_rule
  insert_number-AddsScalar from to out_of_fuel h = absurd (h refl)

  insert_word-AddsScalar :
      (from to : ℕ) (word : Bytes)
      → Triple (TapeIs tape) (insert_word env from to word) (λ a. AddsScalar tape)
  unfolding insert_word
  insert_word-AddsScalar from to word =
      search (if_rule, insert_static-AddsScalar, insert_str-AddsScalar from to)

  pub insert_inferred_value-AddsScalar :
      (from to : ℕ)
      → Triple (TapeIs tape) (insert_inferred_value env from to) (λ a. AddsScalar tape)
  unfolding insert_inferred_value
  insert_inferred_value-AddsScalar from to =
      bind_rule (lift_rule {Q = λ s. TapeIs tape} _ (byte_at-ends env from) λ a m e. e)
        λ first. search (if_rule, number first, text)
    where
      number :
          (first : ℕ)
          → Triple
              (TapeIs tape)
              (insert_number env from to (env.try_parse_number from to (first == b'-')))
              (λ a. AddsScalar tape)
      number first = insert_number-AddsScalar from to _ (t.try_parse_number_ends from to _)

      text :
          Triple
            (TapeIs tape)
            (lift (slice env from to) >>= insert_word env from to)
            (λ a. AddsScalar tape)
      text =
          bind_rule (lift_rule {Q = λ s. TapeIs tape} _ (slice-ends env from to) λ a m e. e)
            (insert_word-AddsScalar from to)

-- With parsers that end, `insert_inferred_value` does not run out of fuel, and where it returns it
-- has added one node at the end of the tape, which is no container.
pub insert_inferred_value-adds :
    (env : Env)
    → IsTotal env
    → (from to : ℕ) (m : Machine)
    → Ensures (λ a. AddsScalar m.tape) (insert_inferred_value env from to m)
insert_inferred_value-adds env t from to m =
    run_triple (insert_inferred_value-AddsScalar env t m.tape from to) m refl

-- Before the root, the tape is empty.
abbrev Fresh : ℕ → Machine → Type 0
Fresh w m = Good w 3 m × (m.tape ≡ [])

Fresh-Quiet : {A : Type 0} {w : ℕ} {p : M A} → Quiet reads p → Triple (Fresh w) p (λ a. Fresh w)
Fresh-Quiet h = Quiet-keeps (λ m m' s f. (Same-Good m m' (widen s) f.0, s.tape ∙ f.1)) h
  where
    widen : {m m' : Machine} → Same reads m m' → Same writes m m'
    widen {m} s = record {
      fewer = s.fewer;
      depth = s.depth;
      stack = s.stack;
      last_start = s.last_start;
      content_ws_stack = s.content_ws_stack;
      pending_counts = s.pending_counts;
      tape = ([], s.tape ∙ sym (append-nil m.tape));
      entries = tt;
    }

AddsScalar-SpansFrom : (m : Machine) → AddsScalar [] m → SpansFrom 0 m.tape
AddsScalar-SpansFrom m (x, e, one) = subst (SpansFrom 0) (sym e) (x, refl, omega (arith, one))

insert_root-Good :
    {w : ℕ} (kind : Bool × Bool) → Triple (Fresh w) (insert_root kind) (λ a. Good w 3)
unfolding insert_root
insert_root-Good kind = triple λ m f. run_triple (Good-Quiet (adds kind)) m f.0
  where
    adds : (kind : Bool × Bool) → Quiet writes (insert_root kind)
    adds (is_object, is_array) =
        Quiet-then (Quiet-if is_object (insert_res-Quiet _) (Quiet-pure _))
          (Quiet-if is_array (insert_res-Quiet _) (Quiet-pure _))

module _ (env : Env) (t : IsTotal env) {w : ℕ} where
  first_state-After :
      (is_array : Bool) (h : HeaderType) → Triple (Good w 3) (first_state env is_array h) (After w)
  unfolding first_state
  first_state-After is_array (object_start (from, to)) = then_rule (Good-Quiet bump_cnt-Quiet) (
      then_rule (Good-Quiet (insert_str-Quiet env t from to))
        (then_rule (update_char-Good env) (goto_rule _ (omega arith))))
  first_state-After is_array (simple_array count key delimiter) =
      then_rule (update_char-Good env)
        (array_state-After count key delimiter is_array (omega arith))
  first_state-After is_array (empty_array key) = goto_rule _ (omega arith)
  first_state-After is_array (keyed_tabular_objects key hs n d) = goto_rule _ (omega arith)
  first_state-After is_array (tabular_array key hs n d) =
      if_rule env.strict (goto_rule _ (omega arith)) (goto_rule _ (omega arith))
  first_state-After is_array (nested_field_groups_array key fs n d) = goto_rule _ (omega arith)
  first_state-After is_array (primitive_value val) = fail_rule _
  first_state-After is_array empty_object = fail_rule _

  start_container-After : (h : HeaderType) → Triple (Fresh w) (start_container env h) (After w)
  unfolding start_container
  start_container-After h =
      then_rule (insert_root-Good (root_kind h)) (first_state-After (root_kind h).1 h)

  start_root-After : (h : HeaderType) → Triple (Fresh w) (start_root env h) (After w)
  unfolding start_root
  start_root-After (primitive_value (from, to)) =
      then_rule
        (Fresh-Quiet (
          Quiet-reading _ λ m. Quiet-if (not (is_empty m.rest)) (Quiet-fail syntax) (Quiet-pure _)))
        (then_rule
          (triple λ m f. run_triple (insert_inferred_value-AddsScalar env t [] from to) m f.1)
          (pure_rule _ AddsScalar-SpansFrom))
  start_root-After (object_start key) = start_container-After _
  start_root-After empty_object = start_container-After _
  start_root-After (simple_array n key d) = start_container-After _
  start_root-After (empty_array key) = start_container-After _
  start_root-After (keyed_tabular_objects key hs n d) = start_container-After _
  start_root-After (tabular_array key hs n d) = start_container-After _
  start_root-After (nested_field_groups_array key fs n d) = start_container-After _

  start-After : Triple (Fresh w) (start env) (After w)
  unfolding start
  start-After =
      then_rule (Fresh-Quiet (skip_prelude-Quiet env))
        (bind_rule (Fresh-Quiet (read_header-Quiet env)) start_root-After)

-- With parsers that end, a round of the loop that starts with well-formed frames, and with four times
-- the indexes left, the depth and the state's rank within `w`, does not run out of fuel. Where it goes
-- on to a state, the frames are well-formed again and that sum is less than `w`; where it succeeds,
-- the first node counts the whole tape.
pub step-keeps :
    (env : Env)
    → IsTotal env
    → (s : State) {w : ℕ} (m : Machine) → Good w (rank s) m
    → Ensures (After w) (step env s m)
step-keeps env t s m h = run_triple (step-After env t s) m h

-- What a whole run comes to.
pub data Builds : Result (List Node) → Type 0 where
  built : {tape : List Node} → SpansFrom 0 tape → Builds (ok tape)
  raised : {e : Error} → Builds (err e)
  panicked : Builds fault

module _ (env : Env) (t : IsTotal env) where
  step_result :
      (f : ℕ) (r : Result (Next × Machine))
      → Ensures (After f) r
      → ((next : Next) (m : Machine) → After f next m → Builds (run f env next m))
      → Builds (and_then r λ (next, m). run f env next m)
  step_result f r (holds {a} {m} h) k = k a m h
  step_result f r Ensures.raised k = Builds.raised
  step_result f r Ensures.panicked k = Builds.panicked

  run-Builds : (f : ℕ) (next : Next) (m : Machine) → After f next m → Builds (run f env next m)
  unfolding run
  run-Builds zero success m h = built h
  run-Builds (suc f) success m h = built h
  run-Builds zero (goto s) m h = absurd (omega (arith, h.bound))
  run-Builds (suc f) (goto s) m h =
      step_result f (step env s m) (run_triple (step-After env t s) m (Good-shift (omega arith) h))
        (run-Builds f)

  build_tape-Builds : (ks : List ℕ) → Builds (build_tape env ks)
  unfolding build_tape
  build_tape-Builds ks =
      step_result (4 * length ks + 4) _
        (run_triple (start-After env t) (initial ks)
          (record { bound = omega arith; chain = (refl, refl); depth = refl }, refl))
        (run-Builds (4 * length ks + 4))

  -- With parsers of strings and numbers that end, `build_tape` ends on every list of structural
  -- indexes: four rounds for each index, and four more, are enough.
  pub build_tape-ne-out_of_fuel : (ks : List ℕ) → build_tape env ks ≢ out_of_fuel
  build_tape-ne-out_of_fuel ks = ends (build_tape-Builds ks)
    where
      ends : {r : Result (List Node)} → Builds r → r ≢ out_of_fuel
      ends (built h) e = cc
      ends Builds.raised e = cc
      ends Builds.panicked e = cc

  -- With parsers of strings and numbers that end, a tape that `build_tape` returns is not empty, and
  -- its first node counts all of it: the document is one value, and nothing lies behind it.
  pub build_tape-SpansFrom :
      (ks : List ℕ) {tape : List Node} → build_tape env ks ≡ ok tape → SpansFrom 0 tape
  build_tape-SpansFrom ks e = spans (build_tape-Builds ks) e
    where
      spans :
          {r : Result (List Node)} {tape : List Node} → Builds r → r ≡ ok tape → SpansFrom 0 tape
      spans (built h) e = subst (SpansFrom 0) (cc) h
      spans Builds.raised e = cc
      spans Builds.panicked e = cc
