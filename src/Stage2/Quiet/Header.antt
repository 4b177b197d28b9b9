-- ===== src/Stage2/Quiet/Header.antt =====
-- src/stage2.rs: `read_header!` among the pieces that open and close no container.
use simd_toon_improved.Base.{
  ℕ, zero, suc, ◌+◌, ◌<◌, Bool, true, false, Option, none, some, List, [], ◌∷◌, ◌==◌, arith, length,
}
use simd_toon_improved.Stage2.Machine.{Span, Env, Machine, M, ◌>>=◌, ◌>>◌, pure, gets, reading}
use simd_toon_improved.Stage2.Triple.{
  Ensures, holds, if_Ensures, branch-Ensures, fail-Ensures, bind-Ensures, mono-Ensures,
}
use simd_toon_improved.Stage2.Header.{
  FieldEntries, Groups, Closing, finished, continuing, NestedFields, FieldList, flat, grouped,
  close_groups, close_leaf, after_closing, ends_field, read_groups, read_fields, read_field_list,
  with_fields, step_if, read_delimiter, read_bracket, key_of, dispatch_header, ends_key,
  read_header, push, nested,
}
use simd_toon_improved.Stage2.Quiet.{
  Kind, Same, Same-refl, Same-trans, Quiet, quiet, run-Quiet, quiet_rules, Quiet-bind,
  Quiet-reading, Quiet-if, Quiet-then, Quiet-pure, Quiet-fail, Quiet-gets,
}
use simd_toon_improved.Stage2.Quiet.Scan.{
  Steps, Steps-then, Quiet-Steps, run-Steps, update_char-Steps, update_char-Quiet,
  get_value_end-Quiet, parse_string_number-Quiet,
}

close_groups-Same :
    {kind : Kind}
    → (env : Env) (children : FieldEntries) (outer : List FieldEntries) (names : List Span)
      (l n : ℕ) (m : Machine)
    → Ensures (λ a m'. Same kind m m') (close_groups env children outer names l n m)
unfolding close_groups pure ◌>>◌
close_groups-Same env children [] names l n m =
    if_Ensures (m.c == b'}') (bind-Ensures _ (run-Quiet (update_char-Quiet env) m) λ u k s. holds s)
      (holds (Same-refl m))
close_groups-Same env children (level ∷ outer) [] l n m =
    if_Ensures (m.c == b'}') (fail-Ensures _ m) (holds (Same-refl m))
close_groups-Same env children (level ∷ outer) (name ∷ names) l n m =
    if_Ensures (m.c == b'}')
      (bind-Ensures _ (run-Quiet (update_char-Quiet env) m) λ u k s.
        mono-Ensures
          (close_groups-Same env (push level (nested name children)) outer names l (n + 1) k)
          λ a m'. Same-trans s)
      (holds (Same-refl m))

close_leaf-Quiet :
    {kind : Kind} → (env : Env) (g : Groups) (h : Span) → Quiet kind (close_leaf env g h)
unfolding close_leaf
close_leaf-Quiet env g h = quiet λ m. close_groups-Same env _ g.outer g.pending_names _ _ m

after_closing-Same :
    {kind : Kind}
    → (l : ℕ) (resume_with : Groups → M NestedFields) {fuel : ℕ} {m k : Machine} (closing : Closing)
    → ((g : Groups) (k : Machine)
        → length k.rest < fuel
        → Ensures (λ a m'. Same kind k m') (resume_with g k))
    → Same kind m k
    → length k.rest < fuel
    → Ensures (λ a m'. Same kind m m') (after_closing l resume_with closing k)
unfolding pure
after_closing-Same l resume_with (finished entries n) loop s h = holds s
after_closing-Same l resume_with (continuing g) loop s h =
    mono-Ensures (loop g _ h) λ a m'. Same-trans s

read_groups-Same :
    {kind : Kind}
    → (fuel : ℕ) (env : Env) (delimiter : ℕ) (g : Groups) (m : Machine) → length m.rest < fuel
    → Ensures (λ a m'. Same kind m m') (read_groups fuel env delimiter g m)
unfolding read_groups pure ◌>>=◌ ◌>>◌ gets reading
read_groups-Same zero env delimiter g m h = absurd (omega arith)
read_groups-Same (suc fuel) env delimiter g m h =
    bind-Ensures _ (run-Steps (update_char-Steps env) m) λ u m1 s1.
      bind-Ensures _ (run-Quiet (get_value_end-Quiet env (ends_field delimiter)) m1) λ e m2 s2.
        let s = Same-trans s1.0 s2 in
        branch-Ensures (m2.c == b'{') (read_groups fuel env delimiter _) _
          (mono-Ensures (read_groups-Same fuel env delimiter _ m2 (omega (arith, s2.fewer, s1.1)))
            λ a m'. Same-trans s)
          (bind-Ensures _ (run-Quiet (close_leaf-Quiet env g (m1.idx, e)) m2) λ closing m3 s3.
            after_closing-Same _ _ closing (read_groups-Same fuel env delimiter) (Same-trans s s3)
              (omega (arith, s3.fewer, s2.fewer, s1.1)))

read_fields-Same :
    {kind : Kind}
    → (fuel : ℕ) (env : Env) (delimiter : ℕ) (fields : List Span) (m : Machine)
    → length m.rest < fuel
    → Ensures (λ a m'. Same kind m m') (read_fields fuel env delimiter fields m)
unfolding read_fields pure ◌>>=◌ ◌>>◌ gets reading
read_fields-Same zero env delimiter fields m h = absurd (omega arith)
read_fields-Same (suc fuel) env delimiter fields m h =
    bind-Ensures _ (run-Steps (update_char-Steps env) m) λ u m1 s1.
      bind-Ensures _ (run-Quiet (get_value_end-Quiet env (ends_field delimiter)) m1) λ e m2 s2.
        let s = Same-trans s1.0 s2 in
        branch-Ensures (m2.c == b'{') _ _
          (bind-Ensures _ (read_groups-Same fuel env delimiter _ m2 (omega (arith, s2.fewer, s1.1)))
            λ a m' t. holds (Same-trans s t))
          (branch-Ensures (m2.c == b'}') _ (read_fields fuel env delimiter _)
            (bind-Ensures _ (run-Quiet (update_char-Quiet env) m2) λ a m' t. holds (Same-trans s t))
            (mono-Ensures (read_fields-Same fuel env delimiter _ m2 (omega (arith, s2.fewer, s1.1)))
              λ a m'. Same-trans s))

fields-Quiet :
    {kind : Kind} → (env : Env) (delimiter : ℕ) → Quiet kind (read_field_list env delimiter)
unfolding read_field_list reading
fields-Quiet env delimiter =
    quiet λ m. read_fields-Same (length m.rest + 1) env delimiter [] m (omega arith)

with_fields-Quiet :
    {kind : Kind}
    → (keyed : Bool) (key : Option Span) (rows_count delimiter : ℕ) (fields : FieldList)
    → Quiet kind (with_fields keyed key rows_count delimiter fields)
with_fields-Quiet true key rows_count delimiter (grouped fields) = Quiet-fail _
with_fields-Quiet false key rows_count delimiter (grouped fields) = Quiet-pure _
with_fields-Quiet true key rows_count delimiter (flat fields) = Quiet-pure _
with_fields-Quiet false key rows_count delimiter (flat fields) = Quiet-pure _

step_if-Quiet : {kind : Kind} → (env : Env) (b : Bool) → Quiet kind (step_if env b)
unfolding step_if
step_if-Quiet env b = search (quiet_rules, update_char-Quiet)

read_delimiter-Quiet : {kind : Kind} → (env : Env) → Quiet kind (read_delimiter env)
unfolding read_delimiter
read_delimiter-Quiet env = search (quiet_rules, update_char-Quiet)

pub read_bracket-Steps :
    {kind : Kind} → (env : Env) (key : Option Span) → Steps kind (read_bracket env key)
unfolding read_bracket
read_bracket-Steps env key = Steps-then (update_char-Steps env) (
    Quiet-bind (Quiet-gets _) λ from. Quiet-then (update_char-Quiet env) (
      Quiet-bind (Quiet-reading _ λ m. parse_string_number-Quiet env from m.idx) λ rows_count.
        Quiet-bind (Quiet-gets _) λ keyed. Quiet-then (step_if-Quiet env keyed) (
          Quiet-bind (read_delimiter-Quiet env) λ delimiter.
            Quiet-then (Quiet-reading _ λ m. search quiet_rules) (
              Quiet-then (update_char-Quiet env) (
                Quiet-reading _ λ m. Quiet-if _ (Quiet-pure _) (
                  Quiet-bind (fields-Quiet env delimiter)
                    (with_fields-Quiet keyed key rows_count delimiter)))))))

read_bracket-Quiet :
    {kind : Kind} → (env : Env) (key : Option Span) → Quiet kind (read_bracket env key)
read_bracket-Quiet env key = Quiet-Steps (read_bracket-Steps env key)

dispatch_header-Quiet :
    {kind : Kind} → (env : Env) (key : Option Span) → Quiet kind (dispatch_header env key)
unfolding dispatch_header
dispatch_header-Quiet env none = search (quiet_rules, read_bracket-Quiet)
dispatch_header-Quiet env (some v) = search (quiet_rules, read_bracket-Quiet)

pub read_header-Quiet : {kind : Kind} → (env : Env) → Quiet kind (read_header env)
unfolding read_header
read_header-Quiet env = Quiet-bind (Quiet-gets _) λ from.
    Quiet-bind (get_value_end-Quiet env ends_key) λ to. dispatch_header-Quiet env (key_of from to)
