-- ===== src/Stage2/Frames/Rows.antt =====
-- src/stage2.rs: the frames across the rows of the tabular states.
use simd_toon_improved.Base.{
  ℕ, zero, suc, ◌+◌, ◌≤◌, ◌<◌, ◌≡◌, true, false, List, [], ◌∷◌, arith, length, refl, leb, ◌*◌,
  if◌then◌else◌,
}
use simd_toon_improved.Stage2.Machine.{Span, Env, Machine, M, ◌>>=◌, ◌>>◌, pure, reading, grow_res}
use simd_toon_improved.Stage2.Triple.{
  Ensures, holds, fail-Ensures, bind-Ensures, Triple, triple, run_triple, bind_rule, then_rule,
  pure_rule,
}
use simd_toon_improved.Stage2.Scan.{EolState, sibling, close_scope, nested}
use simd_toon_improved.Stage2.Header.{FieldEntry, FieldEntries, nil, cons, leaf, NestedFields}
use simd_toon_improved.Stage2.Rows.{
  keyed_row, array_row, WorkItem, process, push_children, enter_group, work_loop, work_size,
  work_sizes, entry_loop, nested_row, row_loop, counted_rows, lenient_rows, after_row,
}
use simd_toon_improved.Stage2.Quiet.{IsTotal, Quiet-gets, Quiet-reading, quiet_rules}
use simd_toon_improved.Stage2.Quiet.Scan.{
  get_value_end-Quiet, bump_cnt-Quiet, insert_str-Quiet, update_char-Quiet, spend_slack-Quiet,
  grow_res-Quiet,
}
use simd_toon_improved.Stage2.Quiet.Cells.{
  row_cells-Quiet, insert_leaf-Quiet, insert_field_name-Quiet, expect_sibling-Quiet,
}
use simd_toon_improved.Stage2.Frames.{
  Good, Good-Quiet, Good-shift, gain, get_eol_state-Good, open_scope-Good_wider, close_and_pop-Good,
  frame_object-IsFrame, frame_array-IsFrame,
}

-- The groups that are open in a row's stack of work, and the rounds that the stack takes.
abbrev pending : List WorkItem → ℕ
pending [] = 0
pending (process e ∷ work) = pending work
pending (WorkItem.close_scope ∷ work) = suc (pending work)

abbrev rounds : List WorkItem → ℕ
rounds [] = 0
rounds (process e ∷ work) = work_size e + rounds work
rounds (WorkItem.close_scope ∷ work) = suc (rounds work)

pending-push_children :
    (children : FieldEntries) (work : List WorkItem)
    → pending (push_children children work) ≡ pending work
unfolding push_children
pending-push_children nil work = refl
pending-push_children (cons x xs) work = pending-push_children xs work

rounds-push_children :
    (children : FieldEntries) (work : List WorkItem)
    → rounds (push_children children work) ≡ work_sizes children + rounds work
unfolding push_children work_sizes
rounds-push_children nil work = omega arith
rounds-push_children (cons x xs) work = omega (arith, rounds-push_children xs work)

module _ (env : Env) (t : IsTotal env) {w b : ℕ} where
  pub keyed_row-Good :
      (delimiter : ℕ) (headers : List Span)
      → Triple (Good w b) (keyed_row env delimiter headers) (λ a. Good w b)
  unfolding keyed_row
  keyed_row-Good delimiter headers = bind_rule (Good-Quiet (Quiet-gets _)) λ from.
      bind_rule (Good-Quiet (get_value_end-Quiet env _)) λ to.
        then_rule (Good-Quiet (Quiet-reading _ λ m. search quiet_rules)) (
          then_rule (Good-Quiet bump_cnt-Quiet) (
            then_rule (Good-Quiet (insert_str-Quiet env t from to)) (
              then_rule (open_scope-Good_wider _ _ _ frame_object-IsFrame) (
                then_rule (Good-Quiet (update_char-Quiet env)) (
                  then_rule (Good-Quiet (row_cells-Quiet env t true delimiter headers))
                    close_and_pop-Good)))))

  pub array_row-Good :
      (delimiter : ℕ) (headers : List Span)
      → Triple (Good w b) (array_row env delimiter headers) (λ a. Good w b)
  unfolding array_row
  array_row-Good delimiter headers = then_rule (Good-Quiet bump_cnt-Quiet) (
      then_rule (open_scope-Good_wider _ _ _ frame_array-IsFrame)
        (then_rule (Good-Quiet (row_cells-Quiet env t false delimiter headers)) close_and_pop-Good))

module _ (env : Env) (t : IsTotal env) (w b : ℕ) where
  work_loop-Good :
      (fuel delimiter leaf_count curr : ℕ) (work : List WorkItem) (m : Machine)
      → rounds work ≤ fuel
      → Good (w + pending work) b m
      → Ensures (λ a. Good w b) (work_loop fuel env delimiter leaf_count curr work m)
  unfolding work_loop enter_group ◌>>◌ work_size
  work_loop-Good fuel delimiter leaf_count curr [] m h g = holds (Good-shift (omega arith) g)
  work_loop-Good zero delimiter leaf_count curr (process (leaf x) ∷ work) m h g =
      absurd (omega arith)
  work_loop-Good zero delimiter leaf_count curr (process (FieldEntry.nested n x) ∷ work) m h g =
      absurd (omega arith)
  work_loop-Good zero delimiter leaf_count curr (WorkItem.close_scope ∷ work) m h g =
      absurd (omega arith)
  work_loop-Good (suc fuel) delimiter leaf_count curr (process (leaf x) ∷ work) m h g =
      bind-Ensures _
        (run_triple (Good-Quiet (insert_leaf-Quiet env t delimiter leaf_count curr x)) m g)
        λ a k g'. work_loop-Good fuel delimiter leaf_count (curr + 1) work k (omega arith) g'
  work_loop-Good (suc fuel) delimiter leaf_count curr (process (FieldEntry.nested n x) ∷ work) m h
        g =
      bind-Ensures _
        (run_triple
          (then_rule (Good-Quiet (insert_field_name-Quiet env t n))
            (open_scope-Good_wider _ _ _ frame_object-IsFrame))
          m g)
        λ a k g'.
          work_loop-Good fuel delimiter leaf_count curr
            (push_children x (WorkItem.close_scope ∷ work)) k
            (omega (arith, rounds-push_children x (WorkItem.close_scope ∷ work)))
            (Good-shift (omega (arith, pending-push_children x (WorkItem.close_scope ∷ work))) g')
  work_loop-Good (suc fuel) delimiter leaf_count curr (WorkItem.close_scope ∷ work) m h g =
      bind-Ensures _ (run_triple close_and_pop-Good m (Good-shift (omega arith) g))
        λ a k g'. work_loop-Good fuel delimiter leaf_count curr work k (omega arith) g'

  entry_loop-Good :
      (delimiter leaf_count curr : ℕ) (es : FieldEntries) (m : Machine)
      → Good w b m
      → Ensures (λ a. Good w b) (entry_loop env delimiter leaf_count curr es m)
  unfolding entry_loop ◌>>=◌
  entry_loop-Good delimiter leaf_count curr nil m g = holds g
  entry_loop-Good delimiter leaf_count curr (cons e es) m g =
      bind-Ensures _
        (work_loop-Good (work_size e) delimiter leaf_count curr (process e ∷ []) m (omega arith)
          (Good-shift (omega arith) g))
        λ curr' k g'. entry_loop-Good delimiter leaf_count curr' es k g'

module _ (env : Env) (t : IsTotal env) {w b : ℕ} where
  pub nested_row-Good :
      (delimiter : ℕ) (fields : NestedFields)
      → Triple (Good w b) (nested_row env delimiter fields) (λ a. Good w b)
  unfolding nested_row
  nested_row-Good delimiter fields = then_rule (Good-Quiet bump_cnt-Quiet) (
      then_rule (open_scope-Good_wider _ _ _ frame_array-IsFrame) (
        then_rule
          (triple λ m g.
            entry_loop-Good env t (suc w) b delimiter fields.leaf_count 0 fields.field_entries m g)
          close_and_pop-Good))

  row_loop-Good :
      (row : M (Unit {0})) (n : ℕ) (m : Machine)
      → Triple (Good w b) row (λ a. Good w b)
      → Good w b m
      → Ensures (λ a. Good w b) (row_loop env row n m)
  unfolding row_loop ◌>>=◌ ◌>>◌
  row_loop-Good row zero m h g = run_triple h m g
  row_loop-Good row (suc n) m h g = bind-Ensures _ (run_triple h m g) λ u m1 g1.
      bind-Ensures _ (run_triple (get_eol_state-Good env true) m1 g1) λ eol m2 g2.
        bind-Ensures _ (run_triple (Good-Quiet (expect_sibling-Quiet eol)) m2 g2)
          λ v m3 g3. row_loop-Good row n m3 h (Good-shift (omega arith) g3)

  pub row_loop-Triple :
      (row : M (Unit {0})) (n : ℕ)
      → Triple (Good w b) row (λ a. Good w b)
      → Triple (Good w b) (row_loop env row n) (λ a. Good w b)
  row_loop-Triple row n h = triple λ m. row_loop-Good row n m h

  pub counted_rows-Good :
      (row : M (Unit {0})) (n : ℕ)
      → Triple (Good w b) row (λ a. Good w b)
      → Triple (Good w b) (counted_rows env row n) (λ a. Good w b)
  unfolding counted_rows
  counted_rows-Good row zero h = pure_rule _ λ m g. g
  counted_rows-Good row (suc n) h = row_loop-Triple row n h

  slack-Good :
      Triple
        (Good w b)
        (reading λ m. if leb m.tape_slack 1 then grow_res env 1 else pure tt)
        (λ a. Good w b)
  slack-Good = Good-Quiet (Quiet-reading _ λ m. search (quiet_rules, grow_res-Quiet))

after_row-Good :
    {w v b : ℕ} (loop : M (Unit {0})) (eol : EolState) (m : Machine)
    → Good v (b + gain eol) m
    → v ≤ w
    → (Good v (b + 4) m → Ensures (λ a. Good w b) (loop m))
    → Ensures (λ a. Good w b) (after_row loop eol m)
unfolding pure
after_row-Good loop sibling m g h k = k g
after_row-Good loop nested m g h k = fail-Ensures _ m
after_row-Good loop close_scope m g h k = holds (Good-shift (omega arith) g)

-- A sibling lies behind a newline that was read, so each round has less to do.
pub lenient_rows-Good :
    (env : Env) (t : IsTotal env) {w b : ℕ} (fuel delimiter : ℕ) (headers : List Span) (m : Machine)
    → 4 * length m.rest + m.depth < fuel
    → Good w b m
    → Ensures (λ a. Good w b) (lenient_rows fuel env delimiter headers m)
unfolding lenient_rows ◌>>=◌ ◌>>◌
lenient_rows-Good env t zero delimiter headers m h g = absurd (omega arith)
lenient_rows-Good env t {w} {b} (suc fuel) delimiter headers m h g =
    let v = 4 * length m.rest + m.depth + b in
    let g0 : Good v b m = record { bound = omega arith; chain = g.chain; depth = g.depth } in
    bind-Ensures _ (run_triple (slack-Good env t) m g0) λ u m1 g1.
      bind-Ensures _ (run_triple (Good-Quiet (spend_slack-Quiet 1)) m1 g1) λ u m2 g2.
        bind-Ensures _ (run_triple (array_row-Good env t delimiter headers) m2 g2) λ u m3 g3.
          bind-Ensures _ (run_triple (get_eol_state-Good env true) m3 g3) λ eol m4 g4.
            after_row-Good (lenient_rows fuel env delimiter headers) eol m4 g4
              (omega (arith, g.bound))
              λ g5.
                lenient_rows-Good env t fuel delimiter headers m4 (omega (arith, g5.bound))
                  (Good-shift (omega (arith, g.bound)) g5)
