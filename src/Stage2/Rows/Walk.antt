-- ===== src/Stage2/Rows/Walk.antt =====
-- src/stage2.rs: the stack of work of a row with groups, and the tree of its fields.
use mathlib.Core.Path.{fun_ext}
use simd_toon_improved.Base.{ℕ, suc, ◌+◌, ◌≡◌, refl, sym, ap, ◌∙◌, subst, arith, List, [], ◌∷◌}
use simd_toon_improved.Error.{Result, ok}
use simd_toon_improved.Stage2.Triple.{and_then_assoc}
use simd_toon_improved.Stage2.Machine.{
  Env, Span, Machine, and_then, ◌>>=◌, ◌>>◌, close_and_pop_state,
}
use simd_toon_improved.Stage2.Header.{FieldEntry, FieldEntries, nil, cons, leaf}
use simd_toon_improved.Stage2.Rows.{
  WorkItem, process, close_scope, push_children, insert_leaf, enter_group, work_loop, work_size,
  work_sizes, entry_loop,
}

-- The same by recursion over the fields, with no stack and no fuel.
module _ (env : Env) (delimiter leaf_count : ℕ) where
  unfoldable mutual
    pub walk : FieldEntry → ℕ → Machine → Result (ℕ × Machine)
    walk (leaf h) curr m =
        and_then (insert_leaf env delimiter leaf_count curr h m) λ (u, m'). ok (curr + 1, m')
    walk (FieldEntry.nested name children) curr m = and_then (enter_group env name m) λ (u, m').
        and_then (walk_all children curr m')
          λ (curr', m''). and_then (close_and_pop_state m'') λ (v, m'''). ok (curr', m''')

    pub walk_all : FieldEntries → ℕ → Machine → Result (ℕ × Machine)
    walk_all nil curr m = ok (curr, m)
    walk_all (cons e es) curr m = and_then (walk e curr m) λ (curr', m'). walk_all es curr' m'

and_then-same :
    {A B : Type 0} (r : Result A) {f g : A → Result B}
    → ((a : A) → f a ≡ g a)
    → and_then r f ≡ and_then r g
and_then-same r h = ap (and_then r) (fun_ext h)

module _ (env : Env) (delimiter leaf_count : ℕ) where
  leaf_round :
      (s : Span) (f curr : ℕ) (work : List WorkItem) (m : Machine)
      → work_loop (suc f) env delimiter leaf_count curr (process (leaf s) ∷ work) m
        ≡ and_then
            (walk env delimiter leaf_count (leaf s) curr m)
            (λ (curr', m'). work_loop f env delimiter leaf_count curr' work m')
  unfolding work_loop walk ◌>>◌
  leaf_round s f curr work m =
      sym (and_then_assoc (insert_leaf env delimiter leaf_count curr s m) _ _)

  close_round :
      (c f : ℕ) (work : List WorkItem) (m : Machine)
      → work_loop (suc f) env delimiter leaf_count c (close_scope ∷ work) m
        ≡ and_then
            (and_then (close_and_pop_state m) λ (v, m'). ok (c, m'))
            (λ (curr', m'). work_loop f env delimiter leaf_count curr' work m')
  unfolding work_loop ◌>>◌
  close_round c f work m = sym (and_then_assoc (close_and_pop_state m) _ _)

  group_round :
      (name : Span) (children : FieldEntries) (f curr : ℕ) (work : List WorkItem) (m : Machine)
      → ((curr' : ℕ) (m' : Machine)
          → work_loop
              (work_sizes children + suc f)
              env
              delimiter
              leaf_count
              curr'
              (push_children children (close_scope ∷ work))
              m'
            ≡ and_then
                (walk_all env delimiter leaf_count children curr' m')
                (λ (c, k). work_loop (suc f) env delimiter leaf_count c (close_scope ∷ work) k))
      → work_loop
          (suc (work_sizes children + suc f))
          env
          delimiter
          leaf_count
          curr
          (process (FieldEntry.nested name children) ∷ work)
          m
        ≡ and_then
            (walk env delimiter leaf_count (FieldEntry.nested name children) curr m)
            (λ (curr', m'). work_loop f env delimiter leaf_count curr' work m')
  unfolding work_loop walk ◌>>◌
  group_round name children f curr work m h =
      and_then-same (enter_group env name m) (λ (u, m1).
        h curr m1
        ∙ and_then-same (walk_all env delimiter leaf_count children curr m1)
            (λ (c, k). close_round c f work k)
        ∙ sym (and_then_assoc (walk_all env delimiter leaf_count children curr m1) _ _))
      ∙ sym (and_then_assoc (enter_group env name m) _ _)

  mutual
    unfolding work_loop walk walk_all ◌>>◌ work_size work_sizes push_children

    work_loop-walk :
        (e : FieldEntry) (g f curr : ℕ) (work : List WorkItem) (m : Machine)
        → g ≡ work_size e + f
        → work_loop g env delimiter leaf_count curr (process e ∷ work) m
          ≡ and_then
              (walk env delimiter leaf_count e curr m)
              (λ (curr', m'). work_loop f env delimiter leaf_count curr' work m')
    work_loop-walk (leaf s) g f curr work m h =
        let e : suc f ≡ g = omega (arith, h) in
        subst
          (λ x.
            work_loop x env delimiter leaf_count curr (process (leaf s) ∷ work) m
            ≡ and_then (walk env delimiter leaf_count (leaf s) curr m)
                (λ (curr', m'). work_loop f env delimiter leaf_count curr' work m'))
          e (leaf_round s f curr work m)
    work_loop-walk (FieldEntry.nested name children) g f curr work m h =
        let e : suc (work_sizes children + suc f) ≡ g = omega (arith, h) in
        subst
          (λ x.
            work_loop x env delimiter leaf_count curr
              (process (FieldEntry.nested name children) ∷ work) m
            ≡ and_then (walk env delimiter leaf_count (FieldEntry.nested name children) curr m)
                (λ (curr', m'). work_loop f env delimiter leaf_count curr' work m'))
          e
          (group_round name children f curr work m λ curr' m'.
            work_loop-walk_all children (work_sizes children + suc f) (suc f) curr'
              (close_scope ∷ work) m' refl)

    work_loop-walk_all :
        (es : FieldEntries) (g f curr : ℕ) (work : List WorkItem) (m : Machine)
        → g ≡ work_sizes es + f
        → work_loop g env delimiter leaf_count curr (push_children es work) m
          ≡ and_then
              (walk_all env delimiter leaf_count es curr m)
              (λ (curr', m'). work_loop f env delimiter leaf_count curr' work m')
    work_loop-walk_all nil g f curr work m h =
        let e : g ≡ f = omega (arith, h) in
        ap (λ x. work_loop x env delimiter leaf_count curr work m) e
    work_loop-walk_all (cons e es) g f curr work m h =
        work_loop-walk e g (work_sizes es + f) curr (push_children es work) m (omega (arith, h))
        ∙ and_then-same (walk env delimiter leaf_count e curr m)
            (λ (c, k). work_loop-walk_all es (work_sizes es + f) f c work k refl)
        ∙ sym (and_then_assoc (walk env delimiter leaf_count e curr m) _ _)

  work_loop-end : (c : ℕ) (m : Machine) → work_loop 0 env delimiter leaf_count c [] m ≡ ok (c, m)
  unfolding work_loop
  work_loop-end c m = refl

  -- Running the stack of work over the fields of a row comes to the walk by recursion over the tree of
  -- fields, in order and each group's children inside its scope: same result, same machine, same
  -- error. The walk has no fuel, so the size of each field is fuel enough for the stack of work.
  pub entry_loop-walk_all :
      (es : FieldEntries) (curr : ℕ) (m : Machine)
      → entry_loop env delimiter leaf_count curr es m ≡ walk_all env delimiter leaf_count es curr m
  unfolding entry_loop walk_all ◌>>=◌
  entry_loop-walk_all nil curr m = refl
  entry_loop-walk_all (cons e es) curr m =
      ap (λ r. and_then r λ (c, k). entry_loop env delimiter leaf_count c es k)
        (work_loop-walk e (work_size e) 0 curr [] m (omega arith)
          ∙ and_then-same (walk env delimiter leaf_count e curr m) λ (c, k). work_loop-end c k)
      ∙ and_then_assoc (walk env delimiter leaf_count e curr m) _ _
      ∙ and_then-same (walk env delimiter leaf_count e curr m) λ (c, k). entry_loop-walk_all es c k
