-- ===== src/Stage2/Declared.antt =====
-- src/stage2.rs: the declared count of a block array, in strict mode.
pub mod Refused
use simd_toon_improved.Base.{
  ℕ, suc, ◌+◌, ◌≤◌, ◌<◌, ◌≡◌, ◌≢◌, refl, sym, ◌∙◌, subst, arith, Bool, true, false, Option, none,
  some, List, [], ◌∷◌, leb, leb→le, leb→lt, ap, not, if◌then◌else◌, ◌==◌, Bool-cases, inl, inr,
}
use simd_toon_improved.Error.{Error, Result, ok, err, new_c, syntax, expected_array}
use simd_toon_improved.Tape.{Node}
use simd_toon_improved.Stage2.Machine.{
  StackState, Span, Env, Machine, M, ◌>>◌, ◌>>=◌, pure, gets, modify, reading, fail, open_scope,
  insert_res, bump_cnt,
}
use simd_toon_improved.Stage2.Triple.{
  Ensures, holds, raised, panicked, Ensures-ok, mono-Ensures, Triple, triple, run_triple, pure_rule,
  fail_rule, reading_rule, if_rule, bind_rule, then_rule,
}
use simd_toon_improved.Stage2.Quiet.{
  reads, writes, Kind, Same, IsTotal, Quiet, run-Quiet, Quiet-if, Quiet-reading, Quiet-fail,
  Quiet-pure, Quiet-panic,
}
use simd_toon_improved.Stage2.Quiet.Scan.{
  update_char-Quiet, insert_res-Quiet, insert_str-Quiet, insert_inferred_value-Quiet,
  bump_cnt-Quiet,
}
use simd_toon_improved.Stage2.Quiet.Scan.LineEnd.{get_eol_state-Quiet}
use simd_toon_improved.Stage2.Quiet.Header.{read_header-Quiet}
use simd_toon_improved.Stage2.Quiet.Cells.{require_nested-Quiet, insert_key-Quiet}
use simd_toon_improved.Stage2.Adds.{IsMore, run-Adds}
use simd_toon_improved.Stage2.Adds.Rows.{insert_inferred_value-Adds}
use simd_toon_improved.Stage2.Scan.{EolState, sibling, nested, insert_inferred_value, get_eol_state}
use simd_toon_improved.Stage2.Header.{
  HeaderType, primitive_value, object_start, empty_object, simple_array, empty_array,
  keyed_tabular_objects, tabular_array, nested_field_groups_array,
}
use simd_toon_improved.Stage2.States.{
  Next, goto, expect_block_array_item, scope_end, next_item, insert_key, open_container,
  require_nested, array_state,
}
use simd_toon_improved.Stage2.States.Close.{on_scope_end}
use simd_toon_improved.Stage2.States.Arrays.{
  on_block_array, on_item, open_item, check_declared, on_expect_item,
}
use simd_toon_improved.Stage2.Declared.Refused.{on_scope_end-refuses, on_expect_item-refuses}

-- The item ends where its line does: the next state is that of an item, or the end of the array.
unfoldable pub is_one_line : Next → Bool
is_one_line (goto expect_block_array_item) = true
is_one_line (goto scope_end) = true
is_one_line _ = false

-- What a block array that declares `count` items, under a key or in another array, leads to behind its
-- header and behind each item of one line.
pub data Listed (env : Env) (count : ℕ) : ℕ → Machine → Type 0 where
  opened :
      (key : Option Span) (next : Next) (m : Machine) {m' : Machine}
      → on_block_array env count key false m ≡ ok (next, m')
      → Listed env count 0 m'
  taken :
      {n : ℕ} (next : Next) (m : Machine) {m' : Machine}
      → Listed env count n m
      → on_expect_item env m ≡ ok (next, m')
      → is_one_line next ≡ true
      → Listed env count (suc n) m'

abbrev Any : Machine → Type 0
Any m = Unit

no_dash :
    (env : Env) (m : Machine)
    → (m.c == b'-') ≡ false
    → on_expect_item env m ≡ err (new_c m.idx m.c expected_array)
unfolding on_expect_item ◌>>◌ ◌>>=◌ reading fail
no_dash env m f = rw f refl

-- The depth and the declared counts are as they were, and there are `n` entries more.
abbrev Kept : ℕ → Machine → Machine → Type 0
Kept n m m' = (m'.depth ≡ m.depth) × (m'.pending_counts ≡ m.pending_counts) × (m'.cnt ≡ m.cnt + n)

abbrev Item : ℕ → Machine → Next → Machine → Type 0
Item n m next m' = is_one_line next ≡ true → Kept n m m'

both-Ensures :
    {A : Type 0} {Q R : A → Machine → Type 0} {r : Result (A × Machine)}
    → Ensures Q r
    → Ensures R r
    → Ensures (λ a m. Q a m × R a m) r
both-Ensures (holds h) k = holds (h, Ensures-ok k refl)
both-Ensures raised k = raised
both-Ensures panicked k = panicked

module _ {P : Machine → Type 0} {A : Type 0} where
  forget : {kind : Kind} {p : M A} → Quiet kind p → Triple P p (λ a. Any)
  forget h = triple λ m k. mono-Ensures (run-Quiet h m) λ a m' s. tt

module _ (m₀ : Machine) (n : ℕ) where
  reads-Kept : {A : Type 0} {p : M A} → Quiet reads p → Triple (Kept n m₀) p (λ a. Kept n m₀)
  reads-Kept h = triple λ m (d, q, c).
      mono-Ensures (run-Quiet h m) λ a m' s. (s.depth ∙ d, s.pending_counts ∙ q, s.entries ∙ c)

  next_item-Item : (eol : EolState) → Triple (Kept n m₀) (next_item eol) (Item n m₀)
  next_item-Item sibling = pure_rule _ λ m k e. k
  next_item-Item EolState.close_scope = pure_rule _ λ m k e. k
  next_item-Item nested = fail_rule _

  -- Another state is no item of one line.
  elsewhere : (next : Next) → is_one_line next ≡ false → Triple Any (pure next) (Item n m₀)
  elsewhere next f = pure_rule _ λ m k e. cc

  module _ (env : Env) (t : IsTotal env) where
    value-Kept :
        (from to : ℕ) → Triple (Kept n m₀) (insert_inferred_value env from to) (λ a. Kept n m₀)
    value-Kept from to = triple λ m (d, q, c).
        mono-Ensures
          (both-Ensures (run-Quiet (insert_inferred_value-Quiet env t from to) m)
            (run-Adds (insert_inferred_value-Adds env t from to) m))
          λ a m' (s, i). (s.depth ∙ d, s.pending_counts ∙ q, omega (arith, i.entries, c))

    empty-Kept : Triple (Kept n m₀) (insert_res (Node.object 0 0)) (λ a. Kept n m₀)
    unfolding insert_res
    empty-Kept = triple λ m k. holds k

    line_end : Triple (Kept n m₀) (get_eol_state env false >>= next_item) (Item n m₀)
    line_end = bind_rule (reads-Kept (get_eol_state-Quiet env false)) next_item-Item

    open_item-Any : (key : Option Span) → Triple (Kept n m₀) (open_item env key) (λ a. Any)
    unfolding open_item open_scope
    open_item-Any none = pure_rule _ λ m k. tt
    open_item-Any (some key) = triple λ m k. holds tt

    array_elsewhere :
        (count : ℕ) (key : Option Span) (delimiter : ℕ)
        → Triple Any (gets λ m. goto (array_state count key delimiter false m)) (Item n m₀)
    unfolding gets is_one_line
    array_elsewhere count key delimiter = triple λ m k. elim (Bool-cases (m.c == b'\n')) [
      | inl y ↦ rw y (holds λ e. cc)
      | inr f ↦ rw f (holds λ e. cc)
    ]

    on_item-Item : (h : HeaderType) → Triple (Kept n m₀) (on_item env h) (Item n m₀)
    unfolding on_item open_scope is_one_line
    on_item-Item (primitive_value (from, to)) = then_rule (value-Kept from to) line_end
    on_item-Item empty_object = then_rule empty-Kept line_end
    on_item-Item (object_start (from, to)) = then_rule {S = Any} (triple λ m k. holds tt) (
        then_rule (forget (insert_str-Quiet env t from to)) (
          then_rule (forget bump_cnt-Quiet)
            (then_rule (forget {kind = reads} (update_char-Quiet env)) (elsewhere _ refl))))
    on_item-Item (simple_array count key delimiter) = then_rule (open_item-Any key) (
        then_rule (forget {kind = reads} (update_char-Quiet env))
          (array_elsewhere count key delimiter))
    on_item-Item (empty_array key) = then_rule (open_item-Any key) (elsewhere _ refl)
    on_item-Item (keyed_tabular_objects key headers rows_count delimiter) =
        then_rule (open_item-Any key) (elsewhere _ refl)
    on_item-Item (tabular_array key headers rows_count delimiter) =
        then_rule (open_item-Any key) (elsewhere _ refl)
    on_item-Item (nested_field_groups_array key nested_fields rows_count delimiter) =
        then_rule (open_item-Any key) (elsewhere _ refl)

module _ (env : Env) (t : IsTotal env) where
  check_declared-Quiet : (m : Machine) (ps : List (ℕ × ℕ)) → Quiet reads (check_declared m ps)
  check_declared-Quiet m [] = Quiet-pure tt
  check_declared-Quiet m ((d, expected) ∷ ps) =
      Quiet-if _ (Quiet-if _ (Quiet-fail _) (Quiet-pure tt)) Quiet-panic

  bump-Kept : (m₀ : Machine) → Triple (Kept 0 m₀) bump_cnt (λ a. Kept 1 m₀)
  unfolding bump_cnt
  bump-Kept m₀ = triple λ m (d, q, c). holds (d, q, omega (arith, c))

  -- An item of one line is one entry.
  on_expect_item-Item : (m : Machine) → Ensures (Item 1 m) (on_expect_item env m)
  unfolding on_expect_item
  on_expect_item-Item m = run_triple all m (refl, refl, omega arith)
    where
      all : Triple (Kept 0 m) (on_expect_item env) (Item 1 m)
      all =
          then_rule
            (reads-Kept m 0 (Quiet-reading _ λ k. Quiet-if _ (Quiet-fail _) (Quiet-pure tt)))
            (then_rule
              (reads-Kept m 0 (
                Quiet-reading _ λ k.
                  Quiet-if env.strict (check_declared-Quiet k k.pending_counts) (Quiet-pure tt)))
              (then_rule (reads-Kept m 0 (update_char-Quiet env)) (
                then_rule (bump-Kept m)
                  (bind_rule (reads-Kept m 1 (read_header-Quiet env)) (on_item-Item m 1 env t)))))

  -- The declared count is put on top, for the depth of the new array, which has no entry.
  abbrev Opened : ℕ → Machine → Type 0
  Opened count m =
      (ps : List (ℕ × ℕ)) × (m.pending_counts ≡ (m.depth, count) ∷ ps) × (1 ≤ m.depth) × (m.cnt ≡ 0)

  on_block_array-Opened :
      (count : ℕ) (key : Option Span) (m : Machine)
      → Ensures (λ next. Opened count) (on_block_array env count key false m)
  unfolding on_block_array open_container open_scope modify
  on_block_array-Opened count key m = run_triple all m tt
    where
      opens : Machine → Type 0
      opens m = (1 ≤ m.depth) × (m.cnt ≡ 0)

      all : Triple Any (on_block_array env count key false) (λ next. Opened count)
      all = then_rule (forget (insert_key-Quiet env t key)) (
          bind_rule {Q = λ eol. Any} (forget {kind = reads} (get_eol_state-Quiet env false)) λ eol.
            then_rule (forget (require_nested-Quiet eol)) (
              then_rule {S = opens} (triple λ m k. holds (omega arith, refl)) (
                then_rule {S = Opened count}
                  (triple λ m (d, c). holds (m.pending_counts, refl, d, c))
                  (pure_rule _ λ m k. k))))

  -- The number of items behind `n` of them, in strict mode.
  abbrev Declares : ℕ → ℕ → Machine → Type 0
  Declares count n m =
      (ps : List (ℕ × ℕ)) × (m.pending_counts ≡ (m.depth, count) ∷ ps)
      × (1 ≤ m.depth)
      × (m.cnt ≡ n)
      × (n ≤ count)

  module _ (strict : env.strict ≡ true) (count : ℕ) where
    -- Where an item is taken, there is room for it.
    takes_lt :
        {n : ℕ} (next : Next) (m : Machine) {m' : Machine}
        → Declares count n m
        → on_expect_item env m ≡ ok (next, m')
        → suc n ≤ count
    takes_lt {n} next m (ps, top, d, c, le) e = elim (Bool-cases (leb count n)) [
      | inl y ↦ absurd (ground (arith, refused (leb→le _ _ y)))
      | inr f ↦ leb→lt _ _ f
    ]
      where
        refused : count ≤ n → (err_of : Error) × (on_expect_item env m ≡ err err_of)
        refused h = elim (Bool-cases (m.c == b'-')) [
          | inl y ↦ (_, on_expect_item-refuses env m strict top (ground arith) (omega (arith, c)))
          | inr f ↦ (_, no_dash env m f)
        ]

    Listed-Declares : {n : ℕ} {m : Machine} → Listed env count n m → Declares count n m
    Listed-Declares (opened key next m e) =
        let (ps, top, d, c) = Ensures-ok (on_block_array-Opened count key m) e in
        (ps, top, d, c, omega arith)
    Listed-Declares {m = m'} (taken {n} next m l e y) =
        let (ps, top, d, c, le) = Listed-Declares l in
        let (d', q, c') = Ensures-ok (on_expect_item-Item m) e y in
        (
          ps,
          q ∙ top ∙ ap (λ k. (k, count) ∷ ps) (sym d'),
          omega (arith, d, d'),
          omega (arith, c, c'),
          takes_lt next m (ps, top, d, c, le) e,
        )

    -- In strict mode, with parsers that end, from a block array that ParseBlockArray opens with a declared
    -- count, not as the root, and behind any number of items of one line, each of which is taken by
    -- ExpectBlockArrayItem: the items are no more than declared; ScopeEnd is a syntax error where they are
    -- fewer; and where they are as many, so is a further dash.
    pub Listed-declared :
        {n : ℕ} {m : Machine}
        → Listed env count n m
        → (n ≤ count)
          × (n ≢ count → on_scope_end env m ≡ err (new_c m.idx m.c syntax))
          × (n ≡ count → m.c ≡ b'-' → on_expect_item env m ≡ err (new_c m.idx m.c syntax))
    Listed-declared {n} {m} l =
        let (ps, top, d, c, le) = Listed-Declares l in
        (
          le,
          λ ne. on_scope_end-refuses env m strict top d (λ e. ne (sym c ∙ e)),
          λ e dash. on_expect_item-refuses env m strict top dash (omega (arith, c, e)),
        )
