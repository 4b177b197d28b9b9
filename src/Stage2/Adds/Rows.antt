-- ===== src/Stage2/Adds/Rows.antt =====
-- src/stage2.rs: the entries and the tape slots of a row, and of an inline array.
use simd_toon_improved.Base.{
  ℕ, zero, suc, ◌*◌, ◌≤◌, ◌≡◌, ◌≢◌, refl, sym, subst, arith, Bool, not, ◌&&◌, Option, none, some,
  List, [], ◌∷◌, Bytes, length, take, length-append, ◌==◌,
}
use simd_toon_improved.Error.{Result, ok, err, fault, out_of_fuel}
use simd_toon_improved.Tape.{Node, StaticNode}
use simd_toon_improved.Stage2.Machine.{
  Span, Env, Machine, M, and_then, ◌>>=◌, lift, checked_sub, move, advance, update_char, insert_res,
  insert_str, bump_cnt,
}
use simd_toon_improved.Stage2.Triple.{
  Ensures, holds, panicked, if_Ensures, fail-Ensures, ends-Ensures, bind-Ensures, mono-Ensures,
}
use simd_toon_improved.Stage2.Scan.{
  seek, get_value_end, trim_trailing_spaces, insert_number, insert_word, insert_inferred_value,
}
use simd_toon_improved.Stage2.Rows.{
  insert_cell, insert_field_name, is_newline, expect_delimiter, first_cells, last_elem?, last_cell,
  row_cells,
}
use simd_toon_improved.Stage2.States.Arrays.{inline_item, inline_items}
use simd_toon_improved.Stage2.Quiet.{IsTotal}
use simd_toon_improved.Stage2.Quiet.Scan.{byte_at-ends, slice-ends, trim-ends}
use simd_toon_improved.Stage2.Adds.{
  IsMore, Adds, adds, run-Adds, no-IsMore, Adds-sum, Adds-pure, Adds-gets, Adds-fail, Adds-panic,
  Adds-if, Adds-reading, Adds-lift, Adds-bind, Adds-then,
}

update_char-Adds : (env : Env) → Adds 0 0 (update_char env)
unfolding update_char
update_char-Adds env = adds λ m. go m.rest m
  where
    go : (ks : List ℕ) (m : Machine) → Ensures (λ a. IsMore 0 0 m) (advance env ks m)
    go [] m = fail-Ensures _ m
    go (k ∷ ks) m =
        ends-Ensures _ _ (byte_at-ends env k)
          λ b. holds (record { entries = omega arith; slots = omega arith })

seek-IsMore :
    (env : Env) (stops : ℕ → Bool) (ks : List ℕ) (m : Machine)
    → Ensures (λ a. IsMore 0 0 m) (seek env stops ks m)
unfolding seek
seek-IsMore env stops [] m = if_Ensures (stops m.c) (holds (no-IsMore m)) (fail-Ensures _ m)
seek-IsMore env stops (k ∷ ks) m = if_Ensures (stops m.c) (holds (no-IsMore m)) (
    if_Ensures (m.c == b'\n') (fail-Ensures _ m) (
      ends-Ensures _ _ (byte_at-ends env k) λ b.
        mono-Ensures (seek-IsMore env stops ks (move m k b ks))
          λ a m' h. record { entries = h.entries; slots = h.slots }))

get_value_end-Adds : (env : Env) (stops : ℕ → Bool) → Adds 0 0 (get_value_end env stops)
unfolding get_value_end
get_value_end-Adds env stops = adds λ m.
    bind-Ensures (λ u m'. and_then (trim_trailing_spaces env m.idx m'.idx) λ e. ok (e, m'))
      (seek-IsMore env stops m.rest m)
      λ u k s. ends-Ensures _ _ (trim-ends env m.idx k.idx) λ e. holds s

insert_res-Adds : (x : Node) → Adds 0 1 (insert_res x)
unfolding insert_res
insert_res-Adds x = adds λ m.
    holds (record { entries = omega arith; slots = omega (arith, length-append m.tape (x ∷ [])) })

bump_cnt-Adds : Adds 1 0 bump_cnt
unfolding bump_cnt
bump_cnt-Adds = adds λ m. holds (record { entries = omega arith; slots = omega arith })

expect_delimiter-Adds : (check : Bool) (delimiter : ℕ) → Adds 0 0 (expect_delimiter check delimiter)
unfolding expect_delimiter
expect_delimiter-Adds check delimiter =
    Adds-reading _ λ m. Adds-if (check && not (m.c == delimiter)) (Adds-fail _) (Adds-pure _)

length-take : {A : Type 0} (n : ℕ) (xs : List A) → n ≤ length xs → length (take n xs) ≡ n
length-take zero xs h = refl
length-take (suc n) [] h = absurd (omega arith)
length-take (suc n) (x ∷ xs) h = omega (arith, length-take n xs (omega arith))

checked_sub-suc : (n : ℕ) → checked_sub (suc n) 1 ≡ ok n
checked_sub-suc n = ground arith

-- A result that is known.
known :
    {A B : Type 0} {k n : ℕ} {a : A} {r : Result A} (f : A → M B)
    → r ≡ ok a
    → Adds k n (f a)
    → Adds k n (lift r >>= f)
unfolding ◌>>=◌ lift
known {k} {n} f e h = subst (λ x. Adds k n (lift x >>= f)) (sym e) h

module _ (env : Env) (t : IsTotal env) where
  insert_str-Adds : (from to : ℕ) → Adds 0 1 (insert_str env from to)
  unfolding insert_str
  insert_str-Adds from to =
      Adds-bind (Adds-lift _ (t.parse_str_ends from to)) λ s. insert_res-Adds _

  insert_number-Adds :
      (from to : ℕ) (r : Result StaticNode)
      → r ≢ out_of_fuel
      → Adds 0 1 (insert_number env from to r)
  insert_number-Adds from to (ok n) h = insert_res-Adds _
  insert_number-Adds from to (err e) h = insert_str-Adds from to
  insert_number-Adds from to fault h = Adds-panic
  insert_number-Adds from to out_of_fuel h = absurd (h refl)

  insert_word-Adds : (from to : ℕ) (word : Bytes) → Adds 0 1 (insert_word env from to word)
  unfolding insert_word
  insert_word-Adds from to word = search (Adds-if, insert_res-Adds, insert_str-Adds from to)

  pub insert_inferred_value-Adds : (from to : ℕ) → Adds 0 1 (insert_inferred_value env from to)
  unfolding insert_inferred_value
  insert_inferred_value-Adds from to = Adds-bind (Adds-lift _ (byte_at-ends env from)) λ first.
      Adds-if _ (insert_number-Adds from to _ (t.try_parse_number_ends from to _))
        (Adds-bind (Adds-lift _ (slice-ends env from to)) (insert_word-Adds from to))

  insert_cell-Adds : (stops : ℕ → Bool) → Adds 0 1 (insert_cell env stops)
  unfolding insert_cell
  insert_cell-Adds stops = Adds-bind (Adds-gets _) λ from.
      Adds-bind (get_value_end-Adds env stops)
        λ to. Adds-then (insert_inferred_value-Adds from to) (Adds-pure _)

  insert_field_name-Adds : (h : Span) → Adds 1 1 (insert_field_name env h)
  unfolding insert_field_name
  insert_field_name-Adds (from, to) = Adds-then (insert_str-Adds from to) bump_cnt-Adds

  first_cells-Adds :
      (check : Bool) (delimiter : ℕ) (hs : List Span)
      → Adds (length hs) (2 * length hs) (first_cells env check delimiter hs)
  unfolding first_cells
  first_cells-Adds check delimiter [] = Adds-pure _
  first_cells-Adds check delimiter (h ∷ hs) = Adds-sum (omega arith) (omega arith) (
      Adds-then (insert_field_name-Adds h) (
        Adds-then (insert_cell-Adds _) (
          Adds-then (expect_delimiter-Adds check delimiter)
            (Adds-then (update_char-Adds env) (first_cells-Adds check delimiter hs)))))

  last_cell-Adds : (check : Bool) (n : ℕ) (h : Option Span) → Adds 1 2 (last_cell env check n h)
  unfolding last_cell
  last_cell-Adds check n none = Adds-fail _
  last_cell-Adds check n (some h) = Adds-then (insert_field_name-Adds h) (
      Adds-bind (Adds-gets _) λ from. Adds-bind (get_value_end-Adds env is_newline) λ to.
        Adds-then (Adds-if _ (Adds-fail _) (Adds-pure _)) (insert_inferred_value-Adds from to))

  row_cells-Adds :
      (check : Bool) (delimiter : ℕ) (hs : List Span)
      → Adds (length hs) (2 * length hs) (row_cells env check delimiter hs)
  unfolding row_cells ◌>>=◌ lift
  row_cells-Adds check delimiter [] = adds λ m. panicked
  row_cells-Adds check delimiter (h ∷ hs) = known _ (checked_sub-suc (length hs)) (
      Adds-sum (omega (arith, length-take (length hs) (h ∷ hs) (omega arith)))
        (omega (arith, length-take (length hs) (h ∷ hs) (omega arith)))
        (Adds-then (first_cells-Adds check delimiter (take (length hs) (h ∷ hs)))
          (last_cell-Adds check (length (h ∷ hs)) (last_elem? (h ∷ hs)))))

  inline_item-Adds : (delimiter : ℕ) → Adds 1 1 (inline_item env delimiter)
  unfolding inline_item
  inline_item-Adds delimiter = Adds-then bump_cnt-Adds (
      Adds-then (insert_cell-Adds _) (
        Adds-then (Adds-reading _ λ m. Adds-if _ (Adds-fail _) (Adds-pure _))
          (update_char-Adds env)))

  inline_items-Adds : (delimiter n : ℕ) → Adds n n (inline_items env delimiter n)
  unfolding inline_items
  inline_items-Adds delimiter zero = adds λ m. holds (no-IsMore m)
  inline_items-Adds delimiter (suc n) =
      Adds-sum (omega arith) (omega arith)
        (Adds-then (inline_item-Adds delimiter) (inline_items-Adds delimiter n))

  -- With parsers that end, the cells of a row do not run out of fuel, and where they return they have
  -- added one entry for each header, and for each header two nodes: its name and its value.
  pub row_cells-IsMore :
      (check : Bool) (delimiter : ℕ) (headers : List Span) (m : Machine)
      → Ensures
          (λ a. IsMore (length headers) (2 * length headers) m)
          (row_cells env check delimiter headers m)
  row_cells-IsMore check delimiter headers m = run-Adds (row_cells-Adds check delimiter headers) m

  -- With parsers that end, the loop over all elements of an inline array but the last does not run out
  -- of fuel, and where it returns it has added one entry and one node for each of its rounds.
  pub inline_items-IsMore :
      (delimiter n : ℕ) (m : Machine) → Ensures (λ a. IsMore n n m) (inline_items env delimiter n m)
  inline_items-IsMore delimiter n m = run-Adds (inline_items-Adds delimiter n) m
