-- ===== src/Stage2/Header/Counts.antt =====
-- src/stage2.rs: the counts that a header with groups of fields carries, which size its rows.
use simd_toon_improved.Base.{
  ℕ, zero, suc, ◌+◌, ◌≡◌, refl, subst, arith, Bool, true, false, List, [], ◌∷◌, length,
  if◌then◌else◌, ◌==◌,
}
use simd_toon_improved.Error.{Error, Result, ok, err, fault, out_of_fuel}
use simd_toon_improved.Stage2.Machine.{
  Span, Env, Machine, M, and_then, ◌>>=◌, ◌>>◌, pure, gets, reading, fail, update_char,
}
use simd_toon_improved.Stage2.Scan.{get_value_end}
use simd_toon_improved.Stage2.Header.{
  FieldEntry, FieldEntries, nil, cons, leaf, push, leaves, NestedFields, Groups, Closing, finished,
  continuing, close_groups, open_group, close_leaf, after_closing, read_groups, FieldList, flat,
  grouped, first_group, read_fields, read_field_list, ends_field,
}

-- Leaves and groups, counted on the tree.
unfoldable mutual
  pub leaf_total : FieldEntry → ℕ
  leaf_total (leaf h) = 1
  leaf_total (FieldEntry.nested name children) = leaf_totals children

  pub leaf_totals : FieldEntries → ℕ
  leaf_totals nil = 0
  leaf_totals (cons e es) = leaf_total e + leaf_totals es

unfoldable mutual
  pub group_total : FieldEntry → ℕ
  group_total (leaf h) = 0
  group_total (FieldEntry.nested name children) = 1 + group_totals children

  pub group_totals : FieldEntries → ℕ
  group_totals nil = 0
  group_totals (cons e es) = group_total e + group_totals es

abbrev over : (FieldEntries → ℕ) → List FieldEntries → ℕ
over f [] = 0
over f (es ∷ rest) = f es + over f rest

leaf_totals-push :
    (es : FieldEntries) (e : FieldEntry) → leaf_totals (push es e) ≡ leaf_totals es + leaf_total e
unfolding push leaf_totals
leaf_totals-push nil e = omega arith
leaf_totals-push (cons x es) e = omega (arith, leaf_totals-push es e)

group_totals-push :
    (es : FieldEntries) (e : FieldEntry)
    → group_totals (push es e) ≡ group_totals es + group_total e
unfolding push group_totals
group_totals-push nil e = omega arith
group_totals-push (cons x es) e = omega (arith, group_totals-push es e)

leaf_totals-leaves : (fs : List Span) → leaf_totals (leaves fs) ≡ length fs
unfolding leaves leaf_totals leaf_total
leaf_totals-leaves [] = refl
leaf_totals-leaves (f ∷ fs) = omega (arith, leaf_totals-leaves fs)

group_totals-leaves : (fs : List Span) → group_totals (leaves fs) ≡ 0
unfolding leaves group_totals group_total
group_totals-leaves [] = refl
group_totals-leaves (f ∷ fs) = omega (arith, group_totals-leaves fs)

-- What a piece returns, if it returns.
data Yields {A : Type 0} (Q : A → Type 0) : Result (A × Machine) → Type 0 where
  yields : {a : A} {m : Machine} → Q a → Yields Q (ok (a, m))
  raised : {e : Error} → Yields Q (err e)
  panicked : Yields Q fault
  exhausted : Yields Q out_of_fuel

bind_yields :
    {A B : Type 0} {Q : A → Type 0} {R : B → Type 0} {r : Result (A × Machine)} (f : A → M B)
    → Yields Q r
    → ((a : A) (m : Machine) → Q a → Yields R (f a m))
    → Yields R (and_then r λ (a, m). f a m)
bind_yields f (yields {a} {m} h) k = k a m h
bind_yields f raised k = raised
bind_yields f panicked k = panicked
bind_yields f exhausted k = exhausted

anything : {A : Type 0} (r : Result (A × Machine)) → Yields (λ a. Unit {0}) r
anything (ok (a, m)) = yields tt
anything (err e) = raised
anything fault = panicked
anything out_of_fuel = exhausted

abbrev pub IsCounted : NestedFields → Type 0
IsCounted f =
    (f.leaf_count ≡ leaf_totals f.field_entries) × (f.nested_count ≡ group_totals f.field_entries)

abbrev IsCountedSoFar : Groups → Type 0
IsCountedSoFar g =
    (g.leaf_count ≡ leaf_totals g.level + over leaf_totals g.outer)
    × (g.nested_count ≡ group_totals g.level + over group_totals g.outer)

abbrev IsCountedClosing : ℕ → Closing → Type 0
IsCountedClosing n (finished es k) = (n ≡ leaf_totals es) × (k ≡ group_totals es)
IsCountedClosing n (continuing g) = (g.leaf_count ≡ n) × IsCountedSoFar g

then_yields :
    {A B : Type 0} {R : B → Type 0} (r : Result (A × Machine)) (f : A → M B)
    → ((a : A) (m : Machine) → Yields R (f a m))
    → Yields R (and_then r λ (a, m). f a m)
then_yields r f k = bind_yields f (anything r) λ a m u. k a m

if_yields :
    {A : Type 0} {Q : A → Type 0} (b : Bool) {r s : Result (A × Machine)}
    → Yields Q r
    → Yields Q s
    → Yields Q (if b then r else s)
if_yields true h k = h
if_yields false h k = k

branch_yields :
    {A : Type 0} {Q : A → Type 0} (b : Bool) (p q : M A) {m : Machine}
    → Yields Q (p m)
    → Yields Q (q m)
    → Yields Q ((if b then p else q) m)
branch_yields true p q h k = h
branch_yields false p q h k = k

close_groups-Counted :
    (env : Env) (n k : ℕ) (es : FieldEntries) (outer : List FieldEntries) (names : List Span)
    (m : Machine)
    → n ≡ leaf_totals es + over leaf_totals outer
    → k ≡ group_totals es + over group_totals outer
    → Yields (IsCountedClosing n) (close_groups env es outer names n k m)
unfolding close_groups ◌>>◌ pure fail leaf_total group_total
close_groups-Counted env n k es [] names m h g =
    if_yields (m.c == b'}')
      (then_yields (update_char env m) _ λ u m'. yields (omega (arith, h), omega (arith, g)))
      (yields (refl, (omega (arith, h), omega (arith, g))))
close_groups-Counted env n k es (level ∷ outer) [] m h g =
    if_yields (m.c == b'}') raised (yields (refl, (omega (arith, h), omega (arith, g))))
close_groups-Counted env n k es (level ∷ outer) (name ∷ names) m h g =
    if_yields (m.c == b'}')
      (then_yields (update_char env m) _ λ u m'.
        close_groups-Counted env n (k + 1) (push level (FieldEntry.nested name es)) outer names m'
          (omega (arith, h, leaf_totals-push level (FieldEntry.nested name es)))
          (omega (arith, g, group_totals-push level (FieldEntry.nested name es))))
      (yields (refl, (omega (arith, h), omega (arith, g))))

close_leaf-Counted :
    (env : Env) (g : Groups) (s : Span) (m : Machine)
    → IsCountedSoFar g
    → Yields (IsCountedClosing (g.leaf_count + 1)) (close_leaf env g s m)
unfolding close_leaf leaf_total group_total
close_leaf-Counted env g s m (h, k) =
    close_groups-Counted env (g.leaf_count + 1) g.nested_count (push g.level (leaf s)) g.outer
      g.pending_names m (omega (arith, h, leaf_totals-push g.level (leaf s)))
      (omega (arith, k, group_totals-push g.level (leaf s)))

after_closing-Counted :
    (n : ℕ) (f : Groups → M NestedFields) (c : Closing) (m : Machine)
    → IsCountedClosing n c
    → ((g : Groups) (m' : Machine) → IsCountedSoFar g → Yields IsCounted (f g m'))
    → Yields IsCounted (after_closing n f c m)
unfolding pure
after_closing-Counted n f (finished es k) m h go = yields h
after_closing-Counted n f (continuing g) m (e, h) go = go g m h

read_groups-Counted :
    (fuel : ℕ) (env : Env) (delimiter : ℕ) (g : Groups) (m : Machine)
    → IsCountedSoFar g
    → Yields IsCounted (read_groups fuel env delimiter g m)
unfolding read_groups ◌>>◌ ◌>>=◌ gets reading leaf_totals group_totals
read_groups-Counted zero env delimiter g m h = exhausted
read_groups-Counted (suc fuel) env delimiter g m h = then_yields (update_char env m) _ λ u m1.
    then_yields (get_value_end env (ends_field delimiter) m1) _ λ e m2.
      branch_yields (m2.c == b'{') _ _
        (read_groups-Counted fuel env delimiter (open_group g (m1.idx, e)) m2
          (omega (arith, h.0), omega (arith, h.1)))
        (bind_yields _ (close_leaf-Counted env g (m1.idx, e) m2 h) λ c m3 hc.
          after_closing-Counted (g.leaf_count + 1) (read_groups fuel env delimiter) c m3 hc
            λ g' m4. read_groups-Counted fuel env delimiter g' m4)

-- A flat list has no counts to get wrong.
abbrev pub IsCountedList : FieldList → Type 0
IsCountedList (flat fields) = Unit {0}
IsCountedList (grouped fields) = IsCounted fields

read_fields-Counted :
    (fuel : ℕ) (env : Env) (delimiter : ℕ) (fields : List Span) (m : Machine)
    → Yields IsCountedList (read_fields fuel env delimiter fields m)
unfolding read_fields ◌>>◌ ◌>>=◌ gets reading pure leaf_totals group_totals
read_fields-Counted zero env delimiter fields m = exhausted
read_fields-Counted (suc fuel) env delimiter fields m = then_yields (update_char env m) _ λ u m1.
    then_yields (get_value_end env (ends_field delimiter) m1) _ λ e m2.
      branch_yields (m2.c == b'{') _ _
        (bind_yields _
          (read_groups-Counted fuel env delimiter (first_group fields (m1.idx, e)) m2
            (omega (arith, leaf_totals-leaves fields), omega (arith, group_totals-leaves fields)))
          λ f m3 h. yields h)
        (branch_yields (m2.c == b'}') _ _ (then_yields (update_char env m2) _ λ v m3. yields tt)
          (read_fields-Counted fuel env delimiter _ m2))

value_of :
    {A : Type 0} {Q : A → Type 0} {r : Result (A × Machine)} {a : A} {m : Machine}
    → Yields Q r
    → r ≡ ok (a, m)
    → Q a
value_of {Q} (yields {a = b} h) e = subst Q (cc) h
value_of raised e = cc
value_of panicked e = cc
value_of exhausted e = cc

-- A field list with groups that a header returns carries as `leaf_count` the number of leaves of its
-- tree, at any depth, and as `nested_count` the number of its groups.
pub read_field_list-IsCounted :
    (env : Env) (delimiter : ℕ) (m : Machine) {f : NestedFields} {m' : Machine}
    → read_field_list env delimiter m ≡ ok (grouped f, m')
    → IsCounted f
unfolding read_field_list reading
read_field_list-IsCounted env delimiter m e =
    value_of (read_fields-Counted (length m.rest + 1) env delimiter [] m) e
