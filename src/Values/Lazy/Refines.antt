-- ===== src/Values/Lazy/Refines.antt =====
-- src/value/lazy/: that both forms of a lazy value answer alike.
use simd_toon_improved.Base.{
  ℕ, zero, suc, true, Option, none, some, Bytes, equal, Bool-cases, inl, inr, ◌⊎◌, ◌≡◌, refl, ◌∙◌,
  ap, arith,
}
use simd_toon_improved.Error.{Result, ok}
use simd_toon_improved.Tape.{StaticNode}
use simd_toon_improved.Views.Tree.{
  Tree, str, stat, arr, obj, Items, nil, cons, Fields, end, field, write, header, item_of, value_of,
  nth, first_value, written,
}
use simd_toon_improved.Views.Access
use simd_toon_improved.Views.Access.{is_some, ValueType}
use simd_toon_improved.Views.Lookup.{get_idx-item_of, get-value_of}
use simd_toon_improved.Values.Distinct.{
  is_distinct, all_distinct, distinct_fields, parse_tape-write,
}
use simd_toon_improved.Values.Lazy.{
  Lazy, tape, value, into_value, upgrade, change, get, get_idx, contains_key, value_type, as_str,
  as_scalar, over_tape, over_value, tree_type, tree_str, tree_static, is_tape,
}

-- The abstract view: a lazy value stands for a tree with no key twice, as its tape or as itself.
abbrev pub Represents : Tree → Lazy → Type 0
Represents v l = (is_distinct v ≡ true) × ((l ≡ tape (write v)) ⊎ (l ≡ value v))

-- An access answers with a part of the tree, in either form, or with none where there is none.
abbrev pub Answers : Option Tree → Result (Option Lazy) → Type 0
Answers none (ok none) = Unit
Answers (some v) (ok (some l)) = Represents v l
Answers _ _ = ⊥

abbrev Distinct? : Option Tree → Type 0
Distinct? none = Unit
Distinct? (some v) = is_distinct v ≡ true

nth-distinct : (xs : Items) (i : ℕ) → all_distinct xs ≡ true → Distinct? (nth xs i)
unfolding nth is_distinct
nth-distinct nil i h = tt
nth-distinct (cons x xs) zero h = ground arith
nth-distinct (cons x xs) (suc i) h = nth-distinct xs i (ground arith)

first_value-distinct :
    (fs : Fields) (k : Bytes) → distinct_fields fs ≡ true → Distinct? (first_value fs k)
unfolding first_value is_distinct
first_value-distinct end k h = tt
first_value-distinct (field s v fs) k h = elim (Bool-cases (equal s k)) [
  | inl y ↦ rw (Distinct?, first_value, y) (ground arith)
  | inr n ↦ rw (Distinct?, first_value, n) (first_value-distinct fs k (ground arith))
]

item_of-distinct : (v : Tree) (i : ℕ) → is_distinct v ≡ true → Distinct? (item_of v i)
unfolding item_of is_distinct
item_of-distinct (arr xs) i h = nth-distinct xs i h
item_of-distinct (str s) i h = tt
item_of-distinct (stat s) i h = tt
item_of-distinct (obj fs) i h = tt

value_of-distinct : (v : Tree) (k : Bytes) → is_distinct v ≡ true → Distinct? (value_of v k)
unfolding value_of is_distinct
value_of-distinct (obj fs) k h = first_value-distinct fs k h
value_of-distinct (str s) k h = tt
value_of-distinct (stat s) k h = tt
value_of-distinct (arr xs) k h = tt

tape-Answers : (o : Option Tree) → Distinct? o → Answers o (ok (over_tape (written o)))
tape-Answers none d = tt
tape-Answers (some v) d = (d, inl refl)

value-Answers : (o : Option Tree) → Distinct? o → Answers o (ok (over_value o))
value-Answers none d = tt
value-Answers (some v) d = (d, inr refl)

-- Where a lazy value stands for a tree, in either form, `get` and `get_idx` answer with the part of
-- the tree that is asked for, and with none where the tree has none.
pub get-Answers :
    (v : Tree) (l : Lazy) (k : Bytes) (i : ℕ)
    → Represents v l
    → Answers (value_of v k) (get l k) × Answers (item_of v i) (get_idx l i)
unfolding get get_idx
get-Answers v l k i (d, inl e) =
    rw (e, get-value_of v k, get_idx-item_of v i)
      (tape-Answers _ (value_of-distinct v k d), tape-Answers _ (item_of-distinct v i d))
get-Answers v l k i (d, inr e) =
    rw e (value-Answers _ (value_of-distinct v k d), value-Answers _ (item_of-distinct v i d))

-- Where a lazy value stands for a tree, in either form, it becomes that tree, and a change to it
-- leaves the tree changed: no tape is left behind.
pub change-Represents :
    (v : Tree) (l : Lazy) (f : Tree → Tree)
    → Represents v l
    → (into_value l ≡ ok v) × (upgrade l ≡ ok (value v)) × (change f l ≡ ok (value (f v)))
unfolding into_value upgrade change is_tape
change-Represents v l f (d, inl e) = (
  ap into_value e ∙ parse_tape-write v d,
  ap upgrade e ∙ upgraded,
  ap (change f) e ∙ rw upgraded refl,
)
  where
    upgraded : upgrade (tape (write v)) ≡ ok (value v)
    upgraded = rw (parse_tape-write v d) refl
change-Represents v l f (d, inr e) = (ap into_value e, ap upgrade e, ap (change f) e)

-- What a tree is, by its root, and whether it holds a key.
abbrev pub Agrees : {A : Type 0} → (StaticNode → Option A) → Tree → Bytes → Lazy → Type 0
Agrees scalar v k l =
    (value_type l ≡ ok (tree_type v))
    × (as_str l ≡ tree_str v)
    × (as_scalar scalar l ≡ elim (tree_static v) [ none ↦ none | some s ↦ scalar s ])
    × (contains_key l k ≡ ok (is_some (value_of v k)))

is_some-written : (o : Option Tree) → is_some (written o) ≡ is_some o
is_some-written none = refl
is_some-written (some v) = refl

contains_key-value_of :
    (v : Tree) (k : Bytes) → Access.contains_key (write v) k ≡ ok (is_some (value_of v k))
unfolding Access.contains_key
contains_key-value_of v k = rw (get-value_of v k) (ap ok (is_some-written (value_of v k)))

tape-Agrees :
    {A : Type 0} (scalar : StaticNode → Option A) (v : Tree) (k : Bytes)
    → Agrees scalar v k (tape (write v))
unfolding value_type as_str as_scalar contains_key Access.value_type Access.into_string
    Access.as_scalar Access.as_static Access.contains_key write header
tape-Agrees scalar (str s) k = (refl, refl, refl, contains_key-value_of (str s) k)
tape-Agrees scalar (stat s) k = (refl, refl, refl, contains_key-value_of (stat s) k)
tape-Agrees scalar (arr xs) k = (refl, refl, refl, contains_key-value_of (arr xs) k)
tape-Agrees scalar (obj fs) k = (refl, refl, refl, contains_key-value_of (obj fs) k)

-- Where a lazy value stands for a tree, in either form, its type, its string or scalar, whichever
-- method of the node reads that, and whether it has a key are those of the tree.
pub ask-Agrees :
    {A : Type 0} (scalar : StaticNode → Option A) (v : Tree) (l : Lazy) (k : Bytes)
    → Represents v l
    → Agrees scalar v k l
unfolding value_type as_str as_scalar contains_key
ask-Agrees scalar v l k (d, inl e) = rw e (tape-Agrees scalar v k)
ask-Agrees scalar v l k (d, inr e) = rw e (refl, refl, refl, refl)
