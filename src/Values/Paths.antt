-- ===== src/Values/Paths.antt =====
-- src/value/owned.rs: what stands in the value that `OwnedDeserializer` builds, reached by keys and item
-- numbers, so that no order of a map's entries is looked at.
use simd_toon_improved.Base.{
  ℕ, zero, suc, true, false, Option, none, some, List, [], ◌∷◌, Bytes, equal, Bool-cases, inl, inr,
  ◌≡◌, refl, ◌∙◌, ap,
}
use simd_toon_improved.Error.{ok}
use simd_toon_improved.Tape.{StaticNode}
use simd_toon_improved.Views.Tree.{
  Tree, str, stat, arr, obj, Items, nil, cons, Fields, end, field, first_value, nth, item_of,
  value_of, len_items, write,
}
use simd_toon_improved.Values.Parse.{parse_tape}
use simd_toon_improved.Values.Merge.{merge, merge_items, last_value, first_value-last_value}
use simd_toon_improved.Values.Rebuild.{parse_tape-merge}

-- A key of an object or the number of an item.
pub data Step : Type 0 where
  key : Bytes → Step
  item : ℕ → Step

-- A value without the values in it.
pub data Outline : Type 0 where
  text : Bytes → Outline
  scalar : StaticNode → Outline
  items : ℕ → Outline
  entries : Outline

abbrev pub outline : Tree → Outline
outline (str s) = text s
outline (stat v) = scalar v
outline (arr xs) = items (len_items xs)
outline (obj fs) = entries

-- What stands at the end of a path, or nothing.
unfoldable pub find : Tree → List Step → Option Outline
find v [] = some (outline v)
find v (key k ∷ p) = elim (value_of v k) [ none ↦ none | some w ↦ find w p ]
find v (item i ∷ p) = elim (item_of v i) [ none ↦ none | some w ↦ find w p ]

-- The last value of a key among some entries, or `old`.
unfoldable pub last_entry : Fields → Bytes → Option Tree → Option Tree
last_entry end k old = old
last_entry (field s v fs) k old = last_entry fs k (elim (equal s k) [ true ↦ some v | false ↦ old ])

abbrev pub last_of : Tree → Bytes → Option Tree
last_of (obj fs) k = last_entry fs k none
last_of v k = none

-- The same, where the last entry of a key counts.
unfoldable pub find_last : Tree → List Step → Option Outline
find_last v [] = some (outline v)
find_last v (key k ∷ p) = elim (last_of v k) [ none ↦ none | some w ↦ find_last w p ]
find_last v (item i ∷ p) = elim (item_of v i) [ none ↦ none | some w ↦ find_last w p ]

abbrev merged : Option Tree → Option Tree
merged none = none
merged (some v) = some (merge v)

last_value-entry :
    (fs : Fields) (k : Bytes) (old : Option Tree)
    → last_value fs k (merged old) ≡ merged (last_entry fs k old)
unfolding last_value last_entry
last_value-entry end k old = refl
last_value-entry (field s v fs) k old = elim (Bool-cases (equal s k)) [
  | inl y ↦ rw y (last_value-entry fs k (some v))
  | inr n ↦ rw n (last_value-entry fs k old)
]

len_items-merge : (xs : Items) → len_items (merge_items xs) ≡ len_items xs
unfolding len_items merge
len_items-merge nil = refl
len_items-merge (cons x xs) = ap suc (len_items-merge xs)

nth-merge : (xs : Items) (i : ℕ) → nth (merge_items xs) i ≡ merged (nth xs i)
unfolding nth merge
nth-merge nil i = refl
nth-merge (cons x xs) zero = refl
nth-merge (cons x xs) (suc i) = nth-merge xs i

outline-merge : (v : Tree) → outline (merge v) ≡ outline v
unfolding merge
outline-merge (str s) = refl
outline-merge (stat v) = refl
outline-merge (arr xs) = ap items (len_items-merge xs)
outline-merge (obj fs) = refl

item_of-merge : (v : Tree) (i : ℕ) → item_of (merge v) i ≡ merged (item_of v i)
unfolding merge item_of
item_of-merge (str s) i = refl
item_of-merge (stat v) i = refl
item_of-merge (arr xs) i = nth-merge xs i
item_of-merge (obj fs) i = refl

value_of-merge : (v : Tree) (k : Bytes) → value_of (merge v) k ≡ merged (last_of v k)
unfolding merge value_of first_value
value_of-merge (str s) k = refl
value_of-merge (stat v) k = refl
value_of-merge (arr xs) k = refl
value_of-merge (obj fs) k = first_value-last_value fs end k ∙ last_value-entry fs k none

find-merged :
    (p : List Step) (o : Option Tree)
    → ((v : Tree) → find (merge v) p ≡ find_last v p)
    → elim (merged o) [ none ↦ none | some w ↦ find w p ]
      ≡ elim o [ none ↦ none | some w ↦ find_last w p ]
find-merged p none h = refl
find-merged p (some v) h = h v

find-merge : (p : List Step) (v : Tree) → find (merge v) p ≡ find_last v p
unfolding find find_last
find-merge [] v = ap some (outline-merge v)
find-merge (key k ∷ p) v =
    ap (λ o. elim o [ none ↦ none | some w ↦ find w p ]) (value_of-merge v k)
    ∙ (find-merged p (last_of v k) λ w. find-merge p w)
find-merge (item i ∷ p) v =
    ap (λ o. elim o [ none ↦ none | some w ↦ find w p ]) (item_of-merge v i)
    ∙ (find-merged p (item_of v i) λ w. find-merge p w)

-- The nodes of a value, in which a key may be twice, are built into a value in which each path of keys
-- and item numbers leads to the same text, scalar, object or array with as many items, where a key that
-- is there twice leads to its last value; and to nothing where there is no such item or key. Building it
-- does not panic, and its fuel is enough.
pub parse_tape-find :
    (v : Tree)
    → (w : Tree) × (parse_tape (write v) ≡ ok w) × ((p : List Step) → find w p ≡ find_last v p)
parse_tape-find v = (merge v, parse_tape-merge v, λ p. find-merge p v)
