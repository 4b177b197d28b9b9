-- ===== src/Values/Merge.antt =====
-- src/value/owned.rs: a value with each object as the map that its entries insert.
use simd_toon_improved.Base.{
  true, false, Option, some, [], ◌∷◌, Bytes, equal, Bool-cases, inl, inr, ◌≡◌, refl, sym, ◌∙◌, ap,
  arith,
}
use simd_toon_improved.Views.Tree.{
  Tree, str, stat, arr, obj, Items, nil, cons, Fields, end, field, first_value,
}
use simd_toon_improved.Values.Parse.{insert}

unfoldable mutual
  pub merge : Tree → Tree
  merge (str s) = str s
  merge (stat v) = stat v
  merge (arr xs) = arr (merge_items xs)
  merge (obj fs) = obj (insert_all fs end)

  pub merge_items : Items → Items
  merge_items nil = nil
  merge_items (cons x xs) = cons (merge x) (merge_items xs)

  pub insert_all : Fields → Fields → Fields
  insert_all end res = res
  insert_all (field k v fs) res = insert_all fs (insert res k (merge v))

-- The value of the last entry with the key, or that of `old` where there is none.
unfoldable pub last_value : Fields → Bytes → Option Tree → Option Tree
last_value end k old = old
last_value (field s v fs) k old =
    last_value fs k (elim (equal s k) [ true ↦ some (merge v) | false ↦ old ])

pub equal_sound : (a b : Bytes) → equal a b ≡ true → a ≡ b
equal_sound [] [] h = refl
equal_sound [] (y ∷ b) h = cc
equal_sound (x ∷ a) [] h = cc
equal_sound (x ∷ a) (y ∷ b) h = ground (arith, equal_sound a b)

pub equal_refl : (s : Bytes) → equal s s ≡ true
equal_refl [] = refl
equal_refl (b ∷ s) = ground (arith, equal_refl s)

-- What a map answers after an insertion.
first_value-insert :
    (fs : Fields) (s k : Bytes) (v : Tree)
    → first_value (insert fs s v) k ≡ elim (equal s k) [ true ↦ some v | false ↦ first_value fs k ]
unfolding first_value insert
first_value-insert end s k v = refl
first_value-insert (field t w fs) s k v = elim (Bool-cases (equal t s)) [
  | inl y ↦
      rw (insert, y, equal_sound t s y)
        (elim (Bool-cases (equal s k)) [
          | inl y ↦ rw (first_value, y) refl
          | inr n ↦ rw (first_value, n, equal_sound t s y, n) refl
        ])
  | inr n ↦
      rw (insert, n, first_value)
        (ap (λ o. elim (equal t k) [ true ↦ some w | false ↦ o ]) (first_value-insert fs s k v)
          ∙ other n)
]
  where
    apart : equal t s ≡ false → equal t k ≡ true → equal s k ≡ true → ⊥
    apart n p q = cc (n, same, equal_refl s)
      where
        same : t ≡ s
        same = equal_sound t k p ∙ sym (equal_sound s k q)

    other :
        equal t s ≡ false
        → elim (equal t k) [
          | true ↦ some w
          | false ↦ elim (equal s k) [ true ↦ some v | false ↦ first_value fs k ]
        ]
          ≡ elim (equal s k) [
            | true ↦ some v
            | false ↦ elim (equal t k) [ true ↦ some w | false ↦ first_value fs k ]
          ]
    other n = elim (Bool-cases (equal t k)) [
      | inl p ↦ elim (Bool-cases (equal s k)) [
        | inl q ↦ absurd (apart n p q)
        | inr q ↦ rw (p, q, p) refl
      ]
      | inr p ↦ elim (Bool-cases (equal s k)) [ inl q ↦ rw (p, q) refl | inr q ↦ rw (p, q, p) refl ]
    ]

-- In the map that a list of entries inserts, a key has the value of its last entry.
pub first_value-last_value :
    (fs res : Fields) (k : Bytes)
    → first_value (insert_all fs res) k ≡ last_value fs k (first_value res k)
unfolding insert_all last_value
first_value-last_value end res k = refl
first_value-last_value (field s v fs) res k =
    first_value-last_value fs (insert res s (merge v)) k
    ∙ ap (last_value fs k) (first_value-insert res s k (merge v))
