-- ===== src/Values/Distinct.antt =====
-- src/value/owned.rs: values whose objects have no key twice, which are what a map can hold.
use simd_toon_improved.Base.{
  Bool, true, false, ◌&&◌, ◌||◌, not, Bytes, equal, Bool-cases, inl, inr, ◌≡◌, refl, sym, ◌∙◌, ap,
  arith,
}
use simd_toon_improved.Error.{ok}
use simd_toon_improved.Views.Tree.{
  Tree, str, stat, arr, obj, Items, nil, cons, Fields, end, field, first_value, write,
}
use simd_toon_improved.Values.Parse.{insert, parse_tape}
use simd_toon_improved.Values.Merge.{merge, merge_items, insert_all, equal_sound, equal_refl}
use simd_toon_improved.Values.Rebuild.{parse_tape-merge}

unfoldable pub has_key : Fields → Bytes → Bool
has_key end k = false
has_key (field s v fs) k = equal s k || has_key fs k

unfoldable mutual
  pub is_distinct : Tree → Bool
  is_distinct (str s) = true
  is_distinct (stat v) = true
  is_distinct (arr xs) = all_distinct xs
  is_distinct (obj fs) = distinct_fields fs

  pub all_distinct : Items → Bool
  all_distinct nil = true
  all_distinct (cons x xs) = is_distinct x && all_distinct xs

  pub distinct_fields : Fields → Bool
  distinct_fields end = true
  distinct_fields (field k v fs) = not (has_key fs k) && is_distinct v && distinct_fields fs

-- Entries behind entries.
unfoldable pub append : Fields → Fields → Fields
append end gs = gs
append (field k v fs) gs = field k v (append fs gs)

-- No key of the second is one of the first.
unfoldable pub is_apart : Fields → Fields → Bool
is_apart fs end = true
is_apart fs (field k v gs) = not (has_key fs k) && is_apart fs gs

insert-new :
    (fs : Fields) (k : Bytes) (v : Tree)
    → has_key fs k ≡ false
    → insert fs k v ≡ append fs (field k v end)
unfolding insert append has_key
insert-new end k v h = refl
insert-new (field s w fs) k v h = ground (arith, insert-new fs k v)

append_assoc : (fs gs hs : Fields) → append (append fs gs) hs ≡ append fs (append gs hs)
unfolding append
append_assoc end gs hs = refl
append_assoc (field k v fs) gs hs = ap (field k v) (append_assoc fs gs hs)

append-end : (fs : Fields) → append fs end ≡ fs
unfolding append
append-end end = refl
append-end (field k v fs) = ap (field k v) (append-end fs)

has_key-append :
    (fs gs : Fields) (k : Bytes)
    → has_key fs k ≡ false
    → has_key gs k ≡ false
    → has_key (append fs gs) k ≡ false
unfolding append has_key
has_key-append end gs k p q = q
has_key-append (field s v fs) gs k p q = ground (arith, has_key-append fs gs k)

equal_comm : (a b : Bytes) → equal a b ≡ false → equal b a ≡ false
equal_comm a b h = elim (Bool-cases (equal b a)) [
  | inl y ↦ absurd (cc (h, equal_sound b a y, equal_refl a))
  | inr n ↦ n
]

-- Apart from the entries before it, and from a new one.
is_apart-append :
    (res fs : Fields) (k : Bytes) (v : Tree)
    → is_apart res fs ≡ true
    → has_key fs k ≡ false
    → is_apart (append res (field k v end)) fs ≡ true
unfolding is_apart has_key
is_apart-append res end k v h n = refl
is_apart-append res (field s w fs) k v h n =
    ground (arith, has_key-append res (field k v end) s, is_apart-append res fs k v, equal_comm s k)

end-is_apart : (fs : Fields) → is_apart end fs ≡ true
unfolding is_apart has_key
end-is_apart end = refl
end-is_apart (field k v fs) = end-is_apart fs

mutual
  unfolding merge merge_items insert_all is_distinct all_distinct distinct_fields is_apart append

  merge_self : (v : Tree) → is_distinct v ≡ true → merge v ≡ v
  merge_self (str s) h = refl
  merge_self (stat v) h = refl
  merge_self (arr xs) h = ap arr (merge_items_self xs h)
  merge_self (obj fs) h = ap obj (insert_all-append fs end h (end-is_apart fs))

  merge_items_self : (xs : Items) → all_distinct xs ≡ true → merge_items xs ≡ xs
  merge_items_self nil h = refl
  merge_items_self (cons x xs) h = ground (arith, merge_self x, merge_items_self xs)

  insert_all-append :
      (fs res : Fields)
      → distinct_fields fs ≡ true
      → is_apart res fs ≡ true
      → insert_all fs res ≡ append res fs
  insert_all-append end res h a = sym (append-end res)
  insert_all-append (field k v fs) res h a =
      rw
        (
          merge_self v (ground arith),
          insert-new res k v (ground arith),
          insert_all-append fs (append res (field k v end)) (ground arith)
              (is_apart-append res fs k v (ground arith) (ground arith)),
        )
        (append_assoc res (field k v end) fs)

-- A value whose objects have no key twice, written as the nodes of a tape and built from them again,
-- is that value. The order of its entries is one of the lists that stand for maps here.
pub parse_tape-write : (v : Tree) → is_distinct v ≡ true → parse_tape (write v) ≡ ok v
parse_tape-write v h = parse_tape-merge v ∙ ap ok (merge_self v h)

-- What the map of an object answers is what its view over the tape answers.
pub first_value-insert_all :
    (fs : Fields) (k : Bytes)
    → distinct_fields fs ≡ true
    → first_value (insert_all fs end) k ≡ first_value fs k
unfolding append
first_value-insert_all fs k h =
    ap (λ gs. first_value gs k) (insert_all-append fs end h (end-is_apart fs))
