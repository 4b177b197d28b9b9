-- ===== src/Values/Ends.antt =====
-- src/value/owned.rs: that `OwnedDeserializer` ends on any tape.
use simd_toon_improved.Base.{
  ℕ, zero, suc, ◌+◌, ◌*◌, ◌-◌, ◌≤◌, ◌<◌, get_elem?, get_elem?-lt, Option-cases, inl, inr, length,
  ◌≢◌, arith,
}
use simd_toon_improved.Error.{Result, ok, err, fault, out_of_fuel}
use simd_toon_improved.Stage2.Machine.{and_then}
use simd_toon_improved.Tape.{Node, string, object, array, static}
use simd_toon_improved.Views.Tree.{Nodes, Fields, end}
use simd_toon_improved.Values.Parse.{
  next_, insert, parse, parse_node, parse_array, parse_map, parse_entry, parse_tape,
}

-- A result that has not run out of fuel and is no further back than one index and no further on than
-- another.
abbrev Reaches : {A : Type 0} → ℕ → ℕ → Result (A × ℕ) → Type 0
Reaches lo hi (ok r) = (lo ≤ r.1) × (r.1 ≤ hi)
Reaches lo hi (err e) = Unit
Reaches lo hi fault = Unit
Reaches lo hi out_of_fuel = ⊥

Reaches-and_then :
    {A B : Type 0} (i j hi : ℕ) (r : Result (A × ℕ)) (f : A × ℕ → Result (B × ℕ))
    → Reaches i hi r
    → ((a : A) (k : ℕ) → i ≤ k → k ≤ hi → Reaches j hi (f (a, k)))
    → Reaches j hi (and_then r f)
Reaches-and_then i j hi (ok r) f h g = g r.0 r.1 h.0 h.1
Reaches-and_then i j hi (err e) f h g = tt
Reaches-and_then i j hi fault f h g = tt
Reaches-and_then i j hi out_of_fuel f h g = absurd h

weaken : {A : Type 0} (i j hi : ℕ) (r : Result (A × ℕ)) → j ≤ i → Reaches i hi r → Reaches j hi r
weaken i j hi (ok r) le h = (omega (arith, h.0), h.1)
weaken i j hi (err e) le h = tt
weaken i j hi fault le h = tt
weaken i j hi out_of_fuel le h = h

-- A result that reaches an index is none that ran out, with a value taken from it either.
Reaches-ne-out_of_fuel :
    {A B : Type 0} (lo hi : ℕ) (r : Result (A × ℕ)) (f : A × ℕ → B)
    → Reaches lo hi r
    → and_then r (λ a. ok (f a)) ≢ out_of_fuel
Reaches-ne-out_of_fuel lo hi (ok r) f h e = cc
Reaches-ne-out_of_fuel lo hi (err x) f h e = cc
Reaches-ne-out_of_fuel lo hi fault f h e = cc
Reaches-ne-out_of_fuel lo hi out_of_fuel f h e = h

-- The next node lies within the tape.
next-Reaches :
    {B : Type 0} (j : ℕ) (tape : Nodes) (idx : ℕ) (f : Node × ℕ → Result (B × ℕ))
    → (idx < length tape → (n : Node) → Reaches j (length tape) (f (n, idx + 1)))
    → Reaches j (length tape) (and_then (next_ tape idx) f)
next-Reaches j tape idx f g = elim (Option-cases (get_elem? tape idx)) [
  | inl e ↦ rw (next_, e) tt
  | inr (n, e) ↦ rw (next_, e) (g (get_elem?-lt tape idx e) n)
]

module _ (tape : Nodes) where
  abbrev left : ℕ → ℕ
  left idx = 3 * (length tape - idx)

  mutual
    unfolding parse parse_array parse_map

    parse-Reaches :
        (fuel idx : ℕ) → left idx < fuel → Reaches (idx + 1) (length tape) (parse fuel tape idx)
    parse-Reaches zero idx h = absurd (omega arith)
    parse-Reaches (suc fuel) idx h =
        next-Reaches (idx + 1) tape idx _
          λ within n. parse_node-Reaches fuel n (idx + 1) (omega arith) (omega arith)

    parse_node-Reaches :
        (fuel : ℕ) (n : Node) (idx : ℕ)
        → left idx + 2 < fuel
        → idx ≤ length tape
        → Reaches idx (length tape) (parse_node fuel n tape idx)
    parse_node-Reaches zero n idx h w = absurd (omega arith)
    parse_node-Reaches (suc fuel) (static v) idx h w = (omega arith, w)
    parse_node-Reaches (suc fuel) (string s) idx h w = (omega arith, w)
    parse_node-Reaches (suc fuel) (array len count) idx h w =
        Reaches-and_then idx idx _ _ _ (parse_array-Reaches fuel len idx (omega arith) w)
          λ xs k lo hi. (lo, hi)
    parse_node-Reaches (suc fuel) (object len count) idx h w =
        Reaches-and_then idx idx _ _ _ (parse_map-Reaches fuel len end idx (omega arith) w)
          λ fs k lo hi. (lo, hi)

    parse_array-Reaches :
        (fuel len idx : ℕ)
        → left idx + 1 < fuel
        → idx ≤ length tape
        → Reaches idx (length tape) (parse_array fuel len tape idx)
    parse_array-Reaches zero len idx h w = absurd (omega arith)
    parse_array-Reaches (suc fuel) zero idx h w = (omega arith, w)
    parse_array-Reaches (suc fuel) (suc len) idx h w =
        Reaches-and_then (idx + 1) idx _ _ _ (parse-Reaches fuel idx (omega arith)) λ x k lo hi.
          Reaches-and_then k idx _ _ _ (parse_array-Reaches fuel len k (omega arith) hi)
            λ xs l lo' hi'. (omega arith, hi')

    parse_map-Reaches :
        (fuel len : ℕ) (res : Fields) (idx : ℕ)
        → left idx + 1 < fuel
        → idx ≤ length tape
        → Reaches idx (length tape) (parse_map fuel len res tape idx)
    parse_map-Reaches zero len res idx h w = absurd (omega arith)
    parse_map-Reaches (suc fuel) zero res idx h w = (omega arith, w)
    parse_map-Reaches (suc fuel) (suc len) res idx h w =
        next-Reaches idx tape idx _
          λ within n. parse_entry-Reaches fuel len res n idx (omega arith) (omega arith)

    parse_entry-Reaches :
        (fuel len : ℕ) (res : Fields) (n : Node) (idx : ℕ)
        → left idx < fuel
        → idx < length tape
        → Reaches idx (length tape) (parse_entry fuel len res n tape (idx + 1))
    parse_entry-Reaches zero len res n idx h w = absurd (omega arith)
    parse_entry-Reaches (suc fuel) len res (string key) idx h w =
        Reaches-and_then (idx + 1 + 1) idx _ _ _ (parse-Reaches fuel (idx + 1) (omega arith))
          λ v k lo hi.
            weaken k idx _ _ (omega arith)
              (parse_map-Reaches fuel len (insert res key v) k (omega arith) hi)
    parse_entry-Reaches (suc fuel) len res (static v) idx h w = tt
    parse_entry-Reaches (suc fuel) len res (array l c) idx h w = tt
    parse_entry-Reaches (suc fuel) len res (object l c) idx h w = tt

-- On any tape, a value's or not, the deserializer ends: it returns or panics within three rounds of
-- fuel for each node and one more.
pub parse_tape-ne-out_of_fuel : (tape : Nodes) → parse_tape tape ≢ out_of_fuel
unfolding parse_tape
parse_tape-ne-out_of_fuel tape =
    Reaches-ne-out_of_fuel 1 (length tape) _ (λ r. r.0)
      (parse-Reaches tape (3 * length tape + 1) 0 (omega arith))
