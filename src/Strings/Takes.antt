-- ===== src/Strings/Takes.antt =====
-- src/stringparse.rs and src/impls/avx2/deser.rs: how much of the source an escape takes.
use simd_toon_improved.Base.{
  ℕ, ◌+◌, ◌≤◌, some, Option-cases, [], ◌∷◌, Bytes, ◌==◌, drop, get_elem?, Bool-cases, inl, inr, ◌≡◌,
  refl, arith,
}
use simd_toon_improved.Error.{Error, Result, ok, err, fault, out_of_fuel}
use simd_toon_improved.Stage2.Machine.{and_then}
use simd_toon_improved.Strings.Chars.{codepoint_to_utf8, byte_of, hex_to_u32_nocheck, combine}
use simd_toon_improved.Strings.Escape.{
  is_high, is_low, first_unit, second_unit, join_units, get_unicode_codepoint,
  handle_unicode_codepoint, escape_map,
}
use simd_toon_improved.Strings.Parse.{unicode_escape, escape}

-- What holds of a panic and behind each byte holds of a read.
module _ {B : Type 0} (P : Result B → Type 0) (p : P fault) where
  pub reads :
      (src : Bytes) (i : ℕ) (f : ℕ → Result B)
      → ((c : ℕ) → get_elem? src i ≡ some c → P (f c))
      → P (byte_of src i f)
  reads src i f g = elim (Option-cases (get_elem? src i)) [
    | inl e ↦ rw (byte_of, e) p
    | inr (c, e) ↦ rw (byte_of, e) (g c e)
  ]

reads_hex :
    {B : Type 0} (P : Result B → Type 0) (p : P fault) (src : Bytes) (f : ℕ → Result B)
    → ((n : ℕ) → P (f n))
    → P (and_then (hex_to_u32_nocheck src) f)
unfolding hex_to_u32_nocheck
reads_hex P p src f g = reads Q p src 0 _ λ a _.
    reads Q p src 1 _ λ b _. reads Q p src 2 _ λ c _. reads Q p src 3 _ λ d _. g (combine a b c d)
  where
    Q : Result ℕ → Type 0
    Q r = P (and_then r f)

-- A result that takes a byte or more.
abbrev Takes : {A : Type 0} → Result (A × ℕ) → Type 0
Takes (ok r) = 1 ≤ r.1
Takes (err e) = Unit
Takes fault = Unit
Takes out_of_fuel = ⊥

join_units-Takes : (a b : ℕ) → Takes (join_units a b)
unfolding join_units
join_units-Takes a b = ground arith

second_unit-Takes : (a : ℕ) (src : Bytes) → Takes (second_unit a src)
unfolding second_unit
second_unit-Takes a src = reads Takes tt src 0 _ λ b _. elim (Bool-cases (b == b'\\')) [
  | inl y ↦ rw y (
      reads Takes tt src 1 _ λ c _. elim (Bool-cases (c == b'u')) [
        | inl y ↦ rw y (reads_hex Takes tt (drop 2 src) _ λ n. join_units-Takes a n)
        | inr n ↦ rw n (omega arith)
      ])
  | inr n ↦ rw n (omega arith)
]

first_unit-Takes : (a : ℕ) (src : Bytes) → Takes (first_unit a src)
unfolding first_unit
first_unit-Takes a src = elim (Bool-cases (is_high a)) [
  | inl y ↦ rw (Takes, y) (second_unit-Takes a src)
  | inr n ↦ elim (Bool-cases (is_low a)) [
    | inl y ↦ rw (Takes, n, y) tt
    | inr n' ↦ rw (Takes, n, n') (omega arith)
  ]
]

Takes-map :
    {A B : Type 0} (r : Result (A × ℕ)) (f : A → B)
    → Takes r
    → Takes (and_then r λ x. ok (f x.0, x.1))
Takes-map (ok r) f h = h
Takes-map (err e) f h = tt
Takes-map fault f h = tt
Takes-map out_of_fuel f h = h

handle_unicode_codepoint-Takes : (src : Bytes) → Takes (handle_unicode_codepoint src)
unfolding handle_unicode_codepoint get_unicode_codepoint
handle_unicode_codepoint-Takes src =
    Takes-map (and_then (hex_to_u32_nocheck (drop 2 src)) λ n. first_unit n (drop 6 src))
      codepoint_to_utf8 (reads_hex Takes tt (drop 2 src) _ λ n. first_unit-Takes n (drop 6 src))

-- The source that an escape leaves is behind a byte of it or more.
abbrev pub Follows : Bytes → Result (Bytes × (ℕ × Bytes)) → Type 0
Follows src (ok r) = (k : ℕ) × (1 ≤ k) × (r.1.1 ≡ drop k src)
Follows src (err e) = Unit
Follows src fault = Unit
Follows src out_of_fuel = ⊥

unicode_escape-Follows :
    (src : Bytes) (src_i d : ℕ) (r : Result (Bytes × ℕ))
    → Takes r
    → Follows src (unicode_escape src src_i d r)
unfolding unicode_escape
unicode_escape-Follows src src_i d (ok ([], s)) h = tt
unicode_escape-Follows src src_i d (ok (b ∷ bs, s)) h = (d + s, omega arith, refl)
unicode_escape-Follows src src_i d (err e) h = tt
unicode_escape-Follows src src_i d fault h = tt
unicode_escape-Follows src src_i d out_of_fuel h = h

pub escape-Follows : (src : Bytes) (src_i d : ℕ) → Follows src (escape src src_i d)
unfolding escape
escape-Follows src src_i d = reads (Follows src) tt src (d + 1) _ λ c _.
    elim (Bool-cases (c == b'u')) [
      | inl y ↦
          rw y (unicode_escape-Follows src src_i d _ (handle_unicode_codepoint-Takes (drop d src)))
      | inr n ↦ elim (Bool-cases (escape_map c == 0)) [
        | inl y ↦ rw (n, y) tt
        | inr n' ↦ rw (n, n') (d + 2, omega arith, refl)
      ]
    ]

-- What the loop does behind an escape.
pub after_escape :
    {B : Type 0} (P : Result B → Type 0) (src : Bytes) (r : Result (Bytes × (ℕ × Bytes)))
    (f : Bytes × (ℕ × Bytes) → Result B)
    → Follows src r
    → P fault
    → ((e : Error) → P (err e))
    → ((o : Bytes) (i k : ℕ) → 1 ≤ k → P (f (o, (i, drop k src))))
    → P (and_then r f)
after_escape P src (ok (o, (i, rest))) f (k, le, e) p q g = rw e (g o i k le)
after_escape P src (err e) f h p q g = q e
after_escape P src fault f h p q g = p
after_escape P src out_of_fuel f h p q g = absurd h
