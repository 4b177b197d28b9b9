-- ===== src/Strings/Loops.antt =====
-- src/impls/avx2/deser.rs: `parse_str_quotes` against a reading of the text from one escape to the
-- next.
use simd_toon_improved.Base.{
  ℕ, zero, suc, ◌+◌, ◌-◌, ◌*◌, ◌/◌, ◌%◌, ◌≤◌, ◌<◌, true, false, List, [], ◌∷◌, ◌++◌, Bytes, leb,
  leb→le, leb→lt, take, drop, length, Bool-cases, inl, inr, ◌≡◌, refl, ◌∙◌, ap, subst, arith,
}
use simd_toon_improved.Error.{Result, ok, fault, out_of_fuel}
use simd_toon_improved.Stage2.Machine.{and_then}
use simd_toon_improved.Strings.Parse.{
  Found, quote, backslash, neither, look, window, closed, escapes, first_loop, escape,
}
use simd_toon_improved.Strings.Windows.{
  seek, look-seek, beyond, or_beyond, seek-take, IsBelow, seek-IsBelow, is_padded, is_padded-drop,
  seek-short,
}

-- From one escape to the next. Where the window of an escape begins matters for the index of an error
-- only: 32 bytes at a time from `src_i` on.
unfoldable pub decode : ℕ → Bytes → ℕ → Bytes → Result Bytes
decode zero src src_i dst = out_of_fuel
decode (suc fuel) src src_i dst = elim (seek src) [
  | quote d ↦ ok (dst ++ take d src)
  | backslash d ↦
      and_then (escape (drop (d / 32 * 32) src) (src_i + d / 32 * 32) (d % 32))
        λ (o, (src_i, rest)). decode fuel rest src_i ((dst ++ take d src) ++ o)
  | neither ↦ fault
]

unfoldable pub unescape : Bytes → Result Bytes
unescape src = elim (seek src) [
  | quote d ↦ ok (take d src)
  | backslash d ↦
      and_then (decode (suc (length src)) (drop d src) d []) λ dst. ok (take d src ++ dst)
  | neither ↦ fault
]

suc-add : (m n : ℕ) → suc (m + n) ≡ suc m + n
suc-add m n = omega arith

module _ {A : Type 0} where
  pub take-take : (m n : ℕ) (xs : List A) → m ≤ n → take m (take n xs) ≡ take m xs
  take-take zero n xs h = refl
  take-take (suc m) zero xs h = absurd (omega arith)
  take-take (suc m) (suc n) [] h = refl
  take-take (suc m) (suc n) (x ∷ xs) h = cc (take-take m n xs (omega arith))

  pub take-add : (m n : ℕ) (xs : List A) → take m xs ++ take n (drop m xs) ≡ take (m + n) xs
  take-add zero n xs = ap (λ k. take k xs) (omega arith)
  take-add (suc m) n (x ∷ xs) =
      ap (λ t. x ∷ t) (take-add m n xs) ∙ ap (λ k. take k (x ∷ xs)) (suc-add m n)
  take-add (suc m) zero [] = ap (λ k. take k []) (suc-add m 0)
  take-add (suc m) (suc n) [] = ap (λ k. take k []) (suc-add m (suc n))

  pub drop-add : (m n : ℕ) (xs : List A) → drop n (drop m xs) ≡ drop (m + n) xs
  drop-add zero n xs = ap (λ k. drop k xs) (omega arith)
  drop-add (suc m) n (x ∷ xs) = drop-add m n xs ∙ ap (λ k. drop k (x ∷ xs)) (suc-add m n)
  drop-add (suc m) zero [] = ap (λ k. drop k []) (suc-add m 0)
  drop-add (suc m) (suc n) [] = ap (λ k. drop k []) (suc-add m (suc n))

  length-take : (n : ℕ) (xs : List A) → n ≤ length xs → length (take n xs) ≡ n
  length-take zero xs h = refl
  length-take (suc n) [] h = absurd (omega arith)
  length-take (suc n) (x ∷ xs) h = omega (arith, length-take n xs (omega arith))

  pub length-drop : (n : ℕ) (xs : List A) → length (drop n xs) ≡ length xs - n
  length-drop zero xs = omega arith
  length-drop (suc n) [] = omega arith
  length-drop (suc n) (x ∷ xs) = omega (arith, length-drop n xs)

-- The cases of a round of a loop: too little is left, or a window has what the search has.
pub data Round (src : Bytes) : Type 0 where
  short : seek src ≡ neither → leb 32 (length src) ≡ false → Round src
  quotes :
      (d : ℕ)
      → d < 32
      → look (take 32 src) ≡ quote d
      → seek src ≡ quote d
      → leb 32 (length src) ≡ true
      → Round src
  escaped :
      (d : ℕ)
      → d < 32
      → look (take 32 src) ≡ backslash d
      → seek src ≡ backslash d
      → leb 32 (length src) ≡ true
      → Round src
  nothing :
      look (take 32 src) ≡ neither
      → seek src ≡ beyond 32 (seek (drop 32 src))
      → leb 32 (length src) ≡ true
      → Round src

round_of :
    (src : Bytes) (f : Found) → 32 ≤ length src → seek (take 32 src) ≡ f → IsBelow 32 f → Round src
round_of src (quote d) h e lt =
    quotes d lt (look-seek _ ∙ e) (rw (seek-take 32 src h, e) refl) (ground arith)
round_of src (backslash d) h e lt =
    escaped d lt (look-seek _ ∙ e) (rw (seek-take 32 src h, e) refl) (ground arith)
round_of src neither h e lt =
    nothing (look-seek _ ∙ e) (seek-take 32 src h ∙ ap (λ f. or_beyond f 32 (seek (drop 32 src))) e)
      (ground arith)

pub rounds : (src : Bytes) → is_padded src ≡ true → Round src
rounds src h = elim (Bool-cases (leb 32 (length src))) [
  | inl y ↦ round_of src _ (leb→le _ _ y) refl (
      subst (λ k. IsBelow k (seek (take 32 src))) (length-take 32 src (leb→le _ _ y))
        (seek-IsBelow (take 32 src)))
  | inr n ↦ short (seek-short src h (leb→lt _ _ n)) n
]

pub first_loop-seek :
    (fuel : ℕ) (src : Bytes) (len : ℕ)
    → length src < fuel
    → is_padded src ≡ true
    → first_loop fuel src len ≡ elim (seek src) [
      | quote d ↦ ok (closed (len + d))
      | backslash d ↦ ok (escapes (len + d) (drop d src))
      | neither ↦ fault
    ]
unfolding first_loop
first_loop-seek zero src len lt h = absurd (omega arith)
first_loop-seek (suc fuel) src len lt h = elim (rounds src h) [
  | short e n ↦ rw (window, n, e) refl
  | quotes d b l e y ↦ rw (window, y, l, e) refl
  | escaped d b l e y ↦ rw (window, y, l, e) refl
  | nothing l e y ↦
      rw
        (
          window,
          y,
          l,
          e,
          first_loop-seek fuel (drop 32 src) (len + 32)
              (omega (arith, length-drop 32 src, leb→le _ _ y)) (is_padded-drop 32 src h),
        )
        (farther_on (seek (drop 32 src)))
]
  where
    farther_on :
        (f : Found)
        → elim f [
          | quote d ↦ ok (closed (len + 32 + d))
          | backslash d ↦ ok (escapes (len + 32 + d) (drop d (drop 32 src)))
          | neither ↦ fault
        ]
          ≡ elim (beyond 32 f) [
            | quote d ↦ ok (closed (len + d))
            | backslash d ↦ ok (escapes (len + d) (drop d src))
            | neither ↦ fault
          ]
    farther_on (quote d) = ap (λ k. ok (closed k)) (omega arith)
    farther_on (backslash d) =
        rw (drop-add 32 d src) (ap (λ k. ok (escapes k (drop (32 + d) src))) (omega arith))
    farther_on neither = refl
