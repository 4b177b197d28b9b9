-- ===== src/Views/Slices.antt =====
-- What the views of src/value/tape/ use of slices: reading, sub-slices and `split_at`.
use simd_toon_improved.Base.{
  ℕ, zero, suc, ◌+◌, ◌-◌, ◌≤◌, true, ◌&&◌, Option, none, some, List, [], ◌∷◌, ◌++◌, leb,
  if◌then◌else◌, length, get_elem?, take, drop, length-append, ◌≡◌, refl, arith,
}
use simd_toon_improved.Error.{Result, ok, fault}

abbrev pub first {ℓ} : {A : Type ℓ} → List A → Option A
first [] = none
first (x ∷ xs) = some x

-- `e?` where the function returns an `Option`, and may panic behind it.
abbrev pub or_none : {A B : Type 0} → Option A → (A → Result (Option B)) → Result (Option B)
or_none none f = ok none
or_none (some a) f = f a

-- `&v[start..stop]`, which panics out of bounds.
unfoldable pub sub_slice : {A : Type 0} → List A → ℕ → ℕ → Result (List A)
sub_slice v start stop =
    if leb start stop && leb stop (length v) then ok (take (stop - start) (drop start v)) else fault

-- `v.split_at(mid)`, which panics behind the end.
unfoldable pub split_at : {A : Type 0} → List A → ℕ → Result (List A × List A)
split_at v mid = if leb mid (length v) then ok (take mid v, drop mid v) else fault

pub leb-add : (m n : ℕ) → leb m (m + n) ≡ true
leb-add m n = ground arith

module _ {A : Type 0} where
  pub take-append : (xs ys : List A) → take (length xs) (xs ++ ys) ≡ xs
  take-append [] ys = refl
  take-append (x ∷ xs) ys = cc (take-append xs ys)

  pub drop-append : (xs ys : List A) → drop (length xs) (xs ++ ys) ≡ ys
  drop-append [] ys = refl
  drop-append (x ∷ xs) ys = drop-append xs ys

  pub get_elem?-append : (xs ys : List A) → get_elem? (xs ++ ys) (length xs) ≡ first ys
  get_elem?-append [] [] = refl
  get_elem?-append [] (y ∷ ys) = refl
  get_elem?-append (x ∷ xs) ys = get_elem?-append xs ys

  -- The elements between two prefixes.
  pub sub_slice-append :
      (xs ys zs : List A) → sub_slice (xs ++ (ys ++ zs)) (length xs) (length xs + length ys) ≡ ok ys
  unfolding sub_slice
  sub_slice-append xs ys zs =
      rw
        (
          leb-add (length xs) (length ys),
          within,
          to (length xs) (length ys),
          drop-append xs (ys ++ zs),
          take-append ys zs,
        )
        refl
    where
      within : leb (length xs + length ys) (length (xs ++ (ys ++ zs))) ≡ true
      within = ground (arith, length-append xs (ys ++ zs), length-append ys zs)

      to : (m n : ℕ) → m + n - m ≡ n
      to m n = omega arith

  pub split_at-append : (xs ys : List A) → split_at (xs ++ ys) (length xs) ≡ ok (xs, ys)
  unfolding split_at
  split_at-append xs ys = rw (within, take-append xs ys, drop-append xs ys) refl
    where
      within : leb (length xs) (length (xs ++ ys)) ≡ true
      within = ground (arith, length-append xs ys)

  -- The elements from a prefix on, to an end within the next stretch.
  take-within : (c : ℕ) (ys zs : List A) → c ≤ length ys → take c (ys ++ zs) ≡ take c ys
  take-within zero ys zs h = refl
  take-within (suc c) [] zs h = absurd (omega arith)
  take-within (suc c) (y ∷ ys) zs h = cc (take-within c ys zs (omega arith))

  pub sub_slice-within :
      (xs ys zs : List A) (c : ℕ)
      → c ≤ length ys
      → sub_slice (xs ++ (ys ++ zs)) (length xs) (length xs + c) ≡ ok (take c ys)
  unfolding sub_slice
  sub_slice-within xs ys zs c h =
      rw
        (
          leb-add (length xs) c,
          within,
          to (length xs) c,
          drop-append xs (ys ++ zs),
          take-within c ys zs h,
        )
        refl
    where
      within : leb (length xs + c) (length (xs ++ (ys ++ zs))) ≡ true
      within = ground (arith, length-append xs (ys ++ zs), length-append ys zs)

      to : (m n : ℕ) → m + n - m ≡ n
      to m n = omega arith
