-- ===== src/Strings/Windows.antt =====
-- src/impls/avx2/deser.rs: the loops over windows against a search that looks at one byte at a time.
use simd_toon_improved.Base.{
  ℕ, zero, suc, ◌+◌, ◌≤◌, ◌<◌, Bool, true, false, not, ◌&&◌, ◌||◌, List, [], ◌∷◌, Bytes, leb, ◌==◌,
  if◌then◌else◌, take, drop, length, Bool-cases, inl, inr, ◌≡◌, refl, ◌∙◌, ap, arith,
}
use simd_toon_improved.Strings.Parse.{
  equals_mask, wrapping_sub_one, meets, Found, quote, backslash, neither, look_bits, look,
}

abbrev farther : Found → Found
farther (quote d) = quote (suc d)
farther (backslash d) = backslash (suc d)
farther neither = neither

-- The first quotes or backslash, byte by byte.
unfoldable pub seek : Bytes → Found
seek [] = neither
seek (b ∷ src) =
    let rest = seek src in
    if b == b'"' then quote 0 else if b == b'\\' then backslash 0 else farther rest

-- No byte is both.
masks-apart : (v : Bytes) → meets (equals_mask b'\\' v) (equals_mask b'"' v) ≡ false
masks-apart [] = refl
masks-apart (b ∷ v) = ground (arith, masks-apart v)

look_bits_step :
    (x y : Bool) (bs q : List Bool)
    → x && y ≡ false
    → meets bs q ≡ false
    → look_bits (y ∷ bs) (x ∷ q)
      ≡ (if x then quote 0 else if y then backslash 0 else farther (look_bits bs q))
unfolding look_bits
look_bits_step true true bs q n h = cc
look_bits_step true false bs q n h = refl
look_bits_step false true bs q n h = rw h refl
look_bits_step false false bs q n h = elim (Bool-cases (meets (wrapping_sub_one bs) q)) [
  | inl y ↦ rw y refl
  | inr n ↦ elim (Bool-cases (meets (wrapping_sub_one q) bs)) [
    | inl y ↦ rw (n, y) refl
    | inr n' ↦ rw (n, n') refl
  ]
]

-- The masks of a window find what the search finds.
pub look-seek : (v : Bytes) → look v ≡ seek v
unfolding look seek look_bits
look-seek [] = refl
look-seek (b ∷ v) =
    look_bits_step (b == b'"') (b == b'\\') _ _ (ground arith) (masks-apart v)
    ∙ ap (λ f. if b == b'"' then quote 0 else if b == b'\\' then backslash 0 else farther f)
        (look-seek v)

-- `n` bytes farther on.
abbrev pub beyond : ℕ → Found → Found
beyond n (quote d) = quote (n + d)
beyond n (backslash d) = backslash (n + d)
beyond n neither = neither

-- A search in the first bytes, and behind them if it finds nothing there.
abbrev pub or_beyond : Found → ℕ → Found → Found
or_beyond (quote d) n f = quote d
or_beyond (backslash d) n f = backslash d
or_beyond neither n f = beyond n f

farther-or_beyond :
    (f : Found) (n : ℕ) (g : Found) → farther (or_beyond f n g) ≡ or_beyond (farther f) (suc n) g
farther-or_beyond (quote d) n g = refl
farther-or_beyond (backslash d) n g = refl
farther-or_beyond neither n (quote d) = ap quote (omega arith)
farther-or_beyond neither n (backslash d) = ap backslash (omega arith)
farther-or_beyond neither n neither = refl

or_beyond_zero : (f : Found) → f ≡ beyond 0 f
or_beyond_zero (quote d) = ap quote (omega arith)
or_beyond_zero (backslash d) = ap backslash (omega arith)
or_beyond_zero neither = refl

pub seek-take :
    (n : ℕ) (src : Bytes)
    → n ≤ length src
    → seek src ≡ or_beyond (seek (take n src)) n (seek (drop n src))
unfolding seek
seek-take zero src h = or_beyond_zero (seek src)
seek-take (suc n) [] h = absurd (omega arith)
seek-take (suc n) (b ∷ src) h = elim (Bool-cases (b == b'"')) [
  | inl y ↦ rw y refl
  | inr n' ↦ elim (Bool-cases (b == b'\\')) [
    | inl y ↦ rw (n', y) refl
    | inr n'' ↦
        rw (n', n'')
          (ap farther (seek-take n src (omega arith)) ∙ farther-or_beyond _ n (seek (drop n src)))
  ]
]

-- Where what is found lies.
abbrev pub IsBelow : ℕ → Found → Type 0
IsBelow n (quote d) = d < n
IsBelow n (backslash d) = d < n
IsBelow n neither = Unit

IsBelow-farther : (n : ℕ) (f : Found) → IsBelow n f → IsBelow (suc n) (farther f)
IsBelow-farther n (quote d) h = omega arith
IsBelow-farther n (backslash d) h = omega arith
IsBelow-farther n neither h = tt

pub seek-IsBelow : (src : Bytes) → IsBelow (length src) (seek src)
unfolding seek
seek-IsBelow [] = tt
seek-IsBelow (b ∷ src) = elim (Bool-cases (b == b'"')) [
  | inl y ↦ rw y (omega arith)
  | inr n ↦ elim (Bool-cases (b == b'\\')) [
    | inl y ↦ rw (n, y) (omega arith)
    | inr n' ↦ rw (n, n') (IsBelow-farther _ _ (seek-IsBelow src))
  ]
]

-- Behind each quotes and each backslash there are 31 bytes more, as the padding of the input has it.
unfoldable pub is_padded : Bytes → Bool
is_padded [] = true
is_padded (b ∷ src) = (not (b == b'"' || b == b'\\') || leb 31 (length src)) && is_padded src

pub is_padded-drop : (n : ℕ) (src : Bytes) → is_padded src ≡ true → is_padded (drop n src) ≡ true
unfolding is_padded
is_padded-drop zero src h = h
is_padded-drop (suc n) [] h = refl
is_padded-drop (suc n) (b ∷ src) h = is_padded-drop n src (ground arith)

-- In fewer than 32 bytes of padded text there is neither.
pub seek-short : (src : Bytes) → is_padded src ≡ true → length src < 32 → seek src ≡ neither
unfolding is_padded seek
seek-short [] h lt = refl
seek-short (b ∷ src) h lt = ground (arith, seek-short src)
