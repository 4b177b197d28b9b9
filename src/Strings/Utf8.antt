-- ===== src/Strings/Utf8.antt =====
-- src/charutils.rs: `codepoint_to_utf8` against a decoder.
use simd_toon_improved.Base.{
  ℕ, ◌+◌, ◌-◌, ◌*◌, ◌/◌, ◌%◌, ◌≤◌, ◌<◌, inl, inr, Bool, true, false, ◌&&◌, not, ◌⊎◌, Option, none,
  some, [], ◌∷◌, ◌++◌, Bytes, leb, leb→le, leb→lt, Bool-cases, if◌then◌else◌, ◌≡◌, ◌∙◌, ap, subst,
  arith,
}
use simd_toon_improved.Strings.Chars.{codepoint_to_utf8}

-- The code point at the start of a text, by the form that UTF-8 (RFC 3629) gives it, and what is
-- behind it. No form is longer than need be, and the surrogates have none.
unfoldable pub is_continuation : ℕ → Bool
is_continuation b = leb 128 b && leb b 191

-- The six digits of a byte that goes on.
abbrev low : ℕ → ℕ
low b = b - 128

abbrev accept : Bool → ℕ → Bytes → Option (ℕ × Bytes)
accept true cp rest = some (cp, rest)
accept false cp rest = none

unfoldable pub decode_two : ℕ → Bytes → Option (ℕ × Bytes)
decode_two a (b ∷ rest) =
    let cp = (a - 192) * 64 + low b in accept (is_continuation b && leb 0x80 cp) cp rest
decode_two a rest = none

unfoldable pub decode_three : ℕ → Bytes → Option (ℕ × Bytes)
decode_three a (b ∷ c ∷ rest) =
    let cp = (a - 224) * 4096 + low b * 64 + low c in
    accept
      (is_continuation b
        && is_continuation c
        && leb 0x800 cp
        && not (leb 0xD800 cp && leb cp 0xDFFF))
      cp rest
decode_three a rest = none

unfoldable pub decode_four : ℕ → Bytes → Option (ℕ × Bytes)
decode_four a (b ∷ c ∷ d ∷ rest) =
    let cp = (a - 240) * 262144 + low b * 4096 + low c * 64 + low d in
    accept
      (is_continuation b
        && is_continuation c
        && is_continuation d
        && leb 0x10000 cp
        && leb cp 0x10FFFF)
      cp rest
decode_four a rest = none

unfoldable pub decode_utf8 : Bytes → Option (ℕ × Bytes)
decode_utf8 [] = none
decode_utf8 (a ∷ rest) =
    if leb a 127
    then some (a, rest)
    else if leb 192 a && leb a 223
    then decode_two a rest
    else if leb 224 a && leb a 239
    then decode_three a rest
    else if leb 240 a && leb a 247
    then decode_four a rest
    else none

-- The code points that UTF-8 writes: up to 0x10FFFF, without the surrogates.
abbrev pub IsScalar : ℕ → Type 0
IsScalar cp = (cp < 0xD800) ⊎ ((0xDFFF < cp) × (cp ≤ 0x10FFFF))

module _ (x y z w : ℕ) (rest : Bytes) (fy : y < 64) (fz : z < 64) (fw : w < 64) where
  form_two : 2 ≤ x → x < 32 → decode_utf8 ((192 + x) ∷ (128 + y) ∷ rest) ≡ some (x * 64 + y, rest)
  unfolding decode_utf8 decode_two is_continuation
  form_two lo hi = ground arith

  form_three :
      x < 16
      → 0x800 ≤ x * 4096 + y * 64 + z
      → IsScalar (x * 4096 + y * 64 + z)
      → decode_utf8 ((224 + x) ∷ (128 + y) ∷ (128 + z) ∷ rest) ≡ some (x * 4096 + y * 64 + z, rest)
  unfolding decode_utf8 decode_three is_continuation
  form_three hi lo s = ground arith

  form_four :
      x < 8
      → 0x10000 ≤ x * 262144 + y * 4096 + z * 64 + w
      → x * 262144 + y * 4096 + z * 64 + w ≤ 0x10FFFF
      → decode_utf8 ((240 + x) ∷ (128 + y) ∷ (128 + z) ∷ (128 + w) ∷ rest)
        ≡ some (x * 262144 + y * 4096 + z * 64 + w, rest)
  unfolding decode_utf8 decode_four is_continuation
  form_four hi lo le = ground arith

-- The bytes of each form, as digits and a lead.
codepoint_to_utf8-two :
    (cp : ℕ)
    → 0x7F < cp
    → cp ≤ 0x7FF
    → codepoint_to_utf8 cp ≡ (192 + cp / 64) ∷ (128 + cp % 64) ∷ []
unfolding codepoint_to_utf8
codepoint_to_utf8-two cp lo hi = ground arith

codepoint_to_utf8-three :
    (cp : ℕ)
    → 0x7FF < cp
    → cp ≤ 0xFFFF
    → codepoint_to_utf8 cp ≡ (224 + cp / 4096) ∷ (128 + cp / 64 % 64) ∷ (128 + cp % 64) ∷ []
unfolding codepoint_to_utf8
codepoint_to_utf8-three cp lo hi = ground arith

codepoint_to_utf8-four :
    (cp : ℕ)
    → 0xFFFF < cp
    → cp ≤ 0x10FFFF
    → codepoint_to_utf8 cp
      ≡ (240 + cp / 262144) ∷ (128 + cp / 4096 % 64) ∷ (128 + cp / 64 % 64) ∷ (128 + cp % 64) ∷ []
unfolding codepoint_to_utf8
codepoint_to_utf8-four cp lo hi = ground arith

codepoint_to_utf8-one : (cp : ℕ) → cp ≤ 0x7F → codepoint_to_utf8 cp ≡ cp ∷ []
unfolding codepoint_to_utf8
codepoint_to_utf8-one cp h = ground arith

form_one : (cp : ℕ) (rest : Bytes) → cp ≤ 0x7F → decode_utf8 (cp ∷ rest) ≡ some (cp, rest)
unfolding decode_utf8
form_one cp rest h = ground arith

to_some :
    (cp cp' : ℕ) (rest : Bytes)
    → cp ≡ cp'
    → ◌≡◌ {A = Option (ℕ × Bytes)} (some (cp, rest)) (some (cp', rest))
to_some cp cp' rest e = ap (λ c. some (c, rest)) e

-- Each code point up to 0x10FFFF that is no surrogate is written so that a decoder of UTF-8, which takes
-- no surrogates and no form longer than need be, reads it back, and reads no more than what is written.
pub decode_utf8-codepoint_to_utf8 :
    (cp : ℕ) (rest : Bytes)
    → IsScalar cp
    → decode_utf8 (codepoint_to_utf8 cp ++ rest) ≡ some (cp, rest)
decode_utf8-codepoint_to_utf8 cp rest h = elim (Bool-cases (leb cp 0x7F)) [
  | inl y ↦ rw (codepoint_to_utf8-one cp (leb→le _ _ y)) (form_one cp rest (leb→le _ _ y))
  | inr n ↦ elim (Bool-cases (leb cp 0x7FF)) [
    | inl y ↦ rw (codepoint_to_utf8-two cp (leb→lt _ _ n) (leb→le _ _ y)) (
        form_two (cp / 64) (cp % 64) 0 0 rest (omega arith) (omega arith) (omega arith)
          (ground arith) (ground arith)
        ∙ to_some _ _ rest (omega arith))
    | inr n' ↦ elim (Bool-cases (leb cp 0xFFFF)) [
      | inl y ↦ rw (codepoint_to_utf8-three cp (leb→lt _ _ n') (leb→le _ _ y)) (
          form_three (cp / 4096) (cp / 64 % 64) (cp % 64) 0 rest (omega arith) (omega arith)
            (omega arith) (ground arith) (ground arith) (whole h)
          ∙ to_some _ _ rest (omega arith))
      | inr n'' ↦ rw (codepoint_to_utf8-four cp (leb→lt _ _ n'') (largest h)) (
          form_four (cp / 262144) (cp / 4096 % 64) (cp / 64 % 64) (cp % 64) rest (omega arith)
            (omega arith) (omega arith) (ground arith) (ground arith) (ground arith)
          ∙ to_some _ _ rest (omega arith))
    ]
  ]
]
  where
    largest : IsScalar cp → cp ≤ 0x10FFFF
    largest (inl l) = omega arith
    largest (inr (l, u)) = u

    whole : IsScalar cp → IsScalar (cp / 4096 * 4096 + cp / 64 % 64 * 64 + cp % 64)
    whole s = subst IsScalar (omega arith) s
