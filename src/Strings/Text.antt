-- ===== src/Strings/Text.antt =====
-- src/impls/avx2/deser.rs: `parse_str_quotes` as a whole.
use simd_toon_improved.Base.{
  ℕ, zero, suc, ◌+◌, ◌*◌, ◌/◌, ◌%◌, ◌≤◌, ◌<◌, true, [], ◌++◌, Bytes, append_assoc, leb→le, take,
  drop, length, ◌≡◌, refl, ◌∙◌, ap, arith,
}
use simd_toon_improved.Error.{Result, ok, err, fault, out_of_fuel}
use simd_toon_improved.Stage2.Machine.{and_then}
use simd_toon_improved.Strings.Parse.{
  Found, quote, backslash, neither, window, closed, escapes, second_loop, escape, parse_str_quotes,
}
use simd_toon_improved.Strings.Windows.{seek, beyond, is_padded, is_padded-drop}
use simd_toon_improved.Strings.Loops.{
  decode, unescape, rounds, short, quotes, escaped, nothing, first_loop-seek, take-take, take-add,
  drop-add, length-drop,
}
use simd_toon_improved.Strings.Takes.{Follows, escape-Follows}

-- What is done behind an escape may be replaced by what does the same there.
after_escape-cong :
    {B : Type 0} (src : Bytes) (r : Result (Bytes × (ℕ × Bytes)))
    (f g : Bytes × (ℕ × Bytes) → Result B)
    → Follows src r
    → ((o : Bytes) (i k : ℕ) → 1 ≤ k → f (o, (i, drop k src)) ≡ g (o, (i, drop k src)))
    → and_then r f ≡ and_then r g
after_escape-cong src (ok (o, (i, rest))) f g (k, le, e) h = rw e (h o i k le)
after_escape-cong src (err e) f g w h = refl
after_escape-cong src fault f g w h = refl
after_escape-cong src out_of_fuel f g w h = refl

-- A window farther on, as `decode` numbers them.
decode-beyond :
    (fuel : ℕ) (src : Bytes) (src_i : ℕ) (dst : Bytes)
    → seek src ≡ beyond 32 (seek (drop 32 src))
    → decode (suc fuel) (drop 32 src) (src_i + 32) (dst ++ take 32 src)
      ≡ decode (suc fuel) src src_i dst
unfolding decode
decode-beyond fuel src src_i dst e = rw (decode, e) (farther_on (seek (drop 32 src)))
  where
    text : (d : ℕ) → (dst ++ take 32 src) ++ take d (drop 32 src) ≡ dst ++ take (32 + d) src
    text d =
        append_assoc dst (take 32 src) (take d (drop 32 src))
        ∙ ap (λ t. dst ++ t) (take-add 32 d src)

    base : (d : ℕ) → (32 + d) / 32 * 32 ≡ 32 + d / 32 * 32
    base d = omega arith

    offset : (d : ℕ) → (32 + d) % 32 ≡ d % 32
    offset d = omega arith

    index : (d : ℕ) → src_i + 32 + d / 32 * 32 ≡ src_i + (32 + d / 32 * 32)
    index d = omega arith

    farther_on :
        (f : Found)
        → elim f [
          | quote d ↦ ok ((dst ++ take 32 src) ++ take d (drop 32 src))
          | backslash d ↦
              and_then
                (escape (drop (d / 32 * 32) (drop 32 src)) (src_i + 32 + d / 32 * 32) (d % 32))
                λ (o, (src_i, rest)).
                  decode fuel rest src_i (((dst ++ take 32 src) ++ take d (drop 32 src)) ++ o)
          | neither ↦ fault
        ]
          ≡ elim (beyond 32 f) [
            | quote d ↦ ok (dst ++ take d src)
            | backslash d ↦
                and_then
                  (escape (drop (d / 32 * 32) src) (src_i + d / 32 * 32) (d % 32))
                  λ (o, (src_i, rest)). decode fuel rest src_i ((dst ++ take d src) ++ o)
            | neither ↦ fault
          ]
    farther_on (quote d) = ap (λ t. ok t) (text d)
    farther_on (backslash d) =
        rw (text d, base d, offset d, index d, drop-add 32 (d / 32 * 32) src) refl
    farther_on neither = refl

second_loop-decode :
    (f g : ℕ) (src : Bytes) (src_i : ℕ) (dst : Bytes)
    → length src < f
    → length src < g
    → is_padded src ≡ true
    → second_loop f src src_i dst ≡ decode g src src_i dst
unfolding second_loop decode
second_loop-decode zero g src src_i dst lt lt' h = absurd (omega arith)
second_loop-decode (suc f) zero src src_i dst lt lt' h = absurd (omega arith)
second_loop-decode (suc f) (suc g) src src_i dst lt lt' h = elim (rounds src h) [
  | short e n ↦ rw (window, n, decode, e) refl
  | quotes d b l e y ↦ rw (window, y, l, decode, e, take-take d 32 src (omega arith)) refl
  | escaped d b l e y ↦
      rw
        (
          window,
          y,
          l,
          decode,
          e,
          take-take d 32 src (omega arith),
          no_base d b,
          d_self d b,
          index_self src_i,
        )
        (after_escape-cong src _ _ _ (escape-Follows src src_i d) λ o i k le.
          second_loop-decode f g (drop k src) i _ (omega (arith, length-drop k src, leb→le _ _ y))
            (omega (arith, length-drop k src, leb→le _ _ y)) (is_padded-drop k src h))
  | nothing l e y ↦
      rw (window, y, l)
        (second_loop-decode f (suc g) (drop 32 src) (src_i + 32) (dst ++ take 32 src)
            (omega (arith, length-drop 32 src, leb→le _ _ y)) (omega (arith, length-drop 32 src))
            (is_padded-drop 32 src h)
          ∙ decode-beyond g src src_i dst e)
]
  where
    no_base : (d : ℕ) → d < 32 → d / 32 * 32 ≡ 0
    no_base d b = omega arith

    d_self : (d : ℕ) → d < 32 → d % 32 ≡ d
    d_self d b = omega arith

    index_self : (i : ℕ) → i + 0 ≡ i
    index_self i = omega arith

-- On text with padding behind its quotes and backslashes, the two loops over windows read the text that
-- a search byte by byte reads from one escape to the next, with the same errors and their indexes.
pub parse_str_quotes-unescape :
    (src : Bytes) → is_padded src ≡ true → parse_str_quotes src ≡ unescape src
unfolding parse_str_quotes unescape
parse_str_quotes-unescape src h =
    rw (first_loop-seek (suc (length src)) src 0 (omega arith) h) (started (seek src))
  where
    self : (d : ℕ) → 0 + d ≡ d
    self d = omega arith

    started :
        (f : Found)
        → and_then
            (elim f [
              | quote d ↦ ok (closed (0 + d))
              | backslash d ↦ ok (escapes (0 + d) (drop d src))
              | neither ↦ fault
            ])
            (λ start. elim start [
              | closed len ↦ ok (take len src)
              | escapes len rest ↦
                  and_then
                    (second_loop (suc (length src)) rest len [])
                    λ dst. ok (take len src ++ dst)
            ])
          ≡ elim f [
            | quote d ↦ ok (take d src)
            | backslash d ↦
                and_then (decode (suc (length src)) (drop d src) d []) λ dst. ok (take d src ++ dst)
            | neither ↦ fault
          ]
    started (quote d) = rw (self d) refl
    started (backslash d) =
        rw
          (
            self d,
            second_loop-decode (suc (length src)) (suc (length src)) (drop d src) d []
                (omega (arith, length-drop d src)) (omega (arith, length-drop d src))
                (is_padded-drop d src h),
          )
          refl
    started neither = refl
