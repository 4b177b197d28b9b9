-- ===== src/Strings/Settled.antt =====
-- src/impls/avx2/deser.rs: the second loop over a string whose closing quotes are there.
use simd_toon_improved.Base.{
  ℕ, zero, suc, ◌+◌, ◌*◌, ◌/◌, ◌%◌, true, false, some, [], ◌∷◌, Bytes, get_elem?, drop, ◌==◌,
  Bool-cases, inl, inr, ◌≡◌, ◌≢◌, refl, sym, ◌∙◌, ap, arith,
}
use simd_toon_improved.Error.{Result, ok, err, fault, out_of_fuel}
use simd_toon_improved.Stage2.Machine.{and_then}
use simd_toon_improved.Strings.Chars.{byte_of, codepoint_to_utf8}
use simd_toon_improved.Strings.Escape.{escape_map, get_unicode_codepoint, handle_unicode_codepoint}
use simd_toon_improved.Strings.Parse.{Found, quote, backslash, neither, escape, unicode_escape}
use simd_toon_improved.Strings.Windows.{seek}
use simd_toon_improved.Strings.Loops.{decode, unescape, drop-add}
use simd_toon_improved.Strings.Closed.{is_closed, Finds, seek-Finds, Goes, units-Goes}

-- The source behind an escape is closed, or the escape is an error.
abbrev StaysClosed : Result (Bytes × (ℕ × Bytes)) → Type 0
StaysClosed (ok (o, (i, rest))) = is_closed false rest ≡ true
StaysClosed (err e) = Unit
StaysClosed fault = ⊥
StaysClosed out_of_fuel = ⊥

module _ (src : Bytes) (k e : ℕ) (s : Bytes) (at : drop (suc k) src ≡ e ∷ s) where
  behind_two : (n : ℕ) → drop (k + (2 + n)) src ≡ drop n s
  behind_two n =
      ap (λ j. drop j src) (omega arith) ∙ sym (drop-add (suc k) (suc n) src) ∙ ap (drop (suc n)) at

  rest_at :
      (taken n : ℕ)
      → taken ≡ 2 + n
      → is_closed false (drop n s) ≡ true
      → is_closed false (drop (k + taken) src) ≡ true
  rest_at taken n e c =
      ap (λ j. is_closed false (drop (k + j) src)) e ∙ ap (is_closed false) (behind_two n) ∙ c

  written-StaysClosed :
      (i taken : ℕ) (bs : Bytes)
      → is_closed false (drop (k + taken) src) ≡ true
      → StaysClosed (unicode_escape src i k (ok (bs, taken)))
  unfolding unicode_escape
  written-StaysClosed i taken [] c = tt
  written-StaysClosed i taken (b ∷ bs) c = c

  unicode-StaysClosed :
      (i : ℕ) (r : Result (ℕ × ℕ))
      → Goes s r
      → StaysClosed
          (unicode_escape src i k (and_then r λ (cp, taken). ok (codepoint_to_utf8 cp, taken)))
  unfolding unicode_escape
  unicode-StaysClosed i (ok (cp, taken)) (inl n) = rw n tt
  unicode-StaysClosed i (ok (cp, taken)) (inr (inl (e, c))) =
      written-StaysClosed i taken (codepoint_to_utf8 cp) (rest_at taken 4 e c)
  unicode-StaysClosed i (ok (cp, taken)) (inr (inr (e, c))) =
      written-StaysClosed i taken (codepoint_to_utf8 cp) (rest_at taken 10 e c)
  unicode-StaysClosed i (err e) g = tt
  unicode-StaysClosed i fault g = absurd g
  unicode-StaysClosed i out_of_fuel g = absurd g

  byte_there : get_elem? src (k + 1) ≡ some e
  byte_there = got (k + 1) src (ap (λ j. drop j src) one ∙ at)
    where
      one : k + 1 ≡ suc k
      one = omega arith

      got : (n : ℕ) (xs : Bytes) → drop n xs ≡ e ∷ s → get_elem? xs n ≡ some e
      got zero [] h = cc
      got zero (x ∷ xs) h = cc
      got (suc n) [] h = cc
      got (suc n) (x ∷ xs) h = got n xs h

  hex_there : drop 2 (drop k src) ≡ s
  hex_there = drop-add k 2 src ∙ behind_two 0

  rest_there : drop 6 (drop k src) ≡ drop 4 s
  rest_there = drop-add k 6 src ∙ behind_two 4

  escape-StaysClosed : (i : ℕ) → is_closed false s ≡ true → StaysClosed (escape src i k)
  unfolding escape handle_unicode_codepoint get_unicode_codepoint
  escape-StaysClosed i c = elim (Bool-cases (e == b'u')) [
    | inl y ↦
        rw (escape, byte_of, byte_there, y, hex_there, rest_there)
          (unicode-StaysClosed i _ (units-Goes s c))
    | inr f ↦ elim (Bool-cases (escape_map e == 0)) [
      | inl y ↦ rw (escape, byte_of, byte_there, f, y) tt
      | inr f' ↦ rw (escape, byte_of, byte_there, f, f') (rest_at 2 0 refl c)
    ]
  ]

starts :
    (s : Bytes)
    → is_closed true s ≡ true
    → (e : ℕ) × (rest : Bytes) × (s ≡ e ∷ rest) × (is_closed false rest ≡ true)
unfolding is_closed
starts [] h = cc
starts (e ∷ rest) h = (e, rest, refl, h)

then-ne-fault :
    (r : Result (Bytes × (ℕ × Bytes))) (f : Bytes × (ℕ × Bytes) → Result Bytes)
    → StaysClosed r
    → ((o : Bytes) (i : ℕ) (rest : Bytes) → is_closed false rest ≡ true → f (o, (i, rest)) ≢ fault)
    → and_then r f ≢ fault
then-ne-fault (ok (o, (i, rest))) f c h = h o i rest c
then-ne-fault (err e) f c h = λ e. cc
then-ne-fault fault f c h = absurd c
then-ne-fault out_of_fuel f c h = absurd c

window_escape :
    (src : Bytes) (d i : ℕ)
    → is_closed true (drop (suc d) src) ≡ true
    → StaysClosed (escape (drop (d / 32 * 32) src) i (d % 32))
window_escape src d i h =
    let (e, rest, at, c) = starts (drop (suc d) src) h in
    escape-StaysClosed (drop (d / 32 * 32) src) (d % 32) e rest (moved ∙ at) i c
  where
    whole : d / 32 * 32 + suc (d % 32) ≡ suc d
    whole = omega arith

    moved : drop (suc (d % 32)) (drop (d / 32 * 32) src) ≡ drop (suc d) src
    moved = drop-add (d / 32 * 32) (suc (d % 32)) src ∙ ap (λ j. drop j src) whole

decode-ne-fault :
    (fuel : ℕ) (src : Bytes) (i : ℕ) (dst : Bytes)
    → is_closed false src ≡ true
    → decode fuel src i dst ≢ fault
unfolding decode
decode-ne-fault zero src i dst h = λ e. cc
decode-ne-fault (suc fuel) src i dst h =
    found (seek src) refl (seek-Finds src h) (λ rest j dst c. decode-ne-fault fuel rest j dst c)
  where
    found :
        (f : Found)
        → seek src ≡ f
        → Finds src f
        → ((rest : Bytes) (j : ℕ) (dst : Bytes)
            → is_closed false rest ≡ true
            → decode fuel rest j dst ≢ fault)
        → decode (suc fuel) src i dst ≢ fault
    found (quote d) e k next = rw (decode, e) (λ e. cc)
    found (backslash d) e k next =
        rw (decode, e) (then-ne-fault _ _ (window_escape src d _ k.0) λ o j rest c. next rest j _ c)
    found neither e k next = absurd k

-- Text that is closed is read without a fault.
pub unescape-ne-fault : (src : Bytes) → is_closed false src ≡ true → unescape src ≢ fault
unfolding unescape
unescape-ne-fault src h = found (seek src) refl (seek-Finds src h)
  where
    more :
        (r : Result Bytes) (f : Bytes → Bytes) → r ≢ fault → and_then r (λ dst. ok (f dst)) ≢ fault
    more (ok dst) f h = λ e. cc
    more (err x) f h = λ e. cc
    more fault f h = absurd (h refl)
    more out_of_fuel f h = λ e. cc

    found : (f : Found) → seek src ≡ f → Finds src f → unescape src ≢ fault
    found (quote d) e k = rw (unescape, e) (λ e. cc)
    found (backslash d) e k = rw (unescape, e) (more _ _ (decode-ne-fault _ (drop d src) d [] k.1))
    found neither e k = absurd k
