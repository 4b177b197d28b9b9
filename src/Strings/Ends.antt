-- ===== src/Strings/Ends.antt =====
-- src/impls/avx2/deser.rs: that the loops end.
use simd_toon_improved.Base.{
  ℕ, zero, suc, ◌+◌, ◌-◌, ◌≤◌, ◌<◌, Bool, true, false, ◌&&◌, [], ◌++◌, Bytes, leb, leb→le, ◌==◌,
  if◌then◌else◌, take, drop, length, Bool-cases, inl, inr, ◌⊎◌, ◌≡◌, ◌≢◌, refl, arith,
}
use simd_toon_improved.Error.{Result, ok, err, fault, out_of_fuel}
use simd_toon_improved.Stage2.Machine.{and_then}
use simd_toon_improved.Strings.Parse.{
  Found, quote, backslash, neither, look, window, Start, closed, escapes, first_loop, second_loop,
  parse_str_quotes, parse_str,
}
use simd_toon_improved.Strings.Loops.{length-drop}
use simd_toon_improved.Views.Slices.{sub_slice}
use simd_toon_improved.Strings.Takes.{reads, escape-Follows, after_escape}

pub Found-cases :
    (f : Found) → ((d : ℕ) × (f ≡ quote d)) ⊎ (((d : ℕ) × (f ≡ backslash d)) ⊎ (f ≡ neither))
Found-cases (quote d) = inl (d, refl)
Found-cases (backslash d) = inr (inl (d, refl))
Found-cases neither = inr (inr refl)

-- A result that has not run out.
abbrev pub Ended : {A : Type 0} → Result A → Type 0
Ended out_of_fuel = ⊥
Ended _ = Unit

pub Ended-ne-out_of_fuel : {A : Type 0} (r : Result A) → Ended r → r ≢ out_of_fuel
Ended-ne-out_of_fuel (ok a) h = cc
Ended-ne-out_of_fuel (err e) h = cc
Ended-ne-out_of_fuel fault h = cc
Ended-ne-out_of_fuel out_of_fuel h = absurd h

second_loop-Ended :
    (fuel : ℕ) (src : Bytes) (src_i : ℕ) (dst : Bytes)
    → length src < fuel
    → Ended (second_loop fuel src src_i dst)
unfolding second_loop
second_loop-Ended zero src src_i dst lt = absurd (omega arith)
second_loop-Ended (suc fuel) src src_i dst lt = elim (Bool-cases (leb 32 (length src))) [
  | inr n ↦ rw (Ended, window, n) tt
  | inl y ↦ elim (Found-cases (look (take 32 src))) [
    | inl (d, e) ↦ rw (Ended, window, y, e) tt
    | inr (inl (d, e)) ↦
        rw (window, y, e)
          (after_escape Ended src _ _ (escape-Follows src src_i d) tt (λ x. tt)
            λ o i k le.
              second_loop-Ended fuel (drop k src) i _
                (omega (arith, length-drop k src, leb→le _ _ y)))
    | inr (inr e) ↦
        rw (window, y, e)
          (second_loop-Ended fuel (drop 32 src) _ _
            (omega (arith, length-drop 32 src, leb→le _ _ y)))
  ]
]

-- The source that the first loop leaves is no longer.
abbrev EndedWithin : ℕ → Result Start → Type 0
EndedWithin n (ok (escapes len rest)) = length rest ≤ n
EndedWithin n out_of_fuel = ⊥
EndedWithin n _ = Unit

EndedWithin-le : (m n : ℕ) (r : Result Start) → m ≤ n → EndedWithin m r → EndedWithin n r
EndedWithin-le m n (ok (escapes len rest)) le h = omega arith
EndedWithin-le m n (ok (closed len)) le h = tt
EndedWithin-le m n (err e) le h = tt
EndedWithin-le m n fault le h = tt
EndedWithin-le m n out_of_fuel le h = h

first_loop-EndedWithin :
    (fuel : ℕ) (src : Bytes) (len : ℕ)
    → length src < fuel
    → EndedWithin (length src) (first_loop fuel src len)
unfolding first_loop
first_loop-EndedWithin zero src len lt = absurd (omega arith)
first_loop-EndedWithin (suc fuel) src len lt = elim (Bool-cases (leb 32 (length src))) [
  | inr n ↦ rw (EndedWithin, window, n) tt
  | inl y ↦ elim (Found-cases (look (take 32 src))) [
    | inl (d, e) ↦ rw (EndedWithin, window, y, e) tt
    | inr (inl (d, e)) ↦ rw (EndedWithin, window, y, e) (omega (arith, length-drop d src))
    | inr (inr e) ↦
        rw (window, y, e)
          (EndedWithin-le (length (drop 32 src)) (length src) _ (omega (arith, length-drop 32 src))
            (first_loop-EndedWithin fuel (drop 32 src) _
              (omega (arith, length-drop 32 src, leb→le _ _ y))))
  ]
]

parse_str_quotes-Ended : (src : Bytes) → Ended (parse_str_quotes src)
unfolding parse_str_quotes
parse_str_quotes-Ended src =
    started (first_loop (suc (length src)) src 0)
      (first_loop-EndedWithin (suc (length src)) src 0 (omega arith))
  where
    copied : (r : Result Bytes) (f : Bytes → Bytes) → Ended r → Ended (and_then r λ dst. ok (f dst))
    copied (ok a) f h = tt
    copied (err e) f h = tt
    copied fault f h = tt
    copied out_of_fuel f h = h

    started :
        (r : Result Start)
        → EndedWithin (length src) r
        → Ended (
            and_then r λ start. elim start [
              | closed len ↦ ok (take len src)
              | escapes len rest ↦
                  and_then
                    (second_loop (suc (length src)) rest len [])
                    λ dst. ok (take len src ++ dst)
            ])
    started (ok (closed len)) h = tt
    started (ok (escapes len rest)) h =
        copied _ (λ dst. take len src ++ dst)
          (second_loop-Ended (suc (length src)) rest len [] (omega arith))
    started (err e) h = tt
    started fault h = tt
    started out_of_fuel h = h

-- parse_str ends on any input, padded or not: a round of a loop for each byte, and one more, are
-- enough.
pub parse_str-ne-out_of_fuel : (input : Bytes) (idx end : ℕ) → parse_str input idx end ≢ out_of_fuel
unfolding parse_str sub_slice
parse_str-ne-out_of_fuel input idx end = Ended-ne-out_of_fuel _ (
    reads Ended tt input idx _ λ c _. elim (Bool-cases (c == b'"')) [
      | inl y ↦ rw y (parse_str_quotes-Ended (drop (idx + 1) input))
      | inr n ↦ rw n (bare (leb idx end && leb end (length input)))
    ])
  where
    bare : (b : Bool) → Ended (if b then ok (take (end - idx) (drop idx input)) else fault)
    bare true = tt
    bare false = tt
