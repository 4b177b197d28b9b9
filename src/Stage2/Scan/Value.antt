-- ===== src/Stage2/Scan/Value.antt =====
-- src/stage2.rs: `get_value_end!`, the token from the cursor to the byte that stops it.
use simd_toon_improved.Base.{
  ℕ, ◌<◌, ◌≡◌, ◌⊎◌, inl, inr, refl, arith, Bool, true, false, Option, none, some, List, [], ◌∷◌,
  Bool-cases, get_elem?, get_elem?-lt, if◌then◌else◌, ◌==◌, leb, leb→le, leb→lt,
}
use simd_toon_improved.Error.{Result, ok, syntax}
use simd_toon_improved.Tape.{Node}
use simd_toon_improved.Stage2.Machine.{Env, Machine, and_then, byte_at, elem_or_fault, move}
use simd_toon_improved.Stage2.Triple.{Ensures, holds, panicked, fail-Ensures, bind-Ensures}
use simd_toon_improved.Stage2.Scan.{seek, get_value_end, trim_trailing_spaces}
use simd_toon_improved.Stage2.Scan.Trim.{IsTrimmedEnd, trim_trailing_spaces-IsTrimmedEnd}

-- The byte in hand is the one that the cursor is on.
abbrev pub IsAtCursor : Env → Machine → Type 0
IsAtCursor env m = get_elem? env.input2 m.idx ≡ some m.c

abbrev StopsAt : Env → (ℕ → Bool) → List Node → Machine → Type 0
StopsAt env stops tape m' = (stops m'.c ≡ true) × IsAtCursor env m' × (m'.tape ≡ tape)

by_elem :
    {A : Type 0} {Q : A → Machine → Type 0} (o : Option ℕ) (f : ℕ → Result (A × Machine))
    → ((b : ℕ) → o ≡ some b → Ensures Q (f b))
    → Ensures Q (and_then (elem_or_fault o) f)
by_elem none f h = panicked
by_elem (some b) f h = h b refl

by_byte :
    {A : Type 0} {Q : A → Machine → Type 0} (env : Env) (k : ℕ) (f : ℕ → Result (A × Machine))
    → ((b : ℕ) → get_elem? env.input2 k ≡ some b → Ensures Q (f b))
    → Ensures Q (and_then (byte_at env k) f)
unfolding byte_at
by_byte env k f h = by_elem (get_elem? env.input2 k) f h

-- The branch that is taken is known.
by_test :
    {A : Type 0} {Q : A → Machine → Type 0} (g : Bool) {r s : Result (A × Machine)}
    → (g ≡ true → Ensures Q r)
    → Ensures Q s
    → Ensures Q (if g then r else s)
by_test true h k = h refl
by_test false h k = k

seek-StopsAt :
    (env : Env) (stops : ℕ → Bool) (ks : List ℕ) (m : Machine)
    → IsAtCursor env m
    → Ensures (λ u. StopsAt env stops m.tape) (seek env stops ks m)
unfolding seek
seek-StopsAt env stops [] m at =
    by_test (stops m.c) (λ e. holds (e, at, refl)) (fail-Ensures syntax m)
seek-StopsAt env stops (k ∷ ks) m at =
    by_test (stops m.c) (λ e. holds (e, at, refl))
      (by_test (m.c == b'\n') (λ e. fail-Ensures syntax m)
        (by_byte env k _ λ b e. seek-StopsAt env stops ks (move m k b ks) e))

-- What `get_value_end` leaves: the cursor on a byte that stops the token, and the token's end.
abbrev pub Delimits : Env → (ℕ → Bool) → Machine → ℕ → Machine → Type 0
Delimits env stops m e m' =
    (stops m'.c ≡ true)
    × IsAtCursor env m'
    × (m'.tape ≡ m.tape)
    × ((m'.idx < m.idx) ⊎ IsTrimmedEnd env m.idx m'.idx e)

trim_trailing_spaces-back :
    (env : Env) (from to : ℕ) → to < from → trim_trailing_spaces env from to ≡ ok to
unfolding trim_trailing_spaces
trim_trailing_spaces-back env from to h = ground arith

trim-Delimits :
    (env : Env) (stops : ℕ → Bool) (m m' : Machine)
    → StopsAt env stops m.tape m'
    → Ensures
        (Delimits env stops m)
        (and_then (trim_trailing_spaces env m.idx m'.idx) λ e. ok (e, m'))
trim-Delimits env stops m m' (s, at, t) = elim (Bool-cases (leb m.idx m'.idx)) [
  | inl y ↦
      let (e, p, trimmed) =
        trim_trailing_spaces-IsTrimmedEnd env m.idx m'.idx (leb→le m.idx m'.idx y)
          (omega (arith, get_elem?-lt env.input2 m'.idx at)) in
      rw p (holds (s, at, t, inr trimmed))
  | inr n ↦
      let back : m'.idx < m.idx = leb→lt m.idx m'.idx n in
      rw (trim_trailing_spaces-back env m.idx m'.idx back) (holds (s, at, t, inl back))
]

-- From a cursor that is on its byte, `get_value_end` does not run out of fuel, and where it returns, the
-- cursor is on its byte again, which is one that stops the token, and the tape is as it was. The end
-- that it gives is that of the token without its trailing spaces, unless the cursor went back.
pub get_value_end-Delimits :
    (env : Env) (stops : ℕ → Bool) (m : Machine)
    → IsAtCursor env m
    → Ensures (Delimits env stops m) (get_value_end env stops m)
unfolding get_value_end
get_value_end-Delimits env stops m at =
    bind-Ensures _ (seek-StopsAt env stops m.rest m at) λ u m'. trim-Delimits env stops m m'
