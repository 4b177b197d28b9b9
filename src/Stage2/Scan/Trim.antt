-- ===== src/Stage2/Scan/Trim.antt =====
-- src/stage2.rs: `trim_trailing_spaces!`, which finds the end of a token.
use simd_toon_improved.Base.{
  ℕ, zero, suc, ◌+◌, ◌-◌, ◌≤◌, ◌<◌, ◌≡◌, ◌⊎◌, inl, inr, refl, sym, arith, Bool, true, false, some,
  length, get_elem?, ltb, Bool-cases, ◌==◌, Bytes, subst, ap, if◌then◌else◌, ltb, List, [], ◌∷◌,
}
use simd_toon_improved.Error.{Result, ok}
use simd_toon_improved.Stage2.Machine.{Env, byte_at, elem_or_fault}
use simd_toon_improved.Stage2.Scan.{is_trimmed, trim_loop, trim_trailing_spaces}

-- The bytes of the buffer from `e` to `hard_end` are spaces and carriage returns, and the one before
-- `e`, unless that is the start of the token, is neither.
pub record IsTrimmedEnd (env : Env) (from hard_end e : ℕ) : Type 0 where
  pub least : from ≤ e
  pub most : e ≤ hard_end
  pub blank :
      (k : ℕ) {b : ℕ} → e ≤ k → k < hard_end → get_elem? env.input2 k ≡ some b → is_trimmed b ≡ true
  pub kept :
      (e ≡ from) ⊎ ((b : ℕ) × (get_elem? env.input2 (e - 1) ≡ some b) × (is_trimmed b ≡ false))

get_elem?-some :
    {A : Type 0} (xs : List A) (i : ℕ) → i < length xs → (x : A) × (get_elem? xs i ≡ some x)
get_elem?-some (x ∷ xs) zero h = (x, refl)
get_elem?-some (x ∷ xs) (suc i) h = get_elem?-some xs i (omega arith)
get_elem?-some [] i h = absurd (omega arith)

same_byte :
    (xs : Bytes) (j k : ℕ) {b b' : ℕ}
    → (k == j) ≡ true
    → get_elem? xs j ≡ some b
    → get_elem? xs k ≡ some b'
    → is_trimmed b ≡ true
    → is_trimmed b' ≡ true
same_byte xs j k {b} {b'} same at at' t =
    let e : k ≡ j = ground arith in let q : b ≡ b' = cc in subst (λ x. is_trimmed x ≡ true) q t

-- One more byte behind the token that is not part of it.
wider :
    (env : Env) (from n e : ℕ) {b : ℕ}
    → get_elem? env.input2 (from + n) ≡ some b
    → is_trimmed b ≡ true
    → IsTrimmedEnd env from (from + n) e
    → IsTrimmedEnd env from (from + suc n) e
wider env from n e at t h = record {
  least = h.least;
  most = omega (arith, h.most);
  blank = λ k low high at'. elim (Bool-cases (k == from + n)) [
    | inl y ↦ same_byte env.input2 (from + n) k y at at' t
    | inr n' ↦ h.blank k low (ground arith) at'
  ];
  kept = h.kept;
}

abbrev Ends : Env → ℕ → ℕ → Result ℕ → Type 0
Ends env from hard_end r = (e : ℕ) × (r ≡ ok e) × IsTrimmedEnd env from hard_end e

byte_at-some : (env : Env) (k : ℕ) {b : ℕ} → get_elem? env.input2 k ≡ some b → byte_at env k ≡ ok b
unfolding byte_at
byte_at-some env k h = ap elem_or_fault h

trim_loop-zero : (env : Env) (from : ℕ) → trim_loop env from 0 ≡ ok from
unfolding trim_loop
trim_loop-zero env from = refl

trim_loop-byte :
    (env : Env) (from n b : ℕ)
    → get_elem? env.input2 (from + n) ≡ some b
    → trim_loop env from (suc n)
      ≡ (if is_trimmed b then trim_loop env from n else ok (from + suc n))
unfolding trim_loop
trim_loop-byte env from n b at = ground (arith, byte_at-some env (from + n) at)

no_spare : (env : Env) (from : ℕ) → IsTrimmedEnd env from (from + 0) from
no_spare env from = record {
  least = omega arith;
  most = omega arith;
  blank = λ k low high at. absurd (omega arith);
  kept = inl refl;
}

kept_byte :
    (env : Env) (from n : ℕ) {b : ℕ}
    → get_elem? env.input2 (from + n) ≡ some b
    → is_trimmed b ≡ false
    → IsTrimmedEnd env from (from + suc n) (from + suc n)
kept_byte env from n {b} at f = record {
  least = omega arith;
  most = omega arith;
  blank = λ k low high at. absurd (omega arith);
  kept = inr (b, subst (λ k. get_elem? env.input2 k ≡ some b) (omega arith) at, f);
}

by_byte :
    (env : Env) (from n b : ℕ) (g : Bool)
    → get_elem? env.input2 (from + n) ≡ some b
    → is_trimmed b ≡ g
    → Ends env from (from + n) (trim_loop env from n)
    → Ends env from (from + suc n) (if g then trim_loop env from n else ok (from + suc n))
by_byte env from n b true at t (e, p, h) = (e, p, wider env from n e at t h)
by_byte env from n b false at f h = (from + suc n, refl, kept_byte env from n at f)

trim_loop-Ends :
    (env : Env) (from n : ℕ)
    → from + n ≤ length env.input2
    → Ends env from (from + n) (trim_loop env from n)
trim_loop-Ends env from zero h = (from, trim_loop-zero env from, no_spare env from)
trim_loop-Ends env from (suc n) h =
    let (b, at) = get_elem?-some env.input2 (from + n) (omega arith) in
    subst (Ends env from (from + suc n)) (sym (trim_loop-byte env from n b at))
      (by_byte env from n b (is_trimmed b) at refl (trim_loop-Ends env from n (omega arith)))

by_length :
    (env : Env) (from hard_end : ℕ) (g : Bool)
    → ltb from hard_end ≡ g
    → from ≤ hard_end
    → hard_end ≤ length env.input2
    → Ends env from hard_end (if g then trim_loop env from (hard_end - from) else ok hard_end)
by_length env from hard_end true e h k =
    subst (λ x. Ends env from x (trim_loop env from (hard_end - from))) (omega arith)
      (trim_loop-Ends env from (hard_end - from) (omega arith))
by_length env from hard_end false e h k = (
  hard_end,
  refl,
  record {
    least = h;
    most = omega arith;
    blank = λ k low high at. absurd (omega arith);
    kept = inl (ground arith);
  },
)

-- Where the token lies in the buffer, `trim_trailing_spaces` succeeds, with the end of the token:
-- between the token's start and the given end, only spaces and carriage returns are behind it, and the
-- byte before it, unless it is the start, is neither of these.
pub trim_trailing_spaces-IsTrimmedEnd :
    (env : Env) (from hard_end : ℕ)
    → from ≤ hard_end
    → hard_end ≤ length env.input2
    → (e : ℕ) × (trim_trailing_spaces env from hard_end ≡ ok e) × IsTrimmedEnd env from hard_end e
unfolding trim_trailing_spaces
trim_trailing_spaces-IsTrimmedEnd env from hard_end h k =
    by_length env from hard_end (ltb from hard_end) refl h k
