-- ===== src/Stage2/Scan.antt =====
-- src/stage2.rs: the macros of `build_tape` that read tokens, values and line ends.
pub mod Trim
pub mod Value
pub mod Number
use simd_toon_improved.Base.{
  ℕ, zero, suc, ◌+◌, ◌-◌, ◌*◌, ◌^◌, Bool, true, false, not, ◌&&◌, ◌||◌, Option, none, some, List,
  [], ◌∷◌, leb, ltb, ◌==◌, if◌then◌else◌, Bytes, length, get_elem?, equal,
}
use simd_toon_improved.Error.{syntax, Result, ok, err, fault, out_of_fuel}
use simd_toon_improved.Tape.{Node, StaticNode}
use simd_toon_improved.Stage2.Machine.{
  Env, Machine, M, and_then, ◌>>=◌, ◌>>◌, pure, lift, modify, gets, reading, panic, exhausted, fail,
  checked_sub, byte_at, slice, move, update_char, insert_res, insert_str, curr_indent,
}

abbrev pub is_trimmed : ℕ → Bool
is_trimmed b = b == b' ' || b == b'\r'

-- The `while` loop, `n` bytes past the start of the token.
unfoldable pub trim_loop : Env → ℕ → ℕ → Result ℕ
trim_loop env from zero = ok from
trim_loop env from (suc n) =
    and_then (byte_at env (from + n))
      λ b. elim (is_trimmed b) [ true ↦ trim_loop env from n | false ↦ ok (from + suc n) ]

unfoldable pub trim_trailing_spaces : Env → ℕ → ℕ → Result ℕ
trim_trailing_spaces env from hard_end =
    if ltb from hard_end then trim_loop env from (hard_end - from) else ok hard_end

abbrev pub starts_number : ℕ → Bool
starts_number first = leb b'0' first && leb first b'9' || first == b'-'

-- `Err` means that the token is no number, which makes it a string.
abbrev pub insert_number : Env → ℕ → ℕ → Result StaticNode → M (Unit {0})
insert_number env from to (ok number) = insert_res (Node.static number)
insert_number env from to (err e) = insert_str env from to
insert_number env from to fault = panic
insert_number env from to out_of_fuel = exhausted

unfoldable pub insert_word : Env → ℕ → ℕ → Bytes → M (Unit {0})
insert_word env from to word =
    if equal word (b't' ∷ b'r' ∷ b'u' ∷ b'e' ∷ [])
    then insert_res (Node.static (StaticNode.bool true))
    else if equal word (b'f' ∷ b'a' ∷ b'l' ∷ b's' ∷ b'e' ∷ [])
    then insert_res (Node.static (StaticNode.bool false))
    else if equal word (b'n' ∷ b'u' ∷ b'l' ∷ b'l' ∷ [])
    then insert_res (Node.static StaticNode.null)
    else insert_str env from to

unfoldable pub insert_inferred_value : Env → ℕ → ℕ → M (Unit {0})
unfolding insert_word
insert_inferred_value env from to = do
  first ← lift (byte_at env from)
  if starts_number first
      then insert_number env from to (env.try_parse_number from to (first == b'-'))
      else (lift (slice env from to) >>= insert_word env from to)

-- The loop of `get_value_end!`: forward over the structural indexes until `stops` holds of the byte.
-- Every call of the macro passes `ErrorType::Syntax`.
unfoldable pub seek : Env → (ℕ → Bool) → List ℕ → M (Unit {0})
seek env stops [] m = if stops m.c then ok (tt, m) else fail syntax m
seek env stops (k ∷ ks) m =
    if stops m.c
    then ok (tt, m)
    else if m.c == b'\n'
    then fail syntax m
    else and_then (byte_at env k) λ b. seek env stops ks (move m k b ks)

unfoldable pub get_value_end : Env → (ℕ → Bool) → M ℕ
get_value_end env stops m =
    and_then (seek env stops m.rest m)
      λ (u, m'). and_then (trim_trailing_spaces env m.idx m'.idx) λ e. ok (e, m')

pub data EolState : Type 0 where
  sibling close_scope nested : EolState

unfoldable pub eol_state_from_ws : Env → ℕ → M EolState
eol_state_from_ws env actual_ws = reading λ m.
    if actual_ws == curr_indent m
    then pure sibling
    else if ltb actual_ws (curr_indent m)
    then pure close_scope
    else if actual_ws == curr_indent m + env.indent_size
    then pure nested
    else fail syntax

-- The loop over consecutive newlines: `old_idx` and `consecutive_newlines_detected` afterwards.
unfoldable pub skip_blank : Env → List ℕ → ℕ → Bool → M (ℕ × Bool)
skip_blank env [] old_idx consecutive m =
    if m.c == b'\n' then ok ((m.idx, true), m) else ok ((old_idx, consecutive), m)
skip_blank env (k ∷ ks) old_idx consecutive m =
    if m.c == b'\n'
    then and_then (byte_at env k) (λ b. skip_blank env ks m.idx true (move m k b ks))
    else ok ((old_idx, consecutive), m)

-- `pending_counts.first()`
abbrev pub bottom : List (ℕ × ℕ) → Option (ℕ × ℕ)
bottom [] = none
bottom (p ∷ []) = some p
bottom (p ∷ q ∷ ps) = bottom (q ∷ ps)

abbrev pub at_least_elem : ℕ → Option ℕ → Result Bool
at_least_elem ws none = fault
at_least_elem ws (some w) = ok (leb w ws)

-- `content_ws_stack[d - 1]` counts from the bottom, which is last here.
abbrev pub inside_pending : Machine → Option (ℕ × ℕ) → Result Bool
inside_pending m none = ok false
inside_pending m (some (d, expected)) = and_then (checked_sub d 1) λ k.
    and_then (checked_sub (length m.content_ws_stack) (suc k))
      λ j. at_least_elem m.last_dedent_ws (get_elem? m.content_ws_stack j)

unfoldable pub measure_dedent : Env → Bool → ℕ → Bool → M EolState
measure_dedent env should_error old_idx consecutive = do
  gap ← reading λ m. lift (and_then (checked_sub m.idx old_idx) λ d. checked_sub d 1)
  modify λ m. record m { last_dedent_ws = gap }
  inside ← reading λ m. lift (inside_pending m (bottom m.pending_counts))
  if consecutive && env.strict && (should_error || inside)
      then fail syntax
      else eol_state_from_ws env gap

abbrev pub is_empty {ℓ} : {A : Type ℓ} → List A → Bool
is_empty [] = true
is_empty (x ∷ xs) = false

unfoldable pub read_from : Env → Bool → ℕ → M EolState
read_from env should_error old_idx = do
  update_char env
  blank ← reading λ m. skip_blank env m.rest old_idx false
  reading λ m.
      if is_empty m.rest then pure close_scope else measure_dedent env should_error blank.0 blank.1

unfoldable pub read_newline : Env → Bool → M EolState
unfolding read_from
read_newline env should_error = do old_idx ← gets λ m. m.idx; read_from env should_error old_idx

unfoldable pub get_eol_state : Env → Bool → M EolState
get_eol_state env should_error = reading λ m.
    if is_empty m.rest
    then pure close_scope
    else if not (m.c == b'\n')
    then fail syntax
    else read_newline env should_error

-- `checked_mul(10)?.checked_add(digit)` on `u32`
abbrev pub checked_digit : ℕ → ℕ → Option ℕ
checked_digit acc digit =
    if ltb (acc * 10) (2 ^ 32) && ltb (acc * 10 + digit) (2 ^ 32)
    then some (acc * 10 + digit)
    else none

abbrev pub is_digit : ℕ → Bool
is_digit b = leb b'0' b && leb b b'9'

unfoldable pub fold_digits : Bytes → Option ℕ → Option ℕ
fold_digits bs none = none
fold_digits [] (some acc) = some acc
fold_digits (b ∷ bs) (some acc) =
    fold_digits bs (if is_digit b then checked_digit acc (b - b'0') else none)

abbrev pub some_or_syntax : Option ℕ → M ℕ
some_or_syntax none = fail syntax
some_or_syntax (some v) = pure v

unfoldable pub parse_string_number : Env → ℕ → ℕ → M ℕ
parse_string_number env from to = do
  value_bytes ← lift (slice env from to)
  some_or_syntax (fold_digits value_bytes (some 0))
