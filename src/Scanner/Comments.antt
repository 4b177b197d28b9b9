-- ===== src/Scanner/Comments.antt =====
-- src/comments_stripper.rs: a block of 64 bytes at a time, the comment lines become spaces.
use simd_toon_improved.Base.{
  ℕ, zero, suc, ◌+◌, ◌-◌, ◌%◌, ◌^◌, Bool, true, false, ◌||◌, List, [], ◌∷◌, ◌++◌, Bytes, ◌==◌, ltb,
  if◌then◌else◌, take, drop, length,
}
use simd_toon_improved.Strings.Parse.{trailing_zeros}
use simd_toon_improved.Scanner.Masks.{
  not_bits, and_bits, or_bits, xor_bits, zeros, is_zero, shift_in, or_low, top_bit, overflowing_add,
}

-- `base` is the input; its length is `len`.
pub record CommentStripper : Type 0 where
  pub base : Bytes
  pub len : ℕ
  pub inside_indent : Bool
  pub inside_comment : Bool

unfoldable pub new : Bytes → CommentStripper
new base = record { base = base; len = length base; inside_indent = true; inside_comment = false }

-- `inside_indent` and `comment_starts`.
unfoldable pub indents : Bool → List Bool → List Bool → List Bool → Bool × List Bool
indents inside_indent newlines spaces hashes =
    let sum = overflowing_add spaces (shift_in inside_indent newlines) in
    (sum.1 || top_bit newlines, and_bits (and_bits sum.0 (not_bits spaces)) hashes)

-- `inside_comment` and the bytes of comments, from `starts` on. With no start, the early return leaves
-- `inside_comment` at 0, and no byte is written.
unfoldable pub bodies : List Bool → List Bool → Bool × List Bool
bodies newlines starts = elim (is_zero starts) [
  | true ↦ (false, zeros newlines)
  | false ↦
      let sum = overflowing_add (not_bits newlines) starts in
      (sum.1, and_bits (xor_bits (not_bits newlines) sum.0) (not_bits newlines))
]

-- The set bits, lowest first, where the first is of index `i`.
abbrev pub bit_iter : ℕ → List Bool → List ℕ
bit_iter i [] = []
bit_iter i (true ∷ a) = i ∷ bit_iter (i + 1) a
bit_iter i (false ∷ a) = bit_iter (i + 1) a

-- `std::ptr::write_bytes(base.add(from), b' ', count)`
abbrev pub write_spaces : ℕ → ℕ → Bytes → Bytes
write_spaces from count [] = []
write_spaces (suc from) count (b ∷ base) = b ∷ write_spaces from count base
write_spaces zero (suc count) (b ∷ base) = b' ' ∷ write_spaces zero count base
write_spaces zero zero (b ∷ base) = b ∷ base

-- The lowest bits, up to `n`, become 0.
abbrev pub clear_below : ℕ → List Bool → List Bool
clear_below n [] = []
clear_below zero (x ∷ a) = x ∷ a
clear_below (suc n) (x ∷ a) = false ∷ clear_below n a

-- The end of the lowest run of set bits.
unfoldable pub run_end : List Bool → ℕ
run_end todo =
    let end = trailing_zeros todo + trailing_zeros (not_bits (drop (trailing_zeros todo) todo)) in
    if ltb end 64 then end else 64

-- What a run of set bits overwrites: the bytes from `from` on that are before `end` and the length.
unfoldable pub blank_run : ℕ → ℕ → ℕ → Bytes → Bytes
blank_run len from end base = write_spaces from ((if ltb end len then end else len) - from) base

-- A round for each run of set bits. Fuel: each takes a bit or more.
unfoldable pub blank_runs : ℕ → ℕ → ℕ → List Bool → Bytes → Bytes
blank_runs zero len idx todo base = base
blank_runs (suc fuel) len idx todo base = elim (is_zero todo) [
  | true ↦ base
  | false ↦
      blank_runs fuel len idx (clear_below (run_end todo) todo)
        (blank_run len (idx + trailing_zeros todo) (idx + run_end todo) base)
]

unfoldable pub blank_bytes : CommentStripper → ℕ → List Bool → CommentStripper
blank_bytes c idx blank = record c { base = blank_runs (suc (length blank)) c.len idx blank c.base }

-- The highest bit that is set, as a mask, or 0.
abbrev pub highest : List Bool → List Bool
highest [] = []
highest (x ∷ a) = if is_zero a then x ∷ a else false ∷ highest a

-- `structural_indexes`, with its last entry first.
unfoldable pub pop_newline : CommentStripper → ℕ → List ℕ → CommentStripper × List ℕ
pop_newline c newline [] = (c, [])
pop_newline c newline (last ∷ indexes) =
    if last == newline % 2 ^ 32
    then (record c { base = write_spaces newline 1 c.base }, indexes)
    else (c, last ∷ indexes)

-- The newline in front of a comment, as a mask in this block, or taken back from an earlier block.
unfoldable pub swallow_preceding_newline :
    CommentStripper → ℕ → ℕ → List Bool → List ℕ → List Bool × (CommentStripper × List ℕ)
swallow_preceding_newline c idx opener newlines structural_indexes =
    if is_zero (take opener newlines)
    then (if idx + opener == 0
        then (zeros newlines, (c, structural_indexes))
        else (zeros newlines, pop_newline c (idx + opener - 1) structural_indexes))
    else (highest (take opener newlines) ++ zeros (drop opener newlines), (c, structural_indexes))

-- `blank` with the bits that each opener adds.
unfoldable pub swallow_all :
    CommentStripper
    → ℕ
    → List ℕ
    → List Bool
    → List Bool
    → List ℕ
    → List Bool × (CommentStripper × List ℕ)
swallow_all c idx [] newlines blank structural_indexes = (blank, (c, structural_indexes))
swallow_all c idx (opener ∷ openers) newlines blank structural_indexes =
    let (mask, (c, indexes)) = swallow_preceding_newline c idx opener newlines structural_indexes in
    swallow_all c idx openers newlines (or_bits blank mask) indexes

-- The mask of the bytes blanked, with the stripper and the indexes behind it.
unfoldable pub strip_block :
    CommentStripper
    → ℕ
    → List Bool
    → List Bool
    → List Bool
    → List ℕ
    → List Bool × (CommentStripper × List ℕ)
strip_block c idx newlines spaces hashes structural_indexes =
    let opened = indents c.inside_indent newlines spaces hashes in
    let body = bodies newlines (or_low c.inside_comment opened.1) in
    let (blank, (c, indexes)) =
      swallow_all (record c { inside_indent = opened.0; inside_comment = body.0 }) idx
        (bit_iter 0 opened.1) newlines body.1 structural_indexes in
    (blank, (blank_bytes c idx blank, indexes))
