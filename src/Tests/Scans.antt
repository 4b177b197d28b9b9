-- ===== src/Tests/Scans.antt =====
-- Instances of the theorems on the structural scanner, and runs.
use simd_toon_improved.Base.{ℕ, Bool, true, false, List, [], ◌∷◌, Bytes, ◌≡◌, refl, arith}
use simd_toon_improved.Strings.Parse.{equals_mask}
use simd_toon_improved.Scanner.Classes.{find_whitespace_structurals_hashes, class_mask}
use simd_toon_improved.Scanner.Bytewise.{
  AreBytes, bytewise, is_structural, find_whitespace_structurals_hashes-bytewise,
}
use simd_toon_improved.Scanner.Backslashes.{
  find_odd_backslash_sequences, odd_sequences, escaped_bits, odd_after,
  find_odd_backslash_sequences-escaped_bits,
}
use simd_toon_improved.Scanner.Comments.{
  CommentStripper, new, strip_block, indents, bodies, swallow_all, swallow_preceding_newline,
  pop_newline, blank_bytes, blank_runs, blank_run, run_end,
}
use simd_toon_improved.Scanner.Lines.{indent}
use simd_toon_improved.Scanner.Stripped.{Reads, strip_block-Reads}

-- A line of text, a comment behind two spaces, and the start of another line.
abbrev lines : Bytes
lines = b'a' ∷ b'\n' ∷ b' ' ∷ b' ' ∷ b'#' ∷ b':' ∷ b'\n' ∷ b'-' ∷ []

lines-AreBytes : AreBytes lines
lines-AreBytes = (
  ground arith,
  (
    ground arith,
    (
      ground arith,
      (ground arith, (ground arith, (ground arith, (ground arith, (ground arith, tt))))),
    ),
  ),
)

find_whitespace_structurals_hashes-bytewise_example :
    find_whitespace_structurals_hashes lines ≡ record {
      whitespace = equals_mask b' ' lines;
      structurals = bytewise is_structural lines;
      newlines = equals_mask b'\n' lines;
      hashes = equals_mask b'#' lines;
    }
find_whitespace_structurals_hashes-bytewise_example =
    find_whitespace_structurals_hashes-bytewise lines lines-AreBytes

abbrev stripped : List Bool × (CommentStripper × List ℕ)
stripped =
    strip_block (new lines) 0 (find_whitespace_structurals_hashes lines).newlines
      (find_whitespace_structurals_hashes lines).whitespace
      (find_whitespace_structurals_hashes lines).hashes []

strip_block-Reads_example : Reads indent lines stripped
unfolding new
strip_block-Reads_example =
    strip_block-Reads (new lines) indent 0 b'a' _ [] lines-AreBytes (refl, refl)

-- A run of three that the block before began with one more, a quote, and a run that goes on.
abbrev slashes : Bytes
slashes = b'\\' ∷ b'\\' ∷ b'\\' ∷ b'"' ∷ b'a' ∷ b'\\' ∷ []

find_odd_backslash_sequences-escaped_bits_example :
    find_odd_backslash_sequences slashes true
    ≡ (escaped_bits true (equals_mask b'\\' slashes), odd_after true (equals_mask b'\\' slashes))
find_odd_backslash_sequences-escaped_bits_example =
    find_odd_backslash_sequences-escaped_bits true b'\\' _ refl

slashes_run :
    find_odd_backslash_sequences slashes false
    ≡ (false ∷ false ∷ false ∷ true ∷ false ∷ false ∷ [], true)
unfolding find_odd_backslash_sequences odd_sequences
slashes_run = refl

-- The comment is spaces, and so is the newline in front of it.
stripped_run : stripped.1.0.base ≡ b'a' ∷ b' ' ∷ b' ' ∷ b' ' ∷ b' ' ∷ b' ' ∷ b'\n' ∷ b'-' ∷ []
unfolding new strip_block indents bodies swallow_all swallow_preceding_newline pop_newline
    blank_bytes blank_runs blank_run run_end find_whitespace_structurals_hashes class_mask
stripped_run = refl

-- A comment at the start of a block takes back the newline that ended the block before.
taken_back : (pop_newline (new (b'a' ∷ b'\n' ∷ [])) 1 (1 ∷ [])).0.base ≡ b'a' ∷ b' ' ∷ []
unfolding new pop_newline
taken_back = refl
