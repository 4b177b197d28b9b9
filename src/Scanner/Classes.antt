-- ===== src/Scanner/Classes.antt =====
-- src/impls/avx2/stage1.rs: `find_whitespace_structurals_hashes`, which looks up both halves of a byte.
use Prim.Native.Nat.{bit_and}
use simd_toon_improved.Base.{
  ℕ, ◌/◌, ◌%◌, Bool, not, List, [], ◌∷◌, Bytes, none, some, leb, ◌==◌, if◌then◌else◌, get_elem?,
}

abbrev pub low_nibble_mask : List ℕ
low_nibble_mask = 32 ∷ 0 ∷ 0 ∷ 128 ∷ 0 ∷ 0 ∷ 0 ∷ 0 ∷ 0 ∷ 16 ∷ 65 ∷ 2 ∷ 4 ∷ 8 ∷ 0 ∷ 0 ∷ []

-- `-84` is 172 as a byte.
abbrev pub high_nibble_mask : List ℕ
high_nibble_mask = 88 ∷ 0 ∷ 172 ∷ 1 ∷ 0 ∷ 10 ∷ 0 ∷ 14 ∷ 0 ∷ 0 ∷ 0 ∷ 0 ∷ 0 ∷ 0 ∷ 0 ∷ 0 ∷ []

-- `_mm256_shuffle_epi8`, of one byte: an index with its highest bit set gives 0.
abbrev pub shuffle : List ℕ → ℕ → ℕ
shuffle table b = if leb 128 b then 0 else elim (get_elem? table (b % 16)) [ some x ↦ x | none ↦ 0 ]

-- The bits of a byte's classes. The shift moves bits of the next byte into the index of the second
-- lookup, none of which is its highest or one of the four that it reads.
abbrev pub class_of : ℕ → ℕ
class_of b = bit_and (shuffle low_nibble_mask b) (shuffle high_nibble_mask (b / 16))

abbrev pub in_class : ℕ → ℕ → Bool
in_class class b = not (bit_and (class_of b) class == 0)

unfoldable pub class_mask : Bytes → ℕ → List Bool
class_mask [] class = []
class_mask (b ∷ v) class = in_class class b ∷ class_mask v class

-- The masks of the spaces, the structural bytes, the newlines and the hashes.
pub record Masks : Type 0 where
  pub whitespace : List Bool
  pub structurals : List Bool
  pub newlines : List Bool
  pub hashes : List Bool

unfoldable pub find_whitespace_structurals_hashes : Bytes → Masks
find_whitespace_structurals_hashes v = record {
  whitespace = class_mask v 0x20;
  structurals = class_mask v 0x5F;
  newlines = class_mask v 0x40;
  hashes = class_mask v 0x80;
}
