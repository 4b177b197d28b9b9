-- ===== src/Scanner/Masks.antt =====
-- The operations on `u64` that stage 1 uses, on a mask as its bits, lowest first.
use simd_toon_improved.Base.{Bool, true, false, not, ◌&&◌, ◌||◌, List, [], ◌∷◌}

-- `!a`
abbrev pub not_bits : List Bool → List Bool
not_bits [] = []
not_bits (x ∷ a) = not x ∷ not_bits a

-- `a & b`
abbrev pub and_bits : List Bool → List Bool → List Bool
and_bits (x ∷ a) (y ∷ b) = (x && y) ∷ and_bits a b
and_bits _ _ = []

-- `a | b`
abbrev pub or_bits : List Bool → List Bool → List Bool
or_bits (x ∷ a) (y ∷ b) = (x || y) ∷ or_bits a b
or_bits _ _ = []

abbrev pub xor : Bool → Bool → Bool
xor true y = not y
xor false y = y

-- `a ^ b`
abbrev pub xor_bits : List Bool → List Bool → List Bool
xor_bits (x ∷ a) (y ∷ b) = xor x y ∷ xor_bits a b
xor_bits _ _ = []

-- `0`, at the width of a mask.
abbrev pub zeros : List Bool → List Bool
zeros [] = []
zeros (x ∷ a) = false ∷ zeros a

-- `a == 0`
abbrev pub is_zero : List Bool → Bool
is_zero [] = true
is_zero (x ∷ a) = not x && is_zero a

-- `(a << 1) | low`
abbrev pub shift_in : Bool → List Bool → List Bool
shift_in low [] = []
shift_in low (x ∷ a) = low ∷ shift_in x a

-- `a | low`, for a `low` of one bit.
abbrev pub or_low : Bool → List Bool → List Bool
or_low low [] = []
or_low low (x ∷ a) = (x || low) ∷ a

-- `a >> 63`, which is the last bit.
abbrev pub top_bit : List Bool → Bool
top_bit [] = false
top_bit (x ∷ []) = x
top_bit (x ∷ (y ∷ a)) = top_bit (y ∷ a)

abbrev pub carry_of : Bool → Bool → Bool → Bool
carry_of c x y = (x && y) || (c && (x || y))

-- `a + b` with a carry into the lowest bit, and the carry out of the highest.
abbrev pub add_carry : Bool → List Bool → List Bool → List Bool × Bool
add_carry c (x ∷ a) (y ∷ b) =
    let rest = add_carry (carry_of c x y) a b in (xor c (xor x y) ∷ rest.0, rest.1)
add_carry c _ _ = ([], c)

-- `a.overflowing_add(b)`
abbrev pub overflowing_add : List Bool → List Bool → List Bool × Bool
overflowing_add a b = add_carry false a b
