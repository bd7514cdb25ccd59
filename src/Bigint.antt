-- ===== src/Bigint.antt =====
-- lib/utility/bigint/bigint.cpp: a row of bits behind a big integer, the lowest one first. The big
-- integers are GMP's; what is modelled is how the bits are read, written and laid out in memory.
use ait_qkd.Prelude.{
  ℕ, zero, suc, ◌+◌, ◌-◌, ◌*◌, ◌/◌, ◌%◌, List, [], ◌∷◌, ◌++◌, Bool, true, false, not, ◌&&◌, leb,
  ◌==◌, if◌then◌else◌, length, get_or, take, replicate,
}
pub mod Layout

-- `bigint::resize`
unfoldable pub resize : List Bool → ℕ → List Bool
resize bits n =
    if leb n (length bits) then take n bits else bits ++ replicate (n - length bits) false

abbrev pub bit_value : List Bool → ℕ → ℕ
bit_value bits p = if get_or bits p false then 1 else 0

-- The byte that starts at the bit `p`.
unfoldable pub byte_at : List Bool → ℕ → ℕ
byte_at bits p =
    bit_value bits p
    + 2 * bit_value bits (p + 1)
    + 4 * bit_value bits (p + 2)
    + 8 * bit_value bits (p + 3)
    + 16 * bit_value bits (p + 4)
    + 32 * bit_value bits (p + 5)
    + 64 * bit_value bits (p + 6)
    + 128 * bit_value bits (p + 7)

-- `count` bytes from byte `i` on.
unfoldable pub bytes_from : List Bool → ℕ → ℕ → List ℕ
unfolding byte_at
bytes_from bits i zero = []
bytes_from bits i (suc count) = byte_at bits (8 * i) ∷ bytes_from bits (i + 1) count

-- `bigint::memory`
unfoldable pub memory : List Bool → List ℕ
unfolding bytes_from
memory bits = bytes_from bits 0 ((length bits + 7) / 8)

-- The constructor of a bigint from memory, eight bits for each byte.
unfoldable pub from_memory : List ℕ → List Bool
from_memory [] = []
from_memory (b ∷ bs) =
    (b % 2 == 1)
    ∷ (b / 2 % 2 == 1)
    ∷ (b / 4 % 2 == 1)
    ∷ (b / 8 % 2 == 1)
    ∷ (b / 16 % 2 == 1)
    ∷ (b / 32 % 2 == 1)
    ∷ (b / 64 % 2 == 1)
    ∷ (b / 128 % 2 == 1)
    ∷ from_memory bs

-- `&`, `^` and `bits_set`
unfoldable pub and_bits : List Bool → List Bool → List Bool
and_bits (x ∷ xs) (y ∷ ys) = (x && y) ∷ and_bits xs ys
and_bits (x ∷ xs) [] = false ∷ and_bits xs []
and_bits [] ys = []

unfoldable pub xor_bits : List Bool → List Bool → List Bool
xor_bits (x ∷ xs) (y ∷ ys) = (if x then not y else y) ∷ xor_bits xs ys
xor_bits [] ys = ys
xor_bits xs [] = xs

unfoldable pub bits_set : List Bool → ℕ
bits_set [] = 0
bits_set (x ∷ xs) = let rest = bits_set xs in if x then suc rest else rest
