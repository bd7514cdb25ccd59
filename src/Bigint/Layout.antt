-- ===== src/Bigint/Layout.antt =====
-- lib/utility/bigint/bigint.cpp: the memory of a row of bits, and the bits of a memory.
use ait_qkd.Prelude.{
  ℕ, zero, suc, ◌+◌, ◌-◌, ◌*◌, ◌/◌, ◌%◌, ◌≤◌, ◌≡◌, refl, sym, ap, ap₂, ◌∙◌, List, [], ◌∷◌, ◌++◌,
  Bool, false, ◌==◌, length, get_or, replicate, arith,
}
use mathlib.Core.List.{append-nil}
use ait_qkd.Bigint.{bit_value, byte_at, bytes_from, memory, from_memory, bits_set, xor_bits}

-- `count` bits from position `p` on.
window : List Bool → ℕ → ℕ → List Bool
window bits p zero = []
window bits p (suc count) = get_or bits p false ∷ window bits (p + 1) count

bit_of_byte :
    (v0 v1 v2 v3 v4 v5 v6 v7 : ℕ)
    → v0 ≤ 1
    → v1 ≤ 1
    → v2 ≤ 1
    → v3 ≤ 1
    → v4 ≤ 1
    → v5 ≤ 1
    → v6 ≤ 1
    → v7 ≤ 1
    → let b = v0 + 2 * v1 + 4 * v2 + 8 * v3 + 16 * v4 + 32 * v5 + 64 * v6 + 128 * v7 in
      (b % 2 ≡ v0)
      × (b / 2 % 2 ≡ v1)
      × (b / 4 % 2 ≡ v2)
      × (b / 8 % 2 ≡ v3)
      × (b / 16 % 2 ≡ v4)
      × (b / 32 % 2 ≡ v5)
      × (b / 64 % 2 ≡ v6)
      × (b / 128 % 2 ≡ v7)
bit_of_byte v0 v1 v2 v3 v4 v5 v6 v7 h0 h1 h2 h3 h4 h5 h6 h7 = (
  omega arith,
  omega arith,
  omega arith,
  omega arith,
  omega arith,
  omega arith,
  omega arith,
  omega arith,
)

bit_value-bound : (bits : List Bool) (p : ℕ) → bit_value bits p ≤ 1
bit_value-bound bits p = ground arith

is_set : (bits : List Bool) (p : ℕ) → (bit_value bits p == 1) ≡ get_or bits p false
is_set bits p = ground arith

from_memory-byte :
    (bits : List Bool) (p : ℕ) (bs : List ℕ)
    → from_memory (byte_at bits p ∷ bs)
      ≡ get_or bits p false
        ∷ get_or bits (p + 1) false
        ∷ get_or bits (p + 2) false
        ∷ get_or bits (p + 3) false
        ∷ get_or bits (p + 4) false
        ∷ get_or bits (p + 5) false
        ∷ get_or bits (p + 6) false
        ∷ get_or bits (p + 7) false
        ∷ from_memory bs
unfolding from_memory byte_at
from_memory-byte bits p bs =
    let v : ℕ → ℕ = λ k. bit_value bits (p + k) in
    let f =
      bit_of_byte (bit_value bits p) (v 1) (v 2) (v 3) (v 4) (v 5) (v 6) (v 7)
        (bit_value-bound bits p) (bit_value-bound bits (p + 1)) (bit_value-bound bits (p + 2))
        (bit_value-bound bits (p + 3)) (bit_value-bound bits (p + 4)) (bit_value-bound bits (p + 5))
        (bit_value-bound bits (p + 6)) (bit_value-bound bits (p + 7)) in
    rw (f.0, f.1, f.2, f.3, f.4, f.5, f.6, f.7)
      (rw
        (
          is_set bits p,
          is_set bits (p + 1),
          is_set bits (p + 2),
          is_set bits (p + 3),
          is_set bits (p + 4),
          is_set bits (p + 5),
          is_set bits (p + 6),
          is_set bits (p + 7),
        )
        refl)

one_on : (p k : ℕ) → p + k + 1 ≡ p + (k + 1)
one_on p k = omega arith

window-byte :
    (bits : List Bool) (p count : ℕ)
    → window bits p (8 + count)
      ≡ get_or bits p false
        ∷ get_or bits (p + 1) false
        ∷ get_or bits (p + 2) false
        ∷ get_or bits (p + 3) false
        ∷ get_or bits (p + 4) false
        ∷ get_or bits (p + 5) false
        ∷ get_or bits (p + 6) false
        ∷ get_or bits (p + 7) false
        ∷ window bits (p + 8) count
unfolding window
window-byte bits p count =
    ap (window bits p) {x = 8 + count} {y = suc (suc (suc (suc (suc (suc (suc (suc count)))))))}
      (omega arith)
    ∙ rw (one_on p 1, one_on p 2, one_on p 3, one_on p 4, one_on p 5, one_on p 6, one_on p 7) refl

from_memory-bytes_from :
    (bits : List Bool) (i count : ℕ)
    → from_memory (bytes_from bits i count) ≡ window bits (8 * i) (8 * count)
unfolding bytes_from
from_memory-bytes_from bits i zero = unfold from_memory window in refl
from_memory-bytes_from bits i (suc count) =
    from_memory-byte bits (8 * i) (bytes_from bits (i + 1) count)
    ∙ ap
        (λ rest.
          get_or bits (8 * i) false
          ∷ get_or bits (8 * i + 1) false
          ∷ get_or bits (8 * i + 2) false
          ∷ get_or bits (8 * i + 3) false
          ∷ get_or bits (8 * i + 4) false
          ∷ get_or bits (8 * i + 5) false
          ∷ get_or bits (8 * i + 6) false
          ∷ get_or bits (8 * i + 7) false
          ∷ rest)
        (from_memory-bytes_from bits (i + 1) count
          ∙ ap (λ p. window bits p (8 * count)) {x = 8 * (i + 1)} {y = 8 * i + 8} (omega arith))
    ∙ sym (window-byte bits (8 * i) (8 * count))
    ∙ ap (window bits (8 * i)) {x = 8 + 8 * count} {y = 8 * suc count} (omega arith)

window-cons :
    (b : Bool) (bits : List Bool) (p count : ℕ)
    → window (b ∷ bits) (p + 1) count ≡ window bits p count
unfolding window
window-cons b bits p zero = refl
window-cons b bits p (suc count) =
    ap₂ ◌∷◌ (ap (λ q. get_or (b ∷ bits) q false) {x = p + 1} {y = suc p} (omega arith))
      (window-cons b bits (p + 1) count)

window-none : (p extra : ℕ) → window [] p extra ≡ replicate extra false
unfolding window
window-none p zero = refl
window-none p (suc extra) = ap (◌∷◌ false) (window-none (p + 1) extra)

window-padded :
    (bits : List Bool) (extra count : ℕ)
    → count ≡ length bits + extra
    → window bits 0 count ≡ bits ++ replicate extra false
unfolding window
window-padded [] extra count e =
    ap (window [] 0) e ∙ ap (window [] 0) (omega arith) ∙ window-none 0 extra
window-padded (b ∷ bits) extra zero e = absurd (omega (arith, e))
window-padded (b ∷ bits) extra (suc count) e =
    ap (◌∷◌ b) (window-cons b bits 0 count ∙ window-padded bits extra count (omega (arith, e)))

-- The memory of some bits, read as bits again: they are followed by zeros up to a whole byte.
pub from_memory-memory :
    (bits : List Bool)
    → from_memory (memory bits)
      ≡ bits ++ replicate (8 * ((length bits + 7) / 8) - length bits) false
unfolding memory
from_memory-memory bits =
    from_memory-bytes_from bits 0 ((length bits + 7) / 8)
    ∙ window-padded bits (8 * ((length bits + 7) / 8) - length bits) (8 * ((length bits + 7) / 8))
        (omega arith)

pub length-from_memory : (bs : List ℕ) → length (from_memory bs) ≡ 8 * length bs
unfolding from_memory
length-from_memory [] = refl
length-from_memory (b ∷ bs) = omega (arith, length-from_memory bs)

bits_set-zeros : (n : ℕ) → bits_set (replicate n false) ≡ 0
unfolding bits_set
bits_set-zeros zero = refl
bits_set-zeros (suc n) = bits_set-zeros n

pub bits_set-append_zeros :
    (xs : List Bool) (n : ℕ) → bits_set (xs ++ replicate n false) ≡ bits_set xs
unfolding bits_set
bits_set-append_zeros [] n = bits_set-zeros n
bits_set-append_zeros (x ∷ xs) n = rw (bits_set-append_zeros xs n) refl

xor-padded :
    (xs ys : List Bool) (m n : ℕ)
    → length xs ≡ length ys
    → bits_set (xor_bits (xs ++ replicate m false) (ys ++ replicate n false))
      ≡ bits_set (xor_bits xs ys)
unfolding xor_bits bits_set
xor-padded [] [] zero n e = bits_set-zeros n
xor-padded [] [] (suc m) zero e = bits_set-zeros m
xor-padded [] [] (suc m) (suc n) e = xor-padded [] [] m n refl
xor-padded (x ∷ xs) (y ∷ ys) m n e = rw (xor-padded xs ys m n (omega (arith, e))) refl
xor-padded [] (y ∷ ys) m n e = absurd (omega (arith, e))
xor-padded (x ∷ xs) [] m n e = absurd (omega (arith, e))

-- The differences of two rows of bits of the same length are those of their memory.
pub memory-differences :
    (xs ys : List Bool)
    → length xs ≡ length ys
    → bits_set (xor_bits (from_memory (memory xs)) (from_memory (memory ys)))
      ≡ bits_set (xor_bits xs ys)
memory-differences xs ys e =
    ap₂ (λ x y. bits_set (xor_bits x y)) (from_memory-memory xs) (from_memory-memory ys)
    ∙ xor-padded xs ys _ _ e

pub received-differences :
    (xs ys : List Bool)
    → length xs ≡ length ys
    → bits_set (xor_bits xs (from_memory (memory ys))) ≡ bits_set (xor_bits xs ys)
received-differences xs ys e =
    ap₂ (λ x y. bits_set (xor_bits x y)) (sym (append-nil xs)) (from_memory-memory ys)
    ∙ xor-padded xs ys 0 _ e
