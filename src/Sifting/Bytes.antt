-- ===== src/Sifting/Bytes.antt =====
-- The bits of bin/modules/qkd-sifting-bb84/qkd-sifting-bb84.cpp with room for more, and the bytes of a
-- key that is made of them.
use ait_qkd.Prelude.{
  ℕ, zero, suc, ◌+◌, ◌-◌, ◌*◌, ◌/◌, ◌≤◌, ◌<◌, ◌≡◌, refl, sym, ap, ap₂, ◌∙◌, List, [], ◌∷◌, ◌++◌,
  Bool, false, ltb, leb, if◌then◌else◌, if_either, length, length-append, length-replicate, get_or,
  take, replicate, arith,
}
use ait_qkd.Bigint.{resize, memory, byte_at, bytes_from}
use ait_qkd.Sifting.{Bits}
use ait_qkd.Sifting.Agreement.{Agree}

padded :
    (bits : List Bool) (k j : ℕ) → get_or (bits ++ replicate k false) j false ≡ get_or bits j false
padded [] zero j = refl
padded [] (suc k) zero = refl
padded [] (suc k) (suc j) = padded [] k j
padded (b ∷ bs) k zero = refl
padded (b ∷ bs) k (suc j) = padded bs k j

-- The bits with room for those of a table.
abbrev pub roomy : List Bool → ℕ → List Bool
roomy bits needed = if ltb (length bits) needed then resize bits needed else bits

pub length-roomy : (bits : List Bool) (needed : ℕ) → needed ≤ length (roomy bits needed)
unfolding resize
length-roomy bits needed =
    if_either (λ (xs : List Bool). needed ≤ length xs) (ltb (length bits) needed)
      (λ e.
        if_either (λ (xs : List Bool). needed ≤ length xs) (leb needed (length bits))
          (λ d. absurd (ground (arith, e, d)))
          (λ _. omega (
            arith,
            length-append bits (replicate (needed - length bits) false),
            length-replicate (needed - length bits) false,
          )))
      (λ e. ground (arith, e))

pub get_or-roomy :
    (bits : List Bool) (needed j : ℕ) → get_or (roomy bits needed) j false ≡ get_or bits j false
unfolding resize
get_or-roomy bits needed j =
    if_either (λ (xs : List Bool). get_or xs j false ≡ get_or bits j false)
      (ltb (length bits) needed)
      (λ e.
        if_either (λ (xs : List Bool). get_or xs j false ≡ get_or bits j false)
          (leb needed (length bits)) (λ d. absurd (ground (arith, e, d)))
          (λ _. padded bits (needed - length bits) j))
      (λ _. refl)

-- A key is made of bits below the position only.
byte_at-same :
    (a b : List Bool) (p : ℕ)
    → ((j : ℕ) → j < p + 8 → get_or a j false ≡ get_or b j false)
    → byte_at a p ≡ byte_at b p
unfolding byte_at
byte_at-same a b p h =
    rw
      (
        h p (omega arith),
        h (p + 1) (omega arith),
        h (p + 2) (omega arith),
        h (p + 3) (omega arith),
        h (p + 4) (omega arith),
        h (p + 5) (omega arith),
        h (p + 6) (omega arith),
        h (p + 7) (omega arith),
      )
      refl

bytes_from-same :
    (a b : List Bool) (i count : ℕ)
    → ((j : ℕ) → j < 8 * (i + count) → get_or a j false ≡ get_or b j false)
    → bytes_from a i count ≡ bytes_from b i count
unfolding bytes_from
bytes_from-same a b i zero h = refl
bytes_from-same a b i (suc count) h =
    ap₂ ◌∷◌ (byte_at-same a b (8 * i) (λ j lt. h j (omega (arith, lt))))
      (bytes_from-same a b (i + 1) count (λ j lt. h j (omega (arith, lt))))

take-bytes_from :
    (bits : List Bool) (c i n : ℕ) → c ≤ n → take c (bytes_from bits i n) ≡ bytes_from bits i c
unfolding bytes_from
take-bytes_from bits zero i n h = refl
take-bytes_from bits (suc c) i zero h = absurd (omega (arith, h))
take-bytes_from bits (suc c) i (suc n) h =
    ap (◌∷◌ (byte_at bits (8 * i))) (take-bytes_from bits c (i + 1) n (omega (arith, h)))

pub same_bytes :
    (a b : Bits)
    → Agree 0 a b
    → take (a.position / 8) (memory a.bits) ≡ take (b.position / 8) (memory b.bits)
unfolding memory
same_bytes a b h =
    take-bytes_from a.bits (a.position / 8) 0 ((length a.bits + 7) / 8) (omega (arith, h.room_a))
    ∙ bytes_from-same a.bits b.bits 0 (a.position / 8) (λ j lt. h.same_bits j (omega (arith, lt)))
    ∙ sym (
        ap (λ p. take (p / 8) (bytes_from b.bits 0 ((length b.bits + 7) / 8))) (sym h.same_position)
        ∙ take-bytes_from b.bits (a.position / 8) 0 ((length b.bits + 7) / 8)
            (omega (arith, h.room_b, h.same_position)))
