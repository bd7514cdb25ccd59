-- ===== src/ErrorEstimation/Sides.antt =====
-- `process` of bin/modules/qkd-error-estimation/qkd-error-estimation.cpp on both sides: the errors that
-- they find, and those that are left in their keys.
use ait_qkd.Prelude.{
  ℕ, ◌+◌, ◌*◌, ◌-◌, ◌<◌, ◌≡◌, refl, List, [], ◌∷◌, ◌++◌, none, Bool, true, false, length, arith,
}
use ait_qkd.Key.{Key}
use ait_qkd.Bigint.{and_bits, xor_bits, bits_set, memory, from_memory}
use ait_qkd.Bigint.Layout.{length-from_memory}
use ait_qkd.Cascade.Meeting.{Meeting}
use ait_qkd.ErrorEstimation.{Estimate, pick_positions, new_key, estimate, process_alice}
use ait_qkd.ErrorEstimation.Disclosed.{mask_from, extract_undefined, mark-mask_from}

-- The number of bits at which two keys differ.
unfoldable pub differing : Key → Key → ℕ
differing k k' = bits_set (xor_bits (from_memory k.bytes) (from_memory k'.bytes))

-- What the two sides have found about the keys.
abbrev pub Estimated : Key → Key → Estimate → Estimate → Type 0
Estimated k k' r r' =
    (r.result ≡ true)
    × (r'.result ≡ true)
    × (r'.running ≡ true)
    × (r.disclosed ≡ r'.disclosed)
    × (r.errors ≡ r'.errors)
    × (length r.key.bytes ≡ length r'.key.bytes)
    × (differing k k' ≡ r.errors + differing r.key r'.key)

module _ (disclose : ℕ → Bool) (k k' : Key) (same_id : k.id ≡ k'.id)
    (same_size : length k.bytes ≡ length k'.bytes)
    (picked : disclose (8 * length k.bytes - 1) ≡ true) where
  xs : List Bool
  xs = from_memory k.bytes

  ys : List Bool
  ys = from_memory k'.bytes

  positions : List ℕ
  positions = pick_positions disclose 0 (length xs)

  mask : List Bool
  mask = mask_from disclose 0 (length xs)

  message : List ℕ
  message = k.id ∷ length xs ∷ length positions ∷ positions ++ memory (and_bits xs mask)

-- For a key with at least one byte of which the last bit is not disclosed, `process` of alice is
-- undefined, whatever message comes back from bob: her loop dereferences the end of the list of
-- positions.
pub process_alice_undefined :
    (disclose : ℕ → Bool) (k : Key) (m : List ℕ) (ms sent : List (List ℕ))
    → 0 < length k.bytes
    → disclose (8 * length k.bytes - 1) ≡ false
    → process_alice disclose k (record { inbox = m ∷ ms; outbox = sent }) ≡ none
unfolding process_alice estimate new_key
process_alice_undefined disclose k m ms sent some_bits d =
    let bits = from_memory k.bytes in
    let size = length-from_memory k.bytes in
    rw
      (
        mark-mask_from disclose 0 (length bits) [] refl,
        extract_undefined disclose 0 (8 * length k.bytes - 1) bits (omega (arith, size, some_bits))
            (omega arith) d,
      )
      refl
