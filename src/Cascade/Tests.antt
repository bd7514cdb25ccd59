-- ===== src/Cascade/Tests.antt =====
-- The theorems on the error correction at small keys, and a run of both sides.
use ait_qkd.Prelude.{
  none, ℕ, zero, suc, ◌+◌, ◌≡◌, refl, List, [], ◌∷◌, Option, some, Bool, true, false, min, ltb,
  get_or, if◌then◌else◌, map, Runs, arith,
}
use ait_qkd.Cascade.Permutation.{
  generate_random_permutation, IsPermutation, generate_random_permutation-IsPermutation,
}
use ait_qkd.Cascade.Frame.{◌xor◌, ParityBlock, Checker, Frame, contains}
use ait_qkd.Cascade.Checker.{Link, partial_sums, split, block_parity, calculate_block_diffparities}
use ait_qkd.Cascade.Correct.{own, half_to_compare, descend, search_rounds, search_rounds_or}
use ait_qkd.Cascade.Tiling.{Tiles, split-Tiles}
use ait_qkd.Cascade.Parity.{parity, IsTracked, block_parity-parity}
use ait_qkd.Cascade.Difference.{arrives, sends, sent_parities}
use ait_qkd.Cascade.Peers.{Peers, differ, true_differences, calculate-true_differences}
use ait_qkd.Cascade.Rounds.{search_rounds-enough}
use ait_qkd.Cascade.Halving.{IsOdd, AllNarrow, search_round-narrow}
use ait_qkd.Cascade.Process.{process, Corrected}

abbrev near : ℕ → ℕ
near i = min (i + 3) 7

generate_random_permutation-IsPermutation_example :
    let tables = generate_random_permutation near 8 in IsPermutation 8 tables.0 tables.1
generate_random_permutation-IsPermutation_example =
    generate_random_permutation-IsPermutation near 8 (omega arith) (λ i h. omega arith)

split-Tiles_example :
    Tiles 4 3 13 (split 3 (record { size = 10; k = 4; diffparity_must_be_even = false }))
split-Tiles_example =
    split-Tiles 3 (record { size = 10; k = 4; diffparity_must_be_even = false }) (omega arith)
      (omega arith) (omega arith)

-- Keys of four bits that differ at position 2.
abbrev alice_bits : List Bool
alice_bits = true ∷ false ∷ true ∷ true ∷ []

abbrev bob_bits : List Bool
bob_bits = true ∷ false ∷ false ∷ true ∷ []

abbrev checker_of : Bool → List Bool → List ℕ → Checker
checker_of is_bob start changed = record {
  is_bob = is_bob;
  perm = 0 ∷ 1 ∷ 2 ∷ 3 ∷ [];
  inv_perm = 0 ∷ 1 ∷ 2 ∷ 3 ∷ [];
  partial_parity_sums = partial_sums false start;
  changed_bits = changed;
  correct_bits = 3 ∷ [];
  parity_blocks = [];
  odd_parity_blocks = [];
}

abbrev alice : Checker
alice = checker_of false alice_bits []

abbrev bob : Checker
bob = checker_of true alice_bits (2 ∷ [])

abbrev now : List Bool → List ℕ → ℕ → Bool
now start changed i = get_or start i false xor contains i changed

alice-IsTracked : IsTracked alice alice_bits (now alice_bits [])
alice-IsTracked = record {
  sums_are = refl;
  fits = omega arith;
  distinct = tt;
  now_is = λ i h. refl;
}

bob-IsTracked : IsTracked bob alice_bits (now alice_bits (2 ∷ []))
bob-IsTracked = record {
  sums_are = refl;
  fits = omega arith;
  distinct = unfold contains in (refl, tt);
  now_is = λ i h. refl;
}

known_equal : (i : ℕ) → contains i (3 ∷ []) ≡ true → now alice_bits [] i ≡ now alice_bits (2 ∷ []) i
unfolding contains
known_equal zero h = refl
known_equal (suc zero) h = refl
known_equal (suc (suc zero)) h = absurd (ground (arith, h))
known_equal (suc (suc (suc i))) h = ground (arith, h)

both : Peers alice bob 4 (now alice_bits []) (now alice_bits (2 ∷ []))
both = record {
  start_a = alice_bits;
  start_b = alice_bits;
  size_a = refl;
  size_b = refl;
  tracked_a = alice-IsTracked;
  tracked_b = bob-IsTracked;
  same_known = refl;
  distinct = unfold contains in (refl, tt);
  known = known_equal;
}

abbrev whole : ParityBlock
whole = record { offset = 0; size = 4; diffparity = true }

block_parity-parity_example : block_parity bob whole ≡ parity (now alice_bits (2 ∷ [])) 0 4
block_parity-parity_example =
    block_parity-parity bob alice_bits (now alice_bits (2 ∷ [])) bob-IsTracked whole (omega arith)

abbrev alice_frame : Frame
alice_frame = record {
  key = alice_bits;
  checkers = alice ∷ [];
  correct_bits = 3 ∷ [];
  corrected_bits = [];
  transmitted_messages = 0;
  transmitted_parities = 0;
}

abbrev pairs : List ParityBlock
pairs =
    record { offset = 0; size = 2; diffparity = false }
    ∷ record { offset = 2; size = 2; diffparity = false }
    ∷ []

abbrev answered : Link
answered = record { inbox = arrives (sent_parities bob 4 pairs false) []; outbox = [] }

calculate-true_differences_example :
    Runs (calculate_block_diffparities (λ _. alice) pairs false alice_frame answered) (λ r.
      (r.result ≡ true)
      × (r.blocks ≡ true_differences (differ both) pairs)
      × (r.link ≡ record { inbox = []; outbox = sends (sent_parities alice 4 pairs false) [] }))
calculate-true_differences_example =
    calculate-true_differences both (λ _. alice) pairs false alice_frame answered [] refl refl
      (omega arith, (omega arith, tt)) (λ e. absurd (cc e)) refl

abbrev halves : List ParityBlock
halves = map (half_to_compare 0 alice_frame) (whole ∷ [])

abbrev half_answered : Link
half_answered = record { inbox = arrives (sent_parities bob 4 halves false) []; outbox = [] }

whole-IsOdd : IsOdd (differ both) 4 whole
unfolding parity contains
whole-IsOdd = record {
  differs = refl;
  inside = omega arith;
  splits = omega arith;
  fits = omega arith;
}

search_round-narrow_example :
    Runs (calculate_block_diffparities (own 0) halves false alice_frame half_answered) (λ r.
      (r.result ≡ true)
      × AllNarrow (differ both) (whole ∷ []) (descend 0 (whole ∷ []) r.blocks r.frame).0)
unfolding own
search_round-narrow_example =
    search_round-narrow both 0 (whole ∷ []) alice_frame half_answered [] refl refl (whole-IsOdd, tt)
      refl

search_rounds-enough_example :
    search_rounds_or 0 none (34 + 5) (whole ∷ []) alice_frame half_answered
    ≡ search_rounds 0 34 (whole ∷ []) alice_frame half_answered
search_rounds-enough_example =
    search_rounds-enough 0 none 5 (whole ∷ []) alice_frame half_answered (omega arith, tt)

-- Both sides of two passes over a key of eight bits, the second pass finding two errors that the
-- first one does not see, as they stand in one block of it.
abbrev alice_key : List Bool
alice_key = true ∷ false ∷ true ∷ true ∷ false ∷ false ∷ true ∷ false ∷ []

abbrev bob_key : List Bool
bob_key = true ∷ false ∷ true ∷ true ∷ true ∷ true ∷ true ∷ false ∷ []

abbrev picks : ℕ → ℕ → ℕ → ℕ
picks seed step i = if ltb i 5 then i + 3 else i

abbrev from_alice : List (List ℕ)
from_alice = (1 ∷ []) ∷ (1 ∷ 1 ∷ []) ∷ (0 ∷ []) ∷ (1 ∷ 1 ∷ []) ∷ (0 ∷ 1 ∷ []) ∷ []

abbrev from_bob : List (List ℕ)
from_bob = (1 ∷ 1 ∷ []) ∷ (1 ∷ []) ∷ (1 ∷ 1 ∷ []) ∷ (1 ∷ 1 ∷ []) ∷ []

-- The side with the key, and the messages that it receives and sends.
abbrev process_with : Bool → List Bool → List (List ℕ) → Option Corrected
unfolding process
process_with is_bob key inbox =
    process is_bob 4 4 picks 4 2 key (record { inbox = inbox; outbox = [] })

abbrev ends_with : List (List ℕ) → Corrected
ends_with sent = record {
  key = alice_key;
  disclosed_bits = 7;
  errors = 2;
  link = record { inbox = []; outbox = sent };
}

alice_run : process_with false alice_key from_bob ≡ some (ends_with from_alice)
unfolding process_with
alice_run = refl

bob_run : process_with true bob_key from_alice ≡ some (ends_with from_bob)
unfolding process_with
bob_run = refl
