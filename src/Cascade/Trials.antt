-- ===== src/Cascade/Trials.antt =====
-- The theorems on both sides of the error correction at keys of four bits that differ at position 2.
use ait_qkd.Prelude.{
  ℕ, zero, suc, ◌<◌, ◌≡◌, refl, sym, ◌∙◌, ap, List, [], ◌∷◌, Bool, true, false, length, get_or, set,
  Both, arith,
}
use mathlib.Core.Path.{subst}
use ait_qkd.Cascade.Permutation.{IsPermutation}
use ait_qkd.Cascade.Frame.{◌xor◌, ParityBlock, Checker, Frame, contains, get_bit}
use ait_qkd.Cascade.Checker.{partial_sums}
use ait_qkd.Cascade.Correct.{correct_single, correct_blocks, look_up, own}
use ait_qkd.Cascade.Parity.{parity, IsTracked}
use ait_qkd.Cascade.Paired.{Paired, bits_of}
use ait_qkd.Cascade.Together.{AllPaired, Together, errors}
use ait_qkd.Cascade.Splitting.{HasError, Apart}
use ait_qkd.Cascade.Turning.{correct_single-Together}
use ait_qkd.Cascade.Meeting.{Meeting}
use ait_qkd.Cascade.Correcting.{Solved, correct_blocks-Meeting}

abbrev alice_bits : List Bool
alice_bits = true ∷ false ∷ true ∷ true ∷ []

abbrev bob_bits : List Bool
bob_bits = true ∷ false ∷ false ∷ true ∷ []

abbrev ids : List ℕ
ids = 0 ∷ 1 ∷ 2 ∷ 3 ∷ []

abbrev whole : ParityBlock
whole = record { offset = 0; size = 4; diffparity = true }

abbrev checker_of : Bool → List Bool → Checker
checker_of is_bob bits = record {
  is_bob = is_bob;
  perm = ids;
  inv_perm = ids;
  partial_parity_sums = partial_sums false bits;
  changed_bits = [];
  correct_bits = 3 ∷ [];
  parity_blocks = whole ∷ [];
  odd_parity_blocks = whole ∷ [];
}

abbrev frame_of : Bool → List Bool → Frame
frame_of is_bob bits = record {
  key = bits;
  checkers = checker_of is_bob bits ∷ [];
  correct_bits = 3 ∷ [];
  corrected_bits = [];
  transmitted_messages = 0;
  transmitted_parities = 0;
}

abbrev alice : Frame
alice = frame_of false alice_bits

abbrev bob : Frame
bob = frame_of true bob_bits

get_or-ids : (i : ℕ) → i < 4 → get_or ids i 0 ≡ i
get_or-ids zero h = refl
get_or-ids (suc zero) h = refl
get_or-ids (suc (suc zero)) h = refl
get_or-ids (suc (suc (suc zero))) h = refl
get_or-ids (suc (suc (suc (suc i)))) h = absurd (omega (arith, h))

ids-IsPermutation : IsPermutation 4 ids ids
ids-IsPermutation = record {
  perm_size = refl;
  inverse_size = refl;
  perm-lt = λ i h. subst (λ j. j < 4) (sym (get_or-ids i h)) h;
  inverse-lt = λ i h. subst (λ j. j < 4) (sym (get_or-ids i h)) h;
  inverse-perm = λ i h. ap (λ j. get_or ids j 0) (get_or-ids i h) ∙ get_or-ids i h;
  perm-inverse = λ i h. ap (λ j. get_or ids j 0) (get_or-ids i h) ∙ get_or-ids i h;
}

checker-IsTracked :
    (is_bob : Bool) (bits : List Bool)
    → length bits ≡ 4
    → IsTracked (checker_of is_bob bits) bits (bits_of bits (checker_of is_bob bits))
unfolding contains
checker-IsTracked is_bob bits e = record {
  sums_are = refl;
  fits = omega (arith, e);
  distinct = tt;
  now_is =
      λ i h. ground (arith, ap (λ j. get_or bits j false) (get_or-ids i (omega (arith, h, e))));
}

known_equal :
    (i : ℕ)
    → contains i (3 ∷ []) ≡ true
    → get_or alice_bits (get_or ids i 0) false ≡ get_or bob_bits (get_or ids i 0) false
unfolding contains
known_equal zero h = refl
known_equal (suc zero) h = refl
known_equal (suc (suc zero)) h = absurd (ground (arith, h))
known_equal (suc (suc (suc i))) h = ground (arith, h)

both : Paired 4 ids alice_bits bob_bits (checker_of false alice_bits) (checker_of true bob_bits)
unfolding contains
both = record {
  peers = record {
    start_a = alice_bits;
    start_b = bob_bits;
    size_a = refl;
    size_b = refl;
    tracked_a = checker-IsTracked false alice_bits refl;
    tracked_b = checker-IsTracked true bob_bits refl;
    same_known = refl;
    distinct = (refl, tt);
    known = known_equal;
  };
  same_perm = refl;
  same_inv_perm = refl;
  table = refl;
  is_permutation = ids-IsPermutation;
  is_alice = refl;
  is_bob = refl;
  starts_a = refl;
  starts_b = refl;
  changed_known = λ i h. absurd (ground (arith, h));
}

in_step : Together 4 (ids ∷ []) alice bob
unfolding AllPaired
in_step = record { size_a = refl; size_b = refl; paired = (both, tt) }

abbrev wrong : ParityBlock
wrong = record { offset = 2; size = 1; diffparity = true }

correct_single-Together_example :
    Both (correct_single 0 wrong alice) (correct_single 0 wrong bob) (λ f g.
      Together 4 (ids ∷ []) f g
      × (f.key ≡ alice_bits)
      × (g.key ≡ set bob_bits 2 true)
      × (suc (errors f.key g.key) ≡ errors alice_bits bob_bits))
unfolding get_bit
correct_single-Together_example =
    correct_single-Together 4 (ids ∷ []) alice bob 0 wrong in_step (omega arith) (omega arith) refl

whole-HasError :
    HasError
      (λ q. get_or alice_bits (get_or ids q 0) false xor get_or bob_bits (get_or ids q 0) false)
      4
      whole
unfolding parity
whole-HasError = record { differs = refl; inside = omega arith; fits = omega arith }

correct_blocks-Meeting_example :
    Meeting
      (λ l. correct_blocks 0 (whole ∷ []) alice l)
      (λ l. correct_blocks 0 (whole ∷ []) bob l)
      (Solved 4 (ids ∷ []) 0 (omega arith) (omega arith) alice bob 1)
unfolding own look_up Apart
correct_blocks-Meeting_example =
    correct_blocks-Meeting 4 (ids ∷ []) 0 (omega arith) (omega arith) (whole ∷ []) (whole ∷ [])
      alice bob in_step refl refl (whole-HasError, tt) (tt, tt)
