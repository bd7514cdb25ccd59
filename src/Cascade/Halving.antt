-- ===== src/Cascade/Halving.antt =====
-- A round of `correct_blocks`, bin/modules/qkd-cascade/parity-checker.cpp, between two sides: the half
-- that is kept of a block is one with an error.
use ait_qkd.Prelude.{
  if_either, ℕ, ◌+◌, ◌-◌, ◌*◌, ◌/◌, ◌^◌, ◌≤◌, ◌<◌, ◌≡◌, refl, sym, ap, ◌∙◌, List, [], ◌∷◌, map,
  Bool, true, false, not, Bool-cases, inl, inr, ◌⊎◌, ◌==◌, length, All, arith, Runs, Runs-map,
}
use mathlib.Core.Path.{subst}
use ait_qkd.Cascade.Frame.{◌xor◌, u32, ParityBlock, Checker, Frame}
use ait_qkd.Cascade.Checker.{Link, count_correct_bits_in_block, calculate_block_diffparities}
use ait_qkd.Cascade.Parity.{parity, parity-append}
use ait_qkd.Cascade.Difference.{arrives, sent_parities}
use ait_qkd.Cascade.Peers.{Peers, differ, true_differences, calculate-true_differences}
use ait_qkd.Cascade.Correct.{
  first_half, second_half, own, half_to_compare, judge_first, judge_second, odd_half, descend,
}

-- A block in which the keys differ at an odd number of bits, that can be halved.
pub record IsOdd (bit : ℕ → Bool) (n : ℕ) (b : ParityBlock) : Type 0 where
  pub differs : parity bit b.offset b.size ≡ true
  pub inside : b.offset + b.size ≤ n
  pub splits : 1 < b.size
  pub fits : b.size + 1 < 2 ^ 32

-- The part of an odd block that is searched next: it is odd as well, and at most half as large,
-- rounded up.
pub record Narrows (bit : ℕ → Bool) (b k : ParityBlock) : Type 0 where
  pub differs : parity bit k.offset k.size ≡ true
  pub from : b.offset ≤ k.offset
  pub to : k.offset + k.size ≤ b.offset + b.size
  pub halves : 2 * k.size ≤ b.size + 1
  pub marked : k.diffparity ≡ true

unfoldable pub AllNarrow : (ℕ → Bool) → List ParityBlock → List ParityBlock → Type 0
AllNarrow bit [] [] = Unit
AllNarrow bit (b ∷ bs) (k ∷ ks) = Narrows bit b k × AllNarrow bit bs ks
AllNarrow bit _ _ = ⊥

module _ (i : ℕ) (bit : ℕ → Bool) where
  module _ (b : ParityBlock) (small : b.size + 1 < 2 ^ 32) (ends : b.offset + b.size < 2 ^ 32) where
    halves-parity :
        parity bit b.offset b.size
        ≡ parity bit (first_half b).offset (first_half b).size
          xor parity bit (second_half b).offset (second_half b).size
    unfolding first_half second_half
    halves-parity =
        ap (parity bit b.offset) (omega (arith, small))
        ∙ parity-append bit b.offset ((u32 (b.size + 1)) / 2) (b.size - (u32 (b.size + 1)) / 2)
        ∙ ap
            (λ o.
              parity bit b.offset (u32 (b.size + 1) / 2)
              xor parity bit o (b.size - u32 (b.size + 1) / 2))
            (omega (arith, small, ends))

    -- A comparison of either half, with what it found.
    unfoldable pub Compared : ParityBlock → Type 0
    Compared calc =
        (calc.offset ≡ (first_half b).offset)
          × (calc.diffparity ≡ parity bit (first_half b).offset (first_half b).size)
        ⊎ (calc.offset ≡ (second_half b).offset)
          × (calc.diffparity ≡ parity bit (second_half b).offset (second_half b).size)

    module _ (calc : ParityBlock) (splits : 1 < b.size)
        (d : parity bit b.offset b.size ≡ true) where
      pub judge_first-differs :
          Compared calc
          → (judge_first i b calc).diffparity ≡ parity bit (first_half b).offset (first_half b).size
      unfolding judge_first first_half second_half Compared
      judge_first-differs (inl h) = ground (arith, splits, small, ends, h.0, h.1)
      judge_first-differs (inr h) = ground (arith, splits, small, ends, h.0, h.1, halves-parity, d)

      pub judge_second-differs :
          Compared calc
          → (judge_second i b calc).diffparity
            ≡ parity bit (second_half b).offset (second_half b).size
      unfolding judge_second
      judge_second-differs h = ground (arith, d, judge_first-differs h, halves-parity, d)

      first-Narrows :
          Compared calc
          → (judge_first i b calc).diffparity ≡ true
          → Narrows bit b (judge_first i b calc)
      unfolding judge_first first_half
      first-Narrows h e = record {
        differs = sym (judge_first-differs h) ∙ e;
        from = omega arith;
        to = omega (arith, small);
        halves = omega (arith, small);
        marked = e;
      }

      second-Narrows :
          Compared calc
          → (judge_first i b calc).diffparity ≡ false
          → Narrows bit b (judge_second i b calc)
      unfolding judge_second second_half first_half
      second-Narrows h e = record {
        differs = sym (judge_second-differs h) ∙ ap not e;
        from = omega (arith, small, ends);
        to = omega (arith, small, ends);
        halves = omega (arith, small);
        marked = ap not e;
      }

      pub odd_half-Narrows : Compared calc → Narrows bit b (odd_half i b calc)
      unfolding odd_half
      odd_half-Narrows h =
          if_either (Narrows bit b) (judge_first i b calc).diffparity (first-Narrows h)
            (second-Narrows h)

  pub half-Compared :
      (f : Frame) (b : ParityBlock) (small : b.size + 1 < 2 ^ 32)
      (ends : b.offset + b.size < 2 ^ 32)
      → let h = half_to_compare i f b in
        Compared b small ends (record h { diffparity = parity bit h.offset h.size })
  unfolding half_to_compare Compared
  half-Compared f b small ends =
      elim (Bool-cases (
        count_correct_bits_in_block (own i f) (length f.key) (second_half b).offset
          (second_half b).size
        == (second_half b).size)) [
          | inl e ↦ rw e (inr (refl, refl))
          | inr e ↦ rw e (inl (refl, refl))
        ]

  pub half-inside :
      (f : Frame) (b : ParityBlock)
      → 1 < b.size
      → b.size + 1 < 2 ^ 32
      → b.offset + b.size < 2 ^ 32
      → let h = half_to_compare i f b in h.offset + h.size ≤ b.offset + b.size
  unfolding half_to_compare first_half second_half
  half-inside f b splits small ends = ground (arith, splits, small, ends)

  -- The next blocks, when each half is known to differ or not.
  descend-narrow :
      (n : ℕ) (bs : List ParityBlock) (f g : Frame)
      → n < 2 ^ 32
      → All (IsOdd bit n) bs
      → AllNarrow bit bs (descend i bs (true_differences bit (map (half_to_compare i f) bs)) g).0
  unfolding descend AllNarrow
  descend-narrow n [] f g w h = tt
  descend-narrow n (b ∷ bs) f g w h =
      let ends : b.offset + b.size < 2 ^ 32 = omega (arith, h.0.inside, w) in
      (
        odd_half-Narrows b h.0.fits ends _ h.0.splits h.0.differs (half-Compared f b h.0.fits ends),
        descend-narrow n bs f _ w h.1,
      )

  halves-inside :
      (n : ℕ) (f : Frame) (bs : List ParityBlock)
      → n < 2 ^ 32
      → All (IsOdd bit n) bs
      → All (λ k. k.offset + k.size ≤ n) (map (half_to_compare i f) bs)
  halves-inside n f [] w h = tt
  halves-inside n f (b ∷ bs) w h =
      let ends : b.offset + b.size < 2 ^ 32 = omega (arith, h.0.inside, w) in
      (
        omega (arith, half-inside f b h.0.splits h.0.fits ends, h.0.inside),
        halves-inside n f bs w h.1,
      )

-- A round of the search on blocks of more than one bit with an odd number of errors, which are
-- within the key and whose size plus one fits 32 bits, with a peer that knows the same bits to be
-- correct, where these are equal, and that sends its own parities: the exchange succeeds, and each
-- block is followed by a part of it, at most half as large rounded up, that again has an odd number
-- of errors.
pub search_round-narrow :
    {a b : Checker} {n : ℕ} {now_a now_b : ℕ → Bool} (peers : Peers a b n now_a now_b) (i : ℕ)
    (bs : List ParityBlock) (f : Frame) (l : Link) (rest : List (List ℕ))
    → own i f ≡ a
    → length f.key ≡ n
    → All (IsOdd (differ peers) n) bs
    → l.inbox ≡ arrives (sent_parities b n (map (half_to_compare i f) bs) false) rest
    → Runs
        (calculate_block_diffparities (own i) (map (half_to_compare i f) bs) false f l)
        (λ r. (r.result ≡ true) × AllNarrow (differ peers) bs (descend i bs r.blocks r.frame).0)
search_round-narrow {n = n} peers i bs f l rest is_a is_n odd arrived =
    let halves = map (half_to_compare i f) bs in
    let wide : n < 2 ^ 32 = omega (arith, peers.size_a, peers.tracked_a.fits) in
    Runs-map _ _
      (λ r h. (
        h.0,
        subst (λ ks. AllNarrow (differ peers) bs (descend i bs ks r.frame).0) (sym h.1)
            (descend-narrow i (differ peers) n bs f r.frame wide odd),
      ))
      (calculate_block_diffparities (own i) halves false f l)
      (calculate-true_differences peers (own i) halves false f l rest is_a is_n
        (halves-inside i (differ peers) n f bs wide odd) (λ e. absurd (cc e)) arrived)
