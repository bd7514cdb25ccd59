-- ===== src/Cascade/Peers.antt =====
-- `calculate_block_diffparities` of bin/modules/qkd-cascade/parity-checker.cpp between two sides: the
-- blocks learn where the two keys differ.
use ait_qkd.Prelude.{
  ℕ, ◌+◌, ◌-◌, ◌≤◌, ◌<◌, ◌≡◌, refl, sym, ◌∙◌, ap, ap₂, List, [], ◌∷◌, map, Bool, true, false, not,
  ◌&&◌, inl, inr, Bool-cases, ltb, ◌==◌, ==_iff, if◌then◌else◌, length, arith, All, Runs, some,
  Option,
}
use ait_qkd.Cascade.Frame.{◌xor◌, block_end, ParityBlock, Checker, Frame, contains}
use ait_qkd.Cascade.Parity.{
  parity, parity-xor, Distinct, IsTracked, block_parity-parity, count_in-all, parity-none,
}
use ait_qkd.Cascade.Checker.{
  Link, block_parity, mark_blocks, count_correct_bits_in_block, count_marked, own_parities,
  Calculated, compare_parities, calculate_block_diffparities,
}
use ait_qkd.Cascade.Difference.{
  differences, total, Enough, diffs, write_back-differences, differences-none, length-own_parities,
  compare_parities-target, sends, arrives, sent_parities,
}

-- The blocks with the true difference of two keys, bit by bit `differ`.
abbrev pub true_differences : (ℕ → Bool) → List ParityBlock → List ParityBlock
true_differences differ blocks =
    map (λ (k : ParityBlock). record k { diffparity = parity differ k.offset k.size }) blocks

unfoldable pub total_difference : (ℕ → Bool) → List ParityBlock → Bool
total_difference differ [] = false
total_difference differ (k ∷ ks) = parity differ k.offset k.size xor total_difference differ ks

-- What `calculate_block_diffparities` does with blocks that are all within the key.
with_marked :
    (Frame → Checker) → Checker → ℕ → List ParityBlock → Bool → Frame → Link → Option Calculated
with_marked own c size ks must_be_even f l =
    let m = (mark_blocks c size ks).1 in
    if count_marked m == 0
    then some (record { result = true; blocks = m; frame = f; link = l })
    else compare_parities own m
        (own_parities c (if must_be_even then count_marked m - 1 else count_marked m) m) f l

calculate-inside :
    (own : Frame → Checker) (ks : List ParityBlock) (must_be_even : Bool) (f : Frame) (l : Link)
    → (mark_blocks (own f) (length f.key) ks).0 ≡ true
    → calculate_block_diffparities own ks must_be_even f l
      ≡ with_marked own (own f) (length f.key) ks must_be_even f l
unfolding calculate_block_diffparities with_marked
calculate-inside own ks must_be_even f l e = rw e refl

nothing-sent :
    (c : Checker) (size : ℕ) (ks : List ParityBlock) (even : Bool)
    → count_marked (mark_blocks c size ks).1 ≡ 0
    → sent_parities c size ks even ≡ []
unfolding sent_parities own_parities
nothing-sent c size ks true e = rw e refl
nothing-sent c size ks false e = rw e refl

-- Two checkers of the two sides over the same permutation: they know the same bits to be correct,
-- and these are.
pub record Peers (a b : Checker) (n : ℕ) (now_a now_b : ℕ → Bool) : Type 0 where
  pub start_a : List Bool
  pub start_b : List Bool
  pub size_a : length start_a ≡ n
  pub size_b : length start_b ≡ n
  pub tracked_a : IsTracked a start_a now_a
  pub tracked_b : IsTracked b start_b now_b
  pub same_known : a.correct_bits ≡ b.correct_bits
  pub distinct : Distinct a.correct_bits
  pub known : (i : ℕ) → contains i a.correct_bits ≡ true → now_a i ≡ now_b i

module _ {a b : Checker} {n : ℕ} {now_a now_b : ℕ → Bool} (peers : Peers a b n now_a now_b) where
  abbrev pub differ : ℕ → Bool
  differ i = now_a i xor now_b i

  pub mark-same : (ks : List ParityBlock) → mark_blocks a n ks ≡ mark_blocks b n ks
  unfolding mark_blocks count_correct_bits_in_block
  mark-same [] = refl
  mark-same (k ∷ ks) = rw (peers.same_known, mark-same ks) refl

  within_key : (k : ParityBlock) → k.offset + k.size ≤ n → ltb n (block_end k) ≡ false
  within_key k h = ground (arith, h, peers.size_a, peers.tracked_a.fits)

  mark_inside :
      (ks : List ParityBlock) → All (λ k. k.offset + k.size ≤ n) ks → (mark_blocks a n ks).0 ≡ true
  unfolding mark_blocks
  mark_inside [] h = refl
  mark_inside (k ∷ ks) h = rw (within_key k h.0) (mark_inside ks h.1)

  block-differ :
      (k : ParityBlock)
      → k.offset + k.size ≤ n
      → block_parity a k xor block_parity b k ≡ parity differ k.offset k.size
  block-differ k h =
      ap₂ ◌xor◌
        (block_parity-parity a peers.start_a now_a peers.tracked_a k
          (omega (arith, peers.size_a, h)))
        (block_parity-parity b peers.start_b now_b peers.tracked_b k
          (omega (arith, peers.size_b, h)))
      ∙ sym (parity-xor now_a now_b k.offset k.size)

  -- A block that is not exchanged has no difference.
  known-differ :
      (k : ParityBlock)
      → k.offset + k.size ≤ n
      → (count_correct_bits_in_block a n k.offset k.size == k.size) ≡ true
      → parity differ k.offset k.size ≡ false
  unfolding count_correct_bits_in_block
  known-differ k h e = parity-none differ k.offset k.size (λ i lo hi. same i (all_known i lo hi))
    where
      all_known : (i : ℕ) → k.offset ≤ i → i < k.offset + k.size → contains i a.correct_bits ≡ true
      all_known = count_in-all k.offset k.size a.correct_bits peers.distinct (ground (arith, e, h))

      same : (i : ℕ) → contains i a.correct_bits ≡ true → differ i ≡ false
      same i c = ground (arith, peers.known i c)

  marked : ParityBlock → ParityBlock
  marked k = record k {
    diffparity = not (count_correct_bits_in_block a n k.offset k.size == k.size);
  }

  mark_step :
      (k : ParityBlock) (ks : List ParityBlock)
      → k.offset + k.size ≤ n
      → (mark_blocks a n (k ∷ ks)).1 ≡ marked k ∷ (mark_blocks a n ks).1
  unfolding mark_blocks marked
  mark_step k ks h = rw (within_key k h) refl

  marked-differ :
      (k : ParityBlock)
      → k.offset + k.size ≤ n
      → ((marked k).diffparity && (block_parity a (marked k) xor block_parity b (marked k)))
        ≡ parity differ k.offset k.size
  unfolding marked
  marked-differ k h = ground (arith, known-differ k h, block-differ (marked k) h)

  -- The marks turn into the true differences.
  differences-true_differences :
      (ks : List ParityBlock)
      → All (λ k. k.offset + k.size ≤ n) ks
      → differences a b (mark_blocks a n ks).1 ≡ true_differences differ ks
  unfolding differences marked
  differences-true_differences [] h = unfold mark_blocks in refl
  differences-true_differences (k ∷ ks) h =
      ap (differences a b) (mark_step k ks h.0)
      ∙ ap₂ (λ d l. record k { diffparity = d } ∷ l) (marked-differ k h.0)
          (differences-true_differences ks h.1)

  total-total_difference :
      (ks : List ParityBlock)
      → All (λ k. k.offset + k.size ≤ n) ks
      → total a b (mark_blocks a n ks).1 ≡ total_difference differ ks
  unfolding total total_difference
  total-total_difference [] h = unfold mark_blocks in refl
  total-total_difference (k ∷ ks) h =
      ap (total a b) (mark_step k ks h.0)
      ∙ ap₂ ◌xor◌ (marked-differ k h.0) (total-total_difference ks h.1)

  -- The number of parities that are exchanged is enough.
  exchanged-Enough :
      (ks : List ParityBlock) (must_be_even : Bool)
      → All (λ k. k.offset + k.size ≤ n) ks
      → (must_be_even ≡ true → total_difference differ ks ≡ false)
      → let m = (mark_blocks a n ks).1 in
        Enough a b (if must_be_even then count_marked m - 1 else count_marked m) false m
  unfolding Enough
  exchanged-Enough ks false h even = inl (omega arith)
  exchanged-Enough ks true h even = ground (arith, total-total_difference ks h, even refl)

  sent-same :
      (ks : List ParityBlock) (even : Bool)
      → let m = (mark_blocks a n ks).1 in
        sent_parities b n ks even
        ≡ own_parities b (if even then count_marked m - 1 else count_marked m) m
  unfolding sent_parities
  sent-same ks even = rw (mark-same ks) refl

  -- `calculate_block_diffparities` of blocks within the key, with a peer that knows the same bits to
  -- be correct, where these are equal, and that sends its own parities: it returns true, each block
  -- learns the parity of the bits in which the two keys differ, also those for which no parity was
  -- exchanged, and what this side sent are its parities. If the sum must be even, it is even.
  pub calculate-true_differences :
      (own : Frame → Checker) (ks : List ParityBlock) (must_be_even : Bool) (f : Frame) (l : Link)
      (rest : List (List ℕ))
      → own f ≡ a
      → length f.key ≡ n
      → All (λ k. k.offset + k.size ≤ n) ks
      → (must_be_even ≡ true → total_difference differ ks ≡ false)
      → l.inbox ≡ arrives (sent_parities b n ks must_be_even) rest
      → Runs (calculate_block_diffparities own ks must_be_even f l) (λ r.
        (r.result ≡ true)
        × (r.blocks ≡ true_differences differ ks)
        × (r.link
            ≡ record { inbox = rest; outbox = sends (sent_parities a n ks must_be_even) l.outbox }))
  unfolding with_marked sent_parities diffs
  calculate-true_differences own ks must_be_even f l rest is_a is_n h even i =
      rw (at_a) (elim (Bool-cases (count_marked m == 0)) [
        | inl e ↦
            rw (e, Runs)
              (
                refl,
                none_marked e,
                ap₂ (λ i ps. record { inbox = i; outbox = sends ps l.outbox })
                    (i ∙ ap (λ ps. arrives ps rest) (none_arrives e)) (sym (nothing_sent e)),
              )
        | inr e ↦ rw e (
            compare_parities-target own m (true_differences differ ks) (own_parities a exchanged m)
              (own_parities b exchanged m) f l rest (length-own_parities b a exchanged m)
              (i ∙ ap (λ ps. arrives ps rest) (sent-same ks must_be_even))
              (λ g.
                write_back-differences a b own exchanged false m g
                  (exchanged-Enough ks must_be_even h even)
                ∙ differences-true_differences ks h))
      ])
    where
      m : List ParityBlock
      m = (mark_blocks a n ks).1

      exchanged : ℕ
      exchanged = if must_be_even then count_marked m - 1 else count_marked m

      none_marked : (count_marked m == 0) ≡ true → m ≡ true_differences differ ks
      none_marked e =
          sym (differences-none a b m ((==_iff (count_marked m) 0).0 e))
          ∙ differences-true_differences ks h

      nothing_sent : (count_marked m == 0) ≡ true → sent_parities a n ks must_be_even ≡ []
      nothing_sent e = nothing-sent a n ks must_be_even ((==_iff (count_marked m) 0).0 e)

      none_arrives : (count_marked m == 0) ≡ true → sent_parities b n ks must_be_even ≡ []
      none_arrives e = nothing-sent b n ks must_be_even (
          ap (λ marked. count_marked marked.1) (sym (mark-same ks))
          ∙ (==_iff (count_marked m) 0).0 e)

      at_a :
          calculate_block_diffparities own ks must_be_even f l
          ≡ with_marked own a n ks must_be_even f l
      at_a =
          calculate-inside own ks must_be_even f l
            (ap₂ (λ c size. (mark_blocks c size ks).0) is_a is_n ∙ mark_inside ks h)
          ∙ ap₂ (λ c size. with_marked own c size ks must_be_even f l) is_a is_n
