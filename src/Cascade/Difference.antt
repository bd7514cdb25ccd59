-- ===== src/Cascade/Difference.antt =====
-- `calculate_block_diffparities` of bin/modules/qkd-cascade/parity-checker.cpp with a peer that
-- follows the protocol: the blocks learn the differences of the two sides' parities.
use ait_qkd.Prelude.{
  ℕ, zero, suc, ◌-◌, ◌≤◌, ◌≡◌, refl, sym, ◌∙◌, ap, List, [], ◌∷◌, ◌++◌, Bool, true, false, not,
  ◌&&◌, ◌⊎◌, inl, inr, Bool-cases, ◌==◌, ==_iff, if◌then◌else◌, length, arith, bit_xor, Runs,
}
use ait_qkd.Cascade.Frame.{◌xor◌, ParityBlock, Checker, Frame}
use ait_qkd.Cascade.Checker.{
  Link, exchange, byte, block_parity, mark_blocks, count_marked, own_parities, xor_bytes, announce,
  write_back, compare_with, compare_parities,
}

module _ (a b : Checker) where
  -- What an exchange is to find out: the differences of the marked blocks.
  unfoldable pub differences : List ParityBlock → List ParityBlock
  differences [] = []
  differences (k ∷ ks) =
      record k { diffparity = k.diffparity && (block_parity a k xor block_parity b k) }
      ∷ differences ks

  unfoldable pub total : List ParityBlock → Bool
  total [] = false
  total (k ∷ ks) = (k.diffparity && (block_parity a k xor block_parity b k)) xor total ks

  -- All differences come from the exchange, or all but the last and their sum is even.
  unfoldable pub Enough : ℕ → Bool → List ParityBlock → Type 0
  Enough n sum ks = (count_marked ks ≤ n) ⊎ ((count_marked ks ≡ suc n) × (sum xor total ks ≡ false))

  unfoldable pub diffs : ℕ → List ParityBlock → List ℕ
  diffs n ks = xor_bytes (own_parities a n ks) (own_parities b n ks)

  byte-xor : (p q : Bool) → (not (bit_xor (byte p) (byte q) == 0)) ≡ p xor q
  byte-xor true true = refl
  byte-xor true false = refl
  byte-xor false true = refl
  byte-xor false false = refl

  total-none : (ks : List ParityBlock) → count_marked ks ≡ 0 → total ks ≡ false
  unfolding total count_marked
  total-none [] e = refl
  total-none (k ∷ ks) e = ground (arith, total-none ks)

  Enough-unmarked :
      (n : ℕ) (sum : Bool) (k : ParityBlock) (ks : List ParityBlock)
      → k.diffparity ≡ false
      → Enough n sum (k ∷ ks)
      → Enough n sum ks
  unfolding Enough count_marked total
  Enough-unmarked n sum k ks d h = ground (arith, d, h)

  Enough-marked :
      (n : ℕ) (sum : Bool) (k : ParityBlock) (ks : List ParityBlock)
      → k.diffparity ≡ true
      → Enough (suc n) sum (k ∷ ks)
      → Enough n (sum xor (block_parity a k xor block_parity b k)) ks
  unfolding Enough count_marked total
  Enough-marked n sum k ks d h = ground (arith, d, h)

  -- The last marked block, for which nothing was exchanged.
  last_one :
      (sum : Bool) (k : ParityBlock) (ks : List ParityBlock)
      → k.diffparity ≡ true
      → Enough zero sum (k ∷ ks)
      → (count_marked ks ≡ 0) × (sum ≡ block_parity a k xor block_parity b k)
  unfolding Enough count_marked total
  last_one sum k ks d h = ground (arith, d, h, total-none ks)

  no_more :
      (own : Frame → Checker) (sum : Bool) (ds : List ℕ) (ks : List ParityBlock) (f : Frame)
      → count_marked ks ≡ 0
      → (write_back own sum ds ks f).0 ≡ differences ks
  unfolding write_back differences count_marked
  no_more own sum ds [] f e = refl
  no_more own sum ds (k ∷ ks) f e = elim (Bool-cases k.diffparity) [
    | inl d ↦ absurd (ground (arith, d, e))
    | inr d ↦ rw d (
        ap (◌∷◌ (record k { diffparity = false })) (no_more own sum ds ks f (ground (arith, d, e))))
  ]

  module _ (own : Frame → Checker) (sum : Bool) (k : ParityBlock) (ks : List ParityBlock)
      (f : Frame) where
    -- A block of which nothing was exchanged, as it was not marked.
    unmarked :
        (n : ℕ)
        → k.diffparity ≡ false
        → (write_back own sum (diffs n (k ∷ ks)) (k ∷ ks) f).0
          ≡ k ∷ (write_back own sum (diffs n ks) ks f).0
    unfolding write_back diffs own_parities
    unmarked zero d = rw d refl
    unmarked (suc n) d = rw d refl

    last_marked :
        k.diffparity ≡ true
        → (write_back own sum (diffs zero (k ∷ ks)) (k ∷ ks) f).0
          ≡ record k { diffparity = sum }
            ∷ (write_back own sum [] ks (announce own (record k { diffparity = sum }) f)).0
    unfolding write_back diffs own_parities xor_bytes
    last_marked d = rw d refl

    -- What the lists look like after a marked block with the difference `odd`.
    judged : ℕ → Bool → List ParityBlock
    judged n odd =
        record k { diffparity = odd }
        ∷ (write_back own (sum xor odd) (diffs n ks) ks
            (announce own (record k { diffparity = odd }) f)).0

    next_judged :
        (n : ℕ)
        → k.diffparity ≡ true
        → (write_back own sum (diffs (suc n) (k ∷ ks)) (k ∷ ks) f).0
          ≡ judged n (not (bit_xor (byte (block_parity a k)) (byte (block_parity b k)) == 0))
    unfolding judged write_back diffs own_parities xor_bytes
    next_judged n d = rw d refl

    next_marked :
        (n : ℕ)
        → k.diffparity ≡ true
        → (write_back own sum (diffs (suc n) (k ∷ ks)) (k ∷ ks) f).0
          ≡ judged n (block_parity a k xor block_parity b k)
    next_marked n d =
        next_judged n d ∙ ap (judged n) (byte-xor (block_parity a k) (block_parity b k))

  differences-true :
      (k : ParityBlock) (ks : List ParityBlock)
      → k.diffparity ≡ true
      → differences (k ∷ ks)
        ≡ record k { diffparity = block_parity a k xor block_parity b k } ∷ differences ks
  unfolding differences
  differences-true k ks d = rw d refl

  differences-false :
      (k : ParityBlock) (ks : List ParityBlock)
      → k.diffparity ≡ false
      → differences (k ∷ ks) ≡ k ∷ differences ks
  unfolding differences
  differences-false k ks d = rw d refl

  pub write_back-differences :
      (own : Frame → Checker) (n : ℕ) (sum : Bool) (ks : List ParityBlock) (f : Frame)
      → Enough n sum ks
      → (write_back own sum (diffs n ks) ks f).0 ≡ differences ks
  unfolding judged
  write_back-differences own n sum [] f h = unfold write_back differences in refl
  write_back-differences own zero sum (k ∷ ks) f h = elim (Bool-cases k.diffparity) [
    | inr d ↦
        unmarked own sum k ks f zero d
        ∙ ap (◌∷◌ k) (write_back-differences own zero sum ks f (Enough-unmarked zero sum k ks d h))
        ∙ sym (differences-false k ks d)
    | inl d ↦
        let (none_left, is_sum) = last_one sum k ks d h in
        last_marked own sum k ks f d
        ∙ ap (◌∷◌ (record k { diffparity = sum }))
            (no_more own sum [] ks (announce own (record k { diffparity = sum }) f) none_left)
        ∙ ap (λ o. record k { diffparity = o } ∷ differences ks) is_sum
        ∙ sym (differences-true k ks d)
  ]
  write_back-differences own (suc n) sum (k ∷ ks) f h = elim (Bool-cases k.diffparity) [
    | inr d ↦
        unmarked own sum k ks f (suc n) d
        ∙ ap (◌∷◌ k)
            (write_back-differences own (suc n) sum ks f (Enough-unmarked (suc n) sum k ks d h))
        ∙ sym (differences-false k ks d)
    | inl d ↦
        let odd = block_parity a k xor block_parity b k in
        next_marked own sum k ks f n d
        ∙ ap (◌∷◌ (record k { diffparity = odd })) (
            write_back-differences own n (sum xor odd) ks
              (announce own (record k { diffparity = odd }) f) (Enough-marked n sum k ks d h))
        ∙ sym (differences-true k ks d)
  ]

  pub differences-none : (ks : List ParityBlock) → count_marked ks ≡ 0 → differences ks ≡ ks
  unfolding count_marked
  differences-none [] e = unfold differences in refl
  differences-none (k ∷ ks) e = elim (Bool-cases k.diffparity) [
    | inl d ↦ absurd (ground (arith, d, e))
    | inr d ↦ differences-false k ks d ∙ ap (◌∷◌ k) (differences-none ks (ground (arith, d, e)))
  ]

pub length-own_parities :
    (a b : Checker) (n : ℕ) (ks : List ParityBlock)
    → length (own_parities a n ks) ≡ length (own_parities b n ks)
unfolding own_parities
length-own_parities a b zero ks = refl
length-own_parities a b (suc n) [] = refl
length-own_parities a b (suc n) (k ∷ ks) =
    ground (arith, length-own_parities a b n ks, length-own_parities a b (suc n) ks)

-- What is sent where the parities are `ps`: nothing, if there are none.
abbrev pub sends : List ℕ → List (List ℕ) → List (List ℕ)
sends [] outbox = outbox
sends (p ∷ ps) outbox = outbox ++ (p ∷ ps) ∷ []

-- What is in the inbox where the peer sends the parities `ms`, if there are any.
abbrev pub arrives : List ℕ → List (List ℕ) → List (List ℕ)
arrives [] rest = rest
arrives (m ∷ ms) rest = (m ∷ ms) ∷ rest

pub compare_parities-target :
    (own : Frame → Checker) (blocks target : List ParityBlock) (ps ms : List ℕ) (f : Frame)
    (l : Link) (rest : List (List ℕ))
    → length ms ≡ length ps
    → l.inbox ≡ arrives ms rest
    → ((g : Frame) → (write_back own false (xor_bytes ps ms) blocks g).0 ≡ target)
    → Runs (compare_parities own blocks ps f l) (λ r.
      (r.result ≡ true)
      × (r.blocks ≡ target)
      × (r.link ≡ record { inbox = rest; outbox = sends ps l.outbox }))
unfolding compare_parities exchange compare_with xor_bytes
compare_parities-target own blocks target [] [] f l rest e i h =
    (refl, h f, ap (λ x. record { inbox = x; outbox = l.outbox }) i)
compare_parities-target own blocks target [] (m ∷ ms) f l rest e i h = absurd (omega (arith, e))
compare_parities-target own blocks target (p ∷ ps) [] f l rest e i h = absurd (omega (arith, e))
compare_parities-target own blocks target (p ∷ ps) (m ∷ ms) f l rest e i h =
    rw (Runs, i, (==_iff (suc (length ms)) (suc (length ps))).1 e) (refl, h _, refl)

-- The parities that a side sends for blocks, all but one if their sum must be even.
unfoldable pub sent_parities : Checker → ℕ → List ParityBlock → Bool → List ℕ
sent_parities c key_size blocks must_be_even =
    let marked = (mark_blocks c key_size blocks).1 in
    own_parities c (if must_be_even then count_marked marked - 1 else count_marked marked) marked
