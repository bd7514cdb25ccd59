-- ===== src/Cascade/Rounds.antt =====
-- The rounds of `correct_blocks`, bin/modules/qkd-cascade/parity-checker.cpp: the blocks get smaller,
-- so that 34 rounds are enough.
use ait_qkd.Prelude.{
  ℕ, zero, suc, ◌+◌, ◌*◌, ◌^◌, ◌≤◌, ◌<◌, ◌≡◌, refl, ap, ◌∙◌, List, [], ◌∷◌, Option, ◌>>=◌, false,
  Bool-cases, le→ltb, length, inl, inr, ltb, All, Always, Always-bind, bind-same, Always-any,
  All-map, arith,
}
use mathlib.Core.Path.{subst}
use native.Mathlib.Nat.{pow-succ'}
use ait_qkd.Cascade.Frame.{ParityBlock, Frame}
use ait_qkd.Cascade.Checker.{Link, calculate_block_diffparities}
use ait_qkd.Cascade.Correct.{
  first_half, second_half, Halves, own, correct_single, halve, judge_first, judge_second, odd_half,
  descend, search_rounds, search_rounds_or,
}

-- A block of at most `s` bits, whose size plus one fits 32 bits.
abbrev pub Within : ℕ → ParityBlock → Type 0
Within s b = (b.size ≤ s) × (b.size + 1 < 2 ^ 32)

abbrev Splits : ℕ → ParityBlock → Type 0
Splits s b = (1 < b.size) × Within s b

module _ (i : ℕ) where
  halve-Splits :
      (s : ℕ) (bs : List ParityBlock) (f : Frame)
      → All (Within s) bs
      → Always (halve i bs f) (λ h. All (Splits s) h.left)
  unfolding halve
  halve-Splits s [] f h = tt
  halve-Splits s (b ∷ bs) f h = elim (Bool-cases (ltb 1 b.size)) [
    | inl e ↦
        rw (Always, e)
          (Always-bind (λ r. All (Splits s) r.left) (λ r. All (Splits s) r.left) (halve i bs f) _
            (halve-Splits s bs f h.1) (λ r k. ((ground (arith, e), h.0), k)))
    | inr e ↦
        rw (Always, e)
          (Always-bind (λ _. Unit) (λ r. All (Splits s) r.left) (correct_single i b f) _
            (Always-any (correct_single i b f)) (λ g _. halve-Splits s bs g h.1))
  ]

  -- The half that is kept is at most half as large, rounded up.
  odd_half-Within : (s : ℕ) (b calc : ParityBlock) → Splits (2 * s) b → Within s (odd_half i b calc)
  unfolding odd_half judge_first judge_second first_half second_half
  odd_half-Within s b calc h = ground (arith, h.0, h.1.0, h.1.1)

  descend-Within :
      (s : ℕ) (bs ks : List ParityBlock) (f : Frame)
      → All (Splits (2 * s)) bs
      → All (Within s) (descend i bs ks f).0
  unfolding descend
  descend-Within s [] ks f h = tt
  descend-Within s (b ∷ bs) [] f h = tt
  descend-Within s (b ∷ bs) (k ∷ ks) f h = (odd_half-Within s b k h.0, descend-Within s bs ks _ h.1)

  -- Blocks of one bit are corrected at once.
  halve-none_left :
      (bs : List ParityBlock) (f : Frame)
      → All (Within 1) bs
      → Always (halve i bs f) (λ h. h.left ≡ [])
  unfolding halve
  halve-none_left [] f h = refl
  halve-none_left (b ∷ bs) f h =
      rw (Always, le→ltb 1 b.size h.0.0)
        (Always-bind (λ _. Unit) (λ r. r.left ≡ []) (correct_single i b f) _
          (Always-any (correct_single i b f)) (λ g _. halve-none_left bs g h.1))

  descend-none : (bs ks : List ParityBlock) (f : Frame) → bs ≡ [] → (descend i bs ks f).0 ≡ []
  unfolding descend
  descend-none [] ks f e = refl
  descend-none (b ∷ bs) ks f e = absurd (omega (arith, ap length e))

  -- What is left of a round after its first loop, with `rest` for the next rounds.
  after_halves :
      (List ParityBlock → Frame → Link → Option (Frame × Link))
      → Link
      → Halves
      → Option (Frame × Link)
  after_halves rest l h = do
    r ← calculate_block_diffparities (own i) h.calc false h.frame l
    let (next, f') = descend i h.left r.blocks r.frame
    rest next f' r.link

  after_halves-same :
      (P : List ParityBlock → Type 0)
      (rest rest' : List ParityBlock → Frame → Link → Option (Frame × Link)) (l : Link) (h : Halves)
      → ((ks : List ParityBlock) (f : Frame) → P (descend i h.left ks f).0)
      → ((ks : List ParityBlock) (f : Frame) (l : Link) → P ks → rest ks f l ≡ rest' ks f l)
      → after_halves rest l h ≡ after_halves rest' l h
  unfolding after_halves
  after_halves-same P rest rest' l h p same =
      let r = calculate_block_diffparities (own i) h.calc false h.frame l in
      bind-same (λ _. Unit) r _ _ (Always-any r)
        (λ c _.
          same (descend i h.left c.blocks c.frame).0 (descend i h.left c.blocks c.frame).1 c.link
            (p c.blocks c.frame))

  -- More rounds, and what the result is when they run out, change nothing.
  search_rounds-more :
      (late : Option (Frame × Link)) (m extra : ℕ) (bs : List ParityBlock) (f : Frame) (l : Link)
      → All (Within (2 ^ m)) bs
      → search_rounds_or i late (suc (suc (m + extra))) bs f l
        ≡ search_rounds i (suc (suc m)) bs f l
  unfolding search_rounds_or after_halves
  search_rounds-more late m extra [] f l h = refl
  search_rounds-more late zero extra (b ∷ bs) f l h =
      bind-same (λ r. r.left ≡ []) (halve i (b ∷ bs) f)
        (after_halves (search_rounds_or i late (suc (zero + extra))) l)
        (after_halves (search_rounds i 1) l) (halve-none_left (b ∷ bs) f h)
        (λ r e.
          after_halves-same (λ ks. ks ≡ []) (search_rounds_or i late (suc (zero + extra)))
            (search_rounds i 1) l r (λ ks g. descend-none r.left ks g e) ended)
    where
      ended :
          (ks : List ParityBlock) (f : Frame) (l : Link)
          → ks ≡ []
          → search_rounds_or i late (suc (zero + extra)) ks f l ≡ search_rounds i 1 ks f l
      ended [] f l e = refl
      ended (k ∷ ks) f l e = absurd (omega (arith, ap length e))
  search_rounds-more late (suc m) extra (b ∷ bs) f l h =
      bind-same (λ r. All (Splits (2 * 2 ^ m)) r.left) (halve i (b ∷ bs) f)
        (after_halves (search_rounds_or i late (suc (suc m + extra))) l)
        (after_halves (search_rounds i (suc (suc m))) l)
        (halve-Splits (2 * 2 ^ m) (b ∷ bs) f (subst (λ s. All (Within s) (b ∷ bs)) twice h))
        (λ r e.
          after_halves-same (All (Within (2 ^ m))) (search_rounds_or i late (suc (suc m + extra)))
            (search_rounds i (suc (suc m))) l r (λ ks g. descend-Within (2 ^ m) r.left ks g e)
            (λ ks g l' p.
              ap (λ n. search_rounds_or i late n ks g l') one_less
              ∙ search_rounds-more late m extra ks g l' p))
    where
      twice : 2 ^ suc m ≡ 2 * 2 ^ m
      twice = pow-succ' 2 m

      one_less : suc (suc m + extra) ≡ suc (suc (m + extra))
      one_less = omega arith

  -- For blocks whose size plus one fits 32 bits, and with whatever messages arrive, the search for
  -- their errors ends within 34 rounds: its outcome is that of any larger number of rounds, whatever
  -- result is taken for running out of rounds.
  pub search_rounds-enough :
      (late : Option (Frame × Link)) (extra : ℕ) (bs : List ParityBlock) (f : Frame) (l : Link)
      → All (λ b. b.size + 1 < 2 ^ 32) bs
      → search_rounds_or i late (34 + extra) bs f l ≡ search_rounds i 34 bs f l
  search_rounds-enough late extra bs f l h =
      ap (λ n. search_rounds_or i late n bs f l) two_more
      ∙ search_rounds-more late 32 extra bs f l (All-map (λ b e. (omega (arith, e), e)) bs h)
    where
      two_more : 34 + extra ≡ suc (suc (32 + extra))
      two_more = omega arith
