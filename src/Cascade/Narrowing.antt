-- ===== src/Cascade/Narrowing.antt =====
-- The blocks that a round of `correct_blocks`, bin/modules/qkd-cascade/parity-checker.cpp, leaves:
-- they do not overlap, and each has an error.
use ait_qkd.Prelude.{
  ℕ, suc, ◌+◌, ◌*◌, ◌≤◌, ◌<◌, ◌≡◌, refl, ap, List, [], ◌∷◌, Bool, inl, inr, length, arith, All,
}
use ait_qkd.Cascade.Frame.{ParityBlock}
use ait_qkd.Cascade.Halving.{Narrows, AllNarrow}
use ait_qkd.Cascade.Descending.{AllHalved}
use ait_qkd.Cascade.Splitting.{HasError, Disjoint, Disjoint-sym, Apart}

-- A part of a block is apart from what the block is apart from.
narrow-Disjoint :
    (bit : ℕ → Bool) (b k c : ParityBlock) → Narrows bit b k → Disjoint b c → Disjoint k c
narrow-Disjoint bit b k c h (inl lt) = inl (omega (arith, lt, h.to))
narrow-Disjoint bit b k c h (inr lt) = inr (omega (arith, lt, h.from))

narrow-others :
    (bit : ℕ → Bool) (c : ParityBlock) (bs ks : List ParityBlock)
    → AllNarrow bit bs ks
    → All (Disjoint c) bs
    → All (Disjoint c) ks
unfolding AllNarrow
narrow-others bit c [] [] h d = tt
narrow-others bit c (b ∷ bs) (k ∷ ks) h d = (
  Disjoint-sym k c (narrow-Disjoint bit b k c h.0 (Disjoint-sym c b d.0)),
  narrow-others bit c bs ks h.1 d.1,
)
narrow-others bit c [] (k ∷ ks) h d = absurd h
narrow-others bit c (b ∷ bs) [] h d = absurd h

pub narrow-Apart :
    (bit : ℕ → Bool) (bs ks : List ParityBlock) → AllNarrow bit bs ks → Apart bs → Apart ks
unfolding AllNarrow Apart
narrow-Apart bit [] [] h a = tt
narrow-Apart bit (b ∷ bs) (k ∷ ks) h a =
    (each_other ks (narrow-others bit b bs ks h.1 a.0), narrow-Apart bit bs ks h.1 a.1)
  where
    each_other : (cs : List ParityBlock) → All (Disjoint b) cs → All (Disjoint k) cs
    each_other [] d = tt
    each_other (c ∷ cs) d = (narrow-Disjoint bit b k c h.0 d.0, each_other cs d.1)
narrow-Apart bit [] (k ∷ ks) h a = absurd h
narrow-Apart bit (b ∷ bs) [] h a = absurd h

-- What is known of the blocks that a round leaves: they have an error, they are at most half as
-- large, rounded up, and they are as many as were halved.
pub record Left (bit : ℕ → Bool) (n m : ℕ) (bs ks : List ParityBlock) : Type 0 where
  pub count : length ks ≡ length bs
  pub errors_in : All (HasError bit n) ks
  pub smaller : All (λ k. (2 * k.size ≤ m + 1) × (1 < m)) ks

pub narrow-Left :
    (i : ℕ) (bit : ℕ → Bool) (n m : ℕ) (bs calc ks : List ParityBlock)
    → AllHalved i bit n bs calc
    → AllNarrow bit bs ks
    → All (λ b. b.size ≤ m) bs
    → Left bit n m bs ks
unfolding AllNarrow AllHalved
narrow-Left i bit n m [] [] [] c h s = record { count = refl; errors_in = tt; smaller = tt }
narrow-Left i bit n m (b ∷ bs) (x ∷ calc) (k ∷ ks) c h s =
    let more = narrow-Left i bit n m bs calc ks c.1 h.1 s.1 in
    record {
      count = ap suc more.count;
      errors_in = (
        record {
          differs = h.0.differs;
          inside = omega (arith, h.0.to, c.0.odd.inside);
          fits = omega (arith, h.0.halves, c.0.odd.fits);
        },
        more.errors_in,
      );
      smaller =
          ((omega (arith, h.0.halves, s.0), omega (arith, c.0.odd.splits, s.0)), more.smaller);
    }
narrow-Left i bit n m [] [] (k ∷ ks) c h s = absurd h
narrow-Left i bit n m (b ∷ bs) (x ∷ calc) [] c h s = absurd h
narrow-Left i bit n m [] (x ∷ calc) ks c h s = absurd c
narrow-Left i bit n m (b ∷ bs) [] ks c h s = absurd c
