-- ===== src/Cascade/Descending.antt =====
-- The end of a round of `correct_blocks`, bin/modules/qkd-cascade/parity-checker.cpp, on both sides:
-- the blocks are replaced by their halves.
use ait_qkd.Prelude.{
  ℕ, zero, suc, ◌+◌, ◌^◌, ◌<◌, ◌≡◌, refl, sym, ap, ◌∙◌, List, [], ◌∷◌, Bool, ◌==◌, ==_iff,
  if_either, length, get_or, set, arith,
}
use ait_qkd.Cascade.Frame.{ParityBlock, Checker, Frame, insert_block, erase_block}
use ait_qkd.Cascade.Correct.{
  first_half, second_half, own, judge_first, judge_second, odd_half, replace, descend,
}
use ait_qkd.Cascade.Paired.{Paired}
use ait_qkd.Cascade.Flipping.{Starts, insert_block-Starts, insert_block-later}
use ait_qkd.Cascade.Together.{AllPaired}
use ait_qkd.Cascade.Halving.{
  IsOdd, Compared, judge_first-differs, judge_second-differs, odd_half-Narrows, AllNarrow,
}
use ait_qkd.Cascade.Announcing.{At, differ_at, Judged, own-Paired, announce-At}

-- Other blocks in the sets of the two checkers.
with_blocks :
    {n : ℕ} {inv : List ℕ} {key_a key_b : List Bool} {a b : Checker}
    → Paired n inv key_a key_b a b
    → (blocks_a odd_a blocks_b odd_b : List ParityBlock) → Starts blocks_a
    → Starts blocks_b
    → Paired n inv key_a key_b
        (record a { odd_parity_blocks = odd_a; parity_blocks = blocks_a })
        (record b { odd_parity_blocks = odd_b; parity_blocks = blocks_b })
with_blocks h blocks_a odd_a blocks_b odd_b s t = record {
  peers = record {
    start_a = h.peers.start_a;
    start_b = h.peers.start_b;
    size_a = h.peers.size_a;
    size_b = h.peers.size_b;
    tracked_a = record {
      sums_are = h.peers.tracked_a.sums_are;
      fits = h.peers.tracked_a.fits;
      distinct = h.peers.tracked_a.distinct;
      now_is = h.peers.tracked_a.now_is;
    };
    tracked_b = record {
      sums_are = h.peers.tracked_b.sums_are;
      fits = h.peers.tracked_b.fits;
      distinct = h.peers.tracked_b.distinct;
      now_is = h.peers.tracked_b.now_is;
    };
    same_known = h.peers.same_known;
    distinct = h.peers.distinct;
    known = h.peers.known;
  };
  same_perm = h.same_perm;
  same_inv_perm = h.same_inv_perm;
  table = h.table;
  is_permutation = h.is_permutation;
  is_alice = h.is_alice;
  is_bob = h.is_bob;
  starts_a = s;
  starts_b = t;
  changed_known = h.changed_known;
}

set-AllPaired :
    {n : ℕ} {key_a key_b : List Bool} (tables : List (List ℕ)) (cs ds : List Checker) (i : ℕ)
    (a b : Checker)
    → AllPaired n tables key_a key_b cs ds
    → (i < length tables → Paired n (get_or tables i []) key_a key_b a b)
    → AllPaired n tables key_a key_b (set cs i a) (set ds i b)
unfolding AllPaired
set-AllPaired [] [] [] i a b h p = tt
set-AllPaired (inv ∷ tables) (c ∷ cs) (d ∷ ds) zero a b h p = (p (omega arith), h.1)
set-AllPaired (inv ∷ tables) (c ∷ cs) (d ∷ ds) (suc i) a b h p =
    (h.0, set-AllPaired tables cs ds i a b h.1 (λ lt. p (omega (arith, lt))))
set-AllPaired _ _ _ i a b h p = absurd h

later-Starts :
    (b : ParityBlock) (bs : List ParityBlock)
    → 0 < b.offset
    → Starts bs
    → Starts (insert_block b bs)
later-Starts b [] lt s = absurd s
later-Starts b (c ∷ cs) lt s = insert_block-later b c cs s lt

-- A block that is replaced by two, of which the first one has its offset.
halved-Starts :
    (first second : ParityBlock) (offset : ℕ) (bs : List ParityBlock)
    → first.offset ≡ offset
    → 0 < second.offset
    → Starts bs
    → Starts (insert_block first (insert_block second (erase_block offset bs)))
unfolding erase_block
halved-Starts first second offset (c ∷ cs) e lt s =
    if_either (λ bs. Starts (insert_block first (insert_block second bs))) (c.offset == offset)
      (λ same.
        insert_block-Starts first (insert_block second cs)
          (e ∙ sym ((==_iff c.offset offset).0 same) ∙ s))
      (λ other.
        later-Starts first _ (ground (arith, other, s, e))
          (insert_block-later second c (erase_block offset cs) s lt))
halved-Starts first second offset [] e lt s = absurd s

-- An odd block that is halved, and the half of it that was compared, with what was found.
pub record Halved (i : ℕ) (bit : ℕ → Bool) (n : ℕ) (b k : ParityBlock) : Type 0 where
  pub odd : IsOdd bit n b
  pub ends : b.offset + b.size < 2 ^ 32
  pub compared : Compared i bit b odd.fits ends k

unfoldable pub AllHalved : ℕ → (ℕ → Bool) → ℕ → List ParityBlock → List ParityBlock → Type 0
AllHalved i bit n [] [] = Unit
AllHalved i bit n (b ∷ bs) (k ∷ ks) = Halved i bit n b k × AllHalved i bit n bs ks
AllHalved i bit n _ _ = ⊥

module _ (n : ℕ) (tables : List (List ℕ)) (key_a key_b : List Bool) (i : ℕ)
    (there : i < length tables) where
  replace-At :
      (b k : ParityBlock) (f g : Frame)
      → 0 < (second_half b).offset
      → At n tables key_a key_b f g
      → At n tables key_a key_b (replace i b k f) (replace i b k g)
  unfolding replace judge_first judge_second first_half second_half
  replace-At b k f g lt h =
      let pair = own-Paired n tables key_a key_b i there f g h.0 in
      (
        record {
          size_a = h.0.size_a;
          size_b = h.0.size_b;
          paired = set-AllPaired tables f.checkers g.checkers i _ _ h.0.paired (λ _.
              with_blocks pair _ _ _ _
                (halved-Starts (judge_first i b k) (judge_second i b k) b.offset
                  (own i f).parity_blocks refl lt pair.starts_a)
                (halved-Starts (judge_first i b k) (judge_second i b k) b.offset
                  (own i g).parity_blocks refl lt pair.starts_b));
        },
        h.1,
        h.2,
      )

  abbrev differs : ℕ → Bool
  differs = differ_at tables i key_a key_b

  first-Judged :
      (b k : ParityBlock) (h : Halved i differs n b k)
      → Judged n tables key_a key_b i there (judge_first i b k)
  unfolding judge_first first_half
  first-Judged b k h = (
    omega (arith, h.odd.inside, h.odd.splits, h.odd.fits),
    judge_first-differs i differs b h.odd.fits h.ends k h.odd.splits h.odd.differs h.compared,
  )

  second-Judged :
      (b k : ParityBlock) (h : Halved i differs n b k)
      → Judged n tables key_a key_b i there (judge_second i b k)
  unfolding judge_second second_half first_half
  second-Judged b k h = (
    omega (arith, h.odd.inside, h.odd.splits, h.odd.fits, h.ends),
    judge_second-differs i differs b h.odd.fits h.ends k h.odd.splits h.odd.differs h.compared,
  )

  second_later : (b k : ParityBlock) → Halved i differs n b k → 0 < (second_half b).offset
  unfolding second_half first_half
  second_later b k h = omega (arith, h.odd.splits, h.odd.fits, h.ends)

  -- Both sides go on with the same blocks, which are narrower, and are in step.
  pub descend-At :
      (bs ks : List ParityBlock) (f g : Frame)
      → AllHalved i differs n bs ks
      → At n tables key_a key_b f g
      → let r = descend i bs ks f in
        let s = descend i bs ks g in
        (r.0 ≡ s.0) × At n tables key_a key_b r.1 s.1 × AllNarrow differs bs r.0
  unfolding descend AllHalved AllNarrow
  descend-At [] [] f g hs h = (refl, h, tt)
  descend-At (b ∷ bs) (k ∷ ks) f g hs h =
      let more = descend-At bs ks _ _ hs.1 (
        replace-At b k _ _ (second_later b k hs.0) (
          announce-At n tables key_a key_b i there (judge_second i b k) _ _ (second-Judged b k hs.0)
            (announce-At n tables key_a key_b i there (judge_first i b k) f g
              (first-Judged b k hs.0) h))) in
      (
        ap (◌∷◌ (odd_half i b k)) more.0,
        more.1,
        (
          odd_half-Narrows i differs b hs.0.odd.fits hs.0.ends k hs.0.odd.splits hs.0.odd.differs
              hs.0.compared,
          more.2,
        ),
      )
  descend-At [] (k ∷ ks) f g hs h = absurd hs
  descend-At (b ∷ bs) [] f g hs h = absurd hs
