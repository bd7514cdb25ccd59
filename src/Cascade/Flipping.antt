-- ===== src/Cascade/Flipping.antt =====
-- The correction of one bit, bin/modules/qkd-cascade/parity-checker.cpp and frame.cpp: bob turns it,
-- alice notes it, and all checkers of both sides are told.
use ait_qkd.Prelude.{
  ℕ, ◌<◌, ◌≡◌, refl, List, [], ◌∷◌, Option, none, some, not, ◌||◌, inl, inr, Bool-cases, ltb, leb,
  ◌==◌, ==_iff, if◌then◌else◌, if_either, get_or, arith, Runs,
}
use ait_qkd.Cascade.Frame.{
  block_end, ParityBlock, Checker, contains, insert, insert_block, erase_block, block_before,
  toggle, bit_change_remote,
}
use ait_qkd.Cascade.Parity.{Distinct}

-- Some block starts at the first bit, and it is the first one.
abbrev pub Starts : List ParityBlock → Type 0
Starts [] = ⊥
Starts (b ∷ bs) = b.offset ≡ 0

pub insert_block-Starts :
    (b : ParityBlock) (bs : List ParityBlock) → b.offset ≡ 0 → Starts (insert_block b bs)
unfolding insert_block
insert_block-Starts b [] e = e
insert_block-Starts b (c ∷ cs) e =
    if_either Starts (ltb b.offset c.offset) (λ _. e)
      (λ n.
        if_either Starts (b.offset == c.offset) (λ h. ground (arith, h, e))
          (λ h. absurd (ground (arith, n, h, e))))

pub insert_block-later :
    (b c : ParityBlock) (cs : List ParityBlock)
    → c.offset ≡ 0
    → 0 < b.offset
    → Starts (insert_block b (c ∷ cs))
unfolding insert_block
insert_block-later b c cs s h =
    if_either Starts (ltb b.offset c.offset) (λ e. absurd (ground (arith, e, s)))
      (λ _. if_either Starts (b.offset == c.offset) (λ _. s) (λ _. s))

-- A block that takes the place of the one with its offset.
replaced-Starts :
    (b : ParityBlock) (bs : List ParityBlock)
    → Starts bs
    → Starts (insert_block b (erase_block b.offset bs))
unfolding erase_block
replaced-Starts b (c ∷ cs) s =
    if_either (λ bs. Starts (insert_block b bs)) (c.offset == b.offset)
      (λ e. insert_block-Starts b cs (ground (arith, e, s)))
      (λ e. insert_block-later b c (erase_block b.offset cs) s (ground (arith, e, s)))
replaced-Starts b [] s = absurd s

block_before-some :
    (p : ℕ) (bs : List ParityBlock) → Starts bs → Runs (block_before p bs) (λ _. Unit)
unfolding block_before
block_before-some p [] s = s
block_before-some p (c ∷ cs) s =
    if_either (λ (o : Option ParityBlock). Runs o (λ _. Unit {0})) (ltb p c.offset)
      (λ e. absurd (ground (arith, e, s))) (λ _. last_of (block_before p cs))
  where
    last_of :
        (o : Option ParityBlock) → Runs (elim o [ none ↦ some c | some d ↦ some d ]) (λ _. Unit {0})
    last_of none = tt
    last_of (some d) = tt

pub contains-insert : (i q : ℕ) (ps : List ℕ) → contains i (insert q ps) ≡ (q == i || contains i ps)
unfolding insert contains
contains-insert i q ps =
    if_either (λ (qs : List ℕ). contains i qs ≡ (q == i || contains i ps)) (contains q ps)
      (λ e. elim (Bool-cases (q == i)) [
        | inl same ↦ rw (same, ← (==_iff q i).0 same) e
        | inr other ↦ rw other refl
      ])
      (λ _. refl)

pub insert-Distinct : (q : ℕ) (ps : List ℕ) → Distinct ps → Distinct (insert q ps)
unfolding insert
insert-Distinct q ps d = if_either Distinct (contains q ps) (λ _. d) (λ e. (e, d))

-- Only the sets of blocks change.
unfoldable pub BlocksOnly : Checker → Checker → Type 0
BlocksOnly c c' =
    c' ≡ record c { parity_blocks = c'.parity_blocks; odd_parity_blocks = c'.odd_parity_blocks }

toggle-Starts :
    (c : Checker) (b : ParityBlock) → Starts c.parity_blocks → Starts (toggle c b).parity_blocks
unfolding toggle
toggle-Starts c b s = replaced-Starts (record b { diffparity = not b.diffparity }) c.parity_blocks s

pub bit_change_remote-Starts :
    (p : ℕ) (c : Checker)
    → Starts c.parity_blocks
    → Runs (bit_change_remote p c) (λ c'. BlocksOnly c c' × Starts c'.parity_blocks)
unfolding bit_change_remote BlocksOnly
bit_change_remote-Starts p c s =
    found (block_before (get_or c.perm p 0) c.parity_blocks)
      (block_before-some (get_or c.perm p 0) c.parity_blocks s)
  where
    found :
        (o : Option ParityBlock)
        → Runs o (λ _. Unit {0})
        → Runs
            (elim o [
              | none ↦ none
              | some b ↦ some (
                  if ltb (get_or c.perm p 0) b.offset || leb (block_end b) (get_or c.perm p 0)
                  then c
                  else toggle c b)
            ])
            (λ c'. BlocksOnly c c' × Starts c'.parity_blocks)
    found none h = h
    found (some b) h =
        if_either (λ (c' : Checker). BlocksOnly c c' × Starts c'.parity_blocks)
          (ltb (get_or c.perm p 0) b.offset || leb (block_end b) (get_or c.perm p 0))
          (λ _. (refl, s)) (λ _. (unfold toggle in refl, toggle-Starts c b s))
