-- ===== src/Cascade/Correcting.antt =====
-- `correct_blocks`, bin/modules/qkd-cascade/parity-checker.cpp, on both sides: every block with an odd
-- number of errors ends with one error corrected.
use ait_qkd.Prelude.{
  ℕ, zero, suc, ◌+◌, ◌*◌, ◌^◌, ◌≤◌, ◌<◌, ◌≡◌, refl, sym, ap, ap₂, ◌∙◌, List, [], ◌∷◌, Bool, false,
  length, arith, All, Option, none, some, ◌>>=◌,
}
use mathlib.Core.Path.{subst}
use native.Mathlib.Nat.{pow-succ'}
use ait_qkd.Cascade.Frame.{ParityBlock, Frame}
use ait_qkd.Cascade.Checker.{Link, Calculated, calculate_block_diffparities}
use ait_qkd.Cascade.Correct.{
  own, halve, descend, search_rounds, search_rounds_or, look_up, correct_blocks,
}
use ait_qkd.Cascade.Together.{Together, errors}
use ait_qkd.Cascade.Announcing.{At, differ_at}
use ait_qkd.Cascade.Descending.{AllHalved, descend-At}
use ait_qkd.Cascade.Splitting.{HasError, Apart, Split, differ_in, halve-Split}
use ait_qkd.Cascade.Meeting.{
  Meeting, Meeting-bind, Meeting-exchange, Meeting-done, Meeting-map, after_exchange,
}
use ait_qkd.Cascade.Searching.{
  done, exchange_a, exchange_b, after_exchange-At, found, sent_a, sent_b,
}
use ait_qkd.Cascade.Narrowing.{narrow-Apart, Left, narrow-Left}

module _ (n : ℕ) (tables : List (List ℕ)) (i : ℕ) (there : i < length tables)
    (wide : n < 2 ^ 32) where
  next_round : ℕ → List ParityBlock → Calculated → Option (Frame × Link)
  next_round fuel left r =
      let (next, f') = descend i left r.blocks r.frame in search_rounds i fuel next f' r.link

  after_halves : ℕ → List ParityBlock → List ParityBlock → Frame → Link → Option (Frame × Link)
  after_halves fuel left calc f l = do
    r ← calculate_block_diffparities (own i) calc false f l
    next_round fuel left r

  after_halves-Meeting :
      (R : Frame → Frame → Type 0) (fuel m : ℕ) (left calc : List ParityBlock) (f g : Frame)
      (t : Together n tables f g)
      → All (λ k. k.offset + k.size ≤ n) calc
      → AllHalved i (differ_in n tables i there f g) n left (found n tables i there f g t calc)
      → All (λ b. b.size ≤ m) left
      → Apart left
      → ((next : List ParityBlock) (f' g' : Frame)
          → At n tables f.key g.key f' g'
          → Left (differ_in n tables i there f g) n m left next
          → Apart next
          → Meeting (λ l. search_rounds i fuel next f' l) (λ l. search_rounds i fuel next g' l) R)
      → Meeting (after_halves fuel left calc f) (after_halves fuel left calc g) R
  unfolding after_halves next_round done
  after_halves-Meeting R fuel m left calc f g t inside halved sizes apart continue =
      let ks = found n tables i there f g t calc in
      let down =
        descend-At n tables f.key g.key i there left ks _ _ halved
          (after_exchange-At n tables i there f g t calc inside) in
      Meeting-exchange R (calculate_block_diffparities (own i) calc false f)
        (calculate_block_diffparities (own i) calc false g) (done n tables i there f g t calc f)
        (done n tables i there f g t calc g) (sent_a n tables i there f g t calc)
        (sent_b n tables i there f g t calc) (next_round fuel left) (next_round fuel left)
        (exchange_a n tables i there f g t calc inside)
        (exchange_b n tables i there f g t calc inside)
        (subst
          (λ next.
            Meeting
              (λ l.
                search_rounds i fuel (descend i left ks (after_exchange (own i) calc ks f)).0
                  (descend i left ks (after_exchange (own i) calc ks f)).1 l)
              (λ l.
                search_rounds i fuel next (descend i left ks (after_exchange (own i) calc ks g)).1
                  l)
              R)
          down.0
          (continue _ _ _ down.1
            (narrow-Left i (differ_in n tables i there f g) n m left ks _ halved down.2 sizes)
            (narrow-Apart (differ_in n tables i there f g) left _ down.2 apart)))

  -- A round on both sides.
  round-Meeting :
      (R : Frame → Frame → Type 0) (fuel m : ℕ) (b : ParityBlock) (bs : List ParityBlock)
      (f g : Frame)
      → Together n tables f g
      → All (HasError (differ_in n tables i there f g) n) (b ∷ bs)
      → Apart (b ∷ bs)
      → All (λ k. k.size ≤ m) (b ∷ bs)
      → ((next : List ParityBlock) (f' g' : Frame)
          → Together n tables f' g'
          → (f'.key ≡ f.key)
          → errors f'.key g'.key + length (b ∷ bs) ≡ errors f.key g.key + length next
          → All (HasError (differ_in n tables i there f' g') n) next
          → All (λ k. (2 * k.size ≤ m + 1) × (1 < m)) next
          → Apart next
          → Meeting (λ l. search_rounds i fuel next f' l) (λ l. search_rounds i fuel next g' l) R)
      → Meeting
          (λ l. search_rounds i (suc fuel) (b ∷ bs) f l)
          (λ l. search_rounds i (suc fuel) (b ∷ bs) g l)
          R
  unfolding search_rounds_or after_halves next_round
  round-Meeting R fuel m b bs f g t errors_in apart sizes continue =
      Meeting-bind (Split n tables i there f g (b ∷ bs)) R (halve i (b ∷ bs) f) (halve i (b ∷ bs) g)
        (λ h. after_halves fuel h.left h.calc h.frame)
        (λ h. after_halves fuel h.left h.calc h.frame)
        (halve-Split n tables i there wide (b ∷ bs) f g t errors_in apart)
        (λ r s h.
          subst
            (λ left.
              Meeting (after_halves fuel r.left r.calc r.frame)
                (after_halves fuel left s.calc s.frame) R)
            h.left
            (subst
              (λ calc.
                Meeting (after_halves fuel r.left r.calc r.frame)
                  (after_halves fuel r.left calc s.frame) R)
              h.calc
              (after_halves-Meeting R fuel m r.left r.calc r.frame s.frame h.together h.within
                h.halved (h.no_larger m sizes) h.apart
                (λ next f' g' at left apart'.
                  continue next f' g' at.0 (at.1 ∙ h.key_a)
                    (ap₂ (λ x y. errors x y + length (b ∷ bs)) at.1 at.2
                      ∙ h.fewer
                      ∙ ap (λ k. errors f.key g.key + k) (sym left.count))
                    (subst (λ x. All (HasError (differ_at tables i x g'.key) n) next) (sym at.1)
                      (subst (λ y. All (HasError (differ_at tables i r.frame.key y) n) next)
                        (sym at.2) left.errors_in))
                    left.smaller apart'))))

  -- What is so at the end: as many errors less as there are blocks in `bs`.
  abbrev pub Solved : Frame → Frame → ℕ → Frame → Frame → Type 0
  Solved f g count f' g' =
      Together n tables f' g'
      × (f'.key ≡ f.key)
      × (errors f'.key g'.key + count ≡ errors f.key g.key)

  -- With a round for each halving and two more.
  search_rounds-Meeting :
      (m : ℕ) (bs : List ParityBlock) (f g : Frame)
      → Together n tables f g
      → All (HasError (differ_in n tables i there f g) n) bs
      → Apart bs
      → All (λ b. b.size ≤ 2 ^ m) bs
      → Meeting
          (λ l. search_rounds i (suc (suc m)) bs f l)
          (λ l. search_rounds i (suc (suc m)) bs g l)
          (Solved f g (length bs))
  search_rounds-Meeting m [] f g t h a s =
      unfold search_rounds_or in Meeting-done (Solved f g 0) f g (t, refl, omega arith)
  search_rounds-Meeting zero (b ∷ bs) f g t h a s =
      round-Meeting (Solved f g (length (b ∷ bs))) 1 1 b bs f g t h a s ended
    where
      ended :
          (next : List ParityBlock) (f' g' : Frame)
          → Together n tables f' g'
          → (f'.key ≡ f.key)
          → errors f'.key g'.key + length (b ∷ bs) ≡ errors f.key g.key + length next
          → All (HasError (differ_in n tables i there f' g') n) next
          → All (λ k. (2 * k.size ≤ 1 + 1) × (1 < 1)) next
          → Apart next
          → Meeting
              (λ l. search_rounds i 1 next f' l)
              (λ l. search_rounds i 1 next g' l)
              (Solved f g (length (b ∷ bs)))
      ended [] f' g' t' key e h' s' a' =
          unfold search_rounds_or in
          Meeting-done (Solved f g (length (b ∷ bs))) f' g' (t', key, omega (arith, e))
      ended (k ∷ ks) f' g' t' key e h' s' a' = absurd (omega (arith, s'.0.1))
  search_rounds-Meeting (suc m) (b ∷ bs) f g t h a s =
      round-Meeting (Solved f g (length (b ∷ bs))) (suc (suc m)) (2 ^ suc m) b bs f g t h a s
        (λ next f' g' t' key e h' s' a'.
          Meeting-map (Solved f' g' (length next)) (Solved f g (length (b ∷ bs)))
            (λ l. search_rounds i (suc (suc m)) next f' l)
            (λ l. search_rounds i (suc (suc m)) next g' l)
            (λ f'' g'' k. (k.0, k.1 ∙ key, omega (arith, k.2, e)))
            (search_rounds-Meeting m next f' g' t' h' a' (halved_sizes m next s')))
    where
      halved_sizes :
          (m : ℕ) (ks : List ParityBlock)
          → All (λ k. (2 * k.size ≤ 2 ^ suc m + 1) × (1 < 2 ^ suc m)) ks
          → All (λ k. k.size ≤ 2 ^ m) ks
      halved_sizes m [] h = tt
      halved_sizes m (k ∷ ks) h = (omega (arith, h.0.0, pow-succ' 2 m), halved_sizes m ks h.1)

  All-small :
      (bit : ℕ → Bool) (bs : List ParityBlock)
      → All (HasError bit n) bs
      → All (λ b. b.size ≤ 2 ^ 32) bs
  All-small bit [] h = tt
  All-small bit (b ∷ bs) h = (omega (arith, h.0.fits), All-small bit bs h.1)

  -- `correct_blocks` of the same checker on two sides in step, the first one alice and the second one
  -- bob, whose keys have the same length below 2 ^ 32, for blocks that both know as odd, that do not
  -- overlap, are within the key, and in each of which the keys differ at an odd number of bits, each
  -- size plus one below 2 ^ 32: for some messages, both sides run to the end, each on just the
  -- messages that the other one sends, they are in step again, alice's key is as it was, and the keys
  -- differ at as many bits less as there are blocks.
  pub correct_blocks-Meeting :
      (blocks bs : List ParityBlock) (f g : Frame)
      → Together n tables f g
      → look_up (own i f) blocks ≡ some bs
      → look_up (own i g) blocks ≡ some bs
      → All (HasError (differ_in n tables i there f g) n) bs
      → Apart bs
      → Meeting
          (λ l. correct_blocks i blocks f l)
          (λ l. correct_blocks i blocks g l)
          (Solved f g (length bs))
  unfolding correct_blocks
  correct_blocks-Meeting blocks bs f g t known_a known_b h a =
      subst (λ run. Meeting run (λ l. correct_blocks i blocks g l) (Solved f g (length bs)))
        (sym (searched f known_a))
        (subst (λ run. Meeting (λ l. search_rounds i 34 bs f l) run (Solved f g (length bs)))
          (sym (searched g known_b))
          (search_rounds-Meeting 32 bs f g t h a (All-small (differ_in n tables i there f g) bs h)))
    where
      searched :
          (x : Frame)
          → look_up (own i x) blocks ≡ some bs
          → correct_blocks i blocks x ≡ search_rounds i 34 bs x
      searched x known =
          ap {B = Link → Option (Frame × Link)}
            (λ o l. elim o [ none ↦ some (x, l) | some cs ↦ search_rounds i 34 cs x l ]) known
