-- ===== src/Cascade/Turning.antt =====
-- Both frames of the error correction, bin/modules/qkd-cascade/parity-checker.cpp: a block of one
-- bit that is found to be wrong is corrected.
use ait_qkd.Prelude.{
  ℕ, suc, ◌<◌, ◌≡◌, refl, sym, ap, ap₂, ◌∙◌, List, [], map, Option, none, some, ◌>>=◌, Bool, true,
  false, not, leb, length, get_or, set, length-set, arith, Both, Both-bind,
}
use mathlib.Core.Path.{subst}
use ait_qkd.Cascade.Frame.{
  ◌xor◌, ParityBlock, Frame, insert, bit_change_remote, bit_change_local, correct_bit, each,
  get_bit, set_bit, flip_bit, notify_bit_change_remote, notify_correct_bit,
}
use ait_qkd.Cascade.Together.{AllPaired, Together, errors, errors-set, each-AllPaired, at-Paired}
use ait_qkd.Cascade.Correct.{own, correct_single}
use ait_qkd.Cascade.Paired.{Paired}

xor_not : (x : Bool) → (x xor not x) ≡ true
xor_not true = refl
xor_not false = refl

bind_twice :
    {A B C : Type 0} (k : A → B) (k' : B → C) (m : Option A)
    → (do
      b ← do a ← m; some (k a)
      some (k' b))
      ≡ (do a ← m; some (k' (k a)))
bind_twice k k' none = refl
bind_twice k k' (some a) = refl

-- Bob's turn and alice's note of one bit at which they differ.
module _ (n : ℕ) (tables : List (List ℕ)) (f g : Frame) (h : Together n tables f g) (p : ℕ)
    (inside : p < n) (differs : get_bit f p xor get_bit g p ≡ true) where
  outside : (x : Frame) → length x.key ≡ n → leb (length x.key) p ≡ false
  outside x e = ground (arith, e, inside)

  abbrev new_key : List Bool
  new_key = set g.key p (not (get_bit g p))

  noticed : Frame → Option Frame
  noticed f = do
    cs ← each (bit_change_remote p) f.checkers
    some (record f { corrected_bits = insert p f.corrected_bits; checkers = cs })

  noticed-is : notify_bit_change_remote p f ≡ noticed f
  unfolding notify_bit_change_remote noticed
  noticed-is = rw (outside f h.size_a) refl

  flipped : Frame → Option Frame
  flipped g = do
    cs ← each (bit_change_local p) g.checkers
    some (record g {
      key = set g.key p (not (get_bit g p));
      checkers = cs;
      corrected_bits = insert p g.corrected_bits;
    })

  flipped-is : flip_bit p g ≡ flipped g
  unfolding flip_bit set_bit flipped
  flipped-is =
      rw (outside g h.size_b, xor_not (get_bit g p))
        (bind_twice _ _ (each (bit_change_local p) g.checkers))

  -- What is left once all checkers are told.
  Told : Frame → Frame → Type 0
  Told f' g' =
      (f'.key ≡ f.key)
      × (g'.key ≡ new_key)
      × AllPaired n tables f.key new_key (map (correct_bit p) f'.checkers)
          (map (correct_bit p) g'.checkers)

  told : Both (noticed f) (flipped g) Told
  unfolding noticed flipped Told get_bit
  told =
      Both-bind
        (λ cs ds.
          AllPaired n tables f.key new_key (map (correct_bit p) cs) (map (correct_bit p) ds))
        Told (each (bit_change_remote p) f.checkers) (each (bit_change_local p) g.checkers) _ _
        (each-AllPaired n f.key g.key p inside h.size_b differs tables f.checkers g.checkers
          h.paired)
        (λ cs ds r. (refl, refl, r))

  noted-Together :
      (f' g' : Frame)
      → Told f' g'
      → Together n tables (notify_correct_bit p f') (notify_correct_bit p g')
        × ((notify_correct_bit p f').key ≡ f.key)
        × ((notify_correct_bit p g').key ≡ new_key)
        × (suc (errors (notify_correct_bit p f').key (notify_correct_bit p g').key)
            ≡ errors f.key g.key)
  unfolding Told notify_correct_bit get_bit
  noted-Together f' g' t =
      let size_f : length f'.key ≡ n = ap length t.0 ∙ h.size_a in
      let size_g : length g'.key ≡ n =
        ap length t.1 ∙ length-set g.key p (not (get_bit g p)) ∙ h.size_b in
      rw (outside f' size_f, outside g' size_g)
        (
          record {
            size_a = size_f;
            size_b = size_g;
            paired =
                subst
                  (λ k.
                    AllPaired n tables k g'.key (map (correct_bit p) f'.checkers)
                      (map (correct_bit p) g'.checkers))
                  (sym t.0)
                  (subst
                    (λ k.
                      AllPaired n tables f.key k (map (correct_bit p) f'.checkers)
                        (map (correct_bit p) g'.checkers))
                    (sym t.1) t.2);
          },
          t.0,
          t.1,
          ap₂ (λ x y. suc (errors x y)) t.0 t.1
              ∙ errors-set f.key g.key p (h.size_a ∙ sym h.size_b) (omega (arith, inside, h.size_b))
                  differs,
        )

  turn-Together :
      Both
        (do f' ← notify_bit_change_remote p f; some (notify_correct_bit p f'))
        (do g' ← flip_bit p g; some (notify_correct_bit p g'))
        (λ f' g'.
          Together n tables f' g'
          × (f'.key ≡ f.key)
          × (g'.key ≡ set g.key p (not (get_bit g p)))
          × (suc (errors f'.key g'.key) ≡ errors f.key g.key))
  turn-Together =
      rw (noticed-is, flipped-is)
        (Both-bind Told
          (λ f' g'.
            Together n tables f' g'
            × (f'.key ≡ f.key)
            × (g'.key ≡ set g.key p (not (get_bit g p)))
            × (suc (errors f'.key g'.key) ≡ errors f.key g.key))
          (noticed f) (flipped g) _ _ told noted-Together)

-- A block of one bit within the key at which the keys of two sides in step differ, where the first
-- side is alice and the second one bob: neither side fails, they are in step again, alice's key is as
-- it was, bob's has this bit turned and nothing else, and there is one error less.
pub correct_single-Together :
    (n : ℕ) (tables : List (List ℕ)) (f g : Frame) (i : ℕ) (b : ParityBlock)
    → Together n tables f g
    → i < length tables
    → b.offset < n
    → let p = get_or (get_or tables i []) b.offset 0 in
      get_bit f p xor get_bit g p ≡ true
      → Both (correct_single i b f) (correct_single i b g) (λ f' g'.
        Together n tables f' g'
        × (f'.key ≡ f.key)
        × (g'.key ≡ set g.key p (not (get_bit g p)))
        × (suc (errors f'.key g'.key) ≡ errors f.key g.key))
unfolding correct_single own
correct_single-Together n tables f g i b h there inside differs =
    let pair : Paired n (get_or tables i []) f.key g.key (own i f) (own i g) =
      at-Paired _ _ tables f.checkers g.checkers i there h.paired in
    let here : get_or (get_or tables i []) b.offset 0 < n =
      subst (λ inv. get_or inv b.offset 0 < n) pair.table
        (pair.is_permutation.inverse-lt b.offset inside) in
    rw (pair.is_alice, pair.is_bob, pair.same_inv_perm, pair.table)
      (turn-Together n tables f g h (get_or (get_or tables i []) b.offset 0) here differs)
