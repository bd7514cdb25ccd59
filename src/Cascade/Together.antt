-- ===== src/Cascade/Together.antt =====
-- Both frames of the error correction, bin/modules/qkd-cascade/frame.cpp: what a correction and the
-- note of a correct bit do to them.
use ait_qkd.Prelude.{
  ℕ, zero, suc, ◌<◌, ◌≡◌, sym, List, [], ◌∷◌, map, Bool, true, false, not, if◌then◌else◌, length,
  get_or, set, arith, Runs-bind, Runs-map, Both, Both-bind,
}
use mathlib.Core.Path.{subst}
use ait_qkd.Cascade.Frame.{
  ◌xor◌, Checker, Frame, insert, bit_change_remote, bit_change_local, correct_bit, each,
}
use ait_qkd.Cascade.Flipping.{Starts, BlocksOnly, bit_change_remote-Starts}
use ait_qkd.Cascade.Paired.{Paired, noted, turned-Paired, correct_bit-Paired}

-- The checkers of the two frames, one by one.
unfoldable pub AllPaired :
    ℕ → List (List ℕ) → List Bool → List Bool → List Checker → List Checker → Type 0
AllPaired n [] key_a key_b [] [] = Unit
AllPaired n (inv ∷ tables) key_a key_b (a ∷ cs) (b ∷ ds) =
    Paired n inv key_a key_b a b × AllPaired n tables key_a key_b cs ds
AllPaired n _ key_a key_b _ _ = ⊥

-- The two sides are in step.
pub record Together (n : ℕ) (tables : List (List ℕ)) (f g : Frame) : Type 0 where
  pub size_a : length f.key ≡ n
  pub size_b : length g.key ≡ n
  pub paired : AllPaired n tables f.key g.key f.checkers g.checkers

-- The number of positions at which the keys differ.
unfoldable pub errors : List Bool → List Bool → ℕ
errors (x ∷ xs) (y ∷ ys) = let rest = errors xs ys in if x xor y then suc rest else rest
errors _ _ = 0

pub errors-set :
    (xs ys : List Bool) (p : ℕ)
    → length xs ≡ length ys
    → p < length ys
    → get_or xs p false xor get_or ys p false ≡ true
    → suc (errors xs (set ys p (not (get_or ys p false)))) ≡ errors xs ys
unfolding errors
errors-set (x ∷ xs) (y ∷ ys) zero s h d = ground (arith, d)
errors-set (x ∷ xs) (y ∷ ys) (suc p) s h d =
    ground (arith, errors-set xs ys p (omega (arith, s)) (omega (arith, h)) d)
errors-set xs [] p s h d = absurd (omega (arith, h))
errors-set [] (y ∷ ys) p s h d = absurd (omega (arith, s))

module _ (n : ℕ) (key_a key_b : List Bool) (p : ℕ) (inside : p < n) where
  pub correct_bit-AllPaired :
      (tables : List (List ℕ)) (cs ds : List Checker)
      → get_or key_a p false ≡ get_or key_b p false
      → AllPaired n tables key_a key_b cs ds
      → AllPaired n tables key_a key_b (map (correct_bit p) cs) (map (correct_bit p) ds)
  unfolding AllPaired
  correct_bit-AllPaired [] [] [] e h = tt
  correct_bit-AllPaired (inv ∷ tables) (a ∷ cs) (b ∷ ds) e h =
      (correct_bit-Paired h.0 p inside e, correct_bit-AllPaired tables cs ds e h.1)
  correct_bit-AllPaired _ _ _ e h = absurd h

  module _ (size_b : length key_b ≡ n)
      (differs : get_or key_a p false xor get_or key_b p false ≡ true) where
    abbrev key' : List Bool
    key' = set key_b p (not (get_or key_b p false))

    one-Paired :
        (inv : List ℕ) (a b : Checker)
        → Paired n inv key_a key_b a b
        → Both
            (bit_change_remote p a)
            (bit_change_local p b)
            (λ a' b'. Paired n inv key_a key' (correct_bit p a') (correct_bit p b'))
    unfolding correct_bit bit_change_local BlocksOnly
    one-Paired inv a b h =
        Runs-map (λ a'. BlocksOnly a a' × Starts a'.parity_blocks) _
          (λ a' s.
            Runs-bind (λ b'. BlocksOnly b b' × Starts b'.parity_blocks) _ (bit_change_remote p b) _
              (bit_change_remote-Starts p b h.starts_b)
              (λ b' t.
                subst
                  (λ c. Paired n inv key_a key' (correct_bit p c) (
                    correct_bit p
                      (record b' { changed_bits = insert (get_or b'.perm p 0) b'.changed_bits })))
                  (sym s.0)
                  (subst
                    (λ c.
                      Paired n inv key_a key' (noted p a'.parity_blocks a'.odd_parity_blocks a) (
                        correct_bit p
                          (record c { changed_bits = insert (get_or c.perm p 0) c.changed_bits })))
                    (sym t.0)
                    (turned-Paired h p inside size_b differs a'.parity_blocks a'.odd_parity_blocks
                      b'.parity_blocks b'.odd_parity_blocks s.1 t.1))))
          (bit_change_remote p a) (bit_change_remote-Starts p a h.starts_a)

    pub each-AllPaired :
        (tables : List (List ℕ)) (cs ds : List Checker)
        → AllPaired n tables key_a key_b cs ds
        → Both (each (bit_change_remote p) cs) (each (bit_change_local p) ds) (λ cs' ds'.
          AllPaired n tables key_a key' (map (correct_bit p) cs') (map (correct_bit p) ds'))
    unfolding each AllPaired
    each-AllPaired [] [] [] h = tt
    each-AllPaired (inv ∷ tables) (a ∷ cs) (b ∷ ds) h =
        Both-bind (λ a' b'. Paired n inv key_a key' (correct_bit p a') (correct_bit p b'))
          (λ cs' ds'.
            AllPaired n (inv ∷ tables) key_a key' (map (correct_bit p) cs')
              (map (correct_bit p) ds'))
          (bit_change_remote p a) (bit_change_local p b) _ _ (one-Paired inv a b h.0)
          (λ a' b' r.
            Both-bind
              (λ cs' ds'.
                AllPaired n tables key_a key' (map (correct_bit p) cs') (map (correct_bit p) ds'))
              (λ cs' ds'.
                AllPaired n (inv ∷ tables) key_a key' (map (correct_bit p) cs')
                  (map (correct_bit p) ds'))
              (each (bit_change_remote p) cs) (each (bit_change_local p) ds) _ _
              (each-AllPaired tables cs ds h.1) (λ cs' ds' rs. (r, rs)))
    each-AllPaired _ _ _ h = absurd h

pub at-Paired :
    {n : ℕ} {key_a key_b : List Bool} (none_a none_b : Checker) (tables : List (List ℕ))
    (cs ds : List Checker) (i : ℕ)
    → i < length tables
    → AllPaired n tables key_a key_b cs ds
    → Paired n (get_or tables i []) key_a key_b (get_or cs i none_a) (get_or ds i none_b)
unfolding AllPaired
at-Paired x y (inv ∷ tables) (a ∷ cs) (b ∷ ds) zero lt h = h.0
at-Paired x y (inv ∷ tables) (a ∷ cs) (b ∷ ds) (suc i) lt h =
    at-Paired x y tables cs ds i (omega (arith, lt)) h.1
at-Paired x y [] cs ds i lt h = absurd (omega (arith, lt))
at-Paired x y (inv ∷ tables) [] ds i lt h = absurd h
at-Paired x y (inv ∷ tables) (a ∷ cs) [] i lt h = absurd h
