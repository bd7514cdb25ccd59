-- ===== src/ErrorEstimation/Disclosed.antt =====
-- The positions that bin/modules/qkd-error-estimation discloses: the mask, the bits that are left, and
-- where the errors are.
use ait_qkd.Prelude.{
  ℕ, zero, suc, ◌+◌, ◌≤◌, ◌<◌, ◌≡◌, refl, sym, ap, ◌∙◌, List, [], ◌∷◌, ◌++◌, some, none, ◌-◌, Bool,
  true, false, inl, inr, Bool-cases, lt→ltb, ◌==◌, ==_iff, if◌then◌else◌, length, length-append,
  set, replicate, All, arith,
}
use mathlib.Core.List.{append_assoc}
use ait_qkd.Bigint.{and_bits, xor_bits, bits_set}
use ait_qkd.ErrorEstimation.{pick_positions, mark, extract}

module _ (disclose : ℕ → Bool) where
  -- The bits of a mask from position `i` on, and the bits that are left.
  unfoldable pub mask_from : ℕ → ℕ → List Bool
  mask_from i zero = []
  mask_from i (suc count) = disclose i ∷ mask_from (i + 1) count

  unfoldable pub left_from : ℕ → List Bool → List Bool
  left_from i [] = []
  left_from i (b ∷ bs) = let rest = left_from (i + 1) bs in if disclose i then rest else b ∷ rest

  pub length-left_from :
      (i : ℕ) (bs : List Bool)
      → length (left_from i bs) + length (pick_positions disclose i (length bs)) ≡ length bs
  unfolding left_from pick_positions
  length-left_from i [] = refl
  length-left_from i (b ∷ bs) = ground (arith, length-left_from (i + 1) bs)

  pub length-mask_from : (i count : ℕ) → length (mask_from i count) ≡ count
  unfolding mask_from
  length-mask_from i zero = refl
  length-mask_from i (suc count) = ap suc (length-mask_from (i + 1) count)

  picked-later : (i count : ℕ) → All (λ p. i ≤ p) (pick_positions disclose i count)
  unfolding pick_positions
  picked-later i zero = tt
  picked-later i (suc count) = elim (Bool-cases (disclose i)) [
    | inl e ↦
        rw e
          (omega arith, weaken (pick_positions disclose (i + 1) count) (picked-later (i + 1) count))
    | inr e ↦ rw e (weaken (pick_positions disclose (i + 1) count) (picked-later (i + 1) count))
  ]
    where
      weaken : (ps : List ℕ) → All (λ p. i + 1 ≤ p) ps → All (λ p. i ≤ p) ps
      weaken [] h = tt
      weaken (p ∷ ps) h = (omega (arith, h.0), weaken ps h.1)

  other : (i j : ℕ) → i < j → (i == j) ≡ false
  other i j lt = ground (arith, lt)

  extract-picked :
      (i : ℕ) (ps : List ℕ) (b : Bool) (bs : List Bool)
      → extract i (i ∷ ps) (b ∷ bs) ≡ extract (i + 1) ps bs
  unfolding extract
  extract-picked i ps b bs = rw (extract, (==_iff i i).1 refl) refl

  -- A position before all that are picked is left, where bits remain.
  extract-other :
      (i : ℕ) (ps : List ℕ) (b c : Bool) (bs xs : List Bool)
      → All (λ p. i + 1 ≤ p) ps
      → extract (i + 1) ps (c ∷ bs) ≡ some xs
      → extract i ps (b ∷ c ∷ bs) ≡ some (b ∷ xs)
  unfolding extract
  extract-other i [] b c bs xs h e = ground (arith, e)
  extract-other i (p ∷ ps) b c bs xs h e = rw (extract, other i p (omega (arith, h.0)), e) refl

  -- Where the last bit is picked, the bits that are left are extracted.
  pub extract-left_from :
      (i last : ℕ) (bs : List Bool)
      → i + length bs - 1 ≡ last
      → disclose last ≡ true
      → extract i (pick_positions disclose i (length bs)) bs ≡ some (left_from i bs)
  unfolding pick_positions left_from
  extract-left_from i last [] e d = unfold extract in refl
  extract-left_from i last (b ∷ []) e d =
      let here : disclose i ≡ true = ap disclose {y = last} (omega (arith, e)) ∙ d in
      rw (here, extract-picked i [] b []) (unfold extract in refl)
  extract-left_from i last (b ∷ c ∷ bs) e d =
      let later = extract-left_from (i + 1) last (c ∷ bs) (omega (arith, e)) d in
      elim (Bool-cases (disclose i)) [
        | inl f ↦
            rw (f, extract-picked i (pick_positions disclose (i + 1) (length (c ∷ bs))) b (c ∷ bs))
              later
        | inr f ↦ rw f (
            extract-other i (pick_positions disclose (i + 1) (length (c ∷ bs))) b c bs
              (left_from (i + 1) (c ∷ bs)) (picked-later (i + 1) (length (c ∷ bs))) later)
      ]

  extract-other_undefined :
      (i : ℕ) (ps : List ℕ) (b : Bool) (bs : List Bool)
      → All (λ p. i + 1 ≤ p) ps
      → extract (i + 1) ps bs ≡ none
      → extract i ps (b ∷ bs) ≡ none
  unfolding extract
  extract-other_undefined i [] b bs h e = refl
  extract-other_undefined i (p ∷ ps) b bs h e = rw (extract, other i p (omega (arith, h.0)), e) refl

  -- Where it is not picked, the loop is undefined.
  pub extract_undefined :
      (i last : ℕ) (bs : List Bool)
      → i + length bs ≡ last + 1
      → i ≤ last
      → disclose last ≡ false
      → extract i (pick_positions disclose i (length bs)) bs ≡ none
  unfolding pick_positions
  extract_undefined i last [] e le d = absurd (omega (arith, e, le))
  extract_undefined i last (b ∷ []) e le d =
      let here : disclose i ≡ false = ap disclose {y = last} (omega (arith, e)) ∙ d in
      rw here (unfold extract in refl)
  extract_undefined i last (b ∷ c ∷ bs) e le d =
      let later = extract_undefined (i + 1) last (c ∷ bs) (omega (arith, e)) (omega (arith, e)) d in
      elim (Bool-cases (disclose i)) [
        | inl f ↦
            rw (f, extract-picked i (pick_positions disclose (i + 1) (length (c ∷ bs))) b (c ∷ bs))
              later
        | inr f ↦ rw f (
            extract-other_undefined i (pick_positions disclose (i + 1) (length (c ∷ bs))) b (c ∷ bs)
              (picked-later (i + 1) (length (c ∷ bs))) later)
      ]

  -- The errors at the disclosed positions and those in the bits that are left are all of them.
  pub errors-split :
      (i : ℕ) (xs ys : List Bool)
      → length xs ≡ length ys
      → bits_set (xor_bits xs ys)
        ≡ bits_set (
            xor_bits
              (and_bits xs (mask_from i (length xs)))
              (and_bits ys (mask_from i (length xs))))
          + bits_set (xor_bits (left_from i xs) (left_from i ys))
  unfolding bits_set xor_bits and_bits mask_from left_from
  errors-split i [] [] e = refl
  errors-split i (x ∷ xs) (y ∷ ys) e = elim (Bool-cases (disclose i)) [
    | inl d ↦ rw d (ground (arith, errors-split (i + 1) xs ys (omega (arith, e))))
    | inr d ↦ rw d (ground (arith, errors-split (i + 1) xs ys (omega (arith, e))))
  ]
  errors-split i [] (y ∷ ys) e = absurd (omega (arith, e))
  errors-split i (x ∷ xs) [] e = absurd (omega (arith, e))

  marked_last :
      (pre : List Bool) (x y : Bool) (rest : List Bool)
      → set (pre ++ x ∷ rest) (length pre) y ≡ (pre ++ y ∷ []) ++ rest
  marked_last [] x y rest = refl
  marked_last (p ∷ pre) x y rest = ap (◌∷◌ p) (marked_last pre x y rest)

  mark-first :
      (p : ℕ) (ps : List ℕ) (m : List Bool)
      → p < length m
      → mark (p ∷ ps) m ≡ mark ps (set m p true)
  unfolding mark
  mark-first p ps m lt = rw (mark, lt→ltb p (length m) lt) refl

  pub mark-mask_from :
      (i count : ℕ) (pre : List Bool)
      → length pre ≡ i
      → mark (pick_positions disclose i count) (pre ++ replicate count false)
        ≡ some (pre ++ mask_from i count)
  unfolding pick_positions mask_from
  mark-mask_from i zero pre e = unfold mark in refl
  mark-mask_from i (suc count) pre e = elim (Bool-cases (disclose i)) [
    | inl d ↦ rw d (
        mark-first i ps (pre ++ false ∷ replicate count false)
          (omega (arith, e, length-append pre (false ∷ replicate count false)))
        ∙ ap (mark ps) (
            ap (λ j. set (pre ++ false ∷ replicate count false) j true) (sym e)
            ∙ marked_last pre false true (replicate count false))
        ∙ mark-mask_from (i + 1) count (pre ++ true ∷ []) (longer true)
        ∙ ap some (append_assoc pre (true ∷ []) (mask_from (i + 1) count)))
    | inr d ↦ rw d (
        ap (mark ps) (sym (append_assoc pre (false ∷ []) (replicate count false)))
        ∙ mark-mask_from (i + 1) count (pre ++ false ∷ []) (longer false)
        ∙ ap some (append_assoc pre (false ∷ []) (mask_from (i + 1) count)))
  ]
    where
      ps : List ℕ
      ps = pick_positions disclose (i + 1) count

      longer : (b : Bool) → length (pre ++ b ∷ []) ≡ i + 1
      longer b = omega (arith, length-append pre (b ∷ []), e)
