-- ===== src/Cascade/Tiling.antt =====
-- The blocks of a category, bin/modules/qkd-cascade/parity-checker.cpp: they tile it.
use ait_qkd.Prelude.{
  ℕ, zero, suc, ◌+◌, ◌-◌, ◌*◌, ◌/◌, ◌^◌, ◌≤◌, ◌<◌, ◌≡◌, ap, min, List, [], ◌∷◌, arith,
}
use mathlib.Core.Path.{subst, ◌∙◌}
use native.Mathlib.Nat.{
  add-mul, one-mul, suc-mul, add_comm, zero-mul, div-mul-le_self, lt-div-mul-add,
}
use ait_qkd.Cascade.Frame.{ParityBlock}
use ait_qkd.Cascade.Checker.{Category, split_from, split}

-- The blocks follow each other without a gap from `from` up to `to`, and each has at least one bit
-- and at most `k`.
abbrev pub Tiles : ℕ → ℕ → ℕ → List ParityBlock → Type 0
Tiles k from to [] = from ≡ to
Tiles k from to (b ∷ bs) =
    (b.offset ≡ from) × (0 < b.size) × (b.size ≤ k) × Tiles k (from + b.size) to bs

module _ (offset : ℕ) (g : Category) (some_bits : 0 < g.k) (fits : g.k < 2 ^ 32)
    (inside : offset + g.size ≤ 2 ^ 32) where
  split_from-Tiles :
      (count i : ℕ)
      → g.size ≤ i * g.k + count * g.k
      → i * g.k + count * g.k < g.size + g.k
      → Tiles g.k (offset + min (i * g.k) g.size) (offset + g.size) (split_from offset g count i)
  unfolding split_from
  split_from-Tiles zero i enough least = omega (arith, enough)
  split_from-Tiles (suc count) i enough least =
      let e : (i + 1) * g.k ≡ i * g.k + g.k =
        add-mul i 1 g.k ∙ ap (λ n. i * g.k + n) (one-mul g.k) in
      let f : suc count * g.k ≡ g.k + count * g.k =
        suc-mul count g.k ∙ add_comm (count * g.k) g.k in
      let rest =
        split_from-Tiles count (i + 1) (omega (arith, e, f, enough)) (omega (arith, e, f, least)) in
      (
        omega (arith, f, least, some_bits, inside),
        omega (arith, f, least, some_bits, fits),
        omega (arith, fits),
        subst (λ from. Tiles g.k from (offset + g.size) (split_from offset g count (i + 1)))
            (omega (arith, e, f, least, fits)) rest,
      )

  -- The blocks that the constructor makes of a category, whose block size is not 0 and fits 32 bits
  -- and whose positions fit 32 bits, follow each other without a gap or an overlap from its first
  -- bit to its last one, and none is empty or larger than the block size.
  pub split-Tiles : Tiles g.k offset (offset + g.size) (split offset g)
  unfolding split
  split-Tiles =
      let n = (g.size + g.k - 1) / g.k in
      let low : n * g.k ≤ g.size + g.k - 1 = div-mul-le_self (g.size + g.k - 1) g.k in
      let high : g.size + g.k - 1 < n * g.k + g.k = lt-div-mul-add some_bits in
      subst (λ from. Tiles g.k from (offset + g.size) (split_from offset g n 0))
        (omega (arith, zero-mul g.k))
        (split_from-Tiles n 0 (omega (arith, zero-mul g.k, high, some_bits))
          (omega (arith, zero-mul g.k, low, some_bits)))
