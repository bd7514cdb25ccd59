-- ===== src/KeyStore/Count.antt =====
-- The number of meta bytes that carry a flag, and how a write changes it.
use ait_qkd.Prelude.{
  ℕ, zero, suc, ◌+◌, ◌≤◌, ◌<◌, ◌≡◌, refl, List, [], ◌∷◌, Bool, true, false, if◌then◌else◌, length,
  get_or, set, replicate, All, arith,
}
use ait_qkd.KeyStore.Flags.{has, flag_valid}

abbrev pub bit : Bool → ℕ
bit b = if b then 1 else 0

-- How many bytes carry the flag `f`.
unfoldable pub tally : ℕ → List ℕ → ℕ
tally f [] = 0
tally f (m ∷ ms) = bit (has f m) + tally f ms

abbrev pub AllBytes : List ℕ → Type 0
AllBytes = All (λ m. m < 256)

module _ (f : ℕ) where
  pub tally-set :
      (ms : List ℕ) (i v : ℕ)
      → i < length ms
      → tally f (set ms i v) + bit (has f (get_or ms i 0)) ≡ tally f ms + bit (has f v)
  unfolding tally
  tally-set [] i v h = absurd (omega arith)
  tally-set (m ∷ ms) zero v h = omega arith
  tally-set (m ∷ ms) (suc i) v h = omega (arith, tally-set ms i v (omega arith))

  pub tally-le-length : (ms : List ℕ) → tally f ms ≤ length ms
  unfolding tally
  tally-le-length [] = omega arith
  tally-le-length (m ∷ ms) = ground (arith, tally-le-length ms)

  -- A byte with the flag is counted.
  pub tally-pos :
      (ms : List ℕ) (i : ℕ) → i < length ms → has f (get_or ms i 0) ≡ true → 0 < tally f ms
  unfolding tally
  tally-pos [] i h e = absurd (omega arith)
  tally-pos (m ∷ ms) zero h e = ground arith
  tally-pos (m ∷ ms) (suc i) h e = ground (arith, tally-pos ms i)

  -- A byte without it leaves room.
  pub tally-lt-length :
      (ms : List ℕ) (i : ℕ) → i < length ms → has f (get_or ms i 0) ≡ false → tally f ms < length ms
  unfolding tally
  tally-lt-length [] i h e = absurd (omega arith)
  tally-lt-length (m ∷ ms) zero h e = ground (arith, tally-le-length ms)
  tally-lt-length (m ∷ ms) (suc i) h e = ground (arith, tally-lt-length ms i)

pub tally-replicate : (n : ℕ) → tally flag_valid (replicate n 0) ≡ 0
unfolding tally has
tally-replicate zero = refl
tally-replicate (suc n) = omega (arith, tally-replicate n)

pub AllBytes-replicate : (n : ℕ) → AllBytes (replicate n 0)
AllBytes-replicate zero = tt
AllBytes-replicate (suc n) = (omega arith, AllBytes-replicate n)

pub AllBytes-get_or : (ms : List ℕ) (i : ℕ) → AllBytes ms → get_or ms i 0 < 256
AllBytes-get_or [] i h = omega arith
AllBytes-get_or (m ∷ ms) zero h = h.0
AllBytes-get_or (m ∷ ms) (suc i) h = AllBytes-get_or ms i h.1

pub AllBytes-set : (ms : List ℕ) (i v : ℕ) → v < 256 → AllBytes ms → AllBytes (set ms i v)
AllBytes-set [] i v hv h = tt
AllBytes-set (m ∷ ms) zero v hv h = (hv, h.1)
AllBytes-set (m ∷ ms) (suc i) v hv h = (h.0, AllBytes-set ms i v hv h.1)
