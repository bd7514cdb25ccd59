-- ===== src/KeyStore/Needed.antt =====
-- `find_continuous` of lib/q3p/db/db_ram.cpp: how many keys it looks for.
use ait_qkd.Prelude.{ℕ, ◌+◌, ◌*◌, ◌/◌, ◌%◌, ◌^◌, ◌≤◌, ◌<◌, ◌≡◌, inl, inr, arith, Bool-cases, ◌==◌}
use native.Mathlib.Nat.{div-add-mod, mod-lt, mul-add, lt_of_mul-lt-mul_left, le_of_mul-le-mul_left}
use ait_qkd.KeyStore.Search.{keys_needed}
use ait_qkd.KeyStore.{Geometry}

-- The least number of keys that cover the bytes is what the source computes, if it fits 32 bits.
module _ (g : Geometry) (bytes needed : ℕ) (covers : bytes ≤ g.quantum * needed)
    (least : g.quantum * needed < bytes + g.quantum) (fits : needed < 2 ^ 32) where
  whole : g.quantum * (bytes / g.quantum) + bytes % g.quantum ≡ bytes
  whole = div-add-mod bytes g.quantum

  pos : 0 < g.quantum
  pos = omega (arith, covers, least)

  rest : bytes % g.quantum < g.quantum
  rest = mod-lt bytes pos

  no_more : (k : ℕ) → bytes + g.quantum ≤ g.quantum * k → needed < k
  no_more k h = lt_of_mul-lt-mul_left g.quantum {m = needed} {n = k} (omega (arith, least, h))

  exact : bytes % g.quantum ≡ 0 → bytes / g.quantum ≡ needed
  exact e =
      let low : bytes / g.quantum ≤ needed =
        le_of_mul-le-mul_left {k = g.quantum} (omega (arith, whole, covers, e)) pos in
      let high : needed < bytes / g.quantum + 1 =
        no_more (bytes / g.quantum + 1)
          (omega (arith, whole, e, mul-add g.quantum (bytes / g.quantum) 1)) in
      omega (arith, low, high)

  rounded_up : 0 < bytes % g.quantum → bytes / g.quantum + 1 ≡ needed
  rounded_up e =
      let low : bytes / g.quantum < needed =
        lt_of_mul-lt-mul_left g.quantum (omega (arith, whole, covers, e)) in
      let high : needed < bytes / g.quantum + 2 =
        no_more (bytes / g.quantum + 2)
          (omega (arith, whole, rest, mul-add g.quantum (bytes / g.quantum) 2)) in
      omega (arith, low, high)

  pub keys_needed_lem : keys_needed g bytes ≡ needed
  unfolding keys_needed
  keys_needed_lem = elim (Bool-cases (bytes % g.quantum == 0)) [
    | inl e ↦ rw (e, exact (ground (arith, e))) (omega (arith, fits))
    | inr e ↦ rw e (
        let up : bytes / g.quantum + 1 ≡ needed = rounded_up (ground (arith, e)) in
        omega (arith, fits, up))
  ]
