-- ===== src/ErrorEstimation.antt =====
-- bin/modules/qkd-error-estimation/qkd-error-estimation.cpp: some bits of a key are shown to the peer,
-- compared and taken out of the key.
-- A message is the list of the numbers and bytes it holds. The random source is an argument: which
-- positions are disclosed. `none` stands for undefined behaviour, such as dereferencing the end of the
-- list of positions, and for an exception. The error rate is the quotient of the two counts in
-- `Estimate`.
use ait_qkd.Prelude.{
  ℕ, zero, suc, ◌+◌, ◌-◌, List, [], ◌∷◌, ◌++◌, Option, none, some, ◌>>=◌, Bool, true, false, not,
  ◌&&◌, ltb, leb, ◌==◌, if◌then◌else◌, length, set, take, drop, replicate,
}
use ait_qkd.Key.{Key}
use ait_qkd.Bigint.{memory, from_memory, and_bits, xor_bits, bits_set}
use ait_qkd.Cascade.Checker.{Link}
pub mod Disclosed
pub mod Sides
mod Tests

-- What `process` returns, the key that it leaves, the number of errors among the disclosed positions,
-- and whether the module is running.
pub record Estimate : Type 0 where
  pub result : Bool
  pub key : Key
  pub errors : ℕ
  pub disclosed : ℕ
  pub running : Bool

-- The positions that alice picks, from position `i` on with `count` to go.
unfoldable pub pick_positions : (ℕ → Bool) → ℕ → ℕ → List ℕ
pick_positions disclose i zero = []
pick_positions disclose i (suc count) =
    let rest = pick_positions disclose (i + 1) count in if disclose i then i ∷ rest else rest

-- `cMask.set(…, true)` for each position: a position outside the mask is an exception.
unfoldable pub mark : List ℕ → List Bool → Option (List Bool)
mark [] mask = some mask
mark (p ∷ ps) mask = elim (ltb p (length mask)) [ true ↦ mark ps (set mask p true) | false ↦ none ]

-- The loop that extracts the bits at all other positions. For a bit after the last position the end of
-- the list is dereferenced, which is undefined.
unfoldable pub extract : ℕ → List ℕ → List Bool → Option (List Bool)
extract i ps [] = some []
extract i [] (b ∷ bs) = none
extract i (p ∷ ps) (b ∷ bs) = elim (i == p) [
  | true ↦ extract (i + 1) ps bs
  | false ↦ do rest ← extract (i + 1) (p ∷ ps) bs; some (b ∷ rest)
]

-- The new key: a bigint of as many bits as are left, of which the extracted ones are set.
unfoldable pub new_key : List ℕ → List Bool → Option (List Bool)
unfolding extract
new_key positions bits = do
  left ← extract 0 positions bits
  let missing = length bits - length positions - length left
  if leb (length left + length positions) (length bits)
      then some (left ++ replicate missing false)
      else none

-- The comparison of the public bits with those of the peer, and the new key.
unfoldable pub estimate : Key → List ℕ → List Bool → List Bool → Bool → Option Estimate
unfolding from_memory xor_bits bits_set new_key memory
estimate k positions public peer running = do
  bits ← new_key positions (from_memory k.bytes)
  some (record {
    result = true;
    key = record k { bytes = memory bits };
    errors = bits_set (xor_bits public peer);
    disclosed = length positions;
    running = running;
  })

-- `return false`
abbrev failed : Key → Bool → Estimate
failed k running = record { result = false; key = k; errors = 0; disclosed = 0; running = running }

unfoldable pub process_alice : (ℕ → Bool) → Key → Link → Option (Estimate × Link)
unfolding pick_positions mark and_bits estimate
process_alice disclose k l = do
  let bits = from_memory k.bytes
  let positions = pick_positions disclose 0 (length bits)
  mask ← mark positions (replicate (length bits) false)
  let public = and_bits bits mask
  let message = k.id ∷ length bits ∷ length positions ∷ positions ++ memory public
  let sent = l.outbox ++ message ∷ []
  elim l.inbox [
    | [] ↦ some (failed k true, record l { outbox = sent })
    | m ∷ ms ↦ do
      e ← estimate k positions public (from_memory m) true
      some (e, record { inbox = ms; outbox = sent })
  ]

-- Bob with a message of alice: for another key, he terminates the module and goes on. A message
-- with fewer values than he reads is an exception.
unfoldable pub answer_alice : List ℕ → Key → Link → Option (Estimate × Link)
unfolding mark and_bits estimate
answer_alice (id ∷ peer_bits ∷ count ∷ rest) k l = elim (leb count (length rest)) [
  | false ↦ none
  | true ↦ do
    let bits = from_memory k.bytes
    let same = id == k.id && peer_bits == length bits
    let positions = take count rest
    mask ← mark positions (replicate (length bits) false)
    let public = and_bits bits mask
    e ← estimate k positions public (from_memory (drop count rest)) same
    some (e, record l { outbox = l.outbox ++ memory public ∷ [] })
]
answer_alice _ k l = none

unfoldable pub process_bob : Key → Link → Option (Estimate × Link)
unfolding answer_alice
process_bob k l = elim l.inbox [
  | [] ↦ some (failed k true, l)
  | m ∷ ms ↦ answer_alice m k (record l { inbox = ms })
]
