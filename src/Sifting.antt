-- ===== src/Sifting.antt =====
-- bin/modules/qkd-sifting-bb84/qkd-sifting-bb84.cpp: of the quantum events of a raw key, those are
-- kept that both sides have measured in the same base. A message is the list of the numbers or bytes
-- it holds. The random source is an argument: the dice that are rolled for one key, in their order.
-- `none` stands for a read past the end of the events, which is undefined, and for an exception. A
-- byte of the events holds two of them, a byte of a base table four bases.
use ait_qkd.Prelude.{
  ℕ, zero, suc, ◌+◌, ◌-◌, ◌*◌, ◌/◌, ◌%◌, ◌^◌, bit_and, List, [], ◌∷◌, ◌++◌, Option, none, some,
  ◌>>=◌, Bool, true, false, not, ◌&&◌, ◌||◌, ltb, leb, ◌==◌, if◌then◌else◌, length, get_or, set,
  take, replicate,
}
use ait_qkd.Key.{Key, size}
use ait_qkd.Bigint.{resize, memory}
use ait_qkd.Cascade.Checker.{Link}
pub mod Agreement
pub mod Bytes
pub mod Keys
mod Tests

-- `key::key_id_counter`, with a shift below 32.
pub record KeyIdCounter : Type 0 where
  pub count : ℕ
  pub shift : ℕ
  pub add : ℕ

unfoldable pub inc : KeyIdCounter → ℕ × KeyIdCounter
inc c =
    let n = (c.count + 1) % 2 ^ 32 in
    ((n * 2 ^ c.shift % 2 ^ 32 + c.add) % 2 ^ 32, record c { count = n })

-- `qkd_sifting_bb84_data` with the class-wide key id counter, and whether the module is running.
pub record Sifting : Type 0 where
  pub rawkey_length : ℕ
  pub key_id : ℕ
  pub bits : List Bool
  pub position : ℕ
  pub counter : KeyIdCounter
  pub running : Bool

-- `g_nParity`: the first 16 entries, which are all that an event reaches.
unfoldable pub parity_of_event : ℕ → Bool
parity_of_event event =
    get_or
      (false ∷ true ∷ true ∷ false ∷ true ∷ false ∷ false ∷ true ∷ true ∷ false ∷ false ∷ true
        ∷ false ∷ true ∷ true ∷ false ∷ [])
      event false

-- The bases: 0 is invalid, 1 diagonal, 2 rectilinear.
unfoldable pub get_measurement : ℕ → ℕ
get_measurement event =
    let diagonal = not (bit_and event 3 == 0) in
    let rectilinear = not (bit_and event 12 == 0) in
    if event == 0 then 0 else if rectilinear && diagonal then 0 else if rectilinear then 2 else 1

-- Four bases in a byte, the first one in its highest bits.
abbrev pub pack : ℕ → ℕ → ℕ → ℕ → ℕ
pack b0 b1 b2 b3 = b0 * 64 + b1 * 16 + b2 * 4 + b3

unfoldable pub quantum_table_to_base_table : List ℕ → Option (List ℕ)
unfolding get_measurement
quantum_table_to_base_table [] = some []
quantum_table_to_base_table (q ∷ []) = none
quantum_table_to_base_table (q ∷ r ∷ qs) = do
  bases ← quantum_table_to_base_table qs
  some (
      pack (get_measurement (q / 16)) (get_measurement (q % 16)) (get_measurement (r / 16))
        (get_measurement (r % 16))
      ∷ bases)

-- The bits of the key so far, the position of the next one, the number of bases without a bit, and
-- the dice that were rolled.
pub record Bits : Type 0 where
  pub bits : List Bool
  pub position : ℕ
  pub errors : ℕ
  pub rolled : ℕ

module _ (dice : ℕ → Bool) (alice : Bool) where
  -- `base_to_bit` and what follows it. There is room for the bit.
  unfoldable pub add_event : ℕ → ℕ → Bits → Bits
  unfolding parity_of_event
  add_event base event b =
      let clicked = parity_of_event event in
      let bit = if clicked then not (bit_and event 85 == 0) else dice b.rolled in
      if base == 1 || base == 2
      then record {
        bits = set b.bits b.position (if alice then bit else not bit);
        position = b.position + 1;
        errors = b.errors;
        rolled = if clicked then b.rolled else b.rolled + 1;
      }
      else record b { errors = b.errors + 1 }

  -- One byte of bases, with its two bytes of events.
  unfoldable pub add_byte : ℕ → ℕ → ℕ → Bits → Bits
  unfolding add_event
  add_byte bases q r b = add_event (bases % 4) (r % 16) (
      add_event (bases / 4 % 4) (r / 16)
        (add_event (bases / 16 % 4) (q % 16) (add_event (bases / 64) (q / 16) b)))

  unfoldable pub add_bytes : List ℕ → List ℕ → Bits → Option Bits
  unfolding add_byte
  add_bytes [] qs b = some b
  add_bytes (c ∷ cs) (q ∷ r ∷ qs) b = add_bytes cs qs (add_byte c q r b)
  add_bytes (c ∷ cs) _ b = none

  unfoldable pub bases_to_bits : List ℕ → List ℕ → List Bool → ℕ → Option Bits
  unfolding add_bytes
  bases_to_bits bases events bits position =
      let needed = position + length bases * 4 in
      add_bytes bases events (record {
        bits = if ltb (length bits) needed then resize bits needed else bits;
        position = position;
        errors = 0;
        rolled = 0;
      })

-- The loop of alice: a base in which the peer has not measured is set to invalid.
abbrev pub keep : ℕ → ℕ → ℕ
keep own peer = if own == peer then own else 0

unfoldable pub match_bases : List ℕ → List ℕ → List ℕ
match_bases (c ∷ cs) (p ∷ ps) =
    pack (keep (c / 64) (p / 64)) (keep (c / 16 % 4) (p / 16 % 4)) (keep (c / 4 % 4) (p / 4 % 4))
      (keep (c % 4) (p % 4))
    ∷ match_bases cs ps
match_bases _ _ = []

-- What `process` returns, the key that it leaves, and the state after it.
pub record Outcome : Type 0 where
  pub forward : Bool
  pub key : Key
  pub state : Sifting

-- The end of `process_alice` and `process_bob`: enough bits make a key.
unfoldable pub forward_key : Key → Bits → Sifting → Outcome
unfolding inc memory
forward_key k b s =
    if ltb b.position (s.rawkey_length * 8 % 2 ^ 64)
    then record {
      forward = false;
      key = k;
      state = record s { bits = b.bits; position = b.position };
    }
    else record {
      forward = true;
      key = record { id = s.key_id; bytes = take (b.position / 8) (memory b.bits) };
      state = record s {
        key_id = (inc s.counter).0;
        counter = (inc s.counter).1;
        bits = replicate s.rawkey_length false;
        position = 0;
      };
    }

unfoldable pub set_rawkey_length : ℕ → Sifting → Sifting
set_rawkey_length n s =
    if s.rawkey_length == n
    then s
    else record s { rawkey_length = n; bits = resize s.bits (n * 8 % 2 ^ 64) }

abbrev send : List ℕ → Link → Link
send m l = record l { outbox = l.outbox ++ m ∷ [] }

abbrev not_forwarded : Key → Sifting → Outcome
not_forwarded k s = record { forward = false; key = k; state = s }

-- `terminate` and `return false`.
abbrev terminated : Key → Sifting → Outcome
terminated k s = not_forwarded k (record s { running = false })

module _ (dice : ℕ → Bool) where
  -- What alice does with bob's table.
  unfoldable pub answer_bob : List ℕ → List ℕ → Key → Sifting → Link → Option (Outcome × Link)
  unfolding match_bases bases_to_bits forward_key
  answer_bob bases peer k s l =
      if length bases == length peer
      then (do
        let common = match_bases bases peer
        b ← bases_to_bits dice true common k.bytes s.bits s.position
        some (forward_key k b s, send common l))
      else some (terminated k s, l)

  -- `recv` fails where nothing arrives.
  unfoldable pub process_alice : Key → Sifting → Link → Option (Outcome × Link)
  unfolding quantum_table_to_base_table answer_bob
  process_alice k s l = do
    bases ← quantum_table_to_base_table k.bytes
    let header = k.id ∷ size k ∷ s.rawkey_length ∷ []
    elim l.inbox [
      | [] ↦ some (not_forwarded k s, send header l)
      | peer ∷ ms ↦ answer_bob bases peer k s (record (send header l) { inbox = ms })
    ]

  -- What bob does with the table that alice sends.
  unfoldable pub take_bases : List (List ℕ) → Key → Sifting → Link → Option (Outcome × Link)
  unfolding bases_to_bits forward_key
  take_bases [] k s l = some (not_forwarded k s, l)
  take_bases (common ∷ ms) k s l = do
    b ← bases_to_bits dice false common k.bytes s.bits s.position
    some (forward_key k b s, record l { inbox = ms })

  -- What bob does with the first message of alice, which has three values: with fewer, reading them
  -- is an exception.
  unfoldable pub take_header :
      List ℕ → List (List ℕ) → Key → Sifting → Link → Option (Outcome × Link)
  unfolding quantum_table_to_base_table set_rawkey_length take_bases
  take_header (id ∷ peer_size ∷ rawkey_length ∷ _) ms k s l =
      if id == k.id && peer_size == size k
      then (do
        let s' = set_rawkey_length rawkey_length s
        bases ← quantum_table_to_base_table k.bytes
        take_bases ms k s' (send bases l))
      else some (terminated k s, l)
  take_header _ ms k s l = none

  unfoldable pub process_bob : Key → Sifting → Link → Option (Outcome × Link)
  unfolding take_header
  process_bob k s l = elim l.inbox [
    | [] ↦ some (not_forwarded k s, l)
    | header ∷ ms ↦ take_header header ms k s (record l { inbox = ms })
  ]

  -- `process`
  abbrev pub process : Bool → Key → Sifting → Link → Option (Outcome × Link)
  process is_alice k s l = if is_alice then process_alice k s l else process_bob k s l
