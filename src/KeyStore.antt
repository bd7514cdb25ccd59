-- ===== src/KeyStore.antt =====
-- lib/q3p/db/db_ram.cpp, with the inline calls of include/qkd/q3p/db.h: the key store of a Q3P node
-- in memory. An operation returns `none` where the source reads or writes outside an array (or
-- through a null pointer), which C++ leaves undefined. The lock of db.h makes each call atomic, so
-- a history of the store is a sequence of calls. Log lines are left out.
pub mod Flags
pub mod Count
pub mod Inv
pub mod Views
pub mod Keys
pub mod Marks
pub mod Search
pub mod Reserve
pub mod Needed
pub mod Continuous
pub mod Insert
pub mod Round
pub mod Hits
pub mod Picks
pub mod Reset
pub mod Drift
pub mod History
mod Tests
use ait_qkd.Prelude.{
  ℕ, zero, suc, ◌+◌, ◌-◌, ◌*◌, ◌/◌, ◌%◌, ◌^◌, min, bit_and, List, [], ◌∷◌, ◌++◌, Option, none, some,
  Bool, true, false, not, ◌&&◌, ltb, leb, ◌==◌, if◌then◌else◌, ◌>>=◌, length, take, replicate, load,
  store, write_bytes, read_bytes,
}
use ait_qkd.Key.{Key, null, size}
use Flags.{
  flag_valid, flag_real_sync, flag_eventual_sync, flag_injected, flag_counter, has, counter,
  to_eventual, to_real, to_injected, with_counter, persistent, free_valid, free_spare,
}

-- The virtual constants of `db`: `min_id`, `max_id` and `quantum`.
pub record Geometry : Type 0 where
  pub min_id : ℕ
  pub max_id : ℕ
  pub quantum : ℕ

-- Those of `db_ram`.
abbrev pub ram : Geometry
ram = record { min_id = 0; max_id = 2 ^ 16; quantum = 4 }

-- The fields of `db_ram`, a null pointer being the empty array.
pub record Db : Type 0 where
  pub n_count : ℕ
  pub n_count_real_sync : ℕ
  pub key_data : List ℕ
  pub last_added : ℕ
  pub last_inserted : ℕ
  pub last_picked_spare : ℕ
  pub last_picked_valid : ℕ
  pub key_meta : List ℕ

abbrev pub inc_u64 : ℕ → ℕ
inc_u64 n = (n + 1) % 2 ^ 64

-- `-` on ℕ stops at 0, so the modulus comes first.
abbrev pub dec_u64 : ℕ → ℕ
dec_u64 n = (n + 2 ^ 64 - 1) % 2 ^ 64

unfoldable pub opened : Db → Bool
opened db = not (length db.key_meta == 0)

unfoldable pub close : Db → Db
close db = record {
  n_count = 0;
  n_count_real_sync = 0;
  key_data = [];
  last_added = 0;
  last_inserted = 0;
  last_picked_spare = 0;
  last_picked_valid = 0;
  key_meta = [];
}

unfoldable pub count : Db → ℕ
unfolding opened
count db = if opened db then db.n_count else 0

unfoldable pub count_real_sync : Db → ℕ
unfolding opened
count_real_sync db = if opened db then db.n_count_real_sync else 0

-- One pass of the loop of `reset_internal`: the meta bytes cleaned, and the two counters.
unfoldable pub reset_meta : List ℕ → List ℕ × ℕ × ℕ
reset_meta [] = ([], 0, 0)
reset_meta (m ∷ ms) =
    let (ms', valid, real) = reset_meta ms in
    (
      persistent m ∷ ms',
      (if has flag_valid (persistent m) then valid + 1 else valid),
      (if has flag_valid (persistent m) && has flag_real_sync (persistent m)
          then real + 1
          else real),
    )

unfoldable pub reset : Db → Option Db
unfolding opened
reset db =
    let (ms, valid, real) = reset_meta db.key_meta in
    if opened db
    then some (record {
      n_count = valid;
      n_count_real_sync = real;
      key_data = db.key_data;
      last_added = 0;
      last_inserted = 0;
      last_picked_spare = 0;
      last_picked_valid = 0;
      key_meta = ms;
    })
    else none

module _ (g : Geometry) where
  abbrev pub amount : ℕ
  amount = g.max_id - g.min_id

  -- The index of a key id in the arrays.
  abbrev pub slot : ℕ → ℕ
  slot id = id - g.min_id

  -- `init`. The key data is not initialised: `raw` is what the memory held.
  unfoldable pub init : List ℕ → Option Db
  init raw = reset (record {
    n_count = 0;
    n_count_real_sync = 0;
    key_data = take (amount * g.quantum) raw;
    last_added = 0;
    last_inserted = 0;
    last_picked_spare = 0;
    last_picked_valid = 0;
    key_meta = replicate amount 0;
  })

  -- The id lies in the range of the store.
  unfoldable pub in_range : ℕ → Bool
  in_range id = leb g.min_id id && ltb id g.max_id

  unfoldable pub valid : Db → ℕ → Option Bool
  unfolding in_range opened
  valid db id =
      if in_range id && opened db
      then (do m ← load db.key_meta (slot id); some (has flag_valid m))
      else some false

  -- `eventual_sync`, `real_sync` and `injected`: the flag `f` of a valid key.
  unfoldable pub flag_of : ℕ → Db → ℕ → Option Bool
  flag_of f db id = do
    v ← valid db id
    if v then (do m ← load db.key_meta (slot id); some (has f m)) else some false

  unfoldable pub eventual_sync : Db → ℕ → Option Bool
  unfolding flag_of
  eventual_sync = flag_of flag_eventual_sync

  unfoldable pub real_sync : Db → ℕ → Option Bool
  unfolding flag_of
  real_sync = flag_of flag_real_sync

  unfoldable pub injected : Db → ℕ → Option Bool
  unfolding flag_of
  injected = flag_of flag_injected

  unfoldable pub key_count : Db → ℕ → Option ℕ
  key_count db id = do
    v ← valid db id
    if v then (do m ← load db.key_meta (slot id); some (counter m)) else some 0

  read_key : Db → ℕ → Option Key
  read_key db id = do
    bytes ← read_bytes db.key_data (g.quantum * slot id) g.quantum
    some (record { id = id; bytes = bytes })

  unfoldable pub get : Db → ℕ → Option Key
  unfolding read_key
  get db id = do v ← valid db id; if v then read_key db id else some null

  -- The meta byte and the bytes of a slot written, and the counter of keys adjusted.
  unfoldable pub write_slot : ℕ → ℕ → List ℕ → (Bool → ℕ → ℕ) → Db → Option Db
  write_slot i new_meta bytes adjust db = do
    m ← load db.key_meta i
    metas ← store db.key_meta i new_meta
    written ← write_bytes db.key_data (g.quantum * i) bytes
    some (record db {
      key_meta = metas;
      key_data = written;
      n_count = adjust (has flag_valid m) db.n_count;
    })

  unfoldable pub del : Db → ℕ → Option Db
  unfolding in_range write_slot
  del db id =
      if in_range id
      then write_slot (slot id) 0 (replicate g.quantum 0) (λ old n. if old then dec_u64 n else n) db
      else some db

  unfoldable pub set_key : Db → Key → Option Db
  unfolding in_range size write_slot
  set_key db k =
      if in_range k.id && leb g.quantum (size k)
      then write_slot (slot k.id) flag_valid (take g.quantum k.bytes)
          (λ old n. if old then n else inc_u64 n) db
      else some db

  -- `std::min<unsigned char>` first cuts the count to a byte.
  abbrev pub counter_bits : ℕ → ℕ
  counter_bits n = min (n % 256) flag_counter

  -- The meta byte of a slot rewritten, and the counter of keys in real sync adjusted.
  unfoldable pub write_meta : ℕ → (ℕ → ℕ) → (ℕ → ℕ → ℕ) → Db → Option Db
  write_meta i f adjust db = do
    m ← load db.key_meta i
    metas ← store db.key_meta i (f m)
    some (record db { key_meta = metas; n_count_real_sync = adjust m db.n_count_real_sync })

  unfoldable pub set_key_count : Db → ℕ → ℕ → Option Db
  unfolding in_range opened write_meta
  set_key_count db id n =
      if in_range id && opened db
      then write_meta (slot id) (with_counter (counter_bits n)) (λ m c. c) db
      else some db

  unfoldable pub set_key_counts : Db → List ℕ → ℕ → Option Db
  set_key_counts db [] n = some db
  set_key_counts db (id ∷ ids) n = do db' ← set_key_count db id n; set_key_counts db' ids n

  unfoldable pub set_eventual_sync : Db → ℕ → Option Db
  unfolding write_meta
  set_eventual_sync db id = do
    v ← valid db id
    if v
        then write_meta (slot id) to_eventual (λ m c. if has flag_real_sync m then dec_u64 c else c)
            db
        else some db

  unfoldable pub set_injected : Db → ℕ → Option Db
  unfolding write_meta
  set_injected db id = do
    v ← valid db id
    if v then write_meta (slot id) to_injected (λ m c. c) db else some db

  unfoldable pub set_real_sync : Db → ℕ → Option Db
  set_real_sync db id = do
    v ← valid db id
    if v
        then (do
          m ← load db.key_meta (slot id)
          if has flag_real_sync m
              then some db
              else write_meta (slot id) to_real (λ _ c. inc_u64 c) db)
        else some db
