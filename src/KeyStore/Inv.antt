-- ===== src/KeyStore/Inv.antt =====
-- The invariant of an opened key store, and that the calls of db_ram.cpp keep it.
use ait_qkd.Prelude.{
  ℕ, ◌+◌, ◌*◌, ◌^◌, ◌≤◌, ◌<◌, ◌≡◌, List, some, Bool, true, false, length, get_or, set, load, store,
  write_bytes, splice, length-splice, length-set, arith,
}
use ait_qkd.KeyStore.Flags.{has, flag_valid}
use ait_qkd.KeyStore.Count.{tally, tally-set, AllBytes, AllBytes-set, bit}
use ait_qkd.KeyStore.{Geometry, Db, amount, slot, opened, in_range, valid, write_slot, write_meta}

-- A store holds at least one slot, and its ids fit `key_id`, a 32 bit number.
pub record IsGeometry (g : Geometry) : Type 0 where
  pub nonempty : g.min_id < g.max_id
  pub ids_fit : g.max_id < 2 ^ 32

-- The arrays have a slot for each id, and `n_count` is the number of valid keys.
pub record IsOpen (g : Geometry) (db : Db) : Type 0 where
  pub size_meta : length db.key_meta ≡ amount g
  pub size_data : length db.key_data ≡ amount g * g.quantum
  pub bytes : AllBytes db.key_meta
  pub counted : db.n_count ≡ tally flag_valid db.key_meta

-- The meta byte of a key.
abbrev pub meta_of : Geometry → Db → ℕ → ℕ
meta_of g db id = get_or db.key_meta (slot g id) 0

abbrev pub IsId : Geometry → ℕ → Type 0
IsId g id = (g.min_id ≤ id) × (id < g.max_id)

module _ {g : Geometry} (ok : IsGeometry g) where
  pub slot-lt : {db : Db} (id : ℕ) → IsOpen g db → IsId g id → slot g id < length db.key_meta
  slot-lt id v h = omega arith

  pub in_range-true : (id : ℕ) → IsId g id → in_range g id ≡ true
  unfolding in_range
  in_range-true id h = ground arith

  pub in_range-IsId : (id : ℕ) → in_range g id ≡ true → IsId g id
  unfolding in_range
  in_range-IsId id e = ground arith

  pub load-meta :
      {db : Db} (id : ℕ)
      → IsOpen g db
      → IsId g id
      → load db.key_meta (slot g id) ≡ some (meta_of g db id)
  unfolding load
  load-meta {db} id v h = ground (arith, slot-lt id v h)

  pub opened-true : {db : Db} → IsOpen g db → opened db ≡ true
  unfolding opened
  opened-true v = ground arith

  pub valid_lem :
      {db : Db} (id : ℕ)
      → IsOpen g db
      → IsId g id
      → valid g db id ≡ some (has flag_valid (meta_of g db id))
  unfolding valid
  valid_lem {db} id v h = ground (arith, load-meta id v h)

  pub valid_outside : (db : Db) (id : ℕ) → ¬ (IsId g id) → valid g db id ≡ some false
  unfolding valid in_range
  valid_outside db id h = ground arith

  -- The slots of the key data do not reach past its end.
  pub block-fits : (i n q : ℕ) → i < n → q * i + q ≤ n * q
  block-fits i n q h = grind arith

  -- A write to a slot returns, and this is the store after it.
  pub write_slot_lem :
      {db : Db} (id m : ℕ) (bs : List ℕ) (adjust : Bool → ℕ → ℕ)
      → IsOpen g db
      → IsId g id
      → length bs ≡ g.quantum
      → write_slot g (slot g id) m bs adjust db
        ≡ some (record db {
          key_meta = set db.key_meta (slot g id) m;
          key_data = splice db.key_data (g.quantum * slot g id) bs;
          n_count = adjust (has flag_valid (meta_of g db id)) db.n_count;
        })
  unfolding write_slot load store write_bytes
  write_slot_lem {db} id m bs adjust v h e =
      ground (arith, slot-lt id v h, block-fits (slot g id) (amount g) g.quantum)

  pub write_meta_lem :
      {db : Db} (id : ℕ) (f : ℕ → ℕ) (adjust : ℕ → ℕ → ℕ)
      → IsOpen g db
      → IsId g id
      → write_meta g (slot g id) f adjust db
        ≡ some (record db {
          key_meta = set db.key_meta (slot g id) (f (meta_of g db id));
          n_count_real_sync = adjust (meta_of g db id) db.n_count_real_sync;
        })
  unfolding write_meta load store
  write_meta_lem {db} id f adjust v h = ground (arith, slot-lt id v h)

  -- The store after a slot was written with the meta byte `m`.
  pub written-IsOpen :
      {db : Db} (id m n : ℕ) (bs : List ℕ)
      → IsOpen g db
      → IsId g id
      → m < 256
      → n + bit (has flag_valid (meta_of g db id)) ≡ db.n_count + bit (has flag_valid m)
      → IsOpen g (record db {
        key_meta = set db.key_meta (slot g id) m;
        key_data = splice db.key_data (g.quantum * slot g id) bs;
        n_count = n;
      })
  written-IsOpen {db} id m n bs v h hm e = record {
    size_meta = omega (arith, length-set db.key_meta (slot g id) m, v.size_meta);
    size_data = omega (arith, length-splice db.key_data (g.quantum * slot g id) bs, v.size_data);
    bytes = AllBytes-set db.key_meta (slot g id) m hm v.bytes;
    counted =
        omega (arith, tally-set flag_valid db.key_meta (slot g id) m (slot-lt id v h), v.counted);
  }

  -- The store after a meta byte was rewritten with its flag valid as before.
  pub marked-IsOpen :
      {db : Db} (id m c : ℕ)
      → IsOpen g db
      → IsId g id
      → m < 256
      → has flag_valid m ≡ has flag_valid (meta_of g db id)
      → IsOpen g (record db { key_meta = set db.key_meta (slot g id) m; n_count_real_sync = c })
  marked-IsOpen {db} id m c v h hm e = record {
    size_meta = omega (arith, length-set db.key_meta (slot g id) m, v.size_meta);
    size_data = v.size_data;
    bytes = AllBytes-set db.key_meta (slot g id) m hm v.bytes;
    counted = ground (arith, tally-set flag_valid db.key_meta (slot g id) m (slot-lt id v h));
  }
