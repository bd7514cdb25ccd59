-- ===== src/KeyStore/Tests.antt =====
-- The theorems on the key store at a small store of four keys of two bytes, and runs of the calls.
use ait_qkd.Prelude.{
  ℕ, ◌+◌, ◌≤◌, ◌≡◌, refl, List, [], ◌∷◌, none, some, true, false, ◌>>=◌, arith, Runs, All, load,
}
use ait_qkd.Key.{Key, size}
use ait_qkd.KeyStore.Flags.{free_valid, has, counter}
use ait_qkd.KeyStore.Count.{tally}
use ait_qkd.KeyStore.Inv.{IsGeometry, IsOpen}
use ait_qkd.KeyStore.Views.{Shows}
use ait_qkd.KeyStore.Keys.{Stores, set_key-Stores, Deletes, del-Deletes}
use ait_qkd.KeyStore.Marks.{
  Marks, set_real_sync-Marks, set_eventual_sync-Marks, set_key_count-Marks,
}
use ait_qkd.KeyStore.Reserve.{Reserves, set_key_counts-Reserves}
use ait_qkd.KeyStore.Search.{pick_loop, take_id, advance, insert}
use ait_qkd.KeyStore.Insert.{Inserted, insert-Inserted, insert_overrun}
use ait_qkd.KeyStore.Picks.{Found, find_valid-Found}
use ait_qkd.KeyStore.Search.{find_valid}
use ait_qkd.KeyStore.Reset.{Resets, reset-Resets, init-IsOpen}
use ait_qkd.KeyStore.Drift.{
  real_keys, IsCounted, set_real_sync-IsCounted, set_eventual_sync-IsCounted, del_drift, set_drift,
}
use ait_qkd.KeyStore.History.{deletes, syncs, sets, reserves, resets, run, run-init-IsOpen}
use ait_qkd.KeyStore.{
  Geometry, Db, ram, init, reset, valid, real_sync, eventual_sync, injected, key_count, flag_of,
  del, set_key, set_key_count, set_key_counts, set_eventual_sync, set_real_sync, inc_u64, dec_u64,
  count,
}

abbrev tiny : Geometry
tiny = record { min_id = 0; max_id = 4; quantum = 2 }

tiny-IsGeometry : IsGeometry tiny
tiny-IsGeometry = omega arith

ram-IsGeometry : IsGeometry ram
ram-IsGeometry = omega arith

-- Key 0 is in real sync, keys 1 and 2 are stored, and slot 3 is empty.
abbrev sample : Db
sample = record {
  n_count = 3;
  n_count_real_sync = 1;
  key_data = 10 ∷ 11 ∷ 20 ∷ 21 ∷ 30 ∷ 31 ∷ 0 ∷ 0 ∷ [];
  last_added = 0;
  last_inserted = 1;
  last_picked_spare = 0;
  last_picked_valid = 0;
  key_meta = 0xC0 ∷ 0x80 ∷ 0x80 ∷ 0 ∷ [];
}

sample-IsOpen : IsOpen tiny sample
unfolding tally has
sample-IsOpen = omega arith

abbrev used_up : Db
used_up = record sample { last_inserted = 3 }

used_up-IsOpen : IsOpen tiny used_up
unfolding tally has
used_up-IsOpen = omega arith

abbrev key_of : ℕ → Key
key_of id = record { id = id; bytes = 7 ∷ 8 ∷ 9 ∷ [] }

abbrev small_key : Key
small_key = record { id = 0; bytes = 7 ∷ 8 ∷ [] }

sample-Shows_synced : Shows tiny sample 0 true false false 0
unfolding valid real_sync eventual_sync injected flag_of key_count load has counter
sample-Shows_synced = record {
  stored = refl;
  in_real_sync = refl;
  in_eventual_sync = refl;
  is_injected = refl;
  count_is = refl;
}

sample-Shows_stored : Shows tiny sample 1 false false false 0
unfolding valid real_sync eventual_sync injected flag_of key_count load has counter
sample-Shows_stored = record {
  stored = refl;
  in_real_sync = refl;
  in_eventual_sync = refl;
  is_injected = refl;
  count_is = refl;
}

sample-IsCounted : IsCounted sample
unfolding tally has
sample-IsCounted = refl

slot_empty : valid tiny sample 3 ≡ some false
unfolding valid load has
slot_empty = refl

slot_used : valid tiny sample 2 ≡ some true
unfolding valid load has
slot_used = refl

All-stored : All (λ id. valid tiny sample id ≡ some true) (1 ∷ 2 ∷ [])
unfolding valid load has
All-stored = (refl, (refl, tt))

abbrev memory : List ℕ
memory = 1 ∷ 2 ∷ 3 ∷ 4 ∷ 5 ∷ 6 ∷ 7 ∷ 8 ∷ []

fits : tiny.quantum ≤ size (key_of 3)
unfolding size
fits = omega arith

fits0 : tiny.quantum ≤ size (key_of 0)
unfolding size
fits0 = omega arith

small_key-size : size small_key ≡ tiny.quantum
unfolding size
small_key-size = refl

run-init-IsOpen_example :
    Runs
      (init tiny memory
        >>= run tiny (sets (key_of 2) ∷ syncs 2 ∷ reserves 2 3 ∷ resets ∷ deletes 2 ∷ []))
      (IsOpen tiny)
run-init-IsOpen_example =
    run-init-IsOpen tiny-IsGeometry memory
      (sets (key_of 2) ∷ syncs 2 ∷ reserves 2 3 ∷ resets ∷ deletes 2 ∷ []) (omega arith)

init-IsOpen_example :
    Runs
      (init tiny memory)
      (λ db. IsOpen tiny db × (count db ≡ 0) × ((id : ℕ) → valid tiny db id ≡ some false))
init-IsOpen_example = init-IsOpen tiny-IsGeometry memory (omega arith)

set_key-Stores_example :
    Runs (set_key tiny sample (key_of 3)) (Stores tiny-IsGeometry sample (key_of 3) false)
set_key-Stores_example =
    set_key-Stores tiny-IsGeometry (key_of 3) sample-IsOpen (omega arith) fits slot_empty

del-Deletes_example : Runs (del tiny sample 2) (Deletes tiny-IsGeometry sample 2 true)
del-Deletes_example = del-Deletes tiny-IsGeometry 2 sample-IsOpen (omega arith) slot_used

insert-Inserted_example :
    Runs (insert tiny sample small_key) (Inserted tiny-IsGeometry sample small_key)
insert-Inserted_example =
    insert-Inserted tiny-IsGeometry small_key sample-IsOpen (omega arith) (omega arith)
      small_key-size

insert_overrun_example : insert tiny used_up small_key ≡ none
insert_overrun_example = insert_overrun tiny-IsGeometry small_key used_up-IsOpen refl small_key-size

set_real_sync-Marks_example :
    Runs
      (set_real_sync tiny sample 1)
      (Marks tiny-IsGeometry sample 1 true false false 0 (inc_u64 sample.n_count_real_sync))
set_real_sync-Marks_example =
    set_real_sync-Marks tiny-IsGeometry 1 sample-IsOpen sample-Shows_stored

set_eventual_sync-Marks_example :
    Runs
      (set_eventual_sync tiny sample 0)
      (Marks tiny-IsGeometry sample 0 false true false 0 (dec_u64 sample.n_count_real_sync))
set_eventual_sync-Marks_example =
    set_eventual_sync-Marks tiny-IsGeometry 0 sample-IsOpen sample-Shows_synced

-- A count of 256 is cut to the byte 0.
set_key_count-Marks_example :
    Runs
      (set_key_count tiny sample 1 256)
      (Marks tiny-IsGeometry sample 1 false false false 0 sample.n_count_real_sync)
set_key_count-Marks_example =
    set_key_count-Marks tiny-IsGeometry 1 sample-IsOpen sample-Shows_stored 256

set_key_counts-Reserves_example :
    Runs
      (set_key_counts tiny sample (1 ∷ 2 ∷ []) 4)
      (Reserves tiny-IsGeometry 4 sample (1 ∷ 2 ∷ []))
set_key_counts-Reserves_example =
    set_key_counts-Reserves tiny-IsGeometry 4 (1 ∷ 2 ∷ []) sample-IsOpen All-stored

reset-Resets_example : Runs (reset sample) (Resets tiny-IsGeometry sample)
reset-Resets_example = reset-Resets tiny-IsGeometry sample-IsOpen

set_real_sync-IsCounted_example : Runs (set_real_sync tiny sample 1) IsCounted
set_real_sync-IsCounted_example =
    set_real_sync-IsCounted tiny-IsGeometry 1 sample-IsOpen sample-IsCounted sample-Shows_stored

set_eventual_sync-IsCounted_example : Runs (set_eventual_sync tiny sample 0) IsCounted
set_eventual_sync-IsCounted_example =
    set_eventual_sync-IsCounted tiny-IsGeometry 0 sample-IsOpen sample-IsCounted sample-Shows_synced

del_drift_example :
    Runs (del tiny sample 0) (λ after. after.n_count_real_sync ≡ real_keys after + 1)
del_drift_example = del_drift tiny-IsGeometry 0 sample-IsOpen sample-IsCounted sample-Shows_synced

set_drift_example :
    Runs (set_key tiny sample (key_of 0)) (λ after. after.n_count_real_sync ≡ real_keys after + 1)
set_drift_example =
    set_drift tiny-IsGeometry (key_of 0) sample-IsOpen sample-IsCounted sample-Shows_synced fits0

find_valid-Found_example : Runs (find_valid tiny sample 4 1) (Found tiny-IsGeometry 2 1 sample)
find_valid-Found_example =
    find_valid-Found tiny-IsGeometry refl (omega arith) 2 1 sample-IsOpen (omega arith)

-- The key of the last pick is not picked, however many are asked for.
find_valid_start : (find_valid tiny sample 8 0) ≡ some (1 ∷ 2 ∷ [], sample)
unfolding find_valid pick_loop take_id advance free_valid load
find_valid_start = refl
