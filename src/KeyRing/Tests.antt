-- ===== src/KeyRing/Tests.antt =====
-- The theorems on key rings at a ring of keys of two bytes and a store of three.
use ait_qkd.Prelude.{◌≡◌, refl, [], ◌∷◌, some, arith, Runs}
use ait_qkd.Key.{Key, size}
use ait_qkd.KeyStore.Count.{tally}
use ait_qkd.KeyStore.Flags.{has}
use ait_qkd.KeyStore.Inv.{IsGeometry, IsOpen}
use ait_qkd.KeyStore.{Geometry, Db}
use ait_qkd.KeyRing.{
  KeyRing, key_ring, push_back, add_slices, push_empty, extend_back, back, sub_u64,
}
use ait_qkd.KeyRing.Packing.{Packed, used, Numbered, Added, push_back-Added}
use ait_qkd.KeyRing.Listing.{ring, stored_bytes, Listed, ring-Listed}

abbrev last_key : Key
last_key = record { id = 8; bytes = 3 ∷ [] }

abbrev first_key : Key
first_key = record { id = 7; bytes = 1 ∷ 2 ∷ [] }

abbrev two_keys : KeyRing
two_keys = record { keys = first_key ∷ last_key ∷ []; id = 9; key_size = 2 }

abbrev new_key : Key
new_key = record { id = 70; bytes = 4 ∷ 5 ∷ 6 ∷ 7 ∷ [] }

two_keys-Packed : Packed 2 two_keys.keys
unfolding size
two_keys-Packed = used (first_key ∷ []) last_key refl (refl, tt) (omega arith)

two_keys-Numbered : Numbered 7 two_keys.keys 9
unfolding Numbered
two_keys-Numbered = (refl, (refl, refl))

push_back-Added_example : Runs (push_back two_keys new_key) (Added 7 two_keys new_key.bytes)
push_back-Added_example =
    push_back-Added 7 two_keys new_key (omega arith) (omega arith) two_keys-Packed two_keys-Numbered

push_back_run :
    push_back two_keys new_key
    ≡ some (record {
      keys =
          first_key
          ∷ record { id = 8; bytes = 3 ∷ 4 ∷ [] }
          ∷ record { id = 9; bytes = 5 ∷ 6 ∷ [] }
          ∷ record { id = 10; bytes = 7 ∷ [] }
          ∷ [];
      id = 11;
      key_size = 2;
    })
unfolding push_back add_slices push_empty extend_back back sub_u64 size
push_back_run = refl

abbrev pairs : Geometry
pairs = record { min_id = 0; max_id = 3; quantum = 2 }

abbrev filled_store : Db
filled_store = record {
  n_count = 2;
  n_count_real_sync = 0;
  key_data = 1 ∷ 2 ∷ 3 ∷ 4 ∷ 5 ∷ 6 ∷ [];
  last_added = 0;
  last_inserted = 0;
  last_picked_spare = 0;
  last_picked_valid = 0;
  key_meta = 0x80 ∷ 0 ∷ 0x80 ∷ [];
}

pairs-IsGeometry : IsGeometry pairs
pairs-IsGeometry = omega arith

filled_store-IsOpen : IsOpen pairs filled_store
unfolding tally has
filled_store-IsOpen = omega arith

ring-Listed_example : Runs (ring pairs filled_store (2 ∷ 1 ∷ 0 ∷ [])) (
    Listed pairs-IsGeometry
      (omega arith)
      (omega arith)
      filled_store-IsOpen
      (key_ring 2 0)
      (stored_bytes pairs filled_store (2 ∷ 1 ∷ 0 ∷ [])))
ring-Listed_example =
    ring-Listed pairs-IsGeometry (omega arith) (omega arith) filled_store-IsOpen (2 ∷ 1 ∷ 0 ∷ [])
