-- ===== src/KeyStore/Round.antt =====
-- `find_valid` of lib/q3p/db/db_ram.cpp: what a round through the store picks.
use ait_qkd.Prelude.{
  ◌⊎◌, ◌≢◌, ℕ, ◌+◌, ◌*◌, ◌≤◌, ◌<◌, ◌≡◌, List, [], ◌∷◌, ◌++◌, some, true, arith, length, All,
}
use ait_qkd.KeyStore.Flags.{has, flag_valid, free_valid, free_valid_iff}
use ait_qkd.KeyStore.Count.{AllBytes-get_or}
use ait_qkd.KeyStore.Inv.{IsGeometry, IsOpen, IsId, meta_of, valid_lem}
use ait_qkd.KeyStore.Reserve.{IsReserved}
use ait_qkd.KeyStore.Views.{Agree, key_count_lem}
use ait_qkd.KeyStore.Insert.{distance, next}
use ait_qkd.KeyStore.Search.{Pick}
use ait_qkd.KeyStore.{key_count, slot, Geometry, Db, valid, get}

abbrev pub In : ℕ → List ℕ → Type 0
In j [] = ⊥
In j (k ∷ ks) = (j ≡ k) ⊎ In j ks

-- A key that is stored and reserved by nobody.
abbrev pub IsUnreserved : Geometry → Db → ℕ → Type 0
IsUnreserved g db id = (valid g db id ≡ some true) × (key_count g db id ≡ some 0)

abbrev pub IsDistinct : List ℕ → Type 0
IsDistinct [] = Unit
IsDistinct (k ∷ ks) = All (λ j. j ≢ k) ks × IsDistinct ks

module _ {g : Geometry} (ok : IsGeometry g) (n start : ℕ) where
  -- What a round through the store up to `start` did, when `wanted` keys were asked for: some
  -- unreserved keys on the way were picked, each once, and reserved, not more than that, and no
  -- unreserved key on the way was left out if there are less; and no key's bytes and no id's validity
  -- changed.
  pub record Picked (wanted : ℕ) (p after : Pick g) : Type 0 where
    pub open_after : IsOpen g after.store
    pub kept :
        (j : ℕ)
        → (get g after.store j ≡ get g p.store j) × (valid g after.store j ≡ valid g p.store j)
    pub in_store : IsId g after.position
    pub found : List ℕ
    pub left : ℕ
    pub picked_are : after.picked ≡ p.picked ++ found
    pub free :
        All
          (λ j.
            (distance ok start j ≤ distance ok start (next ok p.position))
            × IsUnreserved g p.store j)
          found
    pub distinct : IsDistinct found
    pub reserved : All (IsReserved ok n after.store) found
    pub still_reserved : (j : ℕ) → IsReserved ok n p.store j → IsReserved ok n after.store j
    pub others_kept : (j : ℕ) → All (λ id. j ≢ id) found → Agree g p.store after.store j
    pub bytes_are : after.bytes_left ≡ g.quantum * left
    pub all_counted : left + length found ≡ wanted
    pub all_found :
        0 < left
        → (j : ℕ) → IsId g j
        → j ≢ start
        → distance ok start j ≤ distance ok start (next ok p.position)
        → IsUnreserved g p.store j
        → In j found

module _ {g : Geometry} (ok : IsGeometry g) where
  pub unreserved-free :
      {db : Db} (id : ℕ)
      → IsOpen g db
      → IsId g id
      → IsUnreserved g db id
      → free_valid (meta_of g db id) ≡ true
  unreserved-free {db} id v h u = ground (
    arith,
    free_valid_iff (meta_of g db id) (AllBytes-get_or db.key_meta (slot g id) v.bytes),
    valid_lem ok id v h,
    key_count_lem ok id v h,
    u,
  )

  pub free-IsUnreserved :
      {db : Db} (id : ℕ)
      → IsOpen g db
      → IsId g id
      → free_valid (meta_of g db id) ≡ true
      → IsUnreserved g db id
  free-IsUnreserved {db} id v h e =
      let reads =
        free_valid_iff (meta_of g db id) (AllBytes-get_or db.key_meta (slot g id) v.bytes) in
      (
        ground (arith, reads, valid_lem ok id v h, e),
        ground (arith, reads, key_count_lem ok id v h, e),
      )

  pub free-valid :
      {db : Db} (id : ℕ)
      → IsOpen g db
      → IsId g id
      → free_valid (meta_of g db id) ≡ true
      → has flag_valid (meta_of g db id) ≡ true
  free-valid {db} id v h e =
      ground (
        arith,
        free_valid_iff (meta_of g db id) (AllBytes-get_or db.key_meta (slot g id) v.bytes),
        e,
      )
