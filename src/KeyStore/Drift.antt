-- ===== src/KeyStore/Drift.antt =====
-- The counter of keys in real sync, lib/q3p/db/db_ram.cpp: `set_real_sync` and `set_eventual_sync`
-- keep it, `del` and `set` do not.
use ait_qkd.Prelude.{ℕ, ◌+◌, ◌≤◌, ◌≡◌, refl, ap, Bool, true, false, if◌then◌else◌, set, arith, Runs}
use ait_qkd.Key.{Key, size}
use ait_qkd.KeyStore.Flags.{
  has, has_both, flag_valid, flag_valid_real, flag_real_sync, to_real, to_eventual, to_real_reads,
  to_eventual_reads,
}
use ait_qkd.KeyStore.Count.{tally, tally-set, tally-pos, tally-lt-length, tally-le-length, bit}
use ait_qkd.KeyStore.Inv.{IsGeometry, IsOpen, IsId, meta_of, slot-lt, load-meta, write_meta_lem}
use ait_qkd.KeyStore.Views.{Shows, Shows-Reads}
use ait_qkd.KeyStore.Keys.{del_lem, set_key_lem}
use ait_qkd.KeyStore.{
  Geometry, Db, slot, del, set_key, set_real_sync, set_eventual_sync, inc_u64, dec_u64,
}

-- How many keys are stored and in real sync, as `reset` counts them.
abbrev pub real_keys : Db → ℕ
real_keys db = tally flag_valid_real db.key_meta

-- The counter is that number.
abbrev pub IsCounted : Db → Type 0
IsCounted db = db.n_count_real_sync ≡ real_keys db

zero_not_real : has flag_valid_real 0 ≡ false
unfolding has
zero_not_real = refl

valid_not_real : has flag_valid_real flag_valid ≡ false
unfolding has
valid_not_real = refl

module _ {g : Geometry} (ok : IsGeometry g) {db : Db} (id : ℕ) (v : IsOpen g db)
    (c : IsCounted db) where
  module _ {r e i : Bool} {n : ℕ} (s : Shows g db id r e i n) where
    here : IsId g id
    here = (Shows-Reads ok id v s).0

    real_flag : has flag_valid_real (meta_of g db id) ≡ r
    real_flag =
        let rd = (Shows-Reads ok id v s).1 in
        ground (arith, has_both (meta_of g db id) rd.byte, rd.is_valid, rd.is_real)

    -- The number of keys in real sync after a write of the meta byte `m`.
    real_keys-set :
        (m : ℕ)
        → tally flag_valid_real (set db.key_meta (slot g id) m) + bit r
          ≡ real_keys db + bit (has flag_valid_real m)
    real_keys-set m = ground (
      arith,
      real_flag,
      tally-set flag_valid_real db.key_meta (slot g id) m (slot-lt ok id v here),
    )

  -- `set_eventual_sync` of a valid key of an open store returns and keeps the counter of keys in real
  -- sync equal to the number of those keys, if it was.
  pub set_eventual_sync-IsCounted :
      {r e i : Bool} {n : ℕ} → Shows g db id r e i n → Runs (set_eventual_sync g db id) IsCounted
  unfolding set_eventual_sync
  set_eventual_sync-IsCounted {r} s =
      let (h, rd) = Shows-Reads ok id v s in
      let m = meta_of g db id in
      rw
        (
          s.stored,
          write_meta_lem ok id to_eventual (λ m c. if has flag_real_sync m then dec_u64 c else c) v
              h,
          rd.is_real,
        )
        (ground (
          arith,
          real_keys-set s (to_eventual m),
          real_flag s,
          to_eventual_reads m rd.byte,
          has_both (to_eventual m) (to_eventual_reads m rd.byte).byte,
          rd.is_real,
          rd.is_valid,
          tally-pos flag_valid_real db.key_meta (slot g id) (slot-lt ok id v h),
          tally-le-length flag_valid_real db.key_meta,
          v.size_meta,
          ok.ids_fit,
        ))

  -- `set_real_sync` of a valid key of an open store that is not in real sync returns and keeps the
  -- counter of keys in real sync equal to the number of those keys, if it was.
  pub set_real_sync-IsCounted :
      {e i : Bool} {n : ℕ} → Shows g db id false e i n → Runs (set_real_sync g db id) IsCounted
  unfolding set_real_sync
  set_real_sync-IsCounted s =
      let (h, rd) = Shows-Reads ok id v s in
      let m = meta_of g db id in
      rw
        (
          s.stored,
          load-meta ok id v h,
          rd.is_real,
          write_meta_lem ok id to_real (λ _ c. inc_u64 c) v h,
        )
        (ground (
          arith,
          real_keys-set s (to_real m),
          to_real_reads m rd.byte,
          has_both (to_real m) (to_real_reads m rd.byte).byte,
          rd.is_valid,
          tally-lt-length flag_valid_real db.key_meta (slot g id) (slot-lt ok id v h) (real_flag s),
          v.size_meta,
          ok.ids_fit,
        ))

  -- In an open store whose counter of keys in real sync is the number of those keys, `del` of one of
  -- them returns and leaves the counter one above that number.
  pub del_drift :
      {e i : Bool} {n : ℕ}
      → Shows g db id true e i n
      → Runs (del g db id) (λ after. after.n_count_real_sync ≡ real_keys after + 1)
  del_drift s =
      rw (del_lem ok id v (here s)) (omega (arith, real_keys-set s 0, ap bit zero_not_real))

-- In an open store whose counter of keys in real sync is the number of those keys, `set` of a key of
-- at least `quantum` bytes over one of them returns and leaves the counter one above that number.
pub set_drift :
    {g : Geometry} (ok : IsGeometry g) {db : Db} (k : Key) {e i : Bool} {n : ℕ}
    → IsOpen g db
    → IsCounted db
    → Shows g db k.id true e i n
    → g.quantum ≤ size k
    → Runs (set_key g db k) (λ after. after.n_count_real_sync ≡ real_keys after + 1)
set_drift ok k v c s h =
    rw (set_key_lem ok k v (here ok k.id v c s) h)
      (omega (arith, real_keys-set ok k.id v c s flag_valid, ap bit valid_not_real))
