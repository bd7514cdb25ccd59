-- ===== src/KeyStore/Marks.antt =====
-- The marks of lib/q3p/db/db_ram.cpp: reservation counts, sync states and the injected flag.
use ait_qkd.Prelude.{
  ℕ, ◌%◌, min, ◌<◌, ◌≡◌, ◌≢◌, ◌∙◌, sym, get_or-set_self, refl, some, Bool, true, false,
  if◌then◌else◌, set, arith, inl, inr, Bool-cases, Runs,
}
use ait_qkd.KeyStore.Flags.{
  has, flag_valid, flag_real_sync, to_eventual, to_real, to_injected, with_counter, Reads,
  to_eventual_reads, to_real_reads, to_injected_reads, with_counter_reads,
}
use ait_qkd.KeyStore.Count.{AllBytes-get_or}
use ait_qkd.KeyStore.{
  Geometry, Db, slot, in_range, valid, get, set_key_count, set_eventual_sync, set_injected,
  set_real_sync, inc_u64, dec_u64, counter_bits,
}
use ait_qkd.KeyStore.Inv.{
  IsGeometry, IsOpen, IsId, meta_of, slot-lt, in_range-true, in_range-IsId, load-meta, opened-true,
  write_meta_lem, marked-IsOpen,
}
use ait_qkd.KeyStore.Views.{Shows, Agree, Reads-Shows, Shows-Reads, get_lem, Agree-marked}

module _ {g : Geometry} (ok : IsGeometry g) where
  counter_bits-lt : (n : ℕ) → counter_bits g n < 16
  counter_bits-lt n = omega arith

  meta-byte : {db : Db} (id : ℕ) → IsOpen g db → meta_of g db id < 256
  meta-byte {db} id v = AllBytes-get_or db.key_meta (slot g id) v.bytes

  pub set_key_count_lem :
      {db : Db} (id n : ℕ)
      → IsOpen g db
      → IsId g id
      → set_key_count g db id n
        ≡ some (record db {
          key_meta =
              set db.key_meta (slot g id) (with_counter (counter_bits g n) (meta_of g db id));
        })
  unfolding set_key_count
  set_key_count_lem {db} id n v h =
      rw (in_range-true ok id h, opened-true ok v)
        (write_meta_lem ok id (with_counter (counter_bits g n)) (λ m c. c) v h)

  pub set_key_count-IsOpen :
      {db : Db} (id n : ℕ) → IsOpen g db → Runs (set_key_count g db id n) (IsOpen g)
  set_key_count-IsOpen {db} id n v = elim (Bool-cases (in_range g id)) [
    | inl e ↦
        let h : IsId g id = in_range-IsId ok id e in
        let r =
          with_counter_reads (counter_bits g n) (meta_of g db id) (counter_bits-lt n)
            (meta-byte id v) in
        rw (set_key_count_lem id n v h)
          (marked-IsOpen ok id _ db.n_count_real_sync v h r.byte r.is_valid)
    | inr e ↦ unfold set_key_count in rw e v
  ]

  valid_none : {db : Db} (id : ℕ) → IsOpen g db → in_range g id ≡ false → valid g db id ≡ some false
  unfolding valid
  valid_none id v e = rw e

  -- What a mark of a stored key does: the store stays well formed, the key answers as listed, its
  -- bytes and all other keys are as before, and the counter of keys in real sync is `c`.
  pub record Marks (before : Db) (id : ℕ) (real eventual inj : Bool) (n c : ℕ) (after : Db)
      : Type 0 where
    pub open_after : IsOpen g after
    pub shows : Shows g after id real eventual inj n
    pub bytes_kept : get g after id ≡ get g before id
    pub others_kept : (j : ℕ) → j ≢ id → Agree g before after j
    pub real_count : after.n_count_real_sync ≡ c
    pub count_kept : after.n_count ≡ before.n_count

  module _ {db : Db} (id : ℕ) (v : IsOpen g db) where
    -- The store with a meta byte and the counter of keys in real sync changed.
    abbrev marked : ℕ → ℕ → Db
    marked m c = record db { key_meta = set db.key_meta (slot g id) m; n_count_real_sync = c }

    -- The meta byte `m` in place of one of a stored key.
    marked-Marks :
        {r e i : Bool} {n : ℕ} (m c : ℕ)
        → IsId g id
        → has flag_valid (meta_of g db id) ≡ true
        → Reads m true r e i n
        → Marks db id r e i n c (marked m c)
    marked-Marks m c h e rd =
        let w : IsOpen g (marked m c) = marked-IsOpen ok id m c v h rd.byte (rd.is_valid ∙ sym e) in
        let at : meta_of g (marked m c) id ≡ m =
          get_or-set_self db.key_meta (slot g id) m 0 (slot-lt ok id v h) in
        record {
          open_after = w;
          shows = Reads-Shows ok id w h (rw at rd);
          bytes_kept = rw (get_lem ok id w h, get_lem ok id v h, at, rd.is_valid, e);
          others_kept = λ j ne. Agree-marked ok id m c j v h w ne;
          real_count = refl;
          count_kept = refl;
        }

    module _ {r e i : Bool} {n : ℕ} (s : Shows g db id r e i n) where
      here : IsId g id
      here = (Shows-Reads ok id v s).0

      reads : Reads (meta_of g db id) true r e i n
      reads = (Shows-Reads ok id v s).1

      -- `set_eventual_sync` of a valid key of an open store returns: the key is then in eventual and
      -- not in real sync, and the counter of keys in real sync is one less, modulo 2 ^ 64, if it
      -- was in real sync. Its count, its injected flag, its bytes and all other ids are as before.
      pub set_eventual_sync-Marks : Runs (set_eventual_sync g db id) (
          Marks db id false true i n
            (if r then dec_u64 db.n_count_real_sync else db.n_count_real_sync))
      unfolding set_eventual_sync
      set_eventual_sync-Marks =
          rw
            (
              s.stored,
              write_meta_lem ok id to_eventual
                  (λ m c. if has flag_real_sync m then dec_u64 c else c) v here,
              reads.is_real,
            )
            (marked-Marks _ _ here reads.is_valid
              (ground (arith, reads, to_eventual_reads (meta_of g db id) reads.byte)))

      -- `set_injected` of a stored key marks it as injected.
      pub set_injected-Marks :
          Runs (set_injected g db id) (Marks db id r e true n db.n_count_real_sync)
      unfolding set_injected
      set_injected-Marks =
          rw (s.stored, write_meta_lem ok id to_injected (λ m c. c) v here)
            (marked-Marks _ _ here reads.is_valid
              (ground (arith, reads, to_injected_reads (meta_of g db id) reads.byte)))

      -- `set_key_count` of a valid key of an open store returns, and the key's count is the smaller of
      -- 15 and the lowest byte of the number. All else about the key and all other ids are as
      -- before.
      pub set_key_count-Marks :
          (k : ℕ)
          → Runs
              (set_key_count g db id k)
              (Marks db id r e i (min (k % 256) 15) db.n_count_real_sync)
      set_key_count-Marks k = rw (set_key_count_lem id k v here) (
          marked-Marks _ _ here reads.is_valid (
            ground (
              arith,
              reads,
              with_counter_reads (counter_bits g k) (meta_of g db id) (counter_bits-lt k)
                  reads.byte,
            )))

    -- `set_real_sync` of a valid key of an open store that is not in real sync returns: the key is
    -- then in real and not in eventual sync, and the counter of keys in real sync is one more,
    -- modulo 2 ^ 64. Its count, its injected flag, its bytes and all other ids are as before.
    pub set_real_sync-Marks :
        {e i : Bool} {n : ℕ}
        → Shows g db id false e i n
        → Runs (set_real_sync g db id) (Marks db id true false i n (inc_u64 db.n_count_real_sync))
    unfolding set_real_sync
    set_real_sync-Marks s =
        let rd = reads s in
        rw
          (
            s.stored,
            load-meta ok id v (here s),
            rd.is_real,
            write_meta_lem ok id to_real (λ _ c. inc_u64 c) v (here s),
          )
          (marked-Marks _ _ (here s) rd.is_valid
            (ground (arith, to_real_reads (meta_of g db id) rd.byte)))

    -- A second `set_real_sync` changes nothing.
    pub set_real_sync-again :
        {e i : Bool} {n : ℕ} → Shows g db id true e i n → set_real_sync g db id ≡ some db
    unfolding set_real_sync
    set_real_sync-again s = rw (s.stored, load-meta ok id v (here s), (reads s).is_real)

    -- Of a key that is not stored no mark is taken.
    pub marks_absent :
        valid g db id ≡ some false
        → (set_eventual_sync g db id ≡ some db)
          × (set_injected g db id ≡ some db)
          × (set_real_sync g db id ≡ some db)
    unfolding set_eventual_sync set_injected set_real_sync
    marks_absent e = (rw e, rw e, rw e)
