-- ===== src/KeyStore/Keys.antt =====
-- `set`, `del` and `get` of lib/q3p/db/db_ram.cpp: the key material of the store.
use ait_qkd.Prelude.{
  ℕ, ◌+◌, ◌*◌, ◌≤◌, ◌≡◌, ◌≢◌, ◌&&◌, ◌∙◌, sym, get_or-set_self, slice-splice_self, refl, some, Bool,
  true, false, if◌then◌else◌, length, set, splice, arith, inl, inr, Bool-cases, leb, take,
  replicate, slice, ap, length-replicate, length-take, Runs, le→leb,
}
use ait_qkd.Key.{null, Key, size}
use ait_qkd.KeyStore.Flags.{counter, has, has-flag_valid, has-zero, flag_valid, Reads}
use ait_qkd.KeyStore.Count.{tally-pos, tally-lt-length, tally-le-length, bit}
use ait_qkd.KeyStore.{
  Geometry, Db, amount, slot, in_range, valid, get, del, set_key, inc_u64, dec_u64,
}
use ait_qkd.KeyStore.Inv.{
  IsGeometry, IsOpen, IsId, meta_of, slot-lt, in_range-true, in_range-IsId, valid_lem, block-fits,
  write_slot_lem, written-IsOpen,
}
use ait_qkd.KeyStore.Views.{Shows, Agree, Reads-Shows, get_lem, Agree-written}

module _ {g : Geometry} (ok : IsGeometry g) where
  -- `set` with an id of the store and enough bytes writes the first `quantum` bytes.
  pub set_key_lem :
      {db : Db} (k : Key)
      → IsOpen g db
      → IsId g k.id
      → g.quantum ≤ size k
      → set_key g db k
        ≡ some (record db {
          key_meta = set db.key_meta (slot g k.id) flag_valid;
          key_data = splice db.key_data (g.quantum * slot g k.id) (take g.quantum k.bytes);
          n_count = if has flag_valid (meta_of g db k.id) then db.n_count else inc_u64 db.n_count;
        })
  unfolding set_key size
  set_key_lem k v h e =
      rw (in_range-true ok k.id h, le→leb g.quantum (length k.bytes) e)
        (write_slot_lem ok k.id flag_valid (take g.quantum k.bytes)
          (λ old n. if old then n else inc_u64 n) v h
          (omega (arith, length-take g.quantum k.bytes)))

  pub del_lem :
      {db : Db} (id : ℕ)
      → IsOpen g db
      → IsId g id
      → del g db id
        ≡ some (record db {
          key_meta = set db.key_meta (slot g id) 0;
          key_data = splice db.key_data (g.quantum * slot g id) (replicate g.quantum 0);
          n_count = if has flag_valid (meta_of g db id) then dec_u64 db.n_count else db.n_count;
        })
  unfolding del
  del_lem id v h = rw (in_range-true ok id h) (
      write_slot_lem ok id 0 (replicate g.quantum 0) (λ old n. if old then dec_u64 n else n) v h
        (length-replicate g.quantum 0))

  -- The counter of keys neither wraps on the first key of a slot, nor below 0 on its last.
  count_inc :
      {db : Db} (id : ℕ)
      → IsOpen g db
      → IsId g id
      → (if has flag_valid (meta_of g db id) then db.n_count else inc_u64 db.n_count)
          + bit (has flag_valid (meta_of g db id))
        ≡ db.n_count + bit (has flag_valid flag_valid)
  count_inc {db} id v h = ground (
    arith,
    has-flag_valid,
    slot-lt ok id v h,
    tally-lt-length flag_valid db.key_meta (slot g id),
    ok.ids_fit,
  )

  count_dec :
      {db : Db} (id : ℕ)
      → IsOpen g db
      → IsId g id
      → (if has flag_valid (meta_of g db id) then dec_u64 db.n_count else db.n_count)
          + bit (has flag_valid (meta_of g db id))
        ≡ db.n_count + bit (has flag_valid 0)
  count_dec {db} id v h = ground (
    arith,
    has-zero,
    slot-lt ok id v h,
    tally-le-length flag_valid db.key_meta,
    tally-pos flag_valid db.key_meta (slot g id),
    ok.ids_fit,
  )

  set_key-IsOpen_at :
      {db : Db} (k : Key)
      → IsOpen g db
      → IsId g k.id
      → g.quantum ≤ size k
      → Runs (set_key g db k) (IsOpen g)
  set_key-IsOpen_at {db} k v h e = rw (set_key_lem k v h e) (
      written-IsOpen ok k.id flag_valid _ (take g.quantum k.bytes) v h (omega arith)
        (count_inc k.id v h))

  -- `set` keeps the invariant and touches nothing outside the arrays, whatever the key.
  pub set_key-IsOpen : {db : Db} (k : Key) → IsOpen g db → Runs (set_key g db k) (IsOpen g)
  set_key-IsOpen {db} k v = elim (Bool-cases (in_range g k.id && leb g.quantum (size k))) [
    | inl e ↦ set_key-IsOpen_at k v (in_range-IsId ok k.id (ground arith)) (ground arith)
    | inr e ↦ unfold set_key in rw e v
  ]

  pub del-IsOpen : {db : Db} (id : ℕ) → IsOpen g db → Runs (del g db id) (IsOpen g)
  del-IsOpen {db} id v = elim (Bool-cases (in_range g id)) [
    | inl e ↦
        let h : IsId g id = in_range-IsId ok id e in
        rw (del_lem id v h)
          (written-IsOpen ok id 0 _ (replicate g.quantum 0) v h (omega arith) (count_dec id v h))
    | inr e ↦ unfold del in rw e v
  ]

  -- The meta byte of a key that was just written.
  fresh_reads : Reads flag_valid true false false false 0
  unfolding has counter
  fresh_reads = record {
    byte = omega arith;
    is_valid = refl;
    is_real = refl;
    is_eventual = refl;
    is_injected = refl;
    count_is = refl;
  }

  -- What `set` does: the store stays well formed, the key is read back cut to `quantum` bytes with
  -- no mark, all other keys are as before, and a new key is counted.
  pub record Stores (before : Db) (k : Key) (was : Bool) (after : Db) : Type 0 where
    pub open_after : IsOpen g after
    pub read_back : get g after k.id ≡ some (record { id = k.id; bytes = take g.quantum k.bytes })
    pub unmarked : Shows g after k.id false false false 0
    pub others_kept : (j : ℕ) → j ≢ k.id → Agree g before after j
    pub counted : after.n_count ≡ (if was then before.n_count else before.n_count + 1)

  was_valid :
      {db : Db} (id : ℕ) {was : Bool}
      → IsOpen g db
      → IsId g id
      → valid g db id ≡ some was
      → has flag_valid (meta_of g db id) ≡ was
  was_valid {db} id v h e = cc (valid_lem ok id v h, e)

  -- `set`, in an open store, of a key with an id of the store and at least `quantum` bytes, returns.
  -- The store stays open, `get` answers the first `quantum` bytes, the key is valid and has no mark,
  -- all other ids answer as before, and the counter of keys is one more if the id was not valid.
  pub set_key-Stores :
      {db : Db} (k : Key) {was : Bool}
      → IsOpen g db
      → IsId g k.id
      → g.quantum ≤ size k
      → valid g db k.id ≡ some was
      → Runs (set_key g db k) (Stores db k was)
  unfolding size
  set_key-Stores {db} k {was} v h e b =
      let w = set_key-IsOpen_at k v h e in
      rw (set_key_lem k v h e) (stored (rw (set_key_lem k v h e) at w))
    where
      after : Db
      after = record db {
        key_meta = set db.key_meta (slot g k.id) flag_valid;
        key_data = splice db.key_data (g.quantum * slot g k.id) (take g.quantum k.bytes);
        n_count = if has flag_valid (meta_of g db k.id) then db.n_count else inc_u64 db.n_count;
      }

      cut : length (take g.quantum k.bytes) ≡ g.quantum
      cut = omega (arith, length-take g.quantum k.bytes)

      at : meta_of g after k.id ≡ flag_valid
      at = get_or-set_self db.key_meta (slot g k.id) flag_valid 0 (slot-lt ok k.id v h)

      fits : g.quantum * slot g k.id + length (take g.quantum k.bytes) ≤ length db.key_data
      fits = omega (
        arith,
        cut,
        slot-lt ok k.id v h,
        v.size_meta,
        v.size_data,
        block-fits ok (slot g k.id) (amount g) g.quantum (omega arith),
      )

      at_slot : ℕ
      at_slot = g.quantum * slot g k.id

      back : slice after.key_data at_slot g.quantum ≡ take g.quantum k.bytes
      back =
          ap (slice after.key_data at_slot) (sym cut)
          ∙ slice-splice_self db.key_data at_slot (take g.quantum k.bytes) fits

      stored : IsOpen g after → Stores db k was after
      stored w = record {
        open_after = w;
        read_back =
            rw (get_lem ok k.id w h, at, has-flag_valid)
              (ap (λ b. some (record { id = k.id; bytes = b })) back);
        unmarked = Reads-Shows ok k.id w h (rw at fresh_reads);
        others_kept = λ j ne. Agree-written ok k.id flag_valid j _ v w h refl refl cut ne;
        counted = ground (arith, count_inc k.id v h, was_valid k.id v h b, has-flag_valid);
      }

  -- `set` refuses an id outside the store and a key of less than `quantum` bytes.
  pub set_key_refuses :
      (db : Db) (k : Key) → ¬ (IsId g k.id × (g.quantum ≤ size k)) → set_key g db k ≡ some db
  unfolding set_key in_range
  set_key_refuses db k no_room = ground arith

  -- What `del` does: the key is gone, all others are as before, and a key that was there is no
  -- longer counted.
  pub record Deletes (before : Db) (id : ℕ) (was : Bool) (after : Db) : Type 0 where
    pub open_after : IsOpen g after
    pub gone : get g after id ≡ some null
    pub not_valid : valid g after id ≡ some false
    pub others_kept : (j : ℕ) → j ≢ id → Agree g before after j
    pub counted : before.n_count ≡ (if was then after.n_count + 1 else after.n_count)

  -- `del`, in an open store, of an id of the store returns. The store stays open, `get` answers the
  -- null key, the id is not valid, all other ids answer as before, and the counter of keys is one
  -- less if the id was valid.
  pub del-Deletes :
      {db : Db} (id : ℕ) {was : Bool}
      → IsOpen g db
      → IsId g id
      → valid g db id ≡ some was
      → Runs (del g db id) (Deletes db id was)
  del-Deletes {db} id {was} v h b =
      rw (del_lem id v h) (deleted (rw (del_lem id v h) at (del-IsOpen id v)))
    where
      after : Db
      after = record db {
        key_meta = set db.key_meta (slot g id) 0;
        key_data = splice db.key_data (g.quantum * slot g id) (replicate g.quantum 0);
        n_count = if has flag_valid (meta_of g db id) then dec_u64 db.n_count else db.n_count;
      }

      at_zero : meta_of g after id ≡ 0
      at_zero = get_or-set_self db.key_meta (slot g id) 0 0 (slot-lt ok id v h)

      deleted : IsOpen g after → Deletes db id was after
      deleted w = record {
        open_after = w;
        gone = rw (get_lem ok id w h, at_zero, has-zero);
        not_valid = rw (valid_lem ok id w h, at_zero, has-zero);
        others_kept = λ j ne.
            Agree-written ok id 0 j (replicate g.quantum 0) v w h refl refl
              (length-replicate g.quantum 0) ne;
        counted = ground (arith, count_dec id v h, was_valid id v h b, has-zero);
      }
