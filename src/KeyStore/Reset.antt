-- ===== src/KeyStore/Reset.antt =====
-- `init` and `reset` of lib/q3p/db/db_ram.cpp.
use ait_qkd.Prelude.{
  ℕ, zero, suc, ◌*◌, ◌≤◌, ◌<◌, ◌≡◌, refl, ◌∙◌, ap, List, [], ◌∷◌, some, Bool, false, length, get_or,
  replicate, take, length-replicate, length-take, arith, Runs, Runs-map, sym, Bool-cases, inl, inr,
}
use ait_qkd.KeyStore.Flags.{
  has, flag_valid, flag_real_sync, flag_eventual_sync, flag_injected, has-zero, persistent,
  persistent_reads, Reads,
}
use ait_qkd.KeyStore.Count.{tally, AllBytes, AllBytes-get_or, AllBytes-replicate, tally-replicate}
use ait_qkd.KeyStore.Inv.{
  IsGeometry, IsOpen, IsId, meta_of, slot-lt, opened-true, valid_lem, in_range-IsId,
}
use ait_qkd.KeyStore.Views.{Shows, Reads-Shows, Shows-Reads, get_lem}
use ait_qkd.KeyStore.{
  in_range, Geometry, Db, amount, slot, reset_meta, reset, init, valid, get, count,
}

length-reset_meta : (ms : List ℕ) → length (reset_meta ms).0 ≡ length ms
unfolding reset_meta
length-reset_meta [] = refl
length-reset_meta (m ∷ ms) = ap suc (length-reset_meta ms)

reset_meta-AllBytes : (ms : List ℕ) → AllBytes ms → AllBytes (reset_meta ms).0
unfolding reset_meta
reset_meta-AllBytes [] h = tt
reset_meta-AllBytes (m ∷ ms) h = ((persistent_reads m h.0).byte, reset_meta-AllBytes ms h.1)

-- The first counter of `reset` is the number of valid keys.
reset_meta-counts : (ms : List ℕ) → (reset_meta ms).1 ≡ tally flag_valid (reset_meta ms).0
unfolding reset_meta tally
reset_meta-counts [] = refl
reset_meta-counts (m ∷ ms) = ground (arith, reset_meta-counts ms)

get_or-reset_meta :
    (ms : List ℕ) (i : ℕ)
    → i < length ms
    → get_or (reset_meta ms).0 i 0 ≡ persistent (get_or ms i 0)
unfolding reset_meta
get_or-reset_meta [] i h = absurd (omega arith)
get_or-reset_meta (m ∷ ms) zero h = refl
get_or-reset_meta (m ∷ ms) (suc i) h = get_or-reset_meta ms i (omega arith)

get_or-replicate : (n i : ℕ) → get_or {A = ℕ} (replicate n 0) i 0 ≡ 0
get_or-replicate zero i = refl
get_or-replicate (suc n) zero = refl
get_or-replicate (suc n) (suc i) = get_or-replicate n i

module _ {g : Geometry} (ok : IsGeometry g) where
  -- What `reset` does: it keeps each key, with its bytes, sync states and origin, and takes off the
  -- reservations; the counter of keys is the number of valid keys.
  pub record Resets (before after : Db) : Type 0 where
    pub open_after : IsOpen g after
    pub counted : after.n_count ≡ before.n_count
    pub released :
        (id : ℕ) {r e i : Bool} {n : ℕ}
        → Shows g before id r e i n
        → Shows g after id r e i 0 × (get g after id ≡ get g before id)
    pub no_others : (id : ℕ) → IsId g id → valid g after id ≡ valid g before id

  same-tally :
      (ms : List ℕ) → AllBytes ms → tally flag_valid (reset_meta ms).0 ≡ tally flag_valid ms
  unfolding tally reset_meta
  same-tally [] h = refl
  same-tally (m ∷ ms) h = ground (arith, same-tally ms h.1, (persistent_reads m h.0).is_valid)

  -- `reset` of an open store returns. The store stays open with the same counter of keys, each valid
  -- key keeps its bytes, its sync states and its injected flag and has the reservation count 0, and
  -- each id of the store is valid exactly if it was.
  pub reset-Resets : {db : Db} → IsOpen g db → Runs (reset db) (Resets db)
  unfolding reset
  reset-Resets {db} v = rw (Runs, opened-true ok v) resets
    where
      after : Db
      after = record {
        n_count = (reset_meta db.key_meta).1;
        n_count_real_sync = (reset_meta db.key_meta).2;
        key_data = db.key_data;
        last_added = 0;
        last_inserted = 0;
        last_picked_spare = 0;
        last_picked_valid = 0;
        key_meta = (reset_meta db.key_meta).0;
      }

      w : IsOpen g after
      w = record {
        size_meta = length-reset_meta db.key_meta ∙ v.size_meta;
        size_data = v.size_data;
        bytes = reset_meta-AllBytes db.key_meta v.bytes;
        counted = reset_meta-counts db.key_meta;
      }

      cleaned : (id : ℕ) → IsId g id → meta_of g after id ≡ persistent (meta_of g db id)
      cleaned id h = get_or-reset_meta db.key_meta (slot g id) (slot-lt ok id v h)

      byte_reads :
          (id : ℕ)
          → let m = meta_of g db id in
            Reads
              (persistent m)
              (has flag_valid m)
              (has flag_real_sync m)
              (has flag_eventual_sync m)
              (has flag_injected m)
              0
      byte_reads id =
          persistent_reads (meta_of g db id) (AllBytes-get_or db.key_meta (slot g id) v.bytes)

      release :
          (id : ℕ) {r e i : Bool} {n : ℕ}
          → Shows g db id r e i n
          → Shows g after id r e i 0 × (get g after id ≡ get g db id)
      release id s =
          let (h, rd) = Shows-Reads ok id v s in
          (
            Reads-Shows ok id w h (rw (cleaned id h) (ground (arith, rd, byte_reads id))),
            rw (get_lem ok id w h, get_lem ok id v h, cleaned id h, (byte_reads id).is_valid),
          )

      resets : Resets db after
      resets = record {
        open_after = w;
        counted =
            omega (arith, reset_meta-counts db.key_meta, same-tally db.key_meta v.bytes, v.counted);
        released = release;
        no_others = λ id h.
            rw (valid_lem ok id w h, valid_lem ok id v h, cleaned id h, (byte_reads id).is_valid)
              refl;
      }

  reset_meta-zero : (n : ℕ) → tally flag_valid (reset_meta (replicate n 0)).0 ≡ 0
  reset_meta-zero n = same-tally (replicate n 0) (AllBytes-replicate n) ∙ tally-replicate n

  -- `init` returns if the memory holds the key data, whatever its bytes: the store is open, its
  -- counter of keys is 0 and no id is valid.
  pub init-IsOpen :
      (raw : List ℕ)
      → amount g * g.quantum ≤ length raw
      → Runs
          (init g raw)
          (λ db. IsOpen g db × (count db ≡ 0) × ((id : ℕ) → valid g db id ≡ some false))
  unfolding init
  init-IsOpen raw h =
      Runs-map (Resets blank) _ (λ db r. (r.open_after, none_counted db r, none_valid db r)) _
        (reset-Resets blank-IsOpen)
    where
      blank : Db
      blank = record {
        n_count = 0;
        n_count_real_sync = 0;
        key_data = take (amount g * g.quantum) raw;
        last_added = 0;
        last_inserted = 0;
        last_picked_spare = 0;
        last_picked_valid = 0;
        key_meta = replicate (amount g) 0;
      }

      blank-IsOpen : IsOpen g blank
      blank-IsOpen = record {
        size_meta = length-replicate (amount g) 0;
        size_data = omega (arith, length-take (amount g * g.quantum) raw);
        bytes = AllBytes-replicate (amount g);
        counted = sym (tally-replicate (amount g));
      }

      none_counted : (db : Db) → Resets blank db → count db ≡ 0
      none_counted db r = unfold count in ground (arith, r.counted)

      none_valid : (db : Db) → Resets blank db → (id : ℕ) → valid g db id ≡ some false
      none_valid db r id = elim (Bool-cases (in_range g id)) [
        | inl e ↦
            let h : IsId g id = in_range-IsId ok id e in
            r.no_others id h
            ∙ valid_lem ok id blank-IsOpen h
            ∙ ap some (ap (has flag_valid) (get_or-replicate (amount g) (slot g id)) ∙ has-zero)
        | inr e ↦ unfold valid in rw e
      ]
