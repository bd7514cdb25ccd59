-- ===== src/KeyStore/Insert.antt =====
-- `insert` of lib/q3p/db/db_ram.cpp: where the key goes.
use ait_qkd.Prelude.{
  ℕ, zero, suc, ◌+◌, ◌-◌, ◌≤◌, ◌<◌, ◌≡◌, ◌≢◌, refl, sym, ◌∙◌, ap, none, some, true, false, inl, inr,
  load, arith, Runs, Runs-map, Runs-bind, Bool-cases, leb, ◌==◌, ==_iff, if◌then◌else◌, length,
}
use ait_qkd.Key.{Key, size}
use ait_qkd.KeyStore.Flags.{has, flag_valid}
use ait_qkd.KeyStore.Inv.{IsGeometry, IsOpen, IsId, meta_of, load-meta, valid_lem}
use ait_qkd.KeyStore.Keys.{Stores, set_key-Stores}
use ait_qkd.KeyStore.Search.{probe, insert, place, u32}
use ait_qkd.KeyStore.{Geometry, Db, amount, valid, set_key}

module _ {g : Geometry} (ok : IsGeometry g) where
  -- How many steps round the store lead from `i` to `last`.
  unfoldable pub distance : ℕ → ℕ → ℕ
  distance last i = if leb i last then last - i else g.max_id - i + (last - g.min_id)

  unfoldable pub next : ℕ → ℕ
  next i = if u32 (i + 1) == g.max_id then g.min_id else u32 (i + 1)

  pub next-IsId : (i : ℕ) → IsId g i → IsId g (next i)
  unfolding next
  next-IsId i h = ground (arith, ok.ids_fit, ok.nonempty)

  pub distance-next :
      (last i : ℕ)
      → IsId g last
      → IsId g i
      → i ≢ last
      → distance last (next i) + 1 ≡ distance last i
  unfolding next distance
  distance-next last i hl hi ne = ground (arith, ok.ids_fit, ok.nonempty)

  pub distance-injective :
      (last i j : ℕ) → IsId g last → IsId g i → IsId g j → distance last i ≡ distance last j → i ≡ j
  unfolding distance
  distance-injective last i j hl hi hj e = ground arith

  pub distance_self : (last : ℕ) → distance last last ≡ 0
  unfolding distance
  distance_self last = ground arith

  pub distance-lt : (last i : ℕ) → IsId g last → IsId g i → distance last i < amount g
  unfolding distance
  distance-lt last i hl hi = ground arith

  -- The first step goes as far from `last` as the store is large.
  distance-first :
      (last : ℕ) → IsId g last → last + 1 < g.max_id → distance last (last + 1) + 1 ≡ amount g
  unfolding distance
  distance-first last hl h = ground arith

  pub distance-round : (last : ℕ) → IsId g last → distance last (next last) + 1 ≡ amount g
  unfolding next distance
  distance-round last hl = ground (arith, ok.ids_fit, ok.nonempty)

  module _ {db : Db} (v : IsOpen g db) (last : ℕ) (hl : IsId g last) where
    -- The outcome of the search from `i`: a slot without a valid key, or `last` when all the slots
    -- on the way hold one.
    record Probed (i id : ℕ) : Type 0 where
      in_store : IsId g id
      spare : id ≢ last → has flag_valid (meta_of g db id) ≡ false
      full :
          id ≡ last
          → (j : ℕ) → IsId g j
          → j ≢ last
          → distance last j ≤ distance last i
          → has flag_valid (meta_of g db j) ≡ true

    step-Probed :
        (i id : ℕ)
        → IsId g i
        → i ≢ last
        → has flag_valid (meta_of g db i) ≡ true
        → Probed (next i) id
        → Probed i id
    step-Probed i id hi ne used p = record {
      in_store = p.in_store;
      spare = p.spare;
      full = λ e j hj nj le. elim (Bool-cases (j == i)) [
        | inl same ↦ rw ((==_iff j i).0 same) used
        | inr other ↦
            p.full e j hj nj
              (ground (arith, distance-next last i hl hi ne, distance-injective last j i hl hj hi))
      ];
    }

    module _ (fuel i : ℕ) (hi : IsId g i) where
      probe_last : (last == i) ≡ true → probe g db last (suc fuel) i ≡ some i
      unfolding probe
      probe_last e = rw (probe, e)

      probe_spare :
          (last == i) ≡ false
          → has flag_valid (meta_of g db i) ≡ false
          → probe g db last (suc fuel) i ≡ some i
      unfolding probe
      probe_spare e f = rw (probe, e, load-meta ok i v hi, f)

      probe_used :
          (last == i) ≡ false
          → has flag_valid (meta_of g db i) ≡ true
          → probe g db last (suc fuel) i ≡ probe g db last fuel (next i)
      unfolding probe next
      probe_used e f = rw (probe, e, load-meta ok i v hi, f)

    -- The search ends within the fuel, and inside the arrays.
    probe-Probed :
        (fuel i : ℕ) → IsId g i → distance last i < fuel → Runs (probe g db last fuel i) (Probed i)
    probe-Probed zero i hi short = absurd (omega arith)
    probe-Probed (suc fuel) i hi short = elim (Bool-cases (last == i)) [
      | inl e ↦
          let same : last ≡ i = (==_iff last i).0 e in
          rw (probe_last fuel i hi e) (record {
            in_store = hi;
            spare = λ ne. absurd (ne (sym same));
            full = λ _ j hj nj le.
                absurd (
                  nj
                    (distance-injective last j last hl hj hl (ground (arith, distance_self last))));
          })
      | inr ne ↦ elim (Bool-cases (has flag_valid (meta_of g db i))) [
        | inl used ↦ rw (probe_used fuel i hi ne used) (
            Runs-map (Probed (next i)) (Probed i) (λ id. step-Probed i id hi (ground arith) used)
              (probe g db last fuel (next i))
              (probe-Probed fuel (next i) (next-IsId i hi)
                (ground (arith, distance-next last i hl hi))))
        | inr free ↦
            rw (probe_spare fuel i hi ne free)
              (record { in_store = hi; spare = λ _. free; full = λ same. ground arith })
      ]
    ]

  -- What `insert` answers for a key of `quantum` bytes: an id without a valid key, under which the
  -- key is then stored, or 0, with the store unchanged, if each id but `last_inserted` holds one.
  pub data Inserted (db : Db) (k : Key) (out : ℕ × Db) : Type 0 where
    at :
        (after : Db)
        → valid g db out.0 ≡ some false
        → Stores ok db (record { id = out.0; bytes = k.bytes }) false after
        → out.1 ≡ record after { last_inserted = out.0 }
        → Inserted db k out
    no_room :
        out ≡ (0, db)
        → ((j : ℕ) → IsId g j → j ≢ db.last_inserted → valid g db j ≡ some true)
        → Inserted db k out

  settle :
      {db : Db} (k : Key) (id : ℕ)
      → IsOpen g db
      → IsId g id
      → size k ≡ g.quantum
      → has flag_valid (meta_of g db id) ≡ false
      → Runs (place g db k id) (Inserted db k)
  unfolding place size
  settle {db} k id v hi e free =
      let empty_slot : valid g db id ≡ some false = valid_lem ok id v hi ∙ ap some free in
      Runs-bind (Stores ok db (record { id = id; bytes = k.bytes }) false) (Inserted db k)
        (set_key g db (record { id = id; bytes = k.bytes })) _
        (set_key-Stores ok (record { id = id; bytes = k.bytes }) v hi (omega arith) empty_slot)
        (λ after s. at after empty_slot s refl)

  -- `insert`, in an open store, of a key of `quantum` bytes, where `last_inserted` is an id of the
  -- store but not its last, returns. The key is stored under an id that was not valid, which
  -- becomes `last_inserted`, or the answer is 0 with the store unchanged, and then every other id
  -- than `last_inserted` is valid.
  pub insert-Inserted :
      {db : Db} (k : Key)
      → IsOpen g db
      → IsId g db.last_inserted
      → db.last_inserted + 1 < g.max_id
      → size k ≡ g.quantum
      → Runs (insert g db k) (Inserted db k)
  unfolding insert size
  insert-Inserted {db} k v hl room e =
      let start : u32 (db.last_inserted + 1) ≡ db.last_inserted + 1 = omega (arith, ok.ids_fit) in
      rw (Runs, (==_iff (length k.bytes) g.quantum).1 e, start)
        (Runs-bind (Probed v db.last_inserted hl (db.last_inserted + 1)) (Inserted db k)
          (probe g db db.last_inserted (amount g + 1) (db.last_inserted + 1)) _
          (probe-Probed v db.last_inserted hl (amount g + 1) (db.last_inserted + 1) (omega arith)
            (ground (arith, distance-first db.last_inserted hl room)))
          (λ id p. elim (Bool-cases (db.last_inserted == id)) [
            | inl same ↦
                rw (Runs, same)
                  (no_room refl λ j hj nj.
                    valid_lem ok j v hj
                    ∙ ap some (
                        p.full (sym ((==_iff db.last_inserted id).0 same)) j hj nj (
                          ground (
                            arith,
                            distance-lt db.last_inserted j hl hj,
                            distance-first db.last_inserted hl room,
                          ))))
            | inr other ↦ rw (Runs, other) (settle k id v p.in_store e (p.spare (ground arith)))
          ]))

  -- In an open store whose `last_inserted` is its last id, `insert` of a key of `quantum` bytes reads
  -- past the end of the meta data.
  pub insert_overrun :
      {db : Db} (k : Key)
      → IsOpen g db
      → db.last_inserted + 1 ≡ g.max_id
      → size k ≡ g.quantum
      → insert g db k ≡ none
  unfolding insert size probe load
  insert_overrun {db} k v last e = ground (arith, v.size_meta, ok.ids_fit, ok.nonempty)
