-- ===== src/KeyStore/Views.antt =====
-- What the queries of lib/q3p/db/db_ram.cpp answer, read from the meta byte and the key data of an
-- id, and when two stores answer alike.
use ait_qkd.Prelude.{
  ◌∙◌, ℕ, ◌+◌, ◌*◌, ◌≤◌, ◌<◌, ◌≡◌, ◌≢◌, refl, List, some, Bool, true, false, if◌then◌else◌, length,
  read_bytes, slice, arith, Bool-cases, inl, inr, ap, set, get_or-set_ne, ◌⊎◌, ltb, splice,
  slice-splice_apart,
}
use ait_qkd.Key.{null}
use ait_qkd.KeyStore.Flags.{
  has, counter, flag_valid, flag_real_sync, flag_eventual_sync, flag_injected, Reads,
}
use ait_qkd.KeyStore.Count.{AllBytes-get_or}
use ait_qkd.KeyStore.Inv.{
  IsGeometry, IsOpen, IsId, meta_of, slot-lt, in_range-IsId, load-meta, valid_lem, block-fits,
}
use ait_qkd.KeyStore.{
  Geometry, Db, amount, slot, in_range, valid, flag_of, real_sync, eventual_sync, injected,
  key_count, get, read_key,
}

-- The answers for a key that is stored: its sync states, its origin and its reservation count.
pub record Shows (g : Geometry) (db : Db) (id : ℕ) (real eventual inj : Bool) (n : ℕ) : Type 0 where
  pub stored : valid g db id ≡ some true
  pub in_real_sync : real_sync g db id ≡ some real
  pub in_eventual_sync : eventual_sync g db id ≡ some eventual
  pub is_injected : injected g db id ≡ some inj
  pub count_is : key_count g db id ≡ some n

-- `after` answers every query on `id` as `before` does.
pub record Agree (g : Geometry) (before after : Db) (id : ℕ) : Type 0 where
  pub same_valid : valid g after id ≡ valid g before id
  pub same_real : real_sync g after id ≡ real_sync g before id
  pub same_eventual : eventual_sync g after id ≡ eventual_sync g before id
  pub same_injected : injected g after id ≡ injected g before id
  pub same_count : key_count g after id ≡ key_count g before id
  pub same_key : get g after id ≡ get g before id

-- The bytes of a slot.
abbrev pub bytes_of : Geometry → Db → ℕ → List ℕ
bytes_of g db id = slice db.key_data (g.quantum * slot g id) g.quantum

module _ {g : Geometry} (ok : IsGeometry g) where
  flag_of_lem :
      {db : Db} (f id : ℕ)
      → IsOpen g db
      → IsId g id
      → flag_of g f db id
        ≡ some (if has flag_valid (meta_of g db id) then has f (meta_of g db id) else false)
  unfolding flag_of
  flag_of_lem {db} f id v h = rw (valid_lem ok id v h, load-meta ok id v h) (ground arith)

  pub key_count_lem :
      {db : Db} (id : ℕ)
      → IsOpen g db
      → IsId g id
      → key_count g db id
        ≡ some (if has flag_valid (meta_of g db id) then counter (meta_of g db id) else 0)
  unfolding key_count
  key_count_lem {db} id v h = rw (valid_lem ok id v h, load-meta ok id v h) (ground arith)

  read_key_lem :
      {db : Db} (id : ℕ)
      → IsOpen g db
      → IsId g id
      → read_key g db id ≡ some (record { id = id; bytes = bytes_of g db id })
  unfolding read_key read_bytes
  read_key_lem {db} id v h =
      ground (arith, slot-lt ok id v h, block-fits ok (slot g id) (amount g) g.quantum)

  pub get_lem :
      {db : Db} (id : ℕ)
      → IsOpen g db
      → IsId g id
      → get g db id ≡ (
          if has flag_valid (meta_of g db id)
          then some (record { id = id; bytes = bytes_of g db id })
          else some null)
  unfolding get
  get_lem {db} id v h = rw (valid_lem ok id v h, read_key_lem id v h)

  pub Reads-Shows :
      {db : Db} {r e i : Bool} {n : ℕ} (id : ℕ)
      → IsOpen g db
      → IsId g id
      → Reads (meta_of g db id) true r e i n
      → Shows g db id r e i n
  unfolding real_sync eventual_sync injected
  Reads-Shows {db} id v h m = record {
    stored = rw (valid_lem ok id v h) (ap some m.is_valid);
    in_real_sync = rw (flag_of_lem flag_real_sync id v h, m.is_valid) (ap some m.is_real);
    in_eventual_sync =
        rw (flag_of_lem flag_eventual_sync id v h, m.is_valid) (ap some m.is_eventual);
    is_injected = rw (flag_of_lem flag_injected id v h, m.is_valid) (ap some m.is_injected);
    count_is = rw (key_count_lem id v h, m.is_valid) (ap some m.count_is);
  }

  -- The answers depend on the meta byte and the bytes of the id alone.
  Agree-inside :
      {db after : Db} (id : ℕ)
      → IsOpen g db
      → IsOpen g after
      → IsId g id
      → meta_of g after id ≡ meta_of g db id
      → bytes_of g after id ≡ bytes_of g db id
      → Agree g db after id
  unfolding real_sync eventual_sync injected
  Agree-inside {db} {after} id v w h em eb = record {
    same_valid = rw (valid_lem ok id v h, valid_lem ok id w h, em);
    same_real = same_flag flag_real_sync;
    same_eventual = same_flag flag_eventual_sync;
    same_injected = same_flag flag_injected;
    same_count = rw (key_count_lem id v h, key_count_lem id w h, em);
    same_key = rw (get_lem id v h, get_lem id w h, em, eb);
  }
    where
      same_flag : (f : ℕ) → flag_of g f after id ≡ flag_of g f db id
      same_flag f = rw (flag_of_lem f id v h, flag_of_lem f id w h, em)

  Agree-outside : (db after : Db) (id : ℕ) → in_range g id ≡ false → Agree g db after id
  unfolding real_sync eventual_sync injected flag_of key_count get valid
  Agree-outside db after id e = record {
    same_valid = rw e;
    same_real = rw e;
    same_eventual = rw e;
    same_injected = rw e;
    same_count = rw e;
    same_key = rw e;
  }

  -- A write to the slot of `id` is not seen at another id.
  Agree-apart :
      {db after : Db} (id m j : ℕ)
      → IsOpen g db
      → IsOpen g after
      → IsId g id
      → after.key_meta ≡ set db.key_meta (slot g id) m
      → ((k : ℕ) → IsId g k → k ≢ id → bytes_of g after k ≡ bytes_of g db k)
      → j ≢ id
      → Agree g db after j
  Agree-apart {db} {after} id m j v w h em eb ne = elim (Bool-cases (in_range g j)) [
    | inl e ↦
        let hj : IsId g j = in_range-IsId ok j e in
        let apart : slot g id ≢ slot g j = omega arith in
        Agree-inside j v w hj (rw em (get_or-set_ne db.key_meta (slot g id) (slot g j) m 0 apart))
          (eb j hj ne)
    | inr e ↦ Agree-outside db after j e
  ]

  -- Blocks of `q` bytes at different multiples of `q` do not overlap.
  blocks_apart : (q a b : ℕ) → a ≢ b → (q * b + q ≤ q * a) ⊎ (q * a + q ≤ q * b)
  blocks_apart q a b ne = elim (Bool-cases (ltb b a)) [
    | inl e ↦ inl (below b a (ground arith))
    | inr e ↦ inr (below a b (ground arith))
  ]
    where
      below : (x y : ℕ) → x < y → q * x + q ≤ q * y
      below x y h = grind arith

  -- Marking a key changes the answers for that key alone, and no key material.
  pub Agree-marked :
      {db : Db} (id m c j : ℕ)
      → IsOpen g db
      → IsId g id
      → IsOpen g (record db { key_meta = set db.key_meta (slot g id) m; n_count_real_sync = c })
      → j ≢ id
      → Agree g db (record db { key_meta = set db.key_meta (slot g id) m; n_count_real_sync = c }) j
  Agree-marked id m c j v h w ne = Agree-apart id m j v w h refl (λ k _ _. refl) ne

  -- Writing a slot changes the answers for its key alone.
  pub Agree-written :
      {db after : Db} (id m j : ℕ) (bs : List ℕ)
      → IsOpen g db
      → IsOpen g after
      → IsId g id
      → after.key_meta ≡ set db.key_meta (slot g id) m
      → after.key_data ≡ splice db.key_data (g.quantum * slot g id) bs
      → length bs ≡ g.quantum
      → j ≢ id
      → Agree g db after j
  Agree-written {db} {after} id m j bs v w h em ed eb ne =
      Agree-apart id m j v w h em
        (λ k hk nk. rw ed (
          slice-splice_apart db.key_data (g.quantum * slot g id) (g.quantum * slot g k) g.quantum bs
            (rw eb (blocks_apart g.quantum (slot g id) (slot g k) (omega arith)))))
        ne

  pub stored-IsId : (db : Db) (id : ℕ) → valid g db id ≡ some true → IsId g id
  unfolding valid
  stored-IsId db id e = elim (Bool-cases (in_range g id)) [
    | inl r ↦ in_range-IsId ok id r
    | inr r ↦ absurd (ground arith)
  ]

  -- The meta byte behind the answers.
  pub Shows-Reads :
      {db : Db} {r e i : Bool} {n : ℕ} (id : ℕ)
      → IsOpen g db
      → Shows g db id r e i n
      → IsId g id × Reads (meta_of g db id) true r e i n
  unfolding real_sync eventual_sync injected
  Shows-Reads {db} id v s =
      let h : IsId g id = stored-IsId db id s.stored in
      let valid_flag : has flag_valid (meta_of g db id) ≡ true =
        cc (valid_lem ok id v h, s.stored) in
      (
        h,
        record {
          byte = AllBytes-get_or db.key_meta (slot g id) v.bytes;
          is_valid = valid_flag;
          is_real = ground (arith, flag_of_lem flag_real_sync id v h, s.in_real_sync, valid_flag);
          is_eventual =
              ground (arith, flag_of_lem flag_eventual_sync id v h, s.in_eventual_sync, valid_flag);
          is_injected = ground (arith, flag_of_lem flag_injected id v h, s.is_injected, valid_flag);
          count_is = ground (arith, key_count_lem id v h, s.count_is, valid_flag);
        },
      )

pub Agree-refl : (g : Geometry) (db : Db) (id : ℕ) → Agree g db db id
Agree-refl g db id = record {
  same_valid = refl;
  same_real = refl;
  same_eventual = refl;
  same_injected = refl;
  same_count = refl;
  same_key = refl;
}

pub Agree-trans :
    {g : Geometry} {a b c : Db} {id : ℕ} → Agree g a b id → Agree g b c id → Agree g a c id
Agree-trans p q = record {
  same_valid = q.same_valid ∙ p.same_valid;
  same_real = q.same_real ∙ p.same_real;
  same_eventual = q.same_eventual ∙ p.same_eventual;
  same_injected = q.same_injected ∙ p.same_injected;
  same_count = q.same_count ∙ p.same_count;
  same_key = q.same_key ∙ p.same_key;
}
