-- ===== src/KeyStore/Reserve.antt =====
-- The reservation counts of lib/q3p/db/db_ram.cpp over a list of keys.
use ait_qkd.Prelude.{
  ℕ, ◌%◌, ◌≡◌, ◌≢◌, refl, ◌∙◌, List, [], ◌∷◌, some, Bool, true, min, inl, inr, arith, Runs,
  Runs-map, Runs-bind, All-map, Bool-cases, All, ◌==◌, ==_iff,
}
use ait_qkd.KeyStore.Flags.{
  has, counter, flag_valid, flag_real_sync, flag_eventual_sync, flag_injected,
}
use ait_qkd.KeyStore.Count.{AllBytes-get_or}
use ait_qkd.KeyStore.Inv.{IsGeometry, IsOpen, IsId, meta_of, valid_lem}
use ait_qkd.KeyStore.Views.{Shows, Agree, Reads-Shows, Agree-refl, Agree-trans, stored-IsId}
use ait_qkd.KeyStore.Marks.{set_key_count-Marks, Marks}
use ait_qkd.KeyStore.{Geometry, Db, slot, valid, key_count, get, set_key_count, set_key_counts}

module _ {g : Geometry} (ok : IsGeometry g) (n : ℕ) where
  abbrev pub saturated : ℕ
  saturated = min (n % 256) 15

  -- The count that is applied to the key stands, and the key is stored.
  abbrev pub IsReserved : Db → ℕ → Type 0
  IsReserved db id = (valid g db id ≡ some true) × (key_count g db id ≡ some saturated)

  pub stored-Shows :
      {db : Db} (id : ℕ)
      → IsOpen g db
      → IsId g id
      → has flag_valid (meta_of g db id) ≡ true
      → let m = meta_of g db id in
        Shows g db id
          (has flag_real_sync m)
          (has flag_eventual_sync m)
          (has flag_injected m)
          (counter m)
  stored-Shows {db} id v h e = Reads-Shows ok id v h (record {
    byte = AllBytes-get_or db.key_meta (slot g id) v.bytes;
    is_valid = e;
    is_real = refl;
    is_eventual = refl;
    is_injected = refl;
    count_is = refl;
  })

  -- What reserving keys does: those keys are reserved, what was reserved with that count stays so,
  -- the others answer as before, and no key material, and no key's being stored, changes.
  pub record Reserves (before : Db) (ids : List ℕ) (after : Db) : Type 0 where
    pub open_after : IsOpen g after
    pub reserved : All (IsReserved after) ids
    pub still_reserved : (j : ℕ) → IsReserved before j → IsReserved after j
    pub keys_kept :
        (j : ℕ) → (get g after j ≡ get g before j) × (valid g after j ≡ valid g before j)
    pub others_kept : (j : ℕ) → All (λ id. j ≢ id) ids → Agree g before after j

  pub Marks-Reserves :
      {db after : Db} {r e i : Bool} {c : ℕ} (id : ℕ)
      → valid g db id ≡ some true
      → Marks ok db id r e i saturated c after
      → Reserves db (id ∷ []) after
  Marks-Reserves {db} {after} id stored m = record {
    open_after = m.open_after;
    reserved = ((m.shows.stored, m.shows.count_is), tt);
    still_reserved = λ j was. elim (Bool-cases (j == id)) [
      | inl e ↦ rw ((==_iff j id).0 e) (m.shows.stored, m.shows.count_is)
      | inr e ↦
          let a = m.others_kept j (ground arith) in (a.same_valid ∙ was.0, a.same_count ∙ was.1)
    ];
    keys_kept = λ j. elim (Bool-cases (j == id)) [
      | inl e ↦ rw ((==_iff j id).0 e) (m.bytes_kept, rw (m.shows.stored, stored))
      | inr e ↦ let a = m.others_kept j (ground arith) in (a.same_key, a.same_valid)
    ];
    others_kept = λ j ne. m.others_kept j ne.0;
  }

  -- Reserving one key and then more.
  then-Reserves :
      {before mid after : Db} (id : ℕ) (ids : List ℕ)
      → Reserves before (id ∷ []) mid
      → Reserves mid ids after
      → Reserves before (id ∷ ids) after
  then-Reserves id ids p q = record {
    open_after = q.open_after;
    reserved = (q.still_reserved id p.reserved.0, q.reserved);
    still_reserved = λ j was. q.still_reserved j (p.still_reserved j was);
    keys_kept = λ j. ((q.keys_kept j).0 ∙ (p.keys_kept j).0, (q.keys_kept j).1 ∙ (p.keys_kept j).1);
    others_kept = λ j ne. Agree-trans (p.others_kept j (ne.0, tt)) (q.others_kept j ne.1);
  }

  -- `set_key_count` with a list of valid keys of an open store returns. All of them have the count as
  -- it is written, a valid key that had this count before still has it, no key's bytes and no id's
  -- validity changes, and the ids that are not in the list answer as before.
  pub set_key_counts-Reserves :
      {db : Db} (ids : List ℕ)
      → IsOpen g db
      → All (λ id. valid g db id ≡ some true) ids
      → Runs (set_key_counts g db ids n) (Reserves db ids)
  unfolding set_key_counts
  set_key_counts-Reserves {db} [] v all = record {
    open_after = v;
    reserved = tt;
    still_reserved = λ j was. was;
    keys_kept = λ j. (refl, refl);
    others_kept = λ j ne. Agree-refl g db j;
  }
  set_key_counts-Reserves {db} (id ∷ ids) v all =
      let h : IsId g id = stored-IsId ok db id all.0 in
      let e : has flag_valid (meta_of g db id) ≡ true =
        ground (arith, valid_lem ok id v h, all.0) in
      let m = meta_of g db id in
      Runs-bind
        (Marks ok db id (has flag_real_sync m) (has flag_eventual_sync m) (has flag_injected m)
          saturated db.n_count_real_sync)
        (Reserves db (id ∷ ids)) (set_key_count g db id n) (λ db'. set_key_counts g db' ids n)
        (set_key_count-Marks ok id v (stored-Shows id v h e) n)
        λ mid marks.
          let first = Marks-Reserves id all.0 marks in
          let left = All-map (λ j was. (first.keys_kept j).1 ∙ was) ids all.1 in
          Runs-map (Reserves mid ids) (Reserves db (id ∷ ids))
            (λ after rest. then-Reserves id ids first rest) (set_key_counts g mid ids n)
            (set_key_counts-Reserves ids marks.open_after left)
