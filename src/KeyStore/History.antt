-- ===== src/KeyStore/History.antt =====
-- Histories of a key store, lib/q3p/db/db_ram.cpp: any sequence of the calls that change one key,
-- and of `reset`.
use ait_qkd.Prelude.{
  ℕ, ◌*◌, ◌≤◌, ◌≡◌, List, [], ◌∷◌, Option, some, Bool, true, false, ◌>>=◌, inl, inr, Bool-cases,
  length, arith, Runs, Runs-map, Runs-bind,
}
use ait_qkd.Key.{Key}
use ait_qkd.KeyStore.Flags.{has, flag_valid}
use ait_qkd.KeyStore.Inv.{IsGeometry, IsOpen, IsId, meta_of, valid_lem, in_range-IsId}
use ait_qkd.KeyStore.Views.{Shows, stored-IsId}
use ait_qkd.KeyStore.Keys.{set_key-IsOpen, del-IsOpen}
use ait_qkd.KeyStore.Marks.{
  set_key_count-IsOpen, set_eventual_sync-Marks, set_injected-Marks, set_real_sync-Marks,
  set_real_sync-again, marks_absent,
}
use ait_qkd.KeyStore.Reserve.{stored-Shows}
use ait_qkd.KeyStore.Reset.{Resets, reset-Resets, init-IsOpen}
use ait_qkd.KeyStore.{
  Geometry, Db, amount, in_range, valid, init, reset, del, set_key, set_key_count,
  set_eventual_sync, set_injected, set_real_sync,
}

pub data Call : Type 0 where
  deletes syncs_eventually injects syncs : ℕ → Call
  sets : Key → Call
  reserves : ℕ → ℕ → Call
  resets : Call

unfoldable pub step : Geometry → Call → Db → Option Db
step g (deletes id) db = del g db id
step g (syncs_eventually id) db = set_eventual_sync g db id
step g (injects id) db = set_injected g db id
step g (syncs id) db = set_real_sync g db id
step g (sets k) db = set_key g db k
step g (reserves id n) db = set_key_count g db id n
step g resets db = reset db

unfoldable pub run : Geometry → List Call → Db → Option Db
run g [] db = some db
run g (c ∷ cs) db = do db' ← step g c db; run g cs db'

module _ {g : Geometry} (ok : IsGeometry g) where
  valid-total : {db : Db} (id : ℕ) → IsOpen g db → (b : Bool) × (valid g db id ≡ some b)
  unfolding valid
  valid-total {db} id v = elim (Bool-cases (in_range g id)) [
    | inl e ↦ (_, valid_lem ok id v (in_range-IsId ok id e))
    | inr e ↦ (false, rw e)
  ]

  -- What a stored key shows, and the absence of one.
  on_valid :
      {db : Db} (id : ℕ) (o : Option Db)
      → IsOpen g db
      → ((r e i : Bool) (n : ℕ) → Shows g db id r e i n → Runs o (IsOpen g))
      → (valid g db id ≡ some false → o ≡ some db)
      → Runs o (IsOpen g)
  on_valid {db} id o v there absent = decide (valid-total id v).0 (valid-total id v).1
    where
      decide : (b : Bool) → valid g db id ≡ some b → Runs o (IsOpen g)
      decide true e =
          let h : IsId g id = stored-IsId ok db id e in
          let flag : has flag_valid (meta_of g db id) ≡ true =
            ground (arith, valid_lem ok id v h) in
          there _ _ _ _ (stored-Shows ok 0 id v h flag)
      decide false e = rw (absent e) v

  real_sync-IsOpen :
      {db : Db} (id : ℕ)
      → IsOpen g db
      → (r e i : Bool) (n : ℕ) → Shows g db id r e i n
      → Runs (set_real_sync g db id) (IsOpen g)
  real_sync-IsOpen {db} id v true e i n s = rw (set_real_sync-again ok id v s) v
  real_sync-IsOpen {db} id v false e i n s =
      Runs-map _ (IsOpen g) (λ a m. m.open_after) (set_real_sync g db id)
        (set_real_sync-Marks ok id v s)

  step-IsOpen : {db : Db} (c : Call) → IsOpen g db → Runs (step g c db) (IsOpen g)
  unfolding step
  step-IsOpen {db} (deletes id) v = del-IsOpen ok id v
  step-IsOpen {db} (syncs_eventually id) v =
      on_valid id (set_eventual_sync g db id) v
        (λ r e i n s.
          Runs-map _ (IsOpen g) (λ a m. m.open_after) (set_eventual_sync g db id)
            (set_eventual_sync-Marks ok id v s))
        (λ a. (marks_absent ok id v a).0)
  step-IsOpen {db} (injects id) v =
      on_valid id (set_injected g db id) v
        (λ r e i n s.
          Runs-map _ (IsOpen g) (λ a m. m.open_after) (set_injected g db id)
            (set_injected-Marks ok id v s))
        (λ a. (marks_absent ok id v a).1)
  step-IsOpen {db} (syncs id) v =
      on_valid id (set_real_sync g db id) v (real_sync-IsOpen id v)
        (λ a. (marks_absent ok id v a).2)
  step-IsOpen {db} (sets k) v = set_key-IsOpen ok k v
  step-IsOpen {db} (reserves id n) v = set_key_count-IsOpen ok id n v
  step-IsOpen {db} resets v =
      Runs-map (Resets ok db) (IsOpen g) (λ a r. r.open_after) (reset db) (reset-Resets ok v)

  run-IsOpen : {db : Db} (cs : List Call) → IsOpen g db → Runs (run g cs db) (IsOpen g)
  unfolding run
  run-IsOpen [] v = v
  run-IsOpen {db} (c ∷ cs) v =
      Runs-bind (IsOpen g) (IsOpen g) (step g c db) (run g cs) (step-IsOpen c v)
        (λ db' w. run-IsOpen cs w)

  -- If the memory holds the key data, each history of these calls from a new store returns, without
  -- touching memory outside the arrays, and at its end the arrays have their sizes, the meta data
  -- are bytes and the counter of keys is the number of valid keys.
  pub run-init-IsOpen :
      (raw : List ℕ) (cs : List Call)
      → amount g * g.quantum ≤ length raw
      → Runs (init g raw >>= run g cs) (IsOpen g)
  run-init-IsOpen raw cs h =
      Runs-bind _ (IsOpen g) (init g raw) (run g cs) (init-IsOpen ok raw h)
        (λ db r. run-IsOpen cs r.0)
