-- ===== src/KeyStore/Search.antt =====
-- The searches of lib/q3p/db/db_ram.cpp: `find_continuous`, `find_spare`, `find_valid` and
-- `insert`. A loop runs on fuel, and `none` stands for a read or write outside the arrays and for
-- fuel that ran out.
use ait_qkd.Prelude.{
  ℕ, zero, suc, ◌+◌, ◌-◌, ◌/◌, ◌%◌, ◌^◌, List, [], ◌∷◌, ◌++◌, Option, none, some, Bool, true, false,
  ◌==◌, if◌then◌else◌, ◌>>=◌, length, load,
}
use ait_qkd.Key.{Key, size}
use ait_qkd.KeyStore.Flags.{has, flag_valid, free_valid, free_spare}
use ait_qkd.KeyStore.{Geometry, Db, amount, slot, set_key, set_key_count, set_key_counts}

abbrev pub u32 : ℕ → ℕ
u32 n = n % 2 ^ 32

module _ (g : Geometry) where
  -- The loop of `find_continuous_internal` from id `i`, with `rounds` ids to go.
  unfoldable pub scan : Db → ℕ → ℕ → ℕ → List ℕ → Option (List ℕ)
  scan db needed zero i keys = some keys
  scan db needed (suc rounds) i keys = elim (load db.key_meta (slot g i)) [
    | none ↦ none
    | some m ↦ elim (free_valid m) [
      | false ↦ scan db needed rounds (i + 1) []
      | true ↦ elim (length (keys ++ i ∷ []) == needed) [
        | true ↦ some (keys ++ i ∷ [])
        | false ↦ scan db needed rounds (i + 1) (keys ++ i ∷ [])
      ]
    ]
  ]

  -- How many keys cover `bytes`, in the 32 bit variable of the source.
  unfoldable pub keys_needed : ℕ → ℕ
  keys_needed bytes =
      if bytes % g.quantum == 0 then u32 (bytes / g.quantum) else u32 (u32 (bytes / g.quantum) + 1)

  -- The reservation at the end of `find_continuous_internal`.
  unfoldable pub reserve : Db → ℕ → ℕ → List ℕ → Option (List ℕ × Db)
  reserve db needed n keys =
      if length keys == needed
      then (do db' ← set_key_counts g db keys n; some (keys, db'))
      else some ([], db)

  unfoldable pub find_continuous : Db → ℕ → ℕ → Option (List ℕ × Db)
  unfolding reserve
  find_continuous db bytes n = do
    keys ← scan db (keys_needed bytes) (amount g) g.min_id []
    reserve db (keys_needed bytes) n keys

  -- What the loops of `find_spare_internal` and `find_valid_internal` change.
  pub record Pick : Type 0 where
    pub store : Db
    pub position : ℕ
    pub bytes_left : ℕ
    pub picked : List ℕ

  -- The next id, round the store.
  unfoldable pub advance : ℕ → ℕ
  advance i = u32 (i + 1) % amount g

  -- A hit: the count is applied if there is one, and the id is taken.
  unfoldable pub take_id : ℕ → ℕ → Pick → Option Pick
  take_id n i p = do
    db' ← if n == 0 then some p.store else set_key_count g p.store i n
    some (record {
      store = db';
      position = i;
      bytes_left = p.bytes_left - g.quantum;
      picked = p.picked ++ i ∷ [];
    })

  -- The loop of both: `wanted` is the test of the meta byte and `start` the id at which the round
  -- ends. The bytes left are a multiple of `quantum`, so their subtraction stops at 0.
  unfoldable pub pick_loop : (ℕ → Bool) → ℕ → ℕ → ℕ → Pick → Option Pick
  pick_loop wanted start n zero p = none
  pick_loop wanted start n (suc fuel) p = elim (p.bytes_left == 0) [
    | true ↦ some p
    | false ↦ elim (advance p.position == start) [
      | true ↦ some (record p { position = advance p.position })
      | false ↦ elim (load p.store.key_meta (slot g (advance p.position))) [
        | none ↦ none
        | some m ↦ elim (wanted m) [
          | false ↦ pick_loop wanted start n fuel (record p { position = advance p.position })
          | true ↦ elim (take_id n (advance p.position) p) [
            | none ↦ none
            | some p' ↦ pick_loop wanted start n fuel p'
          ]
        ]
      ]
    ]
  ]

  abbrev pub begin : Db → ℕ → ℕ → Pick
  begin db start bytes = record { store = db; position = start; bytes_left = bytes; picked = [] }

  unfoldable pub find_spare : Db → ℕ → ℕ → Option (List ℕ × Db)
  find_spare db bytes n = elim (bytes % g.quantum == 0) [
    | false ↦ some ([], db)
    | true ↦ do
      p ← pick_loop free_spare g.min_id n (amount g + 1) (begin db g.min_id bytes)
      some (p.picked, p.store)
  ]

  unfoldable pub find_valid : Db → ℕ → ℕ → Option (List ℕ × Db)
  find_valid db bytes n = elim (bytes % g.quantum == 0) [
    | false ↦ some ([], db)
    | true ↦ do
      p ←
          pick_loop free_valid db.last_picked_valid n (amount g + 1)
            (begin db db.last_picked_valid bytes)
      some (p.picked, record (p.store) { last_picked_valid = p.position })
  ]

  -- The loop of `insert_internal` from id `i`: the first id without a valid key, or `last`.
  unfoldable pub probe : Db → ℕ → ℕ → ℕ → Option ℕ
  probe db last zero i = none
  probe db last (suc fuel) i = elim (last == i) [
    | true ↦ some i
    | false ↦ elim (load db.key_meta (slot g i)) [
      | none ↦ none
      | some m ↦ elim (has flag_valid m) [
        | false ↦ some i
        | true ↦ probe db last fuel (if u32 (i + 1) == g.max_id then g.min_id else u32 (i + 1))
      ]
    ]
  ]

  -- The end of `insert_internal`: the key is stored under the id found.
  unfoldable pub place : Db → Key → ℕ → Option (ℕ × Db)
  place db k id = do
    db' ← set_key g db (record { id = id; bytes = k.bytes })
    some (id, record db' { last_inserted = id })

  -- The result 0 means that there is no room, or that the key has a wrong size.
  unfoldable pub insert : Db → Key → Option (ℕ × Db)
  unfolding place size
  insert db k =
      if size k == g.quantum
      then (do
        id ← probe db db.last_inserted (amount g + 1) (u32 (db.last_inserted + 1))
        if db.last_inserted == id then some (0, db) else place db k id)
      else some (0, db)
