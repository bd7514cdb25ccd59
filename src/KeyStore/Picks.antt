-- ===== src/KeyStore/Picks.antt =====
-- `find_valid` of lib/q3p/db/db_ram.cpp: the round through the store.
use ait_qkd.Prelude.{
  ◌≢◌, ℕ, zero, suc, ◌+◌, ◌*◌, ◌%◌, ◌≤◌, ◌<◌, ◌≡◌, refl, sym, ◌∙◌, ap, ap₂, ◌^◌, List, Option, none,
  some, true, false, inl, inr, arith, Runs, Runs-map, Runs-bind, Bool-cases, ◌==◌, ==_iff, length,
  All, All-map,
}
use mathlib.Core.Path.{subst}
use native.Mathlib.Nat.{mod-eq_of_lt, mod_self, mul-mod_right}
use ait_qkd.KeyStore.Flags.{free_valid}
use ait_qkd.KeyStore.Inv.{IsGeometry, IsOpen, IsId, meta_of, load-meta}
use ait_qkd.KeyStore.Reserve.{IsReserved}
use ait_qkd.KeyStore.Views.{Agree}
use ait_qkd.KeyStore.Insert.{distance-round, distance, next, next-IsId, distance-next, distance-lt}
use ait_qkd.KeyStore.Search.{Pick, advance, take_id, pick_loop, begin, find_valid, u32}
use ait_qkd.KeyStore.{
  key_count, Geometry, Db, amount, valid, get, real_sync, eventual_sync, injected, flag_of,
}
use ait_qkd.KeyStore.Round.{In, IsUnreserved, IsDistinct, Picked, free-IsUnreserved, free-valid}
use ait_qkd.KeyStore.Hits.{Hit, hit, Picked-skip, Picked-hit, stop}

-- What `find_valid` answers when `wanted` keys are asked for, to be reserved with the count `n`.
pub record Found {g : Geometry} (ok : IsGeometry g) (wanted n : ℕ) (db : Db) (out : List ℕ × Db)
    : Type 0 where
  pub open_after : IsOpen g out.1
  pub last_pick : IsId g out.1.last_picked_valid
  pub kept : (j : ℕ) → (get g out.1 j ≡ get g db j) × (valid g out.1 j ≡ valid g db j)
  pub free : All (IsUnreserved g db) out.0
  pub distinct : IsDistinct out.0
  pub reserved : All (IsReserved ok n out.1) out.0
  pub others_kept : (j : ℕ) → All (λ id. j ≢ id) out.0 → Agree g db out.1 j
  pub not_more : length out.0 ≤ wanted
  pub none_missed :
      length out.0 < wanted
      → (j : ℕ) → IsId g j
      → j ≢ db.last_picked_valid
      → IsUnreserved g db j
      → In j out.0

module _ {g : Geometry} (ok : IsGeometry g) (from_zero : g.min_id ≡ 0)
    (some_room : 0 < g.quantum) where
  small : (i : ℕ) → i < 2 ^ 32 → u32 i ≡ i
  small i h = omega (arith, h)

  next_step : (i : ℕ) → IsId g i → i + 1 < g.max_id → next ok i ≡ i + 1
  unfolding next
  next_step i h e = ground (arith, ok.ids_fit)

  next_wrap : (i : ℕ) → IsId g i → i + 1 ≡ g.max_id → next ok i ≡ 0
  unfolding next
  next_wrap i h e = ground (arith, ok.ids_fit, from_zero)

  advance_step : (i : ℕ) → IsId g i → i + 1 < g.max_id → advance g i ≡ i + 1
  unfolding advance
  advance_step i h e =
      ap₂ ◌%◌ (small (i + 1) (omega (arith, ok.ids_fit, e))) (omega (arith, from_zero))
      ∙ mod-eq_of_lt e

  advance_wrap : (i : ℕ) → IsId g i → i + 1 ≡ g.max_id → advance g i ≡ 0
  unfolding advance
  advance_wrap i h e =
      ap₂ ◌%◌ (small (i + 1) (omega (arith, ok.ids_fit, e)) ∙ e) (omega (arith, from_zero))
      ∙ mod_self g.max_id

  advance_lem : (i : ℕ) → IsId g i → advance g i ≡ next ok i
  advance_lem i h = elim (Bool-cases (i + 1 == g.max_id)) [
    | inl e ↦ advance_wrap i h (ground (arith, e)) ∙ sym (next_wrap i h (ground (arith, e)))
    | inr e ↦ advance_step i h (ground (arith, e)) ∙ sym (next_step i h (ground (arith, e)))
  ]

  module _ (start n : ℕ) (hs : IsId g start) where
    module _ (fuel : ℕ) (p : Pick g) (v : IsOpen g p.store) (h : IsId g p.position) where
      abbrev at : ℕ
      at = next ok p.position

      loop_end : (p.bytes_left == 0) ≡ true → pick_loop g free_valid start n (suc fuel) p ≡ some p
      unfolding pick_loop
      loop_end e = rw (pick_loop, e)

      loop_round :
          (p.bytes_left == 0) ≡ false
          → (at == start) ≡ true
          → pick_loop g free_valid start n (suc fuel) p ≡ some (record p { position = at })
      unfolding pick_loop
      loop_round b e = rw (pick_loop, b, advance_lem p.position h, e, advance_lem p.position h)

      loop_skip :
          (p.bytes_left == 0) ≡ false
          → (at == start) ≡ false
          → free_valid (meta_of g p.store at) ≡ false
          → pick_loop g free_valid start n (suc fuel) p
            ≡ pick_loop g free_valid start n fuel (record p { position = at })
      unfolding pick_loop
      loop_skip b e f = rw (
        pick_loop,
        b,
        advance_lem p.position h,
        e,
        advance_lem p.position h,
        load-meta ok at v (next-IsId ok p.position h),
        f,
        advance_lem p.position h,
      )

      loop_hit :
          (q : Pick g)
          → (p.bytes_left == 0) ≡ false
          → (at == start) ≡ false
          → free_valid (meta_of g p.store at) ≡ true
          → take_id g n at p ≡ some q
          → pick_loop g free_valid start n (suc fuel) p ≡ pick_loop g free_valid start n fuel q
      unfolding pick_loop
      loop_hit q b e f t = rw (
        pick_loop,
        b,
        advance_lem p.position h,
        e,
        advance_lem p.position h,
        load-meta ok at v (next-IsId ok p.position h),
        f,
        advance_lem p.position h,
        t,
      )

    Runs-value :
        (P : Pick g → Type 0) (o : Option (Pick g)) → Runs o P → (q : Pick g) × (o ≡ some q) × P q
    Runs-value P (some q) h = (q, refl, h)
    Runs-value P none h = absurd h

    unfinished : (c : ℕ) {b : ℕ} → 0 < c → b ≡ g.quantum * c → ¬ ((b == 0) ≡ true)
    unfinished (suc c) pos b e = ground (arith, some_room, b, e)
    unfinished zero pos b e = omega (arith, pos)

    hit_round :
        (fuel c : ℕ) (p : Pick g)
        → IsOpen g p.store
        → IsId g p.position
        → p.bytes_left ≡ g.quantum * c
        → (p.bytes_left == 0) ≡ false
        → (next ok p.position == start) ≡ false
        → free_valid (meta_of g p.store (next ok p.position)) ≡ true
        → ((k : ℕ) (q : Pick g)
            → IsOpen g q.store
            → q.position ≡ next ok p.position
            → q.bytes_left ≡ g.quantum * k
            → Runs (pick_loop g free_valid start n fuel q) (Picked ok n start k q))
        → Runs (pick_loop g free_valid start n (suc fuel) p) (Picked ok n start c p)
    hit_round fuel zero p v h b more s f rest = absurd (ground (arith, b, more))
    hit_round fuel (suc c) p v h b more s f rest =
        let i = next ok p.position in
        let there = free-valid ok i v (next-IsId ok p.position h) f in
        let unreserved = free-IsUnreserved ok i v (next-IsId ok p.position h) f in
        let (q, t, r) =
          Runs-value (Hit ok start n hs c i p) (take_id g n i p)
            (hit ok start n hs c i p v (next-IsId ok p.position h) there unreserved b) in
        rw (loop_hit fuel p v h q more s f t) (
          Runs-map (Picked ok n start c q) (Picked ok n start (suc c) p)
            (λ after. Picked-hit ok start n hs p v h (ground (arith, s)) unreserved r)
            (pick_loop g free_valid start n fuel q)
            (rest c q r.open_after r.position_is r.bytes_are))

    -- The round ends within the fuel and inside the arrays.
    pick_loop-Picked :
        (fuel c : ℕ) (p : Pick g)
        → IsOpen g p.store
        → IsId g p.position
        → p.bytes_left ≡ g.quantum * c
        → distance ok start (next ok p.position) < fuel
        → Runs (pick_loop g free_valid start n fuel p) (Picked ok n start c p)
    pick_loop-Picked zero c p v h b short = absurd (omega arith)
    pick_loop-Picked (suc fuel) c p v h b short = elim (Bool-cases (p.bytes_left == 0)) [
      | inl e ↦ rw (loop_end fuel p v h e) (
          stop ok start n hs c p.position p v h b
            (λ some_left. absurd (unfinished c some_left b e)))
      | inr e ↦ elim (Bool-cases (next ok p.position == start)) [
        | inl s ↦ rw (loop_round fuel p v h e s) (
            stop ok start n hs c (next ok p.position) p v (next-IsId ok p.position h) b
              (λ _. (==_iff (next ok p.position) start).0 s))
        | inr s ↦ elim (Bool-cases (free_valid (meta_of g p.store (next ok p.position)))) [
          | inl f ↦ hit_round fuel c p v h b e s f (λ k q w at left.
              pick_loop-Picked fuel k q w (rw at (next-IsId ok p.position h)) left
                (rw at (omega (arith, short, shorter s))))
          | inr f ↦ rw (loop_skip fuel p v h e s f) (
              Runs-map (Picked ok n start c (record p { position = next ok p.position }))
                (Picked ok n start c p)
                (λ after. Picked-skip ok start n hs p v h (ground (arith, s)) f)
                (pick_loop g free_valid start n fuel (record p { position = next ok p.position }))
                (pick_loop-Picked fuel c (record p { position = next ok p.position }) v
                  (next-IsId ok p.position h) b (omega (arith, short, shorter s))))
        ]
      ]
    ]
      where
        shorter :
            (next ok p.position == start) ≡ false
            → distance ok start (next ok (next ok p.position)) + 1
              ≡ distance ok start (next ok p.position)
        shorter s =
            distance-next ok start (next ok p.position) hs (next-IsId ok p.position h)
              (ground (arith, s))

  multiple : (c : ℕ) → (g.quantum * c % g.quantum == 0) ≡ true
  multiple c = (==_iff (g.quantum * c % g.quantum) 0).1 (mul-mod_right g.quantum c)

  -- The position alone does not show.
  unmoved :
      (db : Db) (p : Pick g)
      → ((j : ℕ) → (get g p.store j ≡ get g db j) × (valid g p.store j ≡ valid g db j))
      → (j : ℕ)
      → (get g (record (p.store) { last_picked_valid = p.position }) j ≡ get g db j)
        × (valid g (record (p.store) { last_picked_valid = p.position }) j ≡ valid g db j)
  unfolding get valid
  unmoved db p kept j = kept j

  unmoved-IsReserved :
      (n : ℕ) (p : Pick g) (j : ℕ)
      → IsReserved ok n p.store j
      → IsReserved ok n (record (p.store) { last_picked_valid = p.position }) j
  unfolding valid key_count
  unmoved-IsReserved n p j was = was

  unmoved-Agree :
      (db : Db) (p : Pick g) (j : ℕ)
      → Agree g db p.store j
      → Agree g db (record (p.store) { last_picked_valid = p.position }) j
  unfolding get valid key_count real_sync eventual_sync injected flag_of
  unmoved-Agree db p j a = record {
    same_valid = a.same_valid;
    same_real = a.same_real;
    same_eventual = a.same_eventual;
    same_injected = a.same_injected;
    same_count = a.same_count;
    same_key = a.same_key;
  }

  -- `find_valid`, in an open store whose ids start at 0 and whose last pick is one of them, with keys
  -- of at least one byte and for a multiple of `quantum`, returns. The store stays open, its last
  -- pick is an id of it, and no key's bytes and no id's validity changes. The answer has valid keys
  -- only that nobody had reserved, each once, and not more than were asked for; they have the count
  -- as it is written, a count of 0 leaving them unreserved, and the ids that are not in the answer
  -- answer as before. If it has less keys than were asked for, then it has each valid key that nobody
  -- had reserved, except for that of the last pick.
  pub find_valid-Found :
      {db : Db} (c n : ℕ)
      → IsOpen g db
      → IsId g db.last_picked_valid
      → Runs (find_valid g db (g.quantum * c) n) (Found ok c n db)
  unfolding find_valid
  find_valid-Found {db} c n v h =
      rw (Runs, multiple c)
        (Runs-bind
          (Picked ok n db.last_picked_valid c (begin g db db.last_picked_valid (g.quantum * c))) _
          (pick_loop g free_valid db.last_picked_valid n (amount g + 1)
            (begin g db db.last_picked_valid (g.quantum * c)))
          _
          (pick_loop-Picked db.last_picked_valid n h (amount g + 1) c
            (begin g db db.last_picked_valid (g.quantum * c)) v h refl
            (omega (
              arith,
              distance-lt ok db.last_picked_valid (next ok db.last_picked_valid) h
                  (next-IsId ok db.last_picked_valid h),
            )))
          (λ p r. record {
            open_after = record {
              size_meta = r.open_after.size_meta;
              size_data = r.open_after.size_data;
              bytes = r.open_after.bytes;
              counted = r.open_after.counted;
            };
            last_pick = r.in_store;
            kept = unmoved db p r.kept;
            free =
                subst (All (IsUnreserved g db)) (sym r.picked_are)
                  (All-map (λ j w. w.1) r.found r.free);
            distinct = subst IsDistinct (sym r.picked_are) r.distinct;
            reserved =
                subst (All (IsReserved ok n (record (p.store) { last_picked_valid = p.position })))
                  (sym r.picked_are) (All-map (unmoved-IsReserved n p) r.found r.reserved);
            others_kept = λ j ne.
                unmoved-Agree db p j (r.others_kept j (subst (All (λ id. j ≢ id)) r.picked_are ne));
            not_more = omega (arith, ap length r.picked_are, r.all_counted);
            none_missed = λ less j hj ne u. subst (In j) (sym r.picked_are) (
                r.all_found (omega (arith, ap length r.picked_are, r.all_counted)) j hj ne
                  (omega (
                    arith,
                    distance-lt ok db.last_picked_valid j h hj,
                    distance-round ok db.last_picked_valid h,
                  ))
                  u);
          }))
