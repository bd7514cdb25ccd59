-- ===== src/KeyStore/Hits.antt =====
-- `find_valid` of lib/q3p/db/db_ram.cpp: one step of the round through the store, over a key that is
-- picked and over one that is not.
use ait_qkd.Prelude.{
  ◌≢◌, ℕ, suc, ◌+◌, ◌*◌, ◌%◌, ◌≤◌, ◌<◌, ◌≡◌, refl, sym, ◌∙◌, ap, [], ◌∷◌, ◌++◌, some, true, false,
  inl, inr, arith, Runs, Runs-bind, Bool-cases, ◌==◌, ==_iff, All-map, min,
}
use mathlib.Core.List.{append_assoc, append-nil}
use ait_qkd.KeyStore.Flags.{
  has, flag_valid, flag_real_sync, flag_eventual_sync, flag_injected, free_valid,
}
use ait_qkd.KeyStore.Inv.{IsGeometry, IsOpen, IsId, meta_of, valid_lem}
use ait_qkd.KeyStore.Marks.{Marks, set_key_count-Marks}
use ait_qkd.KeyStore.Reserve.{stored-Shows, Marks-Reserves, saturated, IsReserved}
use ait_qkd.KeyStore.Views.{Agree, Agree-refl, Agree-trans}
use ait_qkd.KeyStore.Insert.{
  distance-injective, distance_self, distance, next, next-IsId, distance-next,
}
use ait_qkd.KeyStore.Search.{Pick, take_id}
use ait_qkd.KeyStore.{Geometry, valid, get, set_key_count}
use ait_qkd.KeyStore.Round.{IsUnreserved, Picked, unreserved-free}

module _ {g : Geometry} (ok : IsGeometry g) (start n : ℕ) (hs : IsId g start) where
  -- One hit: the key is reserved or not, and nothing else changes.
  pub record Hit (c i : ℕ) (p q : Pick g) : Type 0 where
    pub open_after : IsOpen g q.store
    pub kept :
        (j : ℕ) → (get g q.store j ≡ get g p.store j) × (valid g q.store j ≡ valid g p.store j)
    pub position_is : q.position ≡ i
    pub bytes_are : q.bytes_left ≡ g.quantum * c
    pub picked_are : q.picked ≡ p.picked ++ i ∷ []
    pub reserved : IsReserved ok n q.store i
    pub still_reserved : (j : ℕ) → IsReserved ok n p.store j → IsReserved ok n q.store j
    pub others_kept : (j : ℕ) → j ≢ i → Agree g p.store q.store j

  pub hit :
      (c i : ℕ) (p : Pick g)
      → IsOpen g p.store
      → IsId g i
      → has flag_valid (meta_of g p.store i) ≡ true
      → IsUnreserved g p.store i
      → p.bytes_left ≡ g.quantum * suc c
      → Runs (take_id g n i p) (Hit c i p)
  unfolding take_id
  hit c i p v h e u b = elim (Bool-cases (n == 0)) [
    | inl z ↦ rw z (record {
      open_after = v;
      kept = λ j. (refl, refl);
      position_is = refl;
      bytes_are = omega (arith, b);
      picked_are = refl;
      reserved = (u.0, u.1 ∙ ap (λ k. some (min (k % 256) 15)) (sym ((==_iff n 0).0 z)));
      still_reserved = λ j was. was;
      others_kept = λ j ne. Agree-refl g p.store j;
    })
    | inr z ↦
        let m = meta_of g p.store i in
        rw z (
          Runs-bind
            (Marks ok p.store i (has flag_real_sync m) (has flag_eventual_sync m)
              (has flag_injected m) (saturated ok n) p.store.n_count_real_sync)
            (Hit c i p) (set_key_count g p.store i n) _
            (set_key_count-Marks ok i v (stored-Shows ok n i v h e) n)
            (λ mid marks.
              let r = Marks-Reserves ok n i (valid_lem ok i v h ∙ ap some e) marks in
              record {
                open_after = r.open_after;
                kept = r.keys_kept;
                position_is = refl;
                bytes_are = omega (arith, b);
                picked_are = refl;
                reserved = r.reserved.0;
                still_reserved = r.still_reserved;
                others_kept = λ j ne. r.others_kept j (ne, tt);
              }))
  ]

  -- Another id on the way is on the way that is left.
  on_the_way :
      (i j : ℕ)
      → IsId g i
      → IsId g j
      → i ≢ start
      → j ≢ i
      → distance ok start j ≤ distance ok start i
      → distance ok start j ≤ distance ok start (next ok i)
  on_the_way i j hi hj ns ne le =
      ground (arith, distance-next ok start i hs hi ns, distance-injective ok start j i hs hj hi)

  module _ (p : Pick g) (v : IsOpen g p.store) (h : IsId g p.position) where
    -- A step over a key that is not free, and one over a key that is.
    pub Picked-skip :
        {c : ℕ} {after : Pick g}
        → next ok p.position ≢ start
        → free_valid (meta_of g p.store (next ok p.position)) ≡ false
        → Picked ok n start c (record p { position = next ok p.position }) after
        → Picked ok n start c p after
    Picked-skip ns f r = record {
      open_after = r.open_after;
      kept = r.kept;
      in_store = r.in_store;
      found = r.found;
      left = r.left;
      picked_are = r.picked_are;
      free =
          All-map
            (λ j w. (
              omega (
                arith,
                w.0,
                distance-next ok start (next ok p.position) hs (next-IsId ok p.position h) ns,
              ),
              w.1,
            ))
            r.found r.free;
      distinct = r.distinct;
      reserved = r.reserved;
      still_reserved = r.still_reserved;
      others_kept = r.others_kept;
      bytes_are = r.bytes_are;
      all_counted = r.all_counted;
      all_found = λ some_left j hj ne le u. elim (Bool-cases (j == next ok p.position)) [
        | inl e ↦ absurd (
            let same = (==_iff j (next ok p.position)).0 e in
            ground (arith, f, unreserved-free ok j v hj u, ap (meta_of g p.store) same))
        | inr e ↦
            r.all_found some_left j hj ne
              (on_the_way (next ok p.position) j (next-IsId ok p.position h) hj ns
                (ground (arith, e)) le)
              u
      ];
    }

    pub Picked-hit :
        {c : ℕ} {q after : Pick g}
        → next ok p.position ≢ start
        → IsUnreserved g p.store (next ok p.position)
        → Hit c (next ok p.position) p q
        → Picked ok n start c q after
        → Picked ok n start (suc c) p after
    Picked-hit {c} {q} ns there t r = record {
      open_after = r.open_after;
      kept = λ j. ((r.kept j).0 ∙ (t.kept j).0, (r.kept j).1 ∙ (t.kept j).1);
      in_store = r.in_store;
      found = next ok p.position ∷ r.found;
      left = r.left;
      picked_are =
          r.picked_are
          ∙ ap (λ l. l ++ r.found) t.picked_are
          ∙ append_assoc p.picked (next ok p.position ∷ []) r.found;
      free = (
        (omega arith, there),
        All-map
            (λ j w.
              let a = t.others_kept j (later j w.0) in
              (omega (arith, w.0, nearer), (sym a.same_valid ∙ w.1.0, sym a.same_count ∙ w.1.1)))
            r.found r.free,
      );
      distinct = (All-map (λ j w. later j w.0) r.found r.free, r.distinct);
      reserved = (r.still_reserved (next ok p.position) t.reserved, r.reserved);
      still_reserved = λ j was. r.still_reserved j (t.still_reserved j was);
      others_kept = λ j ne. Agree-trans (t.others_kept j ne.0) (r.others_kept j ne.1);
      bytes_are = r.bytes_are;
      all_counted = omega (arith, r.all_counted);
      all_found = λ some_left j hj ne le u. elim (Bool-cases (j == next ok p.position)) [
        | inl e ↦ inl ((==_iff j (next ok p.position)).0 e)
        | inr e ↦
            let a = t.others_kept j (ground (arith, e)) in
            inr (
              r.all_found some_left j hj ne
                (rw t.position_is (
                  on_the_way (next ok p.position) j (next-IsId ok p.position h) hj ns
                    (ground (arith, e)) le))
                (a.same_valid ∙ u.0, a.same_count ∙ u.1))
      ];
    }
      where
        nearer : distance ok start (next ok q.position) + 1 ≡ distance ok start (next ok p.position)
        nearer =
            ap (λ i. distance ok start (next ok i) + 1) t.position_is
            ∙ distance-next ok start (next ok p.position) hs (next-IsId ok p.position h) ns

        -- What is picked later is another id.
        later :
            (j : ℕ)
            → distance ok start j ≤ distance ok start (next ok q.position)
            → j ≢ next ok p.position
        later j le e = omega (arith, le, nearer, ap (distance ok start) e)

  pub stop :
      (c j : ℕ) (p : Pick g)
      → IsOpen g p.store
      → IsId g j
      → p.bytes_left ≡ g.quantum * c
      → (0 < c → next ok p.position ≡ start)
      → Picked ok n start c p (record p { position = j })
  stop c j p v h b last = record {
    open_after = v;
    kept = λ j. (refl, refl);
    in_store = h;
    found = [];
    left = c;
    picked_are = sym (append-nil p.picked);
    free = tt;
    distinct = tt;
    reserved = tt;
    still_reserved = λ j was. was;
    others_kept = λ j ne. Agree-refl g p.store j;
    bytes_are = b;
    all_counted = omega arith;
    all_found = λ some_left k hk ne le u. absurd (
        ne (
          distance-injective ok start k start hs hk hs
            (ground (arith, ap (distance ok start) (last some_left), distance_self ok start, le))));
  }
