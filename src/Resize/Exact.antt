-- ===== src/Resize/Exact.antt =====
-- Keys of an exact size, bin/modules/qkd-resize/qkd-resize.cpp: what `process` forwards and keeps.
use ait_qkd.Prelude.{
  ℕ, ◌+◌, ◌^◌, ◌≤◌, ◌<◌, ◌≡◌, refl, sym, ap, ◌∙◌, List, [], ◌∷◌, ◌++◌, Option, some, true, false,
  ◌&&◌, ltb, leb, ◌==◌, length, length-append, All, All-append, if_either, Runs, Runs-bind, arith,
}
use mathlib.Core.Path.{subst}
use mathlib.Core.List.{append_assoc, append-nil}
use ait_qkd.Key.{Key, size, null}
use ait_qkd.Resize.{
  Resize, plus, cut_all, Joined, join_all, pick_exact_keys, pick_minimum_key, merge, Processed,
  dropped, as_is, ready, process,
}
use ait_qkd.Resize.Groups.{
  bytes_of, bytes_of-append, Numbered, Numbered-append, Grouped, cut_all-Grouped,
}
use ait_qkd.Resize.Joining.{Leaves, Leaves-same, join_all-Leaves}

-- The module collects keys of the size `exact`, and holds fewer bytes than that.
pub record IsReady (exact : ℕ) (s : Resize) : Type 0 where
  pub exact_is : s.exact_key_size ≡ exact
  pub minimum_is : s.minimum_key_size ≡ 0
  pub counted : s.current_size ≡ length (bytes_of s.work_received)
  pub small : length (bytes_of s.work_received) < exact

-- Keys of the size `exact` that are numbered from `id` on were made of `bytes`, in their order, and
-- the module holds the rest.
pub record Forwards (exact id : ℕ) (bytes : List ℕ) (forwarded : List Key) (s : Resize)
    : Type 0 where
  pub is_ready : IsReady exact s
  pub same : bytes_of forwarded ++ bytes_of s.work_received ≡ bytes
  pub sized : All (λ k. length k.bytes ≡ exact) forwarded
  pub numbered : Numbered id forwarded s.key_id_counter

-- `process` forwards such keys.
pub Resized : (exact id : ℕ) → List ℕ → Processed × Resize → Type 0
Resized exact id bytes (ready forwarded, s) = Forwards exact id bytes forwarded s
Resized exact id bytes (dropped, s) = ⊥
Resized exact id bytes (as_is, s) = ⊥

some_forwarded :
    (exact : ℕ) (before new left : List Key)
    → exact ≤ length (bytes_of new ++ bytes_of left)
    → length (bytes_of left) < exact
    → (length (before ++ new) == 0) ≡ false
some_forwarded exact before [] left h g = absurd (omega (arith, h, g))
some_forwarded exact before (k ∷ new) left h g = ground (arith, length-append before (k ∷ new))

module _ {exact id : ℕ} (some_bytes : 0 < exact) {bytes : List ℕ} {forwarded : List Key}
    {s : Resize} (h : Forwards exact id bytes forwarded s) (k : Key)
    (fits : exact + length k.bytes ≤ 2 ^ 64) where
  received : Resize
  received = record s {
    work_received = s.work_received ++ k ∷ [];
    current_size = plus s.current_size (length k.bytes);
  }

  received_bytes : bytes_of (s.work_received ++ k ∷ []) ≡ bytes_of s.work_received ++ k.bytes
  received_bytes =
      bytes_of-append s.work_received (k ∷ [])
      ∙ ap (λ bs. bytes_of s.work_received ++ bs) (append-nil k.bytes)

  received_size :
      plus s.current_size (length k.bytes) ≡ length (bytes_of (s.work_received ++ k ∷ []))
  received_size = omega (
    arith,
    h.is_ready.counted,
    h.is_ready.small,
    fits,
    ap length received_bytes,
    length-append (bytes_of s.work_received) k.bytes,
  )

  all_bytes : bytes_of forwarded ++ bytes_of (s.work_received ++ k ∷ []) ≡ bytes ++ k.bytes
  all_bytes =
      ap (λ bs. bytes_of forwarded ++ bs) received_bytes
      ∙ sym (append_assoc (bytes_of forwarded) (bytes_of s.work_received) k.bytes)
      ∙ ap (λ bs. bs ++ k.bytes) h.same

  received-Forwards :
      ltb (plus s.current_size (length k.bytes)) exact ≡ true
      → Forwards exact id (bytes ++ k.bytes) forwarded received
  unfolding received
  received-Forwards e = record {
    is_ready = record {
      exact_is = h.is_ready.exact_is;
      minimum_is = h.is_ready.minimum_is;
      counted = received_size;
      small = ground (arith, e, received_size);
    };
    same = all_bytes;
    sized = h.sized;
    numbered = h.numbered;
  }

module _ {id : ℕ} {bytes : List ℕ} {forwarded : List Key} {s : Resize}
    (some_bytes : 0 < s.exact_key_size) (h : Forwards s.exact_key_size id bytes forwarded s)
    (k : Key) (fits : s.exact_key_size + length k.bytes ≤ 2 ^ 64) where
  cut_received : List Key
  cut_received = cut_all s.exact_key_size 0 (s.work_received ++ k ∷ [])

  joined : Joined
  joined =
      join_all s.exact_key_size null [] (plus s.current_size (length k.bytes)) s.key_id_counter
        cut_received

  cut_received-Grouped :
      Grouped s.exact_key_size 0 (bytes_of (s.work_received ++ k ∷ [])) cut_received
  unfolding cut_received
  cut_received-Grouped =
      cut_all-Grouped s.exact_key_size some_bytes 0 s.work_received k
        (omega (arith, h.is_ready.small)) fits

  joined-Leaves :
      Leaves s.exact_key_size s.key_id_counter (bytes_of (s.work_received ++ k ∷ [])) joined
  unfolding joined Grouped
  joined-Leaves =
      let size_is = received_size some_bytes h k fits in
      Leaves-same cut_received-Grouped.1 (
        join_all-Leaves s.exact_key_size some_bytes null [] (plus s.current_size (length k.bytes))
          s.key_id_counter cut_received cut_received-Grouped.0 refl
          (omega (arith, size_is, ap length cut_received-Grouped.1)) (omega arith))

  after_pick : Resize
  after_pick = record s {
    work_received = joined.left;
    current_size = joined.current_size;
    key_id_counter = joined.key_id_counter;
  }

  after_pick-Forwards :
      Forwards s.exact_key_size id (bytes ++ k.bytes) (forwarded ++ joined.forwarded) after_pick
  unfolding after_pick
  after_pick-Forwards = record {
    is_ready = record {
      exact_is = refl;
      minimum_is = h.is_ready.minimum_is;
      counted = joined-Leaves.counted;
      small = joined-Leaves.small;
    };
    same =
        ap (λ bs. bs ++ bytes_of joined.left) (bytes_of-append forwarded joined.forwarded)
        ∙ append_assoc (bytes_of forwarded) (bytes_of joined.forwarded) (bytes_of joined.left)
        ∙ ap (λ bs. bytes_of forwarded ++ bs) joined-Leaves.same
        ∙ all_bytes some_bytes h k fits;
    sized =
        All-append (λ w. length w.bytes ≡ s.exact_key_size) forwarded joined.forwarded h.sized
          joined-Leaves.sized;
    numbered =
        Numbered-append id forwarded joined.forwarded s.key_id_counter joined.key_id_counter
          h.numbered joined-Leaves.numbered;
  }

  some_ready :
      ltb (plus s.current_size (length k.bytes)) s.exact_key_size ≡ false
      → (length (forwarded ++ joined.forwarded) == 0) ≡ false
  some_ready e =
      some_forwarded s.exact_key_size forwarded joined.forwarded joined.left
        (ground (arith, e, received_size some_bytes h k fits, ap length joined-Leaves.same))
        joined-Leaves.small

  never : true ≡ false → ⊥
  never e = cc e

  pick-own :
      Runs
        (pick_exact_keys forwarded (received some_bytes h k fits))
        (λ r. Forwards s.exact_key_size id (bytes ++ k.bytes) r.0 r.1)
  unfolding pick_exact_keys received joined cut_received after_pick
  pick-own =
      let P : Option (List Key × Resize) → Type 0 =
        λ o. Runs o (λ r. Forwards s.exact_key_size id (bytes ++ k.bytes) r.0 r.1) in
      if_either P (s.exact_key_size == 0) (λ e. absurd (ground (arith, e, some_bytes)))
        (λ _.
          if_either P (ltb (plus s.current_size (length k.bytes)) s.exact_key_size)
            (λ e. received-Forwards some_bytes h k fits e)
            (λ e.
              if_either P (length (forwarded ++ joined.forwarded) == 0)
                (λ n. absurd (never (sym n ∙ some_ready e)))
                (λ _.
                  if_either P (leb s.exact_key_size joined.current_size)
                    (λ n. absurd (ground (arith, n, joined-Leaves.counted, joined-Leaves.small)))
                    (λ _. after_pick-Forwards))))

pick_minimum-none :
    (forwarded : List Key) (s : Resize)
    → s.minimum_key_size ≡ 0
    → pick_minimum_key forwarded s ≡ some (forwarded, s)
unfolding pick_minimum_key
pick_minimum-none forwarded s e = rw e refl

module _ {exact id : ℕ} (some_bytes : 0 < exact) where
  pick-Forwards :
      {bytes : List ℕ} {forwarded : List Key} {s : Resize} (h : Forwards exact id bytes forwarded s)
      (k : Key)
      → exact + length k.bytes ≤ 2 ^ 64
      → Runs
          (pick_exact_keys forwarded (record s {
            work_received = s.work_received ++ k ∷ [];
            current_size = plus s.current_size (length k.bytes);
          }))
          (λ r. Forwards exact id (bytes ++ k.bytes) r.0 r.1)
  unfolding received
  pick-Forwards {bytes} {forwarded} {s} h k fits =
      subst
        (λ e.
          0 < e
          → Forwards e id bytes forwarded s
          → e + length k.bytes ≤ 2 ^ 64
          → Runs
              (pick_exact_keys forwarded (record s {
                work_received = s.work_received ++ k ∷ [];
                current_size = plus s.current_size (length k.bytes);
              }))
              (λ r. Forwards e id (bytes ++ k.bytes) r.0 r.1))
        h.is_ready.exact_is (λ p g f. pick-own p g k f) some_bytes h fits

  merge-Forwards :
      (ks : List Key) {bytes : List ℕ} {forwarded : List Key} {s : Resize}
      → Forwards exact id bytes forwarded s
      → All (λ k. exact + length k.bytes ≤ 2 ^ 64) ks
      → Runs (merge ks forwarded s) (λ r. Forwards exact id (bytes ++ bytes_of ks) r.0 r.1)
  unfolding merge size
  merge-Forwards [] {bytes} {forwarded} {s} h f =
      subst (λ bs. Forwards exact id bs forwarded s) (sym (append-nil bytes)) h
  merge-Forwards (k ∷ ks) {bytes} {forwarded} {s} h f =
      Runs-bind (λ r. Forwards exact id (bytes ++ k.bytes) r.0 r.1) _ _ _ (pick-Forwards h k f.0)
        (λ r g.
          Runs-bind (λ t. Forwards exact id (bytes ++ k.bytes) t.0 t.1) _ (pick_minimum_key r.0 r.1)
            _
            (subst (λ o. Runs o (λ t. Forwards exact id (bytes ++ k.bytes) t.0 t.1))
              (sym (pick_minimum-none r.0 r.1 g.is_ready.minimum_is)) g)
            (λ t u.
              subst (λ bs. Runs (merge ks t.0 t.1) (λ r. Forwards exact id bs r.0 r.1))
                (append_assoc bytes k.bytes (bytes_of ks)) (merge-Forwards ks u f.1)))

-- A synchronizing module that is ready to make keys of an exact size, which is not 0, of keys whose
-- sizes together with it fit 64 bits, does not throw: it forwards keys of exactly this size, made of
-- the bytes that it held and those of the workload in their order, and numbered on from its counter;
-- and it is ready again, holding the rest of these bytes.
pub process-Resized :
    (exact : ℕ) (workload : List Key) (s : Resize)
    → 0 < exact
    → IsReady exact s
    → All (λ k. exact + length k.bytes ≤ 2 ^ 64) workload
    → Runs
        (process true workload s)
        (Resized exact s.key_id_counter (bytes_of s.work_received ++ bytes_of workload))
unfolding process Resized
process-Resized exact workload s some_bytes r f =
    let P : Option (Processed × Resize) → Type 0 = λ o.
      Runs o (Resized exact s.key_id_counter (bytes_of s.work_received ++ bytes_of workload)) in
    if_either P (s.exact_key_size == 0 && s.minimum_key_size == 0)
      (λ e. absurd (ground (arith, e, r.exact_is, some_bytes)))
      (λ _.
        if_either P (ltb 0 s.exact_key_size && ltb 0 s.minimum_key_size)
          (λ e. absurd (ground (arith, e, r.minimum_is)))
          (λ _.
            Runs-bind
              (λ t.
                Forwards exact s.key_id_counter (bytes_of s.work_received ++ bytes_of workload) t.0
                  t.1)
              _ (merge workload [] s) (λ t. some (ready t.0, t.1))
              (merge-Forwards some_bytes workload
                (record { is_ready = r; same = refl; sized = tt; numbered = refl }) f)
              (λ t g. g)))
