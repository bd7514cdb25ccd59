-- ===== src/Resize/Minimum.antt =====
-- Keys of a minimum size, bin/modules/qkd-resize/qkd-resize.cpp: what `process` forwards and keeps.
use ait_qkd.Prelude.{
  ℕ, ◌+◌, ◌^◌, ◌≤◌, ◌<◌, ◌≡◌, refl, sym, ap, ◌∙◌, List, [], ◌∷◌, ◌++◌, Option, some, true, false,
  not, ◌&&◌, ltb, ◌==◌, length, length-append, All, All-append, if_either, Runs, Runs-bind, arith,
}
use mathlib.Core.Path.{subst}
use mathlib.Core.List.{append_assoc, append-nil}
use ait_qkd.Key.{Key, size, null, is_null}
use ait_qkd.Resize.{
  Resize, plus, minus, next_id, join, join_min, pick_exact_keys, pick_minimum_key, merge, Processed,
  dropped, as_is, ready, process,
}
use ait_qkd.Resize.Groups.{bytes_of, bytes_of-append, Numbered, Numbered-append}
use ait_qkd.Resize.Joining.{join-bytes}

-- The module collects keys of the size `minimum` at least, and holds fewer bytes than that.
pub record IsCollecting (minimum : ℕ) (s : Resize) : Type 0 where
  pub exact_is : s.exact_key_size ≡ 0
  pub minimum_is : s.minimum_key_size ≡ minimum
  pub counted : s.current_size ≡ length (bytes_of s.work_received)
  pub small : length (bytes_of s.work_received) < minimum

-- Keys of at least this size that are numbered from `id` on were made of `bytes`, in their order,
-- and the module holds the rest.
pub record Collects (minimum id : ℕ) (bytes : List ℕ) (forwarded : List Key) (s : Resize)
    : Type 0 where
  pub is_collecting : IsCollecting minimum s
  pub same : bytes_of forwarded ++ bytes_of s.work_received ≡ bytes
  pub sized : All (λ k. minimum ≤ length k.bytes) forwarded
  pub numbered : Numbered id forwarded s.key_id_counter

-- `process` forwards such keys.
pub Collected : (minimum id : ℕ) → List ℕ → Processed × Resize → Type 0
Collected minimum id bytes (ready forwarded, s) = Collects minimum id bytes forwarded s
Collected minimum id bytes (dropped, s) = ⊥
Collected minimum id bytes (as_is, s) = ⊥

join_min-bytes :
    (w : Key) (current : ℕ) (ks : List Key)
    → (join_min w current ks).0.bytes ≡ w.bytes ++ bytes_of ks
unfolding join_min
join_min-bytes w current [] = sym (append-nil w.bytes)
join_min-bytes w current (k ∷ ks) =
    join_min-bytes (join w k) (minus current (size k)) ks
    ∙ ap (λ bs. bs ++ bytes_of ks) (join-bytes w k)
    ∙ append_assoc w.bytes k.bytes (bytes_of ks)

join_min-size :
    (w : Key) (current : ℕ) (ks : List Key)
    → current ≡ length (bytes_of ks)
    → current < 2 ^ 64
    → (join_min w current ks).1 ≡ 0
unfolding join_min size
join_min-size w current [] e f = e
join_min-size w current (k ∷ ks) e f =
    let total : current ≡ length k.bytes + length (bytes_of ks) =
      e ∙ length-append k.bytes (bytes_of ks) in
    join_min-size (join w k) (minus current (length k.bytes)) ks (omega (arith, total, f))
      (omega (arith, total, f))

pick_exact-none :
    (forwarded : List Key) (s : Resize)
    → s.exact_key_size ≡ 0
    → pick_exact_keys forwarded s ≡ some (forwarded, s)
unfolding pick_exact_keys
pick_exact-none forwarded s e = rw e refl

module _ {id : ℕ} {bytes : List ℕ} {forwarded : List Key} {s : Resize}
    (some_bytes : 0 < s.minimum_key_size) (h : Collects s.minimum_key_size id bytes forwarded s)
    (k : Key) (fits : s.minimum_key_size + length k.bytes ≤ 2 ^ 64) where
  held : List Key
  held = s.work_received ++ k ∷ []

  current : ℕ
  current = plus s.current_size (length k.bytes)

  received : Resize
  received = record s { work_received = held; current_size = current }

  held-bytes : bytes_of held ≡ bytes_of s.work_received ++ k.bytes
  unfolding held
  held-bytes =
      bytes_of-append s.work_received (k ∷ [])
      ∙ ap (λ bs. bytes_of s.work_received ++ bs) (append-nil k.bytes)

  current-size : current ≡ length (bytes_of held)
  unfolding current
  current-size = omega (
    arith,
    h.is_collecting.counted,
    h.is_collecting.small,
    fits,
    ap length held-bytes,
    length-append (bytes_of s.work_received) k.bytes,
  )

  all_bytes : bytes_of forwarded ++ bytes_of held ≡ bytes ++ k.bytes
  all_bytes =
      ap (λ bs. bytes_of forwarded ++ bs) held-bytes
      ∙ sym (append_assoc (bytes_of forwarded) (bytes_of s.work_received) k.bytes)
      ∙ ap (λ bs. bs ++ k.bytes) h.same

  joined : Key × ℕ
  joined = join_min null current held

  joined-bytes : joined.0.bytes ≡ bytes_of held
  unfolding joined
  joined-bytes = join_min-bytes null current held

  joined-none : joined.1 ≡ 0
  unfolding joined current
  joined-none = join_min-size null current held current-size (omega arith)

  final : Key
  final = record joined.0 { id = next_id s.key_id_counter }

  received-Collects :
      ltb current s.minimum_key_size ≡ true
      → Collects s.minimum_key_size id (bytes ++ k.bytes) forwarded received
  unfolding received
  received-Collects e = record {
    is_collecting = record {
      exact_is = h.is_collecting.exact_is;
      minimum_is = refl;
      counted = current-size;
      small = ground (arith, e, current-size);
    };
    same = all_bytes;
    sized = h.sized;
    numbered = h.numbered;
  }

  after_pick : Resize
  after_pick = record s {
    work_received = [];
    current_size = joined.1;
    key_id_counter = next_id s.key_id_counter;
  }

  after_pick-Collects :
      ltb current s.minimum_key_size ≡ false
      → Collects s.minimum_key_size id (bytes ++ k.bytes) (forwarded ++ final ∷ []) after_pick
  unfolding after_pick final
  after_pick-Collects e = record {
    is_collecting = record {
      exact_is = h.is_collecting.exact_is;
      minimum_is = refl;
      counted = joined-none;
      small = some_bytes;
    };
    same =
        append-nil (bytes_of (forwarded ++ final ∷ []))
        ∙ bytes_of-append forwarded (final ∷ [])
        ∙ ap (λ bs. bytes_of forwarded ++ bs) (append-nil joined.0.bytes ∙ joined-bytes)
        ∙ all_bytes;
    sized =
        All-append (λ w. s.minimum_key_size ≤ length w.bytes) forwarded (final ∷ []) h.sized
          (ground (arith, e, current-size, ap length joined-bytes), tt);
    numbered =
        Numbered-append id forwarded (final ∷ []) s.key_id_counter (next_id s.key_id_counter)
          h.numbered (refl, refl);
  }

  pick-own :
      Runs
        (pick_minimum_key forwarded received)
        (λ r. Collects s.minimum_key_size id (bytes ++ k.bytes) r.0 r.1)
  unfolding pick_minimum_key received joined final after_pick is_null
  pick-own =
      let P : Option (List Key × Resize) → Type 0 =
        λ o. Runs o (λ r. Collects s.minimum_key_size id (bytes ++ k.bytes) r.0 r.1) in
      if_either P (s.minimum_key_size == 0) (λ e. absurd (ground (arith, e, some_bytes)))
        (λ _. if_either P (ltb current s.minimum_key_size) received-Collects (λ e.
          if_either P (is_null joined.0)
            (λ n. absurd (ground (arith, n, e, some_bytes, current-size, ap length joined-bytes)))
            (λ _.
              if_either P (not (joined.1 == 0)) (λ n. absurd (ground (arith, n, joined-none)))
                (λ _. after_pick-Collects e))))

module _ {minimum id : ℕ} (some_bytes : 0 < minimum) where
  step-Collects :
      {bytes : List ℕ} {forwarded : List Key} {s : Resize}
      (h : Collects minimum id bytes forwarded s) (k : Key)
      → minimum + length k.bytes ≤ 2 ^ 64
      → Runs
          (pick_minimum_key forwarded (record s {
            work_received = s.work_received ++ k ∷ [];
            current_size = plus s.current_size (length k.bytes);
          }))
          (λ r. Collects minimum id (bytes ++ k.bytes) r.0 r.1)
  unfolding received held current
  step-Collects {bytes} {forwarded} {s} h k fits =
      subst
        (λ e.
          0 < e
          → Collects e id bytes forwarded s
          → e + length k.bytes ≤ 2 ^ 64
          → Runs
              (pick_minimum_key forwarded (record s {
                work_received = s.work_received ++ k ∷ [];
                current_size = plus s.current_size (length k.bytes);
              }))
              (λ r. Collects e id (bytes ++ k.bytes) r.0 r.1))
        h.is_collecting.minimum_is (λ p g f. pick-own p g k f) some_bytes h fits

  merge-Collects :
      (ks : List Key) {bytes : List ℕ} {forwarded : List Key} {s : Resize}
      → Collects minimum id bytes forwarded s
      → All (λ k. minimum + length k.bytes ≤ 2 ^ 64) ks
      → Runs (merge ks forwarded s) (λ r. Collects minimum id (bytes ++ bytes_of ks) r.0 r.1)
  unfolding merge size
  merge-Collects [] {bytes} {forwarded} {s} h f =
      subst (λ bs. Collects minimum id bs forwarded s) (sym (append-nil bytes)) h
  merge-Collects (k ∷ ks) {bytes} {forwarded} {s} h f =
      let more : Resize = record s {
        work_received = s.work_received ++ k ∷ [];
        current_size = plus s.current_size (length k.bytes);
      } in
      Runs-bind (λ r. r ≡ (forwarded, more)) _ (pick_exact_keys forwarded more) _
        (subst (λ o. Runs o (λ r. r ≡ (forwarded, more)))
          (sym (pick_exact-none forwarded more h.is_collecting.exact_is)) refl)
        (λ r e.
          Runs-bind (λ t. Collects minimum id (bytes ++ k.bytes) t.0 t.1) _
            (pick_minimum_key r.0 r.1) _
            (subst
              (λ q.
                Runs (pick_minimum_key q.0 q.1)
                  (λ t. Collects minimum id (bytes ++ k.bytes) t.0 t.1))
              (sym e) (step-Collects h k f.0))
            (λ t u.
              subst (λ bs. Runs (merge ks t.0 t.1) (λ r. Collects minimum id bs r.0 r.1))
                (append_assoc bytes k.bytes (bytes_of ks)) (merge-Collects ks u f.1)))

-- A synchronizing module that is ready to make keys of a minimum size, which is not 0, of keys whose
-- sizes together with it fit 64 bits, does not throw: it forwards keys of at least this size, made
-- of the bytes that it held and those of the workload in their order, and numbered on from its
-- counter; and it is ready again, holding the rest of these bytes.
pub process-Collected :
    (minimum : ℕ) (workload : List Key) (s : Resize)
    → 0 < minimum
    → IsCollecting minimum s
    → All (λ k. minimum + length k.bytes ≤ 2 ^ 64) workload
    → Runs
        (process true workload s)
        (Collected minimum s.key_id_counter (bytes_of s.work_received ++ bytes_of workload))
unfolding process Collected
process-Collected minimum workload s some_bytes r f =
    let P : Option (Processed × Resize) → Type 0 = λ o.
      Runs o (Collected minimum s.key_id_counter (bytes_of s.work_received ++ bytes_of workload)) in
    if_either P (s.exact_key_size == 0 && s.minimum_key_size == 0)
      (λ e. absurd (ground (arith, e, r.minimum_is, some_bytes)))
      (λ _.
        if_either P (ltb 0 s.exact_key_size && ltb 0 s.minimum_key_size)
          (λ e. absurd (ground (arith, e, r.exact_is)))
          (λ _.
            Runs-bind
              (λ t.
                Collects minimum s.key_id_counter (bytes_of s.work_received ++ bytes_of workload)
                  t.0 t.1)
              _ (merge workload [] s) (λ t. some (ready t.0, t.1))
              (merge-Collects some_bytes workload
                (record { is_collecting = r; same = refl; sized = tt; numbered = refl }) f)
              (λ t g. g)))
