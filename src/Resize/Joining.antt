-- ===== src/Resize/Joining.antt =====
-- The second run of `pick_exact_keys`, bin/modules/qkd-resize/qkd-resize.cpp: the cut keys are joined.
use ait_qkd.Prelude.{
  ℕ, ◌+◌, ◌^◌, ◌<◌, ◌≡◌, inl, inr, refl, sym, ap, ap₂, ◌∙◌, List, [], ◌∷◌, ◌++◌, false, ◌==◌,
  length, length-append, All, if_either, ==_iff, arith,
}
use mathlib.Core.Path.{subst}
use mathlib.Core.List.{append_assoc, append-nil}
use ait_qkd.Key.{Key, size, null, is_null}
use ait_qkd.Resize.{minus, next_id, join, Joined, join_all}
use ait_qkd.Resize.Groups.{bytes_of, bytes_of-append, Numbered, Groups}

pub join-bytes : (w k : Key) → (join w k).bytes ≡ w.bytes ++ k.bytes
unfolding join is_null
join-bytes w k =
    if_either (λ (j : Key). j.bytes ≡ w.bytes ++ k.bytes) (is_null w)
      (λ e. ap (λ bs. bs ++ k.bytes) (none_of w.bytes (ground (arith, e)))) (λ e. refl)
  where
    none_of : (bs : List ℕ) → length bs ≡ 0 → [] ≡ bs
    none_of [] e = refl
    none_of (b ∷ bs) e = absurd (omega (arith, e))

-- What the second run leaves of `bytes`.
pub record Leaves (exact id : ℕ) (bytes : List ℕ) (j : Joined) : Type 0 where
  pub same : bytes_of j.forwarded ++ bytes_of j.left ≡ bytes
  pub sized : All (λ k. length k.bytes ≡ exact) j.forwarded
  pub numbered : Numbered id j.forwarded j.key_id_counter
  pub small : length (bytes_of j.left) < exact
  pub counted : j.current_size ≡ length (bytes_of j.left)

pub Leaves-same :
    {exact id : ℕ} {bs cs : List ℕ} {j : Joined}
    → bs ≡ cs
    → Leaves exact id bs j
    → Leaves exact id cs j
Leaves-same {exact} {id} {j = j} e h = subst (λ bytes. Leaves exact id bytes j) e h

module _ (exact : ℕ) (some_bytes : 0 < exact) where
  Leaves-more :
      {id : ℕ} {bytes : List ℕ} (w : Key) {j : Joined}
      → length w.bytes ≡ exact
      → Leaves exact (next_id id) bytes j
      → Leaves exact id
          (w.bytes ++ bytes)
          (record j { forwarded = record w { id = next_id id } ∷ j.forwarded })
  Leaves-more w {j} e h = record {
    same =
        append_assoc w.bytes (bytes_of j.forwarded) (bytes_of j.left)
        ∙ ap (λ bs. w.bytes ++ bs) h.same;
    sized = (e, h.sized);
    numbered = (refl, h.numbered);
    small = h.small;
    counted = h.counted;
  }

  Groups-full :
      (current : ℕ) (k : Key) (ks : List Key)
      → Groups exact current (k ∷ ks)
      → current + length k.bytes ≡ exact
      → Groups exact 0 ks
  unfolding Groups
  Groups-full current k ks (inl g) e = g.1
  Groups-full current k ks (inr g) e = absurd (omega (arith, g.0, e))

  Groups-more :
      (current next : ℕ) (k : Key) (ks : List Key)
      → Groups exact current (k ∷ ks)
      → next ≡ current + length k.bytes
      → (next == exact) ≡ false
      → Groups exact next ks
  unfolding Groups
  Groups-more current next k ks (inl g) n e = absurd (ground (arith, g.0, n, e))
  Groups-more current next k ks (inr g) n e = subst (λ c. Groups exact c ks) (sym n) g.1

  pub join_all-Leaves :
      (w : Key) (since : List Key) (current id : ℕ) (ks : List Key)
      → Groups exact (length w.bytes) ks
      → bytes_of since ≡ w.bytes
      → current ≡ length w.bytes + length (bytes_of ks)
      → current < 2 ^ 64
      → Leaves exact id (w.bytes ++ bytes_of ks) (join_all exact w since current id ks)
  unfolding join_all Groups size
  join_all-Leaves w since current id [] g s c f = record {
    same = s ∙ sym (append-nil w.bytes);
    sized = tt;
    numbered = refl;
    small = subst (λ bs. length bs < exact) (sym s) g;
    counted = c ∙ omega arith ∙ ap length (sym s);
  }
  join_all-Leaves w since current id (k ∷ ks) g s c f =
      let whole : length (join w k).bytes ≡ length w.bytes + length k.bytes =
        ap length (join-bytes w k) ∙ length-append w.bytes k.bytes in
      let total : current ≡ length w.bytes + length k.bytes + length (bytes_of ks) =
        omega (arith, c, length-append k.bytes (bytes_of ks)) in
      let shown : (join w k).bytes ++ bytes_of ks ≡ w.bytes ++ (k.bytes ++ bytes_of ks) =
        ap (λ bs. bs ++ bytes_of ks) (join-bytes w k)
        ∙ append_assoc w.bytes k.bytes (bytes_of ks) in
      if_either (Leaves exact id (w.bytes ++ (k.bytes ++ bytes_of ks)))
        (length (join w k).bytes == exact)
        (λ e.
          let full : length (join w k).bytes ≡ exact =
            (==_iff (length (join w k).bytes) exact).0 e in
          Leaves-same shown (
            Leaves-more (join w k) full (
              join_all-Leaves null [] (minus current exact) (next_id id) ks
                (Groups-full (length w.bytes) k ks g (omega (arith, whole, full))) refl
                (omega (arith, whole, total, full, f)) (omega (arith, whole, total, full, f)))))
        (λ e. Leaves-same shown (
          join_all-Leaves (join w k) (since ++ k ∷ []) current id ks
            (Groups-more (length w.bytes) (length (join w k).bytes) k ks g whole e)
            (bytes_of-append since (k ∷ [])
              ∙ ap₂ ◌++◌ s (append-nil k.bytes)
              ∙ sym (join-bytes w k))
            (omega (arith, whole, total)) f))
