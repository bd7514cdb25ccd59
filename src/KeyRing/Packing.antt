-- ===== src/KeyRing/Packing.antt =====
-- `push_back` of lib/key/key_ring.cpp: the bytes of the keys end up in the ring in their order.
use mathlib.Core.Path.{subst}
use ait_qkd.Prelude.{
  ℕ, zero, suc, ◌+◌, ◌-◌, ◌*◌, ◌^◌, ◌≤◌, ◌<◌, ◌≡◌, refl, sym, ◌∙◌, ap, List, [], ◌∷◌, ◌++◌, some,
  true, false, inl, inr, ◌==◌, if◌then◌else◌, length, take, drop, min, All, All-append, not, ◌&&◌,
  Bool-cases, length-append, length-take, length-drop, take-drop, arith, Runs, Runs-map,
}
use mathlib.Core.List.{append_assoc, append-nil}
use ait_qkd.Key.{Key, size}
use ait_qkd.KeyRing.{
  KeyRing, next_id, push_empty, back, extend_back, add_slices, rounds, push_back, sub_u64,
}

-- All the bytes of the keys, in order.
unfoldable pub content : List Key → List ℕ
content [] = []
content (k ∷ ks) = k.bytes ++ content ks

-- The ids count up from `first`, and `next` comes after the last.
unfoldable pub Numbered : ℕ → List Key → ℕ → Type 0
Numbered first [] next = first ≡ next
Numbered first (k ∷ ks) next = (k.id ≡ first) × Numbered (next_id first) ks next

-- Every key but the last is full, and the last has room or is full.
pub data Packed (limit : ℕ) (keys : List Key) : Type 0 where
  unused : keys ≡ [] → Packed limit keys
  used :
      (front : List Key) (last : Key)
      → keys ≡ front ++ last ∷ []
      → All (λ k. size k ≡ limit) front
      → size last ≤ limit
      → Packed limit keys

content-append : (ks ls : List Key) → content (ks ++ ls) ≡ content ks ++ content ls
unfolding content
content-append [] ls = refl
content-append (k ∷ ks) ls =
    ap (◌++◌ k.bytes) (content-append ks ls) ∙ sym (append_assoc k.bytes (content ks) (content ls))

Numbered-push :
    (first next : ℕ) (ks : List Key)
    → Numbered first ks next
    → Numbered first (ks ++ record { id = next; bytes = [] } ∷ []) (next_id next)
unfolding Numbered
Numbered-push first next [] h = (sym h, ap next_id h)
Numbered-push first next (k ∷ ks) h = (h.0, Numbered-push (next_id first) next ks h.1)

Numbered-extend :
    (first next : ℕ) (front : List Key) (last : Key) (bs : List ℕ)
    → Numbered first (front ++ last ∷ []) next
    → Numbered first (front ++ record last { bytes = last.bytes ++ bs } ∷ []) next
unfolding Numbered
Numbered-extend first next [] last bs h = h
Numbered-extend first next (k ∷ ks) last bs h =
    (h.0, Numbered-extend (next_id first) next ks last bs h.1)

back_of : (front : List Key) (last : Key) → back (front ++ last ∷ []) ≡ some last
unfolding back
back_of [] last = refl
back_of (k ∷ []) last = refl
back_of (k ∷ j ∷ ks) last = back_of (j ∷ ks) last

extend_back_of :
    (bs : List ℕ) (front : List Key) (last : Key)
    → extend_back bs (front ++ last ∷ []) ≡ front ++ record last { bytes = last.bytes ++ bs } ∷ []
unfolding extend_back
extend_back_of bs [] last = refl
extend_back_of bs (k ∷ []) last = refl
extend_back_of bs (k ∷ j ∷ ks) last = ap (◌∷◌ k) (extend_back_of bs (j ∷ ks) last)

-- What a loop over `bs` leaves of a ring of keys of `limit` bytes.
pub record Added (first : ℕ) (before : KeyRing) (bs : List ℕ) (after : KeyRing) : Type 0 where
  pub same_size : after.key_size ≡ before.key_size
  pub packed : Packed before.key_size after.keys
  pub numbered : Numbered first after.keys after.id
  pub content_is : content after.keys ≡ content before.keys ++ bs

module _ (first limit : ℕ) (some_room : 0 < limit) (fits : limit < 2 ^ 64) where
  -- The rounds that are left: two for each byte, and one if the last key is full.
  cost : Key → List ℕ → ℕ
  cost last bs = 2 * length bs + (if size last == limit then 1 else 0)

  abbrev ring_of : List Key → Key → ℕ → KeyRing
  ring_of front last next = record { keys = front ++ last ∷ []; id = next; key_size = limit }

  abbrev fresh_key : ℕ → Key
  fresh_key next = record { id = next; bytes = [] }

  abbrev filled : Key → List ℕ → Key
  filled last bs = record last { bytes = last.bytes ++ bs }

  -- How many bytes go into the last key in one round.
  abbrev taken : Key → List ℕ → ℕ
  taken last bs = min (limit - size last) (length bs)

  no_bytes : (bs : List ℕ) → length bs ≡ 0 → bs ≡ []
  no_bytes [] e = refl
  no_bytes (b ∷ bs) e = absurd (omega (arith, e))

  positive : (n : ℕ) → 0 < n → (n == 0) ≡ false
  positive n h = ground arith

  -- The source's difference of two `uint64_t` does not wrap.
  room-left : (last : Key) → size last ≤ limit → sub_u64 limit (size last) ≡ limit - size last
  unfolding sub_u64
  room-left last h = omega (arith, fits)

  step_done :
      (fuel : ℕ) (r : KeyRing) (bs : List ℕ)
      → length bs ≡ 0
      → 0 < fuel
      → add_slices fuel r bs ≡ some r
  unfolding add_slices
  step_done (suc fuel) r bs e h = rw (add_slices, e)
  step_done zero r bs e h = absurd (omega (arith, h))

  module _ (fuel next : ℕ) (front : List Key) (last : Key) (bs : List ℕ) where
    none_taken : size last ≡ limit → (taken last bs == 0) ≡ true
    none_taken e = ground (arith, e)

    step_full :
        0 < length bs
        → size last ≡ limit
        → add_slices (suc fuel) (ring_of front last next) bs
          ≡ add_slices fuel (ring_of (front ++ last ∷ []) (fresh_key next) (next_id next)) bs
    unfolding add_slices push_empty
    step_full more e = rw (
      add_slices,
      positive (length bs) more,
      back_of front last,
      room-left last (omega (arith, e)),
      none_taken e,
    )

    step_fill :
        0 < length bs
        → size last < limit
        → add_slices (suc fuel) (ring_of front last next) bs
          ≡ add_slices fuel
              (ring_of front (filled last (take (taken last bs) bs)) next)
              (drop (taken last bs) bs)
    unfolding add_slices
    step_fill more h = rw (
      add_slices,
      positive (length bs) more,
      back_of front last,
      room-left last (omega (arith, h)),
      positive (taken last bs) (omega (arith, more, h)),
      room-left last (omega (arith, h)),
      extend_back_of (take (taken last bs) bs) front last,
    )

  -- Starting an empty key adds nothing.
  Added-push :
      {after : KeyRing} (next : ℕ) (front : List Key) (last : Key) (bs : List ℕ)
      → Added first (ring_of (front ++ last ∷ []) (fresh_key next) (next_id next)) bs after
      → Added first (ring_of front last next) bs after
  unfolding content
  Added-push next front last bs r = record {
    same_size = r.same_size;
    packed = r.packed;
    numbered = r.numbered;
    content_is =
        r.content_is
        ∙ ap (λ c. c ++ bs)
            (content-append (front ++ last ∷ []) (fresh_key next ∷ []) ∙ append-nil _);
  }

  -- The bytes that went into the last key and those that follow are the bytes of the new key.
  content-fill :
      (n : ℕ) (front : List Key) (last : Key) (bs : List ℕ)
      → content (front ++ filled last (take n bs) ∷ []) ++ drop n bs
        ≡ content (front ++ last ∷ []) ++ bs
  unfolding content
  content-fill n [] last bs =
      ap (λ c. c ++ drop n bs) (append-nil _)
      ∙ append_assoc last.bytes (take n bs) (drop n bs)
      ∙ ap (◌++◌ last.bytes) (take-drop n bs)
      ∙ ap (λ c. c ++ bs) (sym (append-nil last.bytes))
  content-fill n (k ∷ ks) last bs =
      append_assoc k.bytes _ (drop n bs)
      ∙ ap (◌++◌ k.bytes) (content-fill n ks last bs)
      ∙ sym (append_assoc k.bytes (content (ks ++ last ∷ [])) bs)

  Added-fill :
      {after : KeyRing} (n next : ℕ) (front : List Key) (last : Key) (bs : List ℕ)
      → Added first (ring_of front (filled last (take n bs)) next) (drop n bs) after
      → Added first (ring_of front last next) bs after
  Added-fill n next front last bs r = record {
    same_size = r.same_size;
    packed = r.packed;
    numbered = r.numbered;
    content_is = r.content_is ∙ content-fill n front last bs;
  }

  size-filled :
      (n : ℕ) (last : Key) (bs : List ℕ)
      → size (filled last (take n bs)) ≡ size last + min n (length bs)
  unfolding size
  size-filled n last bs = omega (arith, length-append last.bytes (take n bs), length-take n bs)

  size-fresh_key : (next : ℕ) → size (fresh_key next) ≡ 0
  unfolding size
  size-fresh_key next = refl

  -- Enough rounds are given, and each keeps the ring packed and numbered.
  add_slices-Added :
      (fuel next : ℕ) (front : List Key) (last : Key) (bs : List ℕ)
      → All (λ k. size k ≡ limit) front
      → size last ≤ limit
      → Numbered first (front ++ last ∷ []) next
      → cost last bs < fuel
      → Runs
          (add_slices fuel (ring_of front last next) bs)
          (Added first (ring_of front last next) bs)
  unfolding cost
  add_slices-Added zero next front last bs full room num short = absurd (omega arith)
  add_slices-Added (suc fuel) next front last bs full room num short =
      elim (Bool-cases (length bs == 0)) [
        | inl e ↦
            rw (step_done (suc fuel) (ring_of front last next) bs (ground (arith, e)) (omega arith))
              (finished (ground (arith, e)))
        | inr more ↦ elim (Bool-cases (size last == limit)) [
          | inl e ↦
              rw (step_full fuel next front last bs (ground (arith, more)) (ground (arith, e))) (
                Runs-map
                  (Added first (ring_of (front ++ last ∷ []) (fresh_key next) (next_id next)) bs)
                  (Added first (ring_of front last next) bs)
                  (λ after. Added-push next front last bs)
                  (add_slices fuel (ring_of (front ++ last ∷ []) (fresh_key next) (next_id next))
                    bs)
                  (add_slices-Added fuel (next_id next) (front ++ last ∷ []) (fresh_key next) bs
                    (All-append _ front (last ∷ []) full (ground (arith, e), tt))
                    (omega (arith, size-fresh_key next))
                    (Numbered-push first next (front ++ last ∷ []) num)
                    (ground (arith, size-fresh_key next, e))))
          | inr e ↦
              let n = taken last bs in
              rw (step_fill fuel next front last bs (ground (arith, more)) (ground (arith, e))) (
                Runs-map (Added first (ring_of front (filled last (take n bs)) next) (drop n bs))
                  (Added first (ring_of front last next) bs)
                  (λ after. Added-fill n next front last bs)
                  (add_slices fuel (ring_of front (filled last (take n bs)) next) (drop n bs))
                  (add_slices-Added fuel next front (filled last (take n bs)) (drop n bs) full
                    (omega (arith, size-filled n last bs))
                    (Numbered-extend first next front last (take n bs) num)
                    (ground (arith, size-filled n last bs, length-drop n bs, more, e))))
        ]
      ]
    where
      finished : length bs ≡ 0 → Added first (ring_of front last next) bs (ring_of front last next)
      finished e = record {
        same_size = refl;
        packed = used front last refl full room;
        numbered = num;
        content_is = sym (ap (◌++◌ (content (front ++ last ∷ []))) (no_bytes bs e) ∙ append-nil _);
      }

  push_used :
      (next : ℕ) (front : List Key) (last k : Key)
      → All (λ k. size k ≡ limit) front
      → size last ≤ limit
      → Numbered first (front ++ last ∷ []) next
      → Runs (push_back (ring_of front last next) k) (Added first (ring_of front last next) k.bytes)
  unfolding push_back cost
  push_used next front last k full room num =
      rw (positive limit some_room, has_key)
        (add_slices-Added (rounds k.bytes) next front last k.bytes full room num (ground arith))
    where
      has_key : (not (size k == 0) && length (front ++ last ∷ []) == 0) ≡ false
      has_key = ground (arith, length-append front (last ∷ []))

  push_nothing :
      (next : ℕ) (k : Key)
      → first ≡ next
      → length k.bytes ≡ 0
      → Runs
          (push_back (record { keys = []; id = next; key_size = limit }) k)
          (Added first (record { keys = []; id = next; key_size = limit }) k.bytes)
  unfolding push_back Numbered content size
  push_nothing next k num e =
      rw
        (
          push_back,
          positive limit some_room,
          e,
          step_done 2 (record { keys = []; id = next; key_size = limit }) k.bytes e (omega arith),
        )
        (record {
          same_size = refl;
          packed = unused refl;
          numbered = num;
          content_is = sym (no_bytes k.bytes e);
        })

  push_first :
      (next : ℕ) (k : Key)
      → first ≡ next
      → 0 < length k.bytes
      → Runs
          (push_back (record { keys = []; id = next; key_size = limit }) k)
          (Added first (record { keys = []; id = next; key_size = limit }) k.bytes)
  unfolding push_back Numbered content size push_empty cost
  push_first next k num h =
      rw (push_back, positive limit some_room, positive (length k.bytes) h)
        (Runs-map (Added first (ring_of [] (fresh_key next) (next_id next)) k.bytes)
          (Added first (record { keys = []; id = next; key_size = limit }) k.bytes)
          (λ after r. record {
            same_size = r.same_size;
            packed = r.packed;
            numbered = r.numbered;
            content_is = r.content_is;
          })
          (add_slices (rounds k.bytes) (ring_of [] (fresh_key next) (next_id next)) k.bytes)
          (add_slices-Added (rounds k.bytes) (next_id next) [] (fresh_key next) k.bytes tt
            (omega (arith, size-fresh_key next)) (sym num, ap next_id num)
            (ground (arith, size-fresh_key next))))

  push_unused :
      (next : ℕ) (k : Key)
      → Numbered first [] next
      → Runs
          (push_back (record { keys = []; id = next; key_size = limit }) k)
          (Added first (record { keys = []; id = next; key_size = limit }) k.bytes)
  unfolding Numbered
  push_unused next k num = elim (Bool-cases (length k.bytes == 0)) [
    | inl e ↦ push_nothing next k num (ground (arith, e))
    | inr e ↦ push_first next k num (ground (arith, e))
  ]

-- `push_back` of a key, into a ring of keys of a size that is not 0 and fits 64 bits, whose keys are
-- full but for the last and numbered from `first`, returns. The ring is then such a ring again, and
-- its bytes are those that it had, followed by those of the key.
pub push_back-Added :
    (first : ℕ) (r : KeyRing) (k : Key)
    → 0 < r.key_size
    → r.key_size < 2 ^ 64
    → Packed r.key_size r.keys
    → Numbered first r.keys r.id
    → Runs (push_back r k) (Added first r k.bytes)
push_back-Added first r k room fits (unused e) num =
    subst
      (λ ks.
        Runs (push_back (record r { keys = ks }) k) (Added first (record r { keys = ks }) k.bytes))
      (sym e) (push_unused first r.key_size room fits r.id k (rw e at num))
push_back-Added first r k room fits (used front last e full left) num =
    subst
      (λ ks.
        Runs (push_back (record r { keys = ks }) k) (Added first (record r { keys = ks }) k.bytes))
      (sym e) (push_used first r.key_size room fits r.id front last k full left (rw e at num))
