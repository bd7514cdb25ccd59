-- ===== src/KeyRing.antt =====
-- lib/key/key_ring.cpp and include/qkd/key/key_ring.h: a ring of keys of one size, into which the
-- bytes of any keys are packed.
pub mod Packing
pub mod Listing
mod Tests
use ait_qkd.Prelude.{
  ℕ, zero, suc, ◌+◌, ◌-◌, ◌*◌, ◌%◌, ◌^◌, List, [], ◌∷◌, ◌++◌, Option, none, some, ◌>>=◌, ◌==◌, ◌&&◌,
  not, true, false, if◌then◌else◌, length, take, drop, min,
}
use ait_qkd.Key.{Key, size}

-- The vector of the keys, `m_nId` and `m_nKeySize`.
pub record KeyRing : Type 0 where
  pub keys : List Key
  pub id : ℕ
  pub key_size : ℕ

-- The constructor: an empty ring.
unfoldable pub key_ring : ℕ → ℕ → KeyRing
key_ring key_size id = record { keys = []; id = id; key_size = key_size }

abbrev pub next_id : ℕ → ℕ
next_id id = (id + 1) % 2 ^ 32

-- A difference of two `uint64_t`.
unfoldable pub sub_u64 : ℕ → ℕ → ℕ
sub_u64 a b = (a + 2 ^ 64 - b) % 2 ^ 64

-- A new, empty key at the end.
unfoldable pub push_empty : KeyRing → KeyRing
push_empty r = record r {
  keys = r.keys ++ record { id = r.id; bytes = [] } ∷ [];
  id = next_id r.id;
}

-- `back()` of the vector; `none` for an empty one.
unfoldable pub back : List Key → Option Key
back [] = none
back (k ∷ ks) = elim ks [ [] ↦ some k | _ ∷ _ ↦ back ks ]

-- The bytes are added to the last key.
unfoldable pub extend_back : List ℕ → List Key → List Key
extend_back bs [] = []
extend_back bs (k ∷ ks) = elim ks [
  | [] ↦ record k { bytes = k.bytes ++ bs } ∷ []
  | _ ∷ _ ↦ k ∷ extend_back bs ks
]

-- The loop of `push_back`, on fuel, with the bytes that are left of the new key.
unfoldable pub add_slices : ℕ → KeyRing → List ℕ → Option KeyRing
unfolding back push_empty extend_back size sub_u64
add_slices zero r bs = none
add_slices (suc fuel) r bs = elim (length bs == 0) [
  | true ↦ some r
  | false ↦ elim (back r.keys) [
    | none ↦ none
    | some last ↦
        let n = min (sub_u64 r.key_size (size last)) (length bs) in
        elim (n == 0) [
          | true ↦ add_slices fuel (push_empty r) bs
          | false ↦ add_slices fuel (record r { keys = extend_back (take n bs) r.keys }) (drop n bs)
        ]
  ]
]

-- Each round fills a byte or starts a key, and no two rounds in a row start one.
abbrev pub rounds : List ℕ → ℕ
rounds bs = 2 * length bs + 2

unfoldable pub push_back : KeyRing → Key → Option KeyRing
unfolding add_slices push_empty size
push_back r k =
    if r.key_size == 0
    then some r
    else add_slices (rounds k.bytes)
        (if not (size k == 0) && length r.keys == 0 then push_empty r else r) k.bytes
