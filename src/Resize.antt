-- ===== src/Resize.antt =====
-- bin/modules/qkd-resize/qkd-resize.cpp: keys are collected and cut into keys of an exact size, or
-- joined as soon as they have a minimum size.
-- A work is its key: the meta data and the crypto contexts of the works are left out. A workload
-- has at least one work. `none` stands for the exceptions of the checks at the end of a pick.
use ait_qkd.Prelude.{
  ℕ, zero, suc, ◌+◌, ◌-◌, ◌%◌, ◌^◌, List, [], ◌∷◌, ◌++◌, Option, none, some, ◌>>=◌, Bool, true,
  false, not, ◌&&◌, ltb, leb, ◌==◌, if◌then◌else◌, length, take, drop,
}
use ait_qkd.Key.{Key, size, null, is_null}
pub mod Groups
pub mod Joining
pub mod Exact
pub mod Minimum
mod Tests

-- `qkd_resize_data`
pub record Resize : Type 0 where
  pub work_received : List Key
  pub current_size : ℕ
  pub exact_key_size : ℕ
  pub minimum_key_size : ℕ
  pub key_id_counter : ℕ

-- The arithmetic of `uint64_t`, and of a `key_id`.
abbrev pub plus : ℕ → ℕ → ℕ
plus a b = (a + b) % 2 ^ 64

abbrev pub minus : ℕ → ℕ → ℕ
minus a b = (a + 2 ^ 64 - b) % 2 ^ 64

abbrev pub next_id : ℕ → ℕ
next_id id = (id + 1) % 2 ^ 32

-- The while loop of the first run: a key is cut where the exact size is reached. Each round takes
-- off some bytes, and the rest of the key is the last of the pieces.
unfoldable pub cut : ℕ → ℕ → ℕ → Key → List Key
unfolding size
cut zero exact current k = k ∷ []
cut (suc fuel) exact current k =
    let n = exact - current in
    let rest = cut fuel exact 0 (record { id = 0; bytes = drop n k.bytes }) in
    if ltb (plus current (size k)) exact
    then k ∷ []
    else record { id = 0; bytes = take n k.bytes } ∷ rest

-- The first run.
unfoldable pub cut_all : ℕ → ℕ → List Key → List Key
unfolding size cut
cut_all exact current [] = []
cut_all exact current (k ∷ ks) =
    let smaller = cut_all exact (plus current (size k)) ks in
    let cut_now = cut (suc (size k)) exact current k in
    let next = cut_all exact 0 ks in
    if ltb (plus current (size k)) exact then k ∷ smaller else cut_now ++ next

-- The key to forward, with the bytes of another one added.
unfoldable pub join : Key → Key → Key
unfolding is_null
join w k = if is_null w then k else record w { bytes = w.bytes ++ k.bytes }

-- What the second run leaves: the keys to forward, the works that are not deleted, and the counters.
pub record Joined : Type 0 where
  pub forwarded : List Key
  pub left : List Key
  pub current_size : ℕ
  pub key_id_counter : ℕ

-- The second run with `w` for the key to forward, and `since` for the works since the last one.
unfoldable pub join_all : ℕ → Key → List Key → ℕ → ℕ → List Key → Joined
unfolding join size
join_all exact w since current id [] = record {
  forwarded = [];
  left = since;
  current_size = current;
  key_id_counter = id;
}
join_all exact w since current id (k ∷ ks) =
    let whole = join w k in
    let done = join_all exact null [] (minus current exact) (next_id id) ks in
    let more = join_all exact whole (since ++ k ∷ []) current id ks in
    if size whole == exact
    then record done { forwarded = record whole { id = next_id id } ∷ done.forwarded }
    else more

-- `pick_exact_keys`, which adds to the keys that are forwarded already.
unfoldable pub pick_exact_keys : List Key → Resize → Option (List Key × Resize)
unfolding cut_all join_all
pick_exact_keys forwarded s =
    let exact = s.exact_key_size in
    let j =
      join_all exact null [] s.current_size s.key_id_counter (cut_all exact 0 s.work_received) in
    let after = forwarded ++ j.forwarded in
    if exact == 0
    then some (forwarded, s)
    else if ltb s.current_size exact
    then some (forwarded, s)
    else if length after == 0
    then none
    else if leb exact j.current_size
    then none
    else some (
      after,
      record s {
        work_received = j.left;
        current_size = j.current_size;
        key_id_counter = j.key_id_counter;
      },
    )

-- The loop of `pick_minimum_key`: the key that is joined, and the size that is left.
unfoldable pub join_min : Key → ℕ → List Key → Key × ℕ
unfolding join size
join_min w current [] = (w, current)
join_min w current (k ∷ ks) = join_min (join w k) (minus current (size k)) ks

unfoldable pub pick_minimum_key : List Key → Resize → Option (List Key × Resize)
unfolding join_min is_null
pick_minimum_key forwarded s =
    let (w, current) = join_min null s.current_size s.work_received in
    let id = next_id s.key_id_counter in
    if s.minimum_key_size == 0
    then some (forwarded, s)
    else if ltb s.current_size s.minimum_key_size
    then some (forwarded, s)
    else if is_null w
    then none
    else if not (current == 0)
    then none
    else some (
      forwarded ++ record w { id = id } ∷ [],
      record s { work_received = []; current_size = current; key_id_counter = id },
    )

-- The loop of `process` over the incoming works.
unfoldable pub merge : List Key → List Key → Resize → Option (List Key × Resize)
unfolding size pick_exact_keys pick_minimum_key
merge [] forwarded s = some (forwarded, s)
merge (k ∷ ks) forwarded s = do
  (f, t) ← pick_exact_keys forwarded (record s {
    work_received = s.work_received ++ k ∷ [];
    current_size = plus s.current_size (size k);
  })
  (f', t') ← pick_minimum_key f t
  merge ks f' t'

-- What becomes of the workload: one empty work, the workload as it came with its first key forwarded
-- unless it is disclosed, or the keys that are ready.
pub data Processed : Type 0 where
  dropped : Processed
  as_is : Processed
  ready : List Key → Processed

unfoldable pub process : Bool → List Key → Resize → Option (Processed × Resize)
unfolding merge
process is_synchronizing workload s =
    if not is_synchronizing
    then some (dropped, s)
    else if s.exact_key_size == 0 && s.minimum_key_size == 0
    then some (as_is, s)
    else if ltb 0 s.exact_key_size && ltb 0 s.minimum_key_size
    then some (as_is, s)
    else (do (forwarded, t) ← merge workload [] s; some (ready forwarded, t))

unfoldable pub set_exact_key_size : ℕ → Resize → Resize
set_exact_key_size n s = record s { exact_key_size = n; minimum_key_size = 0 }

unfoldable pub set_minimum_key_size : ℕ → Resize → Resize
set_minimum_key_size n s = record s { exact_key_size = 0; minimum_key_size = n }
