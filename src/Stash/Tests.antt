-- ===== src/Stash/Tests.antt =====
-- The theorems on the stash at two modules that share the keys 5 and 7, and runs of the messages.
use ait_qkd.Prelude.{ℕ, ◌+◌, inl, inr, ◌-◌, ◌≡◌, refl, [], ◌∷◌, ◌++◌, some, false, arith, drop}
use ait_qkd.Key.{is_null}
use ait_qkd.Buffer.{Buffer, pop, pop-next, to_be}
use ait_qkd.Stash.{
  Stashed, Stash, choose, find_key, recv, deliver, list_message, purge, ok, elem, choose_from,
  expired_ids, erase_all, erase_key,
}
use ait_qkd.Stash.Sync.{Ids32, ids, recv-list_message}
use ait_qkd.Stash.Purge.{Chronological, IsDistinct, fresh, purge-fresh}

abbrev stashed_at : ℕ → ℕ → Stashed
stashed_at id time = record { key = record { id = id; bytes = id ∷ [] }; stashed = time }

abbrev alice : Stash
alice = record {
  stash = stashed_at 4 0 ∷ stashed_at 5 1 ∷ stashed_at 7 2 ∷ [];
  peer_stash = [];
  ttl = 10;
}

abbrev bob : Stash
bob = record { stash = stashed_at 7 0 ∷ stashed_at 5 1 ∷ []; peer_stash = []; ttl = 10 }

abbrev synced : Stash
synced = record alice { peer_stash = 7 ∷ 5 ∷ [] }

bob-Ids32 : Ids32 bob.stash
bob-Ids32 = (omega arith, (omega arith, tt))

chosen_key : is_null (choose synced) ≡ false
unfolding choose choose_from elem is_null
chosen_key = refl

bob_has : find_key (choose synced).id bob.stash ≡ some (record { id = 5; bytes = 5 ∷ [] })
unfolding choose choose_from elem find_key
bob_has = refl

recv-list_message_example :
    recv alice (deliver (list_message bob)) ≡ (ok tt, record alice { peer_stash = ids bob.stash })
recv-list_message_example = recv-list_message alice bob bob-Ids32 (omega arith)

-- The age when the pass begins at the time 10 and the clock moves on by one with each key.
abbrev age : ℕ → ℕ → ℕ
age i time = 10 + i - time

alice-IsDistinct : IsDistinct alice.stash
alice-IsDistinct = (
  ((λ e. omega (arith, e)), ((λ e. omega (arith, e)), tt)),
  (((λ e. omega (arith, e)), tt), (tt, tt)),
)

purge-fresh_example : purge age alice ≡ record alice { stash = fresh age alice.ttl 0 alice.stash }
purge-fresh_example = purge-fresh age alice (inr alice-IsDistinct)

-- The same at the time 11 for all keys.
abbrev age_at_once : ℕ → ℕ → ℕ
age_at_once i time = 11 - time

alice-Chronological : Chronological alice.stash
alice-Chronological = ((omega arith, (omega arith, tt)), ((omega arith, tt), (tt, tt)))

purge_in_order :
    purge age_at_once alice ≡ record alice { stash = fresh age_at_once alice.ttl 0 alice.stash }
purge_in_order =
    purge-fresh age_at_once alice (inl ((λ i j a b le h. omega (arith, h)), alice-Chronological))

-- The key 4 is too old by then, and when the clock moves on none is.
purge_one : (purge age_at_once alice).stash ≡ stashed_at 5 1 ∷ stashed_at 7 2 ∷ []
unfolding purge expired_ids erase_all erase_key
purge_one = refl

purge_none : (purge age alice).stash ≡ alice.stash
unfolding purge expired_ids erase_all erase_key
purge_none = refl

abbrev two_numbers : Buffer
two_numbers = record { bytes = 9 ∷ (to_be 4 1000 ++ to_be 4 5); position = 1 }

pop-next_example :
    (pop 4 two_numbers ≡ some (1000, record two_numbers { position = 5 }))
    × (drop 5 two_numbers.bytes ≡ to_be 4 5)
unfolding to_be
pop-next_example = pop-next 4 1000 two_numbers (to_be 4 5) (omega arith) (omega arith) refl
