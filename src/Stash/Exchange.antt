-- ===== src/Stash/Exchange.antt =====
-- `pick_alice` and `pick_bob` of lib/module/stash.cpp: the two sides of the choice of a key.
pub mod Agreement
pub mod Synchronised
use ait_qkd.Prelude.{ℕ, Option, none, some, [], ◌==◌, if◌then◌else◌}
use ait_qkd.Key.{Key, null, is_null}
use ait_qkd.Buffer.{Buffer, written, push_u32, pop_u32}
use ait_qkd.Stash.{
  type_data, type_key_sync, Message, sync_command_pick, sync_command_nopick, sync_command_pick_ack,
  sync_command_pick_nack, Stash, Result, ok, throws, network_error, protocol_error, out_of_range,
  Sent, delivered, failed, Received, arrived, broken, choose, find_key, remove, sync_message,
  deliver,
}

-- The first message of `pick_alice`.
unfoldable pub offer : Key → Message
unfolding is_null
offer k = record {
  kind = type_key_sync;
  body =
      if is_null k
      then sync_message sync_command_nopick
      else push_u32 (sync_message sync_command_pick) k.id;
}

alice_command : Stash → Key → Option (ℕ × Buffer) → Result Key × Stash
alice_command s k none = (throws out_of_range, s)
alice_command s k (some (command, b)) =
    if command == sync_command_pick_ack
    then (ok k, remove k.id s)
    else if command == sync_command_pick_nack
    then (ok null, s)
    else (throws protocol_error, s)

alice_answer : Stash → Key → Received → Result Key × Stash
unfolding alice_command
alice_answer s k (broken network_error) = (ok null, s)
alice_answer s k (broken e) = (throws e, s)
alice_answer s k (arrived m) = elim m.kind [
  | type_data ↦ (throws protocol_error, s)
  | type_key_sync ↦ alice_command s k (pop_u32 m.body)
]

-- `pick_alice`: the outcome of the `send` of the offer, and of the `recv` of the answer.
unfoldable pub pick_alice : Stash → Sent → Received → Result Key × Stash
unfolding alice_answer is_null
pick_alice s failed answer = (ok null, s)
pick_alice s _ answer = let k = choose s in if is_null k then (ok k, s) else alice_answer s k answer

-- What `pick_bob` returns, the stash after it, and the message that it sent.
pub record BobPick : Type 0 where
  pub result : Result Key
  pub after : Stash
  pub answer : Option Message

bob_stops : Stash → Result Key → BobPick
bob_stops s r = record { result = r; after = s; answer = none }

abbrev pub acknowledge : Option Key → Message
acknowledge found = record {
  kind = type_key_sync;
  body =
      sync_message (elim found [ some _ ↦ sync_command_pick_ack | none ↦ sync_command_pick_nack ]);
}

bob_answers : Stash → ℕ → Option Key → Sent → BobPick
unfolding bob_stops
bob_answers s id found failed = bob_stops s (ok null)
bob_answers s id none _ = record { result = ok null; after = s; answer = some (acknowledge none) }
bob_answers s id (some k) _ = record {
  result = ok k;
  after = remove id s;
  answer = some (acknowledge (some k));
}

bob_id : Stash → Option (ℕ × Buffer) → Sent → BobPick
unfolding bob_stops bob_answers
bob_id s none sent = bob_stops s (throws out_of_range)
bob_id s (some (id, b)) sent = bob_answers s id (find_key id s.stash) sent

bob_command : Stash → Option (ℕ × Buffer) → Sent → BobPick
unfolding bob_stops bob_id
bob_command s none sent = bob_stops s (throws out_of_range)
bob_command s (some (command, b)) sent =
    if command == sync_command_pick
    then bob_id s (pop_u32 b) sent
    else if command == sync_command_nopick
    then bob_stops s (ok null)
    else bob_stops s (throws protocol_error)

-- `pick_bob`: a `std::runtime_error` of `recv` is caught, an `std::out_of_range` is not one.
unfoldable pub pick_bob : Stash → Received → Sent → BobPick
unfolding bob_stops bob_command
pick_bob s (broken out_of_range) sent = bob_stops s (throws out_of_range)
pick_bob s (broken e) sent = bob_stops s (ok null)
pick_bob s (arrived m) sent = elim m.kind [
  | type_data ↦ bob_stops s (throws protocol_error)
  | type_key_sync ↦ bob_command s (pop_u32 m.body) sent
]

-- What alice receives over a network that loses nothing. For a message that bob does not send she
-- waits until the wait is interrupted: `recv` returns false, and `cMessage` is as it was made.
abbrev pub answered : Option Message → Received
answered none = arrived (record { kind = type_data; body = written [] })
answered (some m) = arrived (deliver m)

-- Alice's choice with bob's part in between, over a network that loses nothing.
unfoldable pub bob_of : Stash → Stash → BobPick
bob_of alice bob = pick_bob bob (arrived (deliver (offer (choose alice)))) delivered

unfoldable pub alice_of : Stash → Stash → Result Key × Stash
unfolding bob_of
alice_of alice bob = pick_alice alice delivered (answered (bob_of alice bob).answer)
