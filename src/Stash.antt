-- ===== src/Stash.antt =====
-- lib/module/stash.cpp and stash.h: the key synchronisation of a QKD module. Each side keeps the
-- keys that it received and the ids that its peer has; bob sends the list of his ids, alice picks a
-- key that both hold, and bob acknowledges it.
-- What the network does is an argument: the outcome of each `send` and `recv` of the module.
pub mod Exchange
pub mod Sync
pub mod Purge
mod Tests
use ait_qkd.Prelude.{
  ℕ, zero, suc, ◌+◌, List, [], ◌∷◌, ◌++◌, map, Option, none, some, Bool, true, false, ◌||◌, ltb,
  ◌==◌, if◌then◌else◌, length,
}
use ait_qkd.Key.{Key, null, is_null}
use ait_qkd.Buffer.{Buffer, empty, push_u32, push_u64, pop_u32, pop_u64}
use ait_qkd.Buffer

-- `message_type` and the parts of a message that key synchronisation reads.
pub data MessageType : Type 0 where
  type_data type_key_sync : MessageType

pub record Message : Type 0 where
  pub kind : MessageType
  pub body : Buffer

-- `sync_command`
abbrev pub sync_command_list : ℕ
sync_command_list = 0

abbrev pub sync_command_pick : ℕ
sync_command_pick = 1

abbrev pub sync_command_nopick : ℕ
sync_command_nopick = 2

abbrev pub sync_command_pick_ack : ℕ
sync_command_pick_ack = 3

abbrev pub sync_command_pick_nack : ℕ
sync_command_pick_nack = 4

-- `stashed_key`: a key and the time at which it was stashed.
pub record Stashed : Type 0 where
  pub key : Key
  pub stashed : ℕ

pub record Stash : Type 0 where
  pub stash : List Stashed
  pub peer_stash : List ℕ
  pub ttl : ℕ

-- The exceptions that leave a call.
pub data Thrown : Type 0 where
  network_error protocol_error out_of_range : Thrown

pub data Result {ℓ} (A : Type ℓ) : Type ℓ where
  ok : A → Result A
  throws : Thrown → Result A

-- `send` of the module: it returns true or false, or throws a `std::runtime_error`.
pub data Sent : Type 0 where
  delivered refused failed : Sent

-- `recv` of the module: what `cMessage` is after it, which is a data message if none of the kind
-- wanted came, or the exception thrown.
pub data Received : Type 0 where
  arrived : Message → Received
  broken : Thrown → Received

unfoldable pub elem : ℕ → List ℕ → Bool
elem id [] = false
elem id (j ∷ js) = j == id || elem id js

-- `std::find_first_of`
unfoldable pub choose_from : List ℕ → List Stashed → Key
choose_from peer [] = null
choose_from peer (k ∷ ks) = if elem k.key.id peer then k.key else choose_from peer ks

unfoldable pub choose : Stash → Key
choose s = choose_from s.peer_stash s.stash

-- `std::find_if` by the id of the key.
unfoldable pub find_key : ℕ → List Stashed → Option Key
find_key id [] = none
find_key id (k ∷ ks) = if k.key.id == id then some k.key else find_key id ks

-- The first key with the id, erased.
unfoldable pub erase_key : ℕ → List Stashed → List Stashed
erase_key id [] = []
erase_key id (k ∷ ks) = if k.key.id == id then ks else k ∷ erase_key id ks

unfoldable pub erase_id : ℕ → List ℕ → List ℕ
erase_id id [] = []
erase_id id (j ∷ js) = if j == id then js else j ∷ erase_id id js

unfoldable pub remove : ℕ → Stash → Stash
remove id s = record s { stash = erase_key id s.stash; peer_stash = erase_id id s.peer_stash }

unfoldable pub push : ℕ → Key → Stash → Stash
unfolding is_null
push now k s =
    if is_null k then s else record s { stash = s.stash ++ record { key = k; stashed = now } ∷ [] }

-- `purge`: the clock is read anew for each key, and `age i` is the age in seconds that the key of step
-- `i` has by the time at which it was stashed.
expired_ids : (ℕ → ℕ → ℕ) → ℕ → ℕ → List Stashed → List ℕ
expired_ids age ttl i [] = []
expired_ids age ttl i (k ∷ ks) =
    let rest = expired_ids age ttl (i + 1) ks in
    if ltb ttl (age i k.stashed) then k.key.id ∷ rest else rest

erase_all : List ℕ → List Stashed → List Stashed
erase_all [] ks = ks
erase_all (id ∷ ids) ks = erase_all ids (erase_key id ks)

unfoldable pub purge : (ℕ → ℕ → ℕ) → Stash → Stash
unfolding expired_ids erase_all
purge age s = record s { stash = erase_all (expired_ids age s.ttl 0 s.stash) s.stash }

-- A synchronisation message with a command.
abbrev pub sync_message : ℕ → Buffer
sync_message command = push_u32 empty command

push_ids : Buffer → List Stashed → Buffer
push_ids b [] = b
push_ids b (k ∷ ks) = push_ids (push_u32 b k.key.id) ks

-- The message of `send`.
unfoldable pub list_message : Stash → Message
unfolding push_ids
list_message s = record {
  kind = type_key_sync;
  body = push_ids (push_u64 (sync_message sync_command_list) (length s.stash)) s.stash;
}

-- What `recv` of the module hands over: the message, read from its start.
unfoldable pub deliver : Message → Message
deliver m = record m { body = Buffer.reset m.body }

-- The loop of `recv` over the ids of the peer.
recv_ids : ℕ → Buffer → List ℕ → Result (Unit {0}) × List ℕ
recv_ids zero b peer = (ok tt, peer)
recv_ids (suc n) b peer = elim (pop_u32 b) [
  | none ↦ (throws out_of_range, peer)
  | some (id, b') ↦ recv_ids n b' (peer ++ id ∷ [])
]

recv_list : Stash → Option (ℕ × Buffer) → Result (Unit {0}) × Stash
unfolding recv_ids
recv_list s none = (throws out_of_range, record s { peer_stash = [] })
recv_list s (some (n, b)) = let (r, peer) = recv_ids n b [] in (r, record s { peer_stash = peer })

recv_command : Stash → Option (ℕ × Buffer) → Result (Unit {0}) × Stash
unfolding recv_list
recv_command s none = (throws out_of_range, record s { peer_stash = [] })
recv_command s (some (command, b)) =
    if command == sync_command_list
    then recv_list s (pop_u64 b)
    else (throws protocol_error, record s { peer_stash = [] })

unfoldable pub recv : Stash → Message → Result (Unit {0}) × Stash
unfolding recv_command
recv s m = elim m.kind [
  | type_data ↦ (throws protocol_error, s)
  | type_key_sync ↦ recv_command s (pop_u32 m.body)
]
