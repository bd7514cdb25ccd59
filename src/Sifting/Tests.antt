-- ===== src/Sifting/Tests.antt =====
-- The theorem on the sifting at a raw key of four events, and a run of both sides.
use ait_qkd.Prelude.{none, ℕ, ◌≡◌, refl, List, [], ◌∷◌, some, Bool, true, false}
use ait_qkd.Key.{Key, size}
use ait_qkd.Bigint.{resize}
use ait_qkd.Cascade.Meeting.{Meeting}
use ait_qkd.Sifting.{
  KeyIdCounter, Sifting, Outcome, process, process_alice, process_bob, set_rawkey_length,
}
use ait_qkd.Sifting.Agreement.{all_opposite}
use ait_qkd.Sifting.Keys.{InStep, Passed, process-Meeting}

-- Six bits are there, and a key needs eight.
abbrev six : List Bool
six = true ∷ false ∷ true ∷ true ∷ false ∷ false ∷ []

abbrev counter : KeyIdCounter
counter = record { count = 6; shift = 1; add = 1 }

abbrev state : List Bool → Sifting
state bits = record {
  rawkey_length = 1;
  key_id = 5;
  bits = bits;
  position = 6;
  counter = counter;
  running = true;
}

-- Of the events, the first and the third are measured in the same base.
abbrev alice_key : Key
alice_key = record { id = 9; bytes = 0x12 ∷ 0x48 ∷ [] }

abbrev bob_key : Key
bob_key = record { id = 9; bytes = 0x24 ∷ 0x80 ∷ [] }

abbrev tails : ℕ → Bool
tails i = false

start-InStep : InStep (state six) (state six)
start-InStep = record {
  same_length = refl;
  same_id = refl;
  same_counter = refl;
  same_position = refl;
  same_bits = λ j lt. refl;
}

process-Meeting_example :
    Meeting
      (λ l. process tails true alice_key (state six) l)
      (λ l. process tails false bob_key (state six) l)
      Passed
unfolding all_opposite
process-Meeting_example =
    process-Meeting tails tails alice_key bob_key (state six) (state six) start-InStep refl refl
      refl

abbrev passed_on : Outcome
passed_on = record {
  forward = true;
  key = record { id = 5; bytes = 205 ∷ [] };
  state = record {
    rawkey_length = 1;
    key_id = 15;
    bits = false ∷ [];
    position = 0;
    counter = record { count = 7; shift = 1; add = 1 };
    running = true;
  };
}

alice_run :
    process tails true alice_key (state six) (record { inbox = (0x68 ∷ []) ∷ []; outbox = [] })
    ≡ some (passed_on, record { inbox = []; outbox = (9 ∷ 2 ∷ 1 ∷ []) ∷ (0x48 ∷ []) ∷ [] })
unfolding process_alice resize size
alice_run = refl

bob_run :
    process tails false bob_key
      (state six)
      (record { inbox = (9 ∷ 2 ∷ 1 ∷ []) ∷ (0x48 ∷ []) ∷ []; outbox = [] })
    ≡ some (passed_on, record { inbox = []; outbox = (0x68 ∷ []) ∷ [] })
unfolding process_bob resize size
bob_run = refl

-- A first message with two values only.
bob_cut_off :
    process tails false bob_key (state six) (record { inbox = (9 ∷ 2 ∷ []) ∷ []; outbox = [] })
    ≡ none
unfolding process_bob size
bob_cut_off = refl

-- Bits that were sifted are lost where a shorter key is asked for: the 16 bits up to position 16 are
-- cut to 8, and those from there on are read as 0 from then on.
abbrev sixteen : List Bool
sixteen =
    true ∷ true ∷ true ∷ true ∷ true ∷ true ∷ true ∷ true ∷ true ∷ true ∷ true ∷ true ∷ true ∷ true
    ∷ true ∷ true ∷ []

abbrev shortened : Sifting
unfolding set_rawkey_length resize
shortened = set_rawkey_length 1 (record (state sixteen) { rawkey_length = 3; position = 16 })

shortened_bits : shortened.bits ≡ true ∷ true ∷ true ∷ true ∷ true ∷ true ∷ true ∷ true ∷ []
unfolding shortened
shortened_bits = refl

shortened_position : shortened.position ≡ 16
unfolding shortened
shortened_position = refl
