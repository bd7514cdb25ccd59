-- ===== src/ErrorEstimation/Tests.antt =====
-- The theorem on the error estimation at keys of one byte that differ at the positions 1 and 4, of
-- which the first one is disclosed, as are 2 and 7, and a run of both sides.
use ait_qkd.Prelude.{ℕ, ◌≡◌, refl, List, [], ◌∷◌, none, some, Bool, true, false, ◌||◌, ◌==◌, arith}
use ait_qkd.Key.{Key}
use ait_qkd.Cascade.Meeting.{Meeting}
use ait_qkd.ErrorEstimation.{Estimate, process_alice, process_bob}
use ait_qkd.ErrorEstimation.Sides.{process_alice_undefined}

abbrev alice_key : Key
alice_key = record { id = 3; bytes = 0xB5 ∷ [] }

abbrev bob_key : Key
bob_key = record { id = 3; bytes = 0xA7 ∷ [] }

abbrev one_two_last : ℕ → Bool
one_two_last i = i == 1 || (i == 2 || i == 7)

abbrev estimated : ℕ → Estimate
estimated byte = record {
  result = true;
  key = record { id = 3; bytes = byte ∷ [] };
  errors = 1;
  disclosed = 3;
  running = true;
}

abbrev message : List ℕ
message = 3 ∷ 8 ∷ 3 ∷ 1 ∷ 2 ∷ 7 ∷ 132 ∷ []

alice_run :
    process_alice one_two_last alice_key (record { inbox = (134 ∷ []) ∷ []; outbox = [] })
    ≡ some (estimated 13, record { inbox = []; outbox = message ∷ [] })
unfolding process_alice
alice_run = refl

bob_run :
    process_bob bob_key (record { inbox = message ∷ []; outbox = [] })
    ≡ some (estimated 9, record { inbox = []; outbox = (134 ∷ []) ∷ [] })
unfolding process_bob
bob_run = refl

-- With the positions 1 and 2 only, the loop goes past the last position.
abbrev one_and_two : ℕ → Bool
one_and_two i = i == 1 || i == 2

process_alice_undefined_example :
    process_alice one_and_two alice_key (record { inbox = (6 ∷ []) ∷ []; outbox = [] }) ≡ none
process_alice_undefined_example =
    process_alice_undefined one_and_two alice_key (6 ∷ []) [] [] (omega arith) refl

-- A message of alice that is too short.
cut_off : process_bob bob_key (record { inbox = (3 ∷ 8 ∷ 3 ∷ 1 ∷ []) ∷ []; outbox = [] }) ≡ none
unfolding process_bob
cut_off = refl

-- With a message for another key, bob terminates, and still returns true with a new key.
bob_goes_on :
    process_bob (record bob_key { id = 4 }) (record { inbox = message ∷ []; outbox = [] })
    ≡ some (
      record {
        result = true;
        key = record { id = 4; bytes = 9 ∷ [] };
        errors = 1;
        disclosed = 3;
        running = false;
      },
      record { inbox = []; outbox = (134 ∷ []) ∷ [] },
    )
unfolding process_bob
bob_goes_on = refl
