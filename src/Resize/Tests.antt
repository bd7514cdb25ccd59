-- ===== src/Resize/Tests.antt =====
-- The theorems on key resizing at a small module, and runs.
use ait_qkd.Prelude.{ℕ, ◌≡◌, refl, List, [], ◌∷◌, ◌++◌, some, none, true, Runs, arith}
use ait_qkd.Key.{Key}
use ait_qkd.Resize.{Resize, process, ready, set_exact_key_size}
use ait_qkd.Resize.Groups.{bytes_of}
use ait_qkd.Resize.Minimum.{IsCollecting, Collected, process-Collected}
use ait_qkd.Resize.Exact.{IsReady, Resized, process-Resized}

abbrev key_of : ℕ → List ℕ → Key
key_of id bytes = record { id = id; bytes = bytes }

abbrev fours : Resize
fours = record {
  work_received = key_of 3 (1 ∷ 2 ∷ []) ∷ [];
  current_size = 2;
  exact_key_size = 4;
  minimum_key_size = 0;
  key_id_counter = 7;
}

abbrev workload : List Key
workload = key_of 4 (3 ∷ 4 ∷ 5 ∷ 6 ∷ 7 ∷ []) ∷ key_of 5 (8 ∷ 9 ∷ 10 ∷ []) ∷ []

fours-IsReady : IsReady 4 fours
fours-IsReady = record { exact_is = refl; minimum_is = refl; counted = refl; small = omega arith }

process-Resized_example :
    Runs
      (process true workload fours)
      (Resized 4 7 (bytes_of fours.work_received ++ bytes_of workload))
process-Resized_example =
    process-Resized 4 workload fours (omega arith) fours-IsReady (omega arith, (omega arith, tt))

exact_run :
    process true workload fours
    ≡ some (
      ready (key_of 8 (1 ∷ 2 ∷ 3 ∷ 4 ∷ []) ∷ key_of 9 (5 ∷ 6 ∷ 7 ∷ 8 ∷ []) ∷ []),
      record fours {
        work_received = key_of 0 (9 ∷ 10 ∷ []) ∷ [];
        current_size = 2;
        key_id_counter = 9;
      },
    )
unfolding process
exact_run = refl

-- Two keys of three bytes are held when the exact size is lowered to two: the rest of the first key
-- is not counted where the second one is cut, and the pick throws.
abbrev lowered : Resize
unfolding set_exact_key_size
lowered = set_exact_key_size 2 (record fours {
  work_received = key_of 1 (1 ∷ 2 ∷ 3 ∷ []) ∷ key_of 2 (4 ∷ 5 ∷ 6 ∷ []) ∷ [];
  current_size = 6;
  exact_key_size = 10;
})

lowered_run : process true (key_of 3 (7 ∷ []) ∷ []) lowered ≡ none
unfolding process lowered
lowered_run = refl

abbrev fives : Resize
fives = record fours { exact_key_size = 0; minimum_key_size = 5 }

fives-IsCollecting : IsCollecting 5 fives
fives-IsCollecting = record {
  exact_is = refl;
  minimum_is = refl;
  counted = refl;
  small = omega arith;
}

process-Collected_example :
    Runs
      (process true workload fives)
      (Collected 5 7 (bytes_of fives.work_received ++ bytes_of workload))
process-Collected_example =
    process-Collected 5 workload fives (omega arith) fives-IsCollecting
      (omega arith, (omega arith, tt))
