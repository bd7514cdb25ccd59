-- ===== src/Cascade/Process.antt =====
-- `process` of bin/modules/qkd-cascade/qkd-cascade.cpp: the passes of the error correction of one key.
-- The sizes of the blocks of the first two passes come from the expected error rate by floating
-- point arithmetic and are arguments, `pick seed step` is the random source of a pass, and the side
-- of the module is `is_bob`. `none` also stands for the result `false`, which an exception gives.
use ait_qkd.Prelude.{
  ℕ, zero, suc, ◌+◌, ◌/◌, min, List, [], ◌∷◌, ◌++◌, Option, none, some, ◌>>=◌, Bool, true, false,
  not, ◌==◌, if◌then◌else◌, length,
}
use ait_qkd.Cascade.Permutation.{generate_identity_permutation, generate_random_permutation}
use ait_qkd.Cascade.Frame.{Checker, Frame, add_checker}
use ait_qkd.Cascade.Checker.{Category, Link, parity_checker}
use ait_qkd.Cascade.Correct.{own, correct_blocks}

-- `frame(cKey)`
abbrev pub frame : List Bool → Frame
frame key = record {
  key = key;
  checkers = [];
  correct_bits = [];
  corrected_bits = [];
  transmitted_messages = 0;
  transmitted_parities = 0;
}

-- The first checker with an odd block.
unfoldable pub first_odd : ℕ → List Checker → Option ℕ
first_odd i [] = none
first_odd i (c ∷ cs) = elim c.odd_parity_blocks [ [] ↦ first_odd (i + 1) cs | b ∷ bs ↦ some i ]

-- The corrections of a pass after the first one, on fuel.
unfoldable pub correct_all : ℕ → Frame → Link → Option (Frame × Link)
unfolding first_odd own correct_blocks
correct_all zero f l = none
correct_all (suc fuel) f l = elim (first_odd 0 f.checkers) [
  | none ↦ some (f, l)
  | some i ↦ do (f', l') ← correct_blocks i (own i f).odd_parity_blocks f l; correct_all fuel f' l'
]

-- What `process` leaves in the meta data of the key, the error rate by its numerator, and the key.
pub record Corrected : Type 0 where
  pub key : List Bool
  pub disclosed_bits : ℕ
  pub errors : ℕ
  pub link : Link

-- The first value of a message: reading one from an empty message is an exception.
unfoldable pub read_seed : List ℕ → Option ℕ
read_seed [] = none
read_seed (seed ∷ _) = some seed

-- The seed of the random source, which alice sends.
unfoldable pub exchange_seed : Bool → Link → Option (ℕ × Link)
unfolding read_seed
exchange_seed false l = some (1, record l { outbox = l.outbox ++ (1 ∷ []) ∷ [] })
exchange_seed true l = elim l.inbox [
  | [] ↦ none
  | m ∷ ms ↦ do seed ← read_seed m; some (seed, record l { inbox = ms })
]

module _ (is_bob : Bool) (k1 k2 : ℕ) (pick : ℕ → ℕ → ℕ → ℕ) (fuel : ℕ) where
  -- The block size of a pass.
  abbrev pub pass_k : ℕ → ℕ → ℕ
  pass_k bits step =
      if step == 1
      then k1
      else if step == 2
      then k2
      else if step == 3
      then min 4096 ((bits + 1) / 2)
      else (bits + 1) / 2

  abbrev pub pass_category : ℕ → ℕ → Category
  pass_category bits step = record {
    size = bits;
    k = pass_k bits step;
    diffparity_must_be_even = not (step == 1);
  }

  unfoldable pub pass_tables : ℕ → ℕ → ℕ → List ℕ × List ℕ
  unfolding generate_identity_permutation generate_random_permutation
  pass_tables bits seed step =
      if step == 1
      then generate_identity_permutation bits
      else generate_random_permutation (pick seed step) bits

  unfoldable pub pass : ℕ → ℕ → Frame → Link → Option (Frame × Link)
  unfolding pass_tables parity_checker add_checker own correct_blocks correct_all
  pass seed step f l =
      let (perm, inv_perm) = pass_tables (length f.key) seed step in
      let categories = pass_category (length f.key) step ∷ [] in
      (do
        (c, f1, l1) ← parity_checker is_bob perm inv_perm categories f l
        if step == 1
            then correct_blocks 0 (own 0 (add_checker c f1)).odd_parity_blocks (add_checker c f1) l1
            else correct_all fuel (add_checker c f1) l1)

  -- The passes from `step`, with `count` to go.
  unfoldable pub passes_from : ℕ → ℕ → ℕ → Frame → Link → Option (Frame × Link)
  unfolding pass
  passes_from seed zero step f l = some (f, l)
  passes_from seed (suc count) step f l = do
    (f', l') ← pass seed step f l
    passes_from seed count (step + 1) f' l'

  unfoldable pub process : ℕ → List Bool → Link → Option Corrected
  unfolding exchange_seed passes_from
  process passes key l = do
    (seed, l1) ← exchange_seed is_bob l
    (f, l2) ← passes_from seed passes 1 (frame key) l1
    some (record {
      key = f.key;
      disclosed_bits = f.transmitted_parities;
      errors = length f.corrected_bits;
      link = l2;
    })
