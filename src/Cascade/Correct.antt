-- ===== src/Cascade/Correct.antt =====
-- `correct_blocks` of bin/modules/qkd-cascade/parity-checker.cpp: the search for an error in each odd
-- block, by halving. `i` is the place of this checker among those of the frame.
-- An iterator to a block is the block: its offset and size are all that is read through it.
use ait_qkd.Prelude.{
  ℕ, zero, suc, ◌+◌, ◌-◌, ◌/◌, List, [], ◌∷◌, Option, none, some, ◌>>=◌, true, false, not, ltb,
  ◌==◌, if◌then◌else◌, length, get_or, set,
}
use ait_qkd.Cascade.Frame.{
  ◌xor◌, u32, ParityBlock, Checker, Frame, insert_block, erase_block, find_block, insert_odd,
  erase_odd, flip_bit, notify_bit_change_remote, notify_correct_bit,
}
use ait_qkd.Cascade.Checker.{
  Link, count_correct_bits_in_block, calculate_block_diffparities, announce,
}

abbrev no_checker : Checker
no_checker = record {
  is_bob = false;
  perm = [];
  inv_perm = [];
  partial_parity_sums = [];
  changed_bits = [];
  correct_bits = [];
  parity_blocks = [];
  odd_parity_blocks = [];
}

-- The two halves of a block. The first one is the larger.
unfoldable pub first_half : ParityBlock → ParityBlock
first_half b = record b { size = u32 (b.size + 1) / 2; diffparity = false }

unfoldable pub second_half : ParityBlock → ParityBlock
unfolding first_half
second_half b = record {
  offset = u32 (b.offset + (first_half b).size);
  size = b.size - (first_half b).size;
  diffparity = false;
}

-- The blocks to correct, as this checker knows them: `none` if one is unknown or even.
unfoldable pub look_up : Checker → List ParityBlock → Option (List ParityBlock)
unfolding find_block
look_up c [] = some []
look_up c (b ∷ bs) = do
  k ← find_block b.offset c.parity_blocks
  ks ← look_up c bs
  if k.diffparity then some (k ∷ ks) else none

-- The blocks that are left to correct, the half of each to compare, and the frame.
pub record Halves : Type 0 where
  pub left : List ParityBlock
  pub calc : List ParityBlock
  pub frame : Frame

module _ (i : ℕ) where
  unfoldable pub own : Frame → Checker
  own f = get_or f.checkers i no_checker

  -- A block of one bit is an error: bob turns the bit, alice notes it, and both know it from now on.
  unfoldable pub correct_single : ParityBlock → Frame → Option Frame
  unfolding own flip_bit notify_bit_change_remote notify_correct_bit
  correct_single b f = do
    let pos = get_or (own f).inv_perm b.offset 0
    f' ← if (own f).is_bob then flip_bit pos f else notify_bit_change_remote pos f
    some (notify_correct_bit pos f')

  -- The half to compare: the second one if its parity is known, and then nothing is sent for it.
  unfoldable pub half_to_compare : Frame → ParityBlock → ParityBlock
  unfolding own first_half second_half count_correct_bits_in_block
  half_to_compare f b =
      let h = second_half b in
      if count_correct_bits_in_block (own f) (length f.key) h.offset h.size == h.size
      then h
      else first_half b

  -- The first loop of a round.
  unfoldable pub halve : List ParityBlock → Frame → Option Halves
  unfolding correct_single half_to_compare
  halve [] f = some (record { left = []; calc = []; frame = f })
  halve (b ∷ bs) f = elim (ltb 1 b.size) [
    | true ↦ do
      r ← halve bs f
      some (record { left = b ∷ r.left; calc = half_to_compare f b ∷ r.calc; frame = r.frame })
    | false ↦ do f' ← correct_single b f; halve bs f'
  ]

  -- What a comparison of one half says of both.
  unfoldable pub judge_first : ParityBlock → ParityBlock → ParityBlock
  unfolding first_half second_half
  judge_first b calc = record (first_half b) {
    diffparity = (calc.offset == (second_half b).offset) xor calc.diffparity;
  }

  unfoldable pub judge_second : ParityBlock → ParityBlock → ParityBlock
  unfolding second_half judge_first
  judge_second b calc = record (second_half b) { diffparity = not (judge_first b calc).diffparity }

  unfoldable pub odd_half : ParityBlock → ParityBlock → ParityBlock
  unfolding judge_first judge_second
  odd_half b calc =
      if (judge_first b calc).diffparity then judge_first b calc else judge_second b calc

  -- The block is replaced by its halves in the sets of this checker.
  unfoldable pub replace : ParityBlock → ParityBlock → Frame → Frame
  unfolding own judge_first judge_second odd_half insert_block erase_block insert_odd erase_odd
  replace b calc f =
      let c = own f in
      record f {
        checkers = set f.checkers i (record c {
          odd_parity_blocks = insert_odd (odd_half b calc) (erase_odd b c.odd_parity_blocks);
          parity_blocks =
              insert_block (judge_first b calc)
                (insert_block (judge_second b calc) (erase_block b.offset c.parity_blocks));
        });
      }

  -- The last loop of a round.
  unfoldable pub descend : List ParityBlock → List ParityBlock → Frame → List ParityBlock × Frame
  unfolding own announce judge_first judge_second odd_half replace
  descend (b ∷ bs) (k ∷ ks) f =
      let f1 = announce own (judge_first b k) f in
      let f2 = announce own (judge_second b k) f1 in
      let (rest, f') = descend bs ks (replace b k f2) in (odd_half b k ∷ rest, f')
  descend _ _ f = ([], f)

  -- The rounds, on fuel: `late` is the result when the fuel runs out.
  unfoldable pub search_rounds_or :
      Option (Frame × Link) → ℕ → List ParityBlock → Frame → Link → Option (Frame × Link)
  unfolding halve calculate_block_diffparities descend
  search_rounds_or late zero bs f l = late
  search_rounds_or late (suc fuel) [] f l = some (f, l)
  search_rounds_or late (suc fuel) (b ∷ bs) f l = do
    h ← halve (b ∷ bs) f
    r ← calculate_block_diffparities own h.calc false h.frame l
    let (next, f') = descend h.left r.blocks r.frame
    search_rounds_or late fuel next f' r.link

  abbrev pub search_rounds : ℕ → List ParityBlock → Frame → Link → Option (Frame × Link)
  search_rounds = search_rounds_or none

  -- 33 rounds bring a block of at most 2 ^ 32 bits down to one bit and correct it.
  unfoldable pub correct_blocks : List ParityBlock → Frame → Link → Option (Frame × Link)
  unfolding own look_up search_rounds_or
  correct_blocks blocks f l = elim (look_up (own f) blocks) [
    | none ↦ some (f, l)
    | some bs ↦ search_rounds 34 bs f l
  ]
