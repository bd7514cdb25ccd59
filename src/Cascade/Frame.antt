-- ===== src/Cascade/Frame.antt =====
-- bin/modules/qkd-cascade/frame.cpp and the notifications of parity-checker.cpp: the key as its bits,
-- and the parity checkers that are told of its changes.
-- A `std::set<uint64_t>` is a list without repetition, a set of blocks a list in its order. `none`
-- stands for undefined behaviour and, in the modules that talk to the peer, for an exception.
use ait_qkd.Prelude.{
  ℕ, ◌+◌, ◌%◌, ◌^◌, List, [], ◌∷◌, ◌++◌, Option, none, some, ◌>>=◌, Bool, true, false, not, ◌&&◌,
  ◌||◌, ltb, leb, ◌==◌, if◌then◌else◌, length, get_or, set, map,
}

infixl 30 ◌xor◌
abbrev pub ◌xor◌ : Bool → Bool → Bool
true xor b = not b
false xor b = b

-- `parity_block`: a run of positions of the permuted key, and whether the two sides' parities of it
-- differ.
pub record ParityBlock : Type 0 where
  pub offset : ℕ
  pub size : ℕ
  pub diffparity : Bool

pub record Checker : Type 0 where
  pub is_bob : Bool
  pub perm : List ℕ
  pub inv_perm : List ℕ
  pub partial_parity_sums : List Bool
  pub changed_bits : List ℕ
  pub correct_bits : List ℕ
  pub parity_blocks : List ParityBlock
  pub odd_parity_blocks : List ParityBlock

pub record Frame : Type 0 where
  pub key : List Bool
  pub checkers : List Checker
  pub correct_bits : List ℕ
  pub corrected_bits : List ℕ
  pub transmitted_messages : ℕ
  pub transmitted_parities : ℕ

-- `unsigned int`
abbrev pub u32 : ℕ → ℕ
u32 n = n % 2 ^ 32

-- `offset + size`
abbrev pub block_end : ParityBlock → ℕ
block_end b = u32 (b.offset + b.size)

-- Sets of positions.
unfoldable pub contains : ℕ → List ℕ → Bool
contains p [] = false
contains p (q ∷ qs) = q == p || contains p qs

unfoldable pub insert : ℕ → List ℕ → List ℕ
unfolding contains
insert p ps = if contains p ps then ps else p ∷ ps

-- `std::distance` of the lower bounds of `from` and `to`.
unfoldable pub count_in : ℕ → ℕ → List ℕ → ℕ
count_in from to [] = 0
count_in from to (p ∷ ps) =
    let rest = count_in from to ps in if leb from p && ltb p to then rest + 1 else rest

-- The set of blocks by offset. An insertion leaves a block with the same offset.
unfoldable pub insert_block : ParityBlock → List ParityBlock → List ParityBlock
insert_block b [] = b ∷ []
insert_block b (c ∷ cs) =
    let rest = insert_block b cs in
    if ltb b.offset c.offset then b ∷ c ∷ cs else if b.offset == c.offset then c ∷ cs else c ∷ rest

unfoldable pub erase_block : ℕ → List ParityBlock → List ParityBlock
erase_block offset [] = []
erase_block offset (c ∷ cs) =
    let rest = erase_block offset cs in if c.offset == offset then cs else c ∷ rest

unfoldable pub find_block : ℕ → List ParityBlock → Option ParityBlock
find_block offset [] = none
find_block offset (c ∷ cs) =
    let rest = find_block offset cs in if c.offset == offset then some c else rest

-- The block before the `upper_bound` of a position; there is none before the first.
unfoldable pub block_before : ℕ → List ParityBlock → Option ParityBlock
block_before p [] = none
block_before p (c ∷ cs) =
    let rest = block_before p cs in
    if ltb p c.offset then none else elim rest [ none ↦ some c | some d ↦ some d ]

-- `compare_odd_parity_block`
unfoldable pub odd_less : ParityBlock → ParityBlock → Bool
odd_less a b = ltb a.size b.size || (a.size == b.size && ltb a.offset b.offset)

unfoldable pub insert_odd : ParityBlock → List ParityBlock → List ParityBlock
unfolding odd_less
insert_odd b [] = b ∷ []
insert_odd b (c ∷ cs) =
    let rest = insert_odd b cs in
    if odd_less b c then b ∷ c ∷ cs else if odd_less c b then c ∷ rest else c ∷ cs

unfoldable pub erase_odd : ParityBlock → List ParityBlock → List ParityBlock
unfolding odd_less
erase_odd b [] = []
erase_odd b (c ∷ cs) =
    let rest = erase_odd b cs in if odd_less b c || odd_less c b then c ∷ rest else cs

-- The block with its parity turned, in both sets.
unfoldable pub toggle : Checker → ParityBlock → Checker
unfolding insert_block erase_block insert_odd erase_odd
toggle c b =
    let new = record b { diffparity = not b.diffparity } in
    record c {
      parity_blocks = insert_block new (erase_block b.offset c.parity_blocks);
      odd_parity_blocks =
          if new.diffparity
          then insert_odd new c.odd_parity_blocks
          else erase_odd new c.odd_parity_blocks;
    }

-- `parity_checker::notify_bit_change_remote`, `notify_bit_change_local` and `notify_correct_bit`.
unfoldable pub bit_change_remote : ℕ → Checker → Option Checker
unfolding block_before toggle
bit_change_remote pos c =
    let p = get_or c.perm pos 0 in
    elim (block_before p c.parity_blocks) [
      | none ↦ none
      | some b ↦ some (if ltb p b.offset || leb (block_end b) p then c else toggle c b)
    ]

unfoldable pub bit_change_local : ℕ → Checker → Option Checker
unfolding bit_change_remote insert
bit_change_local pos c = do
  c' ← bit_change_remote pos c
  some (record c' { changed_bits = insert (get_or c'.perm pos 0) c'.changed_bits })

unfoldable pub correct_bit : ℕ → Checker → Checker
unfolding insert
correct_bit pos c = record c { correct_bits = insert (get_or c.perm pos 0) c.correct_bits }

unfoldable pub each : (Checker → Option Checker) → List Checker → Option (List Checker)
each notify [] = some []
each notify (c ∷ cs) = do c' ← notify c; cs' ← each notify cs; some (c' ∷ cs')

unfoldable pub get_bit : Frame → ℕ → Bool
get_bit f pos = get_or f.key pos false

-- `frame::add_checker`
unfoldable pub add_checker : Checker → Frame → Frame
add_checker c f = record f { checkers = f.checkers ++ c ∷ [] }

unfoldable pub set_bit : ℕ → Bool → Frame → Option Frame
unfolding get_bit each bit_change_local
set_bit pos bit f =
    if leb (length f.key) pos then some f else if not (get_bit f pos xor bit) then some f else (do
      cs ← each (bit_change_local pos) f.checkers
      some (record f { key = set f.key pos bit; checkers = cs }))

unfoldable pub flip_bit : ℕ → Frame → Option Frame
unfolding get_bit set_bit insert
flip_bit pos f = if leb (length f.key) pos then some f else (do
  f' ← set_bit pos (not (get_bit f pos)) f
  some (record f' { corrected_bits = insert pos f'.corrected_bits }))

unfoldable pub notify_bit_change_remote : ℕ → Frame → Option Frame
unfolding each bit_change_remote insert
notify_bit_change_remote pos f = if leb (length f.key) pos then some f else (do
  cs ← each (bit_change_remote pos) f.checkers
  some (record f { corrected_bits = insert pos f.corrected_bits; checkers = cs }))

unfoldable pub notify_correct_bit : ℕ → Frame → Frame
unfolding correct_bit insert
notify_correct_bit pos f = if leb (length f.key) pos then f else record f {
  correct_bits = insert pos f.correct_bits;
  checkers = map (correct_bit pos) f.checkers;
}
