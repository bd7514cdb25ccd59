-- ===== src/Cascade/Checker.antt =====
-- bin/modules/qkd-cascade/parity-checker.cpp: the constructor of a parity checker and the exchange of
-- parities with the peer. The messages that arrive from the peer are an argument.
use ait_qkd.Prelude.{
  ℕ, zero, suc, ◌+◌, ◌-◌, ◌*◌, ◌/◌, ◌%◌, min, bit_xor, List, [], ◌∷◌, ◌++◌, Option, none, some,
  ◌>>=◌, Bool, true, false, not, ◌&&◌, ltb, ◌==◌, if◌then◌else◌, length, get_or, map, take,
}
use ait_qkd.Cascade.Frame.{
  ◌xor◌, u32, block_end, ParityBlock, Checker, Frame, contains, insert, count_in, insert_block,
  insert_odd, get_bit, notify_correct_bit,
}

-- `category`
pub record Category : Type 0 where
  pub size : ℕ
  pub k : ℕ
  pub diffparity_must_be_even : Bool

-- What the communicator of a module has received, and what it has sent.
pub record Link : Type 0 where
  pub inbox : List (List ℕ)
  pub outbox : List (List ℕ)

-- `m_cComm << cSendBuffer; m_cComm >> cRecvBuffer`: a peer that sends nothing is an exception.
unfoldable pub exchange : List ℕ → Link → Option (List ℕ × Link)
exchange message l = elim l.inbox [
  | [] ↦ none
  | m ∷ ms ↦ some (m, record { inbox = ms; outbox = l.outbox ++ message ∷ [] })
]

-- The blocks of a category from block `i`, with `count` to go.
unfoldable pub split_from : ℕ → Category → ℕ → ℕ → List ParityBlock
split_from offset g zero i = []
split_from offset g (suc count) i =
    record {
      offset = u32 (offset + i * g.k);
      size = u32 (min g.k (g.size - i * g.k));
      diffparity = false;
    }
    ∷ split_from offset g count (i + 1)

-- All the blocks of a category that starts at `offset`.
unfoldable pub split : ℕ → Category → List ParityBlock
unfolding split_from
split offset g = split_from offset g ((g.size + g.k - 1) / g.k) 0

-- The parities of the first bits: `sums[i + 1] = sums[i] ^ bit i`.
unfoldable pub partial_sums : Bool → List Bool → List Bool
partial_sums sum [] = sum ∷ []
partial_sums sum (b ∷ bs) = sum ∷ partial_sums (sum xor b) bs

unfoldable pub count_correct_bits_in_block : Checker → ℕ → ℕ → ℕ → ℕ
unfolding count_in
count_correct_bits_in_block c key_size offset size =
    if ltb key_size (offset + size) then 0 else count_in offset (offset + size) c.correct_bits

-- The parity of a block, the bits included that were changed since the sums were made.
unfoldable pub block_parity : Checker → ParityBlock → Bool
unfolding count_in
block_parity c b =
    get_or c.partial_parity_sums (block_end b) false
    xor get_or c.partial_parity_sums b.offset false
    xor not (count_in b.offset (block_end b) c.changed_bits % 2 == 0)

-- The first loop of `calculate_block_diffparities`: `diffparity` marks the blocks to exchange. It
-- stops at a block outside the key.
unfoldable pub mark_blocks : Checker → ℕ → List ParityBlock → Bool × List ParityBlock
unfolding count_correct_bits_in_block
mark_blocks c key_size [] = (true, [])
mark_blocks c key_size (b ∷ bs) =
    let (inside, rest) = mark_blocks c key_size bs in
    if ltb key_size (block_end b) then (false, b ∷ bs) else (
      inside,
      record b {
        diffparity = not (count_correct_bits_in_block c key_size b.offset b.size == b.size);
      }
          ∷ rest,
    )

unfoldable pub count_marked : List ParityBlock → ℕ
count_marked [] = 0
count_marked (b ∷ bs) = if b.diffparity then suc (count_marked bs) else count_marked bs

abbrev pub byte : Bool → ℕ
byte true = 1
byte false = 0

-- The parities of the first `n` marked blocks.
unfoldable pub own_parities : Checker → ℕ → List ParityBlock → List ℕ
unfolding block_parity
own_parities c zero bs = []
own_parities c (suc n) [] = []
own_parities c (suc n) (b ∷ bs) = elim b.diffparity [
  | true ↦ byte (block_parity c b) ∷ own_parities c n bs
  | false ↦ own_parities c (suc n) bs
]

unfoldable pub xor_bytes : List ℕ → List ℕ → List ℕ
xor_bytes [] ns = []
xor_bytes (m ∷ ms) [] = m ∷ ms
xor_bytes (m ∷ ms) (n ∷ ns) = bit_xor m n ∷ xor_bytes ms ns

-- A block whose only bit turns out to be correct is announced, unless that was known. `own` reads
-- this checker: it hears of announcements itself once it is one of the frame's checkers.
unfoldable pub announce : (Frame → Checker) → ParityBlock → Frame → Frame
unfolding contains notify_correct_bit
announce own b f =
    if not b.diffparity && (b.size == 1 && not (contains b.offset (own f).correct_bits))
    then notify_correct_bit (get_or (own f).inv_perm b.offset 0) f
    else f

-- The last loop of `calculate_block_diffparities`: the differences go to the marked blocks, and
-- their sum to the block for which none was exchanged.
unfoldable pub write_back :
    (Frame → Checker) → Bool → List ℕ → List ParityBlock → Frame → List ParityBlock × Frame
unfolding announce
write_back own sum diffs [] f = ([], f)
write_back own sum diffs (b ∷ bs) f = elim b.diffparity [
  | false ↦ let (rest, f') = write_back own sum diffs bs f in (b ∷ rest, f')
  | true ↦ elim diffs [
    | [] ↦
        let new = record b { diffparity = sum } in
        let (rest, f') = write_back own sum [] bs (announce own new f) in (new ∷ rest, f')
    | d ∷ ds ↦
        let odd = not (d == 0) in
        let new = record b { diffparity = odd } in
        let (rest, f') = write_back own (sum xor odd) ds bs (announce own new f) in (new ∷ rest, f')
  ]
]

-- What `calculate_block_diffparities` returns, and the blocks, the frame and the link after it.
pub record Calculated : Type 0 where
  pub result : Bool
  pub blocks : List ParityBlock
  pub frame : Frame
  pub link : Link

-- The comparison with the parities of the peer, which must be as many.
unfoldable pub compare_with :
    (Frame → Checker) → List ParityBlock → List ℕ → List ℕ → Frame → Link → Calculated
unfolding xor_bytes write_back
compare_with own blocks parities remote f l =
    let sent = record f { transmitted_parities = f.transmitted_parities + length parities } in
    if length remote == length parities
    then (let done = record sent { transmitted_messages = f.transmitted_messages + 1 } in
        let (after, f') = write_back own false (xor_bytes parities remote) blocks done in
        record { result = true; blocks = after; frame = f'; link = l })
    else record { result = false; blocks = blocks; frame = sent; link = l }

-- The exchange of the parities, if there are any, and what follows from the answer.
unfoldable pub compare_parities :
    (Frame → Checker) → List ParityBlock → List ℕ → Frame → Link → Option Calculated
unfolding exchange compare_with write_back
compare_parities own blocks [] f l =
    let (after, f') = write_back own false [] blocks f in
    some (record { result = true; blocks = after; frame = f'; link = l })
compare_parities own blocks (p ∷ ps) f l = do
  (remote, l') ← exchange (p ∷ ps) l
  some (compare_with own blocks (p ∷ ps) remote f l')

unfoldable pub calculate_block_diffparities :
    (Frame → Checker) → List ParityBlock → Bool → Frame → Link → Option Calculated
unfolding mark_blocks count_marked own_parities compare_parities
calculate_block_diffparities own blocks must_be_even f l =
    let (inside, marked) = mark_blocks (own f) (length f.key) blocks in
    let n = count_marked marked in
    if not inside
    then some (record { result = false; blocks = marked; frame = f; link = l })
    else if n == 0
    then some (record { result = true; blocks = marked; frame = f; link = l })
    else compare_parities own marked
        (own_parities (own f) (if must_be_even then n - 1 else n) marked) f l

-- The blocks of a category go to the sets, those with a difference to the odd ones too.
unfoldable pub collect : List ParityBlock → Checker → Checker
unfolding insert_block insert_odd
collect [] c = c
collect (b ∷ bs) c = collect bs (record c {
  parity_blocks = insert_block b c.parity_blocks;
  odd_parity_blocks =
      if b.diffparity then insert_odd b c.odd_parity_blocks else c.odd_parity_blocks;
})

-- The loop over the categories. The checker is not one of the frame's yet.
unfoldable pub check_categories :
    ℕ → List Category → Checker → Frame → Link → Option (Checker × Frame × Link)
unfolding split calculate_block_diffparities collect
check_categories offset [] c f l = some (c, f, l)
check_categories offset (g ∷ gs) c f l = do
  r ← calculate_block_diffparities (λ _. c) (split offset g) g.diffparity_must_be_even f l
  check_categories (offset + g.size) gs (collect r.blocks c) r.frame r.link

-- The positions of the frame's correct bits, permuted.
unfoldable pub permuted : List ℕ → List ℕ → List ℕ
unfolding insert
permuted perm [] = []
permuted perm (p ∷ ps) = insert (get_or perm p 0) (permuted perm ps)

-- The checker before its categories are checked.
unfoldable pub new_checker : Bool → List ℕ → List ℕ → Frame → Checker
unfolding partial_sums permuted get_bit
new_checker is_bob perm inv_perm f = record {
  is_bob = is_bob;
  perm = perm;
  inv_perm = inv_perm;
  partial_parity_sums = partial_sums false (map (get_bit f) (take (length f.key) inv_perm));
  changed_bits = [];
  correct_bits = permuted perm f.correct_bits;
  parity_blocks = [];
  odd_parity_blocks = [];
}

-- The constructor.
unfoldable pub parity_checker :
    Bool → List ℕ → List ℕ → List Category → Frame → Link → Option (Checker × Frame × Link)
unfolding new_checker check_categories
parity_checker is_bob perm inv_perm categories f l =
    check_categories 0 categories (new_checker is_bob perm inv_perm f) f l
