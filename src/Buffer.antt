-- ===== src/Buffer.antt =====
-- include/qkd/utility/buffer.h: a byte buffer with a position, and the pushes and pops of the
-- unsigned integers, which go over the wire in big-endian order. The position is held within the
-- buffer by every operation here; `set_position` past the end is not modelled.
use ait_qkd.Prelude.{
  ℕ, zero, suc, ◌+◌, ◌*◌, ◌/◌, ◌%◌, ◌^◌, ◌≤◌, ◌<◌, ◌≡◌, refl, sym, ◌∙◌, ap, List, [], ◌∷◌, ◌++◌,
  Option, none, some, ◌>>=◌, if◌then◌else◌, leb, length, take, drop, slice, length-append,
  length-drop, le→leb, take-append, drop-append, take-length, drop-past, drop-add, ap₂, arith, Bool,
  ◌==◌,
}
use mathlib.Core.List.{append-nil}
use native.Mathlib.Nat.{pow-suc}

pub record Buffer : Type 0 where
  pub bytes : List ℕ
  pub position : ℕ

abbrev pub empty : Buffer
empty = record { bytes = []; position = 0 }

unfoldable pub eof : Buffer → Bool
eof b = b.position == length b.bytes

-- `add`: the buffer grows as far as needed and is written over from its position.
unfoldable pub add : Buffer → List ℕ → Buffer
add b bs = record {
  bytes = take b.position b.bytes ++ (bs ++ drop (b.position + length bs) b.bytes);
  position = b.position + length bs;
}

-- `pick`: `none` stands for the exception `std::out_of_range`.
unfoldable pub pick : Buffer → ℕ → Option (List ℕ × Buffer)
pick b n =
    if leb (b.position + n) (length b.bytes)
    then some (slice b.bytes b.position n, record b { position = b.position + n })
    else none

unfoldable pub reset : Buffer → Buffer
reset b = record b { position = 0 }

-- The last `w` base-256 digits of `n`, most significant first: `htobe`.
unfoldable pub to_be : ℕ → ℕ → List ℕ
to_be zero n = []
to_be (suc w) n = to_be w (n / 256) ++ n % 256 ∷ []

-- `betoh`
unfoldable pub from_be : ℕ → List ℕ → ℕ
from_be acc [] = acc
from_be acc (b ∷ bs) = from_be (acc * 256 + b) bs

-- A push and a pop of an unsigned integer of `w` bytes.
unfoldable pub push : ℕ → Buffer → ℕ → Buffer
push w b n = add b (to_be w n)

unfoldable pub pop : ℕ → Buffer → Option (ℕ × Buffer)
pop w b = do (bs, b') ← pick b w; some (from_be 0 bs, b')

abbrev pub push_u32 : Buffer → ℕ → Buffer
push_u32 = push 4

abbrev pub pop_u32 : Buffer → Option (ℕ × Buffer)
pop_u32 = pop 4

abbrev pub push_u64 : Buffer → ℕ → Buffer
push_u64 = push 8

abbrev pub pop_u64 : Buffer → Option (ℕ × Buffer)
pop_u64 = pop 8

pub length-to_be : (w n : ℕ) → length (to_be w n) ≡ w
unfolding to_be
length-to_be zero n = refl
length-to_be (suc w) n =
    omega (arith, length-append (to_be w (n / 256)) (n % 256 ∷ []), length-to_be w (n / 256))

from_be-append : (acc b : ℕ) (bs : List ℕ) → from_be acc (bs ++ b ∷ []) ≡ from_be acc bs * 256 + b
unfolding from_be
from_be-append acc b [] = refl
from_be-append acc b (x ∷ bs) = from_be-append (acc * 256 + x) b bs

-- What is sent in `w` bytes is received, if it fits them.
pub from_be-to_be : (w n : ℕ) → n < 256 ^ w → from_be 0 (to_be w n) ≡ n
unfolding to_be from_be
from_be-to_be zero n h = omega arith
from_be-to_be (suc w) n h = omega (
  arith,
  from_be-append 0 (n % 256) (to_be w (n / 256)),
  from_be-to_be w (n / 256) (omega (arith, pow-suc 256 w)),
)

-- The bytes that were not read yet.
abbrev pub unread : Buffer → List ℕ
unread b = drop b.position b.bytes

-- A buffer that is only written to: its position is its end.
abbrev pub written : List ℕ → Buffer
written bs = record { bytes = bs; position = length bs }

pub push-written : (w n : ℕ) (bs : List ℕ) → push w (written bs) n ≡ written (bs ++ to_be w n)
unfolding push add
push-written w n bs =
    ap₂ (λ xs p. record { bytes = xs; position = p })
      (ap₂ ◌++◌ (take-length bs) (
        ap (◌++◌ (to_be w n)) (drop-past (length bs + length (to_be w n)) bs (omega arith))
        ∙ append-nil _))
      (sym (length-append bs (to_be w n)))

-- If the unread bytes start with the big-endian form of a number that fits `w` bytes, `w` not 0, then
-- the pop of `w` bytes answers the number, and the bytes that follow are the unread ones after it.
pub pop-next :
    (w n : ℕ) (b : Buffer) (rest : List ℕ)
    → 0 < w
    → n < 256 ^ w
    → unread b ≡ to_be w n ++ rest
    → (pop w b ≡ some (n, record b { position = b.position + w }))
      × (drop (b.position + w) b.bytes ≡ rest)
unfolding pop pick
pop-next w n b rest pos fits e = (
  rw (le→leb (b.position + w) (length b.bytes) inside) (
      ap (λ x. some (x, record b { position = b.position + w }))
        (ap (from_be 0) (ap (take w) e ∙ take-append (to_be w n) rest w (length-to_be w n))
          ∙ from_be-to_be w n fits)),
  drop-add b.position w b.bytes ∙ ap (drop w) e ∙ drop-append (to_be w n) rest w (length-to_be w n),
)
  where
    inside : b.position + w ≤ length b.bytes
    inside = omega (
      arith,
      length-drop b.position b.bytes,
      ap length e,
      length-append (to_be w n) rest,
      length-to_be w n,
    )

-- A pop past the end of the buffer throws.
pub pop-none : (w : ℕ) (b : Buffer) → length b.bytes < b.position + w → pop w b ≡ none
unfolding pop pick
pop-none w b h = ground arith
