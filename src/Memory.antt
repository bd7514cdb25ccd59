-- ===== src/Memory.antt =====
-- lib/utility/memory/memory.cpp: memory blocks as hexadecimal text. Characters are their codes, and
-- `std::transform` by `tolower` is that of ASCII.
use ait_qkd.Prelude.{
  ℕ, zero, suc, ◌+◌, ◌-◌, ◌*◌, ◌/◌, ◌%◌, ◌<◌, ◌≤◌, ◌≡◌, refl, sym, ap, ◌∙◌, List, [], ◌∷◌, ◌++◌,
  map, Option, none, some, Bool, true, false, ◌&&◌, ltb, leb, ◌==◌, ==_iff, if◌then◌else◌, bit_or,
  All, arith,
}
use mathlib.Core.List.{append_assoc, append-nil}
mod Tests

-- `std::hex` of a digit.
unfoldable pub hex_digit : ℕ → ℕ
hex_digit d = if ltb d 10 then 48 + d else 87 + d

unfoldable pub as_hex : List ℕ → List ℕ
unfolding hex_digit
as_hex [] = []
as_hex (b ∷ bs) = hex_digit (b / 16) ∷ hex_digit (b % 16) ∷ as_hex bs

unfoldable pub tolower : ℕ → ℕ
tolower c = if leb 65 c && leb c 90 then c + 32 else c

unfoldable pub digit_value : ℕ → Option ℕ
digit_value c =
    if leb 48 c && leb c 57
    then some (c - 48)
    else if leb 97 c && leb c 102
    then some (c - 97 + 10)
    else none

-- The loop, after `done` was written and, if `odd`, the first digit of the byte `value` was read. It
-- stops at the first character that is no digit.
unfoldable pub parse_hex : Bool → ℕ → List ℕ → List ℕ → List ℕ
unfolding digit_value
parse_hex odd value done [] = if odd then done ++ value ∷ [] else done
parse_hex odd value done (c ∷ cs) = elim (digit_value c) [
  | none ↦ if odd then done ++ value ∷ [] else done
  | some d ↦ elim odd [
    | true ↦ parse_hex false 0 (done ++ bit_or value d ∷ []) cs
    | false ↦ parse_hex true (bit_or value (d * 16)) done cs
  ]
]

unfoldable pub from_hex : List ℕ → List ℕ
unfolding tolower parse_hex
from_hex text = parse_hex false 0 [] (map tolower text)

-- Over a small range, by trying all numbers.
all_below : ℕ → (ℕ → Bool) → Bool
all_below zero p = true
all_below (suc n) p = p n && all_below n p

below : (n : ℕ) (p : ℕ → Bool) (x : ℕ) → all_below n p ≡ true → x < n → p x ≡ true
unfolding all_below
below zero p x h lt = absurd (omega (arith, lt))
below (suc n) p x h lt = ground (arith, below n p x, h, lt)

joins : ℕ → Bool
joins b = bit_or (bit_or 0 (b / 16 * 16)) (b % 16) == b

digits_joined : (b : ℕ) → b < 256 → bit_or (bit_or 0 (b / 16 * 16)) (b % 16) ≡ b
unfolding all_below joins
digits_joined b h =
    (==_iff (bit_or (bit_or 0 (b / 16 * 16)) (b % 16)) b).0 (below 256 joins b refl h)

value-digit : (d : ℕ) → d < 16 → digit_value (tolower (hex_digit d)) ≡ some d
unfolding digit_value tolower hex_digit
value-digit d h = ground (arith, h)

high_digit :
    (value : ℕ) (done : List ℕ) (c d : ℕ) (text : List ℕ)
    → digit_value c ≡ some d
    → parse_hex false value done (c ∷ text) ≡ parse_hex true (bit_or value (d * 16)) done text
unfolding parse_hex
high_digit value done c d text e = rw (parse_hex, e) refl

low_digit :
    (value : ℕ) (done : List ℕ) (c d : ℕ) (text : List ℕ)
    → digit_value c ≡ some d
    → parse_hex true value done (c ∷ text) ≡ parse_hex false 0 (done ++ bit_or value d ∷ []) text
unfolding parse_hex
low_digit value done c d text e = rw (parse_hex, e) refl

-- Two digits are a byte.
parse_byte :
    (done : List ℕ) (b : ℕ) (text : List ℕ)
    → b < 256
    → parse_hex false 0 done (tolower (hex_digit (b / 16)) ∷ tolower (hex_digit (b % 16)) ∷ text)
      ≡ parse_hex false 0 (done ++ b ∷ []) text
parse_byte done b text h =
    high_digit 0 done (tolower (hex_digit (b / 16))) (b / 16) (tolower (hex_digit (b % 16)) ∷ text)
      (value-digit (b / 16) (omega (arith, h)))
    ∙ low_digit (bit_or 0 (b / 16 * 16)) done (tolower (hex_digit (b % 16))) (b % 16) text
        (value-digit (b % 16) (omega arith))
    ∙ ap (λ v. parse_hex false 0 (done ++ v ∷ []) text) (digits_joined b h)

parse_hex-as_hex :
    (done memory : List ℕ)
    → All (λ b. b < 256) memory
    → parse_hex false 0 done (map tolower (as_hex memory)) ≡ done ++ memory
unfolding as_hex
parse_hex-as_hex done [] h = unfold parse_hex in sym (append-nil done)
parse_hex-as_hex done (b ∷ memory) h =
    parse_byte done b (map tolower (as_hex memory)) h.0
    ∙ parse_hex-as_hex (done ++ b ∷ []) memory h.1
    ∙ append_assoc done (b ∷ []) memory

-- The bytes of a memory block, each below 256, are read back from their hexadecimal text.
pub from_hex-as_hex :
    (memory : List ℕ) → All (λ b. b < 256) memory → from_hex (as_hex memory) ≡ memory
unfolding from_hex
from_hex-as_hex memory h = parse_hex-as_hex [] memory h
