-- ===== src/KeyStore/Flags.antt =====
-- lib/q3p/db/db_ram.h: the flags of a key's meta byte, and what the byte operations of db_ram.cpp
-- do to them. A meta byte is a number below 256, and each law is checked over all of them.
use ait_qkd.Prelude.{
  ℕ, zero, suc, ◌-◌, ◌<◌, ◌==◌, if◌then◌else◌, ltb, bit_and, bit_or, Bool, true, false, not, ◌&&◌,
  ◌≡◌, refl, arith,
}

abbrev pub flag_valid : ℕ
flag_valid = 0x80

abbrev pub flag_real_sync : ℕ
flag_real_sync = 0x40

abbrev pub flag_eventual_sync : ℕ
flag_eventual_sync = 0x20

abbrev pub flag_injected : ℕ
flag_injected = 0x10

abbrev pub flag_persistent : ℕ
flag_persistent = 0xF0

abbrev pub flag_counter : ℕ
flag_counter = 0x0F

-- `FLAG_VALID | FLAG_REAL_SYNC`
abbrev pub flag_valid_real : ℕ
flag_valid_real = 0xC0

-- `(m & f) == f`
unfoldable pub has : ℕ → ℕ → Bool
has f m = bit_and m f == f

-- `m & FLAG_COUNTER`
unfoldable pub counter : ℕ → ℕ
counter m = bit_and m flag_counter

-- `m & ~f`, stored into an unsigned char
clear : ℕ → ℕ → ℕ
clear f m = bit_and m (255 - f)

unfoldable pub to_eventual : ℕ → ℕ
unfolding clear
to_eventual m = bit_or (clear flag_real_sync m) flag_eventual_sync

unfoldable pub to_real : ℕ → ℕ
unfolding clear
to_real m = bit_or (clear flag_eventual_sync m) flag_real_sync

unfoldable pub to_injected : ℕ → ℕ
to_injected m = bit_or m flag_injected

-- `(m & FLAG_PERSISTENT) | c`
unfoldable pub with_counter : ℕ → ℕ → ℕ
with_counter c m = bit_or (bit_and m flag_persistent) c

-- `m & FLAG_PERSISTENT`
unfoldable pub persistent : ℕ → ℕ
persistent m = bit_and m flag_persistent

-- Valid, and reserved by nobody: `(m & (FLAG_VALID | FLAG_COUNTER)) == FLAG_VALID`.
unfoldable pub free_valid : ℕ → Bool
free_valid m = bit_and m 0x8F == flag_valid

-- Neither valid nor reserved: `(m & (FLAG_VALID | FLAG_COUNTER)) == 0`.
unfoldable pub free_spare : ℕ → Bool
free_spare m = bit_and m 0x8F == 0

abbrev pub bool_eq : Bool → Bool → Bool
bool_eq true b = b
bool_eq false b = not b

pub bool_eq→≡ : (a b : Bool) → bool_eq a b ≡ true → a ≡ b
bool_eq→≡ true b h = ground arith
bool_eq→≡ false b h = ground arith

-- A test that is passed by each number under a bound.
passed : ℕ → (ℕ → Bool) → Bool
passed (suc bound) test = if test bound then passed bound test else false
passed zero _ = true

passed_at :
    (bound : ℕ) (test : ℕ → Bool) (n : ℕ) → passed bound test ≡ true → n < bound → test n ≡ true
unfolding passed
passed_at (suc bound) test n all small = ground (arith, passed_at bound test n)
passed_at zero test n all small = absurd (omega (arith, small))

-- What a byte says, field by field.
pub record Reads (m : ℕ) (valid real eventual injected : Bool) (count : ℕ) : Type 0 where
  pub byte : m < 256
  pub is_valid : has flag_valid m ≡ valid
  pub is_real : has flag_real_sync m ≡ real
  pub is_eventual : has flag_eventual_sync m ≡ eventual
  pub is_injected : has flag_injected m ≡ injected
  pub count_is : counter m ≡ count

reads : ℕ → Bool → Bool → Bool → Bool → ℕ → Bool
unfolding has counter
reads m v r e i c =
    ltb m 256
    && (bool_eq (has flag_valid m) v
        && (bool_eq (has flag_real_sync m) r
            && (bool_eq (has flag_eventual_sync m) e
                && (bool_eq (has flag_injected m) i && counter m == c))))

reads-Reads : (m : ℕ) (v r e i : Bool) (c : ℕ) → reads m v r e i c ≡ true → Reads m v r e i c
unfolding reads
reads-Reads m v r e i c h = ground (
  arith,
  bool_eq→≡ (has flag_valid m) v,
  bool_eq→≡ (has flag_real_sync m) r,
  bool_eq→≡ (has flag_eventual_sync m) e,
  bool_eq→≡ (has flag_injected m) i,
)

-- A byte operation, checked over all bytes.
module _ (f : ℕ → ℕ) (v r e i : ℕ → Bool) (c : ℕ → ℕ) where
  over_bytes : Bool
  over_bytes = passed 256 (λ m. reads (f m) (v m) (r m) (e m) (i m) (c m))

  over_bytes-Reads :
      over_bytes ≡ true → (m : ℕ) → m < 256 → Reads (f m) (v m) (r m) (e m) (i m) (c m)
  unfolding over_bytes
  over_bytes-Reads t m h = reads-Reads _ _ _ _ _ _ (passed_at 256 _ m t h)

abbrev is_false : ℕ → Bool
is_false _ = false

abbrev is_true : ℕ → Bool
is_true _ = true

both_flags : ℕ → Bool
unfolding has
both_flags m = bool_eq (has flag_valid_real m) (has flag_valid m && has flag_real_sync m)

-- Both flags together are the one and the other.
pub has_both :
    (m : ℕ) → m < 256 → has flag_valid_real m ≡ (has flag_valid m && has flag_real_sync m)
unfolding has passed both_flags
has_both m h = bool_eq→≡ _ _ (passed_at 256 both_flags m refl h)

pub to_eventual_reads :
    (m : ℕ)
    → m < 256
    → Reads (to_eventual m) (has flag_valid m) false true (has flag_injected m) (counter m)
unfolding over_bytes passed reads has counter to_eventual
to_eventual_reads =
    over_bytes-Reads to_eventual (has flag_valid) is_false is_true (has flag_injected) counter refl

pub to_real_reads :
    (m : ℕ)
    → m < 256
    → Reads (to_real m) (has flag_valid m) true false (has flag_injected m) (counter m)
unfolding over_bytes passed reads has counter to_real
to_real_reads =
    over_bytes-Reads to_real (has flag_valid) is_true is_false (has flag_injected) counter refl

pub to_injected_reads :
    (m : ℕ)
    → m < 256
    → Reads
        (to_injected m)
        (has flag_valid m)
        (has flag_real_sync m)
        (has flag_eventual_sync m)
        true
        (counter m)
unfolding over_bytes passed reads has counter to_injected
to_injected_reads =
    over_bytes-Reads to_injected (has flag_valid) (has flag_real_sync) (has flag_eventual_sync)
      is_true counter refl

pub persistent_reads :
    (m : ℕ)
    → m < 256
    → Reads
        (persistent m)
        (has flag_valid m)
        (has flag_real_sync m)
        (has flag_eventual_sync m)
        (has flag_injected m)
        0
unfolding over_bytes passed reads has counter persistent
persistent_reads =
    over_bytes-Reads persistent (has flag_valid) (has flag_real_sync) (has flag_eventual_sync)
      (has flag_injected) (λ _. 0) refl

counter_table : ℕ → Bool
unfolding over_bytes
counter_table c =
    over_bytes (with_counter c) (has flag_valid) (has flag_real_sync) (has flag_eventual_sync)
      (has flag_injected) (λ _. c)

counter_tables : passed 16 counter_table ≡ true
unfolding counter_table passed reads has counter with_counter
counter_tables = refl

pub with_counter_reads :
    (c m : ℕ)
    → c < 16
    → m < 256
    → Reads
        (with_counter c m)
        (has flag_valid m)
        (has flag_real_sync m)
        (has flag_eventual_sync m)
        (has flag_injected m)
        c
unfolding counter_table
with_counter_reads c m hc =
    over_bytes-Reads (with_counter c) (has flag_valid) (has flag_real_sync) (has flag_eventual_sync)
      (has flag_injected) (λ _. c) (passed_at 16 counter_table c counter_tables hc) m

-- The two search tests, by flag and counter.
pub free_valid_iff : (m : ℕ) → m < 256 → free_valid m ≡ (has flag_valid m && counter m == 0)
unfolding passed free_valid has counter
free_valid_iff m h =
    bool_eq→≡ _ _
      (passed_at 256 (λ n. bool_eq (free_valid n) (has flag_valid n && counter n == 0)) m refl h)

pub free_spare_iff : (m : ℕ) → m < 256 → free_spare m ≡ (not (has flag_valid m) && counter m == 0)
unfolding passed free_spare has counter
free_spare_iff m h = bool_eq→≡ _ _ (
    passed_at 256 (λ n. bool_eq (free_spare n) (not (has flag_valid n) && counter n == 0)) m refl h)

pub has-flag_valid : has flag_valid flag_valid ≡ true
unfolding has
has-flag_valid = refl

pub has-zero : has flag_valid 0 ≡ false
unfolding has
has-zero = refl
