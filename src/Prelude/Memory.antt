-- ===== src/Prelude/Memory.antt =====
-- Byte arrays of the heap: single accesses, `memcpy` and `memset`. `none` is an access outside the
-- array, which C++ leaves undefined; a null pointer is the empty array.
use Prim.Native.Nat.{ℕ, zero, suc, ◌+◌, ◌≤◌}
use mathlib.Core.Path.{◌≡◌, refl, ap}
use mathlib.Core.Logic.{◌⊎◌, inl, inr}
use mathlib.Core.List.{List, [], ◌∷◌}
use mathlib.Core.Option.{Option, none, some}
use native.Mathlib.Omega.{arith}
use ait_qkd.Prelude.Tests.{ltb, leb, if◌then◌else◌}
use ait_qkd.Prelude.Lists.{length, get_or, set, take, drop, length-take, length-drop}

unfoldable pub load : List ℕ → ℕ → Option ℕ
load xs i = if ltb i (length xs) then some (get_or xs i 0) else none

unfoldable pub store : List ℕ → ℕ → ℕ → Option (List ℕ)
store xs i v = if ltb i (length xs) then some (set xs i v) else none

-- `ys` written over `xs` from `off`, as far as `xs` reaches.
abbrev pub splice : List ℕ → ℕ → List ℕ → List ℕ
splice [] off ys = []
splice (x ∷ xs) zero [] = x ∷ xs
splice (x ∷ xs) zero (y ∷ ys) = y ∷ splice xs zero ys
splice (x ∷ xs) (suc off) ys = x ∷ splice xs off ys

abbrev pub slice : List ℕ → ℕ → ℕ → List ℕ
slice xs off n = take n (drop off xs)

-- `memcpy (xs + off, ys, length ys)`
unfoldable pub write_bytes : List ℕ → ℕ → List ℕ → Option (List ℕ)
write_bytes xs off ys = if leb (off + length ys) (length xs) then some (splice xs off ys) else none

-- `memcpy (…, xs + off, n)`
unfoldable pub read_bytes : List ℕ → ℕ → ℕ → Option (List ℕ)
read_bytes xs off n = if leb (off + n) (length xs) then some (slice xs off n) else none

pub length-splice : (xs : List ℕ) (off : ℕ) (ys : List ℕ) → length (splice xs off ys) ≡ length xs
length-splice [] off ys = refl
length-splice (x ∷ xs) zero [] = refl
length-splice (x ∷ xs) zero (y ∷ ys) = ap suc (length-splice xs zero ys)
length-splice (x ∷ xs) (suc off) ys = ap suc (length-splice xs off ys)

pub length-slice : (xs : List ℕ) (off n : ℕ) → off + n ≤ length xs → length (slice xs off n) ≡ n
length-slice xs off n h = omega (arith, length-take n (drop off xs), length-drop off xs)

-- What was written is read back.
pub slice-splice_self :
    (xs : List ℕ) (off : ℕ) (ys : List ℕ)
    → off + length ys ≤ length xs
    → slice (splice xs off ys) off (length ys) ≡ ys
slice-splice_self [] zero [] h = refl
slice-splice_self [] (suc off) [] h = refl
slice-splice_self [] off (y ∷ ys) h = absurd (omega arith)
slice-splice_self (x ∷ xs) zero [] h = refl
slice-splice_self (x ∷ xs) zero (y ∷ ys) h = ap (◌∷◌ y) (slice-splice_self xs zero ys (omega arith))
slice-splice_self (x ∷ xs) (suc off) ys h = slice-splice_self xs off ys (omega arith)

take-splice_above :
    (xs : List ℕ) (off n : ℕ) (ys : List ℕ) → n ≤ off → take n (splice xs off ys) ≡ take n xs
take-splice_above xs off zero ys h = refl
take-splice_above [] off (suc n) ys h = refl
take-splice_above (x ∷ xs) zero (suc n) ys h = absurd (omega arith)
take-splice_above (x ∷ xs) (suc off) (suc n) ys h =
    ap (◌∷◌ x) (take-splice_above xs off n ys (omega arith))

drop-splice_below :
    (xs : List ℕ) (off n : ℕ) (ys : List ℕ)
    → off + length ys ≤ n
    → drop n (splice xs off ys) ≡ drop n xs
drop-splice_below [] off n ys h = refl
drop-splice_below (x ∷ xs) zero n [] h = refl
drop-splice_below (x ∷ xs) zero zero (y ∷ ys) h = absurd (omega arith)
drop-splice_below (x ∷ xs) zero (suc n) (y ∷ ys) h = drop-splice_below xs zero n ys (omega arith)
drop-splice_below (x ∷ xs) (suc off) zero ys h = absurd (omega arith)
drop-splice_below (x ∷ xs) (suc off) (suc n) ys h = drop-splice_below xs off n ys (omega arith)

slice-splice_above :
    (xs : List ℕ) (off at n : ℕ) (ys : List ℕ)
    → at + n ≤ off
    → slice (splice xs off ys) at n ≡ slice xs at n
slice-splice_above xs off zero n ys h = take-splice_above xs off n ys (omega arith)
slice-splice_above [] off (suc at) n ys h = refl
slice-splice_above (x ∷ xs) zero (suc at) n ys h = absurd (omega arith)
slice-splice_above (x ∷ xs) (suc off) (suc at) n ys h =
    slice-splice_above xs off at n ys (omega arith)

-- A block that the written one does not overlap is as it was.
pub slice-splice_apart :
    (xs : List ℕ) (off at n : ℕ) (ys : List ℕ)
    → (at + n ≤ off) ⊎ (off + length ys ≤ at)
    → slice (splice xs off ys) at n ≡ slice xs at n
slice-splice_apart xs off at n ys (inl h) = slice-splice_above xs off at n ys h
slice-splice_apart xs off at n ys (inr h) = ap (take n) (drop-splice_below xs off at ys h)
