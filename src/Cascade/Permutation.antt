-- ===== src/Cascade/Permutation.antt =====
-- `generate_identity_permutation` and `generate_random_permutation` of
-- bin/modules/qkd-cascade/qkd-cascade.cpp: a permutation of the bit positions, and its inverse. The
-- random source is an argument: `pick i` is the value of `rand_int(i, n - 1)` in round `i`. The
-- round counters have 32 bits and wrap around: for `n` of 2 ^ 32 or more the loops of the source do
-- not end, which is not modelled. `n` rounds are all of them for a smaller `n`.
use ait_qkd.Prelude.{
  ℕ, zero, suc, ◌+◌, ◌%◌, ◌^◌, ◌<◌, ◌≡◌, refl, sym, ◌∙◌, ap, List, [], ◌∷◌, ◌==◌, if◌then◌else◌,
  length, get_or, set, replicate, length-set, length-replicate, get_or-set, arith,
}

-- The positions `from`, `from + 1`, … , `count` of them.
unfoldable pub identity_from : ℕ → ℕ → List ℕ
identity_from from zero = []
identity_from from (suc count) = from ∷ identity_from (from + 1) count

-- `perm` and `inv_perm`
unfoldable pub generate_identity_permutation : ℕ → List ℕ × List ℕ
generate_identity_permutation n = (identity_from 0 n, identity_from 0 n)

-- `++i` of an `unsigned int`
abbrev next : ℕ → ℕ
next i = (i + 1) % 2 ^ 32

-- `std::swap(perm[i], perm[r])`
unfoldable pub swap : List ℕ → ℕ → ℕ → List ℕ
swap perm i r = set (set perm i (get_or perm r 0)) r (get_or perm i 0)

-- The loop of swaps from position `i`, with `rounds` to go.
unfoldable pub shuffle : (ℕ → ℕ) → ℕ → ℕ → List ℕ → List ℕ
unfolding swap
shuffle pick zero i perm = perm
shuffle pick (suc rounds) i perm = shuffle pick rounds (next i) (swap perm i (pick i))

-- The loop that collects the inverse.
unfoldable pub collect_inverse : List ℕ → ℕ → ℕ → List ℕ → List ℕ
collect_inverse perm zero i inv = inv
collect_inverse perm (suc rounds) i inv =
    collect_inverse perm rounds (next i) (set inv (get_or perm i 0) i)

unfoldable pub generate_random_permutation : (ℕ → ℕ) → ℕ → List ℕ × List ℕ
unfolding identity_from shuffle collect_inverse
generate_random_permutation pick n =
    let perm = shuffle pick n 0 (identity_from 0 n) in
    (perm, collect_inverse perm n 0 (replicate n 0))

-- `perm` is a permutation of the positions below `n`, and `inverse` undoes it.
pub record IsPermutation (n : ℕ) (perm inverse : List ℕ) : Type 0 where
  pub perm_size : length perm ≡ n
  pub inverse_size : length inverse ≡ n
  pub perm-lt : (i : ℕ) → i < n → get_or perm i 0 < n
  pub inverse-lt : (i : ℕ) → i < n → get_or inverse i 0 < n
  pub inverse-perm : (i : ℕ) → i < n → get_or inverse (get_or perm i 0) 0 ≡ i
  pub perm-inverse : (i : ℕ) → i < n → get_or perm (get_or inverse i 0) 0 ≡ i

-- The same with the inverse as a function.
record Undone (n : ℕ) (perm : List ℕ) (undo : ℕ → ℕ) : Type 0 where
  sized : length perm ≡ n
  at-lt : (i : ℕ) → i < n → get_or perm i 0 < n
  undo-lt : (i : ℕ) → i < n → undo i < n
  undo-at : (i : ℕ) → i < n → undo (get_or perm i 0) ≡ i
  at-undo : (i : ℕ) → i < n → get_or perm (undo i) 0 ≡ i

length-identity_from : (from count : ℕ) → length (identity_from from count) ≡ count
unfolding identity_from
length-identity_from from zero = refl
length-identity_from from (suc count) = ap suc (length-identity_from (from + 1) count)

get_or-identity_from :
    (from count i : ℕ) → i < count → get_or (identity_from from count) i 0 ≡ from + i
unfolding identity_from
get_or-identity_from from zero i h = absurd (omega arith)
get_or-identity_from from (suc count) zero h = omega arith
get_or-identity_from from (suc count) (suc i) h =
    omega (arith, get_or-identity_from (from + 1) count i (omega arith))

identity-Undone : (n : ℕ) → Undone n (identity_from 0 n) (λ i. i)
identity-Undone n = record {
  sized = length-identity_from 0 n;
  at-lt = λ i h. omega (arith, get_or-identity_from 0 n i h);
  undo-lt = λ i h. h;
  undo-at = λ i h. omega (arith, get_or-identity_from 0 n i h);
  at-undo = λ i h. omega (arith, get_or-identity_from 0 n i h);
}

swap-at :
    (perm : List ℕ) (i r j : ℕ)
    → i < length perm
    → r < length perm
    → get_or (swap perm i r) j 0
      ≡ (if j == r then get_or perm i 0 else if j == i then get_or perm r 0 else get_or perm j 0)
unfolding swap
swap-at perm i r j hi hr = ground (
  arith,
  get_or-set perm i j (get_or perm r 0) 0,
  get_or-set (set perm i (get_or perm r 0)) r j (get_or perm i 0) 0,
  length-set perm i (get_or perm r 0),
)

length-swap : (perm : List ℕ) (i r : ℕ) → length (swap perm i r) ≡ length perm
unfolding swap
length-swap perm i r = omega (
  arith,
  length-set perm i (get_or perm r 0),
  length-set (set perm i (get_or perm r 0)) r (get_or perm i 0),
)

module _ {n : ℕ} {perm : List ℕ} {undo : ℕ → ℕ} (u : Undone n perm undo) (i r : ℕ) (hi : i < n)
    (hr : r < n) where
  swapped : ℕ → ℕ
  swapped j = if j == get_or perm r 0 then i else if j == get_or perm i 0 then r else undo j

  at :
      (j : ℕ)
      → get_or (swap perm i r) j 0
        ≡ (if j == r then get_or perm i 0 else if j == i then get_or perm r 0 else get_or perm j 0)
  at j = swap-at perm i r j (omega (arith, u.sized)) (omega (arith, u.sized))

  swap-Undone : Undone n (swap perm i r) swapped
  unfolding swapped
  swap-Undone = record {
    sized = omega (arith, length-swap perm i r, u.sized);
    at-lt = λ k h. ground (arith, at k, u.at-lt k, u.at-lt i, u.at-lt r);
    undo-lt = λ k h. ground (arith, u.undo-lt k);
    undo-at = λ k h. ground (arith, at k, u.undo-at k, u.undo-at i, u.undo-at r);
    at-undo = λ k h. ground (arith, at i, at r, at (undo k), u.at-undo k, u.undo-at i, u.undo-at r);
  }

-- Below 2 ^ 32, every round keeps a permutation, whatever position in the rest is drawn.
shuffle-Undone :
    (pick : ℕ → ℕ) (n rounds i : ℕ) (perm : List ℕ) (undo : ℕ → ℕ)
    → n < 2 ^ 32
    → i + rounds ≡ n
    → ((j : ℕ) → j < n → pick j < n)
    → Undone n perm undo
    → (end : ℕ → ℕ) × Undone n (shuffle pick rounds i perm) end
unfolding shuffle
shuffle-Undone pick n zero i perm undo w e h u = (undo, u)
shuffle-Undone pick n (suc rounds) i perm undo w e h u =
    shuffle-Undone pick n rounds (next i) (swap perm i (pick i)) _ w (omega (arith, e, w)) h
      (swap-Undone u i (pick i) (omega (arith, e)) (h i (omega (arith, e))))

module _ {n : ℕ} {perm : List ℕ} {undo : ℕ → ℕ} (u : Undone n perm undo) where
  length-collect_inverse :
      (rounds i : ℕ) (inv : List ℕ) → length (collect_inverse perm rounds i inv) ≡ length inv
  unfolding collect_inverse
  length-collect_inverse zero i inv = refl
  length-collect_inverse (suc rounds) i inv =
      length-collect_inverse rounds (next i) (set inv (get_or perm i 0) i)
      ∙ length-set inv (get_or perm i 0) i

  -- The positions seen so far are undone by the table.
  Collected : ℕ → List ℕ → Type 0
  Collected i inv = (k : ℕ) → k < i → get_or inv (get_or perm k 0) 0 ≡ k

  collect-step :
      (i : ℕ) (inv : List ℕ)
      → n < 2 ^ 32
      → i < n
      → length inv ≡ n
      → Collected i inv
      → Collected (next i) (set inv (get_or perm i 0) i)
  unfolding Collected
  collect-step i inv w h e c k hk = ground (
    arith,
    get_or-set inv (get_or perm i 0) (get_or perm k 0) i 0,
    u.at-lt i,
    u.undo-at i,
    u.undo-at k,
    c k,
  )

  collect_inverse-Collected :
      (rounds i : ℕ) (inv : List ℕ)
      → n < 2 ^ 32
      → i + rounds ≡ n
      → length inv ≡ n
      → Collected i inv
      → Collected n (collect_inverse perm rounds i inv)
  unfolding collect_inverse
  collect_inverse-Collected zero i inv w e l c = unfold Collected in λ k hk. c k (omega (arith, e))
  collect_inverse-Collected (suc rounds) i inv w e l c =
      collect_inverse-Collected rounds (next i) (set inv (get_or perm i 0) i) w
        (omega (arith, e, w)) (length-set inv (get_or perm i 0) i ∙ l)
        (collect-step i inv w (omega (arith, e)) l c)

  -- At the position that `undo` names, the table has that position.
  at-Collected : (inv : List ℕ) → Collected n inv → (j : ℕ) → j < n → get_or inv j 0 ≡ undo j
  unfolding Collected
  at-Collected inv c j h =
      ap (λ m. get_or inv m 0) (sym (u.at-undo j h)) ∙ c (undo j) (u.undo-lt j h)

  Undone-IsPermutation :
      (inv : List ℕ) → length inv ≡ n → Collected n inv → IsPermutation n perm inv
  unfolding Collected
  Undone-IsPermutation inv l c = record {
    perm_size = u.sized;
    inverse_size = l;
    perm-lt = u.at-lt;
    inverse-lt = λ i h. rw (at-Collected inv c i h) (u.undo-lt i h);
    inverse-perm = c;
    perm-inverse = λ i h. rw (at-Collected inv c i h) (u.at-undo i h);
  }

-- For `n` below 2 ^ 32, whatever positions below `n` the random source draws, the two tables are a
-- permutation of the positions below `n` and its inverse, in both directions.
pub generate_random_permutation-IsPermutation :
    (pick : ℕ → ℕ) (n : ℕ)
    → n < 2 ^ 32
    → ((i : ℕ) → i < n → pick i < n)
    → let tables = generate_random_permutation pick n in IsPermutation n tables.0 tables.1
unfolding generate_random_permutation
generate_random_permutation-IsPermutation pick n w h =
    let perm = shuffle pick n 0 (identity_from 0 n) in
    let (undo, u) =
      shuffle-Undone pick n n 0 (identity_from 0 n) (λ i. i) w (omega arith) h
        (identity-Undone n) in
    Undone-IsPermutation u (collect_inverse perm n 0 (replicate n 0))
      (length-collect_inverse u n 0 (replicate n 0) ∙ length-replicate n 0)
      (collect_inverse-Collected u n 0 (replicate n 0) w (omega arith) (length-replicate n 0)
        (unfold Collected in λ k hk. absurd (omega (arith, hk))))
