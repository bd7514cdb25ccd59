-- ===== src/Cascade/Parity.antt =====
-- The parity of a block, bin/modules/qkd-cascade/parity-checker.cpp: the sums made at the start and
-- the set of changed bits give the parity of the bits as they are now.
use ait_qkd.Prelude.{
  ℕ, zero, suc, ◌+◌, ◌%◌, ◌^◌, ◌≤◌, ◌<◌, ◌≡◌, refl, ◌∙◌, ap, List, [], ◌∷◌, Bool, true, false, not,
  inl, inr, Bool-cases, ◌==◌, ==_iff, if◌then◌else◌, length, get_or, arith,
}
use native.Mathlib.Nat.{zero-add, add-zero, add-suc, add_assoc}
use ait_qkd.Cascade.Frame.{◌xor◌, block_end, ParityBlock, Checker, contains, count_in}
use ait_qkd.Cascade.Checker.{partial_sums, block_parity}

-- The parity of `size` bits from `offset` on.
unfoldable pub parity : (ℕ → Bool) → ℕ → ℕ → Bool
parity bit offset zero = false
parity bit offset (suc size) = parity bit offset size xor bit (offset + size)

pub xor_assoc : (a b c : Bool) → (a xor b) xor c ≡ a xor (b xor c)
xor_assoc true true true = refl
xor_assoc true true false = refl
xor_assoc true false c = refl
xor_assoc false b c = refl

-- No position stands twice.
abbrev pub Distinct : List ℕ → Type 0
Distinct [] = Unit
Distinct (p ∷ ps) = (contains p ps ≡ false) × Distinct ps

odd : ℕ → Bool
odd n = not (n % 2 == 0)

pub parity-xor :
    (a b : ℕ → Bool) (offset size : ℕ)
    → parity (λ i. a i xor b i) offset size ≡ parity a offset size xor parity b offset size
unfolding parity
parity-xor a b offset zero = refl
parity-xor a b offset (suc size) = ground (arith, parity-xor a b offset size)

pub parity-same :
    (a b : ℕ → Bool) (offset size : ℕ)
    → ((i : ℕ) → offset ≤ i → i < offset + size → a i ≡ b i)
    → parity a offset size ≡ parity b offset size
unfolding parity
parity-same a b offset zero h = refl
parity-same a b offset (suc size) h =
    ground
      (arith, parity-same a b offset size (λ i p q. h i p (omega (arith, q))), h (offset + size))

-- A set of positions grows by one where the range grows over one of them.
count_in-grows :
    (offset size : ℕ) (ps : List ℕ)
    → Distinct ps
    → count_in offset (offset + suc size) ps
      ≡ count_in offset (offset + size) ps + (if contains (offset + size) ps then 1 else 0)
unfolding count_in contains
count_in-grows offset size [] d = refl
count_in-grows offset size (p ∷ ps) d = ground (arith, count_in-grows offset size ps)

count_in-empty : (offset : ℕ) (ps : List ℕ) → count_in offset (offset + 0) ps ≡ 0
unfolding count_in
count_in-empty offset [] = refl
count_in-empty offset (p ∷ ps) = ground (arith, count_in-empty offset ps)

changes-parity :
    (offset size : ℕ) (ps : List ℕ)
    → Distinct ps
    → odd (count_in offset (offset + size) ps) ≡ parity (λ i. contains i ps) offset size
unfolding parity odd
changes-parity offset zero ps d = ground (arith, count_in-empty offset ps)
changes-parity offset (suc size) ps d =
    ground (arith, count_in-grows offset size ps, changes-parity offset size ps)

pub parity-append :
    (bit : ℕ → Bool) (offset m n : ℕ)
    → parity bit offset (m + n) ≡ parity bit offset m xor parity bit (offset + m) n
unfolding parity
parity-append bit offset m zero = ground (arith, add-zero m)
parity-append bit offset m (suc n) =
    rw (add-suc m n, parity)
      (ground (arith, parity-append bit offset m n, ap bit (add_assoc offset m n)))

parity-first :
    (b : Bool) (bs : List Bool) (n : ℕ)
    → parity (λ i. get_or (b ∷ bs) i false) 0 (suc n) ≡ b xor parity (λ i. get_or bs i false) 0 n
unfolding parity
parity-first b bs zero = ground arith
parity-first b bs (suc n) = ground (
  arith,
  parity-first b bs n,
  ap (λ k. get_or (b ∷ bs) k false) (zero-add (suc n)),
  ap (λ k. get_or bs k false) (zero-add n),
)

-- The sums are the parities of the first bits.
get_or-partial_sums :
    (sum : Bool) (bs : List Bool) (n : ℕ)
    → n ≤ length bs
    → get_or (partial_sums sum bs) n false ≡ sum xor parity (λ i. get_or bs i false) 0 n
unfolding partial_sums parity
get_or-partial_sums sum [] zero h = ground arith
get_or-partial_sums sum [] (suc n) h = absurd (omega arith)
get_or-partial_sums sum (b ∷ bs) zero h = ground arith
get_or-partial_sums sum (b ∷ bs) (suc n) h =
    ground (arith, get_or-partial_sums (sum xor b) bs n, parity-first b bs n)

difference :
    {a a' b b' d d' n : Bool} (z : Bool)
    → a ≡ a'
    → b ≡ b'
    → d ≡ d'
    → a' ≡ b' xor z
    → n ≡ z xor d'
    → (a xor b) xor d ≡ n
difference z p q r s t = ground (arith, p, q, r, s, t)

-- The sums of a checker were made of the bits `start`, fewer than 2 ^ 32, and its set of changed
-- bits, without repetition, is where the bits `now` differ from them.
pub record IsTracked (c : Checker) (start : List Bool) (now : ℕ → Bool) : Type 0 where
  pub sums_are : c.partial_parity_sums ≡ partial_sums false start
  pub fits : length start < 2 ^ 32
  pub distinct : Distinct c.changed_bits
  pub now_is :
      (i : ℕ) → i < length start → now i ≡ get_or start i false xor contains i c.changed_bits

module _ (c : Checker) (start : List Bool) (now : ℕ → Bool) (t : IsTracked c start now) where
  sum_at :
      (n : ℕ)
      → n ≤ length start
      → get_or c.partial_parity_sums n false ≡ parity (λ i. get_or start i false) 0 n
  sum_at n h = rw t.sums_are (get_or-partial_sums false start n h)

  -- The parity that a checker computes for a block within the key is the parity of the bits of the
  -- block as they are now, changes since the sums were made included.
  pub block_parity-parity :
      (b : ParityBlock)
      → b.offset + b.size ≤ length start
      → block_parity c b ≡ parity now b.offset b.size
  unfolding block_parity odd
  block_parity-parity b h =
      let first : ℕ → Bool = λ i. get_or start i false in
      let whole_end : block_end b ≡ b.offset + b.size = omega (arith, h, t.fits) in
      let changed : ℕ → Bool = λ i. contains i c.changed_bits in
      let total : parity first 0 (b.offset + b.size)
          ≡ parity first 0 b.offset xor parity first b.offset b.size =
        parity-append first 0 b.offset b.size
        ∙ ap (λ o. parity first 0 b.offset xor parity first o b.size) (zero-add b.offset) in
      let whole : parity now b.offset b.size
          ≡ parity first b.offset b.size xor parity changed b.offset b.size =
        parity-same now (λ i. first i xor changed i) b.offset b.size
          (λ i p q. t.now_is i (omega (arith, p, q, h)))
        ∙ parity-xor first changed b.offset b.size in
      difference (parity first b.offset b.size) (rw whole_end (sum_at (b.offset + b.size) h))
        (sum_at b.offset (omega (arith, h)))
        (rw whole_end (changes-parity b.offset b.size c.changed_bits t.distinct)) total whole

-- A range in which all bits are known holds only known bits.
count_in-le :
    (offset size : ℕ) (ps : List ℕ) → Distinct ps → count_in offset (offset + size) ps ≤ size
count_in-le offset zero ps d = omega (arith, count_in-empty offset ps)
count_in-le offset (suc size) ps d =
    ground (arith, count_in-grows offset size ps, count_in-le offset size ps)

pub count_in-all :
    (offset size : ℕ) (ps : List ℕ)
    → Distinct ps
    → count_in offset (offset + size) ps ≡ size
    → (i : ℕ) → offset ≤ i
    → i < offset + size
    → contains i ps ≡ true
count_in-all offset zero ps d e i lo hi = absurd (omega (arith, lo, hi))
count_in-all offset (suc size) ps d e i lo hi = elim (Bool-cases (i == offset + size)) [
  | inl last ↦
      let same : i ≡ offset + size = (==_iff i (offset + size)).0 last in
      rw same (ground (arith, count_in-grows offset size ps d, count_in-le offset size ps d, e))
  | inr other ↦
      count_in-all offset size ps d
        (ground (arith, count_in-grows offset size ps d, count_in-le offset size ps d, e)) i lo
        (ground (arith, hi, other))
]

pub parity-none :
    (bit : ℕ → Bool) (offset size : ℕ)
    → ((i : ℕ) → offset ≤ i → i < offset + size → bit i ≡ false)
    → parity bit offset size ≡ false
unfolding parity
parity-none bit offset zero h = refl
parity-none bit offset (suc size) h =
    ground
      (arith, parity-none bit offset size (λ i p q. h i p (omega (arith, q))), h (offset + size))
