-- ===== src/Cascade/Splitting.antt =====
-- The first loop of a round of `correct_blocks`, bin/modules/qkd-cascade/parity-checker.cpp, on both
-- sides: the blocks of one bit are corrected, and the others halved.
use ait_qkd.Prelude.{
  ℕ, zero, suc, ◌+◌, ◌^◌, ◌≤◌, ◌<◌, ◌≡◌, ◌≢◌, refl, sym, ap, ap₂, ◌∙◌, List, [], ◌∷◌, Bool, true,
  false, not, inl, inr, ◌⊎◌, Bool-cases, ltb, ◌==◌, ==_iff, length, get_or, set, get_or-set, arith,
  All, some, ◌>>=◌, Both, Both-bind, Both-map,
}
use mathlib.Core.Path.{subst}
use ait_qkd.Cascade.Frame.{◌xor◌, ParityBlock, Checker, Frame, get_bit}
use ait_qkd.Cascade.Checker.{count_correct_bits_in_block}
use ait_qkd.Cascade.Correct.{own, half_to_compare, Halves, halve, correct_single}
use ait_qkd.Cascade.Parity.{parity, parity-same}
use ait_qkd.Cascade.Peers.{true_differences}
use ait_qkd.Cascade.Paired.{Paired}
use ait_qkd.Cascade.Together.{Together, errors}
use ait_qkd.Cascade.Turning.{correct_single-Together}
use ait_qkd.Cascade.Halving.{half-Compared, half-inside}
use ait_qkd.Cascade.Announcing.{differ_at, own-Paired}
use ait_qkd.Cascade.Descending.{AllHalved}

-- A block in which the keys differ at an odd number of bits.
pub record HasError (bit : ℕ → Bool) (n : ℕ) (b : ParityBlock) : Type 0 where
  pub differs : parity bit b.offset b.size ≡ true
  pub inside : b.offset + b.size ≤ n
  pub fits : b.size + 1 < 2 ^ 32

abbrev pub Disjoint : ParityBlock → ParityBlock → Type 0
Disjoint b c = (b.offset + b.size ≤ c.offset) ⊎ (c.offset + c.size ≤ b.offset)

pub Disjoint-sym : (b c : ParityBlock) → Disjoint b c → Disjoint c b
Disjoint-sym b c (inl lt) = inr lt
Disjoint-sym b c (inr lt) = inl lt

-- No two of the blocks overlap.
unfoldable pub Apart : List ParityBlock → Type 0
Apart [] = Unit
Apart (b ∷ bs) = All (Disjoint b) bs × Apart bs

module _ (n : ℕ) (tables : List (List ℕ)) (i : ℕ) (there : i < length tables) where
  abbrev pub differ_in : Frame → Frame → ℕ → Bool
  differ_in f g = differ_at tables i f.key g.key

  -- What the first loop of a round leaves.
  pub record Split (f g : Frame) (bs : List ParityBlock) (r s : Halves) : Type 0 where
    pub left : r.left ≡ s.left
    pub calc : r.calc ≡ s.calc
    pub together : Together n tables r.frame s.frame
    pub key_a : r.frame.key ≡ f.key
    pub fewer : errors r.frame.key s.frame.key + length bs ≡ errors f.key g.key + length r.left
    pub elsewhere :
        (c : ParityBlock)
        → c.offset + c.size ≤ n
        → All (Disjoint c) bs
        → parity (differ_in r.frame s.frame) c.offset c.size
          ≡ parity (differ_in f g) c.offset c.size
    pub no_larger : (m : ℕ) → All (λ b. b.size ≤ m) bs → All (λ b. b.size ≤ m) r.left
    pub no_other : (c : ParityBlock) → All (Disjoint c) bs → All (Disjoint c) r.left
    pub apart : Apart r.left
    pub within : All (λ k. k.offset + k.size ≤ n) r.calc
    pub halved :
        AllHalved i
          (differ_in r.frame s.frame)
          n
          r.left
          (true_differences (differ_in r.frame s.frame) r.calc)

  half-same :
      (f g : Frame) (b : ParityBlock)
      → Together n tables f g
      → half_to_compare i f b ≡ half_to_compare i g b
  unfolding half_to_compare count_correct_bits_in_block
  half-same f g b h =
      rw (h.size_a, h.size_b, (own-Paired n tables f.key g.key i there f g h).peers.same_known) refl

  undone :
      {key_a key_b : List Bool} {a b : Checker}
      → Paired n (get_or tables i []) key_a key_b a b
      → (q : ℕ) → q < n
      → get_or b.perm (get_or (get_or tables i []) q 0) 0 ≡ q
  undone {b = b} pair q lt =
      ap (λ inv. get_or b.perm (get_or inv q 0) 0) (sym pair.table)
      ∙ pair.is_permutation.perm-inverse q lt

  -- A turned bit is not seen elsewhere.
  differ-elsewhere :
      (f g : Frame) (o q : ℕ) (bit : Bool)
      → Together n tables f g
      → o < n
      → q < n
      → o ≢ q
      → differ_at tables i f.key (set g.key (get_or (get_or tables i []) o 0) bit) q
        ≡ differ_in f g q
  differ-elsewhere f g o q bit h lo lq ne =
      let pair = own-Paired n tables f.key g.key i there f g h in
      let table = get_or tables i [] in
      let moved : (get_or table o 0 == get_or table q 0) ≡ false =
        elim (Bool-cases (get_or table o 0 == get_or table q 0)) [
          | inr e ↦ e
          | inl e ↦ absurd (
              ne (
                sym (undone pair o lo)
                ∙ ap (λ p. get_or (own i g).perm p 0) ((==_iff _ _).0 e)
                ∙ undone pair q lq))
        ] in
      ap (◌xor◌ (get_or f.key (get_or table q 0) false)) (
        get_or-set g.key (get_or table o 0) (get_or table q 0) bit false (
          subst (λ m. get_or table o 0 < m) (sym h.size_b)
            (subst (λ inv. get_or inv o 0 < n) pair.table (pair.is_permutation.inverse-lt o lo)))
        ∙ rw moved refl)

  one_bit :
      (bit : ℕ → Bool) (o size : ℕ)
      → ltb 1 size ≡ false
      → parity bit o size ≡ true
      → (size ≡ 1) × (bit o ≡ true)
  unfolding parity
  one_bit bit o zero small d = absurd (ground (arith, d))
  one_bit bit o (suc zero) small d = (refl, ap bit {x = o} {y = o + 0} (omega arith) ∙ d)
  one_bit bit o (suc (suc size)) small d = absurd (ground (arith, small))

  -- The block `b` of one bit is corrected, and all other blocks are as before.
  corrected-elsewhere :
      (f g f' g' : Frame) (b c : ParityBlock)
      → Together n tables f g
      → b.offset < n
      → b.size ≡ 1
      → f'.key ≡ f.key
      → g'.key
        ≡ set g.key
            (get_or (get_or tables i []) b.offset 0)
            (not (get_bit g (get_or (get_or tables i []) b.offset 0)))
      → c.offset + c.size ≤ n
      → Disjoint c b
      → parity (differ_in f' g') c.offset c.size ≡ parity (differ_in f g) c.offset c.size
  corrected-elsewhere f g f' g' b c t lt one key_a key_b inside d =
      parity-same (differ_in f' g') (differ_in f g) c.offset c.size (λ q lo hi.
        ap₂ (λ x y. differ_at tables i x y q) key_a key_b
        ∙ differ-elsewhere f g b.offset q _ t lt (omega (arith, hi, inside))
            (λ e. ground (arith, e, lo, hi, d, one)))

  halve-many :
      (b : ParityBlock) (bs : List ParityBlock) (f : Frame)
      → ltb 1 b.size ≡ true
      → halve i (b ∷ bs) f ≡ (do
        r ← halve i bs f
        some (record { left = b ∷ r.left; calc = half_to_compare i f b ∷ r.calc; frame = r.frame }))
  unfolding halve
  halve-many b bs f e = rw (halve, e) refl

  halve-one :
      (b : ParityBlock) (bs : List ParityBlock) (f : Frame)
      → ltb 1 b.size ≡ false
      → halve i (b ∷ bs) f ≡ (do f' ← correct_single i b f; halve i bs f')
  unfolding halve
  halve-one b bs f e = rw (halve, e) refl

  module _ (b : ParityBlock) (bs : List ParityBlock) (f g : Frame) (t : Together n tables f g)
      (wide : n < 2 ^ 32) (error : HasError (differ_in f g) n b)
      (others : All (Disjoint b) bs) where
    many-Split :
        (r s : Halves)
        → ltb 1 b.size ≡ true
        → Split f g bs r s
        → Split f g
            (b ∷ bs)
            (record { left = b ∷ r.left; calc = half_to_compare i f b ∷ r.calc; frame = r.frame })
            (record { left = b ∷ s.left; calc = half_to_compare i g b ∷ s.calc; frame = s.frame })
    unfolding Apart AllHalved
    many-Split r s e h =
        let ends : b.offset + b.size < 2 ^ 32 = omega (arith, error.inside, wide) in
        record {
          left = ap (◌∷◌ b) h.left;
          calc = ap₂ ◌∷◌ (half-same f g b t) h.calc;
          together = h.together;
          key_a = h.key_a;
          fewer = omega (arith, h.fewer);
          elsewhere = λ c inside d. h.elsewhere c inside d.1;
          no_larger = λ m d. (d.0, h.no_larger m d.1);
          no_other = λ c d. (d.0, h.no_other c d.1);
          apart = (h.no_other b others, h.apart);
          within = (
            omega (
              arith,
              half-inside i (differ_in f g) f b (ground (arith, e)) error.fits ends,
              error.inside,
            ),
            h.within,
          );
          halved = (
            record {
              odd = record {
                differs = h.elsewhere b error.inside others ∙ error.differs;
                inside = error.inside;
                splits = ground (arith, e);
                fits = error.fits;
              };
              ends = ends;
              compared = half-Compared i (differ_in r.frame s.frame) f b error.fits ends;
            },
            h.halved,
          );
        }

    one-Split :
        (f' g' : Frame) (r s : Halves)
        → b.size ≡ 1
        → (f'.key ≡ f.key)
          × (g'.key
              ≡ set g.key
                  (get_or (get_or tables i []) b.offset 0)
                  (not (get_bit g (get_or (get_or tables i []) b.offset 0))))
          × (suc (errors f'.key g'.key) ≡ errors f.key g.key)
        → Split f' g' bs r s
        → Split f g (b ∷ bs) r s
    one-Split f' g' r s one k h = record {
      left = h.left;
      calc = h.calc;
      together = h.together;
      key_a = h.key_a ∙ k.0;
      fewer = omega (arith, h.fewer, k.2);
      elsewhere = λ c inside d.
          h.elsewhere c inside d.1
          ∙ corrected-elsewhere f g f' g' b c t (omega (arith, error.inside, one)) one k.0 k.1
              inside d.0;
      no_larger = λ m d. h.no_larger m d.1;
      no_other = λ c d. h.no_other c d.1;
      apart = h.apart;
      within = h.within;
      halved = h.halved;
    }

  -- The same errors in the blocks that are apart from `b`.
  still-HasError :
      (f g f' g' : Frame) (b : ParityBlock) (bs : List ParityBlock)
      → ((c : ParityBlock)
          → c.offset + c.size ≤ n
          → Disjoint c b
          → parity (differ_in f' g') c.offset c.size ≡ parity (differ_in f g) c.offset c.size)
      → All (Disjoint b) bs
      → All (HasError (differ_in f g) n) bs
      → All (HasError (differ_in f' g') n) bs
  still-HasError f g f' g' b [] same d h = tt
  still-HasError f g f' g' b (c ∷ cs) same d h = (
    record {
      differs = same c h.0.inside (Disjoint-sym b c d.0) ∙ h.0.differs;
      inside = h.0.inside;
      fits = h.0.fits;
    },
    still-HasError f g f' g' b cs same d.1 h.1,
  )

  pub halve-Split :
      n < 2 ^ 32
      → (bs : List ParityBlock) (f g : Frame) → Together n tables f g
      → All (HasError (differ_in f g) n) bs
      → Apart bs
      → Both (halve i bs f) (halve i bs g) (Split f g bs)
  unfolding Apart AllHalved get_bit
  halve-Split wide [] f g t h a =
      unfold halve in
      record {
        left = refl;
        calc = refl;
        together = t;
        key_a = refl;
        fewer = refl;
        elsewhere = λ c _ _. refl;
        no_larger = λ m h. h;
        no_other = λ c h. h;
        apart = tt;
        within = tt;
        halved = tt;
      }
  halve-Split wide (b ∷ bs) f g t h a = elim (Bool-cases (ltb 1 b.size)) [
    | inl e ↦
        rw (halve-many b bs f e, halve-many b bs g e)
          (Both-bind (Split f g bs) (Split f g (b ∷ bs)) (halve i bs f) (halve i bs g) _ _
            (halve-Split wide bs f g t h.1 a.1)
            (λ r s k. many-Split b bs f g t wide h.0 a.0 r s e k))
    | inr e ↦
        let is_one = one_bit (differ_in f g) b.offset b.size e h.0.differs in
        let lt : b.offset < n = omega (arith, h.0.inside, is_one.0) in
        rw (halve-one b bs f e, halve-one b bs g e)
          (Both-bind _ (Split f g (b ∷ bs)) (correct_single i b f) (correct_single i b g) _ _
            (correct_single-Together n tables f g i b t there lt is_one.1)
            (λ f' g' k.
              Both-map (Split f' g' bs) (Split f g (b ∷ bs)) (halve i bs f') (halve i bs g')
                (λ r s. one-Split b bs f g t wide h.0 a.0 f' g' r s is_one.0 (k.1, k.2, k.3))
                (halve-Split wide bs f' g' k.0
                  (still-HasError f g f' g' b bs
                    (λ c inside. corrected-elsewhere f g f' g' b c t lt is_one.0 k.1 k.2 inside) a.0
                    h.1)
                  a.1)))
  ]
