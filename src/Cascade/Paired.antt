-- ===== src/Cascade/Paired.antt =====
-- Both sides of the error correction, bin/modules/qkd-cascade: the checkers of the two frames, one by
-- one, follow the two keys.
use ait_qkd.Prelude.{
  ℕ, ◌<◌, ◌≡◌, sym, ap, ◌∙◌, List, Bool, true, false, not, inl, inr, Bool-cases, ◌==◌, ==_iff,
  if◌then◌else◌, length, get_or, set, get_or-set, arith,
}
use mathlib.Core.Path.{subst}
use ait_qkd.Cascade.Permutation.{IsPermutation}
use ait_qkd.Cascade.Frame.{◌xor◌, ParityBlock, Checker, contains, insert, correct_bit}
use ait_qkd.Cascade.Parity.{IsTracked}
use ait_qkd.Cascade.Peers.{Peers}
use ait_qkd.Cascade.Flipping.{Starts, contains-insert, insert-Distinct}

-- The bits of a key in the order of a checker.
abbrev pub bits_of : List Bool → Checker → ℕ → Bool
bits_of key c i = get_or key (get_or c.inv_perm i 0) false

-- A checker of alice and that of bob, over the same permutation of the positions below `n` with the
-- inverse `inv`, follow the two keys. What bob has turned since the checker was made is known to be
-- correct.
pub record Paired (n : ℕ) (inv : List ℕ) (key_a key_b : List Bool) (a b : Checker) : Type 0 where
  pub peers : Peers a b n (bits_of key_a a) (bits_of key_b b)
  pub same_perm : a.perm ≡ b.perm
  pub same_inv_perm : a.inv_perm ≡ b.inv_perm
  pub table : b.inv_perm ≡ inv
  pub is_permutation : IsPermutation n b.perm b.inv_perm
  pub starts_a : Starts a.parity_blocks
  pub starts_b : Starts b.parity_blocks
  pub is_alice : a.is_bob ≡ false
  pub is_bob : b.is_bob ≡ true
  pub changed_known : (i : ℕ) → contains i b.changed_bits ≡ true → contains i b.correct_bits ≡ true

-- The checkers after bob has turned the bit at `p`.
abbrev pub noted : ℕ → List ParityBlock → List ParityBlock → Checker → Checker
noted p blocks odd c = record c {
  parity_blocks = blocks;
  odd_parity_blocks = odd;
  correct_bits = insert (get_or c.perm p 0) c.correct_bits;
}

abbrev pub turned : ℕ → List ParityBlock → List ParityBlock → Checker → Checker
turned p blocks odd c = record (noted p blocks odd c) {
  changed_bits = insert (get_or c.perm p 0) c.changed_bits;
}

pub no_difference : {x y : Bool} → x ≡ y → x xor y ≡ true → ⊥
no_difference e d = ground (arith, e, d)

==-same : (i j k m : ℕ) → (i ≡ j → k ≡ m) → (k ≡ m → i ≡ j) → (i == j) ≡ (k == m)
==-same i j k m f g = elim (Bool-cases (i == j)) [
  | inl e ↦ e ∙ sym ((==_iff k m).1 (f ((==_iff i j).0 e)))
  | inr e ↦ elim (Bool-cases (k == m)) [
    | inl d ↦ absurd (ground (arith, e, g ((==_iff k m).0 d)))
    | inr d ↦ e ∙ sym d
  ]
]

module _ {n : ℕ} {inv : List ℕ} {key_a key_b : List Bool} {a b : Checker}
    (h : Paired n inv key_a key_b a b) (p : ℕ) (inside : p < n) (size_b : length key_b ≡ n)
    (differs : get_or key_a p false xor get_or key_b p false ≡ true)
    (blocks_a odd_a blocks_b odd_b : List ParityBlock) (starts_a : Starts blocks_a)
    (starts_b : Starts blocks_b) where
  q : ℕ
  q = get_or b.perm p 0

  abbrev key' : List Bool
  key' = set key_b p (not (get_or key_b p false))

  known_equal :
      (i : ℕ)
      → contains i b.correct_bits ≡ true
      → get_or key_a (get_or b.inv_perm i 0) false ≡ get_or key_b (get_or b.inv_perm i 0) false
  known_equal i c =
      ap (λ inv. get_or key_a (get_or inv i 0) false) (sym h.same_inv_perm)
      ∙ h.peers.known i (ap (contains i) h.peers.same_known ∙ c)

  -- A known position is not the one that is turned.
  known_other : (i : ℕ) → contains i b.correct_bits ≡ true → (p == get_or b.inv_perm i 0) ≡ false
  known_other i c = elim (Bool-cases (p == get_or b.inv_perm i 0)) [
    | inr e ↦ e
    | inl e ↦ absurd (
        no_difference
          (subst (λ j. get_or key_a j false ≡ get_or key_b j false)
            (sym ((==_iff p (get_or b.inv_perm i 0)).0 e)) (known_equal i c))
          differs)
  ]

  at_position : (i : ℕ) → i < n → (p == get_or b.inv_perm i 0) ≡ (q == i)
  unfolding q
  at_position i lt =
      ==-same p (get_or b.inv_perm i 0) q i
        (λ e. ap (λ j. get_or b.perm j 0) e ∙ h.is_permutation.perm-inverse i lt)
        (λ e. sym (h.is_permutation.inverse-perm p inside) ∙ ap (λ j. get_or b.inv_perm j 0) e)

  new_unknown : contains q b.correct_bits ≡ false
  unfolding q
  new_unknown = elim (Bool-cases (contains q b.correct_bits)) [
    | inr e ↦ e
    | inl e ↦ absurd (ground (arith, known_other q e, h.is_permutation.inverse-perm p inside))
  ]

  bit_after :
      (i : ℕ)
      → bits_of key' b i
        ≡ (if p == get_or b.inv_perm i 0 then not (get_or key_b p false) else bits_of key_b b i)
  bit_after i =
      get_or-set key_b p (get_or b.inv_perm i 0) (not (get_or key_b p false)) false
        (omega (arith, inside, size_b))

  bit_turned :
      (i : ℕ) → (p == get_or b.inv_perm i 0) ≡ true → bits_of key' b i ≡ get_or key_a p false
  bit_turned i e = ground (arith, bit_after i, e, differs)

  bit_same :
      (i : ℕ) → (p == get_or b.inv_perm i 0) ≡ true → get_or key_b p false ≡ bits_of key_b b i
  bit_same i e = ap (λ j. get_or key_b j false) ((==_iff p (get_or b.inv_perm i 0)).0 e)

  alice_same :
      (i : ℕ)
      → (p == get_or b.inv_perm i 0) ≡ true
      → get_or key_a p false ≡ get_or key_a (get_or b.inv_perm i 0) false
  alice_same i e = ap (λ j. get_or key_a j false) ((==_iff p (get_or b.inv_perm i 0)).0 e)

  turned-IsTracked :
      IsTracked
        (turned p blocks_b odd_b b)
        h.peers.start_b
        (bits_of key' (turned p blocks_b odd_b b))
  unfolding q
  turned-IsTracked = record {
    sums_are = h.peers.tracked_b.sums_are;
    fits = h.peers.tracked_b.fits;
    distinct = insert-Distinct q b.changed_bits h.peers.tracked_b.distinct;
    now_is = λ i lt. ground (
      arith,
      bit_after i,
      at_position i (omega (arith, lt, h.peers.size_b)),
      contains-insert i (get_or b.perm p 0) b.changed_bits,
      h.peers.tracked_b.now_is i lt,
      h.changed_known i,
      known_other i,
      bit_same i,
    );
  }

  turned_here : (i : ℕ) → (q == i) ≡ true → (p == get_or b.inv_perm i 0) ≡ true
  unfolding q
  turned_here i e = (==_iff p (get_or b.inv_perm i 0)).1 (
      sym (h.is_permutation.inverse-perm p inside)
      ∙ ap (λ j. get_or b.inv_perm j 0) ((==_iff q i).0 e))

  known_still :
      (i : ℕ)
      → contains i b.correct_bits ≡ true
      → get_or key_a (get_or b.inv_perm i 0) false ≡ bits_of key' b i
  known_still i c = ground (arith, known_equal i c, known_other i c, bit_after i)

  same_inserted :
      insert (get_or a.perm p 0) a.correct_bits ≡ insert (get_or b.perm p 0) b.correct_bits
  same_inserted =
      ap (λ perm. insert (get_or perm p 0) a.correct_bits) h.same_perm
      ∙ ap (insert (get_or b.perm p 0)) h.peers.same_known

  in_b :
      (i : ℕ)
      → contains i (insert (get_or a.perm p 0) a.correct_bits) ≡ true
      → contains i (insert (get_or b.perm p 0) b.correct_bits) ≡ true
  in_b i c = ap (contains i) (sym same_inserted) ∙ c

  known_after :
      (i : ℕ)
      → contains i (insert (get_or a.perm p 0) a.correct_bits) ≡ true
      → bits_of key_a a i ≡ bits_of key' b i
  unfolding q
  known_after i c =
      ap (λ inv. get_or key_a (get_or inv i 0) false) h.same_inv_perm ∙ elim (Bool-cases (q == i)) [
        | inl e ↦
            let here : (p == get_or b.inv_perm i 0) ≡ true = turned_here i e in
            sym (alice_same i here) ∙ sym (bit_turned i here)
        | inr e ↦ known_still i (ground (arith, contains-insert i q b.correct_bits, in_b i c, e))
      ]

  pub turned-Paired : Paired n inv key_a key' (noted p blocks_a odd_a a) (turned p blocks_b odd_b b)
  turned-Paired = record {
    peers = record {
      start_a = h.peers.start_a;
      start_b = h.peers.start_b;
      size_a = h.peers.size_a;
      size_b = h.peers.size_b;
      tracked_a = record {
        sums_are = h.peers.tracked_a.sums_are;
        fits = h.peers.tracked_a.fits;
        distinct = h.peers.tracked_a.distinct;
        now_is = h.peers.tracked_a.now_is;
      };
      tracked_b = turned-IsTracked;
      same_known = same_inserted;
      distinct = insert-Distinct (get_or a.perm p 0) a.correct_bits h.peers.distinct;
      known = known_after;
    };
    same_perm = h.same_perm;
    same_inv_perm = h.same_inv_perm;
    table = h.table;
    is_permutation = h.is_permutation;
    is_alice = h.is_alice;
    is_bob = h.is_bob;
    starts_a = starts_a;
    starts_b = starts_b;
    changed_known = λ i c. ground (
      arith,
      c,
      contains-insert i (get_or b.perm p 0) b.changed_bits,
      contains-insert i (get_or b.perm p 0) b.correct_bits,
      h.changed_known i,
    );
  }

-- A bit on which the two sides agree is noted as correct.
module _ {n : ℕ} {inv : List ℕ} {key_a key_b : List Bool} {a b : Checker}
    (h : Paired n inv key_a key_b a b) (p : ℕ) (inside : p < n)
    (same : get_or key_a p false ≡ get_or key_b p false) where
  agree_after :
      (i : ℕ)
      → contains i (insert (get_or a.perm p 0) a.correct_bits) ≡ true
      → bits_of key_a a i ≡ bits_of key_b b i
  agree_after i c = elim (Bool-cases (get_or a.perm p 0 == i)) [
    | inr e ↦
        h.peers.known i (ground (arith, contains-insert i (get_or a.perm p 0) a.correct_bits, c, e))
    | inl e ↦
        let there : get_or b.inv_perm i 0 ≡ p =
          ap (λ j. get_or b.inv_perm j 0)
            (sym ((==_iff (get_or a.perm p 0) i).0 e) ∙ ap (λ perm. get_or perm p 0) h.same_perm)
          ∙ h.is_permutation.inverse-perm p inside in
        ap (λ inv. get_or key_a (get_or inv i 0) false) h.same_inv_perm
        ∙ ap (λ j. get_or key_a j false) there
        ∙ same
        ∙ ap (λ j. get_or key_b j false) (sym there)
  ]

  pub correct_bit-Paired : Paired n inv key_a key_b (correct_bit p a) (correct_bit p b)
  unfolding correct_bit
  correct_bit-Paired = record {
    peers = record {
      start_a = h.peers.start_a;
      start_b = h.peers.start_b;
      size_a = h.peers.size_a;
      size_b = h.peers.size_b;
      tracked_a = record {
        sums_are = h.peers.tracked_a.sums_are;
        fits = h.peers.tracked_a.fits;
        distinct = h.peers.tracked_a.distinct;
        now_is = h.peers.tracked_a.now_is;
      };
      tracked_b = record {
        sums_are = h.peers.tracked_b.sums_are;
        fits = h.peers.tracked_b.fits;
        distinct = h.peers.tracked_b.distinct;
        now_is = h.peers.tracked_b.now_is;
      };
      same_known =
          ap (λ perm. insert (get_or perm p 0) a.correct_bits) h.same_perm
          ∙ ap (insert (get_or b.perm p 0)) h.peers.same_known;
      distinct = insert-Distinct (get_or a.perm p 0) a.correct_bits h.peers.distinct;
      known = agree_after;
    };
    same_perm = h.same_perm;
    same_inv_perm = h.same_inv_perm;
    table = h.table;
    is_permutation = h.is_permutation;
    is_alice = h.is_alice;
    is_bob = h.is_bob;
    starts_a = h.starts_a;
    starts_b = h.starts_b;
    changed_known = λ i c.
        ground (arith, h.changed_known i c, contains-insert i (get_or b.perm p 0) b.correct_bits);
  }
