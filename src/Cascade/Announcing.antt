-- ===== src/Cascade/Announcing.antt =====
-- The announcements of bin/modules/qkd-cascade/parity-checker.cpp on both sides: a block of one bit
-- without a difference is told to all checkers.
use ait_qkd.Prelude.{
  ℕ, ◌+◌, ◌≤◌, ◌<◌, ◌≡◌, refl, sym, ap, ap₂, ◌∙◌, List, [], ◌∷◌, Bool, true, false, not, ◌&&◌, inl,
  inr, Bool-cases, leb, ◌==◌, ==_iff, if◌then◌else◌, length, get_or, arith, All,
}
use mathlib.Core.Path.{subst}
use ait_qkd.Cascade.Frame.{◌xor◌, ParityBlock, Checker, Frame, contains, notify_correct_bit}
use ait_qkd.Cascade.Checker.{announce, write_back, count_marked}
use ait_qkd.Cascade.Correct.{own}
use ait_qkd.Cascade.Parity.{parity}
use ait_qkd.Cascade.Paired.{Paired}
use ait_qkd.Cascade.Together.{Together, correct_bit-AllPaired, at-Paired}

-- The two sides are in step, and their keys are these.
abbrev pub At : ℕ → List (List ℕ) → List Bool → List Bool → Frame → Frame → Type 0
At n tables key_a key_b f g = Together n tables f g × (f.key ≡ key_a) × (g.key ≡ key_b)

-- Whether the keys differ at a position of the order of checker `i`.
abbrev pub differ_at : List (List ℕ) → ℕ → List Bool → List Bool → ℕ → Bool
differ_at tables i key_a key_b q =
    let p = get_or (get_or tables i []) q 0 in get_or key_a p false xor get_or key_b p false

pub outside : (n p : ℕ) (f : Frame) → p < n → length f.key ≡ n → leb (length f.key) p ≡ false
outside n p f inside e = ground (arith, e, inside)

equal_bits : (x y : Bool) → x xor y ≡ false → x ≡ y
equal_bits true true e = refl
equal_bits true false e = ground (arith, e)
equal_bits false true e = ground (arith, e)
equal_bits false false e = refl

module _ (n : ℕ) (tables : List (List ℕ)) (key_a key_b : List Bool) where
  notify_correct_bit-At :
      (p : ℕ) (f g : Frame)
      → p < n
      → get_or key_a p false xor get_or key_b p false ≡ false
      → At n tables key_a key_b f g
      → At n tables key_a key_b (notify_correct_bit p f) (notify_correct_bit p g)
  unfolding notify_correct_bit
  notify_correct_bit-At p f g inside same h =
      rw (outside n p f inside h.0.size_a, outside n p g inside h.0.size_b)
        (
          record {
            size_a = h.0.size_a;
            size_b = h.0.size_b;
            paired =
                correct_bit-AllPaired n f.key g.key p inside tables f.checkers g.checkers
                  (equal_bits _ _
                    (ap₂ (λ a b. get_or a p false xor get_or b p false) h.1 h.2 ∙ same))
                  h.0.paired;
          },
          h.1,
          h.2,
        )

  module _ (i : ℕ) (there : i < length tables) where
    pub own-Paired :
        (f g : Frame)
        → Together n tables f g
        → Paired n (get_or tables i []) f.key g.key (own i f) (own i g)
    unfolding own
    own-Paired f g h = at-Paired _ _ tables f.checkers g.checkers i there h.paired

    -- What a block says is how its bits differ.
    abbrev pub Judged : ParityBlock → Type 0
    Judged b =
        (b.offset + b.size ≤ n)
        × (b.diffparity ≡ parity (differ_at tables i key_a key_b) b.offset b.size)

    one_bit :
        (b : ParityBlock)
        → Judged b
        → b.size ≡ 1
        → b.diffparity ≡ false
        → differ_at tables i key_a key_b b.offset ≡ false
    unfolding parity
    one_bit b j s d =
        ap (differ_at tables i key_a key_b) {x = b.offset} {y = b.offset + 0} (omega arith)
        ∙ ap (parity (differ_at tables i key_a key_b) b.offset) (sym s)
        ∙ sym j.1
        ∙ d

    announced : Checker → ParityBlock → Bool
    announced c b = not b.diffparity && (b.size == 1 && not (contains b.offset c.correct_bits))

    pub announce-At :
        (b : ParityBlock) (f g : Frame)
        → Judged b
        → At n tables key_a key_b f g
        → At n tables key_a key_b (announce (own i) b f) (announce (own i) b g)
    unfolding announce announced
    announce-At b f g j h =
        let pair : Paired n (get_or tables i []) f.key g.key (own i f) (own i g) =
          own-Paired f g h.0 in
        let p = get_or (get_or tables i []) b.offset 0 in
        rw (pair.peers.same_known, pair.same_inv_perm, pair.table)
          (elim (Bool-cases (announced (own i g) b)) [
            | inr e ↦ rw e h
            | inl e ↦
                let s : (b.size == 1) ≡ true = ground (arith, e) in
                rw e (
                  notify_correct_bit-At p f g
                    (subst (λ inv. get_or inv b.offset 0 < n) pair.table
                      (pair.is_permutation.inverse-lt b.offset
                        (omega (arith, j.0, (==_iff b.size 1).0 s))))
                    (one_bit b j ((==_iff b.size 1).0 s) (ground (arith, e))) h)
          ])

-- The frame after the marked ones of the blocks `ks` have turned into those of `rs`.
unfoldable pub announce_all :
    (Frame → Checker) → List ParityBlock → List ParityBlock → Frame → Frame
announce_all reader (k ∷ ks) (r ∷ rs) f =
    announce_all reader ks rs (if k.diffparity then announce reader r f else f)
announce_all reader _ _ f = f

pub write_back-announce_all :
    (reader : Frame → Checker) (sum : Bool) (ds : List ℕ) (ks : List ParityBlock) (f : Frame)
    → (write_back reader sum ds ks f).1 ≡ announce_all reader ks (write_back reader sum ds ks f).0 f
unfolding write_back announce_all
write_back-announce_all reader sum ds [] f = refl
write_back-announce_all reader sum [] (k ∷ ks) f = elim (Bool-cases k.diffparity) [
  | inl e ↦ rw e (write_back-announce_all reader sum [] ks _)
  | inr e ↦ rw e (write_back-announce_all reader sum [] ks f)
]
write_back-announce_all reader sum (d ∷ ds) (k ∷ ks) f = elim (Bool-cases k.diffparity) [
  | inl e ↦ rw e (write_back-announce_all reader (sum xor not (d == 0)) ds ks _)
  | inr e ↦ rw e (write_back-announce_all reader sum (d ∷ ds) ks f)
]

pub announce_all-At :
    (n : ℕ) (tables : List (List ℕ)) (key_a key_b : List Bool) (i : ℕ) (there : i < length tables)
    (ks rs : List ParityBlock) (f g : Frame)
    → All (Judged n tables key_a key_b i there) rs
    → At n tables key_a key_b f g
    → At n tables key_a key_b (announce_all (own i) ks rs f) (announce_all (own i) ks rs g)
unfolding announce_all
announce_all-At n tables key_a key_b i there [] rs f g j h = h
announce_all-At n tables key_a key_b i there (k ∷ ks) [] f g j h = h
announce_all-At n tables key_a key_b i there (k ∷ ks) (r ∷ rs) f g j h =
    announce_all-At n tables key_a key_b i there ks rs _ _ j.1 (elim (Bool-cases k.diffparity) [
      | inl e ↦ rw e (announce-At n tables key_a key_b i there r f g j.0 h)
      | inr e ↦ rw e h
    ])

pub announce_all-none :
    (reader : Frame → Checker) (ks rs : List ParityBlock) (f : Frame)
    → count_marked ks ≡ 0
    → announce_all reader ks rs f ≡ f
unfolding announce_all count_marked
announce_all-none reader [] rs f e = refl
announce_all-none reader (k ∷ ks) [] f e = refl
announce_all-none reader (k ∷ ks) (r ∷ rs) f e = elim (Bool-cases k.diffparity) [
  | inl d ↦ absurd (ground (arith, d, e))
  | inr d ↦ rw d (announce_all-none reader ks rs f (ground (arith, d, e)))
]
