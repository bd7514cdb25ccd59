-- ===== src/Cascade/Searching.antt =====
-- The rounds of `correct_blocks`, bin/modules/qkd-cascade/parity-checker.cpp, on both sides: every
-- block with an odd number of errors ends with one error corrected.
use ait_qkd.Prelude.{
  ℕ, ◌+◌, ◌≤◌, ◌<◌, ◌≡◌, refl, sym, ap, ap₂, ◌∙◌, List, [], ◌∷◌, Bool, true, false, length, get_or,
  All, some,
}
use mathlib.Core.Path.{subst}
use ait_qkd.Cascade.Frame.{◌xor◌, ParityBlock, Checker, Frame, contains}
use ait_qkd.Cascade.Checker.{
  Link, Calculated, mark_blocks, count_marked, own_parities, calculate_block_diffparities,
}
use ait_qkd.Cascade.Correct.{own}
use ait_qkd.Cascade.Parity.{parity-same, Distinct}
use ait_qkd.Cascade.Difference.{arrives, sends, sent_parities}
use ait_qkd.Cascade.Peers.{Peers, differ, true_differences, mark-same}
use ait_qkd.Cascade.Paired.{Paired, bits_of}
use ait_qkd.Cascade.Together.{Together}
use ait_qkd.Cascade.Announcing.{At, own-Paired, Judged, announce_all, announce_all-At}
use ait_qkd.Cascade.Splitting.{differ_in}
use ait_qkd.Cascade.Meeting.{counted, after_exchange, exchange-Runs}

xor_comm : (x y : Bool) → x xor y ≡ y xor x
xor_comm true true = refl
xor_comm true false = refl
xor_comm false true = refl
xor_comm false false = refl

-- The same from the other side.
Peers-sym :
    {a b : Checker} {n : ℕ} {now_a now_b : ℕ → Bool}
    → Peers a b n now_a now_b
    → Peers b a n now_b now_a
Peers-sym h = record {
  start_a = h.start_b;
  start_b = h.start_a;
  size_a = h.size_b;
  size_b = h.size_a;
  tracked_a = h.tracked_b;
  tracked_b = h.tracked_a;
  same_known = sym h.same_known;
  distinct = subst Distinct h.same_known h.distinct;
  known = λ i c. sym (h.known i (ap (contains i) h.same_known ∙ c));
}

true_differences-same :
    (d e : ℕ → Bool)
    → ((q : ℕ) → d q ≡ e q)
    → (ks : List ParityBlock) → true_differences d ks ≡ true_differences e ks
true_differences-same d e same [] = refl
true_differences-same d e same (k ∷ ks) =
    ap₂ (λ x xs. record k { diffparity = x } ∷ xs)
      (parity-same d e k.offset k.size (λ q _ _. same q)) (true_differences-same d e same ks)

module _ (n : ℕ) (tables : List (List ℕ)) (i : ℕ) (there : i < length tables) (f g : Frame)
    (t : Together n tables f g) where
  pair : Paired n (get_or tables i []) f.key g.key (own i f) (own i g)
  pair = own-Paired n tables f.key g.key i there f g t

  differ-own : (q : ℕ) → differ pair.peers q ≡ differ_in n tables i there f g q
  differ-own q =
      ap₂ (λ x y. get_or f.key (get_or x q 0) false xor get_or g.key (get_or y q 0) false)
        (pair.same_inv_perm ∙ pair.table) pair.table

  differ-other : (q : ℕ) → differ (Peers-sym pair.peers) q ≡ differ_in n tables i there f g q
  differ-other q = xor_comm (bits_of g.key (own i g) q) (bits_of f.key (own i f) q) ∙ differ-own q

  abbrev pub found : List ParityBlock → List ParityBlock
  found ks = true_differences (differ_in n tables i there f g) ks

  abbrev pub sent_a : List ParityBlock → List ℕ
  sent_a ks = sent_parities (own i f) n ks false

  abbrev pub sent_b : List ParityBlock → List ℕ
  sent_b ks = sent_parities (own i g) n ks false

  unfoldable pub done : List ParityBlock → Frame → Link → Calculated
  done ks x l = record {
    result = true;
    blocks = found ks;
    frame = after_exchange (own i) ks (found ks) x;
    link = l;
  }

  pub exchange_a :
      (ks : List ParityBlock)
      → All (λ k. k.offset + k.size ≤ n) ks
      → (rest sent : List (List ℕ))
      → calculate_block_diffparities
          (own i)
          ks
          false
          f
          (record { inbox = arrives (sent_b ks) rest; outbox = sent })
        ≡ some (done ks f (record { inbox = rest; outbox = sends (sent_a ks) sent }))
  unfolding done
  exchange_a ks inside rest sent =
      exchange-Runs pair.peers (own i) ks f _ rest refl t.size_a inside refl
      ∙ ap
          (λ rs. some (record {
            result = true;
            blocks = rs;
            frame = after_exchange (own i) ks rs f;
            link = record { inbox = rest; outbox = sends (sent_a ks) sent };
          }))
          (true_differences-same _ _ differ-own ks)

  pub exchange_b :
      (ks : List ParityBlock)
      → All (λ k. k.offset + k.size ≤ n) ks
      → (rest sent : List (List ℕ))
      → calculate_block_diffparities
          (own i)
          ks
          false
          g
          (record { inbox = arrives (sent_a ks) rest; outbox = sent })
        ≡ some (done ks g (record { inbox = rest; outbox = sends (sent_b ks) sent }))
  unfolding done
  exchange_b ks inside rest sent =
      exchange-Runs (Peers-sym pair.peers) (own i) ks g _ rest refl t.size_b inside refl
      ∙ ap
          (λ rs. some (record {
            result = true;
            blocks = rs;
            frame = after_exchange (own i) ks rs g;
            link = record { inbox = rest; outbox = sends (sent_b ks) sent };
          }))
          (true_differences-same _ _ differ-other ks)

  counted-At : (ps qs : List ℕ) → At n tables f.key g.key (counted ps f) (counted qs g)
  unfolding counted
  counted-At [] [] = (t, refl, refl)
  counted-At [] (q ∷ qs) =
      (record { size_a = t.size_a; size_b = t.size_b; paired = t.paired }, refl, refl)
  counted-At (p ∷ ps) [] =
      (record { size_a = t.size_a; size_b = t.size_b; paired = t.paired }, refl, refl)
  counted-At (p ∷ ps) (q ∷ qs) =
      (record { size_a = t.size_a; size_b = t.size_b; paired = t.paired }, refl, refl)

  found-Judged :
      (ks : List ParityBlock)
      → All (λ k. k.offset + k.size ≤ n) ks
      → All (Judged n tables f.key g.key i there) (found ks)
  found-Judged [] h = tt
  found-Judged (k ∷ ks) h = ((h.0, refl), found-Judged ks h.1)

  abbrev marks : Frame → List ParityBlock → List ParityBlock
  marks x ks = (mark_blocks (own i x) (length x.key) ks).1

  abbrev counts : Frame → List ParityBlock → List ℕ
  counts x ks = own_parities (own i x) (count_marked (marks x ks)) (marks x ks)

  same_marks :
      (ks : List ParityBlock)
      → (mark_blocks (own i g) (length g.key) ks).1 ≡ (mark_blocks (own i f) (length f.key) ks).1
  same_marks ks = rw (t.size_a, t.size_b, mark-same pair.peers ks) refl

  -- Both sides are in step after the announcements of an exchange.
  pub after_exchange-At :
      (ks : List ParityBlock)
      → All (λ k. k.offset + k.size ≤ n) ks
      → At n tables f.key g.key
          (after_exchange (own i) ks (found ks) f)
          (after_exchange (own i) ks (found ks) g)
  unfolding after_exchange
  after_exchange-At ks inside =
      subst
        (λ m.
          At n tables f.key g.key
            (announce_all (own i) (marks f ks) (found ks) (counted (counts f ks) f))
            (announce_all (own i) m (found ks) (counted (counts g ks) g)))
        (sym (same_marks ks))
        (announce_all-At n tables f.key g.key i there (marks f ks) (found ks) _ _
          (found-Judged ks inside) (counted-At (counts f ks) (counts g ks)))
