-- ===== src/Cascade/Meeting.antt =====
-- The exchanges of bin/modules/qkd-cascade between two sides: what one side receives is what the
-- other one sent.
use ait_qkd.Prelude.{
  ℕ, ◌+◌, ◌≤◌, ◌≡◌, refl, sym, ap, ap₂, ◌∙◌, List, [], ◌∷◌, ◌++◌, Bool, true, false, inl, inr,
  Bool-cases, ◌==◌, ==_iff, length, arith, All, Option, none, some, ◌>>=◌, Runs, Both, Both-map,
  Always,
}
use mathlib.Core.List.{append-nil, append_assoc}
use ait_qkd.Cascade.Frame.{ParityBlock, Checker, Frame}
use ait_qkd.Cascade.Checker.{
  Link, Calculated, exchange, xor_bytes, mark_blocks, count_marked, own_parities, compare_with,
  compare_parities, calculate_block_diffparities,
}
use ait_qkd.Cascade.Difference.{arrives, sends, sent_parities}
use ait_qkd.Cascade.Peers.{Peers, differ, true_differences, calculate-true_differences}
use ait_qkd.Cascade.Announcing.{announce_all, write_back-announce_all, announce_all-none}

-- The counters of a frame after the parities `ps` have been exchanged.
unfoldable pub counted : List ℕ → Frame → Frame
counted [] f = f
counted (p ∷ ps) f = record f {
  transmitted_parities = f.transmitted_parities + length (p ∷ ps);
  transmitted_messages = f.transmitted_messages + 1;
}

compare_parities-frame :
    (reader : Frame → Checker) (blocks : List ParityBlock) (ps : List ℕ) (f : Frame) (l : Link)
    → Always
        (compare_parities reader blocks ps f l)
        (λ r. r.result ≡ true → r.frame ≡ announce_all reader blocks r.blocks (counted ps f))
unfolding compare_parities counted exchange compare_with
compare_parities-frame reader blocks [] f l = λ _. write_back-announce_all reader false [] blocks f
compare_parities-frame reader blocks (p ∷ ps) f l = answered l.inbox
  where
    answered :
        (inbox : List (List ℕ))
        → Always
            (do
              (remote, l') ← exchange (p ∷ ps) (record { inbox = inbox; outbox = l.outbox })
              some (compare_with reader blocks (p ∷ ps) remote f l'))
            (λ r.
              r.result ≡ true → r.frame ≡ announce_all reader blocks r.blocks (counted (p ∷ ps) f))
    answered [] = tt
    answered (m ∷ ms) = elim (Bool-cases (length m == length (p ∷ ps))) [
      | inl e ↦ rw e (λ _. write_back-announce_all reader false (xor_bytes (p ∷ ps) m) blocks _)
      | inr e ↦ rw e (λ no. absurd (ground (arith, no)))
    ]

-- The frame after an exchange of the parities of the blocks `ks`, if these turn into `rs`.
unfoldable pub after_exchange :
    (Frame → Checker) → List ParityBlock → List ParityBlock → Frame → Frame
unfolding announce_all counted
after_exchange reader ks rs f =
    let m = (mark_blocks (reader f) (length f.key) ks).1 in
    announce_all reader m rs (counted (own_parities (reader f) (count_marked m) m) f)

calculate-frame :
    (reader : Frame → Checker) (ks : List ParityBlock) (f : Frame) (l : Link)
    → Always
        (calculate_block_diffparities reader ks false f l)
        (λ r. r.result ≡ true → r.frame ≡ after_exchange reader ks r.blocks f)
unfolding calculate_block_diffparities after_exchange own_parities
calculate-frame reader ks f l = elim (Bool-cases (mark_blocks (reader f) (length f.key) ks).0) [
  | inr e ↦ rw e (λ no. absurd (ground (arith, no)))
  | inl e ↦ elim (Bool-cases (count_marked (mark_blocks (reader f) (length f.key) ks).1 == 0)) [
    | inl z ↦
        let none_marked : count_marked (mark_blocks (reader f) (length f.key) ks).1 ≡ 0 =
          (==_iff _ 0).0 z in
        rw (e, z)
          (λ _. rw none_marked (
            unfold counted in
            sym (
              announce_all-none reader (mark_blocks (reader f) (length f.key) ks).1
                (mark_blocks (reader f) (length f.key) ks).1 f none_marked)))
    | inr z ↦
        rw (e, z)
          (compare_parities-frame reader (mark_blocks (reader f) (length f.key) ks).1
            (own_parities (reader f) (count_marked (mark_blocks (reader f) (length f.key) ks).1)
              (mark_blocks (reader f) (length f.key) ks).1)
            f l)
  ]
]

same_calculated :
    {r : Calculated} {result : Bool} {blocks : List ParityBlock} {frame : Frame} {link : Link}
    → r.result ≡ result
    → r.blocks ≡ blocks
    → r.frame ≡ frame
    → r.link ≡ link
    → r ≡ record { result = result; blocks = blocks; frame = frame; link = link }
same_calculated {r = r} {result = result} {blocks = blocks} a b c d =
    ap₂ (λ x y. record { result = x; blocks = y; frame = r.frame; link = r.link }) a b
    ∙ ap₂ (λ x y. record { result = result; blocks = blocks; frame = x; link = y }) c d

-- What follows an exchange of blocks within the key with a peer that sends its parities.
pub exchange-Runs :
    {a b : Checker} {n : ℕ} {now_a now_b : ℕ → Bool} (peers : Peers a b n now_a now_b)
    (reader : Frame → Checker) (ks : List ParityBlock) (f : Frame) (l : Link) (rest : List (List ℕ))
    → reader f ≡ a
    → length f.key ≡ n
    → All (λ k. k.offset + k.size ≤ n) ks
    → l.inbox ≡ arrives (sent_parities b n ks false) rest
    → calculate_block_diffparities reader ks false f l
      ≡ some (record {
        result = true;
        blocks = true_differences (differ peers) ks;
        frame = after_exchange reader ks (true_differences (differ peers) ks) f;
        link = record { inbox = rest; outbox = sends (sent_parities a n ks false) l.outbox };
      })
exchange-Runs {a = a} {n = n} peers reader ks f l rest is_a is_n inside i =
    known (calculate_block_diffparities reader ks false f l)
      (calculate-true_differences peers reader ks false f l rest is_a is_n inside
        (λ e. absurd (cc e)) i)
      (calculate-frame reader ks f l)
  where
    known :
        (o : Option Calculated)
        → Runs o (λ r.
          (r.result ≡ true)
          × (r.blocks ≡ true_differences (differ peers) ks)
          × (r.link
              ≡ record { inbox = rest; outbox = sends (sent_parities a n ks false) l.outbox }))
        → Always o (λ r. r.result ≡ true → r.frame ≡ after_exchange reader ks r.blocks f)
        → o
          ≡ some (record {
            result = true;
            blocks = true_differences (differ peers) ks;
            frame = after_exchange reader ks (true_differences (differ peers) ks) f;
            link = record { inbox = rest; outbox = sends (sent_parities a n ks false) l.outbox };
          })
    known none h k = absurd h
    known (some r) h k =
        ap some (same_calculated h.0 h.1 (k h.0 ∙ ap (λ rs. after_exchange reader ks rs f) h.1) h.2)

-- Two sides meet: for some messages, each side runs on what the other one sends, uses it up, and the
-- results are related.
pub record Meeting {A B : Type 0} (run_a : Link → Option (A × Link))
    (run_b : Link → Option (B × Link)) (R : A → B → Type 0) : Type 0 where
  pub to_a : List (List ℕ)
  pub to_b : List (List ℕ)
  pub meets :
      (sent_a sent_b : List (List ℕ))
      → Both
          (run_a (record { inbox = to_a; outbox = sent_a }))
          (run_b (record { inbox = to_b; outbox = sent_b }))
          (λ r s.
            (r.1 ≡ record { inbox = []; outbox = sent_a ++ to_b })
            × (s.1 ≡ record { inbox = []; outbox = sent_b ++ to_a })
            × R r.0 s.0)

-- A first part without messages.
pub Meeting-bind :
    {A B C D : Type 0} (P : C → D → Type 0) (R : A → B → Type 0) (m : Option C) (m' : Option D)
    (k : C → Link → Option (A × Link)) (k' : D → Link → Option (B × Link))
    → Both m m' P
    → ((c : C) (d : D) → P c d → Meeting (k c) (k' d) R)
    → Meeting (λ l. do c ← m; k c l) (λ l. do d ← m'; k' d l) R
Meeting-bind P R (some c) (some d) k k' h next = next c d h
Meeting-bind P R (some c) none k k' h next = absurd h
Meeting-bind P R none m' k k' h next = absurd h

sends-arrives :
    (ps : List ℕ) (sent more : List (List ℕ)) → sends ps sent ++ more ≡ sent ++ arrives ps more
sends-arrives [] sent more = refl
sends-arrives (p ∷ ps) sent more = append_assoc sent ((p ∷ ps) ∷ []) more

-- An exchange first, in which the two sides send `ps` and `qs`.
pub Meeting-exchange :
    {A B C D : Type 0} (R : A → B → Type 0) (exchange_a : Link → Option C)
    (exchange_b : Link → Option D) (done_a : Link → C) (done_b : Link → D) (ps qs : List ℕ)
    (k : C → Option (A × Link)) (k' : D → Option (B × Link))
    → ((rest sent : List (List ℕ))
        → exchange_a (record { inbox = arrives qs rest; outbox = sent })
          ≡ some (done_a (record { inbox = rest; outbox = sends ps sent })))
    → ((rest sent : List (List ℕ))
        → exchange_b (record { inbox = arrives ps rest; outbox = sent })
          ≡ some (done_b (record { inbox = rest; outbox = sends qs sent })))
    → Meeting (λ l. k (done_a l)) (λ l. k' (done_b l)) R
    → Meeting (λ l. do c ← exchange_a l; k c) (λ l. do d ← exchange_b l; k' d) R
Meeting-exchange R exchange_a exchange_b done_a done_b ps qs k k' is_a is_b m = record {
  to_a = arrives qs m.to_a;
  to_b = arrives ps m.to_b;
  meets = λ sent_a sent_b.
      rw
        (
          is_a m.to_a sent_a,
          is_b m.to_b sent_b,
          sym (sends-arrives ps sent_a m.to_b),
          sym (sends-arrives qs sent_b m.to_a),
        )
        (m.meets (sends ps sent_a) (sends qs sent_b));
}

-- Nothing to do.
pub Meeting-done :
    {A B : Type 0} (R : A → B → Type 0) (a : A) (b : B)
    → R a b
    → Meeting (λ l. some (a, l)) (λ l. some (b, l)) R
Meeting-done R a b h = record {
  to_a = [];
  to_b = [];
  meets = λ sent_a sent_b. (
    ap (λ o. record { inbox = []; outbox = o }) (sym (append-nil sent_a)),
    ap (λ o. record { inbox = []; outbox = o }) (sym (append-nil sent_b)),
    h,
  );
}

pub Meeting-map :
    {A B : Type 0} (R S : A → B → Type 0) (run_a : Link → Option (A × Link))
    (run_b : Link → Option (B × Link))
    → ((a : A) (b : B) → R a b → S a b)
    → Meeting run_a run_b R
    → Meeting run_a run_b S
Meeting-map R S run_a run_b k m = record {
  to_a = m.to_a;
  to_b = m.to_b;
  meets = λ sent_a sent_b.
      Both-map _ _ (run_a (record { inbox = m.to_a; outbox = sent_a }))
        (run_b (record { inbox = m.to_b; outbox = sent_b })) (λ r s h. (h.0, h.1, k r.0 s.0 h.2))
        (m.meets sent_a sent_b);
}
