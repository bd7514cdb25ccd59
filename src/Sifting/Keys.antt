-- ===== src/Sifting/Keys.antt =====
-- `process` of bin/modules/qkd-sifting-bb84/qkd-sifting-bb84.cpp on both sides: the messages that
-- they exchange, and the key that they pass on.
use ait_qkd.Prelude.{
  ℕ, ◌+◌, ◌*◌, ◌%◌, ◌^◌, ◌≤◌, ◌<◌, ◌≡◌, refl, sym, ap, ap₂, ◌∙◌, List, [], ◌∷◌, ◌++◌, Option, none,
  some, ◌>>=◌, Bool, true, false, inl, inr, Bool-cases, ltb, ==_iff, if◌then◌else◌, length, get_or,
  arith, Both, Both-bind,
}
use mathlib.Core.Path.{subst}
use mathlib.Core.List.{append_assoc}
use ait_qkd.Key.{Key, size}
use ait_qkd.Cascade.Checker.{Link}
use ait_qkd.Cascade.Meeting.{Meeting}
use ait_qkd.Sifting.{
  Sifting, inc, quantum_table_to_base_table, Bits, bases_to_bits, match_bases, Outcome, forward_key,
  set_rawkey_length, answer_bob, take_bases, take_header, process_alice, process_bob, process,
}
use ait_qkd.Sifting.Bytes.{roomy, length-roomy, get_or-roomy, same_bytes}
use ait_qkd.Sifting.Agreement.{all_opposite, all_opposite-length, Agree, Sifted, tables-Sifted}

-- The two sides have sifted the same bits.
pub record InStep (s t : Sifting) : Type 0 where
  pub same_length : s.rawkey_length ≡ t.rawkey_length
  pub same_id : s.key_id ≡ t.key_id
  pub same_counter : s.counter ≡ t.counter
  pub same_position : s.position ≡ t.position
  pub same_bits : (j : ℕ) → j < s.position → get_or s.bits j false ≡ get_or t.bits j false

-- The key that is passed on to the next module.
abbrev pub forwarded : Outcome → Option Key
forwarded r = if r.forward then some r.key else none

-- What the two sides have after a key.
abbrev pub Passed : Outcome → Outcome → Type 0
Passed r r' = InStep r.state r'.state × (r.forward ≡ r'.forward) × (forwarded r ≡ forwarded r')

same_key :
    {i j : ℕ} {xs ys : List ℕ}
    → i ≡ j
    → xs ≡ ys
    → ◌≡◌ {A = Option Key}
        (some (record { id = i; bytes = xs }))
        (some (record { id = j; bytes = ys }))
same_key e d = ap₂ (λ i xs. some (record { id = i; bytes = xs })) e d

module _ (k k' : Key) (a b : Bits) (s t : Sifting) (h : InStep s t) (agree : Agree 0 a b) where
  same_test :
      ltb b.position (t.rawkey_length * 8 % 2 ^ 64) ≡ ltb a.position (s.rawkey_length * 8 % 2 ^ 64)
  same_test = ap₂ (λ p n. ltb p (n * 8 % 2 ^ 64)) (sym agree.same_position) (sym h.same_length)

  forward_key-Passed : Passed (forward_key k a s) (forward_key k' b t)
  unfolding forward_key
  forward_key-Passed = elim (Bool-cases (ltb a.position (s.rawkey_length * 8 % 2 ^ 64))) [
    | inl e ↦
        rw (same_test, e)
          (
            record {
              same_length = h.same_length;
              same_id = h.same_id;
              same_counter = h.same_counter;
              same_position = agree.same_position;
              same_bits = agree.same_bits;
            },
            refl,
            refl,
          )
    | inr e ↦
        rw (same_test, e)
          (
            record {
              same_length = h.same_length;
              same_id = ap (λ c. (inc c).0) h.same_counter;
              same_counter = ap (λ c. (inc c).1) h.same_counter;
              same_position = refl;
              same_bits = λ j lt. absurd (omega (arith, lt));
            },
            refl,
            same_key h.same_id (same_bytes a b agree),
          )
  ]

module _ (dice_a dice_b : ℕ → Bool) (k k' : Key) (s t : Sifting) (h : InStep s t) (ta tb : List ℕ)
    (tables : Sifted dice_a dice_b k.bytes k'.bytes ta tb) where
  abbrev common : List ℕ
  common = match_bases ta tb

  bases_to_bits-Agree :
      Both
        (bases_to_bits dice_a true common k.bytes s.bits s.position)
        (bases_to_bits dice_b false common k'.bytes t.bits t.position)
        (Agree 0)
  unfolding bases_to_bits
  bases_to_bits-Agree = tables.agrees _ _ (record {
    same_position = h.same_position;
    room_a =
        subst (λ m. s.position + m * 4 ≤ length (roomy s.bits (s.position + length common * 4)))
          tables.common_size (length-roomy s.bits (s.position + length common * 4));
    room_b =
        subst (λ m. t.position + m * 4 ≤ length (roomy t.bits (t.position + length common * 4)))
          tables.common_size (length-roomy t.bits (t.position + length common * 4));
    same_bits = λ j lt.
        get_or-roomy s.bits (s.position + length common * 4) j
        ∙ h.same_bits j lt
        ∙ sym (get_or-roomy t.bits (t.position + length common * 4) j);
  })

  abbrev header : List ℕ
  header = k.id ∷ size k ∷ s.rawkey_length ∷ []

  alice_answers :
      (l : Link)
      → answer_bob dice_a ta tb k s l ≡ (do
        b ← bases_to_bits dice_a true common k.bytes s.bits s.position
        some (forward_key k b s, record l { outbox = l.outbox ++ common ∷ [] }))
  unfolding answer_bob
  alice_answers l = rw ((==_iff (length ta) (length tb)).1 tables.same_size) refl

  exchanged :
      (sent_a sent_b : List (List ℕ))
      → Both
          (answer_bob dice_a ta tb k s (record { inbox = []; outbox = sent_a ++ header ∷ [] }))
          (take_bases dice_b
            (common ∷ [])
            k'
            t
            (record { inbox = common ∷ []; outbox = sent_b ++ tb ∷ [] }))
          (λ r r'.
            (r.1 ≡ record { inbox = []; outbox = sent_a ++ header ∷ common ∷ [] })
            × (r'.1 ≡ record { inbox = []; outbox = sent_b ++ tb ∷ [] })
            × Passed r.0 r'.0)
  unfolding take_bases
  exchanged sent_a sent_b = rw (alice_answers _) (
      Both-bind (Agree 0) _ (bases_to_bits dice_a true common k.bytes s.bits s.position)
        (bases_to_bits dice_b false common k'.bytes t.bits t.position) _ _ bases_to_bits-Agree
        (λ a b agree. (
          ap (λ o. record { inbox = []; outbox = o })
              (append_assoc sent_a (header ∷ []) (common ∷ [])),
          refl,
          forward_key-Passed k k' a b s t h agree,
        )))

  module _ (known_a : quantum_table_to_base_table k.bytes ≡ some ta)
      (known_b : quantum_table_to_base_table k'.bytes ≡ some tb) (same_id : k.id ≡ k'.id)
      (same_size : size k ≡ size k') where
    alice_starts :
        (sent : List (List ℕ))
        → process_alice dice_a k s (record { inbox = tb ∷ []; outbox = sent })
          ≡ answer_bob dice_a ta tb k s (record { inbox = []; outbox = sent ++ header ∷ [] })
    unfolding process_alice
    alice_starts sent = rw known_a refl

    bob_starts :
        (sent : List (List ℕ))
        → process_bob dice_b k' t (record { inbox = header ∷ common ∷ []; outbox = sent })
          ≡ take_bases dice_b
              (common ∷ [])
              k'
              t
              (record { inbox = common ∷ []; outbox = sent ++ tb ∷ [] })
    unfolding process_bob take_header set_rawkey_length
    bob_starts sent =
        rw
          (
            (==_iff k.id k'.id).1 same_id,
            (==_iff (size k) (size k')).1 same_size,
            (==_iff t.rawkey_length s.rawkey_length).1 (sym h.same_length),
            known_b,
          )
          refl

    tables-Meeting :
        Meeting (λ l. process_alice dice_a k s l) (λ l. process_bob dice_b k' t l) Passed
    tables-Meeting = record {
      to_a = tb ∷ [];
      to_b = header ∷ common ∷ [];
      meets =
          λ sent_a sent_b. rw (alice_starts sent_a, bob_starts sent_b) (exchanged sent_a sent_b);
    }

-- `process` of alice and of bob, in step in what they have sifted so far, on raw keys of the same id
-- and with an even number of bytes, of the same number of events, of which those that are measured in
-- the same base by both are single clicks of opposite bits: for some messages, both run to the end,
-- each on just the messages that the other one sends, they are in step again, and either neither
-- passes on a key, or both do, and it is the same.
pub process-Meeting :
    (dice_a dice_b : ℕ → Bool) (k k' : Key) (s t : Sifting)
    → InStep s t
    → k.id ≡ k'.id
    → length k.bytes % 2 ≡ 0
    → all_opposite k.bytes k'.bytes ≡ true
    → Meeting (λ l. process dice_a true k s l) (λ l. process dice_b false k' t l) Passed
unfolding size
process-Meeting dice_a dice_b k k' s t h same_id even o =
    with_tables (quantum_table_to_base_table k.bytes) (quantum_table_to_base_table k'.bytes) refl
      refl (tables-Sifted dice_a dice_b k.bytes k'.bytes even o)
  where
    with_tables :
        (oa ob : Option (List ℕ))
        → quantum_table_to_base_table k.bytes ≡ oa
        → quantum_table_to_base_table k'.bytes ≡ ob
        → Both oa ob (Sifted dice_a dice_b k.bytes k'.bytes)
        → Meeting (λ l. process dice_a true k s l) (λ l. process dice_b false k' t l) Passed
    with_tables (some ta) (some tb) a b tables =
        tables-Meeting dice_a dice_b k k' s t h ta tb tables a b same_id
          (all_opposite-length k.bytes k'.bytes o)
    with_tables (some ta) none a b tables = absurd tables
    with_tables none ob a b tables = absurd tables
