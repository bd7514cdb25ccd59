-- ===== src/Sifting/Agreement.antt =====
-- The sifting of bin/modules/qkd-sifting-bb84 between two sides: both keep the same events, and get
-- the same bits from them.
use ait_qkd.Prelude.{
  ℕ, suc, ◌+◌, ◌*◌, ◌/◌, ◌%◌, ◌≤◌, ◌<◌, ◌≡◌, refl, sym, ap, ◌∙◌, bit_and, List, [], ◌∷◌, Bool, true,
  false, not, ◌&&◌, ◌||◌, inl, inr, Bool-cases, ◌==◌, if◌then◌else◌, length, get_or, get_or-set,
  length-set, arith, Both, Both-bind,
}
use mathlib.Core.Path.{subst}
use ait_qkd.Cascade.Frame.{◌xor◌}
use ait_qkd.Sifting.{
  parity_of_event, get_measurement, pack, quantum_table_to_base_table, Bits, add_event, add_byte,
  add_bytes, keep, match_bases,
}

-- What an event says: the bit of a single click.
unfoldable pub click : ℕ → Bool
click event = not (bit_and event 85 == 0)

-- Two events measured in the same base are single clicks, and opposite ones.
unfoldable pub opposite : ℕ → ℕ → Bool
unfolding get_measurement parity_of_event click
opposite a b =
    if get_measurement a == get_measurement b && not (get_measurement a == 0)
    then parity_of_event a && (parity_of_event b && (click a xor click b))
    else true

-- The events of two tables of the same size.
unfoldable pub all_opposite : List ℕ → List ℕ → Bool
unfolding opposite
all_opposite [] [] = true
all_opposite (q ∷ qs) (p ∷ ps) =
    opposite (q / 16) (p / 16) && (opposite (q % 16) (p % 16) && all_opposite qs ps)
all_opposite _ _ = false

and-both : {x y : Bool} → x && y ≡ true → (x ≡ true) × (y ≡ true)
and-both {x = true} {y = y} e = (refl, e)
and-both {x = false} {y = y} e = absurd (ground (arith, e))

pub all_opposite-length : (qs ps : List ℕ) → all_opposite qs ps ≡ true → length qs ≡ length ps
unfolding all_opposite
all_opposite-length [] [] e = refl
all_opposite-length (q ∷ qs) (p ∷ ps) e = ap suc (
    all_opposite-length qs ps
      (and-both {x = opposite (q % 16) (p % 16)} (and-both {x = opposite (q / 16) (p / 16)} e).1).1)
all_opposite-length [] (p ∷ ps) e = absurd (ground (arith, e))
all_opposite-length (q ∷ qs) [] e = absurd (ground (arith, e))

-- Both have the same bits so far, and room for `room` more.
pub record Agree (room : ℕ) (a b : Bits) : Type 0 where
  pub same_position : a.position ≡ b.position
  pub room_a : a.position + room ≤ length a.bits
  pub room_b : b.position + room ≤ length b.bits
  pub same_bits : (j : ℕ) → j < a.position → get_or a.bits j false ≡ get_or b.bits j false

get_measurement-bound : (event : ℕ) → get_measurement event ≤ 2
unfolding get_measurement
get_measurement-bound event = ground arith

keep-bound : (a b : ℕ) → keep (get_measurement a) (get_measurement b) ≤ 2
keep-bound a b = ground (arith, get_measurement-bound a)

pack-fields :
    (b0 b1 b2 b3 : ℕ)
    → b0 ≤ 2
    → b1 ≤ 2
    → b2 ≤ 2
    → b3 ≤ 2
    → (pack b0 b1 b2 b3 / 64 ≡ b0)
      × (pack b0 b1 b2 b3 / 16 % 4 ≡ b1)
      × (pack b0 b1 b2 b3 / 4 % 4 ≡ b2)
      × (pack b0 b1 b2 b3 % 4 ≡ b3)
pack-fields b0 b1 b2 b3 h0 h1 h2 h3 = (omega arith, omega arith, omega arith, omega arith)

abbrev base_byte : ℕ → ℕ → ℕ
base_byte q r =
    pack (get_measurement (q / 16)) (get_measurement (q % 16)) (get_measurement (r / 16))
      (get_measurement (r % 16))

base-fields :
    (q r : ℕ)
    → (base_byte q r / 64 ≡ get_measurement (q / 16))
      × (base_byte q r / 16 % 4 ≡ get_measurement (q % 16))
      × (base_byte q r / 4 % 4 ≡ get_measurement (r / 16))
      × (base_byte q r % 4 ≡ get_measurement (r % 16))
base-fields q r =
    pack-fields (get_measurement (q / 16)) (get_measurement (q % 16)) (get_measurement (r / 16))
      (get_measurement (r % 16)) (get_measurement-bound (q / 16)) (get_measurement-bound (q % 16))
      (get_measurement-bound (r / 16)) (get_measurement-bound (r % 16))

module _ (dice_a dice_b : ℕ → Bool) where
  -- An event that both keep.
  kept-Agree :
      (room c ea eb : ℕ) (a b : Bits)
      → (c == 1 || c == 2) ≡ true
      → parity_of_event ea ≡ true
      → parity_of_event eb ≡ true
      → click ea xor click eb ≡ true
      → Agree (suc room) a b
      → Agree room (add_event dice_a true c ea a) (add_event dice_b false c eb b)
  unfolding add_event click
  kept-Agree room c ea eb a b valid pa pb op h =
      rw (valid, pa, pb)
        record {
          same_position = ap (λ p. p + 1) h.same_position;
          room_a =
              subst (λ k. a.position + 1 + room ≤ k) (sym (length-set a.bits a.position (click ea)))
                (omega (arith, h.room_a));
          room_b =
              subst (λ k. b.position + 1 + room ≤ k)
                (sym (length-set b.bits b.position (not (click eb)))) (omega (arith, h.room_b));
          same_bits = λ j lt. ground (
            arith,
            get_or-set a.bits a.position j (click ea) false (omega (arith, h.room_a)),
            get_or-set b.bits b.position j (not (click eb)) false (omega (arith, h.room_b)),
            h.same_position,
            h.same_bits j,
            lt,
            op,
          );
        }

  -- An event that both leave.
  left-Agree :
      (room c ea eb : ℕ) (a b : Bits)
      → (c == 1 || c == 2) ≡ false
      → Agree (suc room) a b
      → Agree room (add_event dice_a true c ea a) (add_event dice_b false c eb b)
  unfolding add_event
  left-Agree room c ea eb a b invalid h = rw (invalid) record {
    same_position = h.same_position;
    room_a = omega (arith, h.room_a);
    room_b = omega (arith, h.room_b);
    same_bits = h.same_bits;
  }

  event-Agree :
      (room ea eb : ℕ) (a b : Bits)
      → opposite ea eb ≡ true
      → Agree (suc room) a b
      → let c = keep (get_measurement ea) (get_measurement eb) in
        Agree room (add_event dice_a true c ea a) (add_event dice_b false c eb b)
  unfolding opposite
  event-Agree room ea eb a b op h =
      elim (Bool-cases
        (get_measurement ea == get_measurement eb && not (get_measurement ea == 0))) [
          | inr e ↦ left-Agree room _ ea eb a b (ground (arith, e)) h
          | inl e ↦
              let clicks : (parity_of_event ea && (parity_of_event eb && (click ea xor click eb)))
                  ≡ true =
                ground (arith, e, op) in
              kept-Agree room _ ea eb a b (ground (arith, e, get_measurement-bound ea))
                (ground (arith, clicks)) (ground (arith, clicks)) (ground (arith, clicks)) h
        ]

  abbrev common_byte : ℕ → ℕ → ℕ → ℕ → ℕ
  common_byte q r p t =
      pack (keep (get_measurement (q / 16)) (get_measurement (p / 16)))
        (keep (get_measurement (q % 16)) (get_measurement (p % 16)))
        (keep (get_measurement (r / 16)) (get_measurement (t / 16)))
        (keep (get_measurement (r % 16)) (get_measurement (t % 16)))

  byte-Agree :
      (room q r p t : ℕ) (a b : Bits)
      → opposite (q / 16) (p / 16) ≡ true
      → opposite (q % 16) (p % 16) ≡ true
      → opposite (r / 16) (t / 16) ≡ true
      → opposite (r % 16) (t % 16) ≡ true
      → Agree (suc (suc (suc (suc room)))) a b
      → let c = common_byte q r p t in
        Agree room (add_byte dice_a true c q r a) (add_byte dice_b false c p t b)
  unfolding add_byte
  byte-Agree room q r p t a b o0 o1 o2 o3 h =
      let f =
        pack-fields (keep (get_measurement (q / 16)) (get_measurement (p / 16)))
          (keep (get_measurement (q % 16)) (get_measurement (p % 16)))
          (keep (get_measurement (r / 16)) (get_measurement (t / 16)))
          (keep (get_measurement (r % 16)) (get_measurement (t % 16)))
          (keep-bound (q / 16) (p / 16)) (keep-bound (q % 16) (p % 16))
          (keep-bound (r / 16) (t / 16)) (keep-bound (r % 16) (t % 16)) in
      rw (f.0, f.1, f.2, f.3)
        (event-Agree room (r % 16) (t % 16) _ _ o3 (
          event-Agree (suc room) (r / 16) (t / 16) _ _ o2 (
            event-Agree (suc (suc room)) (q % 16) (p % 16) _ _ o1
              (event-Agree (suc (suc (suc room))) (q / 16) (p / 16) a b o0 h))))

  common-match :
      (q r p t : ℕ) (cs ds : List ℕ)
      → match_bases (base_byte q r ∷ cs) (base_byte p t ∷ ds)
        ≡ common_byte q r p t ∷ match_bases cs ds
  unfolding match_bases
  common-match q r p t cs ds =
      let f = base-fields q r in
      let g = base-fields p t in rw (f.0, f.1, f.2, f.3, g.0, g.1, g.2, g.3) refl

  -- The base tables of two tables of events, and the bits that follow from them.
  pub record Sifted (qs ps ta tb : List ℕ) : Type 0 where
    pub same_size : length ta ≡ length tb
    pub agrees :
        (a b : Bits)
        → Agree (length ta * 4) a b
        → Both
            (add_bytes dice_a true (match_bases ta tb) qs a)
            (add_bytes dice_b false (match_bases ta tb) ps b)
            (Agree 0)
    pub common_size : length (match_bases ta tb) ≡ length ta

  Sifted-step :
      (q r p t : ℕ) (qs ps ta tb : List ℕ)
      → opposite (q / 16) (p / 16) ≡ true
      → opposite (q % 16) (p % 16) ≡ true
      → opposite (r / 16) (t / 16) ≡ true
      → opposite (r % 16) (t % 16) ≡ true
      → Sifted qs ps ta tb
      → Sifted (q ∷ r ∷ qs) (p ∷ t ∷ ps) (base_byte q r ∷ ta) (base_byte p t ∷ tb)
  unfolding add_bytes
  Sifted-step q r p t qs ps ta tb o0 o1 o2 o3 s = record {
    same_size = ap suc s.same_size;
    agrees = λ a b h. rw (common-match q r p t ta tb) (
        s.agrees _ _ (
          byte-Agree (length ta * 4) q r p t a b o0 o1 o2 o3
            (subst (λ room. Agree room a b) (omega arith) h)));
    common_size = ap length (common-match q r p t ta tb) ∙ ap suc s.common_size;
  }

  pub tables-Sifted :
      (qs ps : List ℕ)
      → length qs % 2 ≡ 0
      → all_opposite qs ps ≡ true
      → Both (quantum_table_to_base_table qs) (quantum_table_to_base_table ps) (Sifted qs ps)
  unfolding quantum_table_to_base_table all_opposite
  tables-Sifted [] [] even o = record {
    same_size = refl;
    agrees = λ a b h. unfold add_bytes match_bases in h;
    common_size = unfold match_bases in refl;
  }
  tables-Sifted (q ∷ []) ps even o = absurd (omega (arith, even))
  tables-Sifted (q ∷ r ∷ qs) [] even o = absurd (ground (arith, o))
  tables-Sifted [] (p ∷ ps) even o = absurd (ground (arith, o))
  tables-Sifted (q ∷ r ∷ qs) (p ∷ []) even o = absurd (ground (arith, o))
  tables-Sifted (q ∷ r ∷ qs) (p ∷ t ∷ ps) even o =
      let o0 = and-both {x = opposite (q / 16) (p / 16)} o in
      let o1 = and-both {x = opposite (q % 16) (p % 16)} o0.1 in
      let o2 = and-both {x = opposite (r / 16) (t / 16)} o1.1 in
      let o3 = and-both {x = opposite (r % 16) (t % 16)} o2.1 in
      Both-bind (Sifted qs ps) (Sifted (q ∷ r ∷ qs) (p ∷ t ∷ ps)) (quantum_table_to_base_table qs)
        (quantum_table_to_base_table ps) _ _ (tables-Sifted qs ps (omega (arith, even)) o3.1)
        (λ ta tb s. Sifted-step q r p t qs ps ta tb o0.0 o1.0 o2.0 o3.0 s)
