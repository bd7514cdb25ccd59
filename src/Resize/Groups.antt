-- ===== src/Resize/Groups.antt =====
-- The first run of `pick_exact_keys`, bin/modules/qkd-resize/qkd-resize.cpp: where the keys are cut.
use ait_qkd.Prelude.{
  ℕ, zero, suc, ◌+◌, ◌-◌, ◌^◌, ◌≤◌, ◌<◌, ◌≡◌, ◌⊎◌, inl, inr, refl, sym, ap, ◌∙◌, List, [], ◌∷◌,
  ◌++◌, ltb, length, take, drop, length-append, length-take, length-drop, take-drop, if_either,
  arith,
}
use mathlib.Core.Path.{subst}
use mathlib.Core.List.{append_assoc, append-nil}
use ait_qkd.Key.{Key, size}
use ait_qkd.Resize.{plus, next_id, cut, cut_all}

abbrev pub bytes_of : List Key → List ℕ
bytes_of [] = []
bytes_of (k ∷ ks) = k.bytes ++ bytes_of ks

pub bytes_of-append : (ks ls : List Key) → bytes_of (ks ++ ls) ≡ bytes_of ks ++ bytes_of ls
bytes_of-append [] ls = refl
bytes_of-append (k ∷ ks) ls =
    ap (λ bs. k.bytes ++ bs) (bytes_of-append ks ls)
    ∙ sym (append_assoc k.bytes (bytes_of ks) (bytes_of ls))

-- The keys carry the ids that follow `id`, and `last` is the last one.
abbrev pub Numbered : ℕ → List Key → ℕ → Type 0
Numbered id [] last = id ≡ last
Numbered id (k ∷ ks) last = (k.id ≡ next_id id) × Numbered (next_id id) ks last

pub Numbered-append :
    (id : ℕ) (ks ls : List Key) (mid last : ℕ)
    → Numbered id ks mid
    → Numbered mid ls last
    → Numbered id (ks ++ ls) last
Numbered-append id [] ls mid last h g = subst (λ n. Numbered n ls last) (sym h) g
Numbered-append id (k ∷ ks) ls mid last h g =
    (h.0, Numbered-append (next_id id) ks ls mid last h.1 g)

-- Behind `current` bytes, the keys reach the exact size at the end of a key each time, and what
-- follows the last time is less.
unfoldable pub Groups : ℕ → ℕ → List Key → Type 0
Groups exact current [] = current < exact
Groups exact current (k ∷ ks) =
    ((current + length k.bytes ≡ exact) × Groups exact 0 ks)
    ⊎ ((current + length k.bytes < exact) × Groups exact (current + length k.bytes) ks)

-- The keys with the given bytes, in such groups.
unfoldable pub Grouped : ℕ → ℕ → List ℕ → List Key → Type 0
Grouped exact current bytes ks = Groups exact current ks × (bytes_of ks ≡ bytes)

module _ (exact : ℕ) (some_bytes : 0 < exact) where
  Grouped-first :
      (current : ℕ) (k : Key) (ks : List Key) (bytes : List ℕ)
      → current + length k.bytes < exact
      → Grouped exact (current + length k.bytes) bytes ks
      → Grouped exact current (k.bytes ++ bytes) (k ∷ ks)
  unfolding Grouped Groups
  Grouped-first current k ks bytes h g = (inr (h, g.0), ap (λ bs. k.bytes ++ bs) g.1)

  Grouped-one :
      (current : ℕ) (k : Key)
      → current + length k.bytes < exact
      → Grouped exact current k.bytes (k ∷ [])
  unfolding Grouped Groups
  Grouped-one current k h = (inr (h, h), append-nil k.bytes)

  Grouped-full :
      (current : ℕ) (k : Key) (ks : List Key) (bytes : List ℕ)
      → current + length k.bytes ≡ exact
      → Grouped exact 0 bytes ks
      → Grouped exact current (k.bytes ++ bytes) (k ∷ ks)
  unfolding Grouped Groups
  Grouped-full current k ks bytes h g = (inl (h, g.0), ap (λ bs. k.bytes ++ bs) g.1)

  cut-Grouped :
      (fuel current : ℕ) (k : Key)
      → length k.bytes < fuel
      → current < exact
      → exact + length k.bytes ≤ 2 ^ 64
      → Grouped exact current k.bytes (cut fuel exact current k)
  unfolding cut size
  cut-Grouped zero current k f h w = absurd (omega (arith, f))
  cut-Grouped (suc fuel) current k f h w =
      let n = exact - current in
      let smaller : Key = record { id = 0; bytes = drop n k.bytes } in
      if_either (Grouped exact current k.bytes) (ltb (plus current (length k.bytes)) exact)
        (λ e. Grouped-one current k (ground (arith, e, w, h)))
        (λ e.
          let whole : n ≤ length k.bytes = ground (arith, e, w, h) in
          subst
            (λ bs.
              Grouped exact current bs
                (record { id = 0; bytes = take n k.bytes } ∷ cut fuel exact 0 smaller))
            (take-drop n k.bytes)
            (Grouped-full current (record { id = 0; bytes = take n k.bytes })
              (cut fuel exact 0 smaller) (drop n k.bytes)
              (omega (arith, length-take n k.bytes, whole, h))
              (cut-Grouped fuel 0 smaller (omega (arith, f, length-drop n k.bytes, h, whole))
                some_bytes (omega (arith, w, length-drop n k.bytes)))))

  -- The keys before the last one are too small to be cut.
  pub cut_all-Grouped :
      (current : ℕ) (old : List Key) (k : Key)
      → current + length (bytes_of old) < exact
      → exact + length k.bytes ≤ 2 ^ 64
      → Grouped exact current (bytes_of (old ++ k ∷ [])) (cut_all exact current (old ++ k ∷ []))
  unfolding cut_all size
  cut_all-Grouped current [] k h w =
      if_either (Grouped exact current (k.bytes ++ [])) (ltb (plus current (length k.bytes)) exact)
        (λ e.
          subst (λ bs. Grouped exact current bs (k ∷ [])) (sym (append-nil k.bytes))
            (Grouped-one current k (ground (arith, e, w, h))))
        (λ e.
          ap_Grouped (sym (append-nil k.bytes))
            (sym (append-nil (cut (suc (length k.bytes)) exact current k)))
            (cut-Grouped (suc (length k.bytes)) current k (omega arith) (omega (arith, h)) w))
    where
      ap_Grouped :
          {bs cs : List ℕ} {ks ls : List Key}
          → bs ≡ cs
          → ks ≡ ls
          → Grouped exact current bs ks
          → Grouped exact current cs ls
      ap_Grouped {bs} {cs} {ks} {ls} p q g =
          subst (λ ls. Grouped exact current cs ls) q
            (subst (λ cs. Grouped exact current cs ks) p g)
  cut_all-Grouped current (o ∷ old) k h w =
      let small : current + length o.bytes + length (bytes_of old) < exact =
        omega (arith, h, length-append o.bytes (bytes_of old)) in
      let next : plus current (length o.bytes) ≡ current + length o.bytes =
        omega (arith, small, w) in
      if_either (Grouped exact current (o.bytes ++ bytes_of (old ++ k ∷ [])))
        (ltb (plus current (length o.bytes)) exact)
        (λ e.
          Grouped-first current o (cut_all exact (plus current (length o.bytes)) (old ++ k ∷ []))
            (bytes_of (old ++ k ∷ [])) (omega (arith, small))
            (subst
              (λ c.
                Grouped exact (current + length o.bytes) (bytes_of (old ++ k ∷ []))
                  (cut_all exact c (old ++ k ∷ [])))
              (sym next) (cut_all-Grouped (current + length o.bytes) old k small w)))
        (λ e. absurd (ground (arith, e, small, next)))
