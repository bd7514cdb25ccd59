-- ===== src/Stash/Purge.antt =====
-- `purge` of lib/module/stash.cpp: the keys that are too old leave, and no others.
use ait_qkd.Prelude.{
  ◌∙◌, ◌⊎◌, ◌≢◌, ◌+◌, ℕ, ◌≤◌, ◌≡◌, refl, ap, List, [], ◌∷◌, inl, inr, Bool-cases, false, ltb,
  if◌then◌else◌, ◌==◌, ==_iff, All, arith,
}
use ait_qkd.Stash.{Stashed, Stash, purge, expired_ids, erase_all, erase_key}

erase_key_self : (k : Stashed) (ks : List Stashed) → erase_key k.key.id (k ∷ ks) ≡ ks
unfolding erase_key
erase_key_self k ks = rw ((==_iff k.key.id k.key.id).1 refl)

-- A key of another id stays.
erase_all-other :
    (ids : List ℕ) (k : Stashed) (ks : List Stashed)
    → All (λ id. k.key.id ≢ id) ids
    → erase_all ids (k ∷ ks) ≡ k ∷ erase_all ids ks
unfolding erase_all erase_key
erase_all-other [] k ks h = refl
erase_all-other (id ∷ ids) k ks h = elim (Bool-cases (k.key.id == id)) [
  | inl e ↦ absurd (h.0 ((==_iff k.key.id id).0 e))
  | inr e ↦ rw e (erase_all-other ids k (erase_key id ks) h.1)
]

-- What was stashed later, and is looked at later, is not older.
abbrev pub IsSteady : (ℕ → ℕ → ℕ) → Type 0
IsSteady age = (i j a b : ℕ) → i ≤ j → a ≤ b → age j b ≤ age i a

-- Each key was stashed no later than those behind it.
abbrev pub Chronological : List Stashed → Type 0
Chronological [] = Unit
Chronological (k ∷ ks) = All (λ later. k.stashed ≤ later.stashed) ks × Chronological ks

-- No two keys have the same id.
abbrev pub IsDistinct : List Stashed → Type 0
IsDistinct [] = Unit
IsDistinct (k ∷ ks) = All (λ later. k.key.id ≢ later.key.id) ks × IsDistinct ks

module _ (age : ℕ → ℕ → ℕ) (ttl : ℕ) where
  -- The keys that are not too old when they are looked at, from step `i` on, in order.
  unfoldable pub fresh : ℕ → List Stashed → List Stashed
  fresh i [] = []
  fresh i (k ∷ ks) =
      let rest = fresh (i + 1) ks in if ltb ttl (age i k.stashed) then rest else k ∷ rest

  -- No expired key stands behind a fresh one of the same id.
  Separated : ℕ → List Stashed → Type 0
  Separated i [] = Unit
  Separated i (k ∷ ks) =
      (ltb ttl (age i k.stashed) ≡ false
        → All (λ id. k.key.id ≢ id) (expired_ids age ttl (i + 1) ks))
      × Separated (i + 1) ks

  none-expired :
      IsSteady age
      → (i j since : ℕ) (ks : List Stashed) → i ≤ j
      → age i since ≤ ttl
      → All (λ later. since ≤ later.stashed) ks
      → expired_ids age ttl j ks ≡ []
  unfolding expired_ids
  none-expired steady i j since [] le h all = refl
  none-expired steady i j since (k ∷ ks) le h all = ground (
    arith,
    steady i j since k.stashed le all.0,
    none-expired steady i (j + 1) since ks (omega (arith, le)) h all.1,
  )

  Chronological-Separated :
      IsSteady age → (i : ℕ) (ks : List Stashed) → Chronological ks → Separated i ks
  unfolding Separated
  Chronological-Separated steady i [] c = tt
  Chronological-Separated steady i (k ∷ ks) c = (
    (λ new.
        rw (none-expired steady i (i + 1) k.stashed ks (omega arith) (ground (arith, new)) c.0) tt),
    Chronological-Separated steady (i + 1) ks c.1,
  )

  expired-other :
      (i id : ℕ) (ks : List Stashed)
      → All (λ later. id ≢ later.key.id) ks
      → All (λ j. id ≢ j) (expired_ids age ttl i ks)
  unfolding expired_ids
  expired-other i id [] h = tt
  expired-other i id (k ∷ ks) h = elim (Bool-cases (ltb ttl (age i k.stashed))) [
    | inl old ↦ rw old (h.0, expired-other (i + 1) id ks h.1)
    | inr new ↦ rw new (expired-other (i + 1) id ks h.1)
  ]

  IsDistinct-Separated : (i : ℕ) (ks : List Stashed) → IsDistinct ks → Separated i ks
  unfolding Separated
  IsDistinct-Separated i [] d = tt
  IsDistinct-Separated i (k ∷ ks) d =
      ((λ new. expired-other (i + 1) k.key.id ks d.0), IsDistinct-Separated (i + 1) ks d.1)

  erase-expired :
      (i : ℕ) (ks : List Stashed)
      → Separated i ks
      → erase_all (expired_ids age ttl i ks) ks ≡ fresh i ks
  unfolding expired_ids fresh erase_all Separated
  erase-expired i [] s = refl
  erase-expired i (k ∷ ks) s = elim (Bool-cases (ltb ttl (age i k.stashed))) [
    | inl old ↦ rw old (
        ap (erase_all (expired_ids age ttl (i + 1) ks)) (erase_key_self k ks)
        ∙ erase-expired (i + 1) ks s.1)
    | inr new ↦ rw new (
        erase_all-other (expired_ids age ttl (i + 1) ks) k ks (s.0 new)
        ∙ ap (◌∷◌ k) (erase-expired (i + 1) ks s.1))
  ]

-- `purge` takes away exactly the keys that are older than the time to live when they are looked at, if
-- no two keys have the same id, or, ids occurring more than once or not, if the keys were stashed in
-- order and what was stashed later and is looked at later is not older.
pub purge-fresh :
    (age : ℕ → ℕ → ℕ) (s : Stash)
    → (IsSteady age × Chronological s.stash) ⊎ IsDistinct s.stash
    → purge age s ≡ record s { stash = fresh age s.ttl 0 s.stash }
unfolding purge
purge-fresh age s h =
    let separated : Separated age s.ttl 0 s.stash = elim h [
      | inl (steady, c) ↦ Chronological-Separated age s.ttl steady 0 s.stash c
      | inr d ↦ IsDistinct-Separated age s.ttl 0 s.stash d
    ] in
    ap (λ ks. record s { stash = ks }) (erase-expired age s.ttl 0 s.stash separated)
