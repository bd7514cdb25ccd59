-- ===== src/KeyRing/Listing.antt =====
-- `ring` of lib/q3p/db/db_ram.cpp: keys of a store as a ring.
use ait_qkd.Prelude.{
  ℕ, ◌^◌, ◌<◌, ◌≡◌, refl, sym, ◌∙◌, ap, List, [], ◌∷◌, ◌++◌, Option, none, some, ◌>>=◌, inl, inr,
  Bool-cases, Runs, Runs-bind, Runs-map,
}
use mathlib.Core.List.{append_assoc, append-nil}
use ait_qkd.Key.{Key, null}
use ait_qkd.KeyStore.Inv.{IsGeometry, IsOpen, in_range-IsId, meta_of}
use ait_qkd.KeyStore.Flags.{has, flag_valid}
use ait_qkd.KeyStore.Views.{get_lem, bytes_of}
use ait_qkd.KeyStore.{Geometry, Db, get, valid, in_range}
use ait_qkd.KeyRing.{KeyRing, key_ring, push_back}
use ait_qkd.KeyRing.Packing.{Packed, unused, Numbered, content, Added, push_back-Added}

unfoldable pub push_all : Geometry → Db → List ℕ → KeyRing → Option KeyRing
push_all g db [] r = some r
push_all g db (id ∷ ids) r = do k ← get g db id; r' ← push_back r k; push_all g db ids r'

-- Both overloads of `ring_internal`.
unfoldable pub ring : Geometry → Db → List ℕ → Option KeyRing
ring g db ids = push_all g db ids (key_ring g.quantum 0)

-- The bytes that `get` answers for the ids, in order.
unfoldable pub stored_bytes : Geometry → Db → List ℕ → List ℕ
stored_bytes g db [] = []
stored_bytes g db (id ∷ ids) =
    elim (get g db id) [ some k ↦ k.bytes | none ↦ [] ] ++ stored_bytes g db ids

module _ {g : Geometry} (ok : IsGeometry g) (some_room : 0 < g.quantum) (fits : g.quantum < 2 ^ 64)
    {db : Db} (v : IsOpen g db) where
  get-total : (id : ℕ) → (k : Key) × (get g db id ≡ some k)
  unfolding get valid
  get-total id = elim (Bool-cases (in_range g id)) [
    | inl e ↦ elim (Bool-cases (has flag_valid (meta_of g db id))) [
      | inl there ↦ (
        record { id = id; bytes = bytes_of g db id },
        get_lem ok id v (in_range-IsId ok id e) ∙ rw there refl,
      )
      | inr gone ↦ (null, get_lem ok id v (in_range-IsId ok id e) ∙ rw gone refl)
    ]
    | inr e ↦ (null, rw e refl)
  ]

  -- What the ring holds after the keys were added.
  pub record Listed (before : KeyRing) (bs : List ℕ) (after : KeyRing) : Type 0 where
    pub packed : Packed g.quantum after.keys
    pub numbered : Numbered 0 after.keys after.id
    pub content_is : content after.keys ≡ content before.keys ++ bs

  push_all-Listed :
      (ids : List ℕ) (r : KeyRing)
      → r.key_size ≡ g.quantum
      → Packed g.quantum r.keys
      → Numbered 0 r.keys r.id
      → Runs (push_all g db ids r) (Listed r (stored_bytes g db ids))
  unfolding push_all stored_bytes
  push_all-Listed [] r e p n = record { packed = p; numbered = n; content_is = sym (append-nil _) }
  push_all-Listed (id ∷ ids) r e p n =
      let (k, found) = get-total id in
      rw found (
        Runs-bind (Added 0 r k.bytes) (Listed r (k.bytes ++ stored_bytes g db ids)) (push_back r k)
          (push_all g db ids) (push_back-Added 0 r k (rw e some_room) (rw e fits) (rw e p) n)
          (λ mid a.
            Runs-map (Listed mid (stored_bytes g db ids))
              (Listed r (k.bytes ++ stored_bytes g db ids))
              (λ after l. record {
                packed = l.packed;
                numbered = l.numbered;
                content_is =
                    l.content_is
                    ∙ ap (λ c. c ++ stored_bytes g db ids) a.content_is
                    ∙ append_assoc (content r.keys) k.bytes (stored_bytes g db ids);
              })
              (push_all g db ids mid)
              (push_all-Listed ids mid (a.same_size ∙ e) (rw e at a.packed) a.numbered)))

  -- `ring` of any ids of an open store, with keys of at least one byte, returns. In the ring all
  -- keys but the last have `quantum` bytes and the last not more, the ids count up from 0, and the
  -- bytes are those of the keys that `get` answers, in the order of the ids.
  pub ring-Listed :
      (ids : List ℕ) → Runs (ring g db ids) (Listed (key_ring g.quantum 0) (stored_bytes g db ids))
  unfolding ring key_ring Numbered
  ring-Listed ids = push_all-Listed ids (key_ring g.quantum 0) refl (unused refl) refl
