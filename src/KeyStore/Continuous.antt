-- ===== src/KeyStore/Continuous.antt =====
-- `find_continuous` of lib/q3p/db/db_ram.cpp: what the search returns.
use ait_qkd.Prelude.{ℕ, zero, suc, ◌+◌, ◌≤◌, ◌<◌, ◌≡◌, refl, ap, List, [], ◌∷◌, true, length}
use ait_qkd.KeyStore.Flags.{free_valid}
use ait_qkd.KeyStore.Inv.{IsGeometry, IsOpen, IsId, meta_of}
use ait_qkd.KeyStore.Reserve.{Reserves}
use ait_qkd.KeyStore.{Geometry, Db}

-- The ids `a`, `a + 1`, … , `n` of them.
abbrev pub ids_from : ℕ → ℕ → List ℕ
ids_from a zero = []
ids_from a (suc n) = a ∷ ids_from (a + 1) n

pub length-ids_from : (a n : ℕ) → length (ids_from a n) ≡ n
length-ids_from a zero = refl
length-ids_from a (suc n) = ap suc (length-ids_from (a + 1) n)

-- The key is stored and reserved by nobody.
abbrev pub IsFree : Geometry → Db → ℕ → Type 0
IsFree g db id = IsId g id × (free_valid (meta_of g db id) ≡ true)

-- So are the `n` keys from `a` on.
abbrev pub Run : Geometry → Db → ℕ → ℕ → Type 0
Run g db a n = (j : ℕ) → a ≤ j → j < a + n → IsFree g db j

module _ {g : Geometry} (ok : IsGeometry g) {db : Db} (v : IsOpen g db) (needed : ℕ) where
  -- The ids collected so far are the free run of length `len` that ends before `i`.
  record Found (first len i : ℕ) (keys : List ℕ) : Type 0 where
    ends : first + len ≡ i
    ids : keys ≡ ids_from first len
    run : Run g db first len

  -- What the loop ends with: a free run, of the length wanted if it stopped early or if there is
  -- such a run among the ids that it had to look at.
  record Scanned (stop floor : ℕ) (keys : List ℕ) : Type 0 where
    first : ℕ
    len : ℕ
    inside : first + len ≤ stop
    ids : keys ≡ ids_from first len
    run : Run g db first len
    complete : (a : ℕ) → floor ≤ a → a + needed ≤ stop → Run g db a needed → len ≡ needed

-- What `find_continuous` answers when `needed` keys are wanted: a run of that many free keys, which
-- are then reserved, or no key, with the store unchanged, if there is no such run.
pub data Answer {g : Geometry} (ok : IsGeometry g) (db : Db) (needed n : ℕ) (out : List ℕ × Db)
    : Type 0 where
  found :
      (a : ℕ)
      → out.0 ≡ ids_from a needed
      → Run g db a needed
      → Reserves ok n db out.0 out.1
      → Answer ok db needed n out
  nothing : out ≡ ([], db) → ((a : ℕ) → ¬ (Run g db a needed)) → Answer ok db needed n out
