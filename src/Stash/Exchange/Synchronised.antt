-- ===== src/Stash/Exchange/Synchronised.antt =====
-- A choice right after a synchronisation, lib/module/stash.cpp: bob never rejects it, and a shared
-- key is always found.
use ait_qkd.Prelude.{ℕ, ◌^◌, ◌<◌, ◌≡◌, List, some, true, false, All}
use ait_qkd.Key.{Key, null, is_null}
use ait_qkd.Stash.Sync.{ids}
use ait_qkd.Stash.Exchange.{BobPick}
use ait_qkd.Stash.{Stashed, Stash, ok, Result, find_key, remove, elem}

-- `push` stashes no null key.
abbrev pub NoNull : List Stashed → Type 0
NoNull = All (λ k. is_null k.key ≡ false)

-- What the choice is: no key is in the other list, or it is the first one that is.
data Choice (peer : List ℕ) (ks : List Stashed) (k : Key) : Type 0 where
  unshared : is_null k ≡ true → All (λ s. elem s.key.id peer ≡ false) ks → Choice peer ks k
  shared : is_null k ≡ false → elem k.id peer ≡ true → k.id < 2 ^ 32 → Choice peer ks k

-- The outcome of a choice after a synchronisation.
pub data Settled (alice bob : Stash) (a : Result Key × Stash) (b : BobPick) : Type 0 where
  none_shared :
      All (λ s. elem s.key.id (ids bob.stash) ≡ false) alice.stash
      → a.1 ≡ alice
      → b.result ≡ ok null
      → b.after ≡ bob
      → Settled alice bob a b
  one_shared :
      (ka kb : Key)
      → is_null ka ≡ false
      → ka.id ≡ kb.id
      → find_key kb.id bob.stash ≡ some kb
      → a ≡ (ok ka, remove kb.id alice)
      → b.result ≡ ok kb
      → b.after ≡ remove kb.id bob
      → Settled alice bob a b
