-- ===== src/Stash/Exchange/Agreement.antt =====
-- `pick` of lib/module/stash.cpp, both sides together: alice and bob take the same key, or none.
use ait_qkd.Prelude.{◌≡◌, List, none, some, true, false}
use ait_qkd.Key.{Key, null, is_null}
use ait_qkd.Buffer.{Buffer}
use ait_qkd.Stash.Exchange.{BobPick}
use ait_qkd.Stash.{Stash, ok, Result, choose, find_key, remove}

-- The two outcomes of a choice fit together.
pub data Agree (alice bob : Stash) (a : Result Key × Stash) (b : BobPick) : Type 0 where
  no_offer :
      is_null (choose alice) ≡ true
      → a ≡ (ok (choose alice), alice)
      → b.result ≡ ok null
      → b.after ≡ bob
      → Agree alice bob a b
  rejected :
      is_null (choose alice) ≡ false
      → find_key (choose alice).id bob.stash ≡ none
      → a ≡ (ok null, alice)
      → b.result ≡ ok null
      → b.after ≡ bob
      → Agree alice bob a b
  picked :
      (kb : Key)
      → is_null (choose alice) ≡ false
      → kb.id ≡ (choose alice).id
      → find_key kb.id bob.stash ≡ some kb
      → a ≡ (ok (choose alice), remove kb.id alice)
      → b.result ≡ ok kb
      → b.after ≡ remove kb.id bob
      → Agree alice bob a b
