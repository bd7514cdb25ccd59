-- ===== src/CryptoXor/Tests.antt =====
-- The one-time pad of a message of eleven bytes.
use ait_qkd.Prelude.{ℕ, ◌≡◌, refl, List, [], ◌∷◌, some, none, Runs, arith}
use ait_qkd.Key.{Key}
use ait_qkd.CryptoXor.{
  CryptoXor, IsXor, crypto_xor, add_internal, finalize_internal, finalize-finalize,
}

abbrev message : List ℕ
message = 72 ∷ 101 ∷ 108 ∷ 108 ∷ 111 ∷ 32 ∷ 66 ∷ 111 ∷ 98 ∷ 33 ∷ 10 ∷ []

abbrev pad : Key
pad = record { id = 1; bytes = 200 ∷ 17 ∷ 3 ∷ 255 ∷ 0 ∷ 91 ∷ 4 ∷ 7 ∷ 128 ∷ 77 ∷ 1 ∷ 9 ∷ [] }

abbrev context : CryptoXor
context = record { bytes = message }

finalize-finalize_example : Runs (finalize_internal pad context) (λ tag.
    IsXor message pad.bytes tag
    × (finalize_internal pad (add_internal tag crypto_xor) ≡ some message))
finalize-finalize_example = finalize-finalize pad context (omega arith)

padded :
    finalize_internal pad context
    ≡ some (128 ∷ 116 ∷ 111 ∷ 147 ∷ 111 ∷ 123 ∷ 70 ∷ 104 ∷ 226 ∷ 108 ∷ 11 ∷ [])
unfolding finalize_internal
padded = refl

short_key : finalize_internal (record { id = 2; bytes = 1 ∷ [] }) context ≡ none
unfolding finalize_internal
short_key = refl
