-- ===== src/CryptoXor.antt =====
-- The one-time pad, lib/crypto/crypto_xor.cpp: the bytes that were added are combined with those of
-- a key. `none` is the exception on a key that is too short.
use ait_qkd.Prelude.{
  ℕ, zero, suc, ◌+◌, ◌-◌, ◌≤◌, ◌<◌, ◌≡◌, refl, sym, ap, ap₂, ◌∙◌, List, [], ◌∷◌, ◌++◌, Option, none,
  some, Bool, not, ltb, leb, if◌then◌else◌, length, get_or, take, drop, bit_xor, bit_xor-bit_xor,
  if_either, Runs, arith, length-drop,
}
use mathlib.Core.Path.{subst}
use ait_qkd.Key.{Key, size}
mod Tests

-- `crypto_xor`
pub record CryptoXor : Type 0 where
  pub bytes : List ℕ

-- A new context.
abbrev pub crypto_xor : CryptoXor
crypto_xor = record { bytes = [] }

-- `add_internal` of a memory block.
unfoldable pub add_internal : List ℕ → CryptoXor → CryptoXor
add_internal memory c = record { bytes = c.bytes ++ memory }

unfoldable pub is_valid_final_key : Key → CryptoXor → Bool
unfolding size
is_valid_final_key key c = leb (length c.bytes) (size key)

-- The exclusive or of `count` bytes, which both sides have. That of two words is that of their bytes.
unfoldable pub xor_run : ℕ → List ℕ → List ℕ → List ℕ
xor_run zero source key = []
xor_run (suc count) (s ∷ source) (k ∷ key) = bit_xor s k ∷ xor_run count source key
xor_run (suc count) _ _ = []

-- The words while more than eight bytes are left, on fuel, and the last bytes.
unfoldable pub xor_words : ℕ → ℕ → List ℕ → List ℕ → List ℕ
unfolding xor_run
xor_words zero count source key = []
xor_words (suc fuel) count source key =
    let rest = xor_words fuel (count - 8) (drop 8 source) (drop 8 key) in
    if ltb 8 count then xor_run 8 source key ++ rest else xor_run count source key

unfoldable pub finalize_internal : Key → CryptoXor → Option (List ℕ)
unfolding is_valid_final_key xor_words
finalize_internal key c =
    if not (is_valid_final_key key c)
    then none
    else some (xor_words (suc (length c.bytes)) (length c.bytes) c.bytes key.bytes)

xor_run-append :
    (m n : ℕ) (source key : List ℕ)
    → m ≤ length source
    → m ≤ length key
    → xor_run m source key ++ xor_run n (drop m source) (drop m key) ≡ xor_run (m + n) source key
unfolding xor_run
xor_run-append zero n source key p q = ap (λ c. xor_run c source key) (omega arith)
xor_run-append (suc m) n (s ∷ source) (k ∷ key) p q =
    ap (◌∷◌ (bit_xor s k)) (xor_run-append m n source key (omega (arith, p)) (omega (arith, q)))
    ∙ ap (λ c. xor_run c (s ∷ source) (k ∷ key)) one_more
  where
    one_more : suc (m + n) ≡ suc m + n
    one_more = omega arith
xor_run-append (suc m) n [] key p q = absurd (omega (arith, p))
xor_run-append (suc m) n (s ∷ source) [] p q = absurd (omega (arith, q))

-- The words and the last bytes are all the bytes.
xor_words-xor_run :
    (fuel count : ℕ) (source key : List ℕ)
    → count < fuel
    → count ≤ length source
    → count ≤ length key
    → xor_words fuel count source key ≡ xor_run count source key
unfolding xor_words
xor_words-xor_run zero count source key f p q = absurd (omega (arith, f))
xor_words-xor_run (suc fuel) count source key f p q =
    if_either (λ (bs : List ℕ). bs ≡ xor_run count source key) (ltb 8 count)
      (λ e.
        let more : 8 < count = ground (arith, e) in
        ap (λ bs. xor_run 8 source key ++ bs)
          (xor_words-xor_run fuel (count - 8) (drop 8 source) (drop 8 key) (omega (arith, f, more))
            (omega (arith, p, length-drop 8 source)) (omega (arith, q, length-drop 8 key)))
        ∙ xor_run-append 8 (count - 8) source key (omega (arith, more, p)) (omega (arith, more, q))
        ∙ ap (λ c. xor_run c source key) (omega (arith, more)))
      (λ e. refl)

length-xor_run :
    (source key : List ℕ)
    → length source ≤ length key
    → length (xor_run (length source) source key) ≡ length source
unfolding xor_run
length-xor_run [] key h = refl
length-xor_run (s ∷ source) [] h = absurd (omega (arith, h))
length-xor_run (s ∷ source) (k ∷ key) h = ap suc (length-xor_run source key (omega (arith, h)))

-- `tag` has the size of `bytes`, and byte by byte it is the exclusive or of `bytes` and `key`.
pub record IsXor (bytes key tag : List ℕ) : Type 0 where
  pub sized : length tag ≡ length bytes
  pub at : (i : ℕ) → i < length bytes → get_or tag i 0 ≡ bit_xor (get_or bytes i 0) (get_or key i 0)

at-xor_run :
    (source key : List ℕ) (i : ℕ)
    → length source ≤ length key
    → i < length source
    → get_or (xor_run (length source) source key) i 0 ≡ bit_xor (get_or source i 0) (get_or key i 0)
unfolding xor_run
at-xor_run [] key i h lt = absurd (omega (arith, lt))
at-xor_run (s ∷ source) [] i h lt = absurd (omega (arith, h))
at-xor_run (s ∷ source) (k ∷ key) zero h lt = refl
at-xor_run (s ∷ source) (k ∷ key) (suc i) h lt =
    at-xor_run source key i (omega (arith, h)) (omega (arith, lt))

xor_run-xor_run :
    (source key : List ℕ)
    → length source ≤ length key
    → xor_run (length source) (xor_run (length source) source key) key ≡ source
unfolding xor_run
xor_run-xor_run [] key h = refl
xor_run-xor_run (s ∷ source) [] h = absurd (omega (arith, h))
xor_run-xor_run (s ∷ source) (k ∷ key) h =
    ap₂ ◌∷◌ (bit_xor-bit_xor s k) (xor_run-xor_run source key (omega (arith, h)))

finalize_lem :
    (key : Key) (c : CryptoXor)
    → length c.bytes ≤ length key.bytes
    → finalize_internal key c ≡ some (xor_run (length c.bytes) c.bytes key.bytes)
unfolding finalize_internal is_valid_final_key size
finalize_lem key c h =
    if_either (λ (o : Option (List ℕ)). o ≡ some (xor_run (length c.bytes) c.bytes key.bytes))
      (not (leb (length c.bytes) (length key.bytes))) (λ e. absurd (ground (arith, e, h)))
      (λ e. ap some (
        xor_words-xor_run (suc (length c.bytes)) (length c.bytes) c.bytes key.bytes (omega arith)
          (omega arith) h))

-- With a key that is at least as long as the bytes that were added, finalizing gives as many bytes,
-- each the exclusive or of the byte added and of the byte of the key at its place, and a new context
-- to which these are added gives the original bytes under the same key.
pub finalize-finalize :
    (key : Key) (c : CryptoXor)
    → length c.bytes ≤ length key.bytes
    → Runs (finalize_internal key c) (λ tag.
      IsXor c.bytes key.bytes tag
      × (finalize_internal key (add_internal tag crypto_xor) ≡ some c.bytes))
unfolding add_internal
finalize-finalize key c h =
    let tag = xor_run (length c.bytes) c.bytes key.bytes in
    let same : length tag ≡ length c.bytes = length-xor_run c.bytes key.bytes h in
    subst
      (λ o. Runs o (λ tag.
        IsXor c.bytes key.bytes tag
        × (finalize_internal key (add_internal tag crypto_xor) ≡ some c.bytes)))
      (sym (finalize_lem key c h))
      (
        record { sized = same; at = λ i lt. at-xor_run c.bytes key.bytes i h lt },
        finalize_lem key (record { bytes = tag }) (omega (arith, same, h))
            ∙ ap some
                (ap (λ n. xor_run n tag key.bytes) same ∙ xor_run-xor_run c.bytes key.bytes h),
      )
