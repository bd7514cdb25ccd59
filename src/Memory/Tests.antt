-- ===== src/Memory/Tests.antt =====
-- Hexadecimal text of small memory blocks.
use ait_qkd.Prelude.{◌≡◌, refl, [], ◌∷◌, arith}
use ait_qkd.Memory.{as_hex, from_hex, from_hex-as_hex}

from_hex-as_hex_example : from_hex (as_hex (222 ∷ 173 ∷ 7 ∷ [])) ≡ 222 ∷ 173 ∷ 7 ∷ []
from_hex-as_hex_example =
    from_hex-as_hex (222 ∷ 173 ∷ 7 ∷ []) (omega arith, (omega arith, (omega arith, tt)))

-- "dead07"
as_hex_run : as_hex (222 ∷ 173 ∷ 7 ∷ []) ≡ 100 ∷ 101 ∷ 97 ∷ 100 ∷ 48 ∷ 55 ∷ []
unfolding as_hex
as_hex_run = refl

-- "DEAD0" and a character that is no digit
from_hex_run : from_hex (68 ∷ 69 ∷ 65 ∷ 68 ∷ 48 ∷ 120 ∷ 49 ∷ []) ≡ 222 ∷ 173 ∷ 0 ∷ []
unfolding from_hex
from_hex_run = refl
