-- ===== src/Key.antt =====
-- include/qkd/key/key.h: a key is an id and its bytes. The meta data (state, crypto schemes,
-- disclosed bits, error rate, time stamp) is not modelled.
use ait_qkd.Prelude.{ℕ, ◌==◌, List, [], Bool, length, ◌&&◌}
pub mod Sub
mod Tests

pub record Key : Type 0 where
  pub id : ℕ
  pub bytes : List ℕ

unfoldable pub size : Key → ℕ
size k = length k.bytes

abbrev pub null : Key
null = record { id = 0; bytes = [] }

-- `(*this == null()) && (data().size() == 0)`, where keys compare by id.
unfoldable pub is_null : Key → Bool
is_null k = k.id == null.id && length k.bytes == 0
