-- ===== src/Prelude/Bytes.antt =====
-- Bytes and big-endian words.
use Prim.Native.Nat.{ℕ, ◌+◌, ◌*◌, ◌/◌, ◌%◌, ◌<◌}
use mathlib.Core.List.{List, [], ◌∷◌}
use atemproxy.Prelude.Lists.{All, get_or}

abbrev pub IsByte : ℕ → Type 0
IsByte b = b < 256

abbrev pub AreBytes : List ℕ → Type 0
AreBytes = All IsByte

abbrev pub IsU16 : ℕ → Type 0
IsU16 w = w < 65536

-- `(w as u16).to_be_bytes()`
abbrev pub to_be_bytes : ℕ → List ℕ
to_be_bytes w = (w % 65536 / 256) ∷ (w % 256) ∷ []

-- `u16::from_be_bytes([hi, lo])`
abbrev pub from_be_bytes : ℕ → ℕ → ℕ
from_be_bytes hi lo = hi * 256 + lo

-- `buf[i]`; every read stands behind a check of the length.
abbrev pub byte_at : List ℕ → ℕ → ℕ
byte_at xs i = get_or xs i 0
