-- ===== src/Prelude/Utf8.antt =====
-- `std::str::from_utf8`: the characters of a byte string, if it is well-formed UTF-8.
use Prim.Native.Nat.{ℕ, ◌+◌, ◌-◌, ◌*◌}
use mathlib.Core.Bool.{◌&&◌, ◌||◌, Bool}
use mathlib.Core.List.{List, [], ◌∷◌}
use mathlib.Core.Option
use mathlib.Core.Option.{Option, none, some}
use atemproxy.Prelude.Tests.{leb, ltb, ◌==◌, if◌then◌else◌}

-- A character in the making: the bytes still to come, the range of the next one, the bits so far.
pub record Pending : Type 0 where
  pub need : ℕ
  pub lo : ℕ
  pub hi : ℕ
  pub bits : ℕ

abbrev pub between : ℕ → ℕ → ℕ → Bool
between lo hi b = leb lo b && leb b hi

abbrev pub pending : ℕ → ℕ → ℕ → ℕ → Option Pending
pending need lo hi bits = some (record { need = need; lo = lo; hi = hi; bits = bits })

abbrev pub start : ℕ → Option Pending
start b =
    if ltb b 0x80
    then pending 0 0x80 0xbf b
    else if between 0xc2 0xdf b
    then pending 1 0x80 0xbf (b - 0xc0)
    else if b == 0xe0
    then pending 2 0xa0 0xbf 0
    else if b == 0xed
    then pending 2 0x80 0x9f 0xd
    else if between 0xe1 0xef b
    then pending 2 0x80 0xbf (b - 0xe0)
    else if b == 0xf0
    then pending 3 0x90 0xbf 0
    else if between 0xf1 0xf3 b
    then pending 3 0x80 0xbf (b - 0xf0)
    else if b == 0xf4
    then pending 3 0x80 0x8f 4
    else none

unfoldable pub next : Pending → ℕ → Option Pending
next p b =
    if p.need == 0
    then start b
    else if between p.lo p.hi b
    then pending (p.need - 1) 0x80 0xbf (p.bits * 64 + (b - 0x80))
    else none

abbrev pub emit : Pending → List ℕ → List ℕ
emit p cs = if p.need == 0 then p.bits ∷ cs else cs

unfoldable pub chars_from : Pending → List ℕ → Option (List ℕ)
chars_from p [] = if p.need == 0 then some [] else none
chars_from p (b ∷ bs) = elim (next p b) [
  | none ↦ none
  | some q ↦ Option.map (emit q) (chars_from q bs)
]

abbrev pub ready : Pending
ready = record { need = 0; lo = 0x80; hi = 0xbf; bits = 0 }

abbrev pub from_utf8 : List ℕ → Option (List ℕ)
from_utf8 bs = chars_from ready bs

-- `char::is_control` and `char::is_whitespace`.
unfoldable pub is_control : ℕ → Bool
is_control c = ltb c 0x20 || between 0x7f 0x9f c

unfoldable pub is_whitespace : ℕ → Bool
is_whitespace c =
    between 0x09 0x0d c
    || c == 0x20
    || c == 0x85
    || c == 0xa0
    || c == 0x1680
    || between 0x2000 0x200a c
    || between 0x2028 0x2029 c
    || c == 0x202f
    || c == 0x205f
    || c == 0x3000
