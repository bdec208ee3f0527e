-- ===== src/Prelude/Text.antt =====
-- Texts as lists of their characters, and the `str` methods that the components share.
use Prim.Native.Nat.{ℕ, ◌+◌, ◌-◌, ◌/◌, ◌%◌, suc, zero}
use Prim.Native.Char.{code}
use Prim.Native.String.{String}
use mathlib.Core.Bool.{Bool, ◌&&◌}
use mathlib.Core.List.{List, [], ◌∷◌, ◌++◌}
use atemproxy.Prelude.Tests.{ltb, leb, bytes_eq, if◌then◌else◌}
use atemproxy.Prelude.Lists.{length, drop, is_empty}

abbrev pub Text : Type 0
Text = List ℕ

abbrev pub codes : String → Text
codes String.[] = []
codes (String.◌∷◌ c s) = code c ∷ codes s

unfoldable pub ends_with : Text → Text → Bool
unfolding bytes_eq
ends_with suffix s =
    leb (length suffix) (length s) && bytes_eq (drop (length s - length suffix) s) suffix

unfoldable pub trim_start : (ℕ → Bool) → Text → Text
trim_start p [] = []
trim_start p (c ∷ cs) = let rest = trim_start p cs in if p c then rest else c ∷ cs

unfoldable pub trim_end : (ℕ → Bool) → Text → Text
trim_end p [] = []
trim_end p (c ∷ cs) = let rest = trim_end p cs in if is_empty rest && p c then [] else c ∷ rest

-- `trim_matches`, and `trim` for the characters that are white space.
abbrev pub trim_matches : (ℕ → Bool) → Text → Text
trim_matches p s = trim_end p (trim_start p s)

-- A number below `10 ^ fuel` in decimal.
unfoldable pub decimal : ℕ → ℕ → Text
decimal zero n = []
decimal (suc fuel) n =
    let front = decimal fuel (n / 10) in
    if ltb n 10 then (b'0' + n) ∷ [] else front ++ (b'0' + n % 10) ∷ []
