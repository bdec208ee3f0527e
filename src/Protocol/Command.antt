-- ===== src/Protocol/Command.antt =====
-- crates/atem-protocol/src/command.rs: the framing of commands, and the bodies of
-- `_ver`, `_pin` and `InCm`. What the names mean is in `Classify`.
pub mod Parsing
pub mod Lossless
pub mod Refusals
pub mod Product
mod Tests
use atemproxy.Prelude.{
  ℕ, zero, suc, ◌+◌, Bool, ◌&&◌, ◌||◌, Option, none, some, List, [], ◌∷◌, ◌++◌, ltb, ◌==◌,
  if◌then◌else◌, length, take, drop, is_empty,
}
use atemproxy.Prelude.Bytes.{to_be_bytes, from_be_bytes, byte_at}
use atemproxy.Prelude.Utf8.{from_utf8, is_control, is_whitespace}
use atemproxy.Protocol.Error.{Result, ok, err, bad_command, bad_command_name, ◌>>=◌}

-- `struct CommandName(pub [u8; 4])`
pub record CommandName : Type 0 where
  pub c₀ : ℕ
  pub c₁ : ℕ
  pub c₂ : ℕ
  pub c₃ : ℕ

abbrev pub command_name : ℕ → ℕ → ℕ → ℕ → CommandName
command_name a b c d = record { c₀ = a; c₁ = b; c₂ = c; c₃ = d }

abbrev pub name_bytes : CommandName → List ℕ
name_bytes n = n.c₀ ∷ n.c₁ ∷ n.c₂ ∷ n.c₃ ∷ []

-- The derived `==`.
unfoldable pub name_eq : CommandName → CommandName → Bool
name_eq n m = n.c₀ == m.c₀ && n.c₁ == m.c₁ && n.c₂ == m.c₂ && n.c₃ == m.c₃

abbrev pub init_complete : CommandName
init_complete = command_name b'I' b'n' b'C' b'm'

-- The characters of the name.
unfoldable pub as_str : CommandName → Result (List ℕ)
as_str n = elim (from_utf8 (name_bytes n)) [ none ↦ err bad_command_name | some s ↦ ok s ]

unfoldable pub from_bytes : List ℕ → Result CommandName
from_bytes b =
    if ltb (length b) 4
    then err bad_command_name
    else ok (command_name (byte_at b 0) (byte_at b 1) (byte_at b 2) (byte_at b 3))

pub record CommandRef : Type 0 where
  pub name : CommandName
  pub raw : List ℕ
  pub body : List ℕ

unfoldable pub serialize_command : CommandName → List ℕ → List ℕ
serialize_command name body =
    to_be_bytes (8 + length body) ++ to_be_bytes 0 ++ name_bytes name ++ body

-- After the loop of `parse_commands`: bytes that are left over are an error.
abbrev pub finish : ℕ → List ℕ → Result (List CommandRef)
finish offset rest = if is_empty rest then ok [] else err (bad_command offset)

-- `u16::from_be_bytes([payload[offset], payload[offset + 1]])`
abbrev pub frame_len : List ℕ → ℕ
frame_len rest = from_be_bytes (byte_at rest 0) (byte_at rest 1)

-- A round of the loop of `parse_commands`. `rest` is `payload[offset..]`, so that
-- `offset + 8 <= payload.len()` reads `8 <= rest.len()`; `more` is what the later rounds return,
-- and the commands pushed on `out` are the list returned.
unfoldable pub parse_round : ℕ → List ℕ → Result (List CommandRef) → Result (List CommandRef)
unfolding from_bytes
parse_round offset rest more =
    let len = frame_len rest in
    if ltb (length rest) 8
    then finish offset rest
    else (if ltb len 8 || ltb (length rest) len
        then err (bad_command offset)
        else (from_bytes (take 4 (drop 4 rest)) >>= λ name. more >>= λ cmds.
            ok (record { name = name; raw = take len rest; body = drop 8 (take len rest) } ∷ cmds)))

unfoldable pub parse_loop : ℕ → ℕ → List ℕ → Result (List CommandRef)
unfolding parse_round
parse_loop zero offset rest = finish offset rest
parse_loop (suc fuel) offset rest =
    parse_round offset rest (parse_loop fuel (offset + frame_len rest) (drop (frame_len rest) rest))

-- Each round takes eight bytes at least, so the payload's length is fuel enough.
unfoldable pub parse_commands : List ℕ → Result (List CommandRef)
parse_commands payload = parse_loop (length payload) 0 payload

unfoldable pub parse_version : List ℕ → Option (ℕ × ℕ)
parse_version body =
    if ltb (length body) 4
    then none
    else some (
      from_be_bytes (byte_at body 0) (byte_at body 1),
      from_be_bytes (byte_at body 2) (byte_at body 3),
    )

-- `&body[..end]` for the first NUL, or all of it.
unfoldable pub until_nul : List ℕ → List ℕ
until_nul [] = []
until_nul (b ∷ bs) = if b == 0 then [] else b ∷ until_nul bs

abbrev pub is_padding : ℕ → Bool
is_padding c = is_control c || is_whitespace c

-- `trim_end_matches`
unfoldable pub trim_end : List ℕ → List ℕ
trim_end [] = []
trim_end (c ∷ cs) = let rest = trim_end cs in if is_empty rest && is_padding c then [] else c ∷ rest

abbrev non_empty : List ℕ → Option (List ℕ)
non_empty s = if is_empty s then none else some s

unfoldable pub parse_product_name : List ℕ → Option (List ℕ)
parse_product_name body = elim (from_utf8 (until_nul body)) [
  | none ↦ none
  | some s ↦ non_empty (trim_end s)
]

unfoldable pub synthetic_init_complete : List ℕ
synthetic_init_complete = serialize_command init_complete (1 ∷ 0 ∷ 0 ∷ 0 ∷ [])
