-- ===== src/Protocol/Classify.antt =====
-- crates/atem-protocol/src/command.rs: what the names of commands mean, and the bodies of lock
-- commands.
pub mod Names
pub mod Locks
mod Tests
use atemproxy.Prelude.{
  ℕ, Bool, true, false, not, ◌&&◌, ◌||◌, Option, none, some, List, [], ◌∷◌, ◌++◌, ltb, ◌==◌,
  if◌then◌else◌, length, take, is_empty, last?, any,
}
use atemproxy.Prelude.Bytes.{to_be_bytes, from_be_bytes, byte_at}
use atemproxy.Protocol.Error.{ok, err}
use atemproxy.Protocol.Command.{
  CommandName, command_name, name_eq, as_str, init_complete, serialize_command,
}

-- `matches!(&name.0, b".." | ..)`
unfoldable pub one_of : CommandName → List CommandName → Bool
one_of n names = any (name_eq n) names

abbrev pub whole_state_names : List CommandName
whole_state_names =
    command_name b'_' b'v' b'e' b'r'
    ∷ init_complete
    ∷ command_name b'_' b'p' b'i' b'n'
    ∷ command_name b'_' b't' b'o' b'p'
    ∷ command_name b'p' b'o' b'w' b'r'
    ∷ []

-- Kept apart by the mix effect, the first byte.
abbrev pub mix_effect_names : List CommandName
mix_effect_names =
    command_name b'P' b'r' b'g' b'I'
    ∷ command_name b'P' b'r' b'v' b'I'
    ∷ command_name b'T' b'r' b'S' b'S'
    ∷ command_name b'T' b'r' b'P' b's'
    ∷ command_name b'T' b'r' b'P' b'r'
    ∷ command_name b'F' b't' b'b' b'S'
    ∷ command_name b'F' b't' b'b' b'P'
    ∷ []

-- Kept apart by an index, the first four bytes.
abbrev pub indexed_names : List CommandName
indexed_names =
    command_name b'K' b'e' b'O' b'n'
    ∷ command_name b'K' b'e' b'B' b'P'
    ∷ command_name b'D' b's' b'k' b'B'
    ∷ command_name b'D' b's' b'k' b'S'
    ∷ command_name b'D' b's' b'k' b'P'
    ∷ command_name b'C' b'o' b'l' b'V'
    ∷ command_name b'A' b'u' b'x' b'S'
    ∷ command_name b'M' b'P' b'C' b'E'
    ∷ command_name b'M' b'P' b'r' b'p'
    ∷ command_name b'C' b'v' b'l' b'I'
    ∷ command_name b'I' b'n' b'P' b'r'
    ∷ command_name b'I' b'n' b'P' b'X'
    ∷ []

-- `take` is `body.get(..4).unwrap_or(body)`, and at 1 it is `body.first()` as a list.
unfoldable pub command_identity : CommandName → List ℕ → List ℕ
command_identity name body =
    if one_of name whole_state_names
    then []
    else (if one_of name mix_effect_names
        then take 1 body
        else (if one_of name indexed_names then take 4 body else []))

abbrev pub ephemeral_names : List CommandName
ephemeral_names =
    command_name b'A' b'M' b'L' b'v'
    ∷ command_name b'A' b'M' b'm' b'O'
    ∷ command_name b'F' b'A' b'S' b'P'
    ∷ command_name b'F' b'M' b'L' b'v'
    ∷ command_name b'F' b'A' b't' b'l'
    ∷ command_name b'F' b'A' b's' b'p'
    ∷ command_name b'T' b'i' b'm' b'e'
    ∷ command_name b'T' b'i' b'm' b'C'
    ∷ command_name b'T' b'C' b'C' b'c'
    ∷ []

unfoldable pub is_ephemeral_command : CommandName → Bool
is_ephemeral_command name = one_of name ephemeral_names

-- `s.starts_with(p)`
unfoldable pub starts_with : List ℕ → List ℕ → Bool
starts_with [] s = true
starts_with (p ∷ ps) [] = false
starts_with (p ∷ ps) (c ∷ cs) = p == c && starts_with ps cs

-- `s.contains(p)`
unfoldable pub contains : List ℕ → List ℕ → Bool
contains p [] = is_empty p
contains p (c ∷ cs) = starts_with p (c ∷ cs) || contains p cs

-- `name.as_str().ok().is_some_and(test)`
unfoldable pub str_and : CommandName → (List ℕ → Bool) → Bool
str_and name test = elim (as_str name) [ ok s ↦ test s | err e ↦ false ]

abbrev pub lock : CommandName
lock = command_name b'L' b'O' b'C' b'K'

abbrev pub lock_request_names : List CommandName
lock_request_names = lock ∷ command_name b'P' b'L' b'C' b'K' ∷ []

abbrev pub lock_status_names : List CommandName
lock_status_names = command_name b'L' b'K' b'S' b'T' ∷ command_name b'L' b'K' b'O' b'B' ∷ []

unfoldable pub is_lock_command : CommandName → Bool
is_lock_command name =
    one_of name (lock_request_names ++ lock_status_names)
    || str_and name (starts_with (b'L' ∷ b'o' ∷ b'c' ∷ b'k' ∷ []))

unfoldable pub is_lock_request : CommandName → Bool
is_lock_request name = one_of name lock_request_names

unfoldable pub is_lock_status : CommandName → Bool
is_lock_status name = one_of name lock_status_names

unfoldable pub lock_store_id : List ℕ → Option ℕ
lock_store_id body =
    if ltb (length body) 2 then none else some (from_be_bytes (byte_at body 0) (byte_at body 1))

abbrev last_or_zero : List ℕ → ℕ
last_or_zero body = elim (last? body) [ none ↦ 0 | some b ↦ b ]

unfoldable pub lock_request_enabled : List ℕ → Bool
lock_request_enabled body =
    if ltb 2 (length body) then not (byte_at body 2 == 0) else not (last_or_zero body == 0)

unfoldable pub synthesize_unlock : ℕ → List ℕ
synthesize_unlock store = serialize_command lock (to_be_bytes store ++ 0 ∷ 0 ∷ [])

abbrev pub transfer_names : List CommandName
transfer_names =
    command_name b'F' b'T' b'S' b'D'
    ∷ command_name b'F' b'T' b'S' b'U'
    ∷ command_name b'F' b'T' b'C' b'D'
    ∷ command_name b'F' b'T' b'D' b'a'
    ∷ command_name b'F' b'T' b'U' b'A'
    ∷ command_name b'F' b'T' b'F' b'D'
    ∷ command_name b'F' b'T' b'D' b'C'
    ∷ command_name b'F' b'T' b'D' b'E'
    ∷ command_name b'F' b'T' b'E' b'S'
    ∷ []

unfoldable pub is_transfer_command : CommandName → Bool
is_transfer_command name =
    one_of name transfer_names
    || str_and name
        (λ s. starts_with (b'F' ∷ b'T' ∷ []) s || starts_with (b'D' ∷ b'a' ∷ b't' ∷ b'a' ∷ []) s)

abbrev pub audio_names : List CommandName
audio_names =
    command_name b'S' b'A' b'L' b'N'
    ∷ command_name b'F' b'A' b'S' b'P'
    ∷ command_name b'S' b'A' b'f' b'f'
    ∷ []

abbrev pub levels : List ℕ
levels = b'L' ∷ b'e' ∷ b'v' ∷ b'e' ∷ b'l' ∷ b's' ∷ []

abbrev pub send_levels : List ℕ
send_levels = b'S' ∷ b'e' ∷ b'n' ∷ b'd' ∷ levels

abbrev pub enable_word : List ℕ
enable_word = b'E' ∷ b'n' ∷ b'a' ∷ b'b' ∷ b'l' ∷ b'e' ∷ []

unfoldable pub is_audio_levels_subscribe : CommandName → Bool
is_audio_levels_subscribe name =
    one_of name audio_names
    || str_and name (λ s. contains send_levels s || contains levels s && contains enable_word s)
