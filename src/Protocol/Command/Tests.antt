-- ===== src/Protocol/Command/Tests.antt =====
-- Runs of the parser of commands, and its theorems at concrete inputs.
use atemproxy.Prelude.{ℕ, ◌≡◌, ◌+◌, refl, some, List, [], ◌∷◌, ◌++◌, arith, All, drop, length, inl}
use atemproxy.Prelude.Bytes.{AreBytes}
use atemproxy.Protocol.Error.{ok, err, bad_command}
use atemproxy.Protocol.Command.{
  CommandRef, command_name, init_complete, serialize_command, parse_commands, parse_round,
  parse_loop, frame_len, from_bytes, parse_version,
}
use atemproxy.Protocol.Command.Parsing.{
  IsFramed, serialize_command-IsFramed, wire, parse_from, parse_from_lem, parse_commands-wire,
}
use atemproxy.Protocol.Command.Lossless.{wire-parse_commands}
use atemproxy.Protocol.Command.Refusals.{IsBad, parse_commands-bad}

abbrev four : List ℕ
four = 0 ∷ 0 ∷ 0 ∷ 2 ∷ []

abbrev program : CommandRef
program = record {
  name = command_name b'P' b'r' b'g' b'I';
  raw = serialize_command (command_name b'P' b'r' b'g' b'I') four;
  body = four;
}

abbrev marker : CommandRef
marker = record { name = init_complete; raw = serialize_command init_complete four; body = four }

program-IsFramed : IsFramed program
program-IsFramed = serialize_command-IsFramed (command_name b'P' b'r' b'g' b'I') four (omega arith)

marker-IsFramed : IsFramed marker
marker-IsFramed = serialize_command-IsFramed init_complete four (omega arith)

abbrev program_bytes : List ℕ
program_bytes = 0 ∷ 12 ∷ 0 ∷ 0 ∷ b'P' ∷ b'r' ∷ b'g' ∷ b'I' ∷ four

program_bytes-AreBytes : AreBytes program_bytes
program_bytes-AreBytes = omega arith

serialize_command_run : program.raw ≡ program_bytes
unfolding serialize_command
serialize_command_run = refl

abbrev program_read : CommandRef
program_read = record { name = command_name b'P' b'r' b'g' b'I'; raw = program_bytes; body = four }

parse_commands_run : parse_commands program_bytes ≡ ok (program_read ∷ [])
unfolding parse_commands parse_loop parse_round from_bytes
parse_commands_run = refl

parse_version_run : parse_version (0 ∷ 2 ∷ 0 ∷ 30 ∷ []) ≡ some (2, 30)
unfolding parse_version
parse_version_run = refl

parse_commands-wire_example :
    parse_commands (wire (program ∷ marker ∷ [])) ≡ ok (program ∷ marker ∷ [])
parse_commands-wire_example =
    parse_commands-wire (program ∷ marker ∷ []) (program-IsFramed, (marker-IsFramed, tt))

wire-parse_commands_example :
    All IsFramed (program_read ∷ []) × (wire (program_read ∷ []) ≡ program_bytes)
wire-parse_commands_example =
    wire-parse_commands program_bytes (program_read ∷ []) program_bytes-AreBytes parse_commands_run

parse_from_lem_example :
    parse_from 24 program_bytes
    ≡ parse_round 24 program_bytes
        (parse_from (24 + frame_len program_bytes) (drop (frame_len program_bytes) program_bytes))
parse_from_lem_example = parse_from_lem 24 program_bytes

-- A command, and three bytes more.
three-IsBad : IsBad (1 ∷ 2 ∷ 3 ∷ [])
three-IsBad = ((λ e. cc), inl (omega arith))

parse_commands-bad_example :
    parse_commands (wire (program ∷ []) ++ 1 ∷ 2 ∷ 3 ∷ [])
    ≡ err (bad_command (length (wire (program ∷ []))))
parse_commands-bad_example =
    parse_commands-bad (program ∷ []) (1 ∷ 2 ∷ 3 ∷ []) (program-IsFramed, tt) three-IsBad
