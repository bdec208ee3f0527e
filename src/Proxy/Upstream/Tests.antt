-- ===== src/Proxy/Upstream/Tests.antt =====
-- The theorems on the switcher's side at concrete inputs.
use atemproxy.Prelude.{ℕ, ◌≡◌, ◌*◌, ◌^◌, true, not, List, [], ◌∷◌, arith, min, is_empty}
use atemproxy.Protocol.Error.{ok}
use atemproxy.Protocol.Command.{
  CommandRef, init_complete, command_name, serialize_command, parse_commands,
}
use atemproxy.Protocol.Command.Parsing.{IsFramed, serialize_command-IsFramed}
use atemproxy.Proxy.Upstream.{chunk_commands, no_chunks, base_backoff, backoff_after}
use atemproxy.Proxy.Upstream.Chunking.{
  select, state, audio, transfer, marker, chunk_commands-select,
}
use atemproxy.Proxy.Upstream.Backoff.{failures, backoff_after-failures}

abbrev four : List ℕ
four = 0 ∷ 0 ∷ 0 ∷ 2 ∷ []

abbrev program : CommandRef
program = record {
  name = command_name b'P' b'r' b'g' b'I';
  raw = serialize_command (command_name b'P' b'r' b'g' b'I') four;
  body = four;
}

abbrev done : CommandRef
done = record { name = init_complete; raw = serialize_command init_complete four; body = four }

program-IsFramed : IsFramed program
program-IsFramed = serialize_command-IsFramed (command_name b'P' b'r' b'g' b'I') four (omega arith)

done-IsFramed : IsFramed done
done-IsFramed = serialize_command-IsFramed init_complete four (omega arith)

abbrev two_commands : List CommandRef
two_commands = program ∷ done ∷ []

chunk_commands-select_example :
    (parse_commands ((chunk_commands two_commands no_chunks).state_chunk)
      ≡ ok (select state two_commands))
    × (parse_commands ((chunk_commands two_commands no_chunks).audio_chunk)
        ≡ ok (select audio two_commands))
    × (parse_commands ((chunk_commands two_commands no_chunks).transfer_chunk)
        ≡ ok (select transfer two_commands))
    × ((chunk_commands two_commands no_chunks).saw_incm
        ≡ not (is_empty (select marker two_commands)))
chunk_commands-select_example =
    chunk_commands-select two_commands (program-IsFramed, (done-IsFramed, tt))

backoff_after-failures_example :
    backoff_after (base_backoff 1000) (failures 3 (true ∷ []))
    ≡ min (base_backoff 1000 * 2 ^ 3) 30000
backoff_after-failures_example = backoff_after-failures 3 1000 [] (omega arith)
