-- ===== src/Proxy/Cache/Tests.antt =====
-- The theorems on the cache at concrete inputs.
use atemproxy.Prelude.{ℕ, ◌≡◌, refl, List, [], ◌∷◌, arith}
use atemproxy.Prelude.Bytes.{AreBytes}
use atemproxy.Protocol.Error.{ok}
use atemproxy.Protocol.Command.{
  CommandRef, command_name, parse_commands, parse_loop, parse_round, from_bytes,
}
use atemproxy.Proxy.Cache.{StateCache, empty, get, key_of, ingest_payload}
use atemproxy.Proxy.Cache.Keys.{latest, ingest_payload-get}
use atemproxy.Proxy.Cache.Dump.{IsState, ingest_payload-IsState}

abbrev program_bytes : List ℕ
program_bytes = 0 ∷ 12 ∷ 0 ∷ 0 ∷ b'P' ∷ b'r' ∷ b'g' ∷ b'I' ∷ 0 ∷ 0 ∷ 0 ∷ 2 ∷ []

abbrev program : CommandRef
program = record {
  name = command_name b'P' b'r' b'g' b'I';
  raw = program_bytes;
  body = 0 ∷ 0 ∷ 0 ∷ 2 ∷ [];
}

parsed : parse_commands program_bytes ≡ ok (program ∷ [])
unfolding parse_commands parse_loop parse_round from_bytes
parsed = refl

abbrev filled : StateCache
filled = ingest_payload program_bytes empty

bytes : AreBytes program_bytes
bytes = omega arith

filled-IsState : IsState filled.entries
filled-IsState = ingest_payload-IsState program_bytes empty bytes (tt, tt)

ingest_payload-get_example :
    get (key_of program) ((ingest_payload program_bytes empty).entries)
    ≡ latest (key_of program) (program ∷ []) (get (key_of program) empty.entries)
ingest_payload-get_example =
    ingest_payload-get (key_of program) program_bytes (program ∷ []) empty parsed

ingest_payload-IsState_example : IsState ((ingest_payload program_bytes empty).entries)
ingest_payload-IsState_example = ingest_payload-IsState program_bytes empty bytes (tt, tt)
