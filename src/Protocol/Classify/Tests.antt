-- ===== src/Protocol/Classify/Tests.antt =====
-- Runs of the classification of names, and its theorems at concrete inputs.
use atemproxy.Prelude.{◌≡◌, refl, true, false, some, [], ◌∷◌, arith}
use atemproxy.Protocol.Error.{ok}
use atemproxy.Protocol.Command.{command_name, name_eq, parse_commands}
use atemproxy.Protocol.Classify.{
  lock, one_of, audio_names, is_lock_request, is_audio_levels_subscribe, lock_store_id,
  lock_request_enabled, synthesize_unlock,
}
use atemproxy.Protocol.Classify.Names.{is_audio_levels_subscribe_lem}
use atemproxy.Protocol.Classify.Locks.{unlock_command, synthesize_unlock-read}

lock_is_request : is_lock_request lock ≡ true
unfolding is_lock_request one_of name_eq
lock_is_request = refl

is_audio_levels_subscribe_lem_example :
    is_audio_levels_subscribe (command_name b'S' b'A' b'L' b'N')
    ≡ one_of (command_name b'S' b'A' b'L' b'N') audio_names
is_audio_levels_subscribe_lem_example =
    is_audio_levels_subscribe_lem (command_name b'S' b'A' b'L' b'N')

synthesize_unlock-read_example :
    (parse_commands (synthesize_unlock 255) ≡ ok (unlock_command 255 ∷ []))
    × (is_lock_request lock ≡ true)
    × (lock_store_id ((unlock_command 255).body) ≡ some 255)
    × (lock_request_enabled ((unlock_command 255).body) ≡ false)
synthesize_unlock-read_example = synthesize_unlock-read 255 (omega arith)
