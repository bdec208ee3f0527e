-- ===== src/Proxy/Transfer/Tests.antt =====
-- The theorems on the transfer lane at concrete inputs: client 7 owns store 0.
use atemproxy.Prelude.{◌≡◌, ◌⊎◌, refl, true, none, some, [], ◌∷◌}
use atemproxy.Protocol.Command.{CommandName, command_name, name_eq}
use atemproxy.Protocol.Classify.{one_of, is_transfer_command}
use atemproxy.Proxy.Config.{MediaConfig, default_media}
use atemproxy.Proxy.Locks.{LockTable, is_owner}
use atemproxy.Proxy.Transfer.{
  TransferClientDecision, ActiveTransfer, current_owner, end_names, on_lane, client_transfer,
}
use atemproxy.Proxy.Transfer.Exclusive.{client_transfer-forward}

abbrev media : MediaConfig
media = record default_media { enabled = true }

abbrev table : LockTable
table = (0, record { owner = some 7; upstream_locked = true }) ∷ []

abbrev begin : CommandName
begin = command_name b'F' b'T' b'S' b'D'

abbrev transfer : ActiveTransfer
transfer = record { owner = 7; store = some 0; bytes_forwarded = 0; started = some 5 }

begins : is_transfer_command begin ≡ true
unfolding is_transfer_command one_of name_eq
begins = refl

forwarded :
    (client_transfer media table 7 begin (0 ∷ 0 ∷ []) 9 none).1 ≡ TransferClientDecision.forward
unfolding client_transfer on_lane is_transfer_command is_owner one_of name_eq
forwarded = refl

client_transfer-forward_example :
    (media.enabled ≡ true)
    × (is_owner 7 table ≡ true)
    × ((current_owner none ≡ none) ⊎ (current_owner none ≡ some 7))
    × ((current_owner ((client_transfer media table 7 begin (0 ∷ 0 ∷ []) 9 none).0) ≡ some 7)
        ⊎ ((client_transfer media table 7 begin (0 ∷ 0 ∷ []) 9 none).0 ≡ none)
          × (one_of begin end_names ≡ true))
client_transfer-forward_example =
    client_transfer-forward media table 7 begin (0 ∷ 0 ∷ []) 9 none begins forwarded
