-- ===== src/Proxy/Transfer/Exclusive.antt =====
-- TransferLane::client_transfer of transfer.rs: who gets the lane and who keeps it.
use atemproxy.Prelude.{◌≡◌, ◌⊎◌, arith, ℕ, true, none, some, List}
use atemproxy.Protocol.Command.{CommandName}
use atemproxy.Protocol.Classify.{is_transfer_command, one_of}
use atemproxy.Protocol.Reliable.{Millis}
use atemproxy.Proxy.Net.{SocketAddr}
use atemproxy.Proxy.Config.{MediaConfig}
use atemproxy.Proxy.Locks.{LockTable, is_owner}
use atemproxy.Proxy.Transfer.{
  TransferClientDecision, ActiveTransfer, Lane, current_owner, end_names, owner_command, on_lane,
  client_transfer, client_disconnected,
}

-- A command of a transfer is forwarded only if media transfers are on, the client owns a lock, and
-- the lane is nobody's or its own. The lane is then its own, or free after the transfer's end.
pub client_transfer-forward :
    (cfg : MediaConfig) (locks : LockTable) (from : SocketAddr) (name : CommandName) (body : List ℕ)
    (now : Millis) (lane : Lane)
    → is_transfer_command name ≡ true
    → (client_transfer cfg locks from name body now lane).1 ≡ TransferClientDecision.forward
    → (cfg.enabled ≡ true)
      × (is_owner from locks ≡ true)
      × ((current_owner lane ≡ none) ⊎ (current_owner lane ≡ some from))
      × let after = (client_transfer cfg locks from name body now lane).0 in
        (current_owner after ≡ some from) ⊎ (after ≡ none) × (one_of name end_names ≡ true)
unfolding client_transfer on_lane current_owner owner_command
client_transfer-forward cfg locks from name body now lane h f = ground arith

-- Neither a command nor the disconnection of a client other than the lane's owner changes the lane.
pub client_transfer-foreign :
    (cfg : MediaConfig) (locks : LockTable) (from : SocketAddr) (name : CommandName) (body : List ℕ)
    (now : Millis) (a : ActiveTransfer)
    → ¬ (a.owner ≡ from)
    → ((client_transfer cfg locks from name body now (some a)).0 ≡ some a)
      × ((client_disconnected from (some a)) ≡ some a)
unfolding client_transfer on_lane client_disconnected
client_transfer-foreign cfg locks from name body now a n = ground arith
