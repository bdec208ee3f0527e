-- ===== src/Proxy/Transfer.antt =====
-- crates/atem-proxy/src/transfer.rs: the exclusive lane of a media transfer. The lock table, which
-- the lane shares with the broker, and the clock are arguments.
pub mod Exclusive
mod Tests
use atemproxy.Prelude.{
  ℕ, ◌+◌, ◌-◌, ◌^◌, Bool, true, false, Option, none, some, List, [], ◌∷◌, ◌==◌, if◌then◌else◌,
  length, min,
}
use atemproxy.Protocol.Command.{CommandName, command_name}
use atemproxy.Protocol.Classify.{one_of, is_transfer_command, lock_store_id}
use atemproxy.Protocol.Reliable.{Millis}
use atemproxy.Proxy.Net.{SocketAddr}
use atemproxy.Proxy.Config.{MediaConfig}
use atemproxy.Proxy.Locks.{LockTable, owner_of, is_owner}

pub data TransferClientDecision : Type 0 where
  forward drop : TransferClientDecision

pub record ActiveTransfer : Type 0 where
  pub owner : SocketAddr
  pub store : Option ℕ
  pub bytes_forwarded : ℕ
  pub started : Option Millis

-- The lane: nobody's, or one client's transfer. `clear` makes it `none`.
abbrev pub Lane : Type 0
Lane = Option ActiveTransfer

unfoldable pub current_owner : Lane → Option SocketAddr
current_owner none = none
current_owner (some a) = some a.owner

abbrev pub or_else {ℓ} : {A : Type ℓ} → Option A → Option A → Option A
or_else none b = b
or_else (some a) b = some a

abbrev pub begin_names : List CommandName
begin_names = command_name b'F' b'T' b'S' b'D' ∷ command_name b'F' b'T' b'S' b'U' ∷ []

abbrev pub data_names : List CommandName
data_names = command_name b'F' b'T' b'D' b'a' ∷ []

abbrev pub end_names : List CommandName
end_names = command_name b'F' b'T' b'D' b'C' ∷ command_name b'F' b'T' b'D' b'E' ∷ []

-- `FTSD` and `FTSU` start the owner's next transfer.
abbrev restart : CommandName → Option ℕ → Millis → ActiveTransfer → ActiveTransfer
restart name store now a =
    if one_of name begin_names
    then record a { store = or_else store a.store; started = some now; bytes_forwarded = 0 }
    else a

-- `saturating_add` on a `u64`. The cap of `max_upload_mb` is only logged.
abbrev count_bytes : CommandName → List ℕ → ActiveTransfer → ActiveTransfer
count_bytes name body a =
    if one_of name data_names
    then record a { bytes_forwarded = min (a.bytes_forwarded + length body) (2 ^ 64 - 1) }
    else a

-- A transfer command of the lane's owner.
unfoldable pub owner_command : CommandName → List ℕ → Millis → ActiveTransfer → Lane
owner_command name body now a =
    if one_of name end_names
    then none
    else some (count_bytes name body (restart name (lock_store_id body) now a))

abbrev opening : SocketAddr → List ℕ → Millis → ActiveTransfer
opening from body now = record {
  owner = from;
  store = lock_store_id body;
  bytes_forwarded = 0;
  started = some now;
}

-- The `match` on the lane.
unfoldable pub on_lane :
    SocketAddr → CommandName → List ℕ → Millis → Lane → Lane × TransferClientDecision
unfolding owner_command
on_lane from name body now none = (some (opening from body now), forward)
on_lane from name body now (some a) =
    if a.owner == from then (owner_command name body now a, forward) else (some a, drop)

unfoldable pub client_transfer :
    MediaConfig
    → LockTable
    → SocketAddr
    → CommandName
    → List ℕ
    → Millis
    → Lane
    → Lane × TransferClientDecision
client_transfer cfg locks from name body now lane =
    if cfg.enabled
    then (if is_transfer_command name
        then (if is_owner from locks then on_lane from name body now lane else (lane, drop))
        else (lane, forward))
    else (lane, drop)

unfoldable pub fanout_owner : MediaConfig → LockTable → Lane → Option SocketAddr
fanout_owner cfg locks lane =
    if cfg.enabled
    then or_else (or_else (current_owner lane) (owner_of 0 locks)) (owner_of 255 locks)
    else none

unfoldable pub client_disconnected : SocketAddr → Lane → Lane
client_disconnected addr none = none
client_disconnected addr (some a) = if a.owner == addr then none else some a
