-- ===== src/Proxy/Filter.antt =====
-- crates/atem-proxy/src/filter.rs: what becomes of each command that a client sends. The filter's
-- state holds what it shares with the broker and the lane.
pub mod Disabling
pub mod Verdicts
pub mod Audio
mod Tests
use atemproxy.Prelude.{
  ℕ, Bool, true, false, ◌&&◌, Option, none, some, List, [], ◌∷◌, ◌++◌, ◌==◌, if◌then◌else◌,
  is_empty,
}
use atemproxy.Protocol.Error.{ok, err}
use atemproxy.Protocol.Command.{CommandName, CommandRef, name_eq, parse_commands}
use atemproxy.Protocol.Classify.{is_lock_request, is_transfer_command, is_audio_levels_subscribe}
use atemproxy.Protocol.Reliable.{Millis}
use atemproxy.Proxy.Net.{SocketAddr, member, add, discard}
use atemproxy.Proxy.Config.{LockMode, deny, single_owner, MediaConfig}
use atemproxy.Proxy.Locks
use atemproxy.Proxy.Locks.{LockTable, LockDecision, client_lock_request}
use atemproxy.Proxy.Transfer
use atemproxy.Proxy.Transfer.{Lane, TransferClientDecision, client_transfer}

-- The reasons of the source's messages.
pub data Reason : Type 0 where
  lock_denied lock_busy transfer_disabled transfer_not_allowed : Reason

pub data FilterAction : Type 0 where
  forward : List ℕ → FilterAction
  dropped : CommandName → Reason → FilterAction
  audio_subscribe : Bool → Option (List ℕ) → FilterAction

pub record AudioSubs : Type 0 where
  pub clients : List SocketAddr
  pub last_enable : Option (List ℕ)

-- `FilterPolicy`, with the lane's configuration.
pub record FilterPolicy : Type 0 where
  pub lock_mode : LockMode
  pub media : MediaConfig

pub record FilterState : Type 0 where
  pub audio : AudioSubs
  pub warned : List (SocketAddr × CommandName)
  pub locks : LockTable
  pub lane : Lane

abbrev pub new_filter : FilterState
new_filter = record {
  audio = record { clients = []; last_enable = none };
  warned = [];
  locks = [];
  lane = none;
}

unfoldable pub was_warned : SocketAddr → CommandName → List (SocketAddr × CommandName) → Bool
was_warned from name [] = false
was_warned from name ((a, n) ∷ warned) =
    if a == from && name_eq n name then true else was_warned from name warned

-- Only what is logged depends on the set.
unfoldable pub warn_once : SocketAddr → CommandName → FilterState → FilterState
warn_once from name st =
    if was_warned from name st.warned then st else record st { warned = (from, name) ∷ st.warned }

-- `body.last().map(|b| *b != 0).unwrap_or(true)`
unfoldable pub parse_enable_flag : List ℕ → Option Bool
parse_enable_flag [] = none
parse_enable_flag (b ∷ []) = some (if b == 0 then false else true)
parse_enable_flag (b ∷ c ∷ bs) = parse_enable_flag (c ∷ bs)

abbrev unwrap_or_true : Option Bool → Bool
unwrap_or_true none = true
unwrap_or_true (some b) = b

-- The last byte of the command becomes 0.
unfoldable pub synthesize_audio_disable : List ℕ → List ℕ
synthesize_audio_disable [] = []
synthesize_audio_disable (b ∷ []) = 0 ∷ []
synthesize_audio_disable (b ∷ c ∷ bs) = b ∷ synthesize_audio_disable (c ∷ bs)

unfoldable pub on_lock_request :
    FilterPolicy → SocketAddr → CommandRef → FilterState → FilterState × FilterAction
on_lock_request policy from cmd st = elim policy.lock_mode [
  | deny ↦ (warn_once from cmd.name st, dropped cmd.name lock_denied)
  | single_owner ↦
      let (locks, decision) = client_lock_request from cmd.name cmd.body st.locks in
      (
        record st { locks = locks },
        elim decision [
          | LockDecision.forward ↦ forward cmd.raw
          | LockDecision.drop ↦ dropped cmd.name lock_busy
        ],
      )
]

unfoldable pub on_transfer :
    FilterPolicy → SocketAddr → CommandRef → Millis → FilterState → FilterState × FilterAction
on_transfer policy from cmd now st =
    if policy.media.enabled
    then (let (lane, decision) =
          client_transfer policy.media st.locks from cmd.name cmd.body now st.lane in
        (
          record st { lane = lane },
          elim decision [
            | TransferClientDecision.forward ↦ forward cmd.raw
            | TransferClientDecision.drop ↦ dropped cmd.name transfer_not_allowed
          ],
        ))
    else (warn_once from cmd.name st, dropped cmd.name transfer_disabled)

-- The subscribers after a request.
unfoldable pub subscribe : SocketAddr → Bool → List ℕ → AudioSubs → AudioSubs
subscribe from enable raw subs =
    if enable
    then record { clients = add from subs.clients; last_enable = some raw }
    else record subs { clients = discard from subs.clients }

-- The first subscriber and the last one to leave make an edge.
unfoldable pub edge : List SocketAddr → List SocketAddr → Option Bool
edge before after =
    if is_empty before
    then (if is_empty after then none else some true)
    else (if is_empty after then some false else none)

unfoldable pub on_audio : SocketAddr → CommandRef → FilterState → FilterState × FilterAction
on_audio from cmd st =
    let enable = unwrap_or_true (parse_enable_flag cmd.body) in
    let subs = subscribe from enable cmd.raw st.audio in
    (
      record st { audio = subs },
      elim (edge st.audio.clients subs.clients) [
        | none ↦ audio_subscribe enable none
        | some true ↦ audio_subscribe true (some cmd.raw)
        | some false ↦ audio_subscribe false (some (synthesize_audio_disable cmd.raw))
      ],
    )

-- The body of the loop of `process_payload`.
unfoldable pub process_command :
    FilterPolicy → SocketAddr → Millis → CommandRef → FilterState → FilterState × FilterAction
process_command policy from now cmd st =
    if is_lock_request cmd.name
    then on_lock_request policy from cmd st
    else (if is_transfer_command cmd.name
        then on_transfer policy from cmd now st
        else (if is_audio_levels_subscribe cmd.name
            then on_audio from cmd st
            else (st, forward cmd.raw)))

unfoldable pub process_commands :
    FilterPolicy
    → SocketAddr
    → Millis
    → List CommandRef
    → FilterState
    → FilterState × List FilterAction
process_commands policy from now [] st = (st, [])
process_commands policy from now (cmd ∷ cmds) st =
    let (st', action) = process_command policy from now cmd st in
    let (st'', actions) = process_commands policy from now cmds st' in (st'', action ∷ actions)

-- A payload that is no list of commands is forwarded as it is.
unfoldable pub process_payload :
    FilterPolicy → SocketAddr → Millis → List ℕ → FilterState → FilterState × List FilterAction
process_payload policy from now payload st = elim (parse_commands payload) [
  | err _ ↦ (st, forward payload ∷ [])
  | ok cmds ↦ process_commands policy from now cmds st
]

-- The audio part of `client_disconnected`: a disable if the last subscriber leaves.
unfoldable pub leave_audio : SocketAddr → AudioSubs → AudioSubs × List (List ℕ)
leave_audio addr subs =
    let rest = discard addr subs.clients in
    (
      record subs { clients = rest },
      if member addr subs.clients && is_empty rest
          then elim subs.last_enable [ none ↦ [] | some cmd ↦ synthesize_audio_disable cmd ∷ [] ]
          else [],
    )

unfoldable pub client_disconnected : SocketAddr → FilterState → FilterState × List (List ℕ)
client_disconnected addr st =
    let (audio, disables) = leave_audio addr st.audio in
    let (locks, unlocks) = Locks.client_disconnected addr st.locks in
    (
      record st { audio = audio; lane = Transfer.client_disconnected addr st.lane; locks = locks },
      disables ++ unlocks,
    )
