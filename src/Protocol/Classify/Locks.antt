-- ===== src/Protocol/Classify/Locks.antt =====
-- The bodies of lock commands (command.rs).
use atemproxy.Prelude.{
  ◌≡◌, arith, true, false, some, ℕ, ◌<◌, [], ◌∷◌, ◌++◌, ◌∙◌, ap, sym, append-nil,
}
use atemproxy.Prelude.Bytes.{to_be_bytes}
use atemproxy.Protocol.Error.{ok}
use atemproxy.Protocol.Command.{CommandRef, parse_commands, name_eq}
use atemproxy.Protocol.Command.Parsing.{serialize_command-IsFramed, parse_commands-wire}
use atemproxy.Protocol.Classify.{
  lock, lock_store_id, lock_request_enabled, synthesize_unlock, is_lock_request, one_of,
}

-- The command that the bytes of `synthesize_unlock` are.
abbrev pub unlock_command : ℕ → CommandRef
unlock_command store = record {
  name = lock;
  raw = synthesize_unlock store;
  body = to_be_bytes store ++ 0 ∷ 0 ∷ [];
}

-- The bytes that ask the switcher to unlock a store are one command; it is a lock request, for that
-- store, and asks for no lock. A store is a 16-bit number.
pub synthesize_unlock-read :
    (store : ℕ)
    → store < 65536
    → (parse_commands (synthesize_unlock store) ≡ ok (unlock_command store ∷ []))
      × (is_lock_request lock ≡ true)
      × (lock_store_id ((unlock_command store).body) ≡ some store)
      × (lock_request_enabled ((unlock_command store).body) ≡ false)
unfolding synthesize_unlock is_lock_request one_of name_eq lock_store_id lock_request_enabled
synthesize_unlock-read store h = (
  ap parse_commands (sym (append-nil (synthesize_unlock store)))
      ∙ parse_commands-wire (unlock_command store ∷ [])
          (serialize_command-IsFramed lock (to_be_bytes store ++ 0 ∷ 0 ∷ []) (ground arith), tt),
  ground arith,
  ground arith,
  ground arith,
)
