-- ===== src/Protocol/Reliable/Ids.antt =====
-- next_packet_id and is_ack_covering of reliable.rs, in terms of places on the circle of ids.
use atemproxy.Prelude.{
  ℕ, zero, suc, ◌+◌, ◌-◌, ◌%◌, ◌≤◌, ◌<◌, ◌≡◌, ◌↔◌, true, false, List, [], ◌∷◌, arith,
}
use atemproxy.Protocol.Reliable.{next_packet_id, is_ack_covering}

-- The id that is `n` places after `id`.
unfoldable pub advance : ℕ → ℕ → ℕ
advance n id = (id + n) % 32768

-- `n` ids in a row.
abbrev pub ids_from : ℕ → ℕ → List ℕ
ids_from id zero = []
ids_from id (suc n) = id ∷ ids_from (next_packet_id id) n

pub next_packet_id_lem : (id : ℕ) → next_packet_id id ≡ (id + 1) % 32768
unfolding next_packet_id
next_packet_id_lem id = omega arith

pub next_packet_id-lt : (id : ℕ) → next_packet_id id < 32768
next_packet_id-lt id = omega (arith, next_packet_id_lem id)

pub advance-zero : (id : ℕ) → id < 32768 → advance 0 id ≡ id
unfolding advance
advance-zero id h = omega arith

pub advance-suc : (n id : ℕ) → advance (suc n) id ≡ advance n (next_packet_id id)
unfolding advance
advance-suc n id = omega (arith, next_packet_id_lem id)

pub next-advance : (n id : ℕ) → next_packet_id (advance n id) ≡ advance (suc n) id
unfolding advance
next-advance n id = omega (arith, next_packet_id_lem ((id + n) % 32768))

-- An acknowledgement covers an id just when it is that id or one of the 255 after it, round the
-- end of the id space.
is_ack_covering_iff :
    (ack_id packet_id : ℕ)
    → ack_id < 32768
    → packet_id < 32768
    → (is_ack_covering ack_id packet_id ≡ true)
      ↔ ((k : ℕ) × (k < 256) × (ack_id ≡ advance k packet_id))
unfolding is_ack_covering advance
is_ack_covering_iff ack_id packet_id h p = (
  λ c. ((ack_id + 32768 - packet_id) % 32768, ground arith, omega arith),
  λ (k, l, e). ground arith,
)

-- Seen from the start of a window, at most 256 ids long.
pub covering_in_window :
    (start i k : ℕ)
    → start < 32768
    → i < 256
    → k < 256
    → i ≤ k
    → is_ack_covering (advance k start) (advance i start) ≡ true
unfolding is_ack_covering advance
covering_in_window start i k s p q h = ground arith

pub not-covering_in_window :
    (start i k : ℕ)
    → start < 32768
    → i ≤ 256
    → k < i
    → is_ack_covering (advance k start) (advance i start) ≡ false
unfolding is_ack_covering advance
not-covering_in_window start i k s p h = ground arith

pub advance-lt : (n id : ℕ) → advance n id < 32768
unfolding advance
advance-lt n id = omega arith

pub advance-advance : (m n id : ℕ) → advance m (advance n id) ≡ advance (n + m) id
unfolding advance
advance-advance m n id = omega arith
