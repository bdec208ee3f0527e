-- ===== src/Protocol/Link/Holding.antt =====
-- The window of the sender of a link, and the packets that it emits, while more are sent.
use atemproxy.Prelude.{
  ℕ, suc, ◌+◌, ◌≤◌, ◌<◌, ◌≡◌, sym, subst, false, List, [], ◌∷◌, ◌++◌, arith, length, get_or, All,
  ◌⊎◌, inl, inr, length-append, get_or-append,
}
use native.Mathlib.Nat.{add-zero}
use atemproxy.Protocol.Error.{ok}
use atemproxy.Protocol.Packet.{PacketHeader, contains, ack_request, decode_packet}
use atemproxy.Protocol.Reliable.{InFlightEntry}
use atemproxy.Protocol.Reliable.Ids.{advance}
use atemproxy.Protocol.Link.Wire.{IsPacket, Reads}
use atemproxy.Protocol.Link.State.{Holds}

module _ (first : ℕ) where
  -- What `poll_outbound` emits: a packet of the window, or one that is not to be delivered.
  abbrev pub Emitted : ℕ → List (List ℕ) → List ℕ → Type 0
  Emitted base history bytes =
      ((i : ℕ) × (base ≤ i)
        × (i < length history)
        × Reads (advance i first) (get_or history i []) bytes)
      ⊎ ((h : PacketHeader) (p : List ℕ)
          → decode_packet bytes ≡ ok (h, p)
          → contains h.flags ack_request ≡ false)

  pub Emitted-more :
      (base : ℕ) (history more : List (List ℕ)) (bytes : List ℕ)
      → Emitted base history bytes
      → Emitted base (history ++ more) bytes
  Emitted-more base history more bytes (inl (i, low, high, r)) = inl (
    i,
    low,
    omega (arith, length-append history more),
    subst (λ p. Reads (advance i first) p bytes) (sym (get_or-append history more i [] high)) r,
  )
  Emitted-more base history more bytes (inr q) = inr q

  pub Emitted-append :
      (base : ℕ) (history more : List (List ℕ)) (out : List (List ℕ))
      → All (Emitted base history) out
      → All (Emitted base (history ++ more)) out
  Emitted-append base history more [] h = tt
  Emitted-append base history more (bytes ∷ out) h =
      (Emitted-more base history more bytes h.0, Emitted-append base history more out h.1)

  pub Holds-append :
      (history more : List (List ℕ)) (i : ℕ) (es : List InFlightEntry)
      → i + length es ≤ length history
      → Holds first history i es
      → Holds first (history ++ more) i es
  Holds-append history more i [] l h = tt
  Holds-append history more i (e ∷ es) l h = (
    subst (λ p. IsPacket (advance i first) p e.bytes)
        (sym (get_or-append history more i [] (omega arith))) h.0,
    Holds-append history more (suc i) es (omega arith) h.1,
  )

  next_place : (i n : ℕ) → i + suc n ≡ suc i + n
  next_place i n = omega arith

  pub Holds-next :
      (history : List (List ℕ)) (i : ℕ) (es : List InFlightEntry) (e : InFlightEntry)
      → Holds first history i es
      → IsPacket (advance (i + length es) first) (get_or history (i + length es) []) e.bytes
      → Holds first history i (es ++ e ∷ [])
  Holds-next history i [] e h k = (rw add-zero at k, tt)
  Holds-next history i (x ∷ es) e h k = (
    h.0,
    Holds-next history (suc i) es e h.1 (
        subst (λ m. IsPacket (advance m first) (get_or history m []) e.bytes)
          (next_place i (length es)) k),
  )
