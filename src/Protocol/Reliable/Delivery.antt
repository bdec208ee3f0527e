-- ===== src/Protocol/Reliable/Delivery.antt =====
-- ReliableEndpoint::accept_reliable of reliable.rs over a sequence of arrivals.
use atemproxy.Prelude.{
  ℕ, ◌≡◌, refl, sym, ◌∙◌, ◌⊎◌, inl, inr, true, false, Bool, some, List, [], ◌∷◌, arith, length,
  if◌then◌else◌, Bool-cases, ◌==◌, ◌<◌, ==_iff,
}
use atemproxy.Protocol.Reliable.{ReliableEndpoint, next_packet_id, accept_reliable}
use atemproxy.Protocol.Reliable.Ids.{
  ids_from, advance, advance-suc, next_packet_id-lt, advance-zero,
}

-- The ids accepted from a sequence of arrivals, each with its retransmit flag.
pub accepted : List (ℕ × Bool) → ReliableEndpoint → ReliableEndpoint × List ℕ
accepted [] ep = (ep, [])
accepted ((id, again) ∷ arrivals) ep =
    let (ep', ok) = accept_reliable id again ep in
    let (last, ids) = accepted arrivals ep' in (last, if ok then id ∷ ids else ids)

accept_reliable-cases :
    (id : ℕ) (again : Bool) (ep : ReliableEndpoint)
    → ((id ≡ ep.ack.expected_recv)
        × ((accept_reliable id again ep).1 ≡ true)
        × ((accept_reliable id again ep).0.ack.expected_recv ≡ next_packet_id ep.ack.expected_recv)
        × ((accept_reliable id again ep).0.ack.highest_recv ≡ some id))
      ⊎ ((accept_reliable id again ep) ≡ (ep, false))
unfolding accept_reliable
accept_reliable-cases id again ep = elim (Bool-cases (id == ep.ack.expected_recv)) [
  | inl e ↦ inl ((==_iff id ep.ack.expected_recv).0 e, ground arith, ground arith, ground arith)
  | inr e ↦ inr (ground arith)
]

-- Whatever arrives, in whatever order and however often, the ids accepted are the ids in a row from
-- the one expected at first, and the one expected at last is the next in the row. The one expected
-- at first is below `2 ^ 15`.
pub accepted-ids :
    (arrivals : List (ℕ × Bool)) (ep : ReliableEndpoint)
    → ep.ack.expected_recv < 32768
    → let (last, ids) = accepted arrivals ep in
      (ids ≡ ids_from ep.ack.expected_recv (length ids))
      × (last.ack.expected_recv ≡ advance (length ids) ep.ack.expected_recv)
unfolding accepted
accepted-ids [] ep h = (refl, sym (advance-zero ep.ack.expected_recv h))
accepted-ids ((id, again) ∷ arrivals) ep h = elim (accept_reliable-cases id again ep) [
  | inl (same, yes_, next, _) ↦
      let (ids, last) =
        accepted-ids arrivals (accept_reliable id again ep).0
          (rw next (next_packet_id-lt ep.ack.expected_recv)) in
      let ids' = rw next at ids in
      rw yes_ ((λ i. same i ∷ ids' i), (rw next at last) ∙ sym (advance-suc _ ep.ack.expected_recv))
  | inr e ↦ rw (e, accepted) (accepted-ids arrivals ep h)
]
