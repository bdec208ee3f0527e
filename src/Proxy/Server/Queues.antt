-- ===== src/Proxy/Server/Queues.antt =====
-- What the operations of server.rs on a client's session do to what is queued for the client.
use atemproxy.Prelude.{
  ◌≡◌, refl, ◌∙◌, inl, inr, arith, Bool-cases, ℕ, Bool, true, false, not, ◌||◌, List, [], ◌++◌,
  ◌==◌, is_empty,
}
use atemproxy.Protocol.Packet.{PacketHeader, contains, ack_reply, ack_request, is_retransmit}
use atemproxy.Protocol.Reliable.{
  Millis, ReliableEndpoint, note_recv, on_ack_id, accept_reliable, queue_commands_packed, pack,
}
use atemproxy.Proxy.Net.{SocketAddr}
use atemproxy.Proxy.Cache.{StateCache, dump}
use atemproxy.Proxy.Filter.{FilterPolicy, FilterState}
use atemproxy.Proxy.Server.{ClientSession, open_session, on_ack, on_reliable, on_packet, with_rel}

-- A session after a packet: its queue is as it was, or the session has been opened and the commands
-- are queued, packed.
pub data Queued (commands : List (List ℕ)) (s s' : ClientSession) : Type 0 where
  same : s'.opened ≡ s.opened → s'.rel.outbound ≡ s.rel.outbound → Queued commands s s'
  opens :
      s.opened ≡ false
      → s'.opened ≡ true
      → s'.rel.outbound ≡ s.rel.outbound ++ pack [] commands
      → Queued commands s s'

open_session-Queued :
    (commands : List (List ℕ)) (s : ClientSession)
    → s.dump_sent ≡ s.opened
    → Queued commands s (open_session commands s)
unfolding queue_commands_packed
open_session-Queued commands s h = elim (Bool-cases s.opened) [
  | inl e ↦ simp e (same refl refl)
  | inr e ↦ let unsent : s.dump_sent ≡ false = h ∙ e in simp (e, unsent) (opens e refl refl)
]

on_ack-Queued :
    (hdr : PacketHeader) (commands : List (List ℕ)) (s : ClientSession)
    → s.dump_sent ≡ s.opened
    → Queued commands s (on_ack hdr commands s)
unfolding on_ack on_ack_id
on_ack-Queued hdr commands s h =
    elim (Bool-cases (contains hdr.flags ack_reply || not (hdr.ack_id == 0))) [
      | inl e ↦
          rw e (before (open_session-Queued commands (with_rel (on_ack_id hdr.ack_id s.rel) s) h))
      | inr e ↦ rw e (same refl refl)
    ]
  where
    before :
        {s' : ClientSession}
        → Queued commands (with_rel (on_ack_id hdr.ack_id s.rel) s) s'
        → Queued commands s s'
    before (same o q) = same o q
    before (opens c o q) = opens c o q

accept_reliable-outbound :
    (id : ℕ) (again : Bool) (ep : ReliableEndpoint)
    → (accept_reliable id again ep).0.outbound ≡ ep.outbound
unfolding accept_reliable
accept_reliable-outbound id again ep = ground arith

on_reliable-same :
    (policy : FilterPolicy) (addr : SocketAddr) (now : Millis) (hdr : PacketHeader)
    (payload : List ℕ) (s : ClientSession) (f : FilterState)
    → let s' = (on_reliable policy addr now hdr payload s f).0 in
      (s'.opened ≡ s.opened) × (s'.rel.outbound ≡ s.rel.outbound)
unfolding on_reliable
on_reliable-same policy addr now hdr payload s f =
    let again = contains hdr.flags is_retransmit in
    let kept = accept_reliable-outbound hdr.packet_id again s.rel in
    elim (Bool-cases (accept_reliable hdr.packet_id again s.rel).1) [
      | inl e ↦ elim (Bool-cases (is_empty payload)) [
        | inl k ↦ rw (e, k) (refl, kept)
        | inr k ↦ rw (e, k) (refl, kept)
      ]
      | inr e ↦ rw e (refl, kept)
    ]

pub on_packet-Queued :
    (policy : FilterPolicy) (cache : StateCache) (addr : SocketAddr) (now : Millis)
    (hdr : PacketHeader) (payload : List ℕ) (s : ClientSession) (f : FilterState)
    → s.dump_sent ≡ s.opened
    → Queued (dump cache) s (on_packet policy cache addr now hdr payload s f).0
unfolding on_packet note_recv
on_packet-Queued policy cache addr now hdr payload s f h =
    let heard = record s { rel = note_recv now s.rel } in
    let acked = on_ack hdr (dump cache) heard in
    let q : Queued (dump cache) s acked = before (on_ack-Queued hdr (dump cache) heard h) in
    elim (Bool-cases (contains hdr.flags ack_request)) [
      | inl e ↦
          let (o, w) = on_reliable-same policy addr now hdr payload acked f in rw e (after o w q)
      | inr e ↦ rw e q
    ]
  where
    before :
        {s' : ClientSession}
        → Queued (dump cache) (with_rel (note_recv now s.rel) s) s'
        → Queued (dump cache) s s'
    before (same o q) = same o q
    before (opens c o q) = opens c o q

    after :
        {s' s'' : ClientSession}
        → s''.opened ≡ s'.opened
        → s''.rel.outbound ≡ s'.rel.outbound
        → Queued (dump cache) s s'
        → Queued (dump cache) s s''
    after o w (same o' q) = same (o ∙ o') (w ∙ q)
    after o w (opens c o' q) = opens c (o ∙ o') (w ∙ q)
