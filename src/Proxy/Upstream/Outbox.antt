-- ===== src/Proxy/Upstream/Outbox.antt =====
-- What waits to be sent to the switcher, in upstream.rs: a datagram leaves it as it is.
use atemproxy.Prelude.{
  ◌≡◌, refl, ◌∙◌, inl, inr, arith, ℕ, Bool, true, false, List, [], ◌∷◌, if◌then◌else◌,
}
use atemproxy.Protocol.Error.{Result-cases}
use atemproxy.Protocol.Packet.{PacketHeader, contains, is_retransmit, ack_request, decode_packet}
use atemproxy.Protocol.Command.{CommandRef, parse_commands}
use atemproxy.Protocol.Session.{is_handshake_packet}
use atemproxy.Protocol.Reliable.{Millis, accept_reliable, on_ack_id, note_recv}
use atemproxy.Proxy.Upstream.{
  Upstream, chunk_commands, no_chunks, publish_state, publish_audio, publish_transfer,
  on_init_complete, handle_commands, handle_upstream_payload, on_reliable, on_packet, on_datagram,
  deliver, with_rel, take_ack, adopt_session,
}

-- The queue of the endpoint and the commands that wait for it.
pub record IsKept (st st' : Upstream) : Type 0 where
  pub queue : st'.rel.outbound ≡ st.rel.outbound
  pub pending : st'.pending_cmds ≡ st.pending_cmds

IsKept-refl : (st : Upstream) → IsKept st st
IsKept-refl st = record { queue = refl; pending = refl }

IsKept-trans : (a b c : Upstream) → IsKept a b → IsKept b c → IsKept a c
IsKept-trans a b c f g = record { queue = g.queue ∙ f.queue; pending = g.pending ∙ f.pending }

if-IsKept :
    {A : Type 0} (b : Bool) (st : Upstream) (x y : Upstream × A)
    → IsKept st x.0
    → IsKept st y.0
    → IsKept st ((if b then x else y).0)
if-IsKept true st x y f g = f
if-IsKept false st x y f g = g

publish_state-IsKept : (p : List ℕ) (st : Upstream) → IsKept st (publish_state p st)
unfolding publish_state
publish_state-IsKept [] st = IsKept-refl st
publish_state-IsKept (b ∷ p) st = record { queue = refl; pending = refl }

publish_audio-IsKept : (p : List ℕ) (st : Upstream) → IsKept st (publish_audio p st)
unfolding publish_audio
publish_audio-IsKept [] st = IsKept-refl st
publish_audio-IsKept (b ∷ p) st = record { queue = refl; pending = refl }

publish_transfer-IsKept : (p : List ℕ) (st : Upstream) → IsKept st (publish_transfer p st)
unfolding publish_transfer
publish_transfer-IsKept [] st = IsKept-refl st
publish_transfer-IsKept (b ∷ p) st = record { queue = refl; pending = refl }

on_init_complete-IsKept : (st : Upstream) → IsKept st ((on_init_complete st).0)
unfolding on_init_complete
on_init_complete-IsKept st =
    if-IsKept st.is_connected st _ _ (record { queue = refl; pending = refl })
      (record { queue = refl; pending = refl })

handle_commands-IsKept :
    (cmds : List CommandRef) (st : Upstream) → IsKept st ((handle_commands cmds st).0)
unfolding handle_commands
handle_commands-IsKept cmds st =
    let c = chunk_commands cmds no_chunks in
    let st₁ = publish_state c.state_chunk st in
    let st₂ = publish_audio c.audio_chunk st₁ in
    let st₃ = publish_transfer c.transfer_chunk st₂ in
    let published : IsKept st st₃ =
      IsKept-trans st st₁ st₃ (publish_state-IsKept c.state_chunk st) (
        IsKept-trans st₁ st₂ st₃ (publish_audio-IsKept c.audio_chunk st₁)
          (publish_transfer-IsKept c.transfer_chunk st₂)) in
    if-IsKept c.saw_incm st _ _ (IsKept-trans st st₃ _ published (on_init_complete-IsKept st₃))
      published

deliver-IsKept : (payload : List ℕ) (st : Upstream) → IsKept st ((deliver payload st).0)
unfolding handle_upstream_payload
deliver-IsKept [] st = IsKept-refl st
deliver-IsKept (b ∷ payload) st = elim (Result-cases (parse_commands (b ∷ payload))) [
  | inl (cmds, p) ↦ rw (p, handle_upstream_payload) (handle_commands-IsKept cmds st)
  | inr (x, p) ↦ rw (p, handle_upstream_payload) (record { queue = refl; pending = refl })
]

accepted-IsKept :
    (id : ℕ) (again : Bool) (st : Upstream)
    → IsKept st (with_rel (accept_reliable id again st.rel).0 st)
unfolding accept_reliable
accepted-IsKept id again st = record { queue = ground arith; pending = refl }

on_reliable-IsKept :
    (hdr : PacketHeader) (payload : List ℕ) (st : Upstream)
    → IsKept st ((on_reliable hdr payload st).0)
unfolding on_reliable
on_reliable-IsKept hdr payload st =
    let r = accept_reliable hdr.packet_id (contains hdr.flags is_retransmit) st.rel in
    let kept : IsKept st (with_rel r.0 st) =
      accepted-IsKept hdr.packet_id (contains hdr.flags is_retransmit) st in
    if-IsKept r.1 st _ _
      (IsKept-trans st (with_rel r.0 st) _ kept (deliver-IsKept payload (with_rel r.0 st))) kept

acked-IsKept :
    (hdr : PacketHeader) (st : Upstream)
    → IsKept st (with_rel (take_ack hdr (adopt_session hdr st.rel)) st)
unfolding on_ack_id
acked-IsKept hdr st = record { queue = ground arith; pending = refl }

on_packet-IsKept :
    (hdr : PacketHeader) (payload : List ℕ) (st : Upstream)
    → IsKept st ((on_packet hdr payload st).0)
unfolding on_packet
on_packet-IsKept hdr payload st =
    let st' = with_rel (take_ack hdr (adopt_session hdr st.rel)) st in
    let kept : IsKept st st' = acked-IsKept hdr st in
    if-IsKept (is_handshake_packet hdr.flags) st _ _ kept (
      if-IsKept (contains hdr.flags ack_request) st _ _
        (IsKept-trans st st' _ kept (on_reliable-IsKept hdr payload st'))
        (IsKept-trans st st' _ kept (deliver-IsKept payload st')))

pub on_datagram-IsKept :
    (now : Millis) (bytes : List ℕ) (st : Upstream) → IsKept st ((on_datagram now bytes st).0)
unfolding on_datagram note_recv
on_datagram-IsKept now bytes st =
    let heard = with_rel (note_recv now st.rel) st in
    let kept : IsKept st heard = record { queue = refl; pending = refl } in
    elim (Result-cases (decode_packet bytes)) [
      | inl ((hdr, payload), e) ↦
          rw (e, on_datagram) (IsKept-trans st heard _ kept (on_packet-IsKept hdr payload heard))
      | inr (x, e) ↦ rw (e, on_datagram) kept
    ]
