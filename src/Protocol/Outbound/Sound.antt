-- ===== src/Protocol/Outbound/Sound.antt =====
-- The window of packets in flight under every operation of ReliableEndpoint (reliable.rs).
use atemproxy.Prelude.{ℕ, ◌≡◌, refl, ap, ◌∙◌, Bool, List, [], ◌∷◌, arith}
use atemproxy.Protocol.Reliable.{
  Millis, ReliableConfig, ReliableEndpoint, build_ack_packet, on_ack_id, accept_reliable,
}
use atemproxy.Protocol.Outbound.{
  retransmit_window, send_loop, ack_if_due, ping_if_idle, launch, poll_outbound,
}
use atemproxy.Protocol.Outbound.Window.{
  IsWindow, same_window, send_loop-config, retransmit_window-config, ack_if_due-config,
  poll_outbound-IsWindow,
}
use atemproxy.Protocol.Outbound.Acks.{on_ack_id-IsWindow}

-- At most 32 packets are in flight, with ids in a row up to the next one to send.
abbrev pub IsSound : ReliableEndpoint → Type 0
IsSound ep = IsWindow ep × (ep.config.max_in_flight ≡ 32)

ping_if_idle-config :
    (now : Millis) (ep : ReliableEndpoint) → (ping_if_idle now ep).0.config ≡ ep.config
unfolding ping_if_idle launch
ping_if_idle-config now ep = ground arith

poll_outbound-config :
    (now clock : Millis) (ep : ReliableEndpoint) → (poll_outbound now clock ep).0.config ≡ ep.config
unfolding poll_outbound
poll_outbound-config now clock ep =
    let ep₁ = (retransmit_window now ep).0 in
    let ep₂ = (send_loop now ep₁.outbound ep₁).0 in
    ping_if_idle-config now (ack_if_due clock ep₂).0
    ∙ ack_if_due-config clock ep₂
    ∙ send_loop-config now ep₁.outbound ep₁
    ∙ retransmit_window-config now ep

pub poll_outbound-IsSound :
    (now clock : Millis) (ep : ReliableEndpoint)
    → IsSound ep
    → IsSound (poll_outbound now clock ep).0
poll_outbound-IsSound now clock ep (w, max) = (
  poll_outbound-IsWindow now clock ep (omega arith) w,
  ap (λ (c : ReliableConfig). c.max_in_flight) (poll_outbound-config now clock ep) ∙ max,
)

pub accept_reliable-IsSound :
    (id : ℕ) (again : Bool) (ep : ReliableEndpoint)
    → IsSound ep
    → IsSound (accept_reliable id again ep).0
unfolding accept_reliable
accept_reliable-IsSound id again ep (w, max) = (
  same_window ep (accept_reliable id again ep).0 (ground arith) (ground arith) (ground arith)
      (ground arith) w,
  ground arith,
)

pub on_ack_id-IsSound : (id : ℕ) (ep : ReliableEndpoint) → IsSound ep → IsSound (on_ack_id id ep)
unfolding on_ack_id
on_ack_id-IsSound id ep (w, max) = (on_ack_id-IsWindow id ep w, max)

-- Operations that leave the window, the next id and the configuration as they are.
pub untouched-IsSound :
    (ep ep' : ReliableEndpoint)
    → ep'.in_flight ≡ ep.in_flight
    → ep'.next_send_id ≡ ep.next_send_id
    → ep'.config ≡ ep.config
    → IsSound ep
    → IsSound ep'
untouched-IsSound ep ep' es next c (w, max) = (same_window ep ep' (cc) (cc) next (cc) w, cc)

send_loop-opened :
    (now : Millis) (queue : List (List ℕ)) (ep : ReliableEndpoint)
    → (send_loop now queue ep).0.opened ≡ ep.opened
unfolding send_loop launch
send_loop-opened now [] ep = refl
send_loop-opened now (p ∷ queue) ep = ground (arith, send_loop-opened now queue (launch now p ep))

retransmit_window-opened :
    (now : Millis) (ep : ReliableEndpoint) → (retransmit_window now ep).0.opened ≡ ep.opened
unfolding retransmit_window
retransmit_window-opened now ep = ground arith

ack_if_due-opened :
    (clock : Millis) (ep : ReliableEndpoint) → (ack_if_due clock ep).0.opened ≡ ep.opened
unfolding ack_if_due build_ack_packet
ack_if_due-opened clock ep = ground arith

ping_if_idle-opened :
    (now : Millis) (ep : ReliableEndpoint) → (ping_if_idle now ep).0.opened ≡ ep.opened
unfolding ping_if_idle launch
ping_if_idle-opened now ep = ground arith

pub poll_outbound-opened :
    (now clock : Millis) (ep : ReliableEndpoint) → (poll_outbound now clock ep).0.opened ≡ ep.opened
unfolding poll_outbound
poll_outbound-opened now clock ep =
    let ep₁ = (retransmit_window now ep).0 in
    let ep₂ = (send_loop now ep₁.outbound ep₁).0 in
    ping_if_idle-opened now (ack_if_due clock ep₂).0
    ∙ ack_if_due-opened clock ep₂
    ∙ send_loop-opened now ep₁.outbound ep₁
    ∙ retransmit_window-opened now ep
