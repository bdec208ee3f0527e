-- ===== src/Protocol/Link/Tests.antt =====
-- Links of reliable.rs in particular states.
use atemproxy.Prelude.{
  ℕ, ◌<◌, ◌≤◌, ◌≡◌, refl, true, inl, List, [], ◌∷◌, ◌++◌, arith, length, get_or, All,
}
use atemproxy.Protocol.Packet.{encode_packet, encode, decode_packet, decode, contains}
use atemproxy.Protocol.Packet.RoundTrip.{carried}
use atemproxy.Protocol.Reliable.{
  ReliableEndpoint, new_endpoint, default_config, queue_payload, next_packet_id, should_send_ack,
  build_ack_packet, accept_reliable,
}
use atemproxy.Protocol.Outbound.{
  reliable_packet, is_stale, launch, retransmit_window, send_loop, ack_if_due, ping_if_idle,
  poll_outbound,
}
use atemproxy.Protocol.Link.{
  Link, launched, queue, poll, receive, acknowledge, In, IsRecent, Step, Run,
}
use Step.{queues, polls, arrives, acknowledges, loses}
use Run.{start, then_}
use atemproxy.Protocol.Link.State.{full}
use atemproxy.Protocol.Link.Delivery.{AreFresh, linked}
use atemproxy.Protocol.Link.Order.{Short, delivered_prefix, Run-Kept, Kept}
use atemproxy.Protocol.Link.Stall.{IsStalled, lost_ack_stall}
use atemproxy.Protocol.Link.Progress.{Delivers, retransmission-Delivers}

-- At most one packet may be in flight.
abbrev sending_end : ReliableEndpoint
sending_end = record (new_endpoint 7 (record default_config { max_in_flight = 1 }) 0) {
  next_send_id = 1;
}

abbrev receiving_end : ReliableEndpoint
receiving_end =
    let ep = new_endpoint 7 default_config 0 in
    record ep { ack = record ep.ack { expected_recv = 1 } }

ends-AreFresh : AreFresh 1 sending_end receiving_end
ends-AreFresh = record {
  next_id = refl;
  expected = refl;
  id_fits = omega arith;
  empty_window = refl;
  empty_queue = refl;
  positive = omega arith;
  small = omega arith;
  sender_fits = omega arith;
  receiver_fits = omega arith;
  no_ack = refl;
  no_recv = refl;
}

abbrev apart : Link
apart = linked sending_end receiving_end

abbrev queued_one : Link
queued_one = queue (5 ∷ []) apart

abbrev sent_one : Link
sent_one = poll 10 10 queued_one

abbrev packet_one : List ℕ
packet_one = reliable_packet sending_end (5 ∷ [])

abbrev got_one : Link
got_one = receive packet_one sent_one

sent_one-Run : Run apart sent_one
sent_one-Run =
    then_ apart queued_one sent_one
      (then_ apart apart queued_one (start apart) (queues (5 ∷ []) apart)) (polls 10 10 queued_one)

sent_one-In : In (1, packet_one) sent_one.wire
unfolding poll_outbound launched retransmit_window send_loop launch ack_if_due ping_if_idle
    queue_payload is_stale should_send_ack
sent_one-In = inl refl

sent_one-IsRecent : IsRecent 1 sent_one
unfolding poll_outbound launched retransmit_window send_loop launch ack_if_due ping_if_idle
    queue_payload is_stale should_send_ack
sent_one-IsRecent = omega arith

got_one-Run : Run apart got_one
got_one-Run =
    then_ apart sent_one got_one sent_one-Run
      (arrives 1 packet_one sent_one sent_one-In sent_one-IsRecent)

got_one-Short : All Short got_one.queued
unfolding encode_packet encode decode_packet decode contains receive accept_reliable next_packet_id
    poll_outbound launched retransmit_window send_loop launch ack_if_due ping_if_idle queue_payload
    is_stale should_send_ack
got_one-Short = omega arith

delivered_prefix_example :
    (rest : List (List ℕ)) × (full got_one.delivered ++ rest ≡ full got_one.queued)
delivered_prefix_example =
    delivered_prefix 1 sending_end receiving_end got_one ends-AreFresh got_one-Run got_one-Short

Run-Kept_example : Kept got_one
Run-Kept_example = Run-Kept 1 sending_end receiving_end got_one ends-AreFresh got_one-Run

-- The acknowledgement of the packet is lost, and another payload is queued.
abbrev unheard : Link
unheard = record (acknowledge 10 got_one) { wire = []; acks = [] }

unheard-Run : Run apart unheard
unheard-Run =
    then_ apart (acknowledge 10 got_one) unheard
      (then_ apart got_one (acknowledge 10 got_one) got_one-Run (acknowledges 10 got_one))
      (loses [] [] (acknowledge 10 got_one) tt tt)

unheard-IsStalled : IsStalled unheard
unfolding encode_packet encode decode_packet decode contains receive accept_reliable next_packet_id
    acknowledge build_ack_packet poll_outbound launched retransmit_window send_loop launch
    ack_if_due ping_if_idle queue_payload is_stale should_send_ack
unheard-IsStalled = record {
  all_delivered = refl;
  window_full = omega arith;
  no_acks = refl;
  nothing_to_ack = refl;
  coalesces = omega arith;
}

abbrev stalled : Link
stalled = poll 100 100 (queue (6 ∷ []) unheard)

lost_ack_stall_example :
    (stalled.delivered ≡ unheard.delivered)
    × (stalled.history ≡ unheard.history)
    × (stalled.acks ≡ [])
    × (stalled.sender.config.max_in_flight ≤ length stalled.sender.in_flight)
    × ((t : ℕ) (bytes : List ℕ)
        → In (t, bytes) stalled.wire
        → IsRecent t stalled
        → receive bytes stalled ≡ stalled)
lost_ack_stall_example =
    lost_ack_stall 1 sending_end receiving_end unheard (poll 100 100 (queue (6 ∷ []) unheard))
      ends-AreFresh unheard-Run unheard-IsStalled
      (then_ unheard (queue (6 ∷ []) unheard) (poll 100 100 (queue (6 ∷ []) unheard))
        (then_ unheard unheard (queue (6 ∷ []) unheard) (start unheard) (queues (6 ∷ []) unheard))
        (polls 100 100 (queue (6 ∷ []) unheard)))

-- The packet is lost, and sent again 30 milliseconds later.
sent_one-stale : is_stale 40 sent_one.sender ≡ true
unfolding poll_outbound launched retransmit_window send_loop launch ack_if_due ping_if_idle
    queue_payload is_stale should_send_ack
sent_one-stale = refl

sent_one-missing : length sent_one.delivered < length sent_one.history
unfolding poll_outbound launched retransmit_window send_loop launch ack_if_due ping_if_idle
    queue_payload is_stale should_send_ack
sent_one-missing = omega arith

retransmission-Delivers_example :
    Delivers
      (length (poll 40 40 sent_one).history)
      (carried (get_or sent_one.history (length sent_one.delivered) []))
      (poll 40 40 sent_one)
retransmission-Delivers_example =
    retransmission-Delivers 1 sending_end receiving_end 40 40 sent_one ends-AreFresh sent_one-Run
      sent_one-missing sent_one-stale
