-- ===== src/Proxy/System/LinkTests.antt =====
-- A client of the proxy of proxy.rs that joins, acknowledges and is delivered the dump.
use atemproxy.Prelude.{
  ℕ, ◌≡◌, refl, ap, ◌∙◌, sym, subst, some, inl, inr, List, [], ◌∷◌, ◌++◌, arith, length, drop,
}
use atemproxy.Prelude.Bytes.{AreBytes}
use atemproxy.Protocol.Error.{ok, ok-injective}
use atemproxy.Protocol.Packet.{
  PacketHeader, new, ack_reply, encode_packet, encode, decode_packet, decode, contains,
}
use atemproxy.Protocol.Command.{synthetic_init_complete, serialize_command}
use atemproxy.Protocol.Session.{server_session_id, is_handshake_packet}
use atemproxy.Protocol.Reliable.{
  ReliableEndpoint, new_endpoint, default_config, next_packet_id, should_send_ack, accept_reliable,
}
use atemproxy.Protocol.Outbound.{
  reliable_packet, is_stale, launch, retransmit_window, send_loop, ack_if_due, ping_if_idle,
  poll_outbound,
}
use atemproxy.Protocol.Link.{Link, launched, receive, In, IsRecent}
use atemproxy.Protocol.Link.Delivery.{AreFresh, linked}
use atemproxy.Proxy.Net.{get}
use atemproxy.Proxy.Server
use atemproxy.Proxy.Config
use atemproxy.Proxy.Server.{ClientSession, with_rel}
use atemproxy.Proxy.System.{System, served, client_sent, on_timer, timer, Step}
use atemproxy.Proxy.Cache.{StateCache, empty}
use atemproxy.Proxy.Cache.Views.{SameView, ingest_all}
use atemproxy.Proxy.Upstream.Hearing.{states, Unbroken}
use atemproxy.Proxy.System.Knowing.{learns}
use atemproxy.Proxy.System.Joining.{resumed}
use atemproxy.Proxy.System.EndToEnd.{Joint, joins, goes_on, arrives, IsFair, link_after}
use atemproxy.Proxy.System.Network.{Joint-SameView}
use atemproxy.Proxy.System.Tests.{
  config, program, serving, client, ack, opened_client, opened_server, open_system, serving-Heard,
  ack_answered, waiting,
}

abbrev receiver : ReliableEndpoint
receiver =
    let ep = new_endpoint (server_session_id 1) default_config 9 in
    record ep { next_send_id = 1; ack = record ep.ack { expected_recv = 1 } }

ends-AreFresh : AreFresh 1 client.rel receiver
unfolding server_session_id
ends-AreFresh = record {
  next_id = refl;
  expected = refl;
  id_fits = omega arith;
  empty_window = refl;
  empty_queue = refl;
  positive = omega arith;
  small = omega arith;
  sender_fits = omega arith;
  receiver_fits = omega arith;
  no_ack = refl;
  no_recv = refl;
}

abbrev joined_link : Link
joined_link = linked client.rel receiver

joined : Joint config 7 serving empty joined_link
unfolding get
joined = joins serving empty client receiver serving-Heard refl refl ends-AreFresh

abbrev ack_step : Step config serving open_system
ack_step = client_sent 12 ack 7 opened_server [] serving ack_answered

ack-AreBytes : AreBytes ack
unfolding encode_packet encode
ack-AreBytes = omega arith

abbrev ack_header : PacketHeader
ack_header = new ack_reply (server_session_id 1) 12

ack_decoded : decode_packet ack ≡ ok (record ack_header { length_field = 12 }, [])
unfolding encode_packet encode decode_packet decode server_session_id
ack_decoded = refl

ack-IsFair : IsFair 7 joined_link ack_step
unfolding is_handshake_packet contains
ack-IsFair _ = (
  ack-AreBytes,
  λ hdr p e. (
    ap (λ (x : PacketHeader × List ℕ). is_handshake_packet x.0.flags)
        (ok-injective (sym e ∙ ack_decoded)),
    inr (inl refl),
  ),
)

abbrev opened_link : Link
opened_link = resumed opened_client.rel joined_link

opened : Joint config 7 open_system empty opened_link
unfolding get
opened = goes_on serving open_system empty joined_link joined ack_step tt ack-IsFair

-- The timer polls the session, which sends the dump.
abbrev polled : System
polled =
    served (on_timer config 20 20 open_system).0 (on_timer config 20 20 open_system).1 open_system

abbrev timer_step : Step config open_system polled
timer_step = timer 20 20 open_system

abbrev sent_link : Link
sent_link = link_after 7 timer_step opened_link

abbrev told_dump : StateCache
told_dump = learns 7 timer_step empty

sent : Joint config 7 polled told_dump sent_link
sent = goes_on open_system polled empty opened_link opened timer_step tt tt

abbrev dump_packet : List ℕ
dump_packet = reliable_packet opened_client.rel (program ++ synthetic_init_complete)

on_wire : In (1, dump_packet) sent_link.wire
unfolding launched poll_outbound retransmit_window is_stale send_loop launch ack_if_due
    should_send_ack ping_if_idle next_packet_id
on_wire = inl refl

recent : IsRecent 1 sent_link
unfolding launched poll_outbound retransmit_window is_stale send_loop launch ack_if_due
    should_send_ack ping_if_idle next_packet_id
recent = omega arith

abbrev told_link : Link
told_link = receive dump_packet sent_link

delivered : Joint config 7 polled told_dump told_link
delivered = arrives polled told_dump sent_link 1 dump_packet sent on_wire recent

abbrev sent_client : ClientSession
sent_client = with_rel (poll_outbound 20 20 opened_client.rel).0 opened_client

found : get 7 polled.server.sessions ≡ some sent_client
unfolding Server.on_tick Server.poll_sessions get Config.default_config
found = refl

all_delivered : told_link.delivered ≡ (program ++ synthetic_init_complete) ∷ []
unfolding launched poll_outbound retransmit_window is_stale send_loop launch ack_if_due
    should_send_ack ping_if_idle next_packet_id receive encode_packet encode decode_packet decode
    contains accept_reliable server_session_id serialize_command synthetic_init_complete
all_delivered = refl

still_waiting : Unbroken polled.unread
unfolding Server.on_tick
still_waiting = subst Unbroken (sym waiting) tt

Joint-SameView_example :
    SameView
      (ingest_all
        (told_link.delivered
          ++ (drop (length told_link.delivered) told_link.history
              ++ (sent_client.rel.outbound ++ states polled.unread)))
        empty)
      polled.upstream.cache
Joint-SameView_example =
    Joint-SameView config 7 polled told_dump told_link sent_client delivered found refl
      still_waiting
