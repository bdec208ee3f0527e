-- ===== src/Proxy/System/CommandTests.antt =====
-- A client of the proxy of proxy.rs that cuts to another source.
use atemproxy.Prelude.{ℕ, ◌≡◌, refl, List, [], ◌∷◌, ◌++◌, flatten}
use atemproxy.Protocol.Error.{ok}
use atemproxy.Protocol.Packet.{
  PacketHeader, new, ack_request, encode_packet, encode, decode_packet, decode, contains,
}
use atemproxy.Protocol.Command.{command_name, serialize_command}
use atemproxy.Protocol.Session.{
  server_session_id, is_handshake_packet, build_client_handshake, build_server_handshake_reply,
}
use atemproxy.Protocol.Outbound.Carrying.{Carries}
use atemproxy.Proxy.Upstream.{keep_framed, on_command}
use atemproxy.Proxy.Server.{Server, Effect, send_to, on_session, handle_datagram}
use atemproxy.Proxy.System.{
  System, served, policy_of, with_locks, forwarded, on_client, Run, Step, client_sent, commanded,
  then_, switched, left_after,
}
use atemproxy.Proxy.System.Balancing.{issued_by, emitted_by, waiting}
use atemproxy.Proxy.System.Commanding.{Forwarding, Forwarding-flatten, nothing}
use atemproxy.Proxy.System.Commanding
use atemproxy.Prelude.Utf8
use atemproxy.Proxy.Net
use atemproxy.Proxy.Server
use atemproxy.Proxy.Filter
use atemproxy.Protocol.Reliable
use atemproxy.Protocol.Command
use atemproxy.Protocol.Classify
use atemproxy.Proxy.System.Tests.{
  config, rel, idle, connected, welcomed, serving, ack, opened_server, open_system, connected-Run,
  hello_answered, ack_answered,
}

open_system-Run : Run config idle open_system
open_system-Run =
    then_ idle serving open_system
      (then_ idle connected serving connected-Run (
        client_sent 9 (build_client_handshake 0x1234) 7 welcomed
          (send_to 7 (build_server_handshake_reply (server_session_id 1)) ∷ []) connected
          hello_answered))
      (client_sent 12 ack 7 opened_server [] serving ack_answered)

abbrev cut : List ℕ
cut = serialize_command (command_name b'C' b'P' b'g' b'I') (0 ∷ 0 ∷ 0 ∷ 3 ∷ [])

-- The client's packet 1.
abbrev cut_packet : List ℕ
cut_packet = encode_packet (record (new ack_request (server_session_id 1) 0) { packet_id = 1 }) cut

abbrev cut_header : PacketHeader
cut_header = record (new ack_request (server_session_id 1) 24) { packet_id = 1 }

abbrev cut_result : Server × List Effect
cut_result =
    on_session (policy_of config) open_system.upstream.cache 7 20 cut_header cut
      (with_locks open_system)

cut_answered : on_client config 20 cut_packet 7 open_system ≡ ok (cut_result.0, cut_result.1)
unfolding handle_datagram encode_packet encode decode_packet decode server_session_id contains
    is_handshake_packet serialize_command
cut_answered = refl

abbrev cut_system : System
cut_system = served cut_result.0 cut_result.1 open_system

abbrev cut_step : Step config open_system cut_system
cut_step = client_sent 20 cut_packet 7 cut_result.0 cut_result.1 open_system cut_answered

in_channel : cut_system.commands ≡ cut ∷ ([] ++ [])
unfolding forwarded Net.get Server.on_packet contains Server.on_reliable Reliable.accept_reliable
    Server.on_ack Reliable.note_recv Server.apply_actions serialize_command Filter.process_payload
    Command.parse_commands Command.parse_loop Command.parse_round Filter.process_commands
    Filter.process_command Classify.is_lock_request Classify.one_of Classify.str_and
    Classify.contains Classify.is_audio_levels_subscribe Classify.is_transfer_command
    Classify.starts_with Command.as_str Command.name_eq Utf8.chars_from Utf8.next
    Reliable.next_packet_id Reliable.on_ack_id Reliable.pop_covered Net.put server_session_id
in_channel = refl

abbrev sent_system : System
sent_system = record (switched (on_command 25 25 cut [] cut_system.upstream).0 cut_system) {
  commands = left_after cut [] [];
}

abbrev sent_step : Step config cut_system sent_system
sent_step = commanded 25 25 cut [] [] cut_system in_channel

forwarding :
    Forwarding config open_system sent_system
      (([] ++ issued_by cut_step) ++ issued_by sent_step)
      (([] ++ emitted_by cut_step) ++ emitted_by sent_step)
forwarding =
    Commanding.then_ open_system cut_system sent_system _ _
      (Commanding.then_ open_system open_system cut_system [] [] (nothing open_system) cut_step tt)
      sent_step tt

Forwarding-flatten_example :
    (sent : List (List ℕ)) × Carries (([] ++ emitted_by cut_step) ++ emitted_by sent_step) sent
    × (flatten sent ++ waiting sent_system
        ≡ waiting open_system
          ++ flatten (keep_framed (([] ++ issued_by cut_step) ++ issued_by sent_step)))
Forwarding-flatten_example =
    Forwarding-flatten config rel open_system sent_system
      (([] ++ issued_by cut_step) ++ issued_by sent_step)
      (([] ++ emitted_by cut_step) ++ emitted_by sent_step) open_system-Run forwarding
