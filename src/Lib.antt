-- ===== src/Lib.antt =====
-- ATEMProxy: a proxy between one ATEM video switcher and many control clients, over UDP.
--
-- The program has two crates. crates/atem-protocol reads and writes packets, commands and
-- handshakes and keeps the reliable endpoint of a session. crates/atem-proxy holds one session with
-- the switcher and one with each client: what the switcher says goes through the state cache and is
-- fanned out, what clients say goes through the filter, which asks the lock broker and the transfer
-- lane, and a client that joins late gets a dump of the cache.
--
-- Protocol follows crates/atem-protocol/src:
--   Packet (packet.rs): PacketHeader, encode, decode, decode_packet, encode_packet;
--   Command, Classify (command.rs): parse_commands, serialize_command, the tables of names, the
--   bodies of lock commands; Session (session.rs): the handshake packets and session ids;
--   Reliable, Outbound (reliable.rs): ReliableEndpoint, its methods, and poll_outbound;
--   Error (error.rs): ProtocolError and the Result that carries it.
--   Link runs two endpoints of reliable.rs against each other over a network that loses, repeats and
--   reorders packets; it has no counterpart in the code but the traffic itself.
-- Proxy follows crates/atem-proxy/src:
--   Config (config.rs, and load_cfg of main.rs), Locks (locks.rs), Transfer (transfer.rs),
--   Filter (filter.rs), Cache (cache.rs), Server (server.rs), Upstream (upstream.rs), Mdns (mdns.rs),
--   Main (main.rs); System (proxy.rs) is both sides together, as a step relation; Net has the
--   addresses and tables that they share.
--   System/EveryClient follows what a client has been told and is still to be told, System/Network
--   runs System with one client on a link of Link, whose sender is the client's session, and
--   System/Commanding follows the clients' commands into the packets sent to the switcher, with the
--   steps in System/Balancing. Upstream/Init has what makes the proxy connected, and Filter/Audio a
--   switcher that reads the audio commands it is sent.
-- A function has the name of the method that it models; a method that changes its object takes the
-- state last and returns the new one. The child modules hold the theorems, and Tests the runs.
--
-- Bytes are numbers and byte strings are lists of them; a u16 keeps its wrap-around as a remainder.
-- A String is the list of its characters. Clocks are read outside: a function that calls
-- Instant::now takes the time in milliseconds. An UDP socket is the list of packets sent, a channel
-- the list of what is put in it. A HashMap is a list of entries under distinct keys or, where only
-- look-ups count, of entries in some order. Objects under a mutex are fields of the state of the
-- part that uses them: the lock table stands in FilterState and in Upstream, one for each direction
-- of the traffic, and System keeps the two equal. A step of System is a round of one task, from
-- what it receives to what it sends. The code holds its locks for parts of a round only and awaits
-- between them; what the other tasks do meanwhile comes, in System, before the round or after it.
-- So the model has no run in which the switcher goes away after a HELLO has been let in, while the
-- reply is being sent, and before the client's session is inserted (handle_datagram of server.rs).
--
-- The loop of parse_commands takes fuel, the length of the payload; every round reads eight bytes
-- or more, so it is enough. All else is structural recursion.
--
-- The announcer of mdns.rs has 100 rounds, which its loop counts down. In Link a packet or an
-- acknowledgement may arrive at any later time, but not after 32000 packets sent since, for the ids
-- come round after 32768; and at most 256 packets are in flight, of which the program has 32.
--
-- Not modelled: logging, sockets and tasks, cancellation of tasks and sends that fail, signals, the
-- random number of a HELLO, which is an argument, and the parser of the command line, which is a
-- library's. The file system, the TOML parser and the parser of addresses are arguments of Config;
-- the mDNS daemon, the host's name and its interfaces are arguments of Mdns; the service manager is
-- one of Main.
pub mod Prelude
pub mod Protocol
pub mod Proxy
