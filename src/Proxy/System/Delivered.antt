-- ===== src/Proxy/System/Delivered.antt =====
-- What a client of the proxy of proxy.rs has been delivered, against the switcher's cache.
use atemproxy.Prelude.{
  ◌≡◌, ◌<◌, refl, ap, sym, subst, ◌∙◌, inl, inr, arith, Bool-cases, Option-cases, ℕ, Bool,
  if◌then◌else◌, true, false, none, some, List, ◌||◌, not, ◌==◌,
}
use atemproxy.Protocol.Error.{ok, ok-injective}
use atemproxy.Protocol.Packet.{PacketHeader, contains, ack_reply, decode_packet}
use atemproxy.Protocol.Session.{is_handshake_packet}
use atemproxy.Protocol.Reliable.{Millis, ReliableEndpoint, on_ack_id, queue_commands_packed}
use atemproxy.Protocol.Link.{Link}
use atemproxy.Protocol.Link.State.{IsLink}
use atemproxy.Proxy.Net.{SocketAddr, get, get-put}
use atemproxy.Proxy.Config.{Config}
use atemproxy.Proxy.Cache.{StateCache, dump}
use atemproxy.Proxy.Upstream.{UpstreamEvent}
use atemproxy.Proxy.Transfer.{fanout_owner}
use atemproxy.Proxy.Server.{
  ClientSession, Server, Effect, with_rel, queue_if, on_packet, on_session, handle_datagram,
  on_event, on_lagged,
}
use atemproxy.Proxy.Server.Queues.{on_packet-Queued, Queued, same, opens}
use atemproxy.Proxy.Server.Endpoints.{queue_if-Alike, resync-Alike, on_packet-Alike, acked}
use atemproxy.Proxy.Server.Sessions.{AllSessions, get-IsSession}
use atemproxy.Proxy.Server.Fanout.{wants, payload_of, lookup_map, get-map, on_event-get}
use atemproxy.Proxy.System.{System, policy_of, with_locks, on_client}
use atemproxy.Proxy.System.Telling.{resynced}
use atemproxy.Proxy.System.Fanning.{disconnected-or, on_event-disconnected}
use atemproxy.Proxy.System.Knowing.{known_by, IsToldBy}
use atemproxy.Proxy.System.Joining.{IsHonest, acked-IsLink, IsJoined, resumed-IsJoined}
use atemproxy.Proxy.System.EndToEnd.{Joined, Moves, gone, moves, resumed_by}

queue_if-opened : (b : Bool) (p : List ℕ) (s : ClientSession) → (queue_if b p s).opened ≡ s.opened
unfolding queue_if
queue_if-opened true p s = refl
queue_if-opened false p s = refl

pub fanned_out-Moves :
    (config : Config) (e : UpstreamEvent) (addr : SocketAddr) (st : System)
    → Moves
        (get addr st.server.sessions)
        (get addr ((on_event (policy_of config) e (with_locks st)).sessions))
unfolding get
fanned_out-Moves config e addr st = elim (disconnected-or e) [
  | inl k ↦ gone (
      ap (λ x. get addr ((on_event (policy_of config) x (with_locks st)).sessions)) k
      ∙ ap (get addr) (on_event-disconnected (policy_of config) (with_locks st)))
  | inr k ↦
      let policy = policy_of config in
      let owner = fanout_owner policy.media st.upstream.locks st.server.filter.lane in
      let after = on_event-get policy e (with_locks st) addr k in
      elim (Option-cases (get addr st.server.sessions)) [
        | inl n ↦ gone (after ∙ ap (lookup_map _) n)
        | inr (s, n) ↦
            moves s (queue_if (wants e owner addr s) (payload_of e) s) n
              (after ∙ ap (lookup_map _) n) (queue_if-Alike (wants e owner addr s) (payload_of e) s)
              (λ h. sym (queue_if-opened (wants e owner addr s) (payload_of e) s) ∙ h)
      ]
]

pub lagged-Moves :
    (addr : SocketAddr) (st : System)
    → Moves
        (get addr st.server.sessions)
        (get addr ((on_lagged st.upstream.cache (with_locks st)).sessions))
unfolding on_lagged
lagged-Moves addr st =
    let commands = dump st.upstream.cache in
    let after = get-map (resynced commands) addr st.server.sessions in
    elim (Option-cases (get addr st.server.sessions)) [
      | inl n ↦ gone (after ∙ ap (lookup_map _) n)
      | inr (s, n) ↦
          moves s (resynced commands s) n (after ∙ ap (lookup_map _) n)
            (resync-Alike s.opened commands s) (λ h. sym (resync-opened s.opened commands s) ∙ h)
    ]
  where
    resync-opened :
        (b : Bool) (commands : List (List ℕ)) (s : ClientSession)
        → (if b then with_rel (queue_commands_packed commands s.rel) s else s).opened ≡ s.opened
    resync-opened true commands s = refl
    resync-opened false commands s = refl

same_address : (a : ℕ) → (a == a) ≡ true
same_address a = ground arith

-- A datagram of the client itself.
pub packet-session :
    (config : Config) (now : Millis) (bytes : List ℕ) (addr : SocketAddr) (server : Server)
    (effects : List Effect) (st : System) (hdr : PacketHeader) (p : List ℕ)
    → on_client config now bytes addr st ≡ ok (server, effects)
    → decode_packet bytes ≡ ok (hdr, p)
    → is_handshake_packet hdr.flags ≡ false
    → (on_session (policy_of config) st.upstream.cache addr now hdr p (with_locks st)).0 ≡ server
unfolding handle_datagram
packet-session config now bytes addr server effects st hdr p e d n =
    let answered : ok
          (on_session (policy_of config) st.upstream.cache addr now hdr p (with_locks st))
        ≡ ok (server, effects) =
      rw (d, handle_datagram, n) at e in
    ap (λ (r : Server × List Effect). r.0) (ok-injective answered)

acked-outbound :
    (hdr : PacketHeader) (ep : ReliableEndpoint) → (acked hdr ep).outbound ≡ ep.outbound
unfolding on_ack_id
acked-outbound hdr ep = elim (Bool-cases (contains hdr.flags ack_reply || not (hdr.ack_id == 0))) [
  | inl e ↦ rw e refl
  | inr e ↦ rw e refl
]

pub packet-Joined :
    (config : Config) (now : Millis) (bytes : List ℕ) (addr : SocketAddr) (server : Server)
    (effects : List Effect) (st : System) (hdr : PacketHeader) (p : List ℕ) (v : StateCache)
    (link : Link)
    → (on_session (policy_of config) st.upstream.cache addr now hdr p (with_locks st)).0 ≡ server
    → decode_packet bytes ≡ ok (hdr, p)
    → hdr.packet_id < 65536
    → IsHonest hdr bytes link
    → AllSessions st.server.sessions
    → IsToldBy (get addr st.server.sessions) v st.unread st.upstream.cache
    → Joined (get addr st.server.sessions) v link
    → Joined
        (get addr server.sessions)
        (known_by (get addr server.sessions) v)
        (resumed_by (get addr server.sessions) link)
packet-Joined config now bytes addr server effects st hdr p v link e d fits honest all told j =
    let m = st.server.sessions in
    let cache = st.upstream.cache in
    let policy = policy_of config in
    elim (Option-cases (get addr m)) [
      | inl n ↦
          let out : get addr server.sessions ≡ none =
            sym (ap (λ (x : Server). get addr x.sessions) e) ∙ rw (n, on_session) n in
          subst (λ o. Joined o (known_by o v) (resumed_by o link)) (sym out) tt
      | inr (s, n) ↦
          let s' = (on_packet policy cache addr now hdr p s (with_locks st).filter).0 in
          let out : get addr server.sessions ≡ some s' =
            sym (ap (λ (x : Server). get addr x.sessions) e)
            ∙ rw (n, on_session) (get-put addr addr s' m ∙ rw (same_address addr) refl) in
          let joined : IsJoined s v link = subst (λ o. Joined o v link) n j in
          let links : IsLink 1 (record link { sender = acked hdr s.rel }) =
            subst (λ ep. IsLink 1 (record link { sender = acked hdr ep })) joined.sender
              (acked-IsLink hdr bytes p link d honest joined.links) in
          let queued =
            on_packet-Queued policy cache addr now hdr p s (with_locks st).filter
              ((get-IsSession addr s m n all).dumped) in
          subst (λ o. Joined o (known_by o v) (resumed_by o link)) (sym out)
            (resumed-IsJoined s s' v st.unread cache (acked hdr s.rel) link
              (acked-outbound hdr s.rel) links
              (on_packet-Alike policy cache addr now hdr p s (with_locks st).filter fits)
              (Queued-closed (dump cache) s s' queued)
              (subst (λ o. IsToldBy o v st.unread cache) n told) joined)
    ]
  where
    Queued-closed :
        (commands : List (List ℕ)) (s s' : ClientSession)
        → Queued commands s s'
        → s'.opened ≡ false
        → s.opened ≡ false
    Queued-closed commands s s' (same o q) h = sym o ∙ h
    Queued-closed commands s s' (opens c o q) h = c
