-- ===== src/Proxy/Server/Sessions.antt =====
-- The clients' sessions under every operation of server.rs.
use atemproxy.Prelude.{
  ℕ, ◌≡◌, refl, subst, ◌∙◌, Bool, true, false, not, ◌&&◌, ◌||◌, some, List, [], ◌∷◌, arith, map,
  All, Bool-cases, Option-cases, inl, inr, ◌==◌, is_empty,
}
use atemproxy.Protocol.Packet.{PacketHeader, contains, ack_reply, ack_request, is_retransmit}
use atemproxy.Protocol.Reliable.{
  Millis, ReliableEndpoint, note_recv, on_ack_id, accept_reliable, queue_payload,
  queue_commands_packed,
}
use atemproxy.Protocol.Reliable.Ids.{advance}
use atemproxy.Protocol.Outbound.Sound.{
  IsSound, untouched-IsSound, on_ack_id-IsSound, accept_reliable-IsSound,
}
use atemproxy.Proxy.Net.{SocketAddr, get, put}
use atemproxy.Proxy.Cache.{StateCache, dump}
use atemproxy.Proxy.Filter.{FilterPolicy, FilterState}
use atemproxy.Proxy.Server.{
  ClientSession, Server, new_session, open_session, on_hello, on_ack, on_reliable, on_packet,
  on_session, with_rel, queue_if,
}

-- A session's endpoint is sound, and the dump is queued just when the session is open.
pub record IsSession (s : ClientSession) : Type 0 where
  pub sound : IsSound s.rel
  pub dumped : s.dump_sent ≡ s.opened
  pub endpoint_opened : s.rel.opened ≡ s.opened

abbrev pub AllSessions : List (SocketAddr × ClientSession) → Type 0
AllSessions = All (λ e. IsSession e.1)

pub put-AllSessions :
    (addr : SocketAddr) (s : ClientSession) (m : List (SocketAddr × ClientSession))
    → IsSession s
    → AllSessions m
    → AllSessions (put addr s m)
unfolding put
put-AllSessions addr s [] h hs = (h, tt)
put-AllSessions addr s ((a, x) ∷ m) h hs = elim (Bool-cases (a == addr)) [
  | inl e ↦ rw e (h, hs.1)
  | inr e ↦ rw e (hs.0, put-AllSessions addr s m h hs.1)
]

pub get-IsSession :
    (addr : SocketAddr) (s : ClientSession) (m : List (SocketAddr × ClientSession))
    → get addr m ≡ some s
    → AllSessions m
    → IsSession s
unfolding get
get-IsSession addr s [] e hs = absurd (cc)
get-IsSession addr s ((a, x) ∷ m) e hs = elim (Bool-cases (a == addr)) [
  | inl k ↦ let same : some x ≡ some s = rw k at e in subst IsSession (cc) hs.0
  | inr k ↦ get-IsSession addr s m (rw k at e) hs.1
]

new_session-IsSession : (id : ℕ) (now : Millis) → IsSession (new_session id now)
unfolding advance
new_session-IsSession id now = record {
  sound = (
    record {
      start = 1;
      start_fits = omega arith;
      in_row = refl;
      next_id = refl;
      bounded = omega arith;
    },
    refl,
  );
  dumped = refl;
  endpoint_opened = refl;
}

-- An operation on the endpoint alone.
pub rel-IsSession :
    (rel : ReliableEndpoint) (s : ClientSession)
    → IsSound rel
    → rel.opened ≡ s.rel.opened
    → IsSession s
    → IsSession (with_rel rel s)
rel-IsSession rel s sound opened h = record {
  sound = sound;
  dumped = h.dumped;
  endpoint_opened = opened ∙ h.endpoint_opened;
}

open_session-IsSession :
    (commands : List (List ℕ)) (s : ClientSession)
    → IsSession s
    → IsSession (open_session commands s)
unfolding queue_commands_packed
open_session-IsSession commands s h = elim (Bool-cases s.opened) [
  | inl e ↦ simp e h
  | inr e ↦
      let unsent : s.dump_sent ≡ false = h.dumped ∙ e in
      simp (e, unsent)
        (record {
          sound = untouched-IsSound s.rel _ refl refl refl h.sound;
          dumped = refl;
          endpoint_opened = refl;
        })
]

on_ack-IsSession :
    (hdr : PacketHeader) (commands : List (List ℕ)) (s : ClientSession)
    → IsSession s
    → IsSession (on_ack hdr commands s)
unfolding on_ack on_ack_id
on_ack-IsSession hdr commands s h =
    elim (Bool-cases (contains hdr.flags ack_reply || not (hdr.ack_id == 0))) [
      | inl e ↦ rw e (
          open_session-IsSession commands (with_rel (on_ack_id hdr.ack_id s.rel) s) (
            rel-IsSession (on_ack_id hdr.ack_id s.rel) s
              (on_ack_id-IsSound hdr.ack_id s.rel h.sound) refl h))
      | inr e ↦ rw e h
    ]

accept_reliable-opened :
    (id : ℕ) (again : Bool) (ep : ReliableEndpoint)
    → (accept_reliable id again ep).0.opened ≡ ep.opened
unfolding accept_reliable
accept_reliable-opened id again ep = ground arith

audio-IsSession :
    (audio : Bool) (s : ClientSession) → IsSession s → IsSession (record s { audio = audio })
audio-IsSession audio s h = record {
  sound = h.sound;
  dumped = h.dumped;
  endpoint_opened = h.endpoint_opened;
}

on_reliable-IsSession :
    (policy : FilterPolicy) (addr : SocketAddr) (now : Millis) (hdr : PacketHeader)
    (payload : List ℕ) (s : ClientSession) (f : FilterState)
    → IsSession s
    → IsSession (on_reliable policy addr now hdr payload s f).0
unfolding on_reliable
on_reliable-IsSession policy addr now hdr payload s f h =
    let again = contains hdr.flags is_retransmit in
    let rel = (accept_reliable hdr.packet_id again s.rel).0 in
    let kept : IsSession (with_rel rel s) =
      rel-IsSession rel s (accept_reliable-IsSound hdr.packet_id again s.rel h.sound)
        (accept_reliable-opened hdr.packet_id again s.rel) h in
    elim (Bool-cases (accept_reliable hdr.packet_id again s.rel).1) [
      | inl e ↦ elim (Bool-cases (is_empty payload)) [
        | inl k ↦ rw (e, k) kept
        | inr k ↦ rw (e, k) (audio-IsSession _ (with_rel rel s) kept)
      ]
      | inr e ↦ rw e kept
    ]

on_packet-IsSession :
    (policy : FilterPolicy) (cache : StateCache) (addr : SocketAddr) (now : Millis)
    (hdr : PacketHeader) (payload : List ℕ) (s : ClientSession) (f : FilterState)
    → IsSession s
    → IsSession (on_packet policy cache addr now hdr payload s f).0
unfolding on_packet note_recv
on_packet-IsSession policy cache addr now hdr payload s f h =
    let heard = record s { rel = note_recv now s.rel } in
    let acked : IsSession (on_ack hdr (dump cache) heard) =
      on_ack-IsSession hdr (dump cache) heard (
        rel-IsSession (note_recv now s.rel) s (untouched-IsSound s.rel _ refl refl refl h.sound)
          refl h) in
    elim (Bool-cases (contains hdr.flags ack_request)) [
      | inl e ↦ rw e (
          on_reliable-IsSession policy addr now hdr payload (on_ack hdr (dump cache) heard) f acked)
      | inr e ↦ rw e acked
    ]

pub on_session-AllSessions :
    (policy : FilterPolicy) (cache : StateCache) (addr : SocketAddr) (now : Millis)
    (hdr : PacketHeader) (payload : List ℕ) (st : Server)
    → AllSessions st.sessions
    → AllSessions (on_session policy cache addr now hdr payload st).0.sessions
on_session-AllSessions policy cache addr now hdr payload st h =
    elim (Option-cases (get addr st.sessions)) [
      | inl e ↦ rw (e, on_session) h
      | inr (s, e) ↦
          rw (e, on_session)
            (put-AllSessions addr _ st.sessions
              (on_packet-IsSession policy cache addr now hdr payload s st.filter
                (get-IsSession addr s st.sessions e h))
              h)
    ]

pub on_hello-AllSessions :
    (is_connected : Bool) (cache : StateCache) (now : Millis) (addr : SocketAddr) (st : Server)
    → AllSessions st.sessions
    → AllSessions (on_hello is_connected cache now addr st).0.sessions
unfolding on_hello
on_hello-AllSessions is_connected cache now addr st h =
    elim (Bool-cases (is_connected && cache.ready)) [
      | inl e ↦ rw e (put-AllSessions addr _ st.sessions (new_session-IsSession _ now) h)
      | inr e ↦ rw e h
    ]

-- A pass over all sessions.
pub each-AllSessions :
    (f : ClientSession → ClientSession) (m : List (SocketAddr × ClientSession))
    → ((s : ClientSession) → IsSession s → IsSession (f s))
    → AllSessions m
    → AllSessions (map (λ e. (e.0, f e.1)) m)
each-AllSessions f [] keeps h = tt
each-AllSessions f (e ∷ m) keeps h = (keeps e.1 h.0, each-AllSessions f m keeps h.1)

pub queue_if-IsSession :
    (wanted : Bool) (payload : List ℕ) (s : ClientSession)
    → IsSession s
    → IsSession (queue_if wanted payload s)
unfolding queue_if queue_payload
queue_if-IsSession true payload s h =
    rel-IsSession (queue_payload payload s.rel) s (untouched-IsSound s.rel _ refl refl refl h.sound)
      refl h
queue_if-IsSession false payload s h = h
