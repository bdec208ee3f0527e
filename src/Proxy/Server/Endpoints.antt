-- ===== src/Proxy/Server/Endpoints.antt =====
-- What the operations of server.rs do to a session's endpoint as a sender, the timer aside.
use atemproxy.Prelude.{
  ◌≡◌, refl, ap, sym, ◌∙◌, ◌<◌, inl, inr, arith, Bool-cases, ℕ, Bool, true, false, not, ◌||◌, some,
  List, [], ◌++◌, ◌==◌, is_empty, if◌then◌else◌, append-nil, append_assoc,
}
use atemproxy.Protocol.Packet.{PacketHeader, contains, ack_reply, ack_request, is_retransmit}
use atemproxy.Protocol.Reliable.{
  Millis, ReliableEndpoint, note_recv, on_ack_id, accept_reliable, queue_payload,
  queue_commands_packed, pack,
}
use atemproxy.Proxy.Net.{SocketAddr}
use atemproxy.Proxy.Cache.{StateCache, dump}
use atemproxy.Proxy.Filter.{FilterPolicy, FilterState}
use atemproxy.Proxy.Server.{
  ClientSession, open_session, on_ack, on_reliable, on_packet, with_rel, queue_if,
}

-- The same window, and a queue that may have grown.
pub record Alike (ep ep' : ReliableEndpoint) : Type 0 where
  pub new : List (List ℕ)
  pub window : ep'.in_flight ≡ ep.in_flight
  pub next_id : ep'.next_send_id ≡ ep.next_send_id
  pub max : ep'.config.max_in_flight ≡ ep.config.max_in_flight
  pub session : ep'.session_id ≡ ep.session_id
  pub queue : ep'.outbound ≡ ep.outbound ++ new
  pub own :
      ((id : ℕ) → ep.ack.highest_recv ≡ some id → id < 65536)
      → (id : ℕ) → ep'.ack.highest_recv ≡ some id
      → id < 65536

pub Alike-refl : (ep : ReliableEndpoint) → Alike ep ep
Alike-refl ep = record {
  new = [];
  window = refl;
  next_id = refl;
  max = refl;
  session = refl;
  queue = sym (append-nil ep.outbound);
  own = λ h. h;
}

pub Alike-trans : (a b c : ReliableEndpoint) → Alike a b → Alike b c → Alike a c
Alike-trans a b c f g = record {
  new = f.new ++ g.new;
  window = g.window ∙ f.window;
  next_id = g.next_id ∙ f.next_id;
  max = g.max ∙ f.max;
  session = g.session ∙ f.session;
  queue = g.queue ∙ ap (λ q. q ++ g.new) f.queue ∙ append_assoc a.outbound f.new g.new;
  own = λ h. g.own (f.own h);
}

more_queued :
    (ep : ReliableEndpoint) (new : List (List ℕ))
    → Alike ep (record ep { outbound = ep.outbound ++ new })
more_queued ep new = record {
  new = new;
  window = refl;
  next_id = refl;
  max = refl;
  session = refl;
  queue = refl;
  own = λ h. h;
}

pub queue_if-Alike :
    (b : Bool) (p : List ℕ) (s : ClientSession) → Alike s.rel ((queue_if b p s).rel)
unfolding queue_if queue_payload
queue_if-Alike true p s = more_queued s.rel _
queue_if-Alike false p s = Alike-refl s.rel

pub resync-Alike :
    (b : Bool) (commands : List (List ℕ)) (s : ClientSession)
    → Alike s.rel ((if b then with_rel (queue_commands_packed commands s.rel) s else s).rel)
unfolding queue_commands_packed
resync-Alike true commands s = more_queued s.rel (pack [] commands)
resync-Alike false commands s = Alike-refl s.rel

opened-Alike :
    (ep : ReliableEndpoint) (b : Bool) (new : List (List ℕ))
    → Alike ep (
        if b
        then record ep { opened = true }
        else record ep { opened = true; outbound = ep.outbound ++ new })
opened-Alike ep true new = record {
  new = [];
  window = refl;
  next_id = refl;
  max = refl;
  session = refl;
  queue = sym (append-nil ep.outbound);
  own = λ h. h;
}
opened-Alike ep false new = record {
  new = new;
  window = refl;
  next_id = refl;
  max = refl;
  session = refl;
  queue = refl;
  own = λ h. h;
}

open_session-Alike :
    (commands : List (List ℕ)) (s : ClientSession) → Alike s.rel ((open_session commands s).rel)
unfolding queue_commands_packed
open_session-Alike commands s = elim (Bool-cases s.opened) [
  | inl e ↦ rw e (Alike-refl s.rel)
  | inr e ↦ rw e (opened-Alike s.rel s.dump_sent (pack [] commands))
]

accept_reliable-Alike :
    (id : ℕ) (again : Bool) (ep : ReliableEndpoint)
    → id < 65536
    → Alike ep (accept_reliable id again ep).0
unfolding accept_reliable
accept_reliable-Alike id again ep h = record {
  new = [];
  window = ground arith;
  next_id = ground arith;
  max = ground arith;
  session = ground arith;
  queue =
      (let same : (accept_reliable id again ep).0.outbound ≡ ep.outbound = ground arith in
        same ∙ sym (append-nil ep.outbound));
  own = λ w i e. ground (arith, w i);
}

on_reliable-Alike :
    (policy : FilterPolicy) (addr : SocketAddr) (now : Millis) (hdr : PacketHeader)
    (payload : List ℕ) (s : ClientSession) (f : FilterState)
    → hdr.packet_id < 65536
    → Alike s.rel ((on_reliable policy addr now hdr payload s f).0.rel)
unfolding on_reliable
on_reliable-Alike policy addr now hdr payload s f h =
    let again = contains hdr.flags is_retransmit in
    let kept = accept_reliable-Alike hdr.packet_id again s.rel h in
    elim (Bool-cases (accept_reliable hdr.packet_id again s.rel).1) [
      | inl e ↦ elim (Bool-cases (is_empty payload)) [
        | inl k ↦ rw (e, k) kept
        | inr k ↦ rw (e, k) kept
      ]
      | inr e ↦ rw e kept
    ]

abbrev pub acked : PacketHeader → ReliableEndpoint → ReliableEndpoint
acked hdr ep =
    if contains hdr.flags ack_reply || not (hdr.ack_id == 0) then on_ack_id hdr.ack_id ep else ep

noted-Alike :
    (now : Millis) (hdr : PacketHeader) (ep : ReliableEndpoint)
    → Alike (acked hdr ep) (acked hdr (note_recv now ep))
unfolding note_recv on_ack_id
noted-Alike now hdr ep = elim (Bool-cases (contains hdr.flags ack_reply || not (hdr.ack_id == 0))) [
  | inl e ↦ rw e (noted (on_ack_id hdr.ack_id ep))
  | inr e ↦ rw e (noted ep)
]
  where
    noted : (x : ReliableEndpoint) → Alike x (record x { last_recv_at = now })
    noted x = record {
      new = [];
      window = refl;
      next_id = refl;
      max = refl;
      session = refl;
      queue = sym (append-nil x.outbound);
      own = λ h. h;
    }

on_ack-Alike :
    (hdr : PacketHeader) (commands : List (List ℕ)) (s : ClientSession)
    → Alike (acked hdr s.rel) ((on_ack hdr commands s).rel)
unfolding on_ack
on_ack-Alike hdr commands s =
    elim (Bool-cases (contains hdr.flags ack_reply || not (hdr.ack_id == 0))) [
      | inl e ↦ rw e (open_session-Alike commands (with_rel (on_ack_id hdr.ack_id s.rel) s))
      | inr e ↦ rw e (Alike-refl s.rel)
    ]

pub on_packet-Alike :
    (policy : FilterPolicy) (cache : StateCache) (addr : SocketAddr) (now : Millis)
    (hdr : PacketHeader) (payload : List ℕ) (s : ClientSession) (f : FilterState)
    → hdr.packet_id < 65536
    → Alike (acked hdr s.rel) ((on_packet policy cache addr now hdr payload s f).0.rel)
unfolding on_packet
on_packet-Alike policy cache addr now hdr payload s f h =
    let s₁ = with_rel (note_recv now s.rel) s in
    let s₂ = on_ack hdr (dump cache) s₁ in
    let up : Alike (acked hdr s.rel) s₂.rel =
      Alike-trans (acked hdr s.rel) (acked hdr s₁.rel) s₂.rel (noted-Alike now hdr s.rel)
        (on_ack-Alike hdr (dump cache) s₁) in
    elim (Bool-cases (contains hdr.flags ack_request)) [
      | inl e ↦ rw e (
          Alike-trans (acked hdr s.rel) s₂.rel _ up
            (on_reliable-Alike policy addr now hdr payload s₂ f h))
      | inr e ↦ rw e up
    ]
