-- ===== src/Protocol/Outbound/Sending.antt =====
-- The part of ReliableEndpoint::poll_outbound (reliable.rs) that sends from the queue.
use atemproxy.Prelude.{
  ℕ, ◌≤◌, ◌≡◌, refl, ap, ◌⊎◌, inl, inr, List, [], ◌∷◌, ◌++◌, arith, length, ltb, Bool-cases,
}
use atemproxy.Protocol.Reliable.{Millis, ReliableEndpoint}
use atemproxy.Protocol.Outbound.{reliable_packet, launch, send_loop}

-- The endpoint after the payloads have been sent, and the packets that carry them.
pub launch_all : Millis → List (List ℕ) → ReliableEndpoint → ReliableEndpoint
launch_all now [] ep = ep
launch_all now (p ∷ ps) ep = launch_all now ps (launch now p ep)

unfoldable pub packets : Millis → List (List ℕ) → ReliableEndpoint → List (List ℕ)
packets now [] ep = []
packets now (p ∷ ps) ep = reliable_packet ep p ∷ packets now ps (launch now p ep)

-- How a queue is split into what is sent and what waits.
pub record Split (now : Millis) (queue : List (List ℕ)) (ep : ReliableEndpoint) : Type 0 where
  pub sent : List (List ℕ)
  pub waiting : List (List ℕ)
  pub whole : queue ≡ sent ++ waiting
  pub result :
      send_loop now queue ep
      ≡ (record (launch_all now sent ep) { outbound = waiting }, packets now sent ep)
  pub stops : (waiting ≡ []) ⊎ (ep.config.max_in_flight ≤ length (launch_all now sent ep).in_flight)

-- The queue is sent from its front, in order, until it is empty or the window is full; what is
-- not sent stays queued.
pub send_loop-Split :
    (now : Millis) (queue : List (List ℕ)) (ep : ReliableEndpoint) → Split now queue ep
unfolding send_loop launch_all packets launch
send_loop-Split now [] ep = record {
  sent = [];
  waiting = [];
  whole = refl;
  result = refl;
  stops = inl refl;
}
send_loop-Split now (p ∷ queue) ep =
    elim (Bool-cases (ltb (length ep.in_flight) ep.config.max_in_flight)) [
      | inl room ↦
          let later = send_loop-Split now queue (launch now p ep) in
          record {
            sent = p ∷ later.sent;
            waiting = later.waiting;
            whole = ap (◌∷◌ p) later.whole;
            result = rw room (rw later.result refl);
            stops = later.stops;
          }
      | inr full ↦ record {
        sent = [];
        waiting = p ∷ queue;
        whole = refl;
        result = rw full refl;
        stops = inr (ground arith);
      }
    ]
