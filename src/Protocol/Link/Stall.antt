-- ===== src/Protocol/Link/Stall.antt =====
-- accept_reliable and should_send_ack of reliable.rs when acknowledgements are lost.
use atemproxy.Prelude.{
  ℕ, ◌-◌, ◌≤◌, ◌<◌, ◌≡◌, refl, ap, sym, subst, ◌∙◌, true, false, inl, inr, List, [], ◌∷◌, ◌++◌,
  arith, length, All, append-nil, Bool-cases, ltb, is_empty, ◌==◌, ==_iff,
}
use atemproxy.Protocol.Error.{Result-cases}
use atemproxy.Protocol.Packet.{contains, ack_request, is_retransmit, decode_packet}
use atemproxy.Protocol.Reliable.{
  Millis, ReliableEndpoint, ReliableConfig, should_send_ack, queue_payload,
}
use atemproxy.Protocol.Outbound.{
  retransmit_window, is_stale, send_loop, ack_if_due, is_idle, ping_if_idle, poll_outbound,
}
use atemproxy.Protocol.Outbound.Window.{length-restamp}
use atemproxy.Protocol.Link.{
  Link, launched, queue, poll, receive, acknowledge, In, IsRecent, Step, Run,
}
use Step.{queues, polls, arrives, acknowledges, ack_arrives, loses}
use Run.{start, then_}
use atemproxy.Protocol.Link.Wire.{ack_if_due-cases}
use atemproxy.Protocol.Link.State.{IsLink, IsFrom, All-In}
use atemproxy.Protocol.Link.Arriving.{same_place, refused}
use atemproxy.Protocol.Link.Delivery.{AreFresh, linked, linked-IsLink, Step-IsLink, Run-IsLink}

-- All is delivered, the window is full of packets delivered, and no acknowledgement is on its way
-- or due.
pub record IsStalled (st : Link) : Type 0 where
  pub all_delivered : length st.delivered ≡ length st.history
  pub window_full : st.sender.config.max_in_flight ≤ length st.sender.in_flight
  pub no_acks : st.acks ≡ []
  pub nothing_to_ack : st.receiver.ack.packets_since_ack ≡ 0
  pub coalesces : 0 < st.receiver.config.ack_coalesce_count

-- A full window sends its packets again and nothing else.
record Waits (now clock : Millis) (ep : ReliableEndpoint) : Type 0 where
  same_length : length (poll_outbound now clock ep).0.in_flight ≡ length ep.in_flight
  same_config : (poll_outbound now clock ep).0.config ≡ ep.config
  nothing_new : launched now clock ep ≡ []

full_loop :
    (now : Millis) (queue : List (List ℕ)) (ep : ReliableEndpoint)
    → ep.config.max_in_flight ≤ length ep.in_flight
    → send_loop now queue ep ≡ (record ep { outbound = queue }, [])
unfolding send_loop
full_loop now [] ep h = refl
full_loop now (p ∷ queue) ep h =
    let full_ : ltb (length ep.in_flight) ep.config.max_in_flight ≡ false = ground arith in
    rw full_ refl

retransmit_keeps :
    (now : Millis) (ep : ReliableEndpoint)
    → (length (retransmit_window now ep).0.in_flight ≡ length ep.in_flight)
      × ((retransmit_window now ep).0.config ≡ ep.config)
unfolding retransmit_window
retransmit_keeps now ep = elim (Bool-cases (is_stale now ep)) [
  | inl e ↦ rw (e, retransmit_window) (length-restamp now ep.in_flight, refl)
  | inr e ↦ rw (e, retransmit_window) (refl, refl)
]

ack_keeps :
    (clock : Millis) (ep : ReliableEndpoint)
    → ((ack_if_due clock ep).0.in_flight ≡ ep.in_flight)
      × ((ack_if_due clock ep).0.config ≡ ep.config)
ack_keeps clock ep = elim (ack_if_due-cases clock ep) [
  | inl e ↦ rw e (refl, refl)
  | inr (id, h, e) ↦ rw e (refl, refl)
]

busy : (now : Millis) (ep : ReliableEndpoint) → 0 < length ep.in_flight → is_idle now ep ≡ false
busy now ep h = elim (Bool-cases (is_idle now ep)) [
  | inl e ↦ absurd (some_there ep.in_flight h (ground arith))
  | inr e ↦ e
]
  where
    some_there : {A : Type 0} (xs : List A) → 0 < length xs → is_empty xs ≡ true → ⊥
    some_there [] k e = omega arith
    some_there (x ∷ xs) k e = cc

full-Waits :
    (now clock : Millis) (ep : ReliableEndpoint)
    → 0 < ep.config.max_in_flight
    → ep.config.max_in_flight ≤ length ep.in_flight
    → Waits now clock ep
unfolding poll_outbound launched ping_if_idle
full-Waits now clock ep pos h =
    let ep₁ = (retransmit_window now ep).0 in
    let (n, c) = retransmit_keeps now ep in
    let loop =
      full_loop now ep₁.outbound ep₁
        (omega (arith, ap (λ (k : ReliableConfig). k.max_in_flight) c)) in
    let ep₃ = (ack_if_due clock ep₁).0 in
    let (es, c') = ack_keeps clock ep₁ in
    let idle : is_idle now ep₃ ≡ false = busy now ep₃ (omega (arith, ap length es)) in
    let none_left : length ep₁.outbound - length ep₁.outbound ≡ 0 = omega arith in
    let alone : ping_if_idle now ep₃ ≡ (ep₃, []) = rw (idle, ping_if_idle) refl in
    record {
      same_length = rw (loop, alone) (ap length es ∙ n);
      same_config = rw (loop, alone) (c' ∙ c);
      nothing_new = rw (loop, idle, none_left) refl;
    }

ack_not_due :
    (clock : Millis) (ep : ReliableEndpoint)
    → ep.ack.packets_since_ack ≡ 0
    → 0 < ep.config.ack_coalesce_count
    → should_send_ack clock ep ≡ false
unfolding should_send_ack
ack_not_due clock ep h k = ground arith

not_due :
    (clock : Millis) (ep : ReliableEndpoint)
    → ep.ack.packets_since_ack ≡ 0
    → 0 < ep.config.ack_coalesce_count
    → ack_if_due clock ep ≡ (ep, [])
unfolding ack_if_due
not_due clock ep h k = rw (ack_not_due clock ep h k) refl

-- A packet that has been delivered is refused when it arrives again.
duplicate :
    (first t : ℕ) (bytes : List ℕ) (st : Link)
    → In (t, bytes) st.wire
    → IsRecent t st
    → IsLink first st
    → length st.delivered ≡ length st.history
    → receive bytes st ≡ st
unfolding receive
duplicate first t bytes st in_ recent w all =
    let (at, from) = All-In (IsFrom first st.history) (t, bytes) st.wire w.packets in_ in
    elim (Result-cases (decode_packet bytes)) [
      | inr (e, read) ↦ rw (read, receive) refl
      | inl ((h, p), read) ↦ elim (Bool-cases (contains h.flags ack_request)) [
        | inl asks ↦
            let (i, low, high, id, body) = from h p read asks in
            elim (Bool-cases (h.packet_id == st.receiver.ack.expected_recv)) [
              | inl e ↦
                  let same = (==_iff h.packet_id st.receiver.ack.expected_recv).0 e in
                  let place : i ≡ length st.delivered =
                    same_place first i (length st.delivered) (omega arith) (omega arith)
                      (sym id ∙ same ∙ w.receives.expected) in
                  absurd (omega arith)
              | inr e ↦
                  rw
                    (
                      read,
                      receive,
                      asks,
                      refused h.packet_id (contains h.flags is_retransmit) st.receiver e,
                    )
                    refl
            ]
        | inr silent ↦ rw (read, receive, silent) refl
      ]
    ]

-- A step that leaves both lists as they were.
record Stays (st st' : Link) : Type 0 where
  stalled : IsStalled st'
  delivered : st'.delivered ≡ st.delivered
  history : st'.history ≡ st.history

none-In : {A : Type 0} (xs ys : List A) → ys ≡ [] → All (λ x. In x ys) xs → xs ≡ []
none-In [] ys e h = refl
none-In (x ∷ xs) ys e h = absurd (subst (In x) e h.0)

poll-Stays :
    (first : ℕ) (now clock : Millis) (st : Link)
    → IsLink first st
    → IsStalled st
    → Stays st (poll now clock st)
poll-Stays first now clock st w s =
    let waits = full-Waits now clock st.sender w.sends.positive s.window_full in
    let same : st.history ++ launched now clock st.sender ≡ st.history =
      ap (◌++◌ st.history) waits.nothing_new ∙ append-nil st.history in
    record {
      stalled = record {
        all_delivered = s.all_delivered ∙ ap length (sym same);
        window_full = omega (
          arith,
          s.window_full,
          ap (λ (c : ReliableConfig). c.max_in_flight) waits.same_config,
          waits.same_length,
        );
        no_acks = s.no_acks;
        nothing_to_ack = s.nothing_to_ack;
        coalesces = s.coalesces;
      };
      delivered = refl;
      history = same;
    }

Step-Stays :
    (first : ℕ) (st st' : Link) → Step st st' → IsLink first st → IsStalled st → Stays st st'
unfolding acknowledge queue_payload
Step-Stays first _ _ (queues payload st) w s = record {
  stalled = record {
    all_delivered = s.all_delivered;
    window_full = s.window_full;
    no_acks = s.no_acks;
    nothing_to_ack = s.nothing_to_ack;
    coalesces = s.coalesces;
  };
  delivered = refl;
  history = refl;
}
Step-Stays first _ _ (polls now clock st) w s = poll-Stays first now clock st w s
Step-Stays first _ _ (arrives t bytes st in_ recent) w s =
    rw (duplicate first t bytes st in_ recent w s.all_delivered)
      (record { stalled = s; delivered = refl; history = refl })
Step-Stays first _ _ (acknowledges clock st) w s =
    rw (not_due clock st.receiver s.nothing_to_ack s.coalesces, acknowledge)
      (record { stalled = s; delivered = refl; history = refl })
Step-Stays first _ _ (ack_arrives t bytes st in_ recent) w s =
    absurd (subst (In (t, bytes)) s.no_acks in_)
Step-Stays first _ _ (loses wire acks st i j) w s = record {
  stalled = record {
    all_delivered = s.all_delivered;
    window_full = s.window_full;
    no_acks = none-In acks st.acks s.no_acks j;
    nothing_to_ack = s.nothing_to_ack;
    coalesces = s.coalesces;
  };
  delivered = refl;
  history = refl;
}

Run-Stays :
    (first : ℕ) (st st' : Link)
    → Run st st'
    → IsLink first st
    → IsStalled st
    → Stays st st' × IsLink first st'
Run-Stays first _ _ (start st) w s = (record { stalled = s; delivered = refl; history = refl }, w)
Run-Stays first _ _ (then_ st st' st'' run step) w s =
    let (before, w') = Run-Stays first st st' run w s in
    let after = Step-Stays first st' st'' step w' before.stalled in
    (
      record {
        stalled = after.stalled;
        delivered = after.delivered ∙ before.delivered;
        history = after.history ∙ before.history;
      },
      Step-IsLink first st' st'' step w',
    )

-- Once every packet sent is delivered, the window is full and all acknowledgements are lost, it stays
-- so, whatever is queued, polled or arrives: no payload is sent for the first time and none is
-- delivered any more, no acknowledgement is on its way at any later time, the window stays full, and
-- the packets on the wire, late by fewer than 32000 packets, change nothing when they arrive.
-- The link is one that two endpoints reach which begin at the same id, and the receiver waits for one
-- packet at least before it acknowledges.
pub lost_ack_stall :
    (first : ℕ) (sender receiver : ReliableEndpoint) (st st' : Link)
    → AreFresh first sender receiver
    → Run (linked sender receiver) st
    → IsStalled st
    → Run st st'
    → (st'.delivered ≡ st.delivered)
      × (st'.history ≡ st.history)
      × (st'.acks ≡ [])
      × (st'.sender.config.max_in_flight ≤ length st'.sender.in_flight)
      × ((t : ℕ) (bytes : List ℕ)
          → In (t, bytes) st'.wire
          → IsRecent t st'
          → receive bytes st' ≡ st')
lost_ack_stall first sender receiver st st' fresh before s after =
    let w =
      Run-IsLink first (linked sender receiver) st before
        (linked-IsLink first sender receiver fresh) in
    let (stays, w') = Run-Stays first st st' after w s in
    (
      stays.delivered,
      stays.history,
      stays.stalled.no_acks,
      stays.stalled.window_full,
      λ t bytes in_ recent. duplicate first t bytes st' in_ recent w' stays.stalled.all_delivered,
    )
