-- ===== src/Protocol/Link/Polling.antt =====
-- poll_outbound of reliable.rs at the sender's end of a link, as a whole.
use atemproxy.Prelude.{
  ℕ, ◌<◌, ◌≡◌, refl, ap, ap₂, sym, subst, ◌∙◌, true, List, [], ◌∷◌, ◌++◌, arith, length, map, All,
  inl, inr, Bool-cases, if◌then◌else◌, All-append, append_assoc, append-nil, length-append,
  is_empty, take_of_append,
}
use atemproxy.Protocol.Reliable.{Millis, ReliableEndpoint}
use atemproxy.Protocol.Outbound.{
  resent, is_stale, launch, retransmit_window, send_loop, ack_if_due, is_idle, ping_if_idle,
  poll_outbound, pinged,
}
use atemproxy.Protocol.Packet.RoundTrip.{carried}
use atemproxy.Protocol.Outbound.Window.{ids-restamp, length-restamp}
use atemproxy.Protocol.Link.{Link, launched, poll}
use atemproxy.Protocol.Link.Wire.{IsAck, ack_packet-IsAck, ack_if_due-cases}
use atemproxy.Protocol.Link.Launching.{sent_part}
use atemproxy.Protocol.Link.State.{full, full-append, IsSender, IsFrom, IsLink}
use atemproxy.Protocol.Link.Ageing.{Emitted-IsFrom, IsFrom-append, Acks-more}
use atemproxy.Protocol.Link.Holding.{Emitted, Emitted-append}
use atemproxy.Protocol.Link.Sending.{
  launch-IsSender, launch-Emitted, retransmit-Emitted, Holds-restamp, send_loop-Sent,
}

module _ (first : ℕ) where
  resent-IsSender :
      (now : Millis) (base : ℕ) (history : List (List ℕ)) (ep : ReliableEndpoint)
      → IsSender first base history ep
      → IsSender first base history (resent now ep)
  resent-IsSender now base history ep w =
      let n = length-restamp now ep.in_flight in
      record {
        whole = omega (arith, w.whole);
        in_row = rw n (ids-restamp now ep.in_flight ∙ w.in_row);
        next_id = w.next_id;
        bounded = omega (arith, w.bounded);
        positive = w.positive;
        small = w.small;
        fits = w.fits;
        own = w.own;
        holds = Holds-restamp first now history base ep.in_flight w.holds;
      }

  -- What a part of `poll_outbound` makes of a sender: the window, the queue and the output.
  record Part (base : ℕ) (history queue : List (List ℕ)) (result : ReliableEndpoint × List (List ℕ))
      : Type 0 where
    sends : IsSender first base history result.0
    same_queue : result.0.outbound ≡ queue
    emits : All (Emitted first base history) result.1

  retransmit_window-Part :
      (now : Millis) (base : ℕ) (history : List (List ℕ)) (ep : ReliableEndpoint)
      → IsSender first base history ep
      → Part base history ep.outbound (retransmit_window now ep)
  unfolding retransmit_window
  retransmit_window-Part now base history ep w = elim (Bool-cases (is_stale now ep)) [
    | inl e ↦
        rw (e, retransmit_window)
          (record {
            sends = resent-IsSender now base history ep w;
            same_queue = refl;
            emits =
                retransmit-Emitted first base history base ep.in_flight (omega arith)
                  (omega (arith, w.whole)) w.holds;
          })
    | inr e ↦ rw (e, retransmit_window) (record { sends = w; same_queue = refl; emits = tt })
  ]

  ack_if_due-Part :
      (clock : Millis) (base : ℕ) (history : List (List ℕ)) (ep : ReliableEndpoint)
      → IsSender first base history ep
      → Part base history ep.outbound (ack_if_due clock ep)
  unfolding IsAck
  ack_if_due-Part clock base history ep w = elim (ack_if_due-cases clock ep) [
    | inl e ↦ rw e (record { sends = w; same_queue = refl; emits = tt })
    | inr (id, highest, e) ↦ rw e (record {
      sends = record {
        whole = w.whole;
        in_row = w.in_row;
        next_id = w.next_id;
        bounded = w.bounded;
        positive = w.positive;
        small = w.small;
        fits = w.fits;
        own = w.own;
        holds = w.holds;
      };
      same_queue = refl;
      emits = (inr (λ h p d. (ack_packet-IsAck ep id w.fits (w.own id highest) h p d).1), tt);
    })
  ]

  idle_room :
      (now : Millis) (max : ℕ) (ep : ReliableEndpoint)
      → 0 < max
      → is_idle now ep ≡ true
      → length ep.in_flight < max
  idle_room now max ep h e = none_there ep.in_flight (ground arith)
    where
      none_there : {A : Type 0} (xs : List A) → is_empty xs ≡ true → length xs < max
      none_there [] e' = h
      none_there (x ∷ xs) e' = cc

  abbrev pings : Millis → ReliableEndpoint → List (List ℕ)
  pings now ep = if is_idle now ep then [] ∷ [] else []

  ping_if_idle-Part :
      (now : Millis) (base : ℕ) (history : List (List ℕ)) (ep : ReliableEndpoint)
      → IsSender first base history ep
      → Part base (history ++ pings now ep) ep.outbound (ping_if_idle now ep)
  unfolding ping_if_idle launch
  ping_if_idle-Part now base history ep w = elim (Bool-cases (is_idle now ep)) [
    | inl e ↦
        rw (e, ping_if_idle)
          (record {
            sends = ping-IsSender (
                launch-IsSender first now base history [] ep
                  (idle_room now ep.config.max_in_flight ep w.positive e) w);
            same_queue = refl;
            emits = (launch-Emitted first base history [] ep w, tt);
          })
    | inr e ↦
        rw (e, ping_if_idle, append-nil history)
          (record { sends = w; same_queue = refl; emits = tt })
  ]
    where
      ping-IsSender :
          IsSender first base (history ++ [] ∷ []) (launch now [] ep)
          → IsSender first base (history ++ [] ∷ []) (pinged now ep)
      ping-IsSender v = record {
        whole = v.whole;
        in_row = v.in_row;
        next_id = v.next_id;
        bounded = v.bounded;
        positive = v.positive;
        small = v.small;
        fits = v.fits;
        own = v.own;
        holds = v.holds;
      }

  -- What `poll_outbound` makes of a sender.
  record Polled (now clock : Millis) (base : ℕ) (history : List (List ℕ)) (ep : ReliableEndpoint)
      : Type 0 where
    sends : IsSender first base (history ++ launched now clock ep) (poll_outbound now clock ep).0
    emits :
        All (Emitted first base (history ++ launched now clock ep)) (poll_outbound now clock ep).1
    content :
        full ep.outbound
        ≡ full (launched now clock ep) ++ full (poll_outbound now clock ep).0.outbound

  full-pings : (now : Millis) (ep : ReliableEndpoint) → full (pings now ep) ≡ []
  full-pings now ep = ground arith

  poll_outbound-Polled :
      (now clock : Millis) (base : ℕ) (history : List (List ℕ)) (ep : ReliableEndpoint)
      → IsSender first base history ep
      → Polled now clock base history ep
  unfolding poll_outbound launched
  poll_outbound-Polled now clock base history ep w =
      let one = retransmit_window-Part now base history ep w in
      let ep₁ = (retransmit_window now ep).0 in
      let two = send_loop-Sent first now base history ep₁.outbound ep₁ one.sends in
      let ep₂ = (send_loop now ep₁.outbound ep₁).0 in
      let three = ack_if_due-Part clock base (history ++ two.sent) ep₂ two.sends in
      let ep₃ = (ack_if_due clock ep₂).0 in
      let four = ping_if_idle-Part now base (history ++ two.sent) ep₃ three.sends in
      let front = sent_part ep₁.outbound two.sent ep₂.outbound two.whole in
      let all : history ++ launched now clock ep ≡ (history ++ two.sent) ++ pings now ep₃ =
        ap (λ q. history ++ (q ++ pings now ep₃)) front
        ∙ sym (append_assoc history two.sent (pings now ep₃)) in
      let all_sent : List (List ℕ) = (history ++ two.sent) ++ pings now ep₃ in
      record {
        sends =
            subst (λ q. IsSender first base q (poll_outbound now clock ep).0) (sym all) four.sends;
        emits =
            subst (λ q. All (Emitted first base q) (poll_outbound now clock ep).1) (sym all)
              (All-append (Emitted first base all_sent) (retransmit_window now ep).1 _
                (Emitted-append first base (history ++ two.sent) (pings now ep₃) _
                  (Emitted-append first base history two.sent _ one.emits))
                (All-append (Emitted first base all_sent) (send_loop now ep₁.outbound ep₁).1 _
                  (Emitted-append first base (history ++ two.sent) (pings now ep₃) _ two.emits)
                  (All-append (Emitted first base all_sent) (ack_if_due clock ep₂).1 _
                    (Emitted-append first base (history ++ two.sent) (pings now ep₃) _ three.emits)
                    four.emits)));
        content =
            ap full (sym one.same_queue ∙ two.whole)
            ∙ full-append two.sent ep₂.outbound
            ∙ ap₂ (λ p q. p ++ full q)
                (sym (
                  ap (λ q. full (q ++ pings now ep₃)) front
                  ∙ full-append two.sent (pings now ep₃)
                  ∙ ap (λ q. full two.sent ++ q) (full-pings now ep₃)
                  ∙ append-nil (full two.sent)))
                (sym (four.same_queue ∙ three.same_queue));
      }

  -- `poll_outbound` of the sender.
  pub poll-IsLink :
      (now clock : Millis) (st : Link) → IsLink first st → IsLink first (poll now clock st)
  poll-IsLink now clock st w =
      let polled = poll_outbound-Polled now clock w.base st.history st.sender w.sends in
      let more = launched now clock st.sender in
      let n = length-append st.history more in
      record {
        base = w.base;
        behind = w.behind;
        ahead = omega (arith, w.ahead);
        sends = polled.sends;
        receives = w.receives;
        packets =
            All-append (IsFrom first (st.history ++ more)) _ st.wire
              (Emitted-IsFrom first w.base (st.history ++ more) _
                (omega (arith, polled.sends.whole, polled.sends.bounded, polled.sends.small))
                polled.emits)
              (IsFrom-append first st.history more st.wire w.packets);
        answers =
            Acks-more first (length st.history) (length (st.history ++ more)) (length st.delivered)
              (length st.delivered) st.acks (omega arith) (omega arith) w.answers;
        got =
            w.got
            ∙ ap (map carried) (sym (take_of_append (length st.delivered) st.history more w.ahead));
        content =
            ap (λ q. q ++ full (poll_outbound now clock st.sender).0.outbound)
              (full-append st.history more)
            ∙ append_assoc (full st.history) (full more) _
            ∙ ap (◌++◌ (full st.history)) (sym polled.content)
            ∙ w.content;
      }
