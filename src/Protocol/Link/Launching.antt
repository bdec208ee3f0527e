-- ===== src/Protocol/Link/Launching.antt =====
-- What poll_outbound of reliable.rs sends for the first time, and what it leaves queued.
use atemproxy.Prelude.{
  ℕ, ◌-◌, ◌≡◌, ap, ap₂, sym, ◌∙◌, List, [], ◌∷◌, ◌++◌, arith, length, take, take-append,
  length-append, append-nil, if◌then◌else◌,
}
use atemproxy.Protocol.Reliable.{Millis, ReliableEndpoint, build_ack_packet}
use atemproxy.Protocol.Outbound.{
  retransmit_window, send_loop, ack_if_due, ping_if_idle, launch, is_idle, poll_outbound,
}
use atemproxy.Protocol.Outbound.Sending.{send_loop-Split}
use atemproxy.Protocol.Link.{launched}
use atemproxy.Protocol.Link.State.{full, full-append}

retransmit_window-outbound :
    (now : Millis) (ep : ReliableEndpoint) → (retransmit_window now ep).0.outbound ≡ ep.outbound
unfolding retransmit_window
retransmit_window-outbound now ep = ground arith

ack_if_due-outbound :
    (clock : Millis) (ep : ReliableEndpoint) → (ack_if_due clock ep).0.outbound ≡ ep.outbound
unfolding ack_if_due build_ack_packet
ack_if_due-outbound clock ep = ground arith

ping_if_idle-outbound :
    (now : Millis) (ep : ReliableEndpoint) → (ping_if_idle now ep).0.outbound ≡ ep.outbound
unfolding ping_if_idle launch
ping_if_idle-outbound now ep = ground arith

abbrev pings : Millis → ReliableEndpoint → List (List ℕ)
pings now ep = if is_idle now ep then [] ∷ [] else []

full-pings : (now : Millis) (ep : ReliableEndpoint) → full (pings now ep) ≡ []
full-pings now ep = ground arith

pub sent_part :
    (queue sent waiting : List (List ℕ))
    → queue ≡ sent ++ waiting
    → take (length queue - length waiting) queue ≡ sent
sent_part queue sent waiting e =
    ap (λ q. take (length q - length waiting) q) e
    ∙ take-append (length (sent ++ waiting) - length waiting) sent waiting
        (omega (arith, length-append sent waiting))

-- Of the queue, the payloads that are not empty are sent or stay queued, in their order.
pub launched-full :
    (now clock : Millis) (ep : ReliableEndpoint)
    → full ep.outbound
      ≡ full (launched now clock ep) ++ full (poll_outbound now clock ep).0.outbound
unfolding poll_outbound launched
launched-full now clock ep =
    let ep₁ = (retransmit_window now ep).0 in
    let split = send_loop-Split now ep₁.outbound ep₁ in
    let ep₂ = (send_loop now ep₁.outbound ep₁).0 in
    let ep₃ = (ack_if_due clock ep₂).0 in
    let left : ep₂.outbound ≡ split.waiting = ap (λ r. r.0.outbound) split.result in
    let front =
      sent_part ep₁.outbound split.sent ep₂.outbound
        (split.whole ∙ ap (◌++◌ split.sent) (sym left)) in
    ap full (sym (retransmit_window-outbound now ep) ∙ split.whole)
    ∙ full-append split.sent split.waiting
    ∙ ap₂ (λ p q. p ++ full q)
        (sym (
          ap (λ q. full (q ++ pings now ep₃)) front
          ∙ full-append split.sent (pings now ep₃)
          ∙ ap (λ q. full split.sent ++ q) (full-pings now ep₃)
          ∙ append-nil (full split.sent)))
        (sym (ping_if_idle-outbound now ep₃ ∙ ack_if_due-outbound clock ep₂ ∙ left))

-- What stays queued is the end of the queue.
pub poll_outbound-waiting :
    (now clock : Millis) (ep : ReliableEndpoint)
    → (sent : List (List ℕ)) × (ep.outbound ≡ sent ++ (poll_outbound now clock ep).0.outbound)
unfolding poll_outbound
poll_outbound-waiting now clock ep =
    let ep₁ = (retransmit_window now ep).0 in
    let split = send_loop-Split now ep₁.outbound ep₁ in
    let ep₂ = (send_loop now ep₁.outbound ep₁).0 in
    let ep₃ = (ack_if_due clock ep₂).0 in
    let left : ep₂.outbound ≡ split.waiting = ap (λ r. r.0.outbound) split.result in
    (
      split.sent,
      sym (retransmit_window-outbound now ep)
          ∙ split.whole
          ∙ ap (◌++◌ split.sent)
              (sym (ping_if_idle-outbound now ep₃ ∙ ack_if_due-outbound clock ep₂ ∙ left)),
    )
