-- ===== src/Protocol/Outbound/Carrying.antt =====
-- The packets in which poll_outbound of reliable.rs sends payloads for the first time.
use atemproxy.Prelude.{
  ◌≡◌, ap, sym, subst, ◌∙◌, inl, inr, Bool-cases, ℕ, ◌-◌, List, [], ◌∷◌, ◌++◌, length, take,
  if◌then◌else◌,
}
use atemproxy.Protocol.Reliable.{Millis, ReliableEndpoint}
use atemproxy.Protocol.Outbound.{
  reliable_packet, retransmit_window, send_loop, ack_if_due, ping_if_idle, is_idle, poll_outbound,
}
use atemproxy.Protocol.Outbound.Sending.{packets, send_loop-Split}
use atemproxy.Protocol.Link.{launched}
use atemproxy.Protocol.Link.Launching.{sent_part}

-- Among the packets stand packets that carry the payloads, one for each and in their order.
pub data Carries : List (List ℕ) → List (List ℕ) → Type 0 where
  nothing : Carries [] []
  another :
      (bytes : List ℕ) (out payloads : List (List ℕ))
      → Carries out payloads
      → Carries (bytes ∷ out) payloads
  carried :
      (ep : ReliableEndpoint) (payload : List ℕ) (out payloads : List (List ℕ))
      → Carries out payloads
      → Carries (reliable_packet ep payload ∷ out) (payload ∷ payloads)

pub Carries-append :
    (out out' ps ps' : List (List ℕ))
    → Carries out ps
    → Carries out' ps'
    → Carries (out ++ out') (ps ++ ps')
Carries-append _ out' _ ps' nothing d = d
Carries-append _ out' _ ps' (another bytes out ps c) d =
    another bytes (out ++ out') (ps ++ ps') (Carries-append out out' ps ps' c d)
Carries-append _ out' _ ps' (carried ep p out ps c) d =
    carried ep p (out ++ out') (ps ++ ps') (Carries-append out out' ps ps' c d)

pub no-Carries : (out : List (List ℕ)) → Carries out []
no-Carries [] = nothing
no-Carries (bytes ∷ out) = another bytes out [] (no-Carries out)

packets-Carries :
    (now : Millis) (ps : List (List ℕ)) (ep : ReliableEndpoint) → Carries (packets now ps ep) ps
unfolding packets
packets-Carries now [] ep = nothing
packets-Carries now (p ∷ ps) ep = carried ep p _ ps (packets-Carries now ps _)

pings-Carries :
    (now : Millis) (ep : ReliableEndpoint)
    → Carries (ping_if_idle now ep).1 (if is_idle now ep then [] ∷ [] else [])
unfolding ping_if_idle
pings-Carries now ep = elim (Bool-cases (is_idle now ep)) [
  | inl e ↦ rw (e, ping_if_idle) (carried ep [] [] [] nothing)
  | inr e ↦ rw (e, ping_if_idle) nothing
]

-- The packets of a poll carry what it sends for the first time.
pub poll_outbound-Carries :
    (now clock : Millis) (ep : ReliableEndpoint)
    → Carries (poll_outbound now clock ep).1 (launched now clock ep)
unfolding poll_outbound launched
poll_outbound-Carries now clock ep =
    let ep₁ = (retransmit_window now ep).0 in
    let again = (retransmit_window now ep).1 in
    let split = send_loop-Split now ep₁.outbound ep₁ in
    let ep₂ = (send_loop now ep₁.outbound ep₁).0 in
    let ep₃ = (ack_if_due clock ep₂).0 in
    let acks = (ack_if_due clock ep₂).1 in
    let left : ep₂.outbound ≡ split.waiting = ap (λ r. r.0.outbound) split.result in
    let front =
      sent_part ep₁.outbound split.sent ep₂.outbound
        (split.whole ∙ ap (◌++◌ split.sent) (sym left)) in
    let fresh : Carries (send_loop now ep₁.outbound ep₁).1
        (take (length ep₁.outbound - length ep₂.outbound) ep₁.outbound) =
      subst (λ (r : List (List ℕ) × List (List ℕ)). Carries r.0 r.1)
        (λ i. (ap (λ r. r.1) (sym split.result) i, sym front i))
        (packets-Carries now split.sent ep₁) in
    Carries-append again _ [] _ (no-Carries again) (
      Carries-append _ _ _ _ fresh
        (Carries-append acks _ [] _ (no-Carries acks) (pings-Carries now ep₃)))
