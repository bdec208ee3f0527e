-- ===== src/Protocol/Link/Sending.antt =====
-- poll_outbound of reliable.rs at the sender's end of a link, part by part.
use atemproxy.Prelude.{
  ℕ, suc, ◌+◌, ◌≤◌, ◌<◌, ◌≡◌, refl, ap, ap₂, sym, subst, ◌∙◌, List, [], ◌∷◌, ◌++◌, arith, length,
  get_or, map, All, inl, inr, Bool-cases, ltb, append_assoc, append-nil, length-append, get_or_next,
}
use atemproxy.Protocol.Reliable.{Millis, ReliableEndpoint, InFlightEntry, next_packet_id}
use atemproxy.Protocol.Reliable.Ids.{advance, ids_from, next-advance, advance-lt, advance-advance}
use atemproxy.Protocol.Outbound.{restamp, resend, reliable_packet, launch, send_loop}
use atemproxy.Protocol.Outbound.Window.{ids_from-append, ids-append, entry}
use atemproxy.Protocol.Link.Wire.{
  IsPacket, Reads, IsPacket-Reads, mark_retransmit-Reads, reliable_packet-IsPacket,
}
use atemproxy.Protocol.Link.State.{Holds, IsSender}
use atemproxy.Protocol.Link.Holding.{Emitted, Emitted-more, Holds-append, Holds-next}

module _ (first : ℕ) where
  launched-IsPacket :
      (base : ℕ) (history : List (List ℕ)) (payload : List ℕ) (ep : ReliableEndpoint)
      → IsSender first base history ep
      → ep.next_send_id ≡ advance (base + length ep.in_flight) first
      → get_or (history ++ payload ∷ []) (base + length ep.in_flight) [] ≡ payload
      → IsPacket
          (advance (base + length ep.in_flight) first)
          (get_or (history ++ payload ∷ []) (base + length ep.in_flight) [])
          (reliable_packet ep payload)
  launched-IsPacket base history payload ep w id place =
      subst
        (λ q. IsPacket (advance (base + length ep.in_flight) first) q (reliable_packet ep payload))
        (sym place)
        (subst (λ k. IsPacket k payload (reliable_packet ep payload)) id
          (reliable_packet-IsPacket ep payload w.fits
            (ground (arith, advance-lt (length history) first, w.next_id))))

  pub launch-IsSender :
      (now : Millis) (base : ℕ) (history : List (List ℕ)) (payload : List ℕ) (ep : ReliableEndpoint)
      → length ep.in_flight < ep.config.max_in_flight
      → IsSender first base history ep
      → IsSender first base (history ++ payload ∷ []) (launch now payload ep)
  unfolding launch
  launch-IsSender now base history payload ep room w =
      let e = entry now payload ep in
      let n : length (ep.in_flight ++ e ∷ []) ≡ suc (length ep.in_flight) =
        omega (arith, length-append ep.in_flight (e ∷ [])) in
      let m : length (history ++ payload ∷ []) ≡ suc (length history) =
        omega (arith, length-append history (payload ∷ [])) in
      let id : ep.next_send_id ≡ advance (base + length ep.in_flight) first =
        w.next_id ∙ ap (λ k. advance k first) (sym w.whole) in
      let place : get_or (history ++ payload ∷ []) (base + length ep.in_flight) [] ≡ payload =
        ap (λ k. get_or (history ++ payload ∷ []) k []) w.whole
        ∙ get_or_next history [] payload [] in
      record {
        whole = omega (arith, w.whole);
        in_row =
            ids-append ep.in_flight (e ∷ [])
            ∙ ap₂ (λ xs k. xs ++ k ∷ []) w.in_row
                (id ∙ sym (advance-advance (length ep.in_flight) base first))
            ∙ ids_from-append (length ep.in_flight) (advance base first) (advance-lt base first)
            ∙ ap (ids_from (advance base first)) (sym n);
        next_id =
            ap next_packet_id w.next_id
            ∙ next-advance (length history) first
            ∙ ap (λ k. advance k first) (sym m);
        bounded = omega arith;
        positive = w.positive;
        small = w.small;
        fits = w.fits;
        own = w.own;
        holds =
            Holds-next first (history ++ payload ∷ []) base ep.in_flight e
              (Holds-append first history (payload ∷ []) base ep.in_flight (omega (arith, w.whole))
                w.holds)
              (launched-IsPacket base history payload ep w id place);
      }

  pub launch-Emitted :
      (base : ℕ) (history : List (List ℕ)) (payload : List ℕ) (ep : ReliableEndpoint)
      → IsSender first base history ep
      → Emitted first base (history ++ payload ∷ []) (reliable_packet ep payload)
  launch-Emitted base history payload ep w = inl (
    length history,
    omega (arith, w.whole),
    omega (arith, length-append history (payload ∷ [])),
    subst (λ q. Reads (advance (length history) first) q (reliable_packet ep payload))
        (sym (get_or_next history [] payload []))
        (subst (λ k. Reads k payload (reliable_packet ep payload)) w.next_id
          (IsPacket-Reads ep.next_send_id payload (reliable_packet ep payload) (
            reliable_packet-IsPacket ep payload w.fits
              (ground (arith, advance-lt (length history) first, w.next_id))))),
  )

  pub retransmit-Emitted :
      (base : ℕ) (history : List (List ℕ)) (i : ℕ) (es : List InFlightEntry)
      → base ≤ i
      → i + length es ≤ length history
      → Holds first history i es
      → All (Emitted first base history) (map resend es)
  retransmit-Emitted base history i [] l k h = tt
  retransmit-Emitted base history i (e ∷ es) l k h = (
    inl (
      i,
      l,
      omega arith,
      mark_retransmit-Reads (advance i first) (get_or history i []) e.bytes h.0,
    ),
    retransmit-Emitted base history (suc i) es (omega arith) (omega arith) h.1,
  )

  pub Holds-restamp :
      (now : Millis) (history : List (List ℕ)) (i : ℕ) (es : List InFlightEntry)
      → Holds first history i es
      → Holds first history i (map (restamp now) es)
  Holds-restamp now history i [] h = tt
  Holds-restamp now history i (e ∷ es) h = (h.0, Holds-restamp now history (suc i) es h.1)

  -- What the loop over the queue makes of a sender.
  pub record Sent (now : Millis) (base : ℕ) (history queue : List (List ℕ)) (ep : ReliableEndpoint)
      : Type 0 where
    pub sent : List (List ℕ)
    pub whole : queue ≡ sent ++ (send_loop now queue ep).0.outbound
    pub sends : IsSender first base (history ++ sent) ((send_loop now queue ep).0)
    pub emits : All (Emitted first base (history ++ sent)) ((send_loop now queue ep).1)

  Sent-none :
      (now : Millis) (base : ℕ) (history queue : List (List ℕ)) (ep : ReliableEndpoint)
      → send_loop now queue ep ≡ (record ep { outbound = queue }, [])
      → IsSender first base history ep
      → Sent now base history queue ep
  Sent-none now base history queue ep e w = record {
    sent = [];
    whole = rw e refl;
    sends = rw (e, append-nil history) w;
    emits = rw e tt;
  }

  pub send_loop-Sent :
      (now : Millis) (base : ℕ) (history queue : List (List ℕ)) (ep : ReliableEndpoint)
      → IsSender first base history ep
      → Sent now base history queue ep
  unfolding send_loop
  send_loop-Sent now base history [] ep w = Sent-none now base history [] ep refl w
  send_loop-Sent now base history (p ∷ queue) ep w =
      elim (Bool-cases (ltb (length ep.in_flight) ep.config.max_in_flight)) [
        | inl room ↦
            let later =
              send_loop-Sent now base (history ++ p ∷ []) queue (launch now p ep)
                (launch-IsSender now base history p ep (ground arith) w) in
            let join = append_assoc history (p ∷ []) later.sent in
            record {
              sent = p ∷ later.sent;
              whole = rw room (ap (◌∷◌ p) later.whole);
              sends = rw room (rw join at later.sends);
              emits = rw room (
                subst (λ h. Emitted first base h (reliable_packet ep p)) join
                    (Emitted-more first base (history ++ p ∷ []) later.sent (reliable_packet ep p)
                      (launch-Emitted base history p ep w)),
                rw join at later.emits,
              );
            }
        | inr full ↦ Sent-none now base history (p ∷ queue) ep (rw full refl) w
      ]
