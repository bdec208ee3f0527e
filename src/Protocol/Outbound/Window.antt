-- ===== src/Protocol/Outbound/Window.antt =====
-- The window of packets in flight under ReliableEndpoint::poll_outbound (reliable.rs).
use atemproxy.Prelude.{
  ℕ, zero, suc, ◌≤◌, ◌<◌, ◌≡◌, refl, ap, sym, subst, ◌∙◌, true, List, [], ◌∷◌, ◌++◌, arith, length,
  map, ltb, Bool-cases, is_empty, length-append, inl, inr,
}
use atemproxy.Protocol.Reliable.{
  Millis, ReliableConfig, ReliableEndpoint, InFlightEntry, next_packet_id, build_ack_packet,
}
use atemproxy.Protocol.Reliable.Ids.{
  advance, ids_from, advance-zero, advance-suc, next-advance, next_packet_id-lt,
}
use atemproxy.Protocol.Outbound.{
  restamp, resent, is_stale, is_idle, pinged, launch, retransmit_window, send_loop, ack_if_due,
  ping_if_idle, poll_outbound, reliable_packet,
}

abbrev pub ids : List InFlightEntry → List ℕ
ids = map (λ e. e.packet_id)

pub record IsWindow (ep : ReliableEndpoint) : Type 0 where
  pub start : ℕ
  pub start_fits : start < 32768
  pub in_row : ids ep.in_flight ≡ ids_from start (length ep.in_flight)
  pub next_id : ep.next_send_id ≡ advance (length ep.in_flight) start
  pub bounded : length ep.in_flight ≤ ep.config.max_in_flight

pub ids_from-append :
    (n id : ℕ) → id < 32768 → ids_from id n ++ (advance n id ∷ []) ≡ ids_from id (suc n)
ids_from-append zero id h = ap (λ k. k ∷ []) (advance-zero id h)
ids_from-append (suc n) id h = ap (◌∷◌ id) (
    ap (λ k. ids_from (next_packet_id id) n ++ (k ∷ [])) (advance-suc n id)
    ∙ ids_from-append n (next_packet_id id) (next_packet_id-lt id))

pub ids-append : (xs ys : List InFlightEntry) → ids (xs ++ ys) ≡ ids xs ++ ids ys
ids-append [] ys = refl
ids-append (x ∷ xs) ys = ap (◌∷◌ x.packet_id) (ids-append xs ys)

abbrev pub entry : Millis → List ℕ → ReliableEndpoint → InFlightEntry
entry now payload ep = record {
  packet_id = ep.next_send_id;
  bytes = reliable_packet ep payload;
  sent_at = now;
}

launch-IsWindow :
    (now : Millis) (payload : List ℕ) (ep : ReliableEndpoint)
    → length ep.in_flight < ep.config.max_in_flight
    → IsWindow ep
    → IsWindow (launch now payload ep)
unfolding launch
launch-IsWindow now payload ep room w =
    let n : length (ep.in_flight ++ entry now payload ep ∷ []) ≡ suc (length ep.in_flight) =
      omega (arith, length-append ep.in_flight (entry now payload ep ∷ [])) in
    record {
      start = w.start;
      start_fits = w.start_fits;
      in_row =
          ids-append ep.in_flight (entry now payload ep ∷ [])
          ∙ (λ i. w.in_row i ++ w.next_id i ∷ [])
          ∙ ids_from-append (length ep.in_flight) w.start w.start_fits
          ∙ ap (ids_from w.start) (sym n);
      next_id =
          ap next_packet_id w.next_id
          ∙ next-advance (length ep.in_flight) w.start
          ∙ ap (λ k. advance k w.start) (sym n);
      bounded = omega arith;
    }

-- A change of the entries' times or of the other fields leaves the window as it was.
pub same_window :
    (ep ep' : ReliableEndpoint)
    → ids ep'.in_flight ≡ ids ep.in_flight
    → length ep'.in_flight ≡ length ep.in_flight
    → ep'.next_send_id ≡ ep.next_send_id
    → ep'.config.max_in_flight ≡ ep.config.max_in_flight
    → IsWindow ep
    → IsWindow ep'
same_window ep ep' i l n m w = record {
  start = w.start;
  start_fits = w.start_fits;
  in_row = i ∙ w.in_row ∙ ap (ids_from w.start) (sym l);
  next_id = n ∙ w.next_id ∙ ap (λ k. advance k w.start) (sym l);
  bounded = omega arith;
}

pub ids-restamp : (now : Millis) (xs : List InFlightEntry) → ids (map (restamp now) xs) ≡ ids xs
ids-restamp now [] = refl
ids-restamp now (x ∷ xs) = ap (◌∷◌ x.packet_id) (ids-restamp now xs)

pub length-restamp :
    (now : Millis) (xs : List InFlightEntry) → length (map (restamp now) xs) ≡ length xs
length-restamp now [] = refl
length-restamp now (x ∷ xs) = ap suc (length-restamp now xs)

retransmit_window-IsWindow :
    (now : Millis) (ep : ReliableEndpoint) → IsWindow ep → IsWindow (retransmit_window now ep).0
unfolding retransmit_window
retransmit_window-IsWindow now ep w = elim (Bool-cases (is_stale now ep)) [
  | inl e ↦
      rw (e, retransmit_window)
        (same_window ep (resent now ep) (ids-restamp now ep.in_flight)
          (length-restamp now ep.in_flight) refl refl w)
  | inr e ↦ rw (e, retransmit_window) w
]

send_loop-IsWindow :
    (now : Millis) (queue : List (List ℕ)) (ep : ReliableEndpoint)
    → IsWindow ep
    → IsWindow (send_loop now queue ep).0
unfolding send_loop
send_loop-IsWindow now [] ep w = same_window ep (record ep { outbound = [] }) refl refl refl refl w
send_loop-IsWindow now (p ∷ queue) ep w =
    elim (Bool-cases (ltb (length ep.in_flight) ep.config.max_in_flight)) [
      | inl room ↦ rw room (
          send_loop-IsWindow now queue (launch now p ep)
            (launch-IsWindow now p ep (ground arith) w))
      | inr full ↦
          rw full (same_window ep (record ep { outbound = p ∷ queue }) refl refl refl refl w)
    ]

pub send_loop-config :
    (now : Millis) (queue : List (List ℕ)) (ep : ReliableEndpoint)
    → (send_loop now queue ep).0.config ≡ ep.config
unfolding send_loop launch
send_loop-config now [] ep = refl
send_loop-config now (p ∷ queue) ep = ground (arith, send_loop-config now queue (launch now p ep))

ack_if_due-IsWindow :
    (clock : Millis) (ep : ReliableEndpoint) → IsWindow ep → IsWindow (ack_if_due clock ep).0
unfolding ack_if_due build_ack_packet
ack_if_due-IsWindow clock ep w =
    same_window ep (ack_if_due clock ep).0 (ground arith) (ground arith) (ground arith)
      (ground arith) w

ping_if_idle-IsWindow :
    (now : Millis) (ep : ReliableEndpoint)
    → 0 < ep.config.max_in_flight
    → IsWindow ep
    → IsWindow (ping_if_idle now ep).0
unfolding ping_if_idle
ping_if_idle-IsWindow now ep h w = elim (Bool-cases (is_idle now ep)) [
  | inl e ↦
      rw (e, ping_if_idle)
        (same_window (launch now [] ep) (pinged now ep) refl refl refl refl
          (launch-IsWindow now [] ep (idle_room ep.in_flight (ground arith)) w))
  | inr e ↦ rw (e, ping_if_idle) w
]
  where
    idle_room : (xs : List InFlightEntry) → is_empty xs ≡ true → length xs < ep.config.max_in_flight
    idle_room [] e = h
    idle_room (x ∷ xs) e = cc

pub retransmit_window-config :
    (now : Millis) (ep : ReliableEndpoint) → (retransmit_window now ep).0.config ≡ ep.config
unfolding retransmit_window
retransmit_window-config now ep = ground arith

pub ack_if_due-config :
    (clock : Millis) (ep : ReliableEndpoint) → (ack_if_due clock ep).0.config ≡ ep.config
unfolding ack_if_due build_ack_packet
ack_if_due-config clock ep = ground arith

-- `poll_outbound` keeps the window, if one packet at least may be in flight: ids in a row up to the
-- next one to send, at most `max_in_flight` of them.
pub poll_outbound-IsWindow :
    (now clock : Millis) (ep : ReliableEndpoint)
    → 0 < ep.config.max_in_flight
    → IsWindow ep
    → IsWindow (poll_outbound now clock ep).0
unfolding poll_outbound
poll_outbound-IsWindow now clock ep h w =
    let ep₁ = (retransmit_window now ep).0 in
    let ep₂ = (send_loop now ep₁.outbound ep₁).0 in
    let ep₃ = (ack_if_due clock ep₂).0 in
    let same : ep₃.config ≡ ep.config =
      ack_if_due-config clock ep₂
      ∙ send_loop-config now ep₁.outbound ep₁
      ∙ retransmit_window-config now ep in
    let room : 0 < ep₃.config.max_in_flight =
      subst (λ (c : ReliableConfig). 0 < c.max_in_flight) (sym same) h in
    ping_if_idle-IsWindow now ep₃ room (
      ack_if_due-IsWindow clock ep₂
        (send_loop-IsWindow now ep₁.outbound ep₁ (retransmit_window-IsWindow now ep w)))
