-- ===== src/Protocol/Outbound/Acks.antt =====
-- ReliableEndpoint::on_ack_id (reliable.rs) against the window of packets in flight.
use atemproxy.Prelude.{
  ℕ, zero, suc, ◌+◌, ◌-◌, ◌≤◌, ◌<◌, ◌≡◌, refl, ap, ap₂, sym, ◌∙◌, true, false, List, [], ◌∷◌, arith,
  length, drop, length-drop, Bool-cases, inl, inr,
}
use atemproxy.Protocol.Reliable.{
  ReliableEndpoint, InFlightEntry, next_packet_id, is_ack_covering, pop_covered, on_ack_id,
}
use atemproxy.Protocol.Reliable.Ids.{
  advance, ids_from, advance-zero, advance-suc, advance-lt, advance-advance, next_packet_id-lt,
  covering_in_window, not-covering_in_window,
}
use atemproxy.Protocol.Outbound.Window.{ids, IsWindow}

pop_front :
    (a : ℕ) (x : InFlightEntry) (xs : List InFlightEntry)
    → is_ack_covering a x.packet_id ≡ true
    → pop_covered a (x ∷ xs) ≡ pop_covered a xs
unfolding pop_covered
pop_front a x xs e = rw e

keep_front :
    (a : ℕ) (x : InFlightEntry) (xs : List InFlightEntry)
    → is_ack_covering a x.packet_id ≡ false
    → pop_covered a (x ∷ xs) ≡ x ∷ xs
unfolding pop_covered
keep_front a x xs e = rw e

covers :
    (k start id : ℕ)
    → start < 32768
    → k < 256
    → id ≡ start
    → is_ack_covering (advance k start) id ≡ true
covers k start id s h e =
    ap (is_ack_covering (advance k start)) (e ∙ sym (advance-zero start s))
    ∙ covering_in_window start 0 k s (omega arith) h (omega arith)

-- The packet behind the acknowledged one stays.
stop_at :
    (start : ℕ) (xs : List InFlightEntry)
    → start < 32768
    → ids xs ≡ ids_from (next_packet_id start) (length xs)
    → pop_covered (advance 0 start) xs ≡ xs
stop_at start [] s e = unfold pop_covered in refl
stop_at start (x ∷ xs) s e =
    let id : x.packet_id ≡ next_packet_id start = cc in
    let one : next_packet_id start ≡ advance 1 start =
      sym (advance-zero _ (next_packet_id-lt start)) ∙ sym (advance-suc 0 start) in
    keep_front (advance 0 start) x xs (
      ap (is_ack_covering (advance 0 start)) (id ∙ one)
      ∙ not-covering_in_window start 1 0 s (omega arith) (omega arith))

-- The acknowledged packet is `k` places behind `start`, and the list begins at `start`.
pub pop_window :
    (k start : ℕ) (xs : List InFlightEntry)
    → start < 32768
    → ids xs ≡ ids_from start (length xs)
    → k < length xs
    → length xs ≤ 256
    → pop_covered (advance k start) xs ≡ drop (suc k) xs
pop_window k start [] s e h l = absurd (omega arith)
pop_window zero start (x ∷ xs) s e h l =
    pop_front (advance 0 start) x xs (covers 0 start x.packet_id s (omega arith) (cc))
    ∙ stop_at start xs s (cc)
pop_window (suc k) start (x ∷ xs) s e h l =
    pop_front (advance (suc k) start) x xs (covers (suc k) start x.packet_id s (omega arith) (cc))
    ∙ ap (λ a. pop_covered a xs) (advance-suc k start)
    ∙ pop_window k (next_packet_id start) xs (next_packet_id-lt start) (cc) (omega arith)
        (omega arith)

pub ids-drop : (n : ℕ) (xs : List InFlightEntry) → ids (drop n xs) ≡ drop n (ids xs)
ids-drop zero xs = refl
ids-drop (suc n) [] = refl
ids-drop (suc n) (x ∷ xs) = ids-drop n xs

pub drop-ids_from :
    (k n start : ℕ)
    → k ≤ n
    → start < 32768
    → drop k (ids_from start n) ≡ ids_from (advance k start) (n - k)
drop-ids_from zero n start h s = ap₂ ids_from (sym (advance-zero start s)) (omega arith)
drop-ids_from (suc k) zero start h s = absurd (omega arith)
drop-ids_from (suc k) (suc n) start h s =
    drop-ids_from k n (next_packet_id start) (omega arith) (next_packet_id-lt start)
    ∙ ap₂ ids_from (sym (advance-suc k start)) (omega arith)

-- The packets before a place leave a window.
pub drop-IsWindow :
    (n : ℕ) (ep : ReliableEndpoint)
    → n ≤ length ep.in_flight
    → IsWindow ep
    → IsWindow (record ep { in_flight = drop n ep.in_flight })
drop-IsWindow n ep l w =
    let m = length-drop n ep.in_flight in
    record {
      start = advance n w.start;
      start_fits = advance-lt n w.start;
      in_row =
          ids-drop n ep.in_flight
          ∙ ap (drop n) w.in_row
          ∙ drop-ids_from n (length ep.in_flight) w.start l w.start_fits
          ∙ ap (ids_from (advance n w.start)) (sym m);
      next_id =
          w.next_id
          ∙ ap (λ k. advance k w.start) (rest m)
          ∙ sym (advance-advance (length (drop n ep.in_flight)) n w.start);
      bounded = omega (arith, w.bounded);
    }
  where
    rest :
        length (drop n ep.in_flight) ≡ length ep.in_flight - n
        → length ep.in_flight ≡ n + length (drop n ep.in_flight)
    rest m = omega arith

-- In a window of at most 256 packets an acknowledgement of the packet at place `k` releases that
-- packet and those before it, keeps those after it, and leaves a window.
pub on_ack_id-window :
    (ep : ReliableEndpoint) (w : IsWindow ep) (k : ℕ)
    → k < length ep.in_flight
    → length ep.in_flight ≤ 256
    → let acked = on_ack_id (advance k w.start) ep in
      (acked.in_flight ≡ drop (suc k) ep.in_flight) × IsWindow acked
unfolding on_ack_id
on_ack_id-window ep w k h l =
    let e = pop_window k w.start ep.in_flight w.start_fits w.in_row h l in
    (e, rw e (drop-IsWindow (suc k) ep h w))

-- Whatever id is acknowledged, the packets that leave stand at the front.
pop_covered-drop :
    (id : ℕ) (es : List InFlightEntry) → (n : ℕ) × (n ≤ length es) × (pop_covered id es ≡ drop n es)
unfolding pop_covered
pop_covered-drop id [] = (0, omega arith, refl)
pop_covered-drop id (e ∷ es) = elim (Bool-cases (is_ack_covering id e.packet_id)) [
  | inl c ↦ let (n, l, h) = pop_covered-drop id es in (suc n, omega (arith, l), rw c h)
  | inr c ↦ (0, omega arith, rw c refl)
]

pub on_ack_id-IsWindow : (id : ℕ) (ep : ReliableEndpoint) → IsWindow ep → IsWindow (on_ack_id id ep)
unfolding on_ack_id
on_ack_id-IsWindow id ep w =
    let (n, l, e) = pop_covered-drop id ep.in_flight in rw e (drop-IsWindow n ep l w)
