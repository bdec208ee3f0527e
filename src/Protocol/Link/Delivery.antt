-- ===== src/Protocol/Link/Delivery.antt =====
-- Two endpoints of reliable.rs and the network between them, from the first packet on.
use atemproxy.Prelude.{
  ℕ, ◌≤◌, ◌<◌, ◌≡◌, refl, ap, sym, ◌∙◌, List, [], ◌∷◌, ◌++◌, arith, All, append_assoc, none,
}
use atemproxy.Protocol.Reliable.{ReliableEndpoint, queue_payload}
use atemproxy.Protocol.Reliable.Ids.{advance-zero}
use atemproxy.Protocol.Link.{Link, queue, In, Step, Run}
use Step.{queues, polls, arrives, acknowledges, ack_arrives, loses}
use Run.{start, then_}
use atemproxy.Protocol.Link.State.{full, full-append, IsLink, All-In}
use atemproxy.Protocol.Link.Polling.{poll-IsLink}
use atemproxy.Protocol.Link.Arriving.{receive-IsLink}
use atemproxy.Protocol.Link.Acking.{acknowledge-IsLink, take_ack-IsLink}

-- Two endpoints that have exchanged nothing yet and begin at the same id.
pub record AreFresh (first : ℕ) (sender receiver : ReliableEndpoint) : Type 0 where
  pub next_id : sender.next_send_id ≡ first
  pub expected : receiver.ack.expected_recv ≡ first
  pub id_fits : first < 32768
  pub empty_window : sender.in_flight ≡ []
  pub empty_queue : sender.outbound ≡ []
  pub positive : 0 < sender.config.max_in_flight
  pub small : sender.config.max_in_flight ≤ 256
  pub sender_fits : sender.session_id < 65536
  pub receiver_fits : receiver.session_id < 65536
  pub no_ack : sender.ack.highest_recv ≡ none
  pub no_recv : receiver.ack.highest_recv ≡ none

abbrev pub linked : ReliableEndpoint → ReliableEndpoint → Link
linked sender receiver = record {
  sender = sender;
  receiver = receiver;
  queued = [];
  history = [];
  wire = [];
  acks = [];
  delivered = [];
}

module _ (first : ℕ) where
  pub linked-IsLink :
      (sender receiver : ReliableEndpoint)
      → AreFresh first sender receiver
      → IsLink first (linked sender receiver)
  linked-IsLink sender receiver f = record {
    base = 0;
    behind = omega arith;
    ahead = omega arith;
    sends = record {
      whole = rw f.empty_window refl;
      in_row = rw f.empty_window refl;
      next_id = f.next_id ∙ sym (advance-zero first f.id_fits);
      bounded = rw f.empty_window (omega arith);
      positive = f.positive;
      small = f.small;
      fits = f.sender_fits;
      own = λ id h. absurd (cc (h, f.no_ack));
      holds = rw f.empty_window tt;
    };
    receives = record {
      fits = f.receiver_fits;
      expected = f.expected ∙ sym (advance-zero first f.id_fits);
      last = λ id h. absurd (cc (h, f.no_recv));
    };
    packets = tt;
    answers = tt;
    got = refl;
    content = rw f.empty_queue refl;
  }

  All-All-In :
      {A : Type 0} (P : A → Type 0) (xs ys : List A) → All P xs → All (λ y. In y xs) ys → All P ys
  All-All-In P xs [] h i = tt
  All-All-In P xs (y ∷ ys) h i = (All-In P y xs h i.0, All-All-In P xs ys h i.1)

  queue-IsLink : (payload : List ℕ) (st : Link) → IsLink first st → IsLink first (queue payload st)
  unfolding queue_payload
  queue-IsLink payload st w = record {
    base = w.base;
    behind = w.behind;
    ahead = w.ahead;
    sends = record {
      whole = w.sends.whole;
      in_row = w.sends.in_row;
      next_id = w.sends.next_id;
      bounded = w.sends.bounded;
      positive = w.sends.positive;
      small = w.sends.small;
      fits = w.sends.fits;
      own = w.sends.own;
      holds = w.sends.holds;
    };
    receives = w.receives;
    packets = w.packets;
    answers = w.answers;
    got = w.got;
    content =
        ap (◌++◌ (full st.history)) (full-append st.sender.outbound (payload ∷ []))
        ∙ sym (append_assoc (full st.history) (full st.sender.outbound) (full (payload ∷ [])))
        ∙ ap (λ q. q ++ full (payload ∷ [])) w.content
        ∙ sym (full-append st.queued (payload ∷ []));
  }

  pub Step-IsLink : (st st' : Link) → Step st st' → IsLink first st → IsLink first st'
  Step-IsLink _ _ (queues payload st) w = queue-IsLink payload st w
  Step-IsLink _ _ (polls now clock st) w = poll-IsLink first now clock st w
  Step-IsLink _ _ (arrives t bytes st in_ recent) w = receive-IsLink first t bytes st in_ recent w
  Step-IsLink _ _ (acknowledges clock st) w = acknowledge-IsLink first clock st w
  Step-IsLink _ _ (ack_arrives t bytes st in_ recent) w =
      take_ack-IsLink first t bytes st in_ recent w
  Step-IsLink _ _ (loses wire acks st i j) w = record {
    base = w.base;
    behind = w.behind;
    ahead = w.ahead;
    sends = w.sends;
    receives = w.receives;
    packets = All-All-In _ st.wire wire w.packets i;
    answers = All-All-In _ st.acks acks w.answers j;
    got = w.got;
    content = w.content;
  }

  pub Run-IsLink : (st st' : Link) → Run st st' → IsLink first st → IsLink first st'
  Run-IsLink _ _ (start st) w = w
  Run-IsLink _ _ (then_ st st' st'' run step) w =
      Step-IsLink st' st'' step (Run-IsLink st st' run w)
