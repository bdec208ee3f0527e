-- ===== src/Proxy/System/Commanding.antt =====
-- The way of the clients' commands through the proxy of proxy.rs to the switcher.
use atemproxy.Prelude.{
  ◌≡◌, refl, ap, sym, ◌∙◌, ℕ, List, [], ◌++◌, flatten, flatten-append, append_assoc, append-nil,
}
use atemproxy.Protocol.Reliable.{ReliableEndpoint}
use atemproxy.Protocol.Outbound.Carrying.{Carries, Carries-append}
use atemproxy.Proxy.Config.{Config}
use atemproxy.Proxy.Upstream.{keep_framed, begin_session, end_session}
use atemproxy.Proxy.Upstream.Outbox.{on_datagram-IsKept}
use atemproxy.Proxy.Upstream.Commanding.{on_command-flatten, on_tick-flatten}
use atemproxy.Proxy.System.{
  System, Step, client_sent, timer, fanned_out, lagged, switcher_sent, commanded, switcher_ticked,
  session_ended, session_began, initial, Run,
}
use atemproxy.Proxy.System.Balancing.{
  issued_by, sent_by, emitted_by, IsWithin, waiting, keep_framed-append, Balances, Step-Balances,
  Step-Carries,
}

-- A run within one session: the commands that it takes from the clients, and the packets that it
-- sends to the switcher.
pub data Forwarding (config : Config)
    : System → System → List (List ℕ) → List (List ℕ) → Type 0 where
  nothing : (st : System) → Forwarding config st st [] []
  then_ :
      (st st' st'' : System) (issued emitted : List (List ℕ))
      → Forwarding config st st' issued emitted
      → (step : Step config st' st'') → IsWithin step
      → Forwarding config st st'' (issued ++ issued_by step) (emitted ++ emitted_by step)

-- What a run has sent in its packets.
record Delivers (st st' : System) (issued emitted : List (List ℕ)) : Type 0 where
  sent : List (List ℕ)
  carries : Carries emitted sent
  balances : Balances st st' issued sent

Forwarding-Delivers :
    (config : Config) (st st' : System) (issued emitted : List (List ℕ))
    → Forwarding config st st' issued emitted
    → st.upstream.pending_cmds ≡ []
    → Delivers st st' issued emitted
unfolding keep_framed
Forwarding-Delivers config _ _ _ _ (nothing st) n = record {
  sent = [];
  carries = Carries.nothing;
  balances = record { bytes = sym (append-nil (waiting st)); none_pending = n };
}
Forwarding-Delivers config _ _ _ _ (then_ st st' st'' issued emitted run step i) n =
    let d = Forwarding-Delivers config st st' issued emitted run n in
    let before = d.balances in
    let after = Step-Balances config st' st'' step i before.none_pending in
    let new = flatten (sent_by step) in
    let asked = flatten (keep_framed (issued_by step)) in
    record {
      sent = d.sent ++ sent_by step;
      carries =
          Carries-append emitted (emitted_by step) d.sent (sent_by step) d.carries
            (Step-Carries config st' st'' step before.none_pending);
      balances = record {
        bytes =
            ap (λ bs. bs ++ waiting st'') (flatten-append d.sent (sent_by step))
            ∙ append_assoc (flatten d.sent) new (waiting st'')
            ∙ ap (◌++◌ (flatten d.sent)) after.bytes
            ∙ sym (append_assoc (flatten d.sent) (waiting st') asked)
            ∙ ap (λ bs. bs ++ asked) before.bytes
            ∙ append_assoc (waiting st) (flatten (keep_framed issued)) asked
            ∙ ap (◌++◌ (waiting st)) (
                sym (flatten-append (keep_framed issued) (keep_framed (issued_by step)))
                ∙ ap flatten (sym (keep_framed-append issued (issued_by step))));
        none_pending = after.none_pending;
      };
    }

-- Between the rounds no commands are kept back.
none_pending-Run :
    (config : Config) (rel : ReliableEndpoint) (st : System)
    → Run config (initial rel) st
    → st.upstream.pending_cmds ≡ []
unfolding begin_session end_session
none_pending-Run config rel st run = from_start (initial rel) st run refl
  where
    after_step :
        (st st' : System)
        → Step config st st'
        → st.upstream.pending_cmds ≡ []
        → st'.upstream.pending_cmds ≡ []
    after_step _ _ (session_ended st) n = n
    after_step _ _ (session_began rel st q) n = refl
    after_step _ _ (client_sent now bytes a server effects st e) n = n
    after_step _ _ (timer now clock st) n = n
    after_step _ _ (fanned_out e unread st q) n = n
    after_step _ _ (lagged skipped unread st q) n = n
    after_step _ _ (switcher_sent now bytes st) n =
        (on_datagram-IsKept now bytes st.upstream).pending ∙ n
    after_step _ _ (commanded now clock raw queued rest st q) n =
        (on_command-flatten now clock raw queued st.upstream n).1
    after_step _ _ (switcher_ticked now clock upstream out st q) n =
        (on_tick-flatten now clock st.upstream upstream out q n).1

    from_start :
        (st st' : System)
        → Run config st st'
        → st.upstream.pending_cmds ≡ []
        → st'.upstream.pending_cmds ≡ []
    from_start _ _ (Run.nothing st) n = n
    from_start _ _ (Run.then_ st st' st'' run step) n =
        after_step st' st'' step (from_start st st' run n)

-- From any state that the proxy reaches and within one session with the switcher, whatever arrives on
-- either side and in whatever order the tasks take turns: among the packets that the proxy sends to
-- the switcher stand, in order, packets that carry payloads and ask for an acknowledgement, made by
-- `encode_packet`; these payloads, then those queued for the switcher and the commands in the channel
-- are, byte for byte and in order, the payloads queued and the commands in the channel at first and
-- then the commands that the filter has forwarded since. A command shorter than a frame's header does
-- not count, and of a payload longer than 2035 bytes the packet carries as many.
pub Forwarding-flatten :
    (config : Config) (rel : ReliableEndpoint) (st st' : System) (issued emitted : List (List ℕ))
    → Run config (initial rel) st
    → Forwarding config st st' issued emitted
    → (sent : List (List ℕ)) × Carries emitted sent
      × (flatten sent ++ waiting st' ≡ waiting st ++ flatten (keep_framed issued))
Forwarding-flatten config rel st st' issued emitted before run =
    let d =
      Forwarding-Delivers config st st' issued emitted run
        (none_pending-Run config rel st before) in
    (d.sent, d.carries, d.balances.bytes)
