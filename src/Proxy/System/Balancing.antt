-- ===== src/Proxy/System/Balancing.antt =====
-- What each step of the proxy of proxy.rs takes from the clients and sends to the switcher.
use atemproxy.Prelude.{
  ◌≡◌, refl, ap, sym, ◌∙◌, inl, inr, Bool-cases, ℕ, List, [], ◌∷◌, ◌++◌, flatten, flatten-append,
  append_assoc, append-nil, ltb, length,
}
use atemproxy.Protocol.Outbound.Carrying.{Carries, no-Carries}
use atemproxy.Protocol.Link.{launched}
use atemproxy.Proxy.Config.{Config}
use atemproxy.Proxy.Upstream.{keep_framed, on_datagram, on_command}
use atemproxy.Proxy.Upstream.Outbox.{on_datagram-IsKept}
use atemproxy.Proxy.Upstream.Commanding.{
  taken, sent_by_command, on_command-flatten, on_tick-flatten, on_command-Carries, on_tick-Carries,
}
use atemproxy.Proxy.System.{
  System, forwarded, on_timer, left_after, Step, client_sent, timer, fanned_out, lagged,
  switcher_sent, commanded, switcher_ticked, session_ended, session_began,
}

-- The commands that a step takes from the clients.
abbrev pub issued_by : {config : Config} {st st' : System} → Step config st st' → List (List ℕ)
issued_by (client_sent now bytes a server effects st e) = forwarded effects
issued_by {config} (timer now clock st) = forwarded (on_timer config now clock st).1
issued_by _ = []

-- The payloads that a step sends to the switcher for the first time.
abbrev pub sent_by : {config : Config} {st st' : System} → Step config st st' → List (List ℕ)
sent_by (commanded now clock raw queued rest st q) =
    sent_by_command now clock raw queued st.upstream
sent_by (switcher_ticked now clock upstream out st q) = launched now clock st.upstream.rel
sent_by _ = []

-- The packets that a step sends to the switcher.
abbrev pub emitted_by : {config : Config} {st st' : System} → Step config st st' → List (List ℕ)
emitted_by (switcher_sent now bytes st) = (on_datagram now bytes st.upstream).1
emitted_by (commanded now clock raw queued rest st q) =
    (on_command now clock raw queued st.upstream).1
emitted_by (switcher_ticked now clock upstream out st q) = out
emitted_by _ = []

-- The step belongs to the session with the switcher that there is.
abbrev pub IsWithin : {config : Config} {st st' : System} → Step config st st' → Type 0
IsWithin (session_ended st) = ⊥
IsWithin (session_began rel st q) = ⊥
IsWithin _ = Unit

-- The bytes of the payloads queued for the switcher, and then of the commands in the channel.
abbrev pub waiting : System → List ℕ
waiting st = flatten st.upstream.rel.outbound ++ flatten (keep_framed st.commands)

pub keep_framed-append :
    (xs ys : List (List ℕ)) → keep_framed (xs ++ ys) ≡ keep_framed xs ++ keep_framed ys
unfolding keep_framed
keep_framed-append [] ys = refl
keep_framed-append (x ∷ xs) ys = elim (Bool-cases (ltb (length x) 8)) [
  | inl e ↦ rw e (keep_framed-append xs ys)
  | inr e ↦ rw e (ap (◌∷◌ x) (keep_framed-append xs ys))
]

issued_more :
    (queue : List (List ℕ)) (commands new : List (List ℕ))
    → flatten queue ++ flatten (keep_framed (commands ++ new))
      ≡ (flatten queue ++ flatten (keep_framed commands)) ++ flatten (keep_framed new)
issued_more queue commands new =
    ap (λ cs. flatten queue ++ flatten cs) (keep_framed-append commands new)
    ∙ ap (◌++◌ (flatten queue)) (flatten-append (keep_framed commands) (keep_framed new))
    ∙ sym
        (append_assoc (flatten queue) (flatten (keep_framed commands)) (flatten (keep_framed new)))

-- A round of `cmd_rx` takes the commands from the channel.
taken_and_left :
    (raw : List ℕ) (queued rest : List (List ℕ))
    → keep_framed (raw ∷ (queued ++ rest))
      ≡ taken raw queued ++ keep_framed (left_after raw queued rest)
unfolding keep_framed
taken_and_left raw queued rest = elim (Bool-cases (ltb (length raw) 8)) [
  | inl e ↦ rw e refl
  | inr e ↦ rw e (ap (◌∷◌ raw) (keep_framed-append queued rest))
]

-- What a step takes and sends balances.
pub record Balances (st st' : System) (issued sent : List (List ℕ)) : Type 0 where
  pub bytes : flatten sent ++ waiting st' ≡ waiting st ++ flatten (keep_framed issued)
  pub none_pending : st'.upstream.pending_cmds ≡ []

pub Step-Balances :
    (config : Config) (st st' : System) (step : Step config st st')
    → IsWithin step
    → st.upstream.pending_cmds ≡ []
    → Balances st st' (issued_by step) (sent_by step)
unfolding forwarded keep_framed
Step-Balances config _ _ (client_sent now bytes a server effects st e) i n = record {
  bytes = issued_more st.upstream.rel.outbound st.commands (forwarded effects);
  none_pending = n;
}
Step-Balances config _ _ (timer now clock st) i n = record {
  bytes =
      issued_more st.upstream.rel.outbound st.commands (forwarded (on_timer config now clock st).1);
  none_pending = n;
}
Step-Balances config _ _ (fanned_out e unread st q) i n = record {
  bytes = issued_more st.upstream.rel.outbound st.commands [];
  none_pending = n;
}
Step-Balances config _ _ (lagged skipped unread st q) i n = record {
  bytes = issued_more st.upstream.rel.outbound st.commands [];
  none_pending = n;
}
Step-Balances config _ _ (switcher_sent now bytes st) i n =
    let kept = on_datagram-IsKept now bytes st.upstream in
    record {
      bytes =
          ap (λ q. flatten q ++ flatten (keep_framed st.commands)) kept.queue
          ∙ sym (append-nil (waiting st));
      none_pending = kept.pending ∙ n;
    }
Step-Balances config _ _ (commanded now clock raw queued rest st q) i n =
    let (moved, empty) = on_command-flatten now clock raw queued st.upstream n in
    let sent = flatten (sent_by_command now clock raw queued st.upstream) in
    let queue = flatten (on_command now clock raw queued st.upstream).0.rel.outbound in
    let left = flatten (keep_framed (left_after raw queued rest)) in
    record {
      bytes =
          sym (append_assoc sent queue left)
          ∙ ap (λ bs. bs ++ left) moved
          ∙ append_assoc (flatten st.upstream.rel.outbound) (flatten (taken raw queued)) left
          ∙ ap (◌++◌ (flatten st.upstream.rel.outbound)) (
              sym (flatten-append (taken raw queued) (keep_framed (left_after raw queued rest)))
              ∙ ap flatten (sym (taken_and_left raw queued rest))
              ∙ ap (λ cs. flatten (keep_framed cs)) (sym q))
          ∙ sym (append-nil (waiting st));
      none_pending = empty;
    }
Step-Balances config _ _ (switcher_ticked now clock upstream out st q) i n =
    let (moved, empty) = on_tick-flatten now clock st.upstream upstream out q n in
    let channel = flatten (keep_framed st.commands) in
    record {
      bytes =
          sym (
            append_assoc (flatten (launched now clock st.upstream.rel))
              (flatten upstream.rel.outbound) channel)
          ∙ ap (λ bs. bs ++ channel) moved
          ∙ sym (append-nil (waiting st));
      none_pending = empty;
    }
Step-Balances config _ _ (session_ended st) i n = absurd i
Step-Balances config _ _ (session_began rel st q) i n = absurd i

pub Step-Carries :
    (config : Config) (st st' : System) (step : Step config st st')
    → st.upstream.pending_cmds ≡ []
    → Carries (emitted_by step) (sent_by step)
Step-Carries config _ _ (client_sent now bytes a server effects st e) n = Carries.nothing
Step-Carries config _ _ (timer now clock st) n = Carries.nothing
Step-Carries config _ _ (fanned_out e unread st q) n = Carries.nothing
Step-Carries config _ _ (lagged skipped unread st q) n = Carries.nothing
Step-Carries config _ _ (switcher_sent now bytes st) n =
    no-Carries (on_datagram now bytes st.upstream).1
Step-Carries config _ _ (commanded now clock raw queued rest st q) n =
    on_command-Carries now clock raw queued st.upstream
Step-Carries config _ _ (switcher_ticked now clock upstream out st q) n =
    on_tick-Carries now clock st.upstream upstream out q n
Step-Carries config _ _ (session_ended st) n = Carries.nothing
Step-Carries config _ _ (session_began rel st q) n = Carries.nothing
