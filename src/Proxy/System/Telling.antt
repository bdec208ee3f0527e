-- ===== src/Proxy/System/Telling.antt =====
-- The tasks of server.rs and upstream.rs keep what a client of the proxy is told right.
use atemproxy.Prelude.{
  ◌≡◌, refl, ap, ap₂, sym, ◌∙◌, inl, inr, arith, Bool-cases, ℕ, Bool, true, false, ◌&&◌, Option,
  none, some, List, [], ◌∷◌, ◌++◌, if◌then◌else◌, append_assoc,
}
use atemproxy.Protocol.Command.{parse_commands, parse_loop}
use atemproxy.Protocol.Reliable.{Millis, queue_payload, queue_commands_packed, pack}
use atemproxy.Protocol.Outbound.{poll_outbound}
use atemproxy.Protocol.Link.{launched}
use atemproxy.Protocol.Link.State.{full}
use atemproxy.Protocol.Link.Launching.{launched-full, poll_outbound-waiting}
use atemproxy.Proxy.Net.{SocketAddr}
use atemproxy.Proxy.Cache.{CacheKey, get, StateCache, dump}
use atemproxy.Proxy.Cache.Dump.{IsState}
use atemproxy.Proxy.Cache.Views.{
  ingest_all, ingest_all-effect, told, effect, effect-append, or_before, or_before-none,
  or_before_assoc,
}
use atemproxy.Proxy.Upstream.{
  Upstream, UpstreamEvent, connected, disconnected, state_payload, audio_levels, transfer_payload,
}
use atemproxy.Proxy.Upstream.Hearing.{
  states, states-append, Unbroken, Unbroken-append, Unbroken-join, IsHint, Settled, Follows,
}
use atemproxy.Proxy.Server.{ClientSession, with_rel, queue_if}
use atemproxy.Proxy.Server.Fanout.{wants, payload_of}
use atemproxy.Proxy.System.Clients.{Known, IsTold, kept, Settled-effect, effect-packed, effect-hint}

-- A payload queued for a session that wants it.
queue_if-IsTold :
    (b : Bool) (p : List ℕ) (s : ClientSession) (v : StateCache) (before after : List UpstreamEvent)
    (cache : StateCache)
    → (s.opened ≡ false → b ≡ false)
    → (s.opened ≡ true
        → Known s.rel.outbound before v cache
        → Known ((queue_if b p s).rel.outbound) after v cache)
    → IsTold s v before cache
    → IsTold (queue_if b p s) v after cache
unfolding queue_if queue_payload
queue_if-IsTold true p s v before after cache shut goes h = record {
  closed = λ e. absurd (cc (shut e));
  known = λ e. goes e (h.known e);
}
queue_if-IsTold false p s v before after cache shut goes h = record {
  closed = h.closed;
  known = λ e. goes e (h.known e);
}

and_false : (a b : Bool) → a ≡ false → (a && b) ≡ false
and_false a b e = ground arith

-- A hint, queued or not, leaves what is known.
hint_goes :
    (b : Bool) (p : List ℕ) (s : ClientSession) (v : StateCache) (unread : List UpstreamEvent)
    (cache : StateCache)
    → ((k : CacheKey) → told k p ≡ none)
    → Known s.rel.outbound unread v cache
    → Known ((queue_if b p s).rel.outbound) unread v cache
unfolding queue_if queue_payload
hint_goes true p s v unread cache n h u k =
    rw (effect-hint k s.rel.outbound (states unread) p (n k)) (h u k)
hint_goes false p s v unread cache n h u k = h u k

state_goes :
    (b : Bool) (p : List ℕ) (s : ClientSession) (v : StateCache) (unread : List UpstreamEvent)
    (cache : StateCache)
    → b ≡ true
    → Known s.rel.outbound (state_payload p ∷ unread) v cache
    → Known ((queue_if b p s).rel.outbound) unread v cache
unfolding queue_if queue_payload
state_goes true p s v unread cache e h u k =
    rw (append_assoc s.rel.outbound (p ∷ []) (states unread)) (h u k)
state_goes false p s v unread cache e h u k = absurd (cc)

-- An event that is fanned out.
pub event-IsTold :
    (e : UpstreamEvent) (owner : Option SocketAddr) (addr : SocketAddr) (s : ClientSession)
    (v : StateCache) (unread : List UpstreamEvent) (cache : StateCache)
    → ¬ (e ≡ disconnected)
    → IsHint e
    → IsTold s v (e ∷ unread) cache
    → IsTold (queue_if (wants e owner addr s) (payload_of e) s) v unread cache
unfolding queue_if
event-IsTold connected owner addr s v unread cache n i h =
    queue_if-IsTold false [] s v (connected ∷ unread) unread cache (λ _. refl) (λ _ k. k) h
event-IsTold disconnected owner addr s v unread cache n i h = absurd (n refl)
event-IsTold (state_payload p) owner addr s v unread cache n i h =
    queue_if-IsTold s.opened p s v (state_payload p ∷ unread) unread cache (λ e. e)
      (λ e. state_goes s.opened p s v unread cache e) h
event-IsTold (audio_levels p) owner addr s v unread cache n i h =
    queue_if-IsTold (s.opened && s.audio) p s v (audio_levels p ∷ unread) unread cache
      (and_false s.opened s.audio) (λ _. hint_goes (s.opened && s.audio) p s v unread cache i) h
event-IsTold (transfer_payload p) owner addr s v unread cache n i h =
    let b = wants (transfer_payload p) owner addr s in
    queue_if-IsTold b p s v (transfer_payload p ∷ unread) unread cache (and_false s.opened _)
      (λ _. hint_goes b p s v unread cache i) h

-- The switcher's side goes on.
pub Follows-IsTold :
    {P : Type 0} (st st' : Upstream) (f : Follows P st st') (s : ClientSession) (v : StateCache)
    (unread : List UpstreamEvent)
    → IsTold s v unread st.cache
    → IsTold s v (unread ++ f.new) st'.cache
Follows-IsTold st st' f s v unread h = record {
  closed = h.closed;
  known = λ e u k.
      let (u₁, u₂) = Unbroken-append unread f.new u in
      let out = s.rel.outbound in
      let split : effect k (out ++ states (unread ++ f.new))
          ≡ or_before (effect k (states f.new)) (effect k (out ++ states unread)) =
        ap (λ es. effect k (out ++ es)) (states-append unread f.new)
        ∙ ap (effect k) (sym (append_assoc out (states unread) (states f.new)))
        ∙ effect-append k (out ++ states unread) (states f.new) in
      ap (λ x. or_before x (get k v.entries)) split
      ∙ or_before_assoc (effect k (states f.new)) (effect k (out ++ states unread))
          (get k v.entries)
      ∙ ap (or_before (effect k (states f.new))) (h.known e u₁ k)
      ∙ sym (f.tells u₂ k);
}

-- A client whose events were skipped has the dump queued again.
abbrev pub resynced : List (List ℕ) → ClientSession → ClientSession
resynced commands s = if s.opened then with_rel (queue_commands_packed commands s.rel) s else s

or_before_resync :
    (c o v sk u : Option (List ℕ))
    → or_before (or_before u (or_before sk o)) v ≡ c
    → or_before u c ≡ c
    → or_before (or_before u (or_before c o)) v ≡ c
or_before_resync none none v none none h g = h
or_before_resync none (some o) v none none h g = h
or_before_resync none o v (some sk) none h g = absurd (cc)
or_before_resync none o v sk (some u) h g = absurd (cc)
or_before_resync (some c) o v sk none h g = refl
or_before_resync (some c) o v sk (some u) h g = g

lagged_goes :
    (s : ClientSession) (v : StateCache) (skipped unread : List UpstreamEvent) (cache : StateCache)
    → Unbroken skipped
    → IsState cache.entries
    → Settled unread cache
    → Known s.rel.outbound (skipped ++ unread) v cache
    → Known (s.rel.outbound ++ pack [] (dump cache)) unread v cache
lagged_goes s v skipped unread cache us w r h u k =
    let out = s.rel.outbound in
    let lost : effect k (out ++ states (skipped ++ unread))
        ≡ or_before (effect k (states unread))
            (or_before (effect k (states skipped)) (effect k out)) =
      ap (λ es. effect k (out ++ es)) (states-append skipped unread)
      ∙ effect-append k out (states skipped ++ states unread)
      ∙ ap (λ x. or_before x (effect k out)) (effect-append k (states skipped) (states unread))
      ∙ or_before_assoc (effect k (states unread)) (effect k (states skipped)) (effect k out) in
    let again : effect k ((out ++ pack [] (dump cache)) ++ states unread)
        ≡ or_before (effect k (states unread)) (or_before (get k cache.entries) (effect k out)) =
      effect-append k (out ++ pack [] (dump cache)) (states unread)
      ∙ ap (or_before (effect k (states unread))) (
          effect-append k out (pack [] (dump cache))
          ∙ ap (λ x. or_before x (effect k out)) (effect-packed cache k w)) in
    ap (λ x. or_before x (get k v.entries)) again
    ∙ or_before_resync (get k cache.entries) (effect k out) (get k v.entries)
        (effect k (states skipped)) (effect k (states unread))
        (ap (λ x. or_before x (get k v.entries)) (sym lost)
          ∙ h (Unbroken-join skipped unread us u) k)
        (Settled-effect unread cache k r u)

pub lagged-IsTold :
    (s : ClientSession) (v : StateCache) (skipped unread : List UpstreamEvent) (cache : StateCache)
    → Unbroken skipped
    → IsState cache.entries
    → Settled unread cache
    → IsTold s v (skipped ++ unread) cache
    → IsTold (resynced (dump cache) s) v unread cache
unfolding queue_commands_packed
lagged-IsTold s v skipped unread cache us w r h = elim (Bool-cases s.opened) [
  | inl e ↦ simp e (record {
    closed = λ c. absurd (cc);
    known = λ _. lagged_goes s v skipped unread cache us w r (h.known e);
  })
  | inr e ↦ simp e (record { closed = h.closed; known = λ o. absurd (cc) })
]

told-nil : (k : CacheKey) → told k [] ≡ none
unfolding told parse_commands parse_loop
told-nil k = refl

pub effect-full : (k : CacheKey) (ps : List (List ℕ)) → effect k (full ps) ≡ effect k ps
unfolding effect
effect-full k [] = refl
effect-full k ([] ∷ ps) =
    effect-full k ps
    ∙ sym (ap (or_before (effect k ps)) (told-nil k) ∙ or_before-none (effect k ps))
effect-full k ((b ∷ bytes) ∷ ps) = ap (λ x. or_before x (told k (b ∷ bytes))) (effect-full k ps)

-- What is sent for the first time goes from the queue to the client.
polled_goes :
    (now clock : Millis) (s : ClientSession) (v : StateCache) (unread : List UpstreamEvent)
    (cache : StateCache)
    → Known s.rel.outbound unread v cache
    → Known
        (poll_outbound now clock s.rel).0.outbound
        unread
        (ingest_all (launched now clock s.rel) v)
        cache
polled_goes now clock s v unread cache h u k =
    let sent = launched now clock s.rel in
    let left = (poll_outbound now clock s.rel).0.outbound in
    let queue : effect k s.rel.outbound ≡ or_before (effect k left) (effect k sent) =
      sym (effect-full k s.rel.outbound)
      ∙ ap (effect k) (launched-full now clock s.rel)
      ∙ effect-append k (full sent) (full left)
      ∙ ap₂ or_before (effect-full k left) (effect-full k sent) in
    let all : or_before (effect k (left ++ states unread)) (effect k sent)
        ≡ effect k (s.rel.outbound ++ states unread) =
      ap (λ x. or_before x (effect k sent)) (effect-append k left (states unread))
      ∙ or_before_assoc (effect k (states unread)) (effect k left) (effect k sent)
      ∙ ap (or_before (effect k (states unread))) (sym queue)
      ∙ sym (effect-append k s.rel.outbound (states unread)) in
    ap (or_before (effect k (left ++ states unread))) (ingest_all-effect k sent v)
    ∙ sym (or_before_assoc (effect k (left ++ states unread)) (effect k sent) (get k v.entries))
    ∙ ap (λ x. or_before x (get k v.entries)) all
    ∙ h u k

nil_of_append : (xs ys : List (List ℕ)) → xs ++ ys ≡ [] → ys ≡ []
nil_of_append [] ys e = e
nil_of_append (x ∷ xs) ys e = absurd (cc)

pub polled-IsTold :
    (now clock : Millis) (s : ClientSession) (v : StateCache) (unread : List UpstreamEvent)
    (cache : StateCache)
    → IsTold s v unread cache
    → let s' = with_rel (poll_outbound now clock s.rel).0 s in
      IsTold s' (kept s' (ingest_all (launched now clock s.rel) v)) unread cache
polled-IsTold now clock s v unread cache h = elim (Bool-cases s.opened) [
  | inl e ↦ simp e (record {
    closed = λ c. absurd (cc);
    known = λ _. polled_goes now clock s v unread cache (h.known e);
  })
  | inr e ↦
      let (sent, q) = poll_outbound-waiting now clock s.rel in
      simp e (record {
        closed = λ _. (nil_of_append sent _ (sym q ∙ (h.closed e).0), refl);
        known = λ o. absurd (cc);
      })
]
