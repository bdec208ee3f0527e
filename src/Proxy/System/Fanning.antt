-- ===== src/Proxy/System/Fanning.antt =====
-- The events of the switcher's side keep what a client of the proxy is told right.
use atemproxy.Prelude.{
  ◌≡◌, refl, ap, sym, subst, ◌∙◌, inl, inr, ◌⊎◌, Option-cases, ℕ, none, some, Option, List, [], ◌∷◌,
  ◌++◌, All, All-append, length, drop, drop-append,
}
use atemproxy.Proxy.Net.{SocketAddr, get}
use atemproxy.Proxy.Config.{Config}
use atemproxy.Proxy.Cache.{StateCache, dump}
use atemproxy.Proxy.Cache.Dump.{IsState}
use atemproxy.Proxy.Upstream.{Upstream, UpstreamEvent, disconnected}
use atemproxy.Proxy.Upstream.Hearing.{
  Unbroken-append, Unbroken-join, Unbroken, IsHint, Settled, Follows,
}
use atemproxy.Proxy.Transfer.{fanout_owner}
use atemproxy.Proxy.Filter.{FilterPolicy}
use atemproxy.Proxy.Server.{ClientSession, Server, to_owner, queue_if, on_event, on_lagged}
use atemproxy.Proxy.Server.Keyed.{IsKeyed, put-IsKeyed, map-IsKeyed}
use atemproxy.Proxy.Server.Fanout.{wants, payload_of, lookup_map, get-map, on_event-get}
use atemproxy.Proxy.System.{System, policy_of, with_locks, served, switched}
use atemproxy.Proxy.System.Telling.{resynced, event-IsTold, Follows-IsTold, lagged-IsTold}
use atemproxy.Proxy.System.Knowing.{known_by, IsToldBy, IsServing, known_by-IsToldBy}

pub disconnected-or : (e : UpstreamEvent) → (e ≡ disconnected) ⊎ (¬ (e ≡ disconnected))
disconnected-or UpstreamEvent.connected = inr (λ h. cc)
disconnected-or UpstreamEvent.disconnected = inl refl
disconnected-or (UpstreamEvent.state_payload p) = inr (λ h. cc)
disconnected-or (UpstreamEvent.audio_levels p) = inr (λ h. cc)
disconnected-or (UpstreamEvent.transfer_payload p) = inr (λ h. cc)

Unbroken-cons :
    (e : UpstreamEvent) (es : List UpstreamEvent)
    → ¬ (e ≡ disconnected)
    → Unbroken es
    → Unbroken (e ∷ es)
Unbroken-cons UpstreamEvent.connected es n u = u
Unbroken-cons UpstreamEvent.disconnected es n u = absurd (n refl)
Unbroken-cons (UpstreamEvent.state_payload p) es n u = u
Unbroken-cons (UpstreamEvent.audio_levels p) es n u = u
Unbroken-cons (UpstreamEvent.transfer_payload p) es n u = u

to_owner-IsKeyed :
    (owner : Option SocketAddr) (payload : List ℕ) (st : Server)
    → IsKeyed st.sessions
    → IsKeyed (to_owner owner payload st).sessions
to_owner-IsKeyed none payload st h = h
to_owner-IsKeyed (some a) payload st h = elim (Option-cases (get a st.sessions)) [
  | inl e ↦ rw (e, to_owner) h
  | inr (s, e) ↦ rw (e, to_owner) (put-IsKeyed a (queue_if s.opened payload s) st.sessions h)
]

on_event-IsKeyed :
    (policy : FilterPolicy) (e : UpstreamEvent) (st : Server)
    → IsKeyed st.sessions
    → IsKeyed (on_event policy e st).sessions
unfolding on_event
on_event-IsKeyed policy UpstreamEvent.connected st h = h
on_event-IsKeyed policy UpstreamEvent.disconnected st h = tt
on_event-IsKeyed policy (UpstreamEvent.state_payload p) st h = map-IsKeyed _ st.sessions h
on_event-IsKeyed policy (UpstreamEvent.audio_levels p) st h = map-IsKeyed _ st.sessions h
on_event-IsKeyed policy (UpstreamEvent.transfer_payload p) st h =
    to_owner-IsKeyed (fanout_owner policy.media st.filter.locks st.filter.lane) p st h

event-IsToldBy :
    (o : Option ClientSession) (e : UpstreamEvent) (owner : Option SocketAddr) (addr : SocketAddr)
    (v : StateCache) (unread : List UpstreamEvent) (cache : StateCache)
    → ¬ (e ≡ disconnected)
    → IsHint e
    → IsToldBy o v (e ∷ unread) cache
    → IsToldBy (lookup_map (λ s. queue_if (wants e owner addr s) (payload_of e) s) o) v unread cache
event-IsToldBy none e owner addr v unread cache n i h = tt
event-IsToldBy (some s) e owner addr v unread cache n i h =
    event-IsTold e owner addr s v unread cache n i h

pub on_event-disconnected :
    (policy : FilterPolicy) (st : Server) → (on_event policy disconnected st).sessions ≡ []
unfolding on_event
on_event-disconnected policy st = refl

pub fanned_out-IsServing :
    (config : Config) (e : UpstreamEvent) (unread : List UpstreamEvent) (addr : SocketAddr)
    (st : System) (v : StateCache)
    → st.unread ≡ e ∷ unread
    → IsServing addr st v
    → let server = on_event (policy_of config) e (with_locks st) in
      IsServing addr
        (record (served server [] st) { unread = unread })
        (known_by (get addr server.sessions) v)
unfolding get
fanned_out-IsServing config e unread addr st v q w =
    let policy = policy_of config in
    let server = on_event policy e (with_locks st) in
    let hints : All IsHint (e ∷ unread) = subst (All IsHint) q w.hints in
    let settled : Settled (e ∷ unread) st.upstream.cache =
      subst (λ l. Settled l st.upstream.cache) q w.settled in
    let told : IsToldBy (get addr st.server.sessions) v (e ∷ unread) st.upstream.cache =
      subst (λ l. IsToldBy (get addr st.server.sessions) v l st.upstream.cache) q w.told in
    let owner = fanout_owner policy.media st.upstream.locks st.server.filter.lane in
    let gone : e ≡ disconnected → get addr server.sessions ≡ none = λ d.
      ap (λ x. get addr (on_event policy x (with_locks st)).sessions) d
      ∙ ap (get addr) (on_event-disconnected policy (with_locks st)) in
    record {
      keyed = on_event-IsKeyed policy e (with_locks st) w.keyed;
      whole = w.whole;
      hints = hints.1;
      settled = settled.1;
      offline = λ d u. elim (disconnected-or e) [
        | inl k ↦ gone k
        | inr k ↦
            on_event-get policy e (with_locks st) addr k
            ∙ ap (lookup_map _) (w.offline d (subst Unbroken (sym q) (Unbroken-cons e unread k u)))
      ];
      told = elim (disconnected-or e) [
        | inl k ↦ subst (λ o. IsToldBy o (known_by o v) unread st.upstream.cache) (sym (gone k)) tt
        | inr k ↦ known_by-IsToldBy (get addr server.sessions) v unread st.upstream.cache (
            subst (λ o. IsToldBy o v unread st.upstream.cache)
              (sym (on_event-get policy e (with_locks st) addr k))
              (event-IsToldBy (get addr st.server.sessions) e owner addr v unread st.upstream.cache
                k hints.0 told))
      ];
    }

All-end : (es fs : List UpstreamEvent) → All IsHint (es ++ fs) → All IsHint fs
All-end [] fs h = h
All-end (e ∷ es) fs h = All-end es fs h.1

Settled-end : (es fs : List UpstreamEvent) (c : StateCache) → Settled (es ++ fs) c → Settled fs c
Settled-end [] fs c h = h
Settled-end (e ∷ es) fs c h = Settled-end es fs c h.1

lagged-IsToldBy :
    (o : Option ClientSession) (v : StateCache) (skipped unread : List UpstreamEvent)
    (cache : StateCache)
    → Unbroken skipped
    → IsState cache.entries
    → Settled unread cache
    → IsToldBy o v (skipped ++ unread) cache
    → IsToldBy (lookup_map (resynced (dump cache)) o) v unread cache
lagged-IsToldBy none v skipped unread cache u w r h = tt
lagged-IsToldBy (some s) v skipped unread cache u w r h =
    lagged-IsTold s v skipped unread cache u w r h

pub lagged-IsServing :
    (skipped unread : List UpstreamEvent) (addr : SocketAddr) (st : System) (v : StateCache)
    → st.unread ≡ skipped ++ unread
    → Unbroken skipped
    → IsServing addr st v
    → let server = on_lagged st.upstream.cache (with_locks st) in
      IsServing addr
        (record (served server [] st) { unread = unread })
        (known_by (get addr server.sessions) v)
unfolding on_lagged
lagged-IsServing skipped unread addr st v q us w =
    let cache = st.upstream.cache in
    let m = st.server.sessions in
    let same = get-map (resynced (dump cache)) addr m in
    let settled : Settled unread cache =
      Settled-end skipped unread cache (subst (λ l. Settled l cache) q w.settled) in
    let after = get addr ((on_lagged cache (with_locks st)).sessions) in
    record {
      keyed = map-IsKeyed _ m w.keyed;
      whole = w.whole;
      hints = All-end skipped unread (subst (All IsHint) q w.hints);
      settled = settled;
      offline = λ d u.
          same
          ∙ ap (lookup_map (resynced (dump cache)))
              (w.offline d (subst Unbroken (sym q) (Unbroken-join skipped unread us u)));
      told = known_by-IsToldBy after v unread cache (
          subst (λ o. IsToldBy o v unread cache) (sym same)
            (lagged-IsToldBy (get addr m) v skipped unread cache us w.whole settled
              (subst (λ l. IsToldBy (get addr m) v l cache) q w.told)));
    }

Follows-IsToldBy :
    {P : Type 0} (up up' : Upstream) (f : Follows P up up') (o : Option ClientSession)
    (v : StateCache) (unread : List UpstreamEvent)
    → IsToldBy o v unread up.cache
    → IsToldBy o v (unread ++ f.new) up'.cache
Follows-IsToldBy up up' f none v unread h = tt
Follows-IsToldBy up up' f (some s) v unread h = Follows-IsTold up up' f s v unread h

pub switched-IsServing :
    {P : Type 0} (addr : SocketAddr) (st : System) (v : StateCache) (up : Upstream)
    (cmds : List (List ℕ)) (f : Follows P st.upstream up)
    → P
    → IsServing addr st v
    → IsServing addr
        (record (switched up st) { commands = cmds })
        (known_by (get addr st.server.sessions) v)
switched-IsServing addr st v up cmds f p w =
    let unread = st.unread ++ f.new in
    let heard : drop (length st.upstream.events) up.events ≡ f.new =
      ap (drop (length st.upstream.events)) f.grown
      ∙ drop-append (length st.upstream.events) st.upstream.events f.new refl in
    let same : st.unread ++ drop (length st.upstream.events) up.events ≡ unread =
      ap (◌++◌ st.unread) heard in
    let o = get addr st.server.sessions in
    record {
      keyed = w.keyed;
      whole = f.whole p w.whole;
      hints = subst (All IsHint) (sym same) (All-append IsHint st.unread f.new w.hints (f.hints p));
      settled = subst (λ l. Settled l up.cache) (sym same) (f.settles st.unread w.settled);
      offline = λ d u.
          let (u₁, u₂) = Unbroken-append st.unread f.new (subst Unbroken same u) in
          w.offline (f.stays u₂ d) u₁;
      told = known_by-IsToldBy o v _ up.cache (
          subst (λ l. IsToldBy o v l up.cache) (sym same)
            (Follows-IsToldBy st.upstream up f o v st.unread w.told));
    }
