-- ===== src/Proxy/System/Queues.antt =====
-- What is queued for a client of the proxy of proxy.rs fits into packets.
use atemproxy.Prelude.{
  ◌≡◌, refl, ap, sym, subst, ◌∙◌, inl, inr, arith, ℕ, Bool, true, false, none, some, Option, List,
  [], ◌∷◌, All, All-append, if◌then◌else◌,
}
use atemproxy.Protocol.Reliable.{queue_payload, queue_commands_packed}
use atemproxy.Protocol.Link.Order.{Short}
use atemproxy.Proxy.Net.{SocketAddr, get}
use atemproxy.Proxy.Config.{Config}
use atemproxy.Proxy.Cache.{StateCache, dump}
use atemproxy.Proxy.Transfer.{fanout_owner}
use atemproxy.Proxy.Upstream.{UpstreamEvent}
use atemproxy.Proxy.Upstream.Lengths.{ShortEntries, dump-Short}
use atemproxy.Proxy.Upstream.Fitting.{ShortEvent}
use atemproxy.Proxy.Server.{ClientSession, queue_if, with_rel, on_event, on_lagged}
use atemproxy.Proxy.Server.Queues.{same, opens}
use atemproxy.Proxy.Server.Fanout.{wants, payload_of, lookup_map, get-map, on_event-get}
use atemproxy.Proxy.System.{System, policy_of, with_locks}
use atemproxy.Proxy.System.Telling.{resynced}
use atemproxy.Proxy.System.Fanning.{disconnected-or, on_event-disconnected}
use atemproxy.Proxy.System.Serving.{Served, unchanged, welcomed, heard}

-- What is queued for a client.
abbrev pub ShortQueue : Option ClientSession → Type 0
ShortQueue none = Unit
ShortQueue (some s) = All Short s.rel.outbound

pub Served-ShortQueue :
    (o o' : Option ClientSession) (cache : StateCache) (is_connected : Bool)
    → Served cache is_connected o o'
    → ShortEntries cache.entries
    → ShortQueue o
    → ShortQueue o'
Served-ShortQueue o o' cache c (unchanged e) w h = subst ShortQueue (sym e) h
Served-ShortQueue o o' cache c (welcomed id now e _) w h = subst ShortQueue (sym e) tt
Served-ShortQueue o o' cache c (heard s s' e e' (same _ q)) w h =
    subst ShortQueue (sym e') (subst (All Short) (sym q) (subst ShortQueue e h))
Served-ShortQueue o o' cache c (heard s s' e e' (opens _ _ q)) w h = subst ShortQueue (sym e') (
    subst (All Short) (sym q)
      (All-append Short s.rel.outbound _ (subst ShortQueue e h) (dump-Short cache w)))

queue_if-Short :
    (b : Bool) (p : List ℕ) (s : ClientSession)
    → (b ≡ true → Short p)
    → All Short s.rel.outbound
    → All Short ((queue_if b p s).rel.outbound)
unfolding queue_if queue_payload
queue_if-Short true p s f h = All-append Short s.rel.outbound (p ∷ []) h (f refl, tt)
queue_if-Short false p s f h = h

payload_of-Short : (e : UpstreamEvent) → ShortEvent e → Short (payload_of e)
payload_of-Short UpstreamEvent.connected h = omega arith
payload_of-Short UpstreamEvent.disconnected h = omega arith
payload_of-Short (UpstreamEvent.state_payload p) h = h
payload_of-Short (UpstreamEvent.audio_levels p) h = h
payload_of-Short (UpstreamEvent.transfer_payload p) h = h

mapped-ShortQueue :
    (f : ClientSession → ClientSession) (o : Option ClientSession)
    → ((s : ClientSession) → All Short s.rel.outbound → All Short ((f s).rel.outbound))
    → ShortQueue o
    → ShortQueue (lookup_map f o)
mapped-ShortQueue f none g h = tt
mapped-ShortQueue f (some s) g h = g s h

pub fanned_out-ShortQueue :
    (config : Config) (e : UpstreamEvent) (addr : SocketAddr) (st : System)
    → ShortEvent e
    → ShortQueue (get addr st.server.sessions)
    → ShortQueue (get addr ((on_event (policy_of config) e (with_locks st)).sessions))
unfolding get
fanned_out-ShortQueue config e addr st w h = elim (disconnected-or e) [
  | inl k ↦
      subst ShortQueue
        (sym (
          ap (λ x. get addr ((on_event (policy_of config) x (with_locks st)).sessions)) k
          ∙ ap (get addr) (on_event-disconnected (policy_of config) (with_locks st))))
        tt
  | inr k ↦
      let policy = policy_of config in
      let owner = fanout_owner policy.media st.upstream.locks st.server.filter.lane in
      subst ShortQueue (sym (on_event-get policy e (with_locks st) addr k)) (
        mapped-ShortQueue (λ s. queue_if (wants e owner addr s) (payload_of e) s)
          (get addr st.server.sessions)
          (λ s. queue_if-Short (wants e owner addr s) (payload_of e) s (λ _. payload_of-Short e w))
          h)
]

pub lagged-ShortQueue :
    (addr : SocketAddr) (st : System)
    → ShortEntries st.upstream.cache.entries
    → ShortQueue (get addr st.server.sessions)
    → ShortQueue (get addr ((on_lagged st.upstream.cache (with_locks st)).sessions))
unfolding on_lagged queue_commands_packed
lagged-ShortQueue addr st w h =
    let commands = dump st.upstream.cache in
    subst ShortQueue (sym (get-map (resynced commands) addr st.server.sessions)) (
      mapped-ShortQueue (resynced commands) (get addr st.server.sessions)
        (λ s. resync-Short s.opened s) h)
  where
    resync-Short :
        (b : Bool) (s : ClientSession)
        → All Short s.rel.outbound
        → All Short (
            (if b
              then with_rel (queue_commands_packed (dump st.upstream.cache) s.rel) s
              else s).rel.outbound)
    resync-Short true s h = All-append Short s.rel.outbound _ h (dump-Short st.upstream.cache w)
    resync-Short false s h = h
