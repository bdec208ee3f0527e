-- ===== src/Proxy/Server/Fanout.antt =====
-- The task of server.rs that fans events out: who is sent what the switcher says.
use atemproxy.Prelude.{
  ◌≡◌, refl, inl, inr, arith, sym, ap, subst, ◌∙◌, ==_iff, Bool-cases, Option-cases, ℕ, Bool, true,
  false, ◌&&◌, Option, none, some, List, [], ◌∷◌, map, ◌==◌,
}
use atemproxy.Proxy.Net.{SocketAddr, is_addr, get, get-put}
use atemproxy.Proxy.Transfer.{fanout_owner}
use atemproxy.Proxy.Filter.{FilterPolicy}
use atemproxy.Proxy.Upstream.{
  UpstreamEvent, connected, disconnected, state_payload, audio_levels, transfer_payload,
}
use atemproxy.Proxy.Server.{ClientSession, Server, queue_if, on_event, to_owner}

-- Whether a client is sent an event's payload.
abbrev pub wants : UpstreamEvent → Option SocketAddr → SocketAddr → ClientSession → Bool
wants connected owner addr s = false
wants disconnected owner addr s = false
wants (state_payload p) owner addr s = s.opened
wants (audio_levels p) owner addr s = s.opened && s.audio
wants (transfer_payload p) owner addr s = s.opened && is_addr owner addr

abbrev pub payload_of : UpstreamEvent → List ℕ
payload_of connected = []
payload_of disconnected = []
payload_of (state_payload p) = p
payload_of (audio_levels p) = p
payload_of (transfer_payload p) = p

abbrev pub lookup_map :
    (ClientSession → ClientSession) → Option ClientSession → Option ClientSession
lookup_map f none = none
lookup_map f (some s) = some (f s)

pub get-map :
    (f : ClientSession → ClientSession) (addr : SocketAddr) (m : List (SocketAddr × ClientSession))
    → get addr (map (λ e. (e.0, f e.1)) m) ≡ lookup_map f (get addr m)
unfolding get
get-map f addr [] = refl
get-map f addr ((a, s) ∷ m) = elim (Bool-cases (a == addr)) [
  | inl e ↦ rw e refl
  | inr e ↦ rw e (get-map f addr m)
]

queue_if-false : (p : List ℕ) (s : ClientSession) → queue_if false p s ≡ s
unfolding queue_if
queue_if-false p s = refl

lookup_map-same :
    (f : ClientSession → ClientSession)
    → ((s : ClientSession) → f s ≡ s)
    → (o : Option ClientSession) → lookup_map f o ≡ o
lookup_map-same f h none = refl
lookup_map-same f h (some s) = ap some (h s)

queue_if-and_false : (b : Bool) (p : List ℕ) (s : ClientSession) → queue_if (b && false) p s ≡ s
queue_if-and_false true p s = queue_if-false p s
queue_if-and_false false p s = queue_if-false p s

same_true : (a : ℕ) → (a == a) ≡ true
same_true a = ground arith

to_self :
    (owner : SocketAddr) (p : List ℕ) (st : Server)
    → get owner ((to_owner (some owner) p st).sessions)
      ≡ lookup_map (λ s. queue_if (s.opened && owner == owner) p s) (get owner st.sessions)
to_self owner p st = elim (Option-cases (get owner st.sessions)) [
  | inl e ↦ ground arith
  | inr (s, e) ↦
      rw (e, to_owner) (ground (arith, get-put owner owner (queue_if s.opened p s) st.sessions))
]

to_other :
    (owner : SocketAddr) (p : List ℕ) (addr : SocketAddr) (st : Server)
    → (owner == addr) ≡ false
    → get addr ((to_owner (some owner) p st).sessions) ≡ get addr st.sessions
to_other owner p addr st h = elim (Option-cases (get owner st.sessions)) [
  | inl e ↦ ground arith
  | inr (s, e) ↦ ground (arith, get-put addr owner (queue_if s.opened p s) st.sessions)
]

to_owner-get :
    (owner : Option SocketAddr) (payload : List ℕ) (addr : SocketAddr) (st : Server)
    → get addr ((to_owner owner payload st).sessions)
      ≡ lookup_map (λ s. queue_if (s.opened && is_addr owner addr) payload s) (get addr st.sessions)
to_owner-get none payload addr st =
    sym (lookup_map-same _ (λ s. queue_if-and_false s.opened payload s) (get addr st.sessions))
to_owner-get (some owner) payload addr st = elim (Bool-cases (owner == addr)) [
  | inl e ↦
      subst
        (λ a.
          get a ((to_owner (some owner) payload st).sessions)
          ≡ lookup_map (λ s. queue_if (s.opened && owner == a) payload s) (get a st.sessions))
        ((==_iff owner addr).0 e) (to_self owner payload st)
  | inr e ↦ rw e (
      to_other owner payload addr st e
      ∙ sym (lookup_map-same _ (λ s. queue_if-and_false s.opened payload s) (get addr st.sessions)))
]

pub on_event-get :
    (policy : FilterPolicy) (e : UpstreamEvent) (st : Server) (addr : SocketAddr)
    → ¬ (e ≡ disconnected)
    → get addr ((on_event policy e st).sessions)
      ≡ lookup_map
          (λ s.
            queue_if
              (wants e (fanout_owner policy.media st.filter.locks st.filter.lane) addr s)
              (payload_of e)
              s)
          (get addr st.sessions)
unfolding on_event
on_event-get policy connected st addr h =
    sym (lookup_map-same _ (queue_if-false []) (get addr st.sessions))
on_event-get policy disconnected st addr h = absurd (h refl)
on_event-get policy (state_payload p) st addr h = get-map _ addr st.sessions
on_event-get policy (audio_levels p) st addr h = get-map _ addr st.sessions
on_event-get policy (transfer_payload p) st addr h =
    to_owner-get (fanout_owner policy.media st.filter.locks st.filter.lane) p addr st
