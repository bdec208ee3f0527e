-- ===== src/Proxy/System/EndToEnd.antt =====
-- The proxy of proxy.rs and one of its clients, with the network between them.
use atemproxy.Prelude.{
  ◌≡◌, refl, sym, subst, ◌∙◌, inl, inr, Option-cases, ℕ, false, none, some, Option, List, All,
}
use atemproxy.Prelude.Bytes.{AreBytes}
use atemproxy.Protocol.Error.{ok}
use atemproxy.Protocol.Packet.{PacketHeader, decode_packet}
use atemproxy.Protocol.Session.{is_handshake_packet}
use atemproxy.Protocol.Reliable.{Millis, ReliableEndpoint}
use atemproxy.Protocol.Link.{Link, In, IsRecent, poll, receive, acknowledge}
use atemproxy.Protocol.Link.State.{IsLink}
use atemproxy.Protocol.Link.Delivery.{AreFresh, linked}
use atemproxy.Proxy.Net.{SocketAddr, get}
use atemproxy.Proxy.Config.{Config}
use atemproxy.Proxy.Cache.{StateCache}
use atemproxy.Proxy.Upstream.{UpstreamEvent}
use atemproxy.Proxy.Server.{ClientSession}
use atemproxy.Proxy.Server.Endpoints.{Alike, Alike-refl}
use atemproxy.Proxy.System.{System, Step, client_sent, timer}
use atemproxy.Proxy.System.Clients.{IsTold}
use atemproxy.Proxy.System.Knowing.{known_by, learns, IsInput, IsToldBy}
use atemproxy.Proxy.System.EveryClient.{Heard, Heard-IsServing, Heard-SameView}
use atemproxy.Proxy.System.EveryClient
use atemproxy.Proxy.System.Joining.{resumed, IsHonest, IsJoined, resumed-IsJoined}

abbrev pub resumed_by : Option ClientSession → Link → Link
resumed_by none link = link
resumed_by (some s) link = resumed s.rel link

-- The link of the client at `addr` after a step of the proxy: the timer polls the session's endpoint.
abbrev pub link_after :
    {config : Config} {st st' : System} → SocketAddr → Step config st st' → Link → Link
link_after addr (timer now clock st) link = poll now clock link
link_after {st' = st'} addr _ link = resumed_by (get addr st'.server.sessions) link

-- What the client sends: bytes, no second HELLO, and acknowledgements of what it has received.
abbrev pub IsFair :
    {config : Config} {st st' : System} → SocketAddr → Link → Step config st st' → Type 0
IsFair addr link (client_sent now bytes a server effects st e) =
    a ≡ addr
    → AreBytes bytes
      × ((hdr : PacketHeader) (p : List ℕ)
          → decode_packet bytes ≡ ok (hdr, p)
          → (is_handshake_packet hdr.flags ≡ false) × IsHonest hdr bytes link)
IsFair addr link _ = Unit

-- A run of the proxy with a client that joins on the way: its session is new, and its endpoint and
-- the session's begin a link. From then on the proxy goes on, or the network and the client do.
pub data Joint (config : Config) (addr : SocketAddr) : System → StateCache → Link → Type 0 where
  joins :
      (st : System) (v : StateCache) (s : ClientSession) (receiver : ReliableEndpoint)
      → Heard config addr st v
      → get addr st.server.sessions ≡ some s
      → s.opened ≡ false
      → AreFresh 1 s.rel receiver
      → Joint config addr st v (linked s.rel receiver)
  goes_on :
      (st st' : System) (v : StateCache) (link : Link)
      → Joint config addr st v link
      → (step : Step config st st') → IsInput step
      → IsFair addr link step
      → Joint config addr st' (learns addr step v) (link_after addr step link)
  arrives :
      (st : System) (v : StateCache) (link : Link) (t : ℕ) (bytes : List ℕ)
      → Joint config addr st v link
      → In (t, bytes) link.wire
      → IsRecent t link
      → Joint config addr st v (receive bytes link)
  acknowledges :
      (st : System) (v : StateCache) (link : Link) (clock : Millis)
      → Joint config addr st v link
      → Joint config addr st v (acknowledge clock link)
  loses :
      (st : System) (v : StateCache) (link : Link) (wire acks : List (ℕ × List ℕ))
      → Joint config addr st v link
      → All (λ p. In p link.wire) wire
      → All (λ p. In p link.acks) acks
      → Joint config addr st v (record link { wire = wire; acks = acks })

pub Joint-Heard :
    (config : Config) (addr : SocketAddr) (st : System) (v : StateCache) (link : Link)
    → Joint config addr st v link
    → Heard config addr st v
Joint-Heard config addr _ _ _ (joins st v s receiver h _ _ _) = h
Joint-Heard config addr _ _ _ (goes_on st st' v link j step i f) =
    EveryClient.then_ st st' v (Joint-Heard config addr st v link j) step i
Joint-Heard config addr _ _ _ (arrives st v link t bytes j _ _) =
    Joint-Heard config addr st v link j
Joint-Heard config addr _ _ _ (acknowledges st v link clock j) = Joint-Heard config addr st v link j
Joint-Heard config addr _ _ _ (loses st v link wire acks j _ _) =
    Joint-Heard config addr st v link j

abbrev pub Joined : Option ClientSession → StateCache → Link → Type 0
Joined none v link = Unit
Joined (some s) v link = IsJoined s v link

-- What an operation other than the timer makes of a session.
pub data Moves (o o' : Option ClientSession) : Type 0 where
  gone : o' ≡ none → Moves o o'
  moves :
      (s s' : ClientSession)
      → o ≡ some s
      → o' ≡ some s'
      → Alike s.rel s'.rel
      → (s'.opened ≡ false → s.opened ≡ false)
      → Moves o o'

pub Moves-same : (o o' : Option ClientSession) → o' ≡ o → Moves o o'
Moves-same o o' e = elim (Option-cases o) [
  | inl n ↦ gone (e ∙ n)
  | inr (s, k) ↦ moves s s k (e ∙ k) (Alike-refl s.rel) (λ x. x)
]

pub Moves-Joined :
    (o o' : Option ClientSession) (v : StateCache) (unread : List UpstreamEvent)
    (cache : StateCache) (link : Link)
    → Moves o o'
    → IsToldBy o v unread cache
    → Joined o v link
    → Joined o' (known_by o' v) (resumed_by o' link)
Moves-Joined o o' v unread cache link (gone e) t j =
    subst (λ x. Joined x (known_by x v) (resumed_by x link)) (sym e) tt
Moves-Joined o o' v unread cache link (moves s s' k k' f p) t j =
    let told : IsTold s v unread cache = subst (λ x. IsToldBy x v unread cache) k t in
    let joined : IsJoined s v link = subst (λ x. Joined x v link) k j in
    subst (λ x. Joined x (known_by x v) (resumed_by x link)) (sym k')
      (resumed-IsJoined s s' v unread cache s.rel link refl
        (subst (λ ep. IsLink 1 (record link { sender = ep })) joined.sender joined.links) f p told
        joined)
