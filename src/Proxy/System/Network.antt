-- ===== src/Proxy/System/Network.antt =====
-- The proxy of proxy.rs, the network and a client: what the client has been delivered.
use atemproxy.Prelude.{
  ◌≡◌, refl, ap, ap₂, sym, subst, ◌∙◌, arith, ℕ, true, false, none, some, Option, List, [], ◌∷◌,
  ◌++◌, length, take, drop, map, All, All-take, append_assoc, take-append-drop,
}
use atemproxy.Protocol.Packet.RoundTrip.{carried, carried_of_length-le}
use atemproxy.Protocol.Reliable.{ReliableEndpoint}
use atemproxy.Protocol.Link.{Link, poll, receive, acknowledge, launched}
use atemproxy.Protocol.Link
use atemproxy.Protocol.Link.State.{IsLink}
use atemproxy.Protocol.Link.Delivery.{AreFresh, linked, linked-IsLink, Step-IsLink}
use atemproxy.Proxy.System.Fitting.{Heard-Fits}
use atemproxy.Proxy.System.Uncut.{IsUncut, Step-IsUncut}
use atemproxy.Proxy.System.Linking.{Step-Joined}
use atemproxy.Protocol.Link.Order.{Short}
use atemproxy.Proxy.Net.{SocketAddr, get}
use atemproxy.Proxy.Config.{Config}
use atemproxy.Proxy.Cache
use atemproxy.Proxy.Cache.{CacheKey, StateCache, empty}
use atemproxy.Proxy.Cache.Views.{
  SameView, ingest_all, ingest_all-effect, effect, effect-append, or_before, or_before-none,
}
use atemproxy.Proxy.Upstream.Hearing.{states, Unbroken}
use atemproxy.Proxy.Server.{ClientSession}
use atemproxy.Proxy.System.{System}
use atemproxy.Proxy.System.Clients.{IsTold}
use atemproxy.Proxy.System.Knowing.{IsToldBy}
use atemproxy.Proxy.System.EveryClient.{Heard-IsServing}
use atemproxy.Proxy.System.Joining.{IsJoined}
use atemproxy.Proxy.System.EndToEnd.{
  Joint, joins, goes_on, arrives, acknowledges, loses, Joint-Heard, Joined,
}

-- The network and the client.
moved_on :
    (o : Option ClientSession) (v : StateCache) (link link' : Link)
    → (IsLink 1 link → IsLink 1 link')
    → link'.sender ≡ link.sender
    → link'.history ≡ link.history
    → Joined o v link
    → Joined o v link'
moved_on none v link link' f e h j = tt
moved_on (some s) v link link' f e h j = record {
  sender = e ∙ j.sender;
  links = f j.links;
  heard = λ k. ap (effect k) h ∙ j.heard k;
}

receive-same :
    (bytes : List ℕ) (link : Link)
    → ((receive bytes link).sender ≡ link.sender) × ((receive bytes link).history ≡ link.history)
unfolding receive
receive-same bytes link = ground arith

linked-Joined :
    (s : ClientSession) (v : StateCache) (receiver : ReliableEndpoint) (o : Option ClientSession)
    → o ≡ some s
    → s.opened ≡ false
    → (s.opened ≡ false → v ≡ empty)
    → AreFresh 1 s.rel receiver
    → Joined o v (linked s.rel receiver)
unfolding Cache.get effect
linked-Joined s v receiver o e c n f =
    subst (λ x. Joined x v (linked s.rel receiver)) (sym e)
      (record {
        sender = refl;
        links = linked-IsLink 1 s.rel receiver f;
        heard = λ k. sym (ap (λ w. Cache.get k w.entries) (n c));
      })

Joint-Joined :
    (config : Config) (addr : SocketAddr) (st : System) (v : StateCache) (link : Link)
    → Joint config addr st v link
    → Joined (get addr st.server.sessions) v link
unfolding acknowledge
Joint-Joined config addr _ _ _ (joins st v s receiver h e c f) =
    let told : IsTold s v st.unread st.upstream.cache =
      subst (λ x. IsToldBy x v st.unread st.upstream.cache) e
        ((Heard-IsServing config addr st v h).1.told) in
    linked-Joined s v receiver (get addr st.server.sessions) e c (λ o. (told.closed o).1) f
Joint-Joined config addr _ _ _ (goes_on st st' v link j step i f) =
    let (y, w) = Heard-IsServing config addr st v (Joint-Heard config addr st v link j) in
    Step-Joined config addr st st' step v link f y w (Joint-Joined config addr st v link j)
Joint-Joined config addr _ _ _ (arrives st v link t bytes j in_ recent) =
    moved_on (get addr st.server.sessions) v link (receive bytes link)
      (Step-IsLink 1 link _ (Link.arrives t bytes link in_ recent)) (receive-same bytes link).0
      (receive-same bytes link).1 (Joint-Joined config addr st v link j)
Joint-Joined config addr _ _ _ (acknowledges st v link clock j) =
    moved_on (get addr st.server.sessions) v link (acknowledge clock link)
      (Step-IsLink 1 link _ (Link.acknowledges clock link)) refl refl
      (Joint-Joined config addr st v link j)
Joint-Joined config addr _ _ _ (loses st v link wire acks j i k) =
    moved_on (get addr st.server.sessions) v link (record link { wire = wire; acks = acks })
      (Step-IsLink 1 link _ (Link.loses wire acks link i k)) refl refl
      (Joint-Joined config addr st v link j)

Joint-IsUncut :
    (config : Config) (addr : SocketAddr) (st : System) (v : StateCache) (link : Link)
    → Joint config addr st v link
    → IsUncut link
unfolding acknowledge
Joint-IsUncut config addr _ _ _ (joins st v s receiver h e c f) = record {
  sent = tt;
  waiting = subst (All Short) (sym f.empty_queue) tt;
}
Joint-IsUncut config addr _ _ _ (goes_on st st' v link j step i f) =
    let heard = Joint-Heard config addr st v link j in
    let (y, w) = Heard-IsServing config addr st v heard in
    Step-IsUncut config addr st st' step v link (Heard-Fits config addr st v heard) y w
      (Joint-Joined config addr st v link j) (Joint-IsUncut config addr st v link j)
Joint-IsUncut config addr _ _ _ (arrives st v link t bytes j in_ recent) =
    let (s, h) = receive-same bytes link in
    let u = Joint-IsUncut config addr st v link j in
    record {
      sent = subst (All Short) (sym h) u.sent;
      waiting = subst (λ (ep : ReliableEndpoint). All Short ep.outbound) (sym s) u.waiting;
    }
Joint-IsUncut config addr _ _ _ (acknowledges st v link clock j) =
    let u = Joint-IsUncut config addr st v link j in record { sent = u.sent; waiting = u.waiting }
Joint-IsUncut config addr _ _ _ (loses st v link wire acks j i k) =
    let u = Joint-IsUncut config addr st v link j in record { sent = u.sent; waiting = u.waiting }

map-carried : (ps : List (List ℕ)) → All Short ps → map carried ps ≡ ps
map-carried [] h = refl
map-carried (p ∷ ps) h = ap₂ (◌∷◌) (carried_of_length-le p h.0) (map-carried ps h.1)

delivered_and_rest :
    (link : Link) (later : List (List ℕ))
    → IsLink 1 link
    → All Short link.history
    → link.delivered ++ (drop (length link.delivered) link.history ++ later) ≡ link.history ++ later
delivered_and_rest link later w short =
    let n = length link.delivered in
    ap (λ ps. ps ++ (drop n link.history ++ later))
      (w.got ∙ map-carried (take n link.history) (All-take Short n link.history short))
    ∙ sym (append_assoc (take n link.history) (drop n link.history) later)
    ∙ ap (λ ps. ps ++ later) (take-append-drop n link.history)

-- From the start of the proxy on, a client joins with a new session and an endpoint of its own,
-- both at id 1 with nothing sent, session ids below 65536 and room for at most 256 packets in
-- flight; then the proxy's tasks take turns in any order and the network loses, repeats and reorders
-- the packets between the two, none late by 32000 packets sent after it. While the session is open: what the client has been delivered, then the payloads sent and not
-- yet delivered, then those still queued for it and the state payloads of the events that wait to
-- be fanned out make of an empty cache one that holds under every key the command that the
-- switcher's cache holds there, or none. The switcher's datagrams are bytes; a task that lags behind
-- skips no end of a session with the switcher, and none is among the events that wait; the client
-- sends bytes, no further HELLO, and while packets are in flight no acknowledgement but those of
-- its endpoint.
pub Joint-SameView :
    (config : Config) (addr : SocketAddr) (st : System) (v : StateCache) (link : Link)
    (s : ClientSession)
    → Joint config addr st v link
    → get addr st.server.sessions ≡ some s
    → s.opened ≡ true
    → Unbroken st.unread
    → SameView
        (ingest_all
          (link.delivered
            ++ (drop (length link.delivered) link.history ++ (s.rel.outbound ++ states st.unread)))
          empty)
        st.upstream.cache
unfolding Cache.get
Joint-SameView config addr st v link s j e o u k =
    let w = (Heard-IsServing config addr st v (Joint-Heard config addr st v link j)).1 in
    let told : IsTold s v st.unread st.upstream.cache =
      subst (λ x. IsToldBy x v st.unread st.upstream.cache) e w.told in
    let joined : IsJoined s v link =
      subst (λ x. Joined x v link) e (Joint-Joined config addr st v link j) in
    let later = s.rel.outbound ++ states st.unread in
    ap (λ ps. Cache.get k ((ingest_all ps empty).entries))
      (delivered_and_rest link later joined.links (Joint-IsUncut config addr st v link j).sent)
    ∙ ingest_all-effect k (link.history ++ later) empty
    ∙ or_before-none (effect k (link.history ++ later))
    ∙ effect-append k link.history later
    ∙ ap (or_before (effect k later)) (joined.heard k)
    ∙ told.known o u k
