-- ===== src/Proxy/System/Uncut.antt =====
-- No payload that the proxy of proxy.rs sends over a client's link is cut.
use atemproxy.Prelude.{subst, arith, ℕ, none, some, Option, List, [], ◌∷◌, ◌++◌, All, All-append}
use atemproxy.Protocol.Reliable.{Millis, ReliableEndpoint}
use atemproxy.Protocol.Outbound.{poll_outbound}
use atemproxy.Protocol.Link.{Link, poll, launched}
use atemproxy.Protocol.Link.State.{full}
use atemproxy.Protocol.Link.Launching.{launched-full}
use atemproxy.Protocol.Link.Order.{Short, All-full}
use atemproxy.Proxy.Net.{SocketAddr, get}
use atemproxy.Proxy.Config.{Config}
use atemproxy.Proxy.Cache.{StateCache}
use atemproxy.Proxy.Upstream.Fitting.{ShortEvent}
use atemproxy.Proxy.Server.{ClientSession}
use atemproxy.Proxy.System.{
  System, Step, client_sent, timer, fanned_out, lagged, switcher_sent, commanded, switcher_ticked,
  session_ended, session_began,
}
use atemproxy.Proxy.System.Serving.{on_client-Served}
use atemproxy.Proxy.System.Knowing.{IsServing}
use atemproxy.Proxy.System.Runs.{IsSystem}
use atemproxy.Proxy.System.Fitting.{Fits}
use atemproxy.Proxy.System.Queues.{
  ShortQueue, Served-ShortQueue, fanned_out-ShortQueue, lagged-ShortQueue,
}
use atemproxy.Proxy.System.EndToEnd.{Joined, link_after, resumed_by}

-- The payloads that the link's sender has sent or has still to send.
pub record IsUncut (link : Link) : Type 0 where
  pub sent : All Short link.history
  pub waiting : All Short link.sender.outbound

full-All : (xs : List (List ℕ)) → All Short (full xs) → All Short xs
full-All [] h = tt
full-All ([] ∷ xs) h = (omega arith, full-All xs h)
full-All ((b ∷ bytes) ∷ xs) h = (h.0, full-All xs h.1)

halves : (xs ys : List (List ℕ)) → All Short (xs ++ ys) → All Short xs × All Short ys
halves [] ys h = (tt, h)
halves (x ∷ xs) ys h = let (a, b) = halves xs ys h.1 in ((h.0, a), b)

poll-IsUncut : (now clock : Millis) (link : Link) → IsUncut link → IsUncut (poll now clock link)
poll-IsUncut now clock link w =
    let (sent, left) =
      halves (full (launched now clock link.sender))
        (full (poll_outbound now clock link.sender).0.outbound)
        (subst (All Short) (launched-full now clock link.sender)
          (All-full link.sender.outbound w.waiting)) in
    record {
      sent = All-append Short link.history _ w.sent (full-All _ sent);
      waiting = full-All _ left;
    }

resumed_by-IsUncut :
    (o : Option ClientSession) (link : Link)
    → ShortQueue o
    → IsUncut link
    → IsUncut (resumed_by o link)
resumed_by-IsUncut none link q w = w
resumed_by-IsUncut (some s) link q w = record { sent = w.sent; waiting = q }

-- The session's queue is the link's.
queue_of :
    (o : Option ClientSession) (v : StateCache) (link : Link)
    → Joined o v link
    → IsUncut link
    → ShortQueue o
queue_of none v link j w = tt
queue_of (some s) v link j w =
    subst (λ (ep : ReliableEndpoint). All Short ep.outbound) j.sender w.waiting

pub Step-IsUncut :
    (config : Config) (addr : SocketAddr) (st st' : System) (step : Step config st st')
    (v : StateCache) (link : Link)
    → Fits st
    → IsSystem st
    → IsServing addr st v
    → Joined (get addr st.server.sessions) v link
    → IsUncut link
    → IsUncut (link_after addr step link)
Step-IsUncut config addr _ _ (client_sent now bytes a server effects st e) v link f y w j u =
    resumed_by-IsUncut _ link
      (Served-ShortQueue _ _ st.upstream.cache st.upstream.is_connected
        (on_client-Served config now bytes a addr server effects st e y.sessions w.keyed).0
        f.0.entries (queue_of _ v link j u))
      u
Step-IsUncut config addr _ _ (timer now clock st) v link f y w j u = poll-IsUncut now clock link u
Step-IsUncut config addr _ _ (fanned_out e unread st q) v link f y w j u =
    resumed_by-IsUncut _ link
      (fanned_out-ShortQueue config e addr st (subst (All ShortEvent) q f.1).0
        (queue_of _ v link j u))
      u
Step-IsUncut config addr _ _ (lagged skipped unread st q) v link f y w j u =
    resumed_by-IsUncut _ link (lagged-ShortQueue addr st f.0.entries (queue_of _ v link j u)) u
Step-IsUncut config addr _ _ (switcher_sent now bytes st) v link f y w j u =
    resumed_by-IsUncut _ link (queue_of _ v link j u) u
Step-IsUncut config addr _ _ (commanded now clock raw queued rest st q) v link f y w j u =
    resumed_by-IsUncut _ link (queue_of _ v link j u) u
Step-IsUncut config addr _ _ (switcher_ticked now clock upstream out st q) v link f y w j u =
    resumed_by-IsUncut _ link (queue_of _ v link j u) u
Step-IsUncut config addr _ _ (session_ended st) v link f y w j u =
    resumed_by-IsUncut _ link (queue_of _ v link j u) u
Step-IsUncut config addr _ _ (session_began rel st q) v link f y w j u =
    resumed_by-IsUncut _ link (queue_of _ v link j u) u
