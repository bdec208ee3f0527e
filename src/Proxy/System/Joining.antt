-- ===== src/Proxy/System/Joining.antt =====
-- One client's session of the proxy as the sender of a link of reliable.rs.
use atemproxy.Prelude.{
  ◌≡◌, ◌⊎◌, refl, ap, ap₂, sym, subst, ◌∙◌, inl, inr, Bool-cases, ℕ, false, not, ◌||◌, List, [],
  ◌∷◌, ◌++◌, ◌==◌, length, drop, drop-append, append_assoc,
}
use atemproxy.Protocol.Error.{ok}
use atemproxy.Protocol.Packet.{PacketHeader, contains, ack_reply, decode_packet}
use atemproxy.Protocol.Reliable.{Millis, ReliableEndpoint, on_ack_id, pop_covered}
use atemproxy.Protocol.Outbound.{poll_outbound}
use atemproxy.Protocol.Link.{Link, In, IsRecent, poll, take_ack, launched}
use atemproxy.Protocol.Link.State.{IsLink, full, full-append}
use atemproxy.Protocol.Link.Acking.{take_ack-IsLink}
use atemproxy.Protocol.Link.Polling.{poll-IsLink}
use atemproxy.Protocol.Link.Launching.{launched-full}
use atemproxy.Proxy.Cache.{CacheKey, get, StateCache, empty}
use atemproxy.Proxy.Cache.Views.{ingest_all, ingest_all-effect, effect, effect-append, or_before}
use atemproxy.Proxy.Upstream.{UpstreamEvent}
use atemproxy.Proxy.Server.{ClientSession, with_rel}
use atemproxy.Proxy.Server.Endpoints.{Alike, acked}
use atemproxy.Proxy.System.Clients.{IsTold, kept}
use atemproxy.Proxy.System.Telling.{effect-full}

-- The link with the endpoint as it is now; what the queue has got more has been handed to it.
abbrev pub resumed : ReliableEndpoint → Link → Link
resumed ep link = record link {
  sender = ep;
  queued = link.queued ++ drop (length link.sender.outbound) ep.outbound;
}

resumed-IsLink :
    (ep : ReliableEndpoint) (link : Link)
    → Alike link.sender ep
    → IsLink 1 link
    → IsLink 1 (resumed ep link)
resumed-IsLink ep link f w =
    let old = link.sender.outbound in
    let more : drop (length old) ep.outbound ≡ f.new =
      ap (drop (length old)) f.queue ∙ drop-append (length old) old f.new refl in
    record {
      base = w.base;
      behind = w.behind;
      ahead = w.ahead;
      sends =
          rw (f.window, f.next_id, f.max, f.session)
            (record {
              whole = w.sends.whole;
              in_row = w.sends.in_row;
              next_id = w.sends.next_id;
              bounded = w.sends.bounded;
              positive = w.sends.positive;
              small = w.sends.small;
              fits = w.sends.fits;
              own = f.own w.sends.own;
              holds = w.sends.holds;
            });
      receives = w.receives;
      packets = w.packets;
      answers = w.answers;
      got = w.got;
      content =
          ap (λ q. full link.history ++ full q) f.queue
          ∙ ap (◌++◌ (full link.history)) (full-append old f.new)
          ∙ sym (append_assoc (full link.history) (full old) (full f.new))
          ∙ ap (λ q. q ++ full f.new) w.content
          ∙ sym (full-append link.queued f.new)
          ∙ ap (λ q. full (link.queued ++ q)) (sym more);
    }

-- A packet's acknowledgement is one that the receiver has sent, or comes when nothing is in flight.
abbrev pub IsHonest : PacketHeader → List ℕ → Link → Type 0
IsHonest hdr bytes link =
    ((contains hdr.flags ack_reply || not (hdr.ack_id == 0)) ≡ false)
    ⊎ ((link.sender.in_flight ≡ []) ⊎ ((t : ℕ) × In (t, bytes) link.acks × IsRecent t link))

nothing_popped : (id : ℕ) (ep : ReliableEndpoint) → ep.in_flight ≡ [] → on_ack_id id ep ≡ ep
unfolding on_ack_id pop_covered
nothing_popped id ep e = ap (λ es. record ep { in_flight = es }) (ap (pop_covered id) e ∙ sym e)

pub acked-IsLink :
    (hdr : PacketHeader) (bytes p : List ℕ) (link : Link)
    → decode_packet bytes ≡ ok (hdr, p)
    → IsHonest hdr bytes link
    → IsLink 1 link
    → IsLink 1 (record link { sender = acked hdr link.sender })
unfolding take_ack
acked-IsLink hdr bytes p link e h w =
    elim (Bool-cases (contains hdr.flags ack_reply || not (hdr.ack_id == 0))) [
      | inr c ↦ rw c w
      | inl c ↦ elim h [
        | inl c' ↦ absurd (cc)
        | inr (inl n) ↦ rw c (
            subst (λ ep. IsLink 1 (record link { sender = ep }))
              (sym (nothing_popped hdr.ack_id link.sender n)) w)
        | inr (inr (t, in_, recent)) ↦
            let taken : IsLink 1 (take_ack bytes link) =
              take_ack-IsLink 1 t bytes link in_ recent w in
            rw c (rw (e, take_ack, c) at taken)
      ]
    ]

-- A client's session and its link: `v` is what its packets have told.
pub record IsJoined (s : ClientSession) (v : StateCache) (link : Link) : Type 0 where
  pub sender : link.sender ≡ s.rel
  pub links : IsLink 1 link
  pub heard : (k : CacheKey) → effect k link.history ≡ get k v.entries

kept_same : (s : ClientSession) (v : StateCache) → (s.opened ≡ false → v ≡ empty) → kept s v ≡ v
kept_same s v h = elim (Bool-cases s.opened) [ inl e ↦ rw e refl | inr e ↦ rw e (sym (h e)) ]

-- Any operation but the timer.
pub resumed-IsJoined :
    (s s' : ClientSession) (v : StateCache) (unread : List UpstreamEvent) (cache : StateCache)
    (ep : ReliableEndpoint) (link : Link)
    → ep.outbound ≡ s.rel.outbound
    → IsLink 1 (record link { sender = ep })
    → Alike ep s'.rel
    → (s'.opened ≡ false → s.opened ≡ false)
    → IsTold s v unread cache
    → IsJoined s v link
    → IsJoined s' (kept s' v) (resumed s'.rel link)
resumed-IsJoined s s' v unread cache ep link q w f o told j = record {
  sender = refl;
  links =
      let same_queue : ep.outbound ≡ link.sender.outbound =
        q ∙ ap (λ (x : ReliableEndpoint). x.outbound) (sym j.sender) in
      subst
        (λ n. IsLink 1 (record link {
          sender = s'.rel;
          queued = link.queued ++ drop (length n) s'.rel.outbound;
        }))
        same_queue (resumed-IsLink s'.rel (record link { sender = ep }) f w);
  heard = λ k.
      j.heard k ∙ ap (λ c. get k c.entries) (sym (kept_same s' v (λ e. (told.closed (o e)).1)));
}

front_nil : (xs ys : List (List ℕ)) → xs ++ ys ≡ [] → xs ≡ []
front_nil [] ys e = refl
front_nil (x ∷ xs) ys e = absurd (cc)

-- The timer.
pub polled-IsJoined :
    (now clock : Millis) (s : ClientSession) (v : StateCache) (unread : List UpstreamEvent)
    (cache : StateCache) (link : Link)
    → IsTold s v unread cache
    → IsJoined s v link
    → let s' = with_rel (poll_outbound now clock s.rel).0 s in
      IsJoined s' (kept s' (ingest_all (launched now clock s.rel) v)) (poll now clock link)
unfolding get effect
polled-IsJoined now clock s v unread cache link told j =
    let s' = with_rel (poll_outbound now clock s.rel).0 s in
    let sent = launched now clock s.rel in
    let all : (k : CacheKey)
        → effect k (link.history ++ sent) ≡ get k ((ingest_all sent v).entries) =
      λ k.
        effect-append k link.history sent
        ∙ ap (or_before (effect k sent)) (j.heard k)
        ∙ sym (ingest_all-effect k sent v) in
    record {
      sender = ap (λ ep. (poll_outbound now clock ep).0) j.sender;
      links = poll-IsLink 1 now clock link j.links;
      heard = λ k.
          ap (λ ep. effect k (link.history ++ launched now clock ep)) j.sender
          ∙ all k
          ∙ kept_heard k;
    }
  where
    untold : s.opened ≡ false → full (launched now clock s.rel) ≡ []
    untold e =
        front_nil _ (full (poll_outbound now clock s.rel).0.outbound)
          (sym (launched-full now clock s.rel) ∙ ap full (told.closed e).0)

    kept_heard :
        (k : CacheKey)
        → get k ((ingest_all (launched now clock s.rel) v).entries)
          ≡ get k (
              (kept
                (with_rel (poll_outbound now clock s.rel).0 s)
                (ingest_all (launched now clock s.rel) v)).entries)
    kept_heard k = elim (Bool-cases s.opened) [
      | inl e ↦ rw e refl
      | inr e ↦ rw e (
          ingest_all-effect k (launched now clock s.rel) v
          ∙ ap₂ or_before
              (sym (effect-full k (launched now clock s.rel)) ∙ ap (effect k) (untold e))
              (ap (λ c. get k c.entries) (told.closed e).1))
    ]
