-- ===== src/Proxy/Upstream/LateJoin.antt =====
-- A client of upstream.rs and cache.rs that joins late: the dump, and then the events.
use atemproxy.Prelude.{ℕ, ◌≡◌, ap, sym, subst, ◌∙◌, List, [], ◌∷◌, ◌++◌, flatten}
use atemproxy.Protocol.Reliable.{ReliableEndpoint, queue_commands_packed}
use atemproxy.Protocol.Reliable.Packing.{queue_commands_packed-Grouping}
use atemproxy.Proxy.Cache.{dump, empty, ingest_payload}
use atemproxy.Proxy.Cache.Dump.{IsState, ingest_payload-dump}
use atemproxy.Proxy.Cache.Packed.{dump-NonEmpty, ingest_all-dump}
use atemproxy.Proxy.Cache.Views.{SameView, ingest_all, ingest_all-append}
use atemproxy.Proxy.Upstream.{Upstream, UpstreamEvent}
use atemproxy.Proxy.Upstream.Hearing.{Follows-SameView, states, Unbroken}
use atemproxy.Proxy.Upstream.Following.{Run-Follows}
use atemproxy.Proxy.Upstream.Runs.{Run}

append-cancel : (es fs gs : List UpstreamEvent) → es ++ fs ≡ es ++ gs → fs ≡ gs
append-cancel [] fs gs h = h
append-cancel (e ∷ es) fs gs h = append-cancel es fs gs (cc)

-- A client gets the dump queued, packed into payloads that add to what is queued for it, at one
-- time, and from then on is told every state payload that the proxy sends out. Who ingests these
-- payloads in their order knows what the cache knows: under every key both hold the same command, or
-- none. Until then no session with the switcher has ended since the dump, and the cache that was
-- dumped has whole commands under distinct keys.
pub dump-SameView :
    (st st' : Upstream) (new : List UpstreamEvent) (client : ReliableEndpoint)
    → Run st st'
    → st'.events ≡ st.events ++ new
    → Unbroken new
    → IsState st.cache.entries
    → (payloads : List (List ℕ)) × ((queue_commands_packed (dump st.cache) client).outbound
        ≡ client.outbound ++ payloads)
      × SameView (ingest_all (payloads ++ states new) empty) st'.cache
dump-SameView st st' new client run e u h =
    let f = Run-Follows st st' run in
    let same : f.new ≡ new = append-cancel st.events f.new new (sym f.grown ∙ e) in
    let (payloads, queued, grouping) =
      queue_commands_packed-Grouping (dump st.cache) client (dump-NonEmpty st.cache h) in
    let told : ingest_all payloads empty ≡ ingest_payload (flatten (dump st.cache)) empty =
      ingest_all-dump st.cache empty payloads h grouping in
    (
      payloads,
      queued,
      subst (λ c. SameView c st'.cache)
          (sym (ingest_all-append payloads (states new) empty ∙ ap (ingest_all (states new)) told))
          (subst
            (λ es.
              SameView (ingest_all (states es) (ingest_payload (flatten (dump st.cache)) empty))
                st'.cache)
            same
            (Follows-SameView st st' f (ingest_payload (flatten (dump st.cache)) empty)
              (subst Unbroken (sym same) u) (λ k. ingest_payload-dump st.cache k h))),
    )
