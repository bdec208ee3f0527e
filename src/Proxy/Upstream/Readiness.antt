-- ===== src/Proxy/Upstream/Readiness.antt =====
-- handle_upstream_payload and run_session of upstream.rs: when the proxy counts as connected.
use atemproxy.Prelude.{
  ◌≡◌, refl, inl, inr, arith, Bool-cases, ℕ, true, false, List, [], ◌∷◌, ◌++◌, ◌+◌, ◌∙◌, ap,
  if◌then◌else◌,
}
use atemproxy.Protocol.Error.{Result-cases}
use atemproxy.Protocol.Packet.{PacketHeader, contains, is_retransmit, ack_request}
use atemproxy.Protocol.Command.{CommandRef, parse_commands}
use atemproxy.Protocol.Reliable.{accept_reliable}
use atemproxy.Protocol.Session.{is_handshake_packet}
use atemproxy.Proxy.Locks.{on_upstream_lock_status}
use atemproxy.Proxy.Cache.{StateCache, ingest_command, ingest_commands, ingest_payload}
use atemproxy.Proxy.Upstream.{
  Upstream, UpstreamEvent, connected, state_payload, audio_levels, transfer_payload, emit,
  chunk_commands, no_chunks, publish_state, publish_audio, publish_transfer, on_init_complete,
  handle_commands, handle_upstream_payload, on_reliable, on_packet, deliver, with_rel, take_ack,
  adopt_session,
}

-- How often the proxy has announced a connection since it last announced the end of one.
abbrev pub announced : List UpstreamEvent → ℕ → ℕ
announced [] n = n
announced (UpstreamEvent.connected ∷ es) n = announced es (1 + n)
announced (UpstreamEvent.disconnected ∷ es) n = announced es 0
announced (UpstreamEvent.state_payload p ∷ es) n = announced es n
announced (UpstreamEvent.audio_levels p ∷ es) n = announced es n
announced (UpstreamEvent.transfer_payload p ∷ es) n = announced es n

-- What each step keeps: a connected proxy has seen `InCm`, serves a ready cache, and has announced
-- the connection exactly once.
abbrev pub IsReady : Upstream → Type 0
IsReady st =
    (st.is_connected ≡ true → st.init_complete ≡ true)
    × (st.is_connected ≡ true → st.reached_ready ≡ true)
    × (st.is_connected ≡ true → st.cache.ready ≡ true)
    × (announced st.events 0 ≡ (if st.is_connected then 1 else 0))

pub announced-append :
    (es fs : List UpstreamEvent) (n : ℕ) → announced (es ++ fs) n ≡ announced fs (announced es n)
announced-append [] fs n = refl
announced-append (UpstreamEvent.connected ∷ es) fs n = announced-append es fs (1 + n)
announced-append (UpstreamEvent.disconnected ∷ es) fs n = announced-append es fs 0
announced-append (UpstreamEvent.state_payload p ∷ es) fs n = announced-append es fs n
announced-append (UpstreamEvent.audio_levels p ∷ es) fs n = announced-append es fs n
announced-append (UpstreamEvent.transfer_payload p ∷ es) fs n = announced-append es fs n

-- An event that carries a payload announces nothing.
emit-IsReady :
    (e : UpstreamEvent) (st : Upstream)
    → ((n : ℕ) → announced (e ∷ []) n ≡ n)
    → IsReady st
    → IsReady (emit e st)
emit-IsReady e st quiet h =
    (h.0, h.1, h.2, announced-append st.events (e ∷ []) 0 ∙ quiet (announced st.events 0) ∙ h.3)

set_cache-IsReady :
    (c : StateCache) (st : Upstream)
    → (st.cache.ready ≡ true → c.ready ≡ true)
    → IsReady st
    → IsReady (record st { cache = c })
set_cache-IsReady c st f h = (h.0, h.1, λ e. f (h.2 e), h.3)

ingest_command-ready :
    (cmd : CommandRef) (c : StateCache) → c.ready ≡ true → (ingest_command cmd c).ready ≡ true
unfolding ingest_command
ingest_command-ready cmd c h = ground arith

ingest_commands-ready :
    (cmds : List CommandRef) (c : StateCache)
    → c.ready ≡ true
    → (ingest_commands cmds c).ready ≡ true
unfolding ingest_commands
ingest_commands-ready [] c h = h
ingest_commands-ready (cmd ∷ cmds) c h =
    ingest_commands-ready cmds (ingest_command cmd c) (ingest_command-ready cmd c h)

pub ingest_payload-ready :
    (payload : List ℕ) (c : StateCache) → c.ready ≡ true → (ingest_payload payload c).ready ≡ true
unfolding ingest_payload
ingest_payload-ready payload c h = elim (Result-cases (parse_commands payload)) [
  | inl (cmds, p) ↦ rw (p, ingest_payload) (ingest_commands-ready cmds c h)
  | inr (e, p) ↦ rw (p, ingest_payload) h
]

publish_state-IsReady :
    (chunk : List ℕ) (st : Upstream) → IsReady st → IsReady (publish_state chunk st)
unfolding publish_state
publish_state-IsReady [] st h = h
publish_state-IsReady (b ∷ chunk) st h =
    let payload = b ∷ chunk in
    let st' = record st {
      locks = on_upstream_lock_status payload st.locks;
      cache = ingest_payload payload st.cache;
    } in
    emit-IsReady (state_payload payload) st' (λ n. refl)
      (set_cache-IsReady (ingest_payload payload st.cache) st
        (ingest_payload-ready payload st.cache) h)

publish_audio-IsReady :
    (chunk : List ℕ) (st : Upstream) → IsReady st → IsReady (publish_audio chunk st)
unfolding publish_audio
publish_audio-IsReady [] st h = h
publish_audio-IsReady (b ∷ chunk) st h = emit-IsReady (audio_levels (b ∷ chunk)) st (λ n. refl) h

publish_transfer-IsReady :
    (chunk : List ℕ) (st : Upstream) → IsReady st → IsReady (publish_transfer chunk st)
unfolding publish_transfer
publish_transfer-IsReady [] st h = h
publish_transfer-IsReady (b ∷ chunk) st h =
    emit-IsReady (transfer_payload (b ∷ chunk)) st (λ n. refl) h

once-connected : (st : Upstream) → IsReady st → st.is_connected ≡ true → announced st.events 0 ≡ 1
once-connected st h e = ground arith

once-disconnected :
    (st : Upstream) → IsReady st → st.is_connected ≡ false → announced st.events 0 ≡ 0
once-disconnected st h e = ground arith

-- The first `InCm` of a session announces the connection, a later one does not.
on_init_complete-IsReady : (st : Upstream) → IsReady st → IsReady ((on_init_complete st).0)
unfolding on_init_complete
on_init_complete-IsReady st h = elim (Bool-cases st.is_connected) [
  | inl e ↦ rw e ((λ c. refl), (λ c. refl), (λ c. refl), once-connected st h e)
  | inr e ↦ rw e (
    (λ c. refl),
    (λ c. refl),
    (λ c. refl),
    announced-append st.events (connected ∷ []) 0 ∙ ap (◌+◌ 1) (once-disconnected st h e),
  )
]

handle_commands-IsReady :
    (cmds : List CommandRef) (st : Upstream) → IsReady st → IsReady ((handle_commands cmds st).0)
unfolding handle_commands
handle_commands-IsReady cmds st h =
    let c = chunk_commands cmds no_chunks in
    let st' =
      publish_transfer c.transfer_chunk
        (publish_audio c.audio_chunk (publish_state c.state_chunk st)) in
    let h' =
      publish_transfer-IsReady c.transfer_chunk
        (publish_audio c.audio_chunk (publish_state c.state_chunk st))
        (publish_audio-IsReady c.audio_chunk _ (publish_state-IsReady c.state_chunk st h)) in
    elim (Bool-cases c.saw_incm) [
      | inl e ↦ rw e (on_init_complete-IsReady st' h')
      | inr e ↦ rw e h'
    ]

handle_upstream_payload-IsReady :
    (payload : List ℕ) (st : Upstream)
    → IsReady st
    → IsReady ((handle_upstream_payload payload st).0)
unfolding handle_upstream_payload
handle_upstream_payload-IsReady payload st h = elim (Result-cases (parse_commands payload)) [
  | inl (cmds, p) ↦ rw (p, handle_upstream_payload) (handle_commands-IsReady cmds st h)
  | inr (e, p) ↦
      rw (p, handle_upstream_payload)
        (emit-IsReady (state_payload payload)
          (record st { cache = ingest_payload payload st.cache }) (λ n. refl)
          (set_cache-IsReady (ingest_payload payload st.cache) st
            (ingest_payload-ready payload st.cache) h))
]

deliver-IsReady : (payload : List ℕ) (st : Upstream) → IsReady st → IsReady ((deliver payload st).0)
deliver-IsReady [] st h = h
deliver-IsReady (b ∷ payload) st h = handle_upstream_payload-IsReady (b ∷ payload) st h

on_reliable-IsReady :
    (hdr : PacketHeader) (payload : List ℕ) (st : Upstream)
    → IsReady st
    → IsReady ((on_reliable hdr payload st).0)
unfolding on_reliable
on_reliable-IsReady hdr payload st h =
    let r = accept_reliable hdr.packet_id (contains hdr.flags is_retransmit) st.rel in
    elim (Bool-cases (r.1)) [
      | inl e ↦ rw e (deliver-IsReady payload (record st { rel = r.0 }) h)
      | inr e ↦ rw e h
    ]

pub on_packet-IsReady :
    (hdr : PacketHeader) (payload : List ℕ) (st : Upstream)
    → IsReady st
    → IsReady ((on_packet hdr payload st).0)
unfolding on_packet
on_packet-IsReady hdr payload st h =
    let st' = with_rel (take_ack hdr (adopt_session hdr st.rel)) st in
    elim (Bool-cases (is_handshake_packet hdr.flags)) [
      | inl e ↦ rw e h
      | inr e ↦ rw e (elim (Bool-cases (contains hdr.flags ack_request)) [
        | inl r ↦ rw r (on_reliable-IsReady hdr payload st' h)
        | inr r ↦ rw r (deliver-IsReady payload st' h)
      ])
    ]
