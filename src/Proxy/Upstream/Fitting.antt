-- ===== src/Proxy/Upstream/Fitting.antt =====
-- How long the payloads of upstream.rs get: no longer than a packet's payload.
use atemproxy.Prelude.{
  ◌≡◌, refl, sym, subst, inl, inr, arith, ℕ, Bool, true, false, List, [], ◌∷◌, All, All-append,
  if◌then◌else◌,
}
use atemproxy.Prelude.Bytes.{AreBytes}
use atemproxy.Protocol.Error.{Result-cases, ok}
use atemproxy.Protocol.Packet.{PacketHeader, contains, is_retransmit, ack_request, decode_packet}
use atemproxy.Protocol.Packet.Decoding.{decode_packet-AreBytes, encode_packet-decode_packet}
use atemproxy.Protocol.Session.{is_handshake_packet}
use atemproxy.Protocol.Command.{CommandRef, parse_commands}
use atemproxy.Protocol.Command.Parsing.{IsFramed, wire}
use atemproxy.Protocol.Command.Lossless.{wire-parse_commands}
use atemproxy.Protocol.Reliable.{Millis, ReliableEndpoint, accept_reliable, note_recv}
use atemproxy.Protocol.Link.Order.{Short}
use atemproxy.Proxy.Cache.{StateCache, ingest_payload}
use atemproxy.Proxy.Cache.Dump.{unread-entries}
use atemproxy.Proxy.Upstream.{
  Upstream, UpstreamEvent, emit, chunk_commands, no_chunks, publish_state, publish_audio,
  publish_transfer, on_init_complete, handle_commands, handle_upstream_payload, on_reliable,
  on_packet, on_datagram, on_command, on_tick, begin_session, end_session, deliver, with_rel,
  take_ack, adopt_session,
}
use atemproxy.Proxy.Upstream.Chunking.{
  state, audio, transfer, select, chunk_commands-select, chunk_commands-wire,
}
use atemproxy.Proxy.Upstream.Following.{IsInput}
use atemproxy.Proxy.Upstream.Runs.{Step, received, commanded, ticked, failed, reconnected}
use atemproxy.Proxy.Upstream.Lengths.{
  ShortEntries, ingest_commands-ShortEntries, wire-Short, chunk-Short,
}

abbrev pub ShortEvent : UpstreamEvent → Type 0
ShortEvent UpstreamEvent.connected = Unit
ShortEvent UpstreamEvent.disconnected = Unit
ShortEvent (UpstreamEvent.state_payload p) = Short p
ShortEvent (UpstreamEvent.audio_levels p) = Short p
ShortEvent (UpstreamEvent.transfer_payload p) = Short p

pub record IsShort (st : Upstream) : Type 0 where
  pub entries : ShortEntries st.cache.entries
  pub events : All ShortEvent st.events

emit-IsShort : (e : UpstreamEvent) (st : Upstream) → ShortEvent e → IsShort st → IsShort (emit e st)
emit-IsShort e st s h = record {
  entries = h.entries;
  events = All-append ShortEvent st.events (e ∷ []) h.events (s, tt);
}

publish_audio-IsShort :
    (p : List ℕ) (st : Upstream) → Short p → IsShort st → IsShort (publish_audio p st)
unfolding publish_audio
publish_audio-IsShort [] st s h = h
publish_audio-IsShort (b ∷ p) st s h = emit-IsShort (UpstreamEvent.audio_levels (b ∷ p)) st s h

publish_transfer-IsShort :
    (p : List ℕ) (st : Upstream) → Short p → IsShort st → IsShort (publish_transfer p st)
unfolding publish_transfer
publish_transfer-IsShort [] st s h = h
publish_transfer-IsShort (b ∷ p) st s h =
    emit-IsShort (UpstreamEvent.transfer_payload (b ∷ p)) st s h

publish_state-IsShort :
    (p : List ℕ) (cmds : List CommandRef) (st : Upstream)
    → parse_commands p ≡ ok cmds
    → Short p
    → Short (wire cmds)
    → IsShort st
    → IsShort (publish_state p st)
unfolding publish_state ingest_payload
publish_state-IsShort [] cmds st e s w h = h
publish_state-IsShort (b ∷ p) cmds st e s w h = record {
  entries =
      rw (e, ingest_payload)
        (ingest_commands-ShortEntries cmds st.cache (wire-Short cmds w) h.entries);
  events = All-append ShortEvent st.events _ h.events (s, tt);
}

if-IsShort :
    {A : Type 0} (b : Bool) (x y : Upstream × A)
    → IsShort x.0
    → IsShort y.0
    → IsShort ((if b then x else y).0)
if-IsShort true x y f g = f
if-IsShort false x y f g = g

on_init_complete-IsShort : (st : Upstream) → IsShort st → IsShort ((on_init_complete st).0)
unfolding on_init_complete
on_init_complete-IsShort st h =
    if-IsShort st.is_connected _ _ (record { entries = h.entries; events = h.events })
      (record { entries = h.entries; events = All-append ShortEvent st.events _ h.events (tt, tt) })

handle_commands-IsShort :
    (payload : List ℕ) (cmds : List CommandRef) (st : Upstream)
    → All IsFramed cmds
    → wire cmds ≡ payload
    → Short payload
    → IsShort st
    → IsShort ((handle_commands cmds st).0)
unfolding handle_commands
handle_commands-IsShort payload cmds st framed e s h =
    let c = chunk_commands cmds no_chunks in
    let st₁ = publish_state c.state_chunk st in
    let st₂ = publish_audio c.audio_chunk st₁ in
    let st₃ = publish_transfer c.transfer_chunk st₂ in
    let short_state = chunk-Short payload cmds state refl e s in
    let published : IsShort st₃ =
      publish_transfer-IsShort c.transfer_chunk st₂ (chunk-Short payload cmds transfer refl e s) (
        publish_audio-IsShort c.audio_chunk st₁ (chunk-Short payload cmds audio refl e s) (
          publish_state-IsShort c.state_chunk (select state cmds) st
            (chunk_commands-select cmds framed).0 short_state
            (subst Short (chunk_commands-wire cmds state refl) short_state) h)) in
    if-IsShort c.saw_incm _ _ (on_init_complete-IsShort st₃ published) published

handle_upstream_payload-IsShort :
    (payload : List ℕ) (st : Upstream)
    → AreBytes payload
    → Short payload
    → IsShort st
    → IsShort ((handle_upstream_payload payload st).0)
unfolding handle_upstream_payload
handle_upstream_payload-IsShort payload st b s h = elim (Result-cases (parse_commands payload)) [
  | inl (cmds, p) ↦
      let (framed, e) = wire-parse_commands payload cmds b p in
      rw (p, handle_upstream_payload) (handle_commands-IsShort payload cmds st framed e s h)
  | inr (x, p) ↦
      rw (p, handle_upstream_payload)
        (record {
          entries = subst ShortEntries (sym (unread-entries payload x st.cache p)) h.entries;
          events = All-append ShortEvent st.events _ h.events (s, tt);
        })
]

deliver-IsShort :
    (payload : List ℕ) (st : Upstream)
    → AreBytes payload
    → Short payload
    → IsShort st
    → IsShort ((deliver payload st).0)
deliver-IsShort [] st b s h = h
deliver-IsShort (x ∷ payload) st b s h = handle_upstream_payload-IsShort (x ∷ payload) st b s h

with_rel-IsShort : (rel : ReliableEndpoint) (st : Upstream) → IsShort st → IsShort (with_rel rel st)
with_rel-IsShort rel st h = record { entries = h.entries; events = h.events }

on_packet-IsShort :
    (hdr : PacketHeader) (payload : List ℕ) (st : Upstream)
    → AreBytes payload
    → Short payload
    → IsShort st
    → IsShort ((on_packet hdr payload st).0)
unfolding on_packet on_reliable
on_packet-IsShort hdr payload st b s h =
    let rel = take_ack hdr (adopt_session hdr st.rel) in
    let r = accept_reliable hdr.packet_id (contains hdr.flags is_retransmit) rel in
    if-IsShort (is_handshake_packet hdr.flags) _ _ (with_rel-IsShort rel st h) (
      if-IsShort (contains hdr.flags ack_request) _ _
        (if-IsShort r.1 _ _
          (deliver-IsShort payload (with_rel r.0 st) b s (with_rel-IsShort r.0 st h))
          (with_rel-IsShort r.0 st h))
        (deliver-IsShort payload (with_rel rel st) b s (with_rel-IsShort rel st h)))

decode_packet-Short :
    (bytes : List ℕ) (hdr : PacketHeader) (payload : List ℕ)
    → decode_packet bytes ≡ ok (hdr, payload)
    → AreBytes bytes
    → Short payload
decode_packet-Short bytes hdr payload e b =
    let (v, n, _) = encode_packet-decode_packet bytes hdr payload b e in
    omega (arith, v.length_fits)

on_datagram-IsShort :
    (now : Millis) (bytes : List ℕ) (st : Upstream)
    → AreBytes bytes
    → IsShort st
    → IsShort ((on_datagram now bytes st).0)
unfolding on_datagram
on_datagram-IsShort now bytes st b h = elim (Result-cases (decode_packet bytes)) [
  | inl ((hdr, payload), e) ↦
      rw (e, on_datagram)
        (on_packet-IsShort hdr payload (with_rel (note_recv now st.rel) st)
          (decode_packet-AreBytes bytes hdr payload e b) (decode_packet-Short bytes hdr payload e b)
          (with_rel-IsShort (note_recv now st.rel) st h))
  | inr (x, e) ↦ rw (e, on_datagram) (with_rel-IsShort (note_recv now st.rel) st h)
]

-- Who keeps the cache and the events keeps their lengths.
kept-IsShort :
    (st st' : Upstream) → st'.cache ≡ st.cache → st'.events ≡ st.events → IsShort st → IsShort st'
kept-IsShort st st' c e h = record {
  entries = subst (λ (d : StateCache). ShortEntries d.entries) (sym c) h.entries;
  events = subst (All ShortEvent) (sym e) h.events;
}

pub begin_session-IsShort :
    (rel : ReliableEndpoint) (st : Upstream) → IsShort st → IsShort (begin_session rel st)
unfolding begin_session
begin_session-IsShort rel st h = record { entries = h.entries; events = h.events }

end_session-IsShort : (st : Upstream) → IsShort st → IsShort (end_session st)
unfolding end_session
end_session-IsShort st h = record {
  entries = tt;
  events = All-append ShortEvent st.events _ h.events (tt, tt);
}

pub Step-IsShort :
    (st st' : Upstream) (step : Step st st') → IsInput step → IsShort st → IsShort st'
unfolding on_command on_tick
Step-IsShort st _ (received now bytes _) i h = on_datagram-IsShort now bytes st i h
Step-IsShort st _ (commanded now clock raw queued _) i h =
    kept-IsShort st _ (ground arith) (ground arith) h
Step-IsShort st st' (ticked now clock _ _ out e) i h =
    kept-IsShort st st' (ground arith) (ground arith) h
Step-IsShort st _ (failed _) i h = end_session-IsShort st h
Step-IsShort st _ (reconnected rel _) i h =
    begin_session-IsShort rel (end_session st) (end_session-IsShort st h)
