-- ===== src/Proxy/Upstream/Following.antt =====
-- What the events of upstream.rs tell of the cache.
use atemproxy.Prelude.{
  ◌≡◌, refl, sym, inl, inr, arith, Bool-cases, ℕ, Bool, true, false, none, some, List, [], ◌∷◌,
  ◌++◌, ap, subst, if◌then◌else◌, ltb, length, All,
}
use atemproxy.Prelude.Bytes.{AreBytes}
use atemproxy.Protocol.Error.{Result-cases}
use atemproxy.Protocol.Packet.{PacketHeader, contains, is_retransmit, ack_request, decode_packet}
use atemproxy.Protocol.Packet.Decoding.{decode_packet-AreBytes}
use atemproxy.Protocol.Command.{CommandRef, parse_commands}
use atemproxy.Protocol.Command.Parsing.{IsFramed}
use atemproxy.Protocol.Command.Lossless.{wire-parse_commands}
use atemproxy.Protocol.Reliable.{Millis, ReliableEndpoint, accept_reliable, is_timed_out, note_recv}
use atemproxy.Protocol.Session.{is_handshake_packet}
use atemproxy.Proxy.Cache.{CacheKey, ingest_payload}
use atemproxy.Proxy.Cache.Dump.{read-IsState, unread-entries, IsState}
use atemproxy.Proxy.Cache.Views.{told, effect, ingest_payload-told}
use atemproxy.Proxy.Upstream.{
  Upstream, UpstreamEvent, emit, chunk_commands, no_chunks, publish_state, publish_audio,
  publish_transfer, on_init_complete, handle_commands, handle_upstream_payload, on_reliable,
  on_packet, on_datagram, on_command, on_tick, begin_session, end_session, deliver, with_rel,
  take_ack, adopt_session, flush_pending,
}
use atemproxy.Proxy.Upstream.Chunking.{select, select-All, state, chunk_commands-select}
use atemproxy.Proxy.Upstream.Hearing.{Follows, quiet, one_event, then-Follows, weaken-Follows}
use atemproxy.Proxy.Upstream.Hints.{audio_chunk-told, transfer_chunk-told}
use atemproxy.Proxy.Upstream.Runs.{
  Step, Run, received, commanded, ticked, failed, reconnected, start, then_,
}

publish_state-Follows :
    {P : Type 0} (chunk : List ℕ) (st : Upstream)
    → (P → IsState st.cache.entries → IsState ((ingest_payload chunk st.cache).entries))
    → Follows P st (publish_state chunk st)
unfolding publish_state effect
publish_state-Follows [] st w = quiet st st refl refl (λ d. d)
publish_state-Follows (b ∷ chunk) st w =
    one_event (UpstreamEvent.state_payload (b ∷ chunk)) st _ refl
      (λ u k. ingest_payload-told k (b ∷ chunk) st.cache) w (λ p. tt) (λ u d. d)

publish_audio-Follows :
    {P : Type 0} (chunk : List ℕ) (st : Upstream)
    → (P → (k : CacheKey) → told k chunk ≡ none)
    → Follows P st (publish_audio chunk st)
unfolding publish_audio effect
publish_audio-Follows [] st n = quiet st st refl refl (λ d. d)
publish_audio-Follows (b ∷ chunk) st n =
    one_event (UpstreamEvent.audio_levels (b ∷ chunk)) st _ refl (λ u k. refl) (λ p h. h) n
      (λ u d. d)

publish_transfer-Follows :
    {P : Type 0} (chunk : List ℕ) (st : Upstream)
    → (P → (k : CacheKey) → told k chunk ≡ none)
    → Follows P st (publish_transfer chunk st)
unfolding publish_transfer effect
publish_transfer-Follows [] st n = quiet st st refl refl (λ d. d)
publish_transfer-Follows (b ∷ chunk) st n =
    one_event (UpstreamEvent.transfer_payload (b ∷ chunk)) st _ refl (λ u k. refl) (λ p h. h) n
      (λ u d. d)

if-Follows :
    {P A : Type 0} (b : Bool) (st : Upstream) (x y : Upstream × A)
    → Follows P st x.0
    → Follows P st y.0
    → Follows P st (if b then x else y).0
if-Follows true st x y f g = f
if-Follows false st x y f g = g

on_init_complete-Follows : {P : Type 0} (st : Upstream) → Follows P st (on_init_complete st).0
unfolding on_init_complete effect
on_init_complete-Follows st =
    if-Follows st.is_connected st _ _ (quiet st _ refl refl (λ d. absurd (cc))) (
      one_event UpstreamEvent.connected st _ refl (λ u k. refl) (λ p h. h) (λ p. tt)
        (λ u d. absurd (cc)))

handle_commands-Follows :
    {P : Type 0} (cmds : List CommandRef) (st : Upstream)
    → (P → All IsFramed cmds)
    → Follows P st (handle_commands cmds st).0
unfolding handle_commands
handle_commands-Follows cmds st framed =
    let c = chunk_commands cmds no_chunks in
    let st₁ = publish_state c.state_chunk st in
    let st₂ = publish_audio c.audio_chunk st₁ in
    let st₃ = publish_transfer c.transfer_chunk st₂ in
    let published : Follows _ st st₃ =
      then-Follows st st₁ st₃
        (publish_state-Follows c.state_chunk st (λ p.
          read-IsState c.state_chunk (select state cmds) st.cache
            (chunk_commands-select cmds (framed p)).0 (select-All IsFramed state cmds (framed p))))
        (then-Follows st₁ st₂ st₃
          (publish_audio-Follows c.audio_chunk st₁ (λ p k. audio_chunk-told k cmds (framed p)))
          (publish_transfer-Follows c.transfer_chunk st₂
            (λ p k. transfer_chunk-told k cmds (framed p)))) in
    if-Follows c.saw_incm st _ _ (then-Follows st st₃ _ published (on_init_complete-Follows st₃))
      published

handle_upstream_payload-Follows :
    (payload : List ℕ) (st : Upstream)
    → Follows (AreBytes payload) st (handle_upstream_payload payload st).0
unfolding handle_upstream_payload effect
handle_upstream_payload-Follows payload st = elim (Result-cases (parse_commands payload)) [
  | inl (cmds, p) ↦
      rw (p, handle_upstream_payload)
        (handle_commands-Follows cmds st (λ b. (wire-parse_commands payload cmds b p).0))
  | inr (e, p) ↦
      rw (p, handle_upstream_payload)
        (one_event (UpstreamEvent.state_payload payload) st
          (emit (UpstreamEvent.state_payload payload)
            (record st { cache = ingest_payload payload st.cache }))
          refl (λ u k. ingest_payload-told k payload st.cache)
          (λ b h. subst IsState (sym (unread-entries payload e st.cache p)) h) (λ b. tt) (λ u d. d))
]

deliver-Follows :
    (payload : List ℕ) (st : Upstream) → Follows (AreBytes payload) st (deliver payload st).0
deliver-Follows [] st = quiet st st refl refl (λ d. d)
deliver-Follows (b ∷ payload) st = handle_upstream_payload-Follows (b ∷ payload) st

-- A change of the endpoint first.
with_rel-Follows :
    {P : Type 0} (rel : ReliableEndpoint) (st st' : Upstream)
    → Follows P (with_rel rel st) st'
    → Follows P st st'
with_rel-Follows rel st st' f =
    then-Follows st (with_rel rel st) st' (quiet st (with_rel rel st) refl refl (λ d. d)) f

on_reliable-Follows :
    (hdr : PacketHeader) (payload : List ℕ) (st : Upstream)
    → Follows (AreBytes payload) st (on_reliable hdr payload st).0
unfolding on_reliable
on_reliable-Follows hdr payload st =
    let r = accept_reliable hdr.packet_id (contains hdr.flags is_retransmit) st.rel in
    if-Follows r.1 st _ _ (with_rel-Follows r.0 st _ (deliver-Follows payload (with_rel r.0 st)))
      (quiet st (with_rel r.0 st) refl refl (λ d. d))

on_packet-Follows :
    (hdr : PacketHeader) (payload : List ℕ) (st : Upstream)
    → Follows (AreBytes payload) st (on_packet hdr payload st).0
unfolding on_packet
on_packet-Follows hdr payload st =
    let rel = take_ack hdr (adopt_session hdr st.rel) in
    if-Follows (is_handshake_packet hdr.flags) st _ _
      (quiet st (with_rel rel st) refl refl (λ d. d))
      (if-Follows (contains hdr.flags ack_request) st _ _
        (with_rel-Follows rel st _ (on_reliable-Follows hdr payload (with_rel rel st)))
        (with_rel-Follows rel st _ (deliver-Follows payload (with_rel rel st))))

on_datagram-Follows :
    (now : Millis) (bytes : List ℕ) (st : Upstream)
    → Follows (AreBytes bytes) st (on_datagram now bytes st).0
unfolding on_datagram
on_datagram-Follows now bytes st = elim (Result-cases (decode_packet bytes)) [
  | inl ((hdr, payload), e) ↦
      rw (e, on_datagram)
        (with_rel-Follows (note_recv now st.rel) st _ (
          weaken-Follows (with_rel (note_recv now st.rel) st) _
            (decode_packet-AreBytes bytes hdr payload e)
            (on_packet-Follows hdr payload (with_rel (note_recv now st.rel) st))))
  | inr (x, e) ↦
      rw (e, on_datagram) (quiet st (with_rel (note_recv now st.rel) st) refl refl (λ d. d))
]

on_command-Follows :
    {P : Type 0} (now clock : Millis) (raw : List ℕ) (queued : List (List ℕ)) (st : Upstream)
    → Follows P st (on_command now clock raw queued st).0
unfolding on_command
on_command-Follows now clock raw queued st =
    if-Follows (ltb (length raw) 8) st _ _ (quiet st st refl refl (λ d. d))
      (quiet st _ refl refl (λ d. d))

some-injective : {A : Type 0} {a b : A} → some a ≡ some b → a ≡ b
some-injective h = cc

some-none : {A : Type 0} {a : A} → none ≡ some a → ⊥
some-none h = cc

flush_pending-Follows : {P : Type 0} (st : Upstream) → Follows P st (flush_pending st)
flush_pending-Follows st =
    quiet st (flush_pending st) (ground arith) (ground arith) (λ d. ground arith)

on_tick-Follows :
    {P : Type 0} (now clock : Millis) (st st' : Upstream) (out : List (List ℕ))
    → on_tick now clock st ≡ some (st', out)
    → Follows P st st'
unfolding on_tick
on_tick-Follows {P} now clock st st' out e = elim (Bool-cases (is_timed_out now st.rel)) [
  | inl t ↦ absurd (some-none (rw t at e))
  | inr t ↦ subst (Follows P st) (ap (λ r. r.0) (some-injective (simp t at e))) (
      then-Follows st (flush_pending st) _ (flush_pending-Follows st)
        (quiet (flush_pending st) _ refl refl (λ d. d)))
]

ended-Follows :
    {P : Type 0} (st st' : Upstream)
    → st'.events ≡ st.events ++ UpstreamEvent.disconnected ∷ []
    → st'.cache.entries ≡ []
    → Follows P st st'
ended-Follows st st' e c =
    one_event UpstreamEvent.disconnected st st' e (λ u. absurd u)
      (λ p h. subst IsState (sym c) (tt, tt)) (λ p. tt) (λ u. absurd u)

pub begin_session-Follows :
    {P : Type 0} (rel : ReliableEndpoint) (st : Upstream) → Follows P st (begin_session rel st)
unfolding begin_session
begin_session-Follows rel st = quiet st _ refl refl (λ d. d)

end_session-Follows : {P : Type 0} (st : Upstream) → Follows P st (end_session st)
unfolding end_session
end_session-Follows st = ended-Follows st _ refl refl

-- What the steps are given.
abbrev pub IsInput : {st st' : Upstream} → Step st st' → Type 0
IsInput (received now bytes _) = AreBytes bytes
IsInput (commanded now clock raw queued _) = Unit
IsInput (ticked now clock _ _ out e) = Unit
IsInput (failed _) = Unit
IsInput (reconnected rel _) = Unit

pub Step-Follows : (st st' : Upstream) (step : Step st st') → Follows (IsInput step) st st'
Step-Follows st _ (received now bytes _) = on_datagram-Follows now bytes st
Step-Follows st _ (commanded now clock raw queued _) = on_command-Follows now clock raw queued st
Step-Follows st st' (ticked now clock _ _ out e) = on_tick-Follows now clock st st' out e
Step-Follows st _ (failed _) = end_session-Follows st
Step-Follows st _ (reconnected rel _) =
    then-Follows st (end_session st) _ (end_session-Follows st)
      (begin_session-Follows rel (end_session st))

pub Run-Follows : (st st' : Upstream) → Run st st' → Follows ⊥ st st'
Run-Follows st _ (start _) = quiet st st refl refl (λ d. d)
Run-Follows st st'' (then_ _ st' _ r s) =
    then-Follows st st' st'' (Run-Follows st st' r)
      (weaken-Follows st' st'' (λ x. absurd x) (Step-Follows st' st'' s))
