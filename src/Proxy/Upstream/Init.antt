-- ===== src/Proxy/Upstream/Init.antt =====
-- The switcher's `InCm` in upstream.rs: nothing else makes the proxy count as connected.
use atemproxy.Prelude.{
  ◌≡◌, refl, sym, ◌∙◌, ◌⊎◌, inl, inr, arith, ℕ, Bool, true, false, List, [], ◌∷◌, if◌then◌else◌,
  some,
}
use atemproxy.Protocol.Error.{Result-cases, ok}
use atemproxy.Protocol.Packet.{PacketHeader, contains, is_retransmit, ack_request, decode_packet}
use atemproxy.Protocol.Command.{CommandRef, parse_commands, name_eq, init_complete}
use atemproxy.Protocol.Session.{is_handshake_packet}
use atemproxy.Protocol.Reliable.{Millis, accept_reliable, note_recv}
use atemproxy.Proxy.Upstream.{
  Upstream, Chunks, chunk_command, chunk_commands, no_chunks, publish_state, publish_audio,
  publish_transfer, handle_commands, handle_upstream_payload, on_reliable, on_packet, on_datagram,
  on_command, on_tick, deliver, with_rel, take_ack, adopt_session,
}

-- One of the commands is `InCm`.
abbrev pub HasInCm : List CommandRef → Type 0
HasInCm [] = ⊥
HasInCm (cmd ∷ cmds) = (name_eq cmd.name init_complete ≡ true) ⊎ HasInCm cmds

-- The payload of a packet is read as commands, and one of them is `InCm`.
abbrev pub TellsInCm : List ℕ → Type 0
TellsInCm payload = (cmds : List CommandRef) × (parse_commands payload ≡ ok cmds) × HasInCm cmds

abbrev pub BringsInCm : List ℕ → Type 0
BringsInCm bytes =
    (hdr : PacketHeader) × (payload : List ℕ) × (decode_packet bytes ≡ ok (hdr, payload))
    × TellsInCm payload

-- If the proxy counts as connected afterwards, it did so before or `X` holds.
abbrev Connects : Type 0 → Upstream → Upstream → Type 0
Connects X st st' = st'.is_connected ≡ true → (st.is_connected ≡ true) ⊎ X

if-Connects :
    {X A : Type 0} (b : Bool) (st : Upstream) (x y : Upstream × A)
    → (b ≡ true → Connects X st x.0)
    → (b ≡ false → Connects X st y.0)
    → Connects X st ((if b then x else y).0)
if-Connects true st x y f g = f refl
if-Connects false st x y f g = g refl

saw_incm-name :
    (cmd : CommandRef) (c : Chunks)
    → (chunk_command cmd c).saw_incm ≡ true
    → (c.saw_incm ≡ true) ⊎ (name_eq cmd.name init_complete ≡ true)
unfolding chunk_command
saw_incm-name cmd c h = ground arith

saw_incm-HasInCm :
    (cmds : List CommandRef) (c : Chunks)
    → (chunk_commands cmds c).saw_incm ≡ true
    → (c.saw_incm ≡ true) ⊎ HasInCm cmds
unfolding chunk_commands
saw_incm-HasInCm [] c h = inl h
saw_incm-HasInCm (cmd ∷ cmds) c h = elim (saw_incm-HasInCm cmds (chunk_command cmd c) h) [
  | inr later ↦ inr (inr later)
  | inl e ↦ elim (saw_incm-name cmd c e) [ inl k ↦ inl k | inr k ↦ inr (inl k) ]
]

published_same :
    (c : Chunks) (st : Upstream)
    → (publish_transfer c.transfer_chunk
        (publish_audio c.audio_chunk (publish_state c.state_chunk st))).is_connected
      ≡ st.is_connected
unfolding publish_transfer publish_audio publish_state
published_same c st = ground arith

handle_commands-Connects :
    (cmds : List CommandRef) (st : Upstream)
    → Connects (HasInCm cmds) st ((handle_commands cmds st).0)
unfolding handle_commands
handle_commands-Connects cmds st =
    let c = chunk_commands cmds no_chunks in
    if-Connects c.saw_incm st _ _
      (λ e _. elim (saw_incm-HasInCm cmds no_chunks e) [ inl k ↦ absurd (cc) | inr k ↦ inr k ])
      (λ e h. inl (sym (published_same c st) ∙ h))

deliver-Connects :
    (payload : List ℕ) (st : Upstream) → Connects (TellsInCm payload) st ((deliver payload st).0)
unfolding handle_upstream_payload
deliver-Connects [] st h = inl h
deliver-Connects (b ∷ payload) st h = elim (Result-cases (parse_commands (b ∷ payload))) [
  | inl (cmds, p) ↦ elim (handle_commands-Connects cmds st (rw (p, handle_upstream_payload) at h)) [
    | inl k ↦ inl k
    | inr k ↦ inr (cmds, p, k)
  ]
  | inr (x, p) ↦ inl (rw (p, handle_upstream_payload) at h)
]

on_packet-Connects :
    (hdr : PacketHeader) (payload : List ℕ) (st : Upstream)
    → Connects (TellsInCm payload) st ((on_packet hdr payload st).0)
unfolding on_packet on_reliable
on_packet-Connects hdr payload st =
    let rel = take_ack hdr (adopt_session hdr st.rel) in
    let r = accept_reliable hdr.packet_id (contains hdr.flags is_retransmit) rel in
    if-Connects (is_handshake_packet hdr.flags) st _ _ (λ _ h. inl h)
      (λ _.
        if-Connects (contains hdr.flags ack_request) st _ _
          (λ _.
            if-Connects r.1 st _ _ (λ _. deliver-Connects payload (with_rel r.0 st)) (λ _ h. inl h))
          (λ _. deliver-Connects payload (with_rel rel st)))

pub on_datagram-Connects :
    (now : Millis) (bytes : List ℕ) (st : Upstream)
    → (on_datagram now bytes st).0.is_connected ≡ true
    → (st.is_connected ≡ true) ⊎ BringsInCm bytes
unfolding on_datagram
on_datagram-Connects now bytes st h = elim (Result-cases (decode_packet bytes)) [
  | inl ((hdr, payload), e) ↦
      elim (on_packet-Connects hdr payload (with_rel (note_recv now st.rel) st)
        (rw (e, on_datagram) at h)) [ inl k ↦ inl k | inr k ↦ inr (hdr, payload, e, k) ]
  | inr (x, e) ↦ inl (rw (e, on_datagram) at h)
]

pub on_command-connected :
    (now clock : Millis) (raw : List ℕ) (queued : List (List ℕ)) (st : Upstream)
    → (on_command now clock raw queued st).0.is_connected ≡ st.is_connected
unfolding on_command
on_command-connected now clock raw queued st = ground arith

pub on_tick-connected :
    (now clock : Millis) (st st' : Upstream) (out : List (List ℕ))
    → on_tick now clock st ≡ some (st', out)
    → st'.is_connected ≡ st.is_connected
unfolding on_tick
on_tick-connected now clock st st' out e = ground arith
