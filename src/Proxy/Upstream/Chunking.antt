-- ===== src/Proxy/Upstream/Chunking.antt =====
-- handle_upstream_payload of upstream.rs: how the commands of a payload are sorted.
use atemproxy.Prelude.{
  ◌≡◌, refl, inl, inr, arith, Bool-cases, ℕ, Bool, true, false, not, ◌||◌, List, [], ◌∷◌, ◌++◌, All,
  is_empty, append_assoc, append-nil, if◌then◌else◌, ◌∙◌, ap, sym,
}
use atemproxy.Protocol.Error.{ok}
use atemproxy.Protocol.Command.{CommandRef, parse_commands, name_eq, init_complete}
use atemproxy.Protocol.Command.Parsing.{IsFramed, wire, parse_commands-wire}
use atemproxy.Protocol.Classify.{is_transfer_command, is_lock_status, is_ephemeral_command}
use atemproxy.Proxy.Upstream.{Chunks, no_chunks, chunk_command, chunk_commands}

-- Where a command of the switcher goes.
pub data Route : Type 0 where
  marker transfer state audio : Route

abbrev pub route : CommandRef → Route
route cmd =
    if name_eq cmd.name init_complete
    then marker
    else (if is_transfer_command cmd.name
        then transfer
        else (if is_lock_status cmd.name
            then state
            else (if is_ephemeral_command cmd.name then audio else state)))

abbrev pub same : Route → Route → Bool
same marker marker = true
same transfer transfer = true
same state state = true
same audio audio = true
same _ _ = false

-- The commands that go one way, in order.
abbrev pub select : Route → List CommandRef → List CommandRef
select r [] = []
select r (cmd ∷ cmds) = if same (route cmd) r then cmd ∷ select r cmds else select r cmds

pub select-All :
    (P : CommandRef → Type 0) (r : Route) (cmds : List CommandRef)
    → All P cmds
    → All P (select r cmds)
select-All P r [] h = tt
select-All P r (cmd ∷ cmds) h = elim (Bool-cases (same (route cmd) r)) [
  | inl e ↦ rw e (h.0, select-All P r cmds h.1)
  | inr e ↦ rw e (select-All P r cmds h.1)
]

abbrev pub chunk : Route → Chunks → List ℕ
chunk marker c = []
chunk transfer c = c.transfer_chunk
chunk state c = c.state_chunk
chunk audio c = c.audio_chunk

chunk_command-chunk :
    (cmd : CommandRef) (c : Chunks) (r : Route)
    → same r marker ≡ false
    → chunk r (chunk_command cmd c) ≡ chunk r c ++ wire (select r (cmd ∷ []))
unfolding chunk_command
chunk_command-chunk cmd c marker h = absurd (ground arith)
chunk_command-chunk cmd c transfer h =
    ground (arith, append-nil c.transfer_chunk, append-nil cmd.raw)
chunk_command-chunk cmd c state h = ground (arith, append-nil c.state_chunk, append-nil cmd.raw)
chunk_command-chunk cmd c audio h = ground (arith, append-nil c.audio_chunk, append-nil cmd.raw)

wire-append :
    (r : Route) (cmd : CommandRef) (cmds : List CommandRef)
    → wire (select r (cmd ∷ [])) ++ wire (select r cmds) ≡ wire (select r (cmd ∷ cmds))
wire-append r cmd cmds = elim (Bool-cases (same (route cmd) r)) [
  | inl e ↦ rw e (ap (λ x. x ++ wire (select r cmds)) (append-nil cmd.raw))
  | inr e ↦ rw e refl
]

chunk_commands-chunk :
    (cmds : List CommandRef) (c : Chunks) (r : Route)
    → same r marker ≡ false
    → chunk r (chunk_commands cmds c) ≡ chunk r c ++ wire (select r cmds)
unfolding chunk_commands
chunk_commands-chunk [] c r h = sym (append-nil (chunk r c))
chunk_commands-chunk (cmd ∷ cmds) c r h =
    chunk_commands-chunk cmds (chunk_command cmd c) r h
    ∙ ap (λ x. x ++ wire (select r cmds)) (chunk_command-chunk cmd c r h)
    ∙ append_assoc (chunk r c) (wire (select r (cmd ∷ []))) (wire (select r cmds))
    ∙ ap (◌++◌ (chunk r c)) (wire-append r cmd cmds)

saw_incm-select :
    (cmds : List CommandRef) (c : Chunks)
    → (chunk_commands cmds c).saw_incm ≡ (c.saw_incm || not (is_empty (select marker cmds)))
unfolding chunk_commands chunk_command
saw_incm-select [] c = ground arith
saw_incm-select (cmd ∷ cmds) c = ground (arith, saw_incm-select cmds (chunk_command cmd c))

chunk-none : (r : Route) (x : List ℕ) → chunk r no_chunks ++ x ≡ x
chunk-none marker x = refl
chunk-none transfer x = refl
chunk-none state x = refl
chunk-none audio x = refl

pub chunk_commands-wire :
    (cmds : List CommandRef) (r : Route)
    → same r marker ≡ false
    → chunk r (chunk_commands cmds no_chunks) ≡ wire (select r cmds)
chunk_commands-wire cmds r h =
    chunk_commands-chunk cmds no_chunks r h ∙ chunk-none r (wire (select r cmds))

read-select :
    (cmds : List CommandRef) (r : Route)
    → same r marker ≡ false
    → All IsFramed cmds
    → parse_commands (chunk r (chunk_commands cmds no_chunks)) ≡ ok (select r cmds)
read-select cmds r h f =
    ap parse_commands (chunk_commands-wire cmds r h)
    ∙ parse_commands-wire (select r cmds) (select-All IsFramed r cmds f)

-- Of well-framed commands, the chunks can be read back, and each holds the commands that go its
-- way, whole and in order; the marker is noted exactly if there is one.
pub chunk_commands-select :
    (cmds : List CommandRef)
    → All IsFramed cmds
    → let c = chunk_commands cmds no_chunks in
      (parse_commands c.state_chunk ≡ ok (select state cmds))
      × (parse_commands c.audio_chunk ≡ ok (select audio cmds))
      × (parse_commands c.transfer_chunk ≡ ok (select transfer cmds))
      × (c.saw_incm ≡ not (is_empty (select marker cmds)))
chunk_commands-select cmds f = (
  read-select cmds state refl f,
  read-select cmds audio refl f,
  read-select cmds transfer refl f,
  saw_incm-select cmds no_chunks,
)
