-- ===== src/Proxy/Upstream/Lengths.antt =====
-- How long the payloads are that are made of the commands of a payload, in cache.rs and upstream.rs.
use atemproxy.Prelude.{
  ◌≡◌, ◌≤◌, ap, inl, inr, arith, Bool-cases, ℕ, Bool, true, false, List, [], ◌∷◌, ◌++◌, All,
  All-append, length, length-append, if◌then◌else◌, is_empty, ltb, not, ◌&&◌, ◌+◌,
}
use atemproxy.Protocol.Packet.{max_packet_len, header_len}
use atemproxy.Protocol.Command.{CommandRef, synthetic_init_complete, serialize_command}
use atemproxy.Protocol.Command.Parsing.{wire}
use atemproxy.Protocol.Reliable.{pack}
use atemproxy.Protocol.Link.Order.{Short}
use atemproxy.Proxy.Cache.{
  CacheKey, StateMap, StateCache, key_eq, key_of, upsert, values, dump, ingest_command,
  ingest_commands,
}
use atemproxy.Proxy.Cache.Keys.{is_kept, ingest_command-entries}
use atemproxy.Proxy.Upstream.{chunk_commands, no_chunks}
use atemproxy.Proxy.Upstream.Chunking.{
  Route, marker, route, same, select, chunk, chunk_commands-wire,
}

abbrev pub ShortEntries : StateMap → Type 0
ShortEntries = All (λ (e : CacheKey × List ℕ). Short e.1)

-- The packet that is being filled when commands are packed.
filling-Short :
    (current cmd : List ℕ)
    → Short current
    → let left =
        if ltb max_packet_len (header_len + length current + length cmd) && not (is_empty current)
        then []
        else current in
      Short (if ltb max_packet_len (header_len + length cmd) then left else left ++ cmd)
filling-Short [] cmd c = ground arith
filling-Short (b ∷ current) cmd c = ground (arith, length-append (b ∷ current) cmd)

-- The dump as it is packed.
pack-Short :
    (current : List ℕ) (cmds : List (List ℕ))
    → Short current
    → All Short cmds
    → All Short (pack current cmds)
unfolding pack
pack-Short [] [] c h = tt
pack-Short (b ∷ current) [] c h = (c, tt)
pack-Short current (cmd ∷ cmds) c h =
    let full =
      ltb max_packet_len (header_len + length current + length cmd) && not (is_empty current) in
    let left = if full then [] else current in
    let oversized = ltb max_packet_len (header_len + length cmd) in
    All-append Short (if full then current ∷ [] else []) _ (one full current c) (
      All-append Short (if oversized then cmd ∷ [] else []) _ (one oversized cmd h.0) (
        pack-Short (if oversized then left else left ++ cmd) cmds (filling-Short current cmd c)
          h.1))
  where
    one : (b : Bool) (p : List ℕ) → Short p → All Short (if b then p ∷ [] else [])
    one true p s = (s, tt)
    one false p s = tt

values-Short : (m : StateMap) → ShortEntries m → All Short (values m)
values-Short [] h = tt
values-Short (e ∷ m) h = (h.0, values-Short m h.1)

pub dump-Short : (c : StateCache) → ShortEntries c.entries → All Short (pack [] (dump c))
unfolding dump synthetic_init_complete serialize_command
dump-Short c h =
    pack-Short [] (dump c) (omega arith)
      (All-append Short (values c.entries) _ (values-Short c.entries h) (omega arith, tt))

upsert-ShortEntries :
    (k : CacheKey) (v : List ℕ) (m : StateMap)
    → Short v
    → ShortEntries m
    → ShortEntries (upsert k v m)
unfolding upsert
upsert-ShortEntries k v [] s h = (s, tt)
upsert-ShortEntries k v ((j, w) ∷ m) s h = elim (Bool-cases (key_eq j k)) [
  | inl e ↦ rw e (s, h.1)
  | inr e ↦ rw e (h.0, upsert-ShortEntries k v m s h.1)
]

pub ingest_commands-ShortEntries :
    (cmds : List CommandRef) (c : StateCache)
    → All (λ (cmd : CommandRef). Short cmd.raw) cmds
    → ShortEntries c.entries
    → ShortEntries ((ingest_commands cmds c).entries)
unfolding ingest_commands
ingest_commands-ShortEntries [] c s h = h
ingest_commands-ShortEntries (cmd ∷ cmds) c s h =
    ingest_commands-ShortEntries cmds (ingest_command cmd c) s.1 (
      rw (ingest_command-entries cmd c) (elim (Bool-cases (is_kept cmd.name)) [
        | inl e ↦ rw e (upsert-ShortEntries (key_of cmd) cmd.raw c.entries s.0 h)
        | inr e ↦ rw e h
      ]))

pub wire-Short :
    (cmds : List CommandRef) → Short (wire cmds) → All (λ (cmd : CommandRef). Short cmd.raw) cmds
wire-Short [] h = tt
wire-Short (cmd ∷ cmds) h =
    let n = length-append cmd.raw (wire cmds) in
    (omega (arith, n), wire-Short cmds (omega (arith, n)))

select-length :
    (r : Route) (cmds : List CommandRef) → length (wire (select r cmds)) ≤ length (wire cmds)
select-length r [] = omega arith
select-length r (cmd ∷ cmds) = elim (Bool-cases (same (route cmd) r)) [
  | inl e ↦ rw e (
      omega (
        arith,
        length-append cmd.raw (wire cmds),
        length-append cmd.raw (wire (select r cmds)),
        select-length r cmds,
      ))
  | inr e ↦ rw e (omega (arith, length-append cmd.raw (wire cmds), select-length r cmds))
]

pub chunk-Short :
    (payload : List ℕ) (cmds : List CommandRef) (r : Route)
    → same r marker ≡ false
    → wire cmds ≡ payload
    → Short payload
    → Short (chunk r (chunk_commands cmds no_chunks))
chunk-Short payload cmds r m e h =
    omega (arith, ap length (chunk_commands-wire cmds r m), select-length r cmds, ap length e)
