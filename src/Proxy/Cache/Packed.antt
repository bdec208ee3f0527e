-- ===== src/Proxy/Cache/Packed.antt =====
-- The dump of cache.rs in the payloads that queue_commands_packed of reliable.rs makes of it.
use atemproxy.Prelude.{
  ◌≡◌, refl, ap, ap₂, sym, ◌∙◌, subst, ℕ, List, [], ◌∷◌, ◌++◌, map, All, flatten,
}
use atemproxy.Protocol.Command.{CommandRef, synthetic_init_complete}
use atemproxy.Protocol.Command.Parsing.{IsFramed, parse_commands-wire}
use atemproxy.Protocol.Reliable.Packing.{NonEmpty, Grouping}
use atemproxy.Proxy.Cache.{
  CacheKey, get, empty, StateMap, StateCache, ingest_command, ingest_commands, ingest_payload,
  values, dump,
}
use atemproxy.Proxy.Cache.Dump.{
  ingest_payload-dump, IsEntry, IsState, commands_of, commands_of-IsFramed,
}
use atemproxy.Proxy.Cache.Views.{ingest_all, effect, ingest_all-effect, or_before-none}

abbrev raws : List CommandRef → List (List ℕ)
raws cs = map (λ c. c.raw) cs

ingest_commands-append :
    (cs ds : List CommandRef) (c : StateCache)
    → ingest_commands (cs ++ ds) c ≡ ingest_commands ds (ingest_commands cs c)
unfolding ingest_commands
ingest_commands-append [] ds c = refl
ingest_commands-append (d ∷ cs) ds c = ingest_commands-append cs ds (ingest_command d c)

ingest_payload-framed :
    (cs : List CommandRef) (c : StateCache)
    → All IsFramed cs
    → ingest_payload (flatten (raws cs)) c ≡ ingest_commands cs c
unfolding ingest_payload
ingest_payload-framed cs c v = rw (parse_commands-wire cs v, ingest_payload) refl

-- The commands of the first payload, and the others.
record Cut (g rest : List (List ℕ)) (cs : List CommandRef) : Type 0 where
  front : List CommandRef
  back : List CommandRef
  whole : front ++ back ≡ cs
  first : g ≡ raws front
  second : rest ≡ raws back
  framed_front : All IsFramed front
  framed_back : All IsFramed back

cut :
    (g rest : List (List ℕ)) (cs : List CommandRef)
    → g ++ rest ≡ raws cs
    → All IsFramed cs
    → Cut g rest cs
cut [] rest cs e v = record {
  front = [];
  back = cs;
  whole = refl;
  first = refl;
  second = e;
  framed_front = tt;
  framed_back = v;
}
cut (x ∷ g) rest [] e v = absurd (cc)
cut (x ∷ g) rest (c ∷ cs) e v =
    let t = cut g rest cs (cc) v.1 in
    record {
      front = c ∷ t.front;
      back = t.back;
      whole = ap (◌∷◌ c) t.whole;
      first = let head : x ≡ c.raw = cc in ap₂ ◌∷◌ head t.first;
      second = t.second;
      framed_front = (v.0, t.framed_front);
      framed_back = t.framed_back;
    }

-- Payloads made of whole commands are ingested as the commands are.
ingest_all-groups :
    (groups : List (List (List ℕ))) (cs : List CommandRef) (c : StateCache)
    → flatten groups ≡ raws cs
    → All IsFramed cs
    → ingest_all (map flatten groups) c ≡ ingest_commands cs c
unfolding ingest_all ingest_commands
ingest_all-groups [] [] c e v = refl
ingest_all-groups [] (d ∷ cs) c e v = absurd (cc)
ingest_all-groups (g ∷ groups) cs c e v =
    let t = cut g (flatten groups) cs e v in
    ap (λ p. ingest_all (map flatten groups) (ingest_payload (flatten p) c)) t.first
    ∙ ap (ingest_all (map flatten groups)) (ingest_payload-framed t.front c t.framed_front)
    ∙ ingest_all-groups groups t.back (ingest_commands t.front c) t.second t.framed_back
    ∙ sym (ingest_commands-append t.front t.back c)
    ∙ ap (λ l. ingest_commands l c) t.whole

commands_of-raw :
    (m : StateMap) (h : All IsEntry m)
    → raws (commands_of m h) ≡ values m ++ synthetic_init_complete ∷ []
commands_of-raw [] h = refl
commands_of-raw (e ∷ m) h = ap₂ ◌∷◌ h.0.raw (commands_of-raw m h.1)

framed-NonEmpty : (c : CommandRef) → IsFramed c → NonEmpty c.raw
framed-NonEmpty c v e = let h = v.framing in absurd (cc)

raws-NonEmpty : (cs : List CommandRef) → All IsFramed cs → All NonEmpty (raws cs)
raws-NonEmpty [] v = tt
raws-NonEmpty (c ∷ cs) v = (framed-NonEmpty c v.0, raws-NonEmpty cs v.1)

pub dump-NonEmpty : (c : StateCache) → IsState c.entries → All NonEmpty (dump c)
unfolding dump
dump-NonEmpty c h =
    subst (All NonEmpty) (commands_of-raw c.entries h.1)
      (raws-NonEmpty (commands_of c.entries h.1) (commands_of-IsFramed c.entries h.1))

-- A client that ingests the payloads that the dump is packed into knows what it would know from the
-- dump in one payload.
pub ingest_all-dump :
    (c d : StateCache) (payloads : List (List ℕ))
    → IsState c.entries
    → Grouping (dump c) payloads
    → ingest_all payloads d ≡ ingest_payload (flatten (dump c)) d
unfolding dump
ingest_all-dump c d payloads h r =
    let cs = commands_of c.entries h.1 in
    let framed = commands_of-IsFramed c.entries h.1 in
    let raw = commands_of-raw c.entries h.1 in
    ap (λ ps. ingest_all ps d) (sym r.contents)
    ∙ ingest_all-groups r.groups cs d (r.in_order ∙ sym raw) framed
    ∙ sym (ingest_payload-framed cs d framed)
    ∙ ap (λ ps. ingest_payload (flatten ps) d) raw

-- Packed, the dump leaves under every key what the cache holds.
pub effect-dump :
    (c : StateCache) (payloads : List (List ℕ)) (k : CacheKey)
    → IsState c.entries
    → Grouping (dump c) payloads
    → effect k payloads ≡ get k c.entries
unfolding get
effect-dump c payloads k h r =
    sym (or_before-none (effect k payloads))
    ∙ sym (ingest_all-effect k payloads empty)
    ∙ ap (λ d. get k d.entries) (ingest_all-dump c empty payloads h r)
    ∙ ingest_payload-dump c k h
