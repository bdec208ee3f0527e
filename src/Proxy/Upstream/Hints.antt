-- ===== src/Proxy/Upstream/Hints.antt =====
-- The audio and transfer chunks of upstream.rs hold no command that cache.rs keeps.
use atemproxy.Prelude.{
  ◌≡◌, refl, inl, inr, arith, Bool-cases, ◌∙◌, ap, ℕ, true, false, ◌&&◌, if◌then◌else◌, none, some,
  List, [], ◌∷◌, All,
}
use atemproxy.Protocol.Error.{ok}
use atemproxy.Protocol.Command.{CommandRef, parse_commands}
use atemproxy.Protocol.Command.Parsing.{IsFramed}
use atemproxy.Proxy.Cache.{CacheKey, key_eq, key_of, is_skipped}
use atemproxy.Proxy.Cache.Keys.{is_kept, latest}
use atemproxy.Proxy.Cache.Views.{told}
use atemproxy.Proxy.Upstream.{chunk_commands, no_chunks}
use atemproxy.Proxy.Upstream.Chunking.{
  Route, audio, transfer, state, marker, same, route, select, chunk_commands-select,
}

-- The ways on which no state goes.
abbrev IsAside : Route → Type 0
IsAside marker = ⊥
IsAside state = ⊥
IsAside transfer = Unit
IsAside audio = Unit

aside-not_kept :
    (r : Route) (cmd : CommandRef)
    → IsAside r
    → same (route cmd) r ≡ true
    → is_kept cmd.name ≡ false
unfolding is_skipped
aside-not_kept marker cmd a e = absurd a
aside-not_kept state cmd a e = absurd a
aside-not_kept transfer cmd a e = ground arith
aside-not_kept audio cmd a e = ground arith

latest-not_kept :
    (k : CacheKey) (cmd : CommandRef) (cmds : List CommandRef)
    → is_kept cmd.name ≡ false
    → latest k (cmd ∷ cmds) none ≡ latest k cmds none
latest-not_kept k cmd cmds e =
    ap (λ b. latest k cmds (if b && key_eq (key_of cmd) k then some cmd.raw else none)) e

select-latest :
    (r : Route) (k : CacheKey) (cmds : List CommandRef)
    → IsAside r
    → latest k (select r cmds) none ≡ none
select-latest r k [] a = refl
select-latest r k (cmd ∷ cmds) a = elim (Bool-cases (same (route cmd) r)) [
  | inl e ↦
      rw e (
        latest-not_kept k cmd (select r cmds) (aside-not_kept r cmd a e) ∙ select-latest r k cmds a)
  | inr e ↦ rw e (select-latest r k cmds a)
]

read-told :
    (k : CacheKey) (payload : List ℕ) (cmds : List CommandRef)
    → parse_commands payload ≡ ok cmds
    → told k payload ≡ latest k cmds none
unfolding told
read-told k payload cmds e = rw (e, told) refl

pub audio_chunk-told :
    (k : CacheKey) (cmds : List CommandRef)
    → All IsFramed cmds
    → told k (chunk_commands cmds no_chunks).audio_chunk ≡ none
audio_chunk-told k cmds f =
    read-told k _ (select audio cmds) (chunk_commands-select cmds f).1
    ∙ select-latest audio k cmds tt

pub transfer_chunk-told :
    (k : CacheKey) (cmds : List CommandRef)
    → All IsFramed cmds
    → told k (chunk_commands cmds no_chunks).transfer_chunk ≡ none
transfer_chunk-told k cmds f =
    read-told k _ (select transfer cmds) (chunk_commands-select cmds f).2
    ∙ select-latest transfer k cmds tt
