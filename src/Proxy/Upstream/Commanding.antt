-- ===== src/Proxy/Upstream/Commanding.antt =====
-- The clients' commands on their way to the switcher, in the arms `cmd_rx.recv` and `tick` of
-- upstream.rs.
use atemproxy.Prelude.{
  ◌≡◌, refl, ap, ap₂, sym, subst, ◌∙◌, inl, inr, Bool-cases, ℕ, false, none, some, List, [], ◌∷◌,
  ◌++◌, map, All, flatten, flatten-append, append-nil, ltb, length, if◌then◌else◌,
}
use atemproxy.Protocol.Reliable.{
  Millis, ReliableEndpoint, queue_commands_packed, pack, is_timed_out,
}
use atemproxy.Protocol.Reliable.Packing.{NonEmpty, packed-Grouping}
use atemproxy.Protocol.Outbound.{poll_outbound}
use atemproxy.Protocol.Outbound.Carrying.{Carries, nothing, poll_outbound-Carries}
use atemproxy.Protocol.Link.{launched}
use atemproxy.Protocol.Link.State.{full}
use atemproxy.Protocol.Link.Launching.{launched-full}
use atemproxy.Proxy.Upstream.{Upstream, keep_framed, on_command, on_tick}

flatten-full : (ps : List (List ℕ)) → flatten (full ps) ≡ flatten ps
flatten-full [] = refl
flatten-full ([] ∷ ps) = flatten-full ps
flatten-full ((b ∷ bytes) ∷ ps) = ap (◌++◌ (b ∷ bytes)) (flatten-full ps)

-- What is sent for the first time comes off the front of the queue.
launched-flatten :
    (now clock : Millis) (ep : ReliableEndpoint)
    → flatten (launched now clock ep) ++ flatten (poll_outbound now clock ep).0.outbound
      ≡ flatten ep.outbound
launched-flatten now clock ep =
    ap₂ ◌++◌ (sym (flatten-full (launched now clock ep)))
      (sym (flatten-full (poll_outbound now clock ep).0.outbound))
    ∙ sym (
        flatten-append (full (launched now clock ep))
          (full (poll_outbound now clock ep).0.outbound))
    ∙ ap flatten (sym (launched-full now clock ep))
    ∙ flatten-full ep.outbound

flatten-map-flatten :
    (groups : List (List (List ℕ))) → flatten (map flatten groups) ≡ flatten (flatten groups)
flatten-map-flatten [] = refl
flatten-map-flatten (g ∷ groups) =
    ap (◌++◌ (flatten g)) (flatten-map-flatten groups) ∙ sym (flatten-append g (flatten groups))

flatten-pack :
    (commands : List (List ℕ))
    → All NonEmpty commands
    → flatten (pack [] commands) ≡ flatten commands
flatten-pack commands h =
    let g = packed-Grouping commands h in
    ap flatten (sym g.contents) ∙ flatten-map-flatten g.groups ∙ ap flatten g.in_order

NonEmpty-length : (p : List ℕ) → ltb (length p) 8 ≡ false → NonEmpty p
NonEmpty-length [] h = absurd (cc)
NonEmpty-length (b ∷ p) h = λ e. cc

keep_framed-NonEmpty : (raws : List (List ℕ)) → All NonEmpty (keep_framed raws)
unfolding keep_framed
keep_framed-NonEmpty [] = tt
keep_framed-NonEmpty (raw ∷ raws) = elim (Bool-cases (ltb (length raw) 8)) [
  | inl e ↦ rw e (keep_framed-NonEmpty raws)
  | inr e ↦ rw e (NonEmpty-length raw e, keep_framed-NonEmpty raws)
]

-- The commands that a round takes, and the payloads that it sends for the first time.
abbrev pub taken : List ℕ → List (List ℕ) → List (List ℕ)
taken raw queued = if ltb (length raw) 8 then [] else raw ∷ keep_framed queued

abbrev pub sent_by_command : Millis → Millis → List ℕ → List (List ℕ) → Upstream → List (List ℕ)
sent_by_command now clock raw queued st =
    if ltb (length raw) 8
    then []
    else launched now clock
        (queue_commands_packed (st.pending_cmds ++ (raw ∷ keep_framed queued)) st.rel)

pub on_command-Carries :
    (now clock : Millis) (raw : List ℕ) (queued : List (List ℕ)) (st : Upstream)
    → Carries (on_command now clock raw queued st).1 (sent_by_command now clock raw queued st)
unfolding on_command
on_command-Carries now clock raw queued st = elim (Bool-cases (ltb (length raw) 8)) [
  | inl e ↦ rw e nothing
  | inr e ↦ rw e (poll_outbound-Carries now clock _)
]

pub on_command-flatten :
    (now clock : Millis) (raw : List ℕ) (queued : List (List ℕ)) (st : Upstream)
    → st.pending_cmds ≡ []
    → (flatten (sent_by_command now clock raw queued st)
          ++ flatten (on_command now clock raw queued st).0.rel.outbound
        ≡ flatten st.rel.outbound ++ flatten (taken raw queued))
      × ((on_command now clock raw queued st).0.pending_cmds ≡ [])
unfolding on_command queue_commands_packed
on_command-flatten now clock raw queued st n = elim (Bool-cases (ltb (length raw) 8)) [
  | inl e ↦ rw e (sym (append-nil (flatten st.rel.outbound)), n)
  | inr e ↦
      rw (e, n)
        (
          launched-flatten now clock _
              ∙ flatten-append st.rel.outbound (pack [] (raw ∷ keep_framed queued))
              ∙ ap (◌++◌ (flatten st.rel.outbound)) (
                  flatten-pack (raw ∷ keep_framed queued)
                    (NonEmpty-length raw e, keep_framed-NonEmpty queued)),
          refl,
        )
]

some-injective : {A : Type 0} {a b : A} → some a ≡ some b → a ≡ b
some-injective h = cc

some-none : {A : Type 0} {a : A} → none ≡ some a → ⊥
some-none h = cc

pub on_tick-flatten :
    (now clock : Millis) (st st' : Upstream) (out : List (List ℕ))
    → on_tick now clock st ≡ some (st', out)
    → st.pending_cmds ≡ []
    → (flatten (launched now clock st.rel) ++ flatten st'.rel.outbound ≡ flatten st.rel.outbound)
      × (st'.pending_cmds ≡ [])
unfolding on_tick
on_tick-flatten now clock st st' out e n = elim (Bool-cases (is_timed_out now st.rel)) [
  | inl t ↦ absurd (some-none (rw t at e))
  | inr t ↦
      subst
        (λ (x : Upstream).
          (flatten (launched now clock st.rel) ++ flatten x.rel.outbound ≡ flatten st.rel.outbound)
          × (x.pending_cmds ≡ []))
        (ap (λ r. r.0) (some-injective (simp t at e)))
        (rw n (launched-flatten now clock st.rel, refl))
]

pub on_tick-Carries :
    (now clock : Millis) (st st' : Upstream) (out : List (List ℕ))
    → on_tick now clock st ≡ some (st', out)
    → st.pending_cmds ≡ []
    → Carries out (launched now clock st.rel)
unfolding on_tick
on_tick-Carries now clock st st' out e n = elim (Bool-cases (is_timed_out now st.rel)) [
  | inl t ↦ absurd (some-none (rw t at e))
  | inr t ↦
      subst (λ o. Carries o (launched now clock st.rel))
        (ap (λ r. r.1) (some-injective (simp t at e)))
        (rw n (poll_outbound-Carries now clock st.rel))
]
