-- ===== src/Proxy/Upstream/Runs.antt =====
-- The switcher's side, run_session and spawn_upstream of upstream.rs, as a machine with steps.
use atemproxy.Prelude.{
  ◌≡◌, refl, inl, inr, arith, Bool-cases, ℕ, false, none, some, List, [], ◌∷◌, subst, ap, is_empty,
}
use atemproxy.Protocol.Error.{Result-cases}
use atemproxy.Protocol.Packet.{decode_packet}
use atemproxy.Protocol.Reliable.{Millis, ReliableEndpoint, is_timed_out, note_recv}
use atemproxy.Proxy.Upstream.{
  Upstream, on_datagram, on_command, on_tick, begin_session, end_session, with_rel, disconnected,
  flush_pending,
}
use atemproxy.Proxy.Upstream.Readiness.{IsReady, announced-append, on_packet-IsReady}

-- The steps of the loop of `run_session`, and the change from one session to the next.
pub data Step : Upstream → Upstream → Type 0 where
  received :
      (now : Millis) (bytes : List ℕ) (st : Upstream) → Step st ((on_datagram now bytes st).0)
  commanded :
      (now clock : Millis) (raw : List ℕ) (queued : List (List ℕ)) (st : Upstream)
      → Step st ((on_command now clock raw queued st).0)
  ticked :
      (now clock : Millis) (st st' : Upstream) (out : List (List ℕ))
      → on_tick now clock st ≡ some (st', out)
      → Step st st'
  failed : (st : Upstream) → Step st (end_session st)
  reconnected :
      (rel : ReliableEndpoint) (st : Upstream) → Step st (begin_session rel (end_session st))

pub data Run : Upstream → Upstream → Type 0 where
  start : (st : Upstream) → Run st st
  then_ : (st st' st'' : Upstream) → Run st st' → Step st' st'' → Run st st''

on_datagram-IsReady :
    (now : Millis) (bytes : List ℕ) (st : Upstream)
    → IsReady st
    → IsReady ((on_datagram now bytes st).0)
unfolding on_datagram
on_datagram-IsReady now bytes st h = elim (Result-cases (decode_packet bytes)) [
  | inl ((hdr, payload), e) ↦
      rw (e, on_datagram) (on_packet-IsReady hdr payload (with_rel (note_recv now st.rel) st) h)
  | inr (x, e) ↦ rw (e, on_datagram) h
]

on_command-IsReady :
    (now clock : Millis) (raw : List ℕ) (queued : List (List ℕ)) (st : Upstream)
    → IsReady st
    → IsReady ((on_command now clock raw queued st).0)
unfolding on_command
on_command-IsReady now clock raw queued st h = ground arith

some-injective : {A : Type 0} {a b : A} → some a ≡ some b → a ≡ b
some-injective h = cc

some-none : {A : Type 0} {a : A} → none ≡ some a → ⊥
some-none h = cc

flush_pending-IsReady : (st : Upstream) → IsReady st → IsReady (flush_pending st)
flush_pending-IsReady st h = elim (Bool-cases (is_empty st.pending_cmds)) [
  | inl e ↦ rw e h
  | inr e ↦ rw e h
]

on_tick-IsReady :
    (now clock : Millis) (st st' : Upstream) (out : List (List ℕ))
    → on_tick now clock st ≡ some (st', out)
    → IsReady st
    → IsReady st'
unfolding on_tick
on_tick-IsReady now clock st st' out e h = elim (Bool-cases (is_timed_out now st.rel)) [
  | inl t ↦ absurd (some-none (rw t at e))
  | inr t ↦ subst IsReady (ap (λ r. r.0) (some-injective (rw t at e))) (flush_pending-IsReady st h)
]

end_session-IsReady : (st : Upstream) → IsReady (end_session st)
unfolding end_session
end_session-IsReady st =
    ((λ e. cc), (λ e. cc), (λ e. cc), announced-append st.events (disconnected ∷ []) 0)

begin_session-IsReady :
    (rel : ReliableEndpoint) (st : Upstream) → IsReady (begin_session rel (end_session st))
unfolding begin_session end_session
begin_session-IsReady rel st =
    ((λ e. cc), (λ e. cc), (λ e. cc), announced-append st.events (disconnected ∷ []) 0)

pub Step-IsReady : (st st' : Upstream) → Step st st' → IsReady st → IsReady st'
Step-IsReady st _ (received now bytes _) h = on_datagram-IsReady now bytes st h
Step-IsReady st _ (commanded now clock raw queued _) h =
    on_command-IsReady now clock raw queued st h
Step-IsReady st st' (ticked now clock _ _ out e) h = on_tick-IsReady now clock st st' out e h
Step-IsReady st _ (failed _) h = end_session-IsReady st
Step-IsReady st _ (reconnected rel _) h = begin_session-IsReady rel st

-- Whatever arrives and however often the session is renewed, a proxy that counts as connected has
-- had `InCm` from the switcher in this session and serves a cache that is ready, and it has announced
-- the connection exactly once since the last end of one. It starts without a connection or events.
pub Run-IsReady :
    (st st' : Upstream) → Run st st' → st.is_connected ≡ false → st.events ≡ [] → IsReady st'
Run-IsReady st _ (start _) c e = (
  (λ t. absurd (ground arith)),
  (λ t. absurd (ground arith)),
  (λ t. absurd (ground arith)),
  rw (e, c) refl,
)
Run-IsReady st st'' (then_ _ st' _ r s) c e = Step-IsReady st' st'' s (Run-IsReady st st' r c e)
