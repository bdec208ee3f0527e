-- ===== src/Proxy/Server/Keyed.antt =====
-- The table of sessions of server.rs, which has one session for an address.
use atemproxy.Prelude.{
  ◌≡◌, refl, ◌∙◌, inl, inr, ◌⊎◌, arith, Bool-cases, ==_iff, ℕ, false, ◌-◌, none, some, List, [],
  ◌∷◌, ◌==◌, map, ltb, subst,
}
use atemproxy.Protocol.Reliable.{Millis}
use atemproxy.Protocol.Outbound.{poll_outbound}
use atemproxy.Proxy.Net.{SocketAddr, get, put, get-put}
use atemproxy.Proxy.Server.{ClientSession, with_rel, poll_sessions}

abbrev pub Sessions : Type 0
Sessions = List (SocketAddr × ClientSession)

abbrev pub IsKeyed : Sessions → Type 0
IsKeyed [] = Unit
IsKeyed ((a, s) ∷ m) = (get a m ≡ none) × IsKeyed m

pub put-IsKeyed :
    (addr : SocketAddr) (s : ClientSession) (m : Sessions) → IsKeyed m → IsKeyed (put addr s m)
unfolding get put
put-IsKeyed addr s [] h = (refl, tt)
put-IsKeyed addr s ((a, x) ∷ m) h = elim (Bool-cases (a == addr)) [
  | inl e ↦ rw e h
  | inr e ↦ rw e (get-put a addr s m ∙ rw (flipped a addr e) h.0, put-IsKeyed addr s m h.1)
]
  where
    flipped : (a b : ℕ) → (a == b) ≡ false → (b == a) ≡ false
    flipped a b e = ground arith

get-map-none :
    (f : ClientSession → ClientSession) (addr : SocketAddr) (m : Sessions)
    → get addr m ≡ none
    → get addr (map (λ e. (e.0, f e.1)) m) ≡ none
unfolding get
get-map-none f addr [] e = refl
get-map-none f addr ((a, s) ∷ m) e = elim (Bool-cases (a == addr)) [
  | inl k ↦ let found : some s ≡ none = rw k at e in absurd (cc)
  | inr k ↦ rw k (get-map-none f addr m (rw k at e))
]

pub map-IsKeyed :
    (f : ClientSession → ClientSession) (m : Sessions)
    → IsKeyed m
    → IsKeyed (map (λ e. (e.0, f e.1)) m)
map-IsKeyed f [] h = tt
map-IsKeyed f ((a, s) ∷ m) h = (get-map-none f a m h.0, map-IsKeyed f m h.1)

-- What becomes of a session in a pass of the timer.
abbrev pub Polled : Millis → Millis → Sessions → Sessions → SocketAddr → Type 0
Polled now clock m m' addr =
    (get addr m' ≡ none)
    ⊎ ((s : ClientSession) × (get addr m ≡ some s)
        × (get addr m' ≡ some (with_rel (poll_outbound now clock s.rel).0 s)))

poll_sessions-none :
    (idle : ℕ) (now clock : Millis) (addr : SocketAddr) (m : Sessions)
    → get addr m ≡ none
    → get addr (poll_sessions idle now clock m).0 ≡ none
unfolding get poll_sessions
poll_sessions-none idle now clock addr [] e = refl
poll_sessions-none idle now clock addr ((a, s) ∷ m) e = elim (Bool-cases (a == addr)) [
  | inl k ↦ let found : some s ≡ none = rw k at e in absurd (cc)
  | inr k ↦
      let rest = poll_sessions-none idle now clock addr m (rw k at e) in
      elim (Bool-cases (ltb idle (now - s.rel.last_recv_at))) [
        | inl d ↦ rw d rest
        | inr d ↦ rw d (rw k rest)
      ]
]

pub poll_sessions-IsKeyed :
    (idle : ℕ) (now clock : Millis) (m : Sessions)
    → IsKeyed m
    → IsKeyed (poll_sessions idle now clock m).0
unfolding poll_sessions
poll_sessions-IsKeyed idle now clock [] h = tt
poll_sessions-IsKeyed idle now clock ((a, s) ∷ m) h =
    let rest = poll_sessions-IsKeyed idle now clock m h.1 in
    elim (Bool-cases (ltb idle (now - s.rel.last_recv_at))) [
      | inl d ↦ rw d rest
      | inr d ↦ rw d (poll_sessions-none idle now clock a m h.0, rest)
    ]

pub poll_sessions-Polled :
    (idle : ℕ) (now clock : Millis) (addr : SocketAddr) (m : Sessions)
    → IsKeyed m
    → Polled now clock m (poll_sessions idle now clock m).0 addr
unfolding get poll_sessions
poll_sessions-Polled idle now clock addr [] h = inl refl
poll_sessions-Polled idle now clock addr ((a, s) ∷ m) h = elim (Bool-cases (a == addr)) [
  | inl k ↦ elim (Bool-cases (ltb idle (now - s.rel.last_recv_at))) [
    | inl d ↦ rw d (
        inl (
          poll_sessions-none idle now clock addr m
            (subst (λ b. get b m ≡ none) ((==_iff a addr).0 k) h.0)))
    | inr d ↦ rw d (rw k (inr (s, refl, refl)))
  ]
  | inr k ↦
      let rest = poll_sessions-Polled idle now clock addr m h.1 in
      elim (Bool-cases (ltb idle (now - s.rel.last_recv_at))) [
        | inl d ↦ rw d (rw k rest)
        | inr d ↦ rw d (rw k rest)
      ]
]
