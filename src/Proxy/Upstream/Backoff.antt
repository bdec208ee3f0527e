-- ===== src/Proxy/Upstream/Backoff.antt =====
-- The value of `backoff`, the wait between sessions, in spawn_upstream of upstream.rs.
use atemproxy.Prelude.{
  ◌≡◌, ap, ◌∙◌, arith, ℕ, ◌≤◌, ◌*◌, ◌^◌, zero, suc, Bool, true, false, List, [], ◌∷◌, min,
}
use atemproxy.Proxy.Upstream.{next_backoff, base_backoff, backoff_after}

-- `n` rounds that fail.
abbrev pub failures : ℕ → List Bool → List Bool
failures zero rounds = rounds
failures (suc n) rounds = false ∷ failures n rounds

-- Whatever the rounds, `backoff` is 200 ms at least and 30 s at most, if `reconnect_ms` is at most
-- 30 s.
pub backoff_after-bounds :
    (reconnect_ms : ℕ) (rounds : List Bool)
    → reconnect_ms ≤ 30000
    → (200 ≤ backoff_after (base_backoff reconnect_ms) rounds)
      × (backoff_after (base_backoff reconnect_ms) rounds ≤ 30000)
unfolding backoff_after next_backoff
backoff_after-bounds reconnect_ms [] h = ground arith
backoff_after-bounds reconnect_ms (r ∷ rounds) h =
    ground (arith, backoff_after-bounds reconnect_ms rounds h)

pow-step : (b n : ℕ) → b * 2 ^ suc n ≡ b * 2 ^ n * 2
pow-step b n = grind arith

cap-double : (x y : ℕ) → y ≡ x * 2 → min (min x 30000 * 2) 30000 ≡ min y 30000
cap-double x y e = ground arith

failures-cap :
    (n base : ℕ) (rounds : List Bool)
    → base ≤ 30000
    → backoff_after base (failures n (true ∷ rounds)) ≡ min (base * 2 ^ n) 30000
unfolding backoff_after next_backoff
failures-cap zero base rounds h = ground arith
failures-cap (suc n) base rounds h =
    ap (λ w. min (w * 2) 30000) (failures-cap n base rounds h)
    ∙ cap-double (base * 2 ^ n) (base * 2 ^ suc n) (pow-step base n)

-- After a round whose session became ready and `n` whose sessions did not, `backoff` is `2 ^ n`
-- times the base, or 30 s if that is less. `reconnect_ms` is at most 30 s.
pub backoff_after-failures :
    (n reconnect_ms : ℕ) (rounds : List Bool)
    → reconnect_ms ≤ 30000
    → backoff_after (base_backoff reconnect_ms) (failures n (true ∷ rounds))
      ≡ min (base_backoff reconnect_ms * 2 ^ n) 30000
backoff_after-failures n reconnect_ms rounds h =
    failures-cap n (base_backoff reconnect_ms) rounds (ground arith)
