-- ===== src/Proxy/Server/Pacing.antt =====
-- The loop of server.rs that sends a tick's packets: those for the client that uploads are spaced out.
-- Each pause lets other tasks run, so that the lane is read anew before every packet.
use atemproxy.Prelude.{
  ◌≡◌, refl, inl, inr, arith, ap, Bool-cases, ℕ, ◌+◌, ◌*◌, Bool, false, ◌&&◌, List, [], ◌∷◌, ltb,
  length, if◌then◌else◌,
}
use atemproxy.Proxy.Net.{is_addr}
use atemproxy.Proxy.Config.{MediaConfig}
use atemproxy.Proxy.Transfer.{Lane, current_owner}
use atemproxy.Proxy.Server.{Effect, send_to, to_upstream}

pub data Paced : Type 0 where
  sleep : ℕ → Paced
  perform : Effect → Paced

-- The `if` of the loop.
unfoldable pub is_paced : MediaConfig → Lane → Effect → Bool
is_paced media lane (send_to addr pkt) =
    ltb 0 media.chunk_delay_ms && is_addr (current_owner lane) addr && ltb 12 (length pkt)
is_paced media lane (to_upstream cmd) = false

-- `lanes n` is the lane when the loop comes to the packet of number `n`.
unfoldable pub pace : MediaConfig → (ℕ → Lane) → ℕ → List Effect → List Paced
pace media lanes n [] = []
pace media lanes n (e ∷ es) =
    let rest = perform e ∷ pace media lanes (n + 1) es in
    if is_paced media (lanes n) e then sleep media.chunk_delay_ms ∷ rest else rest

unfoldable performed : List Paced → List Effect
performed [] = []
performed (sleep d ∷ ps) = performed ps
performed (perform e ∷ ps) = e ∷ performed ps

unfoldable slept : List Paced → ℕ
slept [] = 0
slept (sleep d ∷ ps) = d + slept ps
slept (perform e ∷ ps) = slept ps

unfoldable pauses : MediaConfig → (ℕ → Lane) → ℕ → List Effect → ℕ
pauses media lanes n [] = 0
pauses media lanes n (e ∷ es) =
    let rest = pauses media lanes (n + 1) es in
    if is_paced media (lanes n) e then rest + 1 else rest

-- Spacing the packets out neither drops nor reorders any.
performed-pace :
    (media : MediaConfig) (lanes : ℕ → Lane) (n : ℕ) (es : List Effect)
    → performed (pace media lanes n es) ≡ es
unfolding performed pace
performed-pace media lanes n [] = refl
performed-pace media lanes n (e ∷ es) = elim (Bool-cases (is_paced media (lanes n) e)) [
  | inl h ↦ rw h (ap (λ l. e ∷ l) (performed-pace media lanes (n + 1) es))
  | inr h ↦ rw h (ap (λ l. e ∷ l) (performed-pace media lanes (n + 1) es))
]

-- The loop waits the configured delay once for every packet that is spaced out, and no longer.
slept-pace :
    (media : MediaConfig) (lanes : ℕ → Lane) (n : ℕ) (es : List Effect)
    → slept (pace media lanes n es) ≡ pauses media lanes n es * media.chunk_delay_ms
unfolding slept pace pauses
slept-pace media lanes n [] = omega arith
slept-pace media lanes n (e ∷ es) =
    let ih = slept-pace media lanes (n + 1) es in
    elim (Bool-cases (is_paced media (lanes n) e)) [ inl h ↦ rw h (grind arith) | inr h ↦ rw h ih ]
