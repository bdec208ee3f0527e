-- ===== src/Proxy/Mdns/Waiting.antt =====
-- The loop of spawn_mdns_announcer in mdns.rs.
use atemproxy.Prelude.{
  ℕ, zero, suc, ◌+◌, ◌<◌, ◌≡◌, sym, subst, true, false, ◌&&◌, ◌⊎◌, Option, none, some, arith,
}
use atemproxy.Prelude.Text.{Text}
use atemproxy.Proxy.Mdns.{Reading, informs}

-- A round that neither ends the task nor says what the switcher is.
abbrev pub Quiet : Reading → Type 0
Quiet r = (r.is_cancelled ≡ false) × ((r.is_ready && informs r) ≡ false)

abbrev pub Answers : Reading → Type 0
Answers r = (r.is_cancelled ≡ false) × ((r.is_ready && informs r) ≡ true)

-- A round that is the first with `P`, among `n` from the round `i` on.
pub record First (P : Reading → Type 0) (n i : ℕ) (at : ℕ → Reading) : Type 0 where
  pub round : ℕ
  pub in_time : round < n
  pub before : (j : ℕ) → j < round → Quiet (at (j + i))
  pub here : P (at (round + i))

abbrev pub AllQuiet : ℕ → ℕ → (ℕ → Reading) → Type 0
AllQuiet n i at = (j : ℕ) → j < n → Quiet (at (j + i))

from_start : (i : ℕ) → 0 + i ≡ i
from_start i = omega arith

shift : (j i : ℕ) → suc j + i ≡ j + suc i
shift j i = omega arith

all_before :
    (k i : ℕ) (at : ℕ → Reading) → Quiet (at i) → AllQuiet k (suc i) at → AllQuiet (suc k) i at
all_before k i at q h zero l = subst (λ m. Quiet (at m)) (sym (from_start i)) q
all_before k i at q h (suc j) l = subst (λ m. Quiet (at m)) (sym (shift j i)) (h j (omega arith))

later-First :
    {P : Reading → Type 0} (n i : ℕ) (at : ℕ → Reading)
    → Quiet (at i)
    → First P n (suc i) at
    → First P (suc n) i at
later-First {P} n i at q f = record {
  round = suc f.round;
  in_time = omega (arith, f.in_time);
  before = all_before f.round i at q f.before;
  here = subst (λ m. P (at m)) (sym (shift f.round i)) f.here;
}

at_once : {P : Reading → Type 0} (n i : ℕ) (at : ℕ → Reading) → P (at i) → First P (suc n) i at
at_once {P} n i at h = record {
  round = 0;
  in_time = omega arith;
  before = λ j l. absurd (omega arith);
  here = subst (λ m. P (at m)) (sym (from_start i)) h;
}

abbrev pub IsStopped : Reading → Type 0
IsStopped r = r.is_cancelled ≡ true

-- The three ways in which the loop ends, by the round that decides.
abbrev pub Waited : ℕ → ℕ → (ℕ → Reading) → Option (Option Text × Option (ℕ × ℕ)) → Type 0
Waited n i at result =
    (First IsStopped n i at × (result ≡ none))
    ⊎ (((f : First Answers n i at) × (result
            ≡ some ((at (f.round + i)).product, (at (f.round + i)).version)))
        ⊎ (AllQuiet n i at × (result ≡ some (none, none))))
