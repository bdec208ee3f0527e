-- ===== src/Protocol/Error.antt =====
-- crates/atem-protocol/src/error.rs, and the `Result` that carries its errors.
use atemproxy.Prelude.{ℕ, ◌≡◌, refl, ◌⊎◌, inl, inr}

pub data ProtocolError : Type 0 where
  too_short : ℕ → ProtocolError
  length_mismatch : ℕ → ℕ → ProtocolError
  bad_command : ℕ → ProtocolError
  bad_command_name : ProtocolError

pub data Result {ℓ} (A : Type ℓ) : Type ℓ where
  ok : A → Result A
  err : ProtocolError → Result A

-- The `?` operator.
infixl 5 ◌>>=◌
abbrev pub ◌>>=◌ {ℓ κ} : {A : Type ℓ} {B : Type κ} → Result A → (A → Result B) → Result B
ok a >>= f = f a
err e >>= f = err e

pub Result-cases {ℓ} :
    {A : Type ℓ} (r : Result A) → ((a : A) × (r ≡ ok a)) ⊎ ((e : ProtocolError) × (r ≡ err e))
Result-cases (ok a) = inl (a, refl)
Result-cases (err e) = inr (e, refl)

-- A bind that succeeds has two steps that succeed.
pub bind-eq-ok {ℓ κ} :
    {S : Type ℓ} {T : Type κ} (r : Result S) (next : S → Result T) {t : T}
    → (r >>= next) ≡ ok t
    → (s : S) × (r ≡ ok s) × (next s ≡ ok t)
bind-eq-ok (err e) next h = cc
bind-eq-ok (ok s) next h = (s, refl, h)

pub ok-injective {ℓ} : {A : Type ℓ} {a b : A} → ok a ≡ ok b → a ≡ b
ok-injective h = cc
