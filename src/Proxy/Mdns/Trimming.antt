-- ===== src/Proxy/Mdns/Trimming.antt =====
-- `trim` and `trim_matches`, which mdns.rs calls.
use atemproxy.Prelude.{
  ℕ, ◌≡◌, refl, ap, sym, ◌∙◌, Bool, false, ◌&&◌, inl, inr, some, [], ◌∷◌, ◌++◌, is_empty, last?,
  Bool-cases,
}
use atemproxy.Prelude.Text.{Text, trim_start, trim_end, trim_matches}

-- A part of a text, and what is cut off before and behind it.
pub record IsPart (part s : Text) : Type 0 where
  pub front : Text
  pub back : Text
  pub whole : front ++ (part ++ back) ≡ s

trim_start-suffix : (p : ℕ → Bool) (s : Text) → (front : Text) × (front ++ trim_start p s ≡ s)
unfolding trim_start
trim_start-suffix p [] = ([], refl)
trim_start-suffix p (c ∷ cs) = elim (Bool-cases (p c)) [
  | inl e ↦ let (front, h) = trim_start-suffix p cs in (c ∷ front, rw e (ap (◌∷◌ c) h))
  | inr e ↦ ([], rw e refl)
]

trim_end-prefix : (p : ℕ → Bool) (s : Text) → (back : Text) × (trim_end p s ++ back ≡ s)
unfolding trim_end
trim_end-prefix p [] = ([], refl)
trim_end-prefix p (c ∷ cs) = elim (Bool-cases (is_empty (trim_end p cs) && p c)) [
  | inl e ↦ (c ∷ cs, rw e refl)
  | inr e ↦ let (back, h) = trim_end-prefix p cs in (back, rw e (ap (◌∷◌ c) h))
]

pub trim_matches-IsPart : (p : ℕ → Bool) (s : Text) → IsPart (trim_matches p s) s
trim_matches-IsPart p s =
    let (front, h) = trim_start-suffix p s in
    let (back, k) = trim_end-prefix p (trim_start p s) in
    record { front = front; back = back; whole = ap (◌++◌ front) k ∙ h }

trim_start-head :
    (p : ℕ → Bool) (s : Text) (c : ℕ) (r : Text) → trim_start p s ≡ c ∷ r → p c ≡ false
unfolding trim_start
trim_start-head p [] c r h = absurd (cc)
trim_start-head p (x ∷ s) c r h = elim (Bool-cases (p x)) [
  | inl e ↦ trim_start-head p s c r (rw e at h)
  | inr e ↦ let same : x ∷ s ≡ c ∷ r = rw e at h in cc
]

last_kept :
    (p : ℕ → Bool) (x c : ℕ) (rest : Text)
    → (is_empty rest && p x) ≡ false
    → last? (x ∷ rest) ≡ some c
    → (last? rest ≡ some c → p c ≡ false)
    → p c ≡ false
last_kept p x c [] e h ih = cc
last_kept p x c (y ∷ rest) e h ih = ih h

-- The ends of what is left do not match.
pub trim_end-last : (p : ℕ → Bool) (s : Text) (c : ℕ) → last? (trim_end p s) ≡ some c → p c ≡ false
unfolding trim_end
trim_end-last p [] c h = absurd (cc)
trim_end-last p (x ∷ s) c h = elim (Bool-cases (is_empty (trim_end p s) && p x)) [
  | inl e ↦ let none_left : last? {A = ℕ} [] ≡ some c = rw e at h in absurd (cc)
  | inr e ↦ last_kept p x c (trim_end p s) e (rw e at h) (trim_end-last p s c)
]

pub trim_matches-head :
    (p : ℕ → Bool) (s : Text) (c : ℕ) (r : Text) → trim_matches p s ≡ c ∷ r → p c ≡ false
trim_matches-head p s c r h =
    let (back, k) = trim_end-prefix p (trim_start p s) in
    trim_start-head p s c (r ++ back) (sym k ∙ ap (λ t. t ++ back) h)
