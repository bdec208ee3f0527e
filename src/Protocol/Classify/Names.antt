-- ===== src/Protocol/Classify/Names.antt =====
-- The tests of command names in command.rs, and command_identity.
use atemproxy.Prelude.{
  ℕ, ◌≤◌, ◌<◌, ◌≡◌, refl, subst, sym, ◌↔◌, inl, inr, Bool, true, false, ◌||◌, ◌&&◌, none, some,
  List, [], ◌∷◌, arith, length, take, any, take-take, length-take, or-true, Bool-cases,
  Option-cases,
}
use atemproxy.Prelude.Utf8.{Pending, chars_from, from_utf8, ready, next, emit}
use atemproxy.Protocol.Error.{ok, err, bad_command_name, Result-cases}
use atemproxy.Protocol.Command.{CommandName, command_name, name_bytes, name_eq, as_str}
use atemproxy.Protocol.Classify.{
  one_of, str_and, command_identity, starts_with, contains, lock, send_levels, levels, enable_word,
  audio_names, is_lock_command, is_lock_request, is_lock_status, is_transfer_command,
  is_ephemeral_command, is_audio_levels_subscribe,
}

abbrev plck : CommandName
plck = command_name b'P' b'L' b'C' b'K'

-- Only a lock command.
abbrev Alone : CommandName → Type 0
Alone name =
    (is_lock_command name ≡ true)
    × (is_lock_status name ≡ false)
    × (is_transfer_command name ≡ false)
    × (is_audio_levels_subscribe name ≡ false)
    × (is_ephemeral_command name ≡ false)

or-false : (b : Bool) → (b || false) ≡ b
or-false true = refl
or-false false = refl

pub name_eq_iff : (n m : CommandName) → (name_eq n m ≡ true) ↔ (n ≡ m)
unfolding name_eq
name_eq_iff n m = ground arith

-- A fact about each name of a list holds of every name that is found in it.
pub one_of-elim {ℓ} :
    (P : CommandName → Type ℓ) (n m : CommandName) (names : List CommandName)
    → one_of n (m ∷ names) ≡ true
    → P m
    → (one_of n names ≡ true → P n)
    → P n
unfolding one_of
one_of-elim P n m names e h rest = elim (or-true (name_eq n m) (any (name_eq n) names) e) [
  | inl here ↦ subst P (sym ((name_eq_iff n m).0 here)) h
  | inr later ↦ rest later
]

pub one_of-nil : (n : CommandName) → one_of n [] ≡ true → ⊥
unfolding one_of
one_of-nil n e = cc

take_four :
    (k : ℕ) (body : List ℕ)
    → k ≤ 4
    → (take k (take 4 body) ≡ take k body) × (length (take k body) ≤ 4)
take_four k body h = (take-take k 4 body h, omega (arith, length-take k body))

-- An identity has at most four bytes, and depends on the first four bytes of the body alone.
pub command_identity-take :
    (name : CommandName) (body : List ℕ)
    → (command_identity name (take 4 body) ≡ command_identity name body)
      × (length (command_identity name body) ≤ 4)
unfolding command_identity
command_identity-take name body =
    ground (arith, take_four 1 body (omega arith), take_four 4 body (omega arith))

chars_from-length : (p : Pending) (bs s : List ℕ) → chars_from p bs ≡ some s → length s ≤ length bs
unfolding chars_from
chars_from-length p [] s e = ground arith
chars_from-length p (b ∷ bs) s e = elim (Option-cases (next p b)) [
  | inl n ↦ let f : none ≡ some s = rw (n, chars_from) at e in cc
  | inr (q, n) ↦ elim (Option-cases (chars_from q bs)) [
    | inl m ↦ let f : none ≡ some s = rw (m) at (rw (n, chars_from) at e) in cc
    | inr (t, m) ↦
        let f : some (emit q t) ≡ some s = rw (m) at (rw (n, chars_from) at e) in
        ground (arith, chars_from-length q bs t m)
  ]
]

as_str-length : (name : CommandName) (s : List ℕ) → as_str name ≡ ok s → length s ≤ 4
unfolding as_str
as_str-length name s e = elim (Option-cases (from_utf8 (name_bytes name))) [
  | inl n ↦ let f : err bad_command_name ≡ ok s = rw (n, as_str) at e in cc
  | inr (t, n) ↦
      let f : ok t ≡ ok s = rw (n, as_str) at e in
      ground (arith, chars_from-length ready (name_bytes name) t n)
]

starts_with-length : (p s : List ℕ) → starts_with p s ≡ true → length p ≤ length s
unfolding starts_with
starts_with-length [] s e = omega arith
starts_with-length (x ∷ p) [] e = cc
starts_with-length (x ∷ p) (y ∷ s) e = ground (arith, starts_with-length p s)

contains-length : (p s : List ℕ) → contains p s ≡ true → length p ≤ length s
unfolding contains
contains-length [] s e = omega arith
contains-length (x ∷ p) [] e = cc
contains-length (x ∷ p) (y ∷ s) e =
    ground (arith, starts_with-length (x ∷ p) (y ∷ s), contains-length (x ∷ p) s)

-- A name has four bytes, so it contains no longer word.
contains-long : (p s : List ℕ) → length s ≤ 4 → 4 < length p → contains p s ≡ false
contains-long p s h k = elim (Bool-cases (contains p s)) [
  | inl e ↦ absurd (omega (arith, contains-length p s e))
  | inr e ↦ e
]

str_and-eq-false :
    (name : CommandName) (test : List ℕ → Bool)
    → ((s : List ℕ) → as_str name ≡ ok s → test s ≡ false)
    → str_and name test ≡ false
unfolding str_and
str_and-eq-false name test h = elim (Result-cases (as_str name)) [
  | inl (s, e) ↦ rw (e, str_and) (h s e)
  | inr (x, e) ↦ rw (e, str_and)
]

-- The tests for `SendLevels` and for `Levels` with `Enable` never pass: a name has four bytes. So
-- the subscription commands are the three listed names.
pub is_audio_levels_subscribe_lem :
    (name : CommandName) → is_audio_levels_subscribe name ≡ one_of name audio_names
unfolding is_audio_levels_subscribe
is_audio_levels_subscribe_lem name = rw (str_and-eq-false name _ never) (or-false _)
  where
    never :
        (s : List ℕ)
        → as_str name ≡ ok s
        → (contains send_levels s || contains levels s && contains enable_word s) ≡ false
    never s e = rw (
      contains-long send_levels s (as_str-length name s e) (omega arith),
      contains-long levels s (as_str-length name s e) (omega arith),
    )

-- A lock request is a lock command, and neither a lock status nor a transfer nor a subscription
-- nor ephemeral.
pub is_lock_request_alone :
    (name : CommandName)
    → is_lock_request name ≡ true
    → (is_lock_command name ≡ true)
      × (is_lock_status name ≡ false)
      × (is_transfer_command name ≡ false)
      × (is_audio_levels_subscribe name ≡ false)
      × (is_ephemeral_command name ≡ false)
unfolding is_lock_request is_lock_command is_lock_status is_transfer_command
    is_audio_levels_subscribe is_ephemeral_command one_of name_eq as_str chars_from next starts_with
    contains str_and
is_lock_request_alone name e =
    one_of-elim Alone name lock (plck ∷ []) e (refl, refl, refl, refl, refl)
      (λ e₁.
        one_of-elim Alone name plck [] e₁ (refl, refl, refl, refl, refl)
          (λ e₂. absurd (one_of-nil name e₂)))
