-- ===== src/Proxy/Mdns/Instance.antt =====
-- sanitize_instance_name of mdns.rs.
use atemproxy.Prelude.{
  ℕ, suc, ◌+◌, ◌≤◌, ◌≡◌, ◌≢◌, take, refl, ap, sym, subst, true, false, not, ◌&&◌, ◌||◌, ◌⊎◌, inl,
  inr, some, [], ◌∷◌, ◌++◌, leb, ◌==◌, is_empty, arith, All, All-append, last?, Bool-cases, length,
  length-append,
}
use atemproxy.Prelude.Utf8.{is_control, is_whitespace}
use atemproxy.Prelude.Text.{Text, codes, trim_start, trim_matches}
use atemproxy.Proxy.Mdns.Trimming.{trim_matches-IsPart, trim_matches-head, trim_end-last}
use atemproxy.Proxy.Mdns.{
  is_ascii_alphanumeric, dash, is_dash, Sanitized, push_dash, sanitize_char, sanitize_chars,
  sanitize_instance_name,
}

-- ASCII letters, digits, spaces and dashes.
abbrev pub Allowed : ℕ → Type 0
Allowed c = (is_ascii_alphanumeric c || c == b' ' || c == dash) ≡ true

-- No two dashes in a row.
abbrev pub NoRun : Text → Type 0
NoRun [] = Unit {0}
NoRun (c ∷ []) = Unit {0}
NoRun (c ∷ d ∷ s) = ((c ≡ dash) → (d ≡ dash) → ⊥) × NoRun (d ∷ s)

last?-next : (s : Text) (c : ℕ) → last? (s ++ c ∷ []) ≡ some c
last?-next [] c = refl
last?-next (x ∷ []) c = refl
last?-next (x ∷ y ∷ s) c = last?-next (y ∷ s) c

NoRun-next :
    (s : Text) (c : ℕ) → NoRun s → (last? s ≡ some dash → c ≡ dash → ⊥) → NoRun (s ++ c ∷ [])
NoRun-next [] c h k = tt
NoRun-next (x ∷ []) c h k = ((λ e. k (ap some e)), tt)
NoRun-next (x ∷ y ∷ s) c h k = (h.0, NoRun-next (y ∷ s) c h.1 k)

-- What the loop keeps.
record IsBuilt (st : Sanitized) : Type 0 where
  allowed : All Allowed st.s
  no_run : NoRun st.s
  dash_last : last? st.s ≡ some dash → st.prev_dash ≡ true

kept_char :
    (c : ℕ) (st : Sanitized)
    → (is_ascii_alphanumeric c || c == b' ') ≡ true
    → IsBuilt st
    → IsBuilt (record { s = st.s ++ c ∷ []; prev_dash = false })
kept_char c st e w =
    let other : (c ≡ dash) → ⊥ = λ d. ground arith in
    record {
      allowed = All-append Allowed st.s (c ∷ []) w.allowed (ground arith, tt);
      no_run = NoRun-next st.s c w.no_run (λ l d. other d);
      dash_last = λ l. absurd (other (cc (l, last?-next st.s c)));
    }

push_dash-IsBuilt : (st : Sanitized) → IsBuilt st → IsBuilt (push_dash st)
push_dash-IsBuilt st w = elim (Bool-cases (not st.prev_dash && not (is_empty st.s))) [
  | inl e ↦ rw e (record {
    allowed = All-append Allowed st.s (dash ∷ []) w.allowed (refl, tt);
    no_run = NoRun-next st.s dash w.no_run (λ l d. absurd (ground (arith, w.dash_last l)));
    dash_last = λ l. refl;
  })
  | inr e ↦ rw e w
]

sanitize_char-IsBuilt : (c : ℕ) (st : Sanitized) → IsBuilt st → IsBuilt (sanitize_char c st)
unfolding sanitize_char
sanitize_char-IsBuilt c st w = elim (Bool-cases (is_ascii_alphanumeric c || c == b' ')) [
  | inl e ↦ rw e (kept_char c st e w)
  | inr e ↦ elim (Bool-cases (c == dash || is_control c || leb 0x80 c)) [
    | inl k ↦ rw (e, k) (push_dash-IsBuilt st w)
    | inr k ↦ rw (e, k) (push_dash-IsBuilt st w)
  ]
]

sanitize_chars-IsBuilt : (cs : Text) (st : Sanitized) → IsBuilt st → IsBuilt (sanitize_chars cs st)
unfolding sanitize_chars
sanitize_chars-IsBuilt [] st w = w
sanitize_chars-IsBuilt (c ∷ cs) st w =
    sanitize_chars-IsBuilt cs (sanitize_char c st) (sanitize_char-IsBuilt c st w)

NoRun-part : (front part back : Text) → NoRun (front ++ (part ++ back)) → NoRun part
NoRun-part [] part back h = NoRun-front part back h
  where
    NoRun-front : (part back : Text) → NoRun (part ++ back) → NoRun part
    NoRun-front [] back h = tt
    NoRun-front (x ∷ []) back h = tt
    NoRun-front (x ∷ y ∷ part) back h = (h.0, NoRun-front (y ∷ part) back h.1)
NoRun-part (c ∷ front) part back h =
    NoRun-part front part back (NoRun-rest c (front ++ (part ++ back)) h)
  where
    NoRun-rest : (c : ℕ) (s : Text) → NoRun (c ∷ s) → NoRun s
    NoRun-rest c [] h = tt
    NoRun-rest c (d ∷ s) h = h.1

All-part : (P : ℕ → Type 0) (front part back : Text) → All P (front ++ (part ++ back)) → All P part
All-part P [] part back h = All-front part back h
  where
    All-front : (part back : Text) → All P (part ++ back) → All P part
    All-front [] back h = tt
    All-front (x ∷ part) back h = (h.0, All-front part back h.1)
All-part P (c ∷ front) part back h = All-part P front part back h.1

sanitize_chars-length :
    (cs : Text) (st : Sanitized) → length (sanitize_chars cs st).s ≤ length st.s + length cs
unfolding sanitize_chars sanitize_char
sanitize_chars-length [] st = omega arith
sanitize_chars-length (c ∷ cs) st =
    omega (arith, sanitize_chars-length cs (sanitize_char c st), char_length)
  where
    char_length : length (sanitize_char c st).s ≤ suc (length st.s)
    char_length = ground (arith, length-append st.s (c ∷ []), length-append st.s (dash ∷ []))

-- What the announced name is made of.
pub record IsInstance (name s : Text) : Type 0 where
  pub allowed : All Allowed s
  pub no_run : NoRun s
  pub no_dash_first : take 1 s ≢ dash ∷ []
  pub no_dash_last : last? s ≢ some dash
  pub not_longer : length s ≤ length name

abbrev scanned : Text → Text
scanned name = (sanitize_chars name (record { s = []; prev_dash = false })).s

abbrev trimmed : Text → Text
trimmed name = trim_matches is_dash (trim_matches is_whitespace (scanned name))

no_dash_at_front :
    (s : Text) → ((c : ℕ) (rest : Text) → s ≡ c ∷ rest → is_dash c ≡ false) → take 1 s ≢ dash ∷ []
no_dash_at_front [] h e = cc
no_dash_at_front (c ∷ s) h e = cc (h c s refl, e)

trimmed-IsInstance : (name : Text) → IsInstance name (trimmed name)
trimmed-IsInstance name =
    let start : Sanitized = record { s = []; prev_dash = false } in
    let built =
      sanitize_chars-IsBuilt name start
        (record { allowed = tt; no_run = tt; dash_last = λ l. absurd (cc) }) in
    let inner = trim_matches-IsPart is_whitespace (scanned name) in
    let outer = trim_matches-IsPart is_dash (trim_matches is_whitespace (scanned name)) in
    let within = trim_matches is_whitespace (scanned name) in
    record {
      allowed = All-part Allowed outer.front (trimmed name) outer.back (
          subst (All Allowed) (sym outer.whole) (
            All-part Allowed inner.front within inner.back
              (subst (All Allowed) (sym inner.whole) built.allowed)));
      no_run = NoRun-part outer.front (trimmed name) outer.back (
          subst NoRun (sym outer.whole) (
            NoRun-part inner.front within inner.back (subst NoRun (sym inner.whole) built.no_run)));
      no_dash_first = no_dash_at_front (trimmed name) (trim_matches-head is_dash within);
      no_dash_last = λ e. cc (trim_end-last is_dash (trim_start is_dash within) dash e);
      not_longer = omega (
        arith,
        sanitize_chars-length name start,
        part_length inner.front within inner.back (scanned name) inner.whole,
        part_length outer.front (trimmed name) outer.back within outer.whole,
      );
    }
  where
    part_length : (front part back s : Text) → front ++ (part ++ back) ≡ s → length part ≤ length s
    part_length front part back s e =
        omega (arith, length-append front (part ++ back), length-append part back, ap length e)

-- The name announced for a product is "ATEM-Proxy", or " (Proxy)" after one or more ASCII letters,
-- digits, spaces and dashes, at most as many as the product's name has characters, with no two dashes
-- in a row and no dash at either end.
pub sanitize_instance_name-IsInstance :
    (name : Text)
    → (sanitize_instance_name name ≡ codes "ATEM-Proxy")
      ⊎ ((s : Text) × IsInstance name s
          × (is_empty s ≡ false)
          × (sanitize_instance_name name ≡ s ++ codes " (Proxy)"))
unfolding sanitize_instance_name
sanitize_instance_name-IsInstance name = elim (Bool-cases (is_empty (trimmed name))) [
  | inl e ↦ inl (rw e refl)
  | inr e ↦ inr (trimmed name, trimmed-IsInstance name, e, rw e refl)
]
