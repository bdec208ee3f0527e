-- ===== src/Protocol/Command/Product.antt =====
-- parse_product_name of command.rs: the padding of a `_pin` body.
use atemproxy.Prelude.{
  ℕ, ◌≤◌, ◌<◌, ◌≡◌, ◌≢◌, refl, true, false, ◌&&◌, none, some, List, [], ◌∷◌, ◌++◌, arith, subst,
  ◌⊎◌, inl, inr, All, last?, is_empty, Option-cases, Bool-cases, ltb, if◌then◌else◌,
}
use atemproxy.Prelude.Utf8.{next, chars_from, from_utf8, ready, is_control, is_whitespace}
use atemproxy.Protocol.Command.{until_nul, trim_end, is_padding, non_empty, parse_product_name}

-- A printable ASCII character or a space.
abbrev pub IsPrintable : ℕ → Type 0
IsPrintable c = (0x20 ≤ c) × (c < 0x7f)

-- Whatever character was the last one.
chars_from-ascii :
    (x : ℕ) (s : List ℕ) → All IsPrintable s → chars_from (record ready { bits = x }) s ≡ some s
unfolding chars_from next
chars_from-ascii x [] v = refl
chars_from-ascii x (c ∷ s) v =
    let low : ltb c 0x80 ≡ true = ground arith in
    rw (low, chars_from) (rw (chars_from-ascii c s v.1) refl)

until_nul-append : (s junk : List ℕ) → All IsPrintable s → until_nul (s ++ 0 ∷ junk) ≡ s
unfolding until_nul
until_nul-append [] junk v = refl
until_nul-append (c ∷ s) junk v = ground (arith, until_nul-append s junk v.1)

trim_end_done : (s : List ℕ) (c : ℕ) → last? s ≡ some c → is_padding c ≡ false → trim_end s ≡ s
unfolding trim_end
trim_end_done [] c l p = cc
trim_end_done (x ∷ []) c l p = ground arith
trim_end_done (x ∷ y ∷ s) c l p = ground (arith, trim_end_done (y ∷ s) c l p)

-- The end of a text that is not padding.
abbrev EndsWell : List ℕ → Type 0
EndsWell s = (c : ℕ) × (last? s ≡ some c) × (is_padding c ≡ false)

trim_step :
    (x : ℕ) (r : List ℕ)
    → (r ≡ []) ⊎ EndsWell r
    → ((if is_empty r && is_padding x then [] else x ∷ r) ≡ [])
      ⊎ EndsWell (if is_empty r && is_padding x then [] else x ∷ r)
trim_step x [] h = elim (Bool-cases (is_padding x)) [
  | inl p ↦ inl (rw p)
  | inr p ↦ rw p (inr (x, refl, p))
]
trim_step x (y ∷ r) (inl e) = absurd (ground arith)
trim_step x (y ∷ r) (inr w) = inr w

trim_end-EndsWell : (s : List ℕ) → (trim_end s ≡ []) ⊎ EndsWell (trim_end s)
unfolding trim_end
trim_end-EndsWell [] = inl refl
trim_end-EndsWell (x ∷ s) = trim_step x (trim_end s) (trim_end-EndsWell s)

non_empty-eq-some : (t : List ℕ) {name : List ℕ} → non_empty t ≡ some name → t ≡ name
non_empty-eq-some [] e = cc
non_empty-eq-some (c ∷ t) e = cc

non_empty-last : (t : List ℕ) (c : ℕ) → last? t ≡ some c → non_empty t ≡ some t
non_empty-last [] c e = cc
non_empty-last (x ∷ t) c e = refl

-- A product name that is returned has characters, and the last of them is no padding.
pub parse_product_name-EndsWell :
    (body name : List ℕ)
    → parse_product_name body ≡ some name
    → (c : ℕ) × (last? name ≡ some c) × (is_padding c ≡ false)
unfolding parse_product_name
parse_product_name-EndsWell body name e = elim (Option-cases (from_utf8 (until_nul body))) [
  | inl n ↦ let f : none ≡ some name = rw (n, parse_product_name) at e in cc
  | inr (s, n) ↦
      let t : trim_end s ≡ name =
        non_empty-eq-some (trim_end s) (rw (n, parse_product_name) at e) in
      elim (trim_end-EndsWell s) [
        | inl z ↦ let f : non_empty [] ≡ some name = rw (n, parse_product_name, z) at e in cc
        | inr w ↦ rw t at w
      ]
]

printable-not_padding : (c : ℕ) → IsPrintable c → c ≢ 0x20 → is_padding c ≡ false
unfolding is_control is_whitespace
printable-not_padding c v h = ground arith

All-last : (s : List ℕ) (c : ℕ) → All IsPrintable s → last? s ≡ some c → IsPrintable c
All-last [] c v e = cc
All-last (x ∷ []) c v e = subst IsPrintable (ground arith) v.0
All-last (x ∷ y ∷ s) c v e = All-last (y ∷ s) c v.1 e

-- A name of printable ASCII characters that does not end in a space comes back whole, whatever
-- follows its NUL.
pub parse_product_name-append :
    (name junk : List ℕ) (c : ℕ)
    → All IsPrintable name
    → last? name ≡ some c
    → c ≢ 0x20
    → parse_product_name (name ++ 0 ∷ junk) ≡ some name
unfolding parse_product_name
parse_product_name-append name junk c v l h =
    let p : is_padding c ≡ false = printable-not_padding c (All-last name c v l) h in
    rw (until_nul-append name junk v, parse_product_name)
      (rw (chars_from-ascii 0 name v) (rw (trim_end_done name c l p) (non_empty-last name c l)))
