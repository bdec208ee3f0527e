-- ===== src/Proxy/Net.antt =====
-- Addresses of peers and tables under keys. The proxy only compares addresses, so numbers stand for
-- them. A `HashMap` is a list of its entries; the source's order of iteration is unspecified.
use atemproxy.Prelude.{
  ℕ, ◌≡◌, refl, arith, Bool, true, false, Option, none, some, List, [], ◌∷◌, ◌==◌, if◌then◌else◌,
}

abbrev pub SocketAddr : Type 0
SocketAddr = ℕ

-- `owner == Some(addr)`
abbrev pub is_addr : Option SocketAddr → SocketAddr → Bool
is_addr none addr = false
is_addr (some a) addr = a == addr

module _ {ℓ} {V : Type ℓ} where
  unfoldable pub get : ℕ → List (ℕ × V) → Option V
  get k [] = none
  get k ((j, v) ∷ m) = if j == k then some v else get k m

  -- The value under a key is replaced in place; a new key goes to the end.
  unfoldable pub put : ℕ → V → List (ℕ × V) → List (ℕ × V)
  put k v [] = (k, v) ∷ []
  put k v ((j, w) ∷ m) = if j == k then (j, v) ∷ m else (j, w) ∷ put k v m

-- A `HashSet` of addresses.
unfoldable pub member : ℕ → List ℕ → Bool
member a [] = false
member a (x ∷ xs) = if x == a then true else member a xs

unfoldable pub add : ℕ → List ℕ → List ℕ
add a xs = if member a xs then xs else a ∷ xs

unfoldable pub discard : ℕ → List ℕ → List ℕ
discard a [] = []
discard a (x ∷ xs) = let rest = discard a xs in if x == a then rest else x ∷ rest

module _ {ℓ} {V : Type ℓ} where
  -- What a table holds after `put`: the new value under its key, the rest as it was.
  pub get-put :
      (k j : ℕ) (v : V) (m : List (ℕ × V))
      → get k (put j v m) ≡ (if j == k then some v else get k m)
  unfolding get put
  get-put k j v [] = refl
  get-put k j v ((i, w) ∷ m) = ground (arith, get-put k j v m)
