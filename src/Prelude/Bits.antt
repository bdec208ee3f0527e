-- ===== src/Prelude/Bits.antt =====
-- Masks and shifts at every width, from the digit recursion that the native operations stand for.
use Prim.Native.Nat.{
  ℕ, zero, suc, ◌+◌, ◌*◌, ◌/◌, ◌%◌, ◌^◌, ◌≤◌, ◌<◌, min, max, bit_and, bit_or, digits,
  bit_and-bitwise, bit_or-bitwise,
}
use mathlib.Core.Path.{◌≡◌, refl, ap, sym, ◌∙◌}
use mathlib.Core.Bool.{Bool, true, ◌&&◌}
use native.Mathlib.Omega.{arith}
use native.Mathlib.Nat.{pow-suc, le_refl}

module _ (rest : ℕ → ℕ) (join : ℕ → ℕ → ℕ) where
  digits-zero : (fuel y : ℕ) → digits rest join fuel 0 y ≡ rest y
  digits-zero zero y = refl
  digits-zero (suc fuel) y = refl

  -- Every count of digits that is not too small gives the same number.
  digits_enough :
      (x y fuel more : ℕ)
      → x ≤ fuel
      → x ≤ more
      → digits rest join fuel x y ≡ digits rest join more x y
  digits_enough zero y fuel more h k = digits-zero fuel y ∙ sym (digits-zero more y)
  digits_enough (suc x) y zero more h k = absurd (omega arith)
  digits_enough (suc x) y (suc fuel) zero h k = absurd (omega arith)
  digits_enough (suc x) y (suc fuel) (suc more) h k =
      ap (λ d. d * 2 + join (suc x % 2) (y % 2))
        (digits_enough (suc x / 2) (y / 2) fuel more (omega arith) (omega arith))

  -- The lowest digit apart from the others.
  lowest_digit :
      ((y : ℕ) → rest y ≡ rest (y / 2) * 2 + join 0 (y % 2))
      → (x y : ℕ)
      → digits rest join x x y ≡ digits rest join (x / 2) (x / 2) (y / 2) * 2 + join (x % 2) (y % 2)
  lowest_digit h zero y = h y
  lowest_digit h (suc x) y =
      ap (λ d. d * 2 + join (suc x % 2) (y % 2))
        (digits_enough (suc x / 2) (y / 2) x (suc x / 2) (omega arith) (omega arith))

and_halves : (x y : ℕ) → bit_and x y ≡ bit_and (x / 2) (y / 2) * 2 + min (x % 2) (y % 2)
and_halves x y =
    bit_and-bitwise x y
    ∙ lowest_digit (λ b. zero) min (λ y. omega arith) x y
    ∙ ap (λ d. d * 2 + min (x % 2) (y % 2)) (sym (bit_and-bitwise (x / 2) (y / 2)))

or_halves : (x y : ℕ) → bit_or x y ≡ bit_or (x / 2) (y / 2) * 2 + max (x % 2) (y % 2)
or_halves x y =
    bit_or-bitwise x y
    ∙ lowest_digit (λ b. b) max (λ y. omega arith) x y
    ∙ ap (λ d. d * 2 + max (x % 2) (y % 2)) (sym (bit_or-bitwise (x / 2) (y / 2)))

no_digits_and : (fuel x : ℕ) → digits (λ b. zero) min fuel x 0 ≡ 0
no_digits_and zero x = refl
no_digits_and (suc fuel) zero = refl
no_digits_and (suc fuel) (suc x) = omega (arith, no_digits_and fuel (suc x / 2))

no_digits_or : (fuel x : ℕ) → x ≤ fuel → digits (λ b. b) max fuel x 0 ≡ x
no_digits_or fuel zero h = digits-zero (λ b. b) max fuel 0
no_digits_or zero (suc x) h = absurd (omega arith)
no_digits_or (suc fuel) (suc x) h = omega (arith, no_digits_or fuel (suc x / 2) (omega arith))

bit_and-zero : (x : ℕ) → bit_and x 0 ≡ 0
bit_and-zero x = bit_and-bitwise x 0 ∙ no_digits_and x x

bit_or-zero : (x : ℕ) → bit_or x 0 ≡ x
bit_or-zero x = bit_or-bitwise x 0 ∙ no_digits_or x x (le_refl x)

-- Fields that do not overlap are joined by a sum.
pub bit_or-shift : (k a b : ℕ) → b < 2 ^ k → bit_or (a * 2 ^ k) b ≡ a * 2 ^ k + b
bit_or-shift zero a b h = let e : b ≡ 0 = omega arith in rw e (omega (arith, bit_or-zero (a * 1)))
bit_or-shift (suc k) a b h =
    let e : a * 2 ^ suc k ≡ a * 2 ^ k * 2 = rw pow-suc (omega arith) in
    let low : b < 2 ^ k * 2 = rw pow-suc at h in
    let half : a * 2 ^ k * 2 / 2 ≡ a * 2 ^ k = omega arith in
    rw e (
      omega (
        arith,
        or_halves (a * 2 ^ k * 2) b,
        ap (λ (t : ℕ). bit_or t (b / 2)) half,
        bit_or-shift k a (b / 2) (omega arith),
      ))

mask_1 : (a : ℕ) → bit_and a 1 ≡ a % 2
mask_1 a = omega (arith, and_halves a 1, bit_and-zero (a / 2))

mask_2 : (a : ℕ) → bit_and a 0x3 ≡ a % 4
mask_2 a = omega (arith, and_halves a 0x3, mask_1 (a / 2))

mask_3 : (a : ℕ) → bit_and a 0x7 ≡ a % 8
mask_3 a = omega (arith, and_halves a 0x7, mask_2 (a / 2))

mask_4 : (a : ℕ) → bit_and a 0xf ≡ a % 16
mask_4 a = omega (arith, and_halves a 0xf, mask_3 (a / 2))

pub mask_5 : (a : ℕ) → bit_and a 0x1f ≡ a % 32
mask_5 a = omega (arith, and_halves a 0x1f, mask_4 (a / 2))

mask_6 : (a : ℕ) → bit_and a 0x3f ≡ a % 64
mask_6 a = omega (arith, and_halves a 0x3f, mask_5 (a / 2))

mask_7 : (a : ℕ) → bit_and a 0x7f ≡ a % 128
mask_7 a = omega (arith, and_halves a 0x7f, mask_6 (a / 2))

mask_8 : (a : ℕ) → bit_and a 0xff ≡ a % 256
mask_8 a = omega (arith, and_halves a 0xff, mask_7 (a / 2))

mask_9 : (a : ℕ) → bit_and a 0x1ff ≡ a % 512
mask_9 a = omega (arith, and_halves a 0x1ff, mask_8 (a / 2))

mask_10 : (a : ℕ) → bit_and a 0x3ff ≡ a % 1024
mask_10 a = omega (arith, and_halves a 0x3ff, mask_9 (a / 2))

pub mask_11 : (a : ℕ) → bit_and a 0x7ff ≡ a % 2048
mask_11 a = omega (arith, and_halves a 0x7ff, mask_10 (a / 2))

mask_12 : (a : ℕ) → bit_and a 0xfff ≡ a % 4096
mask_12 a = omega (arith, and_halves a 0xfff, mask_11 (a / 2))

mask_13 : (a : ℕ) → bit_and a 0x1fff ≡ a % 8192
mask_13 a = omega (arith, and_halves a 0x1fff, mask_12 (a / 2))

mask_14 : (a : ℕ) → bit_and a 0x3fff ≡ a % 16384
mask_14 a = omega (arith, and_halves a 0x3fff, mask_13 (a / 2))

pub mask_15 : (a : ℕ) → bit_and a 0x7fff ≡ a % 32768
mask_15 a = omega (arith, and_halves a 0x7fff, mask_14 (a / 2))

-- Over a small range, check every value by evaluation.
unfoldable pub all_below : ℕ → (ℕ → Bool) → Bool
all_below zero p = true
all_below (suc n) p = p n && all_below n p

pub all_below_sound : (n : ℕ) (p : ℕ → Bool) (x : ℕ) → all_below n p ≡ true → x < n → p x ≡ true
unfolding all_below
all_below_sound zero p x h l = absurd (omega arith)
all_below_sound (suc n) p x h l = ground (arith, all_below_sound n p x)
