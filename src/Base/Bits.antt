-- ===== src/Base/Bits.antt =====
-- The binary digits of a number, and what `|`, `&`, shifts and remainders do to each of them.
use Prim.Native.Nat.{
  ℕ, zero, suc, ◌+◌, ◌-◌, ◌*◌, ◌/◌, ◌%◌, ◌^◌, ◌≤◌, ◌<◌, min, max, bit_and, bit_or, digits,
  bit_and-bitwise, bit_or-bitwise,
}
use Prim.Native.Nat.add
use native.Mathlib.Decide.{ℕ_discrete}
use mathlib.Core.Path.{◌≡◌, refl, sym, ap, ◌∙◌}
use mathlib.Core.Logic.{◌≢◌}
use native.Mathlib.Nat.{pow-suc, add-mul-mod_self_right, mod-eq_of_lt, mod-lt, div-add-mod}
use native.Mathlib.Omega.{arith}

-- Digit `i` of `a`, 0 or 1.
abbrev pub bit : ℕ → ℕ → ℕ
bit zero a = a % 2
bit (suc i) a = bit i (a / 2)

-- What `digits` computes does not depend on its fuel, once that is at least the first number.
module _ (low : ℕ → ℕ) (join : ℕ → ℕ → ℕ) where
  one_more : (fuel x y : ℕ) → x ≤ fuel → digits low join (suc fuel) x y ≡ digits low join fuel x y
  one_more zero zero y fits = refl
  one_more (suc fuel) zero y fits = refl
  one_more zero (suc x) y fits = absurd (omega arith)
  one_more (suc fuel) (suc x) y fits = rw (one_more fuel (suc x / 2) (y / 2) (omega arith))

  more :
      (extra fuel x y : ℕ)
      → x ≤ fuel
      → digits low join (extra + fuel) x y ≡ digits low join fuel x y
  more zero fuel x y fits = ap (λ k. digits low join k x y) (add.zero fuel)
  more (suc extra) fuel x y fits =
      ap (λ k. digits low join k x y) (add.suc extra fuel)
      ∙ one_more (extra + fuel) x y (omega arith)
      ∙ more extra fuel x y fits

  -- The recursion on digits without the fuel.
  digits-halves :
      (x y : ℕ)
      → digits low join (suc x) (suc x) y
        ≡ digits low join (suc x / 2) (suc x / 2) (y / 2) * 2 + join (suc x % 2) (y % 2)
  digits-halves x y =
      let half : ℕ = suc x / 2 in
      let split : x ≡ (x - half) + half = omega arith in
      let enough : digits low join x half (y / 2) ≡ digits low join half half (y / 2) =
        ap (λ k. digits low join k half (y / 2)) split
        ∙ more (x - half) half half (y / 2) (omega arith) in
      omega (arith, enough)

pub bit_or_digit : (x y : ℕ) → bit_or x y ≡ bit_or (x / 2) (y / 2) * 2 + max (x % 2) (y % 2)
bit_or_digit x y = rw (bit_or-bitwise x y, bit_or-bitwise (x / 2) (y / 2)) (halves x)
  where
    halves :
        (n : ℕ)
        → digits (λ t. t) max n n y
          ≡ digits (λ t. t) max (n / 2) (n / 2) (y / 2) * 2 + max (n % 2) (y % 2)
    halves zero = omega arith
    halves (suc n) = digits-halves (λ t. t) max n y

pub bit_and_digit : (x y : ℕ) → bit_and x y ≡ bit_and (x / 2) (y / 2) * 2 + min (x % 2) (y % 2)
bit_and_digit x y = rw (bit_and-bitwise x y, bit_and-bitwise (x / 2) (y / 2)) (halves x)
  where
    halves :
        (n : ℕ)
        → digits (λ t. 0) min n n y
          ≡ digits (λ t. 0) min (n / 2) (n / 2) (y / 2) * 2 + min (n % 2) (y % 2)
    halves zero = omega arith
    halves (suc n) = digits-halves (λ t. 0) min n y

pub bit-lt : (i a : ℕ) → bit i a < 2
bit-lt zero a = omega arith
bit-lt (suc i) a = bit-lt i (a / 2)

pub bit-zero : (i : ℕ) → bit i 0 ≡ 0
bit-zero zero = refl
bit-zero (suc i) = bit-zero i

pub bit-bit_or : (i a b : ℕ) → bit i (bit_or a b) ≡ max (bit i a) (bit i b)
bit-bit_or zero a b = omega (arith, bit_or_digit a b)
bit-bit_or (suc i) a b =
    let half : bit_or a b / 2 ≡ bit_or (a / 2) (b / 2) = omega (arith, bit_or_digit a b) in
    ap (bit i) half ∙ bit-bit_or i (a / 2) (b / 2)

-- A shift to the left brings zeros in below, and moves the digits up.
double_shift : (s a : ℕ) → a * 2 ^ suc s ≡ 2 * (a * 2 ^ s)
double_shift s a = omega (arith, ap (λ (t : ℕ). a * t) (pow-suc 2 s))

pub bit-shift_low : (i s a : ℕ) → i < s → bit i (a * 2 ^ s) ≡ 0
bit-shift_low i zero a h = absurd (omega arith)
bit-shift_low zero (suc s) a h = omega (arith, double_shift s a)
bit-shift_low (suc i) (suc s) a h =
    let half : a * 2 ^ suc s / 2 ≡ a * 2 ^ s = omega (arith, double_shift s a) in
    ap (bit i) half ∙ bit-shift_low i s a (omega arith)

pub bit-shift_high : (i s a : ℕ) → s ≤ i → bit i (a * 2 ^ s) ≡ bit (i - s) a
bit-shift_high i zero a h = cc (minus_zero i, times_one a)
  where
    minus_zero : (n : ℕ) → n - 0 ≡ n
    minus_zero n = omega arith

    times_one : (n : ℕ) → n * 2 ^ 0 ≡ n
    times_one n = omega arith
bit-shift_high zero (suc s) a h = absurd (omega arith)
bit-shift_high (suc i) (suc s) a h =
    let half : a * 2 ^ suc s / 2 ≡ a * 2 ^ s = omega (arith, double_shift s a) in
    let less : i - s ≡ suc i - suc s = omega arith in
    ap (bit i) half ∙ bit-shift_high i s a (omega arith) ∙ ap (λ k. bit k a) less

-- Truncation to `w` digits keeps those below `w`.
pow_pos : (w : ℕ) → 0 < 2 ^ w
pow_pos zero = omega arith
pow_pos (suc w) = omega (arith, pow-suc 2 w, pow_pos w)

half_mod : (w a : ℕ) → (a % 2 ^ suc w / 2 ≡ a / 2 % 2 ^ w) × (a % 2 ^ suc w % 2 ≡ a % 2)
half_mod w a =
    let q : ℕ = a / 2 ^ suc w in
    let r : ℕ = a % 2 ^ suc w in
    let whole : a ≡ 2 * (q * 2 ^ w) + r =
      grind (arith, div-add-mod a (2 ^ suc w), double_shift w q) in
    let short : r < 2 * 2 ^ w = omega (arith, pow-suc 2 w, pow_pos w, mod-lt a {m = 2 ^ suc w}) in
    (
      sym (
          ap (λ t. t % 2 ^ w) (omega (arith, whole))
          ∙ add-mul-mod_self_right (r / 2) q (2 ^ w)
          ∙ mod-eq_of_lt (omega (arith, short))),
      omega (arith, whole),
    )

pub bit-mod : (i w a : ℕ) → i < w → bit i (a % 2 ^ w) ≡ bit i a
bit-mod i zero a h = absurd (omega arith)
bit-mod zero (suc w) a h = (half_mod w a).1
bit-mod (suc i) (suc w) a h = ap (bit i) (half_mod w a).0 ∙ bit-mod i w (a / 2) (omega arith)

-- The digits of a power of two: one 1.
half_pow : (d : ℕ) → 2 ^ suc d / 2 ≡ 2 ^ d
half_pow d = omega (arith, pow-suc 2 d)

pub bit-pow_self : (d : ℕ) → bit d (2 ^ d) ≡ 1
bit-pow_self zero = refl
bit-pow_self (suc d) = ap (bit d) (half_pow d) ∙ bit-pow_self d

pub bit-pow_ne : (i d : ℕ) → i ≢ d → bit i (2 ^ d) ≡ 0
bit-pow_ne zero zero h = absurd (h refl)
bit-pow_ne zero (suc d) h = omega (arith, pow-suc 2 d)
bit-pow_ne (suc i) zero h = bit-zero i
bit-pow_ne (suc i) (suc d) h = ap (bit i) (half_pow d) ∙ bit-pow_ne i d (λ e. h (ap suc e))

-- Testing one digit with a mask.
zero_above : (bound x : ℕ) → x < bound → bit_and x 0 ≡ 0
zero_above zero x below = absurd (omega arith)
zero_above (suc bound) x below = elim (ℕ_discrete x 0) [
  | yes none_left ↦ rw none_left
  | no some_left ↦ omega (arith, bit_and_digit x 0, zero_above bound (x / 2) (omega arith))
]

pub bit_and-zero : (x : ℕ) → bit_and x 0 ≡ 0
bit_and-zero x = zero_above (suc x) x (omega arith)

pub bit_and-pow : (d a : ℕ) → bit_and a (2 ^ d) ≡ bit d a * 2 ^ d
bit_and-pow zero a = omega (arith, bit_and_digit a 1, bit_and-zero (a / 2))
bit_and-pow (suc d) a =
    let low : 2 ^ suc d % 2 ≡ 0 = omega (arith, pow-suc 2 d) in
    let rest : bit_and (a / 2) (2 ^ suc d / 2) ≡ bit d (a / 2) * 2 ^ d =
      ap (bit_and (a / 2)) (half_pow d) ∙ bit_and-pow d (a / 2) in
    omega (arith, bit_and_digit a (2 ^ suc d), rest, low, double_shift d (bit d (a / 2)))
