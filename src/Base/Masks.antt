-- ===== src/Base/Masks.antt =====
-- `&` with a mask of low or of high bits and `|` of disjoint fields, as arithmetic.
use Prim.Native.Nat.{ℕ, zero, suc, ◌+◌, ◌-◌, ◌*◌, ◌/◌, ◌%◌, ◌^◌, ◌≤◌, ◌<◌, bit_and, bit_or}
use mathlib.Core.Path.{◌≡◌, refl, ap}
use native.Mathlib.Nat.{pow-suc, one-le-pow, mul-one, add-zero}
use native.Mathlib.Omega.{arith}
use restruc.Base.Bits.{bit_and_step, bit_or_step}

-- 2 ^ (k + 1) copies, as twice as many.
double_power : (q k : ℕ) → q * 2 ^ suc k ≡ 2 * (q * 2 ^ k)
double_power q k = omega (arith, ap (λ (t : ℕ). q * t) (pow-suc 2 k))

and_zero_below : (n a : ℕ) → a ≤ n → bit_and a 0 ≡ 0
and_zero_below n zero h = refl
and_zero_below zero (suc a) h = absurd (omega arith)
and_zero_below (suc n) (suc a) h =
    omega (arith, bit_and_step (suc a) 0, and_zero_below n (suc a / 2) (omega arith))

or_zero_below : (n a : ℕ) → a ≤ n → bit_or a 0 ≡ a
or_zero_below n zero h = refl
or_zero_below zero (suc a) h = absurd (omega arith)
or_zero_below (suc n) (suc a) h =
    omega (arith, bit_or_step (suc a) 0, or_zero_below n (suc a / 2) (omega arith))

pub bit_and-zero : (a : ℕ) → bit_and a 0 ≡ 0
bit_and-zero a = and_zero_below a a (omega arith)

pub bit_or-zero : (a : ℕ) → bit_or a 0 ≡ a
bit_or-zero a = or_zero_below a a (omega arith)

keep_low : (k q r : ℕ) → r < 2 ^ k → bit_and (q * 2 ^ k + r) (2 ^ k - 1) ≡ r
keep_low zero q r fits = omega (arith, bit_and-zero (q * 1 + r))
keep_low (suc k) q r fits =
    let power = double_power q k in
    let ih = keep_low k q (r / 2) (omega (arith, pow-suc 2 k)) in
    let positive = one-le-pow k 2 in
    let mask_halved : (2 ^ suc k - 1) / 2 ≡ 2 ^ k - 1 = omega (arith, pow-suc 2 k) in
    let halved : (q * 2 ^ suc k + r) / 2 ≡ q * 2 ^ k + r / 2 = omega arith in
    rw (bit_and_step (q * 2 ^ suc k + r) (2 ^ suc k - 1), halved, mask_halved, ih)
      (omega (arith, pow-suc 2 k))

-- `x & (2^k - 1)` keeps the low k bits.
pub low_mask : (k x : ℕ) → bit_and x (2 ^ k - 1) ≡ x % 2 ^ k
low_mask k x = ground (arith, one-le-pow k 2, keep_low k (x / 2 ^ k) (x % 2 ^ k))

keep_high : (k q r m : ℕ) → r < 2 ^ k → bit_and (q * 2 ^ k + r) (m * 2 ^ k) ≡ bit_and q m * 2 ^ k
keep_high zero q zero m fits = simp (mul-one, add-zero)
keep_high zero q (suc r) m fits = absurd (omega arith)
keep_high (suc k) q r m fits =
    let power = double_power q k in
    let mask_power = double_power m k in
    let ih = keep_high k q (r / 2) m (omega (arith, pow-suc 2 k)) in
    let mask_halved : m * 2 ^ suc k / 2 ≡ m * 2 ^ k = omega arith in
    let halved : (q * 2 ^ suc k + r) / 2 ≡ q * 2 ^ k + r / 2 = omega arith in
    rw (bit_and_step (q * 2 ^ suc k + r) (m * 2 ^ suc k), halved, mask_halved, ih)
      (omega (arith, double_power (bit_and q m) k))

-- A mask that is shifted left by k bits masks the bits above.
pub shifted_mask : (k x m : ℕ) → bit_and x (m * 2 ^ k) ≡ bit_and (x / 2 ^ k) m * 2 ^ k
shifted_mask k x m = ground (arith, one-le-pow k 2, keep_high k (x / 2 ^ k) (x % 2 ^ k) m)

-- Two fields that do not overlap are added.
pub disjoint_fields : (k q r : ℕ) → r < 2 ^ k → bit_or (q * 2 ^ k) r ≡ q * 2 ^ k + r
disjoint_fields zero q zero fits = omega (arith, bit_or-zero (q * 1))
disjoint_fields zero q (suc r) fits = absurd (omega arith)
disjoint_fields (suc k) q r fits =
    let power = double_power q k in
    let ih = disjoint_fields k q (r / 2) (omega (arith, pow-suc 2 k)) in
    let halved : q * 2 ^ suc k / 2 ≡ q * 2 ^ k = omega arith in
    rw (bit_or_step (q * 2 ^ suc k) r, halved, ih) (omega arith)
