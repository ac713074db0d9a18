-- ===== src/Base/Bits.antt =====
-- The bitwise operations at variables: one equation for the lowest digit of each, from the digit
-- recursion that they stand for, and the laws of the exclusive or.
use Prim.Native.Nat.{
  ℕ, zero, suc, ◌+◌, ◌*◌, ◌/◌, ◌%◌, ◌^◌, ◌≤◌, ◌<◌, min, max, bit_and, bit_or, bit_xor, digits,
  differ, bit_and-bitwise, bit_or-bitwise, bit_xor-bitwise,
}
use mathlib.Core.Path.{◌≡◌, refl}
use native.Mathlib.Nat.{pow-suc}
use native.Mathlib.Omega.{arith}

-- A count of digits that the first word does not exceed can be replaced by another such count.
count_irrelevant :
    (tail : ℕ → ℕ) (op : ℕ → ℕ → ℕ) (k l x y : ℕ)
    → x ≤ k
    → x ≤ l
    → digits tail op k x y ≡ digits tail op l x y
count_irrelevant tail op zero zero zero y h g = refl
count_irrelevant tail op (suc k) zero zero y h g = refl
count_irrelevant tail op zero (suc l) zero y h g = refl
count_irrelevant tail op (suc k) (suc l) zero y h g = refl
count_irrelevant tail op zero l (suc x) y h g = absurd (omega arith)
count_irrelevant tail op (suc k) zero (suc x) y h g = absurd (omega arith)
count_irrelevant tail op (suc k) (suc l) (suc x) y h g =
    rw (count_irrelevant tail op k l (suc x / 2) (y / 2) (omega arith) (omega arith))

-- The count that the recursion is left with at the second digit is enough.
enough_left :
    (z : ℕ → ℕ) (f : ℕ → ℕ → ℕ) (a b : ℕ)
    → digits z f a (suc a / 2) (b / 2) ≡ digits z f (suc a / 2) (suc a / 2) (b / 2)
enough_left z f a b =
    count_irrelevant z f a (suc a / 2) (suc a / 2) (b / 2) (omega arith) (omega arith)

differ_digits : (x y : ℕ) → x < 2 → y < 2 → differ x y ≡ (x + y) % 2
differ_digits zero y p q = omega arith
differ_digits (suc zero) zero p q = refl
differ_digits (suc zero) (suc zero) p q = refl
differ_digits (suc zero) (suc (suc y)) p q = absurd (omega arith)
differ_digits (suc (suc x)) y p q = absurd (omega arith)

pub zero-bit_xor : (b : ℕ) → bit_xor 0 b ≡ b
zero-bit_xor b = simp bit_xor-bitwise

pub zero-bit_or : (b : ℕ) → bit_or 0 b ≡ b
zero-bit_or b = simp bit_or-bitwise

pub zero-bit_and : (b : ℕ) → bit_and 0 b ≡ 0
zero-bit_and b = simp bit_and-bitwise

-- Each operation, by the lowest digits of its words and their halves.
pub bit_xor_step : (x y : ℕ) → bit_xor x y ≡ (x % 2 + y % 2) % 2 + 2 * bit_xor (x / 2) (y / 2)
bit_xor_step zero y = omega (arith, zero-bit_xor y, zero-bit_xor (y / 2))
bit_xor_step (suc x) y =
    let low = differ_digits (suc x % 2) (y % 2) (omega arith) (omega arith) in
    simp bit_xor-bitwise (omega (arith, low, enough_left (λ w. w) differ x y))

pub bit_or_step : (x y : ℕ) → bit_or x y ≡ max (x % 2) (y % 2) + 2 * bit_or (x / 2) (y / 2)
bit_or_step zero y = omega (arith, zero-bit_or y, zero-bit_or (y / 2))
bit_or_step (suc x) y = simp bit_or-bitwise (omega (arith, enough_left (λ w. w) max x y))

pub bit_and_step : (x y : ℕ) → bit_and x y ≡ min (x % 2) (y % 2) + 2 * bit_and (x / 2) (y / 2)
bit_and_step zero y = omega (arith, zero-bit_and y, zero-bit_and (y / 2))
bit_and_step (suc x) y = simp bit_and-bitwise (omega (arith, enough_left (λ w. 0) min x y))

half-bit_xor : (a b : ℕ) → bit_xor a b / 2 ≡ bit_xor (a / 2) (b / 2)
half-bit_xor a b = omega (arith, bit_xor_step a b)

cancel_below : (n a b : ℕ) → a ≤ n → b ≤ n → bit_xor (bit_xor a b) b ≡ a
cancel_below zero zero zero p q = refl
cancel_below zero zero (suc b) p q = absurd (omega arith)
cancel_below zero (suc a) b p q = absurd (omega arith)
cancel_below (suc n) a b p q =
    let ih = cancel_below n (a / 2) (b / 2) (omega arith) (omega arith) in
    rw (bit_xor_step (bit_xor a b) b, half-bit_xor a b, ih) (omega (arith, bit_xor_step a b))

-- Exclusive or with the same word twice gives the word back.
pub bit_xor_cancel : (a b : ℕ) → bit_xor (bit_xor a b) b ≡ a
bit_xor_cancel a b = cancel_below (a + b) a b (omega arith) (omega arith)

right_comm_below :
    (n a b c : ℕ) → a ≤ n → b ≤ n → c ≤ n → bit_xor (bit_xor a b) c ≡ bit_xor (bit_xor a c) b
right_comm_below zero zero zero zero p q r = refl
right_comm_below zero zero zero (suc c) p q r = absurd (omega arith)
right_comm_below zero zero (suc b) c p q r = absurd (omega arith)
right_comm_below zero (suc a) b c p q r = absurd (omega arith)
right_comm_below (suc n) a b c p q r =
    let ih = right_comm_below n (a / 2) (b / 2) (c / 2) (omega arith) (omega arith) (omega arith) in
    rw
      (
        bit_xor_step (bit_xor a b) c,
        bit_xor_step (bit_xor a c) b,
        half-bit_xor a b,
        half-bit_xor a c,
        ih,
      )
      (omega (arith, bit_xor_step a b, bit_xor_step a c))

pub bit_xor_right_comm : (a b c : ℕ) → bit_xor (bit_xor a b) c ≡ bit_xor (bit_xor a c) b
bit_xor_right_comm a b c =
    right_comm_below (a + b + c) a b c (omega arith) (omega arith) (omega arith)

-- The exclusive or of two k-bit words is a k-bit word.
pub bit_xor-lt : (k a b : ℕ) → a < 2 ^ k → b < 2 ^ k → bit_xor a b < 2 ^ k
bit_xor-lt zero zero zero p q = omega (arith, zero-bit_xor 0)
bit_xor-lt zero zero (suc b) p q = absurd (omega arith)
bit_xor-lt zero (suc a) b p q = absurd (omega arith)
bit_xor-lt (suc k) a b p q =
    let half = pow-suc 2 k in
    let ih = bit_xor-lt k (a / 2) (b / 2) (omega arith) (omega arith) in
    omega (arith, half, ih, bit_xor_step a b)
