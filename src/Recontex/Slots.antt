-- ===== src/Recontex/Slots.antt =====
-- The numbers that the code takes for addresses on the stack.
use restruc.Base.{ℕ, ◌+◌, ◌-◌, ◌*◌, ◌/◌, ◌^◌, ◌≤◌, ◌<◌, ◌≡◌, refl, arith, true, bit_and}
use restruc.Base.Masks.{shifted_mask}
use restruc.Hash.{word}
use restruc.Recontex.Operands.{magic_stack_value}
use restruc.Recontex.Stack.{points_to_stack, stack_argument_number, offset_assertion}

-- The test reads the upper half of the word alone.
points_to_stack-upper :
    (value upper : ℕ)
    → value / 2 ^ 32 ≡ upper
    → bit_and upper 0xFFF4B1D0 ≡ 0xFFF4B1D0
    → points_to_stack value ≡ true
unfolding points_to_stack
points_to_stack-upper value upper e m =
    let masked = shifted_mask 32 value 0xFFF4B1D0 in rw (masked, e, m)

-- Every slot less than 4 GiB above or below the value of RSP at a function's entry is taken for one
-- of the stack; 8 * (k + 1) above it lies argument k.
pub points_to_stack-near :
    (k d : ℕ)
    → 8 * (k + 1) < 2 ^ 32
    → 0 < d
    → d ≤ 2 ^ 32
    → (points_to_stack (magic_stack_value * 2 ^ 32 + 8 * (k + 1)) ≡ true)
      × (points_to_stack (magic_stack_value * 2 ^ 32 - d) ≡ true)
      × (stack_argument_number (magic_stack_value * 2 ^ 32 + 8 * (k + 1)) ≡ k)
unfolding stack_argument_number
points_to_stack-near k d hk pos hd =
    let above : (magic_stack_value * 2 ^ 32 + 8 * (k + 1)) / 2 ^ 32 ≡ 0xFFF4B1D1 = omega arith in
    let below : (magic_stack_value * 2 ^ 32 - d) / 2 ^ 32 ≡ 0xFFF4B1D0 = omega arith in
    (
      points_to_stack-upper _ 0xFFF4B1D1 above refl,
      points_to_stack-upper _ 0xFFF4B1D0 below refl,
      omega arith,
    )

-- The negative numbers down to -2 ^ 32 are taken for addresses on the stack too.
pub points_to_stack-negative : (n : ℕ) → 0 < n → n ≤ 2 ^ 32 → points_to_stack (word - n) ≡ true
points_to_stack-negative n pos h =
    let upper : (word - n) / 2 ^ 32 ≡ 0xFFFFFFFF = omega arith in
    points_to_stack-upper (word - n) 0xFFFFFFFF upper refl

-- The assertion that is to check that an offset is divisible by 8 holds at 9.
pub offset_assertion-odd : offset_assertion (magic_stack_value * 2 ^ 32 + 9) ≡ true
unfolding offset_assertion
offset_assertion-odd = refl
