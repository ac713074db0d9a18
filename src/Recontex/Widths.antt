-- ===== src/Recontex/Widths.antt =====
-- What the callbacks compute, in arithmetic: how wide their results are and which bits they keep.
use restruc.Base.{
  ℕ, zero, suc, ◌+◌, ◌-◌, ◌*◌, ◌/◌, ◌%◌, ◌^◌, ◌<◌, ◌≡◌, arith, bit_and, bit_or, if◌then◌else◌, ltb,
  inl, inr, Bool-cases, le→ltb_false, leb, ◌&&◌, true,
}
use native.Mathlib.Nat.{mod-lt, mod-eq_of_lt, one-le-pow}
use restruc.Base.Masks.{low_mask, shifted_mask, disjoint_fields}
use restruc.Hash.{word}
use restruc.Value.{make_value}
use restruc.Recontex.Callbacks.{size_mask, under_mask, move_callback, emulate_instruction_helper}

-- The number of an operand of `size` bytes whose register held `old`, when `n` is computed: one or
-- two bytes (and three) leave the higher ones, more clear them.
unfoldable pub merged_number : ℕ → ℕ → ℕ → ℕ
merged_number size old n =
    if ltb size 4
    then old / 2 ^ (size * 8) * 2 ^ (size * 8) + n % 2 ^ (size * 8)
    else if ltb size 8
    then n % 2 ^ (size * 8)
    else n % word

-- `~mask` of the low k bits keeps what is above.
under_lem :
    (k m old n : ℕ)
    → old / 2 ^ k < 2 ^ m
    → bit_or (bit_and old ((2 ^ m - 1) * 2 ^ k)) (bit_and n (2 ^ k - 1))
      ≡ old / 2 ^ k * 2 ^ k + n % 2 ^ k
under_lem k m old n h =
    let small : n % 2 ^ k < 2 ^ k = mod-lt n (one-le-pow k 2 (omega arith)) in
    let kept : old / 2 ^ k % 2 ^ m ≡ old / 2 ^ k = mod-eq_of_lt h in
    rw (shifted_mask k old (2 ^ m - 1), low_mask m (old / 2 ^ k), low_mask k n, kept)
      (disjoint_fields k (old / 2 ^ k) (n % 2 ^ k) small)

masked_number :
    (size old n : ℕ)
    → old < word
    → (if ltb size 4 then under_mask (size_mask size) old n else bit_and n (size_mask size))
      ≡ merged_number size old n
unfolding size_mask under_mask merged_number
masked_number zero old n h = under_lem 0 64 old n (omega arith)
masked_number (suc zero) old n h = under_lem 8 56 old n (omega arith)
masked_number (suc (suc zero)) old n h = under_lem 16 48 old n (omega arith)
masked_number (suc (suc (suc zero))) old n h = under_lem 24 40 old n (omega arith)
masked_number (suc (suc (suc (suc size)))) old n h =
    let k : ℕ = suc (suc (suc (suc size))) in
    let wide = le→ltb_false k 4 (omega arith) in
    elim (Bool-cases (ltb k 8)) [
      | inl e ↦ rw (wide, e) (low_mask (k * 8) n)
      | inr e ↦ rw (wide, e) (low_mask 64 n)
    ]

-- On two numbers the result of an arithmetic instruction is that of its action, cut to the size of
-- the destination; a destination of less than four bytes, whose register held a word, keeps the
-- register's higher bits. MOV on numbers does the same with the source's number.
pub emulate_instruction_helper-merged :
    (action : ℕ → ℕ → ℕ) (s s' a b size size' next_id : ℕ)
    → a < word
    → (emulate_instruction_helper action (make_value s a size) (make_value s' b size') next_id
        ≡ (make_value s' (merged_number size a (action a b)) size, next_id))
      × (move_callback (make_value s a size) (make_value s' b size') next_id
          ≡ (make_value s' (merged_number size a b) size, next_id))
unfolding emulate_instruction_helper move_callback make_value
emulate_instruction_helper-merged action s s' a b size size' next_id h =
    (rw (masked_number size a (action a b) h), rw (masked_number size a b h))

merged_number-lt :
    (size old n : ℕ)
    → old < word
    → merged_number size old n < (if leb 4 size && ltb size 8 then 2 ^ (size * 8) else word)
unfolding merged_number
merged_number-lt zero old n h = omega arith
merged_number-lt (suc zero) old n h = omega arith
merged_number-lt (suc (suc zero)) old n h = omega arith
merged_number-lt (suc (suc (suc zero))) old n h = omega arith
merged_number-lt (suc (suc (suc (suc size)))) old n h =
    let k : ℕ = suc (suc (suc (suc size))) in
    let wide = le→ltb_false k 4 (omega arith) in
    let four : leb 4 k ≡ true = ground arith in
    elim (Bool-cases (ltb k 8)) [
      | inl e ↦ rw (wide, four, e) (mod-lt n (one-le-pow (k * 8) 2 (omega arith)))
      | inr e ↦ rw (wide, four, e) (mod-lt n (omega arith))
    ]

-- Below four bytes the bits above the destination's size are the old ones.
merged_number-above :
    (size old n : ℕ)
    → ltb size 4 ≡ true
    → merged_number size old n / 2 ^ (size * 8) ≡ old / 2 ^ (size * 8)
unfolding merged_number
merged_number-above zero old n e = omega arith
merged_number-above (suc zero) old n e = omega arith
merged_number-above (suc (suc zero)) old n e = omega arith
merged_number-above (suc (suc (suc zero))) old n e = omega arith
merged_number-above (suc (suc (suc (suc size)))) old n e = absurd (ground arith)

-- On two numbers, where the destination's register held a word, an arithmetic instruction gives a number
-- of the destination's size, made by the second operand's source: a word, which at four to seven bytes
-- has no bit above them, and below four bytes has the register's old bits above them.
pub emulate_instruction_helper-lt :
    (action : ℕ → ℕ → ℕ) (s s' a b size size' next_id : ℕ)
    → a < word
    → (n : ℕ) × (emulate_instruction_helper action
          (make_value s a size)
          (make_value s' b size')
          next_id
        ≡ (make_value s' n size, next_id))
      × (n < (if leb 4 size && ltb size 8 then 2 ^ (size * 8) else word))
      × (ltb size 4 ≡ true → n / 2 ^ (size * 8) ≡ a / 2 ^ (size * 8))
emulate_instruction_helper-lt action s s' a b size size' next_id h = (
  merged_number size a (action a b),
  (emulate_instruction_helper-merged action s s' a b size size' next_id h).0,
  merged_number-lt size a (action a b) h,
  merged_number-above size a (action a b),
)
