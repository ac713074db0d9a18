-- ===== src/Hash/Inverse.antt =====
-- `reverse` undoes `combine` and the other way round; `mix` undoes itself and forgets the order.
use restruc.Base.{ℕ, ◌+◌, ◌-◌, ◌*◌, ◌%◌, ◌<◌, ◌≡◌, bit_xor, arith}
use restruc.Base.Bits.{bit_xor_cancel, bit_xor_right_comm, bit_xor-lt}
use restruc.Hash.{word, multiplier, increment, multiplier_inverse, IsHasher, combine, reverse, mix}

-- The last constant of the source is the inverse of the first, as its comment says.
unmultiply : (s : ℕ) → s < word → s * multiplier % word * multiplier_inverse % word ≡ s
unmultiply s h = omega arith

remultiply : (s : ℕ) → s < word → s * multiplier_inverse % word * multiplier % word ≡ s
remultiply s h = omega arith

subtract_added : (x : ℕ) → x < word → ((x + increment) % word + word - increment) % word ≡ x
subtract_added x h = omega arith

add_subtracted : (x : ℕ) → x < word → ((x + word - increment) % word + increment) % word ≡ x
add_subtracted x h = omega arith

module _ {ℓ} {A : Type ℓ} (hasher : A → ℕ) where
  pub combine-lt : (seed : ℕ) (v : A) → combine hasher seed v < word
  unfolding combine
  combine-lt seed v = omega arith

  pub reverse-lt : (seed : ℕ) (v : A) → reverse hasher seed v < word
  unfolding reverse
  reverse-lt seed v = omega arith

module _ {ℓ} {A : Type ℓ} (hasher : A → ℕ) (bounded : IsHasher hasher) where
  -- `reverse` takes the last value that was combined out of the seed, a word, again.
  pub reverse-combine :
      (seed : ℕ) (v : A) → seed < word → reverse hasher (combine hasher seed v) v ≡ seed
  unfolding combine reverse
  reverse-combine seed v h =
      let mixed = bit_xor-lt 64 (seed * multiplier % word) (hasher v) (omega arith) (bounded v) in
      rw
        (
          subtract_added (bit_xor (seed * multiplier % word) (hasher v)) mixed,
          bit_xor_cancel (seed * multiplier % word) (hasher v),
        )
        (unmultiply seed h)

  -- Combining a value that was reversed restores the seed, if that is a word.
  pub combine-reverse :
      (seed : ℕ) (v : A) → seed < word → combine hasher (reverse hasher seed v) v ≡ seed
  unfolding combine reverse
  combine-reverse seed v h =
      let x = (seed + word - increment) % word in
      let mixed = bit_xor-lt 64 x (hasher v) (omega arith) (bounded v) in
      rw (remultiply (bit_xor x (hasher v)) mixed, bit_xor_cancel x (hasher v))
        (add_subtracted seed h)

module _ {ℓ} {A : Type ℓ} (hasher : A → ℕ) where
  -- `mix` is its own inverse, and the order in which values are mixed in is forgotten.
  pub mix-mix :
      (seed : ℕ) (v w : A)
      → (mix hasher (mix hasher seed v) v ≡ seed)
        × (mix hasher (mix hasher seed v) w ≡ mix hasher (mix hasher seed w) v)
  unfolding mix
  mix-mix seed v w = (bit_xor_cancel seed _, bit_xor_right_comm seed _ _)
