-- ===== src/Hash.antt =====
-- utils/hash.hxx: the hash that a context keeps of its registers, and that names symbolic values.
-- A `std::size_t` is a number below 2 ^ 64. The standard library's `std::hash` is not code of the
-- repository: it is the argument `hasher`, of which the laws need only that it returns a word.
pub mod Inverse
use restruc.Base.{ℕ, ◌+◌, ◌-◌, ◌*◌, ◌%◌, ◌^◌, ◌<◌, bit_xor}

abbrev pub word : ℕ
word = 2 ^ 64

-- The three multipliers and increments that the source writes out.
abbrev pub multiplier : ℕ
multiplier = 0x5851F42D4C957F2D

abbrev pub increment : ℕ
increment = 0x14057B7EF767814F

abbrev pub multiplier_inverse : ℕ
multiplier_inverse = 0xC097EF87329E28A5

-- `std::hash<T>` returns a `size_t`.
abbrev pub IsHasher {ℓ} : {A : Type ℓ} → (A → ℕ) → Type ℓ
IsHasher {A} hasher = (v : A) → hasher v < word

module _ {ℓ} {A : Type ℓ} (hasher : A → ℕ) where
  unfoldable pub combine : ℕ → A → ℕ
  combine seed v = (bit_xor (seed * multiplier % word) (hasher v) + increment) % word

  unfoldable pub reverse : ℕ → A → ℕ
  reverse seed v = bit_xor ((seed + word - increment) % word) (hasher v) * multiplier_inverse % word

  unfoldable pub mix : ℕ → A → ℕ
  mix seed v = bit_xor seed ((hasher v * multiplier + increment) % word)
