-- ===== src/Memory/RoundTrip.antt =====
-- A value that is written and read back at its address and size is the value again.
use restruc.Base.{
  ℕ, zero, suc, ◌*◌, ◌/◌, ◌%◌, ◌^◌, ◌<◌, ◌≡◌, ◌≢◌, refl, ap, arith, Bool, true, false, List, [],
  ◌∷◌,
}
use native.Mathlib.Nat.{pow-suc}
use restruc.Base.Masks.{disjoint_fields}
use restruc.Hash.{word, combine, IsHasher}
use restruc.Hash.Inverse.{combine-lt, reverse-combine}
use restruc.Value.{Value, make_value}
use restruc.Value.Compare.{symbol_value, make_symbolic_value-named}
use restruc.Memory.{length, number_bytes, symbol_bytes}
use restruc.Memory.Convert.{Joined, last_symbol, join_bytes}

abbrev pub positive : ℕ → Bool
positive zero = false
positive (suc n) = true

-- The loop starts with no byte joined.
abbrev pub start : ℕ → Joined
start id = record { is_symbolic = false; value = 0; id = id }

pub length-number_bytes : (s k n : ℕ) → length (number_bytes s k n) ≡ k
unfolding number_bytes
length-number_bytes s zero n = refl
length-number_bytes s (suc k) n = ap suc (length-number_bytes s k (n / 256))

module _ (hash_uint hash_int : ℕ → ℕ) where
  -- The bytes of a number that has no more join to the number.
  pub join-number_bytes :
      (s a k n id : ℕ)
      → n < 256 ^ k
      → n < word
      → let j = join_bytes hash_uint hash_int a (number_bytes s k n) (start id) in
        (j.value ≡ n) × (j.is_symbolic ≡ false)
  unfolding join_bytes number_bytes make_value
  join-number_bytes s a zero n id h w = (omega arith, refl)
  join-number_bytes s a (suc k) n id h w =
      let power = pow-suc 256 k in
      let ih = join-number_bytes s a k (n / 256) id (omega arith) (omega arith) in
      let unwrapped : n / 256 * 2 ^ 8 % word ≡ n / 256 * 2 ^ 8 = omega arith in
      (
        rw (ih.0, unwrapped, disjoint_fields 8 (n / 256) (n % 256) (omega arith)) (omega arith),
        ih.1,
      )

  -- The identifier of the last of `count` bytes.
  abbrev pub wound : ℕ → ℕ → ℕ → ℕ
  wound a zero id = id
  wound a (suc count) id = wound a count (combine hash_uint id a)

  -- No byte's identifier is the 0 that asks for a fresh one.
  abbrev pub NoneFresh : ℕ → ℕ → ℕ → Type 0
  NoneFresh a zero id = Unit {0}
  NoneFresh a (suc count) id =
      (combine hash_uint id a ≢ 0) × NoneFresh a count (combine hash_uint id a)

  -- The bytes of a symbol, when none is fresh.
  unfoldable pub marks : ℕ → ℕ → ℕ → ℕ → ℕ → List Value
  marks s o a zero id = []
  marks s o a (suc count) id =
      let id' = combine hash_uint id a in symbol_value s 1 id' o ∷ marks s o a count id'

  pub symbol_bytes-marks :
      (s o a count id next : ℕ)
      → NoneFresh a count id
      → symbol_bytes hash_uint hash_int s o a count id next ≡ (marks s o a count id, next)
  unfolding symbol_bytes marks
  symbol_bytes-marks s o a zero id next h = refl
  symbol_bytes-marks s o a (suc count) id next h = rw (
    make_symbolic_value-named next s 1 o (combine hash_uint id a) h.0,
    symbol_bytes-marks s o a count (combine hash_uint id a) next h.1,
  )

  pub length-marks : (s o a count id : ℕ) → length (marks s o a count id) ≡ count
  unfolding marks
  length-marks s o a zero id = refl
  length-marks s o a (suc count) id = ap suc (length-marks s o a count (combine hash_uint id a))

  pub last-marks :
      (s o a count id : ℕ) → last_symbol (marks s o a (suc count) id) ≡ (wound a (suc count) id, o)
  unfolding marks last_symbol
  last-marks s o a zero id = refl
  last-marks s o a (suc count) id = last-marks s o a count (combine hash_uint id a)

  -- Unwinding from the last identifier ends at the first.
  pub join-marks :
      (s o a count id : ℕ)
      → IsHasher hash_uint
      → id < word
      → let j = join_bytes hash_uint hash_int a (marks s o a count id) (start (wound a count id)) in
        (j.id ≡ id) × (j.is_symbolic ≡ positive count)
  unfolding marks join_bytes
  join-marks s o a zero id bounded w = (refl, refl)
  join-marks s o a (suc count) id bounded w =
      let id' = combine hash_uint id a in
      let ih = join-marks s o a count id' bounded (combine-lt hash_uint id a) in
      (rw ih.0 (reverse-combine hash_uint bounded id a w), refl)
