-- ===== src/Context/Hash.antt =====
-- The hash of a context is that of its registers' values: it does not remember the writes.
use restruc.Base.{ℕ, ◌<◌, ◌≡◌}
use restruc.Hash.{word, combine, reverse}
use restruc.Hash.Inverse.{combine-lt, reverse-lt, reverse-combine, combine-reverse}
use restruc.Value.{Value, ValueContainer, concrete, symbolic}
use restruc.Context.{Hashers, AreHashers, take_value, put_value, put_container, take_container}

module _ (h : Hashers) (good : AreHashers h) where
  open h use {hash_address, hash_uint, hash_int}

  put_container-lt : (seed : ℕ) (c : ValueContainer) → put_container h seed c < word
  unfolding put_container
  put_container-lt seed (concrete n) = combine-lt hash_uint seed n
  put_container-lt seed (symbolic s) = combine-lt hash_int (combine hash_uint seed s.id) s.offset

  pub put_value-lt : (seed : ℕ) (v : Value) → put_value h seed v < word
  unfolding put_value
  put_value-lt seed v = combine-lt hash_address (put_container h seed v.container) v.source

  pub take_value-lt : (seed : ℕ) (v : Value) → take_value h seed v < word
  unfolding take_value
  take_value-lt seed v = taken-lt v.container
    where
      taken-lt :
          (c : ValueContainer) → take_container h (reverse hash_address seed v.source) c < word
      taken-lt (concrete n) = reverse-lt hash_uint (reverse hash_address seed v.source) n
      taken-lt (symbolic s) =
          reverse-lt hash_uint (reverse hash_int (reverse hash_address seed v.source) s.offset) s.id

  take-put_container :
      (seed : ℕ) (c : ValueContainer)
      → seed < word
      → take_container h (put_container h seed c) c ≡ seed
  unfolding take_container put_container
  take-put_container seed (concrete n) w = reverse-combine hash_uint good.uint_bound seed n w
  take-put_container seed (symbolic s) w =
      rw
        (reverse-combine hash_int good.int_bound (combine hash_uint seed s.id) s.offset
          (combine-lt hash_uint seed s.id))
        (reverse-combine hash_uint good.uint_bound seed s.id w)

  put-take_container :
      (seed : ℕ) (c : ValueContainer)
      → seed < word
      → put_container h (take_container h seed c) c ≡ seed
  unfolding take_container put_container
  put-take_container seed (concrete n) w = combine-reverse hash_uint good.uint_bound seed n w
  put-take_container seed (symbolic s) w =
      rw
        (combine-reverse hash_uint good.uint_bound (reverse hash_int seed s.offset) s.id
          (reverse-lt hash_int seed s.offset))
        (combine-reverse hash_int good.int_bound seed s.offset w)

  -- A value that was put into the hash, a word, is taken out of it again.
  pub take_value-put_value :
      (seed : ℕ) (v : Value) → seed < word → take_value h (put_value h seed v) v ≡ seed
  unfolding take_value put_value
  take_value-put_value seed v w =
      rw
        (reverse-combine hash_address good.address_bound (put_container h seed v.container) v.source
          (put_container-lt seed v.container))
        (take-put_container seed v.container w)

  pub put_value-take_value :
      (seed : ℕ) (v : Value) → seed < word → put_value h (take_value h seed v) v ≡ seed
  unfolding take_value put_value
  put_value-take_value seed v w =
      rw
        (put-take_container (reverse hash_address seed v.source) v.container
          (reverse-lt hash_address seed v.source))
        (combine-reverse hash_address good.address_bound seed v.source w)
