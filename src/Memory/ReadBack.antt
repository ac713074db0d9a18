-- ===== src/Memory/ReadBack.antt =====
-- A value that is written and read back at its address and with its size.
use restruc.Base.{ℕ, suc, ◌+◌, ◌/◌, ◌%◌, ◌^◌, ◌<◌, ◌≡◌, ◌≢◌, ap, arith, List, ◌∷◌, le→leb}
use mathlib.Core.Path.{subst}
use restruc.Base.Run.{Run, done, ◌>>=◌}
use restruc.Hash.{word, combine, IsHasher}
use restruc.Hash.Inverse.{combine-lt, reverse-combine}
use restruc.Value.{Value, make_value}
use restruc.Value.Compare.{symbol_value, make_symbolic_value-named}
use restruc.Memory.{Memory, length, number_bytes, value_bytes, set, get, top}
use restruc.Memory.Convert.{last_symbol, to_value}
use restruc.Memory.Laws.{IsMemory, get-set_bytes}
use restruc.Memory.RoundTrip.{
  length-number_bytes, join-number_bytes, marks, symbol_bytes-marks, length-marks, last-marks,
  join-marks, NoneFresh,
}

module _ (hash_uint hash_int : ℕ → ℕ) where
  -- `set`, then `get` and the conversion to a value, as the emulator does.
  unfoldable pub read_back : Memory → ℕ → Value → ℕ → Run Value
  read_back m a v next_id = set hash_uint hash_int m a v next_id >>= λ (m', next_id').
      get hash_uint hash_int m' a v.size next_id' >>= λ (values, next_id'').
      to_value hash_uint hash_int values next_id'' >>= λ (w, last_id). done w

  -- It is enough to know the bytes and what they join to.
  read_back-bytes :
      (m : Memory) (a : ℕ) (v w b : Value) (bs : List Value) (next_id next_id' : ℕ)
      → IsMemory m
      → a + v.size < top
      → value_bytes hash_uint hash_int a v v.container next_id ≡ done (b ∷ bs, next_id')
      → length (b ∷ bs) ≡ v.size
      → ((n : ℕ)
          → to_value hash_uint hash_int (record { address = a; container = b ∷ bs }) n
            ≡ done (w, n))
      → read_back m a v next_id ≡ done w
  unfolding read_back set
  read_back-bytes m a v w b bs next_id next_id' c h e len joins =
      let r = get-set_bytes hash_uint hash_int m a b bs next_id' c (omega arith) in
      let read =
        subst
          (λ (k : ℕ).
            get hash_uint hash_int r.0 a k next_id'
            ≡ done (record { address = a; container = b ∷ bs }, r.1))
          len r.4 in
      rw (e, r.2, read, joins r.1)

  to_value-number :
      (a s k n next_id : ℕ)
      → k < 8
      → n < 256 ^ suc k
      → n < word
      → to_value hash_uint hash_int
          (record { address = a; container = number_bytes s (suc k) n })
          next_id
        ≡ done (make_value s n 8, next_id)
  unfolding to_value number_bytes make_value
  to_value-number a s k n next_id short h w =
      let id = (last_symbol (number_bytes s (suc k) n)).0 in
      let j = join-number_bytes hash_uint hash_int s a (suc k) n id h w in
      let few =
        le→leb (length (number_bytes s (suc k) n)) 8
          (omega (arith, length-number_bytes s (suc k) n)) in
      rw (few, j.1, j.0)

  to_value-marks :
      (a s o k id next_id : ℕ)
      → IsHasher hash_uint
      → IsHasher hash_int
      → k < 8
      → id ≢ 0
      → id < word
      → to_value hash_uint hash_int
          (record {
            address = a;
            container = marks hash_uint hash_int s o a (suc k) (combine hash_int id o);
          })
          next_id
        ≡ done (symbol_value s (suc k) id o, next_id)
  unfolding to_value marks
  to_value-marks a s o k id next_id bu bi short named w =
      let id' = combine hash_int id o in
      let j = join-marks hash_uint hash_int s o a (suc k) id' bu (combine-lt hash_int id o) in
      let len = length-marks hash_uint hash_int s o a (suc k) id' in
      let few =
        le→leb (length (marks hash_uint hash_int s o a (suc k) id')) 8 (omega (arith, len)) in
      rw
        (
          few,
          last-marks hash_uint hash_int s o a k id',
          j.1,
          j.0,
          reverse-combine hash_int bi id o w,
          len,
        )
        (rw (make_symbolic_value-named next_id s (suc k) o id named))

  -- A number of one to eight bytes that fits them is read back as it was written, now as a value of
  -- eight bytes, from a well-formed memory and below the last address.
  pub read_back-number :
      (m : Memory) (a s k n next_id : ℕ)
      → IsMemory m
      → k < 8
      → a + suc k < top
      → n < 256 ^ suc k
      → n < word
      → read_back m a (make_value s n (suc k)) next_id ≡ done (make_value s n 8)
  unfolding make_value value_bytes number_bytes
  read_back-number m a s k n next_id c short h fits w =
      let few = le→leb (suc k) 8 (omega arith) in
      read_back-bytes m a (make_value s n (suc k)) (make_value s n 8) (make_value s (n % 256) 1)
        (number_bytes s k (n / 256)) next_id next_id c h (rw few) (length-number_bytes s (suc k) n)
        (λ i. to_value-number a s k n i short fits w)

  -- A symbol of one to eight bytes is read back as it was written, source, offset, identifier and
  -- size, from a well-formed memory and below the last address, if its identifier
  -- is a word and not 0 and no hash on the way is the 0 that asks for a fresh symbol.
  pub read_back-symbol :
      (m : Memory) (a s k id o next_id : ℕ)
      → IsMemory m
      → IsHasher hash_uint
      → IsHasher hash_int
      → k < 8
      → a + suc k < top
      → id ≢ 0
      → id < word
      → NoneFresh hash_uint hash_int a (suc k) (combine hash_int id o)
      → read_back m a (symbol_value s (suc k) id o) next_id ≡ done (symbol_value s (suc k) id o)
  unfolding value_bytes marks
  read_back-symbol m a s k id o next_id c bu bi short h named w none_fresh =
      let id' = combine hash_int id o in
      let v = symbol_value s (suc k) id o in
      read_back-bytes m a v v (symbol_value s 1 (combine hash_uint id' a) o)
        (marks hash_uint hash_int s o a k (combine hash_uint id' a)) next_id next_id c h
        (ap done (symbol_bytes-marks hash_uint hash_int s o a (suc k) id' next_id none_fresh))
        (length-marks hash_uint hash_int s o a (suc k) id')
        (λ i. to_value-marks a s o k id i bu bi short named w)

  -- `get` and the conversion to a value.
  unfoldable pub load : Memory → ℕ → ℕ → ℕ → Run Value
  load m a size next_id = get hash_uint hash_int m a size next_id >>= λ (values, next_id').
      to_value hash_uint hash_int values next_id' >>= λ (w, last_id). done w

  -- The write of a number, and the memory that it leaves.
  pub set-load_number :
      (m : Memory) (a s k n next_id : ℕ)
      → IsMemory m
      → k < 8
      → a + suc k < top
      → n < 256 ^ suc k
      → n < word
      → (m' : Memory) × (next_id' : ℕ) × (set hash_uint hash_int m a
            (make_value s n (suc k))
            next_id
          ≡ done (m', next_id'))
        × IsMemory m'
        × (load m' a (suc k) next_id' ≡ done (make_value s n 8))
  unfolding load set make_value value_bytes number_bytes
  set-load_number m a s k n next_id c short h fits w =
      let few = le→leb (suc k) 8 (omega arith) in
      let b = make_value s (n % 256) 1 in
      let bs = number_bytes s k (n / 256) in
      let same = length-number_bytes s (suc k) n in
      let r = get-set_bytes hash_uint hash_int m a b bs next_id c (omega (arith, same)) in
      let read =
        subst
          (λ (i : ℕ).
            get hash_uint hash_int r.0 a i next_id
            ≡ done (record { address = a; container = b ∷ bs }, r.1))
          same r.4 in
      (r.0, next_id, rw (few, r.2), r.3, rw (read, to_value-number a s k n r.1 short fits w))
