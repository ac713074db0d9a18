-- ===== src/Memory/Laws.antt =====
-- What memory promises: bytes written are the bytes read, at their addresses and at no others.
use restruc.Base.{
  ℕ, ◌+◌, ◌%◌, ◌≤◌, ◌<◌, ◌≡◌, refl, arith, false, Option, some, List, [], ◌∷◌, ==_refl, ne→==_false,
}
use restruc.Base.Run.{Run, done}
use restruc.Hash.{word}
use restruc.Value.{Value}
use restruc.Trie.{Tree, null, node, leaf}
use restruc.Memory.{Memory, top, length, get_value, is_null, set_bytes, get, default_values}
use restruc.Memory.Sparse.{IsSparse}
use restruc.Memory.Ranges.{WrittenAll, overlay}
use restruc.Memory.Write.{set_range-Written}
use restruc.Memory.Read.{Stops, descend-Stops, Holds, Holds-congruent, get_each-Holds}

abbrev pub IsMemory : Memory → Type 0
IsMemory m = IsSparse 0 top m.holder

-- The byte at an address, if one was written.
unfoldable pub byte_at : Memory → ℕ → Run (Option Value)
byte_at m j = get_value m.holder 0 top j

pub set_bytes-overlay :
    (m : Memory) (a : ℕ) (v : Value) (vs : List Value)
    → IsMemory m
    → a + length (v ∷ vs) ≤ top
    → (m' : Memory) × (set_bytes m a (v ∷ vs) ≡ done m')
      × IsMemory m'
      × (m'.default_source ≡ m.default_source)
      × ((j : ℕ) → j < top → byte_at m' j ≡ overlay (byte_at m) a (v ∷ vs) j)
unfolding set_bytes byte_at WrittenAll
set_bytes-overlay m a v vs c h =
    let s =
      set_range-Written 64 m.holder 0 top a (v ∷ vs) c (omega arith) (omega arith) (omega arith)
        (λ z. refl) (omega arith) h in
    let unwrapped : (a + length (v ∷ vs)) % word ≡ a + length (v ∷ vs) = omega arith in
    (record m { holder = s.0 }, rw unwrapped (rw s.1), s.2, refl, λ j p. s.3 j (omega arith) p)

-- Bytes that end at the last address or below are written there and change no other byte below it;
-- memory stays well formed, so no fault and no shortage of fuel arises.
pub set_bytes-byte_at :
    (m : Memory) (a : ℕ) (v : Value) (vs : List Value) (j : ℕ)
    → IsMemory m
    → a + length (v ∷ vs) ≤ top
    → j < top
    → (m' : Memory) × (set_bytes m a (v ∷ vs) ≡ done m')
      × IsMemory m'
      × (byte_at m' j ≡ overlay (byte_at m) a (v ∷ vs) j)
set_bytes-byte_at m a v vs j c h p =
    let s = set_bytes-overlay m a v vs c h in (s.0, s.1, s.2, s.4 j p)

-- What was written holds.
overlay-Holds :
    (before : ℕ → Run (Option Value)) (i : ℕ) (vs : List Value) → Holds (overlay before i vs) i vs
overlay-Holds before i [] = tt
overlay-Holds before i (v ∷ vs) = (
  rw (==_refl i),
  Holds-congruent _ (overlay before (i + 1) vs) (i + 1) vs
      (λ j p q. rw (ne→==_false j i (omega arith))) (overlay-Holds before (i + 1) vs),
)

answers :
    (t : Tree Value) (begin end i : ℕ) (v : Value)
    → get_value t begin end i ≡ done (some v)
    → is_null t ≡ false
unfolding get_value is_null
answers null begin end i v e = cc
answers (node l r) begin end i v e = refl
answers (leaf a) begin end i v e = refl

module _ (hash_uint hash_int : ℕ → ℕ) where
  -- `get` of a well-formed memory returns the bytes at its address, when all of them were written and
  -- they end below the last address.
  pub get-Holds :
      (m : Memory) (a : ℕ) (v : Value) (vs : List Value) (next_id : ℕ)
      → IsMemory m
      → a + length (v ∷ vs) < top
      → Holds (byte_at m) a (v ∷ vs)
      → (next_id' : ℕ) × (get hash_uint hash_int m a (length (v ∷ vs)) next_id
          ≡ done (record { address = a; container = v ∷ vs }, next_id'))
  unfolding byte_at get Stops
  get-Holds m a v vs next_id c h holds =
      let n = length (v ∷ vs) in
      let id' = (default_values hash_uint hash_int a n m.default_source next_id).1 in
      let s =
        descend-Stops m.holder 0 top a (a + n) c (omega arith) (omega arith) (omega arith) h in
      let unwrapped : (a + n) % word ≡ a + n = omega arith in
      let there = Holds-congruent (get_value s.0 s.1 s.2) (byte_at m) a (v ∷ vs) s.4 holds in
      let found = answers s.0 s.1 s.2 a v there.0 in
      (
        id',
        rw unwrapped (
            rw (
              s.3,
              found,
              get_each-Holds m.default_source s.0 s.1 s.2 a (v ∷ vs) id' (omega arith) there,
            )),
      )

  -- Bytes that end below the last address, written to a well-formed memory, are read back at their
  -- address as they are and in their order.
  pub get-set_bytes :
      (m : Memory) (a : ℕ) (v : Value) (vs : List Value) (next_id : ℕ)
      → IsMemory m
      → a + length (v ∷ vs) < top
      → (m' : Memory) × (next_id' : ℕ) × (set_bytes m a (v ∷ vs) ≡ done m')
        × IsMemory m'
        × (get hash_uint hash_int m' a (length (v ∷ vs)) next_id
            ≡ done (record { address = a; container = v ∷ vs }, next_id'))
  get-set_bytes m a v vs next_id c h =
      let s = set_bytes-overlay m a v vs c (omega arith) in
      let holds =
        Holds-congruent (byte_at s.0) (overlay (byte_at m) a (v ∷ vs)) a (v ∷ vs)
          (λ j p q. s.4 j (omega arith)) (overlay-Holds (byte_at m) a (v ∷ vs)) in
      let read = get-Holds s.0 a v vs next_id s.2 h holds in (s.0, read.0, s.1, s.2, read.1)
