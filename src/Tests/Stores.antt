-- ===== src/Tests/Stores.antt =====
-- The theorems on memory, applied.
use restruc.Base.{ℕ, ◌≡◌, arith, [], ◌∷◌}
use restruc.Base.Run.{done}
use restruc.Hash.{combine}
use restruc.Value.{Value, make_value}
use restruc.Value.Compare.{symbol_value}
use restruc.Memory
use restruc.Memory.{Memory, Values, length, set_bytes}
use restruc.Memory.Read.{Holds}
use restruc.Memory.Laws.{IsMemory, byte_at, set_bytes-overlay, get-set_bytes}
use restruc.Memory.ReadBack.{read_back, read_back-symbol}
use restruc.Memory.RoundTrip.{NoneFresh}
use restruc.Tests.{hash_number, hash_number-IsHasher, empty, empty-IsMemory}

abbrev pub one : Value
one = make_value 0 1 1

abbrev pub two : Value
two = make_value 0 2 1

get-set_bytes_example :
    (m' : Memory) × (next_id' : ℕ) × (set_bytes empty 4096 (one ∷ two ∷ []) ≡ done m')
    × IsMemory m'
    × (Memory.get hash_number hash_number m' 4096 (length (one ∷ two ∷ [])) 1
        ≡ done (record { address = 4096; container = one ∷ two ∷ [] }, next_id'))
get-set_bytes_example =
    get-set_bytes hash_number hash_number empty 4096 one (two ∷ []) 1 empty-IsMemory (omega arith)

-- A memory with two bytes.
abbrev pub filled : Memory
filled = (set_bytes-overlay empty 4096 one (two ∷ []) empty-IsMemory (omega arith)).0

pub filled-IsMemory : IsMemory filled
filled-IsMemory = (set_bytes-overlay empty 4096 one (two ∷ []) empty-IsMemory (omega arith)).2

pub filled-Holds : Holds (byte_at filled) 4096 (one ∷ two ∷ [])
filled-Holds =
    let s = set_bytes-overlay empty 4096 one (two ∷ []) empty-IsMemory (omega arith) in
    (s.4 4096 (omega arith), (s.4 4097 (omega arith), tt))

symbol-NoneFresh : NoneFresh hash_number hash_number 4096 2 (combine hash_number 3 0)
symbol-NoneFresh = unfold combine in (omega arith, (omega arith, tt))

read_back-symbol_example :
    read_back hash_number hash_number empty 4096 (symbol_value 16 2 3 0) 1
    ≡ done (symbol_value 16 2 3 0)
read_back-symbol_example =
    read_back-symbol hash_number hash_number empty 4096 16 1 3 0 1 empty-IsMemory
      hash_number-IsHasher hash_number-IsHasher (omega arith) (omega arith) (omega arith)
      (omega arith) symbol-NoneFresh
