-- ===== src/Memory/Convert.antt =====
-- `Memory::Values::operator Value`: the bytes of a read, joined into one value. The hash that
-- `symbol_bytes` wound up is unwound from the last byte on.
use restruc.Base.{ℕ, ◌*◌, ◌%◌, ◌^◌, Bool, true, false, List, [], ◌∷◌, bit_or, if◌then◌else◌, leb}
use restruc.Base.Run.{Run, done, fault}
use restruc.Hash.{word, reverse}
use restruc.Value.{Value, ValueContainer, concrete, symbolic, make_value, make_symbolic_value}
use restruc.Memory.{Values, length}

-- The variables of the loop.
pub record Joined : Type 0 where
  pub is_symbolic : Bool
  pub value : ℕ
  pub id : ℕ

-- Identifier and offset of the last byte.
unfoldable pub last_symbol : List Value → ℕ × ℕ
last_symbol [] = (0, 0)
last_symbol (v ∷ []) = elim v.container [ concrete n ↦ (0, 0) | symbolic s ↦ (s.id, s.offset) ]
last_symbol (v ∷ w ∷ vs) = last_symbol (w ∷ vs)

module _ (hash_uint hash_int : ℕ → ℕ) where
  join_byte : ℕ → ValueContainer → Joined → Joined
  join_byte address (concrete b) j = record j {
    value = bit_or (j.value * 2 ^ 8 % word) b;
    id = reverse hash_uint j.id b;
  }
  join_byte address (symbolic s) j = record j {
    is_symbolic = true;
    id = reverse hash_uint j.id address;
  }

  -- The loop from `rbegin` to `rend`.
  unfoldable pub join_bytes : ℕ → List Value → Joined → Joined
  unfolding join_byte
  join_bytes address [] j = j
  join_bytes address (v ∷ vs) j = join_byte address v.container (join_bytes address vs j)

  -- With no byte at all the code reads the back of an empty vector; more than eight give `Value()`.
  unfoldable pub to_value : Values → ℕ → Run (Value × ℕ)
  unfolding last_symbol
  to_value values next_id = elim values.container [
    | [] ↦ fault
    | v ∷ vs ↦
        let bytes = v ∷ vs in
        let (id, offset) = last_symbol bytes in
        let j =
          join_bytes values.address bytes (record { is_symbolic = false; value = 0; id = id }) in
        done (
          if leb (length bytes) 8
          then (if j.is_symbolic
              then make_symbolic_value next_id v.source (length bytes) offset
                  (reverse hash_int j.id offset)
              else (make_value v.source j.value 8, next_id))
          else make_symbolic_value next_id 0 8 0 0)
  ]
