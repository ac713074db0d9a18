-- ===== src/Value.antt =====
-- virtual/value.hxx and virtual/value.cxx: a byte, register or address whose number is known, or a
-- symbol with an offset. Addresses are numbers, with `nullptr` as 0; an `intptr_t` is its 64-bit
-- pattern. `next_id_` is a state that every constructor of a fresh symbol takes and returns: two
-- runs of the atomic increment are two steps of that state.
pub mod Compare
use restruc.Base.{ℕ, ◌+◌, ◌*◌, ◌%◌, ◌^◌, Bool, true, false, bit_and, bit_or, if◌then◌else◌, ◌==◌}
use restruc.Hash.{word}

pub record Symbol : Type 0 where
  pub id : ℕ
  pub offset : ℕ

-- `std::variant<uintptr_t, Symbol>`.
pub data ValueContainer : Type 0 where
  concrete : ℕ → ValueContainer
  symbolic : Symbol → ValueContainer

pub record Value : Type 0 where
  pub source : ℕ
  pub container : ValueContainer
  pub size : ℕ

-- `Value::Symbol::Symbol`: the identifier 0 asks for a fresh one. The result is the symbol and the
-- state after it.
unfoldable pub new_symbol : ℕ → ℕ → ℕ → Symbol × ℕ
new_symbol next_id id offset =
    if id == 0
    then (record { id = next_id; offset = offset }, (next_id + 1) % word)
    else (record { id = id; offset = offset }, next_id)

unfoldable pub make_value : ℕ → ℕ → ℕ → Value
make_value source value size = record {
  source = source;
  container = ValueContainer.concrete value;
  size = size;
}

unfoldable pub make_symbolic_value : ℕ → ℕ → ℕ → ℕ → ℕ → Value × ℕ
unfolding new_symbol
make_symbolic_value next_id source size offset id =
    let (symbol, next_id') = new_symbol next_id id offset in
    (record { source = source; container = ValueContainer.symbolic symbol; size = size }, next_id')

unfoldable pub is_symbolic_container : ValueContainer → Bool
is_symbolic_container (ValueContainer.concrete n) = false
is_symbolic_container (ValueContainer.symbolic s) = true

unfoldable pub is_symbolic : Value → Bool
unfolding is_symbolic_container
is_symbolic v = is_symbolic_container v.container

raw_container : ValueContainer → ℕ
raw_container (ValueContainer.concrete n) = n
raw_container (ValueContainer.symbolic s) =
    bit_or (s.id * 2 ^ 32 % word) (bit_and s.offset 0xFFFFFFFF)

-- What `<=>`, `==` and `std::hash` of values read.
unfoldable pub raw_value : Value → ℕ
unfolding raw_container
raw_value v = raw_container v.container

raw_address_container : ValueContainer → ℕ
raw_address_container (ValueContainer.concrete n) = n
raw_address_container (ValueContainer.symbolic s) = s.id

unfoldable pub raw_address_value : Value → ℕ
unfolding raw_address_container
raw_address_value v = raw_address_container v.container

-- `operator==`.
unfoldable pub same_value : Value → Value → Bool
unfolding raw_value
same_value a b = raw_value a == raw_value b

unfoldable pub set_source : ℕ → Value → Value
set_source source v = record v { source = source }

unfoldable pub set_size : ℕ → Value → Value
set_size size v = record v { size = size }
