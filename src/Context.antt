-- ===== src/Context.antt =====
-- context.hxx and context.cxx: the registers and the memory of one emulated state, with a hash that
-- is kept up to date by taking the old value of a register out and the new one in. Contexts are
-- compared by that hash alone.
pub mod Hash
pub mod Laws
pub mod Total
use restruc.Base.{ℕ, ◌<◌, Bool, not, Option, none, some, List, [], ◌∷◌, if◌then◌else◌, ltb, ◌==◌}
use restruc.Base.Run.{Run, done, ◌>>=◌}
use restruc.Hash.{combine, reverse, IsHasher}
use restruc.Trie.{Tree}
use restruc.Value.{Value, ValueContainer, concrete, symbolic, make_symbolic_value}
use restruc.Zydis.{Register}
use restruc.Registers
use restruc.Memory
use restruc.Memory.{Memory, Values}

-- `std::hash` at the types that the code hashes; it is part of the standard library.
pub record Hashers : Type 0 where
  pub hash_address : ℕ → ℕ
  pub hash_uint : ℕ → ℕ
  pub hash_int : ℕ → ℕ
  pub hash_register : Register → ℕ

pub record AreHashers (h : Hashers) : Type 0 where
  pub address_bound : IsHasher h.hash_address
  pub uint_bound : IsHasher h.hash_uint
  pub int_bound : IsHasher h.hash_int
  pub register_bound : IsHasher h.hash_register

pub record Context : Type 0 where
  pub hash : ℕ
  pub registers : Tree Value
  pub memory : Memory

unfoldable pub get_register : Context → Register → Run (Option Value)
get_register c reg = Registers.get c.registers reg

-- `make_child`, which is `Context(parent)`: the parts are copied, the trees shared.
unfoldable pub make_child : Context → Context
make_child c = record { hash = c.hash; registers = c.registers; memory = c.memory }

-- `operator<` and `operator==`.
unfoldable pub less : Context → Context → Bool
less a b = ltb a.hash b.hash

unfoldable pub same_context : Context → Context → Bool
same_context a b = a.hash == b.hash

module _ (h : Hashers) where
  open h use {hash_address, hash_uint, hash_int, hash_register}

  take_container : ℕ → ValueContainer → ℕ
  take_container seed (concrete n) = reverse hash_uint seed n
  take_container seed (symbolic s) = reverse hash_uint (reverse hash_int seed s.offset) s.id

  put_container : ℕ → ValueContainer → ℕ
  put_container seed (concrete n) = combine hash_uint seed n
  put_container seed (symbolic s) = combine hash_int (combine hash_uint seed s.id) s.offset

  -- The hash without the old value: source, then offset and identifier, or the number.
  unfoldable pub take_value : ℕ → Value → ℕ
  unfolding take_container
  take_value seed old = take_container (reverse hash_address seed old.source) old.container

  -- The hash with the new value: identifier and offset, or the number, then the source.
  unfoldable pub put_value : ℕ → Value → ℕ
  unfolding put_container
  put_value seed v = combine hash_address (put_container seed v.container) v.source

  -- The register's name is hashed only where it had no value.
  take_old : Register → ℕ → Option Value → ℕ
  take_old reg seed (some old) = take_value seed old
  take_old reg seed none = combine hash_register seed reg

  unfoldable pub set_register : Context → Register → Value → Run Context
  unfolding take_old
  set_register c reg v =
      if not (Registers.is_tracked reg)
      then done c
      else (get_register c reg >>= λ old. Registers.set c.registers reg v >>= λ registers.
          done (record c { hash = put_value (take_old reg c.hash old) v; registers = registers }))

  unfoldable pub set_memory : Context → ℕ → Value → ℕ → Run (Context × ℕ)
  set_memory c address v next_id =
      Memory.set hash_uint hash_int c.memory address v next_id >>= λ (memory, next_id').
      done (record c { memory = memory }, next_id')

  unfoldable pub get_memory : Context → ℕ → ℕ → ℕ → Run (Values × ℕ)
  get_memory c address size next_id = Memory.get hash_uint hash_int c.memory address size next_id

  -- The loop of the constructor over `register_map`, in the order in which the map is walked.
  set_symbolic : Context → List Register → ℕ → Run (Context × ℕ)
  set_symbolic c [] next_id = done (c, next_id)
  set_symbolic c (reg ∷ regs) next_id =
      let (v, next_id') = make_symbolic_value next_id 0 8 0 0 in
      set_register c reg v >>= λ c'. set_symbolic c' regs next_id'

  -- `Context(nullptr)`.
  unfoldable pub new_context : List Register → ℕ → Run (Context × ℕ)
  unfolding set_symbolic
  new_context order next_id = Registers.new_registers next_id >>= λ (registers, next_id').
      set_symbolic (record { hash = 0; registers = registers; memory = Memory.new_memory }) order
        next_id'
