-- ===== src/Tests.antt =====
-- Concrete machines and functions, on which the theorems are applied.
pub mod Machine
pub mod Stores
pub mod Flow
pub mod Fields
pub mod Cycles
pub mod Emulation
pub mod Image
pub mod Discovery
pub mod Paths
pub mod Merging
pub mod Recovery
pub mod Histories
use restruc.Base.{ℕ, ◌%◌, ◌<◌, ◌≡◌, refl, arith, none, List, [], ◌∷◌, false}
use restruc.Hash.{word, IsHasher}
use restruc.Trie.{Tree}
use restruc.Value.{Value, make_value}
use restruc.Value.Compare.{symbol_value}
use restruc.Zydis.{
  Instruction, Mnemonic, Operand, Register, immediate_operand, jmp, ret, rax, jz, mov, low8, high8,
}
use restruc.Registers.Initial.{new_registers-IsComplete}
use restruc.Registers.Laws.{IsFile}
use restruc.Memory.{Memory, new_memory}
use restruc.Memory.Laws.{IsMemory}
use restruc.Context.{Hashers, AreHashers, Context}
use restruc.Context.Laws.{IsContext}

-- A hash of numbers that keeps them.
abbrev pub hash_number : ℕ → ℕ
hash_number v = v % word

pub hash_number-IsHasher : IsHasher hash_number
hash_number-IsHasher v = omega arith

abbrev pub hash_name : Register → ℕ
hash_name (low8 g) = 1
hash_name (high8 g) = 2
hash_name r = 3

hash_name-IsHasher : IsHasher hash_name
hash_name-IsHasher (low8 g) = omega arith
hash_name-IsHasher (high8 g) = omega arith
hash_name-IsHasher r = omega arith

abbrev pub hashers : Hashers
hashers = record {
  hash_address = hash_number;
  hash_uint = hash_number;
  hash_int = hash_number;
  hash_register = hash_name;
}

pub hashers-AreHashers : AreHashers hashers
hashers-AreHashers = record {
  address_bound = hash_number-IsHasher;
  uint_bound = hash_number-IsHasher;
  int_bound = hash_number-IsHasher;
  register_bound = hash_name-IsHasher;
}

-- The register file of the first context.
abbrev pub first_file : Tree Value
first_file = (new_registers-IsComplete 1).0

pub first_file-IsFile : IsFile first_file
first_file-IsFile = (new_registers-IsComplete 1).3

abbrev pub empty : Memory
empty = new_memory

pub empty-IsMemory : IsMemory empty
empty-IsMemory = unfold new_memory in (omega arith, tt, tt)

abbrev pub first_context : Context
first_context = record { hash = 0; registers = first_file; memory = empty }

pub first_context-IsContext : IsContext first_context
first_context-IsContext = record { file = first_file-IsFile; hash_bound = omega arith }
