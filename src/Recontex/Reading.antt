-- ===== src/Recontex/Reading.antt =====
-- What `get_operand` returns for the operands that read no memory.
use restruc.Base.{ℕ, ◌/◌, ◌≡◌, none, some, false, ◌==◌}
use restruc.Memory.{Values}
use restruc.Memory.Convert.{to_value}
use restruc.Base.Run.{done}
use restruc.Value.{Value, set_size, make_value, raw_address_value}
use restruc.Zydis
use restruc.Zydis.{
  Register, Gpr, qword64, Immediate, MemoryOperand, no_register, memory_operand, register_operand,
  immediate_operand,
}
use restruc.Context.{Context, get_register, get_memory}
use restruc.Recontex.{Externals, new_operand}
use restruc.Recontex.Operands.{get_operand, get_memory_address}

-- The whole of a 64-bit register.
abbrev pub IsWhole : Zydis.Operand → Gpr → Type 0
IsWhole op g = (op.kind ≡ register_operand (qword64 g)) × (op.element_size ≡ 64)

module _ (x : Externals) where
  -- A register that has a value: that value, with the operand's size.
  pub get_operand-register :
      (op : Zydis.Operand) (c : Context) (source next_id size : ℕ) (r : Register) (v : Value)
      → op.kind ≡ register_operand r
      → op.element_size / 8 ≡ size
      → get_register c r ≡ done (some v)
      → get_operand x op c source next_id
        ≡ done
            (record { value = set_size size v; address = none; reg = r }, (new_operand next_id).1)
  unfolding get_operand new_operand
  get_operand-register op c source next_id size r v e width g = rw (e, get_operand, g) (rw width)

  pub get_operand-immediate :
      (op : Zydis.Operand) (c : Context) (source next_id : ℕ) (imm : Immediate)
      → op.kind ≡ immediate_operand imm
      → get_operand x op c source next_id
        ≡ done (
          record (new_operand next_id).0 {
            value = make_value source imm.value (op.element_size / 8);
          },
          (new_operand next_id).1,
        )
  unfolding get_operand new_operand
  get_operand-immediate op c source next_id imm e = rw (e, get_operand)

  -- A memory operand with a size: its address, and what memory holds there.
  pub get_operand-memory :
      (op : Zydis.Operand) (c : Context) (m : MemoryOperand) (a v : Value) (values : Values)
      (source next_id n₁ n₂ n₃ : ℕ)
      → op.kind ≡ memory_operand m
      → (op.element_size == 0) ≡ false
      → get_memory_address x c op.element_size m (new_operand next_id).1 ≡ done (a, n₁)
      → get_memory x.hashers c (raw_address_value a) (op.element_size / 8) n₁ ≡ done (values, n₂)
      → to_value x.hashers.hash_uint x.hashers.hash_int values n₂ ≡ done (v, n₃)
      → get_operand x op c source next_id
        ≡ done (record { value = v; address = some (raw_address_value a); reg = no_register }, n₃)
  unfolding get_operand new_operand
  get_operand-memory op c m a v values source next_id n₁ n₂ n₃ e sized at_address read joined =
      rw (e, get_operand, at_address) (rw (sized, read) (rw joined))

  -- The whole of a 64-bit register.
  pub get_operand-whole :
      (op : Zydis.Operand) (c : Context) (source next_id : ℕ) (g : Gpr) (v : Value)
      → IsWhole op g
      → get_register c (qword64 g) ≡ done (some v)
      → get_operand x op c source next_id
        ≡ done (
          record { value = set_size 8 v; address = none; reg = qword64 g },
          (new_operand next_id).1,
        )
  get_operand-whole op c source next_id g v whole q =
      get_operand-register op c source next_id 8 (qword64 g) v whole.0 (rw whole.1) q
