-- ===== src/Recontex/Operands.antt =====
-- recontex.cxx, `get_memory_address` and `get_operand`: the address of a memory operand, and the
-- value, address and register that an operand stands for.
use restruc.Base.{
  ℕ, ◌+◌, ◌*◌, ◌/◌, ◌%◌, ◌^◌, Bool, true, false, not, ◌&&◌, Option, none, some, bit_and, bit_or,
  if◌then◌else◌, ◌==◌,
}
use restruc.Base.Run.{Run, done, ◌>>=◌}
use restruc.Hash.{word, combine}
use restruc.Value.{
  Value, ValueContainer, concrete, symbolic, make_value, make_symbolic_value, raw_address_value,
  set_size,
}
use restruc.Zydis
use restruc.Zydis.{
  Register, no_register, rip, rsp, qword64, MemoryOperand, register_operand, memory_operand,
  immediate_operand, other_operand,
}
use restruc.Registers.{from_zydis}
use restruc.Memory.Convert.{to_value}
use restruc.Context.{Context, get_register, get_memory}
use restruc.Recontex.{Externals, Operand, new_operand, same_register}

-- `magic_stack_value_` and `magic_stack_value_mask_`.
abbrev pub magic_stack_value : ℕ
magic_stack_value = 0xFFF4B1D1

abbrev pub magic_stack_value_mask : ℕ
magic_stack_value_mask = 0xFFF4B1D0 * 2 ^ 32

-- The local variables of `get_memory_address`.
pub record AddressSum : Type 0 where
  pub symbolic_part : Bool
  pub value : ℕ
  pub symbol : ℕ

module _ (x : Externals) where
  open x.hashers use {hash_uint, hash_int}

  hash_name : Register → ℕ → ℕ
  hash_name r seed = elim (from_zydis r) [ none ↦ seed | some i ↦ combine x.hash_reg seed i ]

  -- One register of the sum; `scale` is 1 at the base.
  add_container : Register → ℕ → AddressSum → ValueContainer → AddressSum
  unfolding hash_name
  add_container r scale sum (concrete n) = record sum {
    value = (sum.value + n * scale % word) % word;
  }
  add_container r scale sum (symbolic s) = record sum {
    symbolic_part = true;
    symbol = combine hash_int (combine hash_uint (hash_name r sum.symbol) s.id) s.offset;
  }

  unfoldable pub add_register : Register → ℕ → AddressSum → Option Value → AddressSum
  unfolding add_container
  add_register r scale sum none = record sum { symbolic_part = true }
  add_register r scale sum (some v) = add_container r scale sum v.container

  -- The base, which does not count if it is RIP, then the index with its scale.
  add_base : Context → MemoryOperand → AddressSum → Run AddressSum
  unfolding add_register
  add_base c m sum =
      if not (same_register m.base no_register) && not (same_register m.base rip)
      then (get_register c m.base >>= λ base. done (add_register m.base 1 sum base))
      else done sum

  add_index : Context → MemoryOperand → AddressSum → Run AddressSum
  unfolding add_register
  add_index c m sum =
      if not (same_register m.index no_register)
      then (get_register c m.index >>= λ index.
          let sum' = add_register m.index m.scale sum index in
          done (record sum' { symbol = combine x.hash_scale sum'.symbol m.scale }))
      else done sum

  -- The displacement, and the mark of an operand without a size, as LEA has.
  add_rest : ℕ → MemoryOperand → AddressSum → AddressSum
  add_rest element_size m sum =
      let moved =
        if m.has_displacement
        then record sum {
          value = (sum.value + m.displacement) % word;
          symbol = combine hash_int sum.symbol m.displacement;
        }
        else sum in
      if element_size == 0
      then record moved { symbol = combine x.hash_bool moved.symbol true }
      else moved

  sum_to_value : MemoryOperand → AddressSum → ℕ → Value × ℕ
  sum_to_value m sum next_id =
      if sum.symbolic_part
      then make_symbolic_value next_id 0 8 0 (
          if same_register m.base (qword64 rsp)
          then bit_or magic_stack_value_mask (bit_and sum.symbol 0xFFFFFFFF)
          else sum.symbol)
      else (make_value 0 sum.value 8, next_id)

  unfoldable pub get_memory_address : Context → ℕ → MemoryOperand → ℕ → Run (Value × ℕ)
  unfolding add_base add_index add_rest sum_to_value
  get_memory_address c element_size m next_id = do
    based ← add_base c m (record { symbolic_part = false; value = 0; symbol = 0 })
    indexed ← add_index c m based
    done (sum_to_value m (add_rest element_size m indexed) next_id)

  -- A register operand: the whole promoted register, with the operand's size.
  register_value : ℕ → ℕ → Option Value → ℕ → Value × ℕ
  register_value source size none next_id = make_symbolic_value next_id source size 0 0
  register_value source size (some v) next_id = (set_size size v, next_id)

  memory_value : Context → ℕ → ℕ → ℕ → ℕ → Run (Value × ℕ)
  memory_value c source element_size address next_id =
      if not (element_size == 0)
      then (get_memory x.hashers c address (element_size / 8) next_id >>= λ (values, next_id').
          to_value hash_uint hash_int values next_id')
      else done (make_symbolic_value next_id source (element_size / 8) 0 0)

  -- The switch of `get_operand`, on the operand `op` that starts with a fresh symbol.
  fill_operand : Context → ℕ → ℕ → Operand → Zydis.OperandType → ℕ → Run (Operand × ℕ)
  unfolding register_value memory_value
  fill_operand c source element_size op (immediate_operand imm) next_id =
      done (record op { value = make_value source imm.value (element_size / 8) }, next_id)
  fill_operand c source element_size op (register_operand r) next_id =
      get_register c r >>= λ valsrc.
      let (v, next_id') = register_value source (element_size / 8) valsrc next_id in
      done (record op { reg = r; value = v }, next_id')
  fill_operand c source element_size op (memory_operand m) next_id = do
    (address, next_id') ← get_memory_address c element_size m next_id
    let a = raw_address_value address
    (v, last_id) ← memory_value c source element_size a next_id'
    done (record op { address = some a; value = v }, last_id)
  fill_operand c source element_size op other_operand next_id =
      let (v, next_id') = make_symbolic_value next_id source (element_size / 8) 0 0 in
      done (record op { value = v }, next_id')

  unfoldable pub get_operand : Zydis.Operand → Context → ℕ → ℕ → Run (Operand × ℕ)
  unfolding fill_operand
  get_operand operand c source next_id =
      let (op, next_id') = new_operand next_id in
      fill_operand c source operand.element_size op operand.kind next_id'
