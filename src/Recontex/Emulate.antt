-- ===== src/Recontex/Emulate.antt =====
-- recontex.cxx, `emulate` and the functions that it calls: one instruction on one context.
use restruc.Base.{ℕ, ◌+◌, ◌-◌, ◌/◌, ◌%◌, not, Option, none, some, List, [], ◌∷◌, if◌then◌else◌}
use restruc.Base.Run.{Run, done, fault, ◌>>=◌}
use restruc.Hash.{word}
use restruc.Value.{Value, make_value, make_symbolic_value, raw_address_value, set_source}
use restruc.Zydis
use restruc.Zydis.{
  Mnemonic, Register, no_register, qword64, zmm, rax, rcx, rdx, rsp, r8, r9, r10, r11, Instruction,
  register_operand, memory_operand, immediate_operand, other_operand, mov, movzx, movsx, movsxd,
  lea, add, sub, or, and, xor, imul, inc, dec, push, pop, call, ret,
}
use restruc.Context.{Context, get_register, set_register, set_memory}
use restruc.Recontex.{Externals, known_number, operand_at}
use restruc.Recontex.Operands.{get_memory_address, get_operand}
use restruc.Recontex.Callbacks.{
  increased, volatile_registers, emulation_callback_action, move_callback,
  emulate_instruction_helper,
}
use restruc.Recontex.Instruction.{write_operand, emulate_instruction}

abbrev stack_pointer : Register
stack_pointer = qword64 rsp

module _ (x : Externals) where
  unfoldable pub emulate_instruction_lea : Instruction → Context → ℕ → ℕ → Run (Context × ℕ)
  emulate_instruction_lea i c address next_id = do
    (dst, n₁) ← get_operand x (operand_at x.unused i.operands 0) c address next_id
    (src, n₂) ← get_operand x (operand_at x.unused i.operands 1) c address n₁
    elim src.address [
      | none ↦ done (c, n₂)
      | some a ↦ set_register x.hashers c dst.reg (make_value address a 8) >>= λ c'. done (c', n₂)
    ]

  unfoldable pub emulate_instruction_push : Instruction → Context → ℕ → ℕ → Run (Context × ℕ)
  unfolding known_number
  emulate_instruction_push i c address next_id = do
    found ← get_register c stack_pointer
    elim (known_number found) [
      | none ↦ done (c, next_id)
      | some n ↦ do
        let new_rsp = (n + (word - 8)) % word
        (op, n₁) ← get_operand x (operand_at x.unused i.operands 0) c address next_id
        c' ← set_register x.hashers c stack_pointer (make_value address new_rsp 8)
        set_memory x.hashers c' new_rsp (set_source address op.value) n₁
    ]

  unfoldable pub emulate_instruction_pop : Instruction → Context → ℕ → ℕ → Run (Context × ℕ)
  unfolding known_number
  emulate_instruction_pop i c address next_id = do
    found ← get_register c stack_pointer
    elim (known_number found) [
      | none ↦ done (c, next_id)
      | some n ↦ do
        c' ← set_register x.hashers c stack_pointer (make_value address ((n + 8) % word) 8)
        (op, n₁) ← get_operand x (operand_at x.unused i.operands 0) c' address next_id
        write_operand x c' op (set_source address op.value) n₁
    ]

  -- A fresh symbol in each register of the list.
  unfoldable pub reset_registers : Context → ℕ → List Register → ℕ → Run (Context × ℕ)
  reset_registers c address [] next_id = done (c, next_id)
  reset_registers c address (r ∷ rs) next_id =
      let (v, next_id') = make_symbolic_value next_id address 8 0 0 in
      set_register x.hashers c r v >>= λ c'. reset_registers c' address rs next_id'

  unfoldable pub emulate_instruction_call : Context → ℕ → ℕ → Run (Context × ℕ)
  emulate_instruction_call c address next_id = reset_registers c address volatile_registers next_id

  unfoldable pub emulate_instruction_ret : Context → ℕ → ℕ → Run (Context × ℕ)
  unfolding known_number
  emulate_instruction_ret c address next_id = do
    found ← get_register c stack_pointer
    elim (known_number found) [
      | none ↦ done (c, next_id)
      | some n ↦ do
        c' ← set_register x.hashers c stack_pointer (make_value address ((n + 8) % word) 8)
        done (c', next_id)
    ]

  unfoldable pub emulate_instruction_inc : Instruction → Context → ℕ → ℕ → ℕ → Run (Context × ℕ)
  unfolding increased
  emulate_instruction_inc i c address offset next_id = do
    (dst, n₁) ← get_operand x (operand_at x.unused i.operands 0) c address next_id
    let (blank, n₂) = make_symbolic_value n₁ 0 8 0 0
    let (result, n₃) = increased address offset (Value.container dst.value) n₂
    write_operand x c dst result n₃

  -- The default case: what is written becomes unknown. The address is computed before the symbol is
  -- made, an order that C++ leaves open.
  unfoldable pub forget_operand : Context → ℕ → ℕ → Zydis.OperandType → ℕ → Run (Context × ℕ)
  forget_operand c address element_size (register_operand r) next_id =
      let (v, n₁) = make_symbolic_value next_id address (element_size / 8) 0 0 in
      set_register x.hashers c r v >>= λ c'. done (c', n₁)
  forget_operand c address element_size (memory_operand m) next_id = do
    (a, n₁) ← get_memory_address x c element_size m next_id
    let (v, n₂) = make_symbolic_value n₁ address (element_size / 8) 0 0
    set_memory x.hashers c (raw_address_value a) v n₂
  forget_operand c address element_size _ next_id = done (c, next_id)

  unfoldable pub forget_written : Context → ℕ → List Zydis.Operand → ℕ → Run (Context × ℕ)
  unfolding forget_operand
  forget_written c address [] next_id = done (c, next_id)
  forget_written c address (op ∷ ops) next_id = do
    (c', n₁) ←
        if not op.is_written
        then done (c, next_id)
        else forget_operand c address op.element_size op.kind next_id
    forget_written c' address ops n₁

  unfoldable pub emulate_action :
      Instruction → Context → ℕ → ℕ → Option (ℕ → ℕ → ℕ) → Run (Context × ℕ)
  emulate_action i c address next_id none = fault
  emulate_action i c address next_id (some action) =
      emulate_instruction x i c address (emulate_instruction_helper action) next_id

  -- The switch, on the mnemonic. `at` of the table of actions would throw without an entry.
  unfoldable pub emulate_mnemonic : Mnemonic → ℕ → Instruction → Context → ℕ → Run (Context × ℕ)
  unfolding emulate_action
  emulate_mnemonic mov address i c next_id = emulate_instruction x i c address move_callback next_id
  emulate_mnemonic movzx address i c next_id =
      emulate_instruction x i c address move_callback next_id
  emulate_mnemonic movsx address i c next_id =
      emulate_instruction x i c address move_callback next_id
  emulate_mnemonic movsxd address i c next_id =
      emulate_instruction x i c address move_callback next_id
  emulate_mnemonic add address i c next_id =
      emulate_action i c address next_id (emulation_callback_action add)
  emulate_mnemonic sub address i c next_id =
      emulate_action i c address next_id (emulation_callback_action sub)
  emulate_mnemonic or address i c next_id =
      emulate_action i c address next_id (emulation_callback_action or)
  emulate_mnemonic and address i c next_id =
      emulate_action i c address next_id (emulation_callback_action and)
  emulate_mnemonic xor address i c next_id =
      emulate_action i c address next_id (emulation_callback_action xor)
  emulate_mnemonic imul address i c next_id =
      emulate_action i c address next_id (emulation_callback_action imul)
  emulate_mnemonic lea address i c next_id = emulate_instruction_lea i c address next_id
  emulate_mnemonic push address i c next_id = emulate_instruction_push i c address next_id
  emulate_mnemonic pop address i c next_id = emulate_instruction_pop i c address next_id
  emulate_mnemonic call address i c next_id = emulate_instruction_call c address next_id
  emulate_mnemonic ret address i c next_id = emulate_instruction_ret c address next_id
  emulate_mnemonic inc address i c next_id = emulate_instruction_inc i c address 1 next_id
  emulate_mnemonic dec address i c next_id = emulate_instruction_inc i c address (word - 1) next_id
  emulate_mnemonic _ address i c next_id = forget_written c address i.operands next_id

  unfoldable pub emulate : ℕ → Instruction → Context → ℕ → Run (Context × ℕ)
  unfolding emulate_mnemonic
  emulate address i c next_id = emulate_mnemonic i.mnemonic address i c next_id
