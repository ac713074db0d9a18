-- ===== src/Recontex/Instruction.antt =====
-- recontex.cxx, `emulate_instruction`: two or three operands, and a callback for the result.
use restruc.Base.{ℕ, ◌/◌, Bool, true, false, not, ◌&&◌, none, some, if◌then◌else◌, leb}
use restruc.Base.Run.{Run, done, ◌>>=◌}
use restruc.Value.{Value, make_value, make_symbolic_value, set_source}
use restruc.Zydis
use restruc.Zydis.{
  Mnemonic, Register, no_register, qword64, zmm, rax, rcx, rdx, rsp, r8, r9, r10, r11, Instruction,
  register_operand, memory_operand, immediate_operand, other_operand, mov, movzx, movsx, movsxd,
  lea, add, sub, or, and, xor, imul, inc, dec, push, pop, call, ret,
}
use restruc.Memory.{length}
use restruc.Context.{Context, set_register, set_memory}
use restruc.Recontex.{Externals, Operand, new_operand, same_register, operand_at}
use restruc.Recontex.Operands.{get_operand}
use restruc.Recontex.Callbacks.{EmulationCallback}

module _ (x : Externals) where
  -- Writing the destination: its register if it has one, else its address if it has one.
  unfoldable pub write_operand : Context → Operand → Value → ℕ → Run (Context × ℕ)
  write_operand c op v next_id =
      if not (same_register op.reg no_register)
      then (set_register x.hashers c op.reg v >>= λ c'. done (c', next_id))
      else elim op.address [
        | none ↦ done (c, next_id)
        | some a ↦ set_memory x.hashers c a v next_id
      ]

  -- The second operand, if it is counted and explicit; `src` was made before.
  unfoldable pub source_operand : Instruction → Context → ℕ → Operand → ℕ → Run (Operand × ℕ)
  source_operand i c address src next_id =
      let op2 = operand_at x.unused i.operands 1 in
      if leb 2 (length i.operands) && op2.is_explicit
      then get_operand x op2 c address next_id
      else done (src, next_id)

  is_immediate : Zydis.OperandType → Bool
  is_immediate (immediate_operand imm) = true
  is_immediate _ = false

  has_third : Instruction → Bool
  has_third i =
      leb 3 (length i.operands) && Zydis.Operand.is_explicit (operand_at x.unused i.operands 2)

  -- `imm`, the third operand if it is counted, explicit and immediate; the value was made before.
  unfoldable pub third_value : Instruction → Context → ℕ → Value → ℕ → Run (Value × ℕ)
  unfolding has_third is_immediate
  third_value i c address imm next_id =
      let op3 = operand_at x.unused i.operands 2 in
      if has_third i && is_immediate op3.kind
      then (get_operand x op3 c address next_id >>= λ (op, last_id). done (op.value, last_id))
      else done (imm, next_id)

  is_xor : Mnemonic → Bool
  is_xor xor = true
  is_xor _ = false

  -- The new value of the destination, before its source is set.
  unfoldable pub result_value :
      Instruction → EmulationCallback → ℕ → Operand → Operand → Value → ℕ → Value × ℕ
  unfolding is_xor has_third is_immediate
  result_value i callback address dst src imm next_id =
      if is_xor i.mnemonic && same_register dst.reg src.reg
      then (
        make_value address 0 (Zydis.Operand.element_size (operand_at x.unused i.operands 1) / 8),
        next_id,
      )
      else if leb 2 (length i.operands) && not (has_third i)
      then callback dst.value src.value next_id
      else if is_immediate (Zydis.Operand.kind (operand_at x.unused i.operands 2))
      then callback src.value imm next_id
      else make_symbolic_value next_id address (Value.size dst.value) 0 0

  unfoldable pub emulate_instruction :
      Instruction → Context → ℕ → EmulationCallback → ℕ → Run (Context × ℕ)
  unfolding source_operand third_value
  emulate_instruction i c address callback next_id = do
    (dst, n₁) ← get_operand x (operand_at x.unused i.operands 0) c address next_id
    let (default_src, n₂) = new_operand n₁
    let (default_imm, n₃) = make_symbolic_value n₂ 0 8 0 0
    (src, n₄) ← source_operand i c address default_src n₃
    (imm, n₅) ← third_value i c address default_imm n₄
    let (v, n₆) = result_value i callback address dst src imm n₅
    write_operand c dst (set_source address v) n₆
