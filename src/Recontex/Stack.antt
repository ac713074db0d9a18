-- ===== src/Recontex/Stack.antt =====
-- recontex.cxx: the made-up stack of a function, on which RSP starts at `magic_stack_value_` in the
-- upper half of a word, and the tests of operands that the analysis makes.
use restruc.Base.{
  ℕ, ◌+◌, ◌-◌, ◌*◌, ◌/◌, ◌%◌, ◌^◌, Bool, true, false, not, ◌&&◌, ◌||◌, Option, none, some, List, [],
  ◌∷◌, bit_and, if◌then◌else◌, ◌==◌,
}
use restruc.Base.Run.{Run, done, ◌>>=◌}
use restruc.Hash.{word}
use restruc.Value.{make_value}
use restruc.Zydis
use restruc.Zydis.{
  Register, Mnemonic, Instruction, qword64, rsp, xor, register_operand, memory_operand,
  immediate_operand, other_operand,
}
use restruc.Context.{Hashers, Context, get_register, set_register, new_context}
use restruc.Recontex.{same_register, operand_at, known_number}
use restruc.Recontex.Operands.{magic_stack_value, magic_stack_value_mask}

-- `points_to_stack(value)`.
unfoldable pub points_to_stack : ℕ → Bool
points_to_stack value = bit_and value magic_stack_value_mask == magic_stack_value_mask

is_stack_number : Option ℕ → Bool
unfolding points_to_stack
is_stack_number none = false
is_stack_number (some n) = points_to_stack n

-- `points_to_stack(reg, address, flo_contexts)`, on the contexts at the address.
unfoldable pub register_points_to_stack : Register → List Context → Run Bool
unfolding is_stack_number
register_points_to_stack reg [] = done (same_register reg (qword64 rsp))
register_points_to_stack reg (c ∷ cs) =
    let rest = register_points_to_stack reg cs in
    if same_register reg (qword64 rsp)
    then done true
    else (get_register c reg >>= λ found.
        if is_stack_number (known_number found) then done true else rest)

-- The index is an `unsigned`, and 0 is the slot above the return address. The assertions are not
-- part of the model: they are off in a release build.
unfoldable pub stack_argument_number : ℕ → ℕ
stack_argument_number value = (value % 2 ^ 32 / 8 + (word - 1)) % 2 ^ 32

-- The second assertion, which is to say that the offset is divisible by 8: `offset & -8`.
unfoldable pub offset_assertion : ℕ → Bool
offset_assertion value = not (bit_and (value % 2 ^ 32) (word - 8) == 0)

-- The only context of the set that is returned.
unfoldable pub make_flo_initial_contexts : Hashers → List Register → ℕ → ℕ → Run (Context × ℕ)
make_flo_initial_contexts h order entry_point next_id = do
  (c, n₁) ← new_context h order next_id
  c' ← set_register h c (qword64 rsp) (make_value entry_point (magic_stack_value * 2 ^ 32) 8)
  done (c', n₁)

is_memory : Zydis.OperandType → Bool
is_memory (memory_operand m) = true
is_memory _ = false

unfoldable pub operand_has_memory_access : Zydis.Operand → Bool
unfolding is_memory
operand_has_memory_access op = is_memory op.kind && op.is_explicit

off_stack : Zydis.OperandType → Bool
off_stack (memory_operand m) =
    not (same_register m.base (qword64 rsp)) && not (same_register m.index (qword64 rsp))
off_stack _ = false

unfoldable pub operand_has_nonstack_memory_access : Zydis.Operand → Bool
unfolding off_stack
operand_has_nonstack_memory_access op = off_stack op.kind && op.is_explicit

-- `std::any_of` over the counted operands.
unfoldable pub any_operand : (Zydis.Operand → Bool) → List Zydis.Operand → Bool
any_operand test [] = false
any_operand test (op ∷ ops) = test op || any_operand test ops

unfoldable pub instruction_has_memory_access : Instruction → Bool
unfolding any_operand
instruction_has_memory_access i = any_operand operand_has_memory_access i.operands

unfoldable pub instruction_has_nonstack_memory_access : Instruction → Bool
unfolding any_operand
instruction_has_nonstack_memory_access i = any_operand operand_has_nonstack_memory_access i.operands

same_operands : Zydis.OperandType → Zydis.OperandType → Bool
same_operands (register_operand r) (register_operand q) = same_register r q
same_operands _ _ = false

is_xor : Mnemonic → Bool
is_xor xor = true
is_xor _ = false

-- Whether the instruction ends the history of a register: XOR of it with itself.
unfoldable pub is_history_term_instr : Zydis.Operand → Instruction → Bool
unfolding is_xor same_operands
is_history_term_instr unused i =
    is_xor i.mnemonic
    && same_operands (Zydis.Operand.kind (operand_at unused i.operands 0))
        (Zydis.Operand.kind (operand_at unused i.operands 1))
