-- ===== src/Restruc/Groups.antt =====
-- restruc.cxx, the beginning of `analyze_flo`: the values that serve as base addresses in a function are
-- grouped.
use restruc.Base.{
  ℕ, Bool, false, not, ◌&&◌, Option, none, some, List, [], ◌∷◌, ◌++◌, if◌then◌else◌, ltb,
}
use restruc.Base.Assoc
use restruc.Base.Run.{Run, done, ◌>>=◌}
use restruc.Zydis
use restruc.Zydis.{
  Instruction, Mnemonic, mov, Register, no_register, rip, qword64, rsp, OperandType, MemoryOperand,
  register_operand, memory_operand, immediate_operand, other_operand,
}
use restruc.Value.{Value, raw_value, same_value}
use restruc.Text.{Text}
use restruc.Context.{Context, get_register}
use restruc.Flo.{Disassembly}
use restruc.Recontex.{same_register, known_number}
use restruc.Recontex.Paths.{FloContexts}
use restruc.Recontex.Stack.{points_to_stack}
use restruc.Struc.Merge.{Store}
use restruc.Restruc.{contexts_at}

-- `StrucDomain`: `struc` is the number of the structure in the store.
pub record StrucDomain : Type 0 where
  pub struc : ℕ
  pub base_flo : ℕ
  pub relevant_instructions : Disassembly
  pub base_regs : List (ℕ × Register)

unfoldable pub new_domain : StrucDomain
new_domain = record { struc = 0; base_flo = 0; relevant_instructions = []; base_regs = [] }

-- `ValueGroups`, a map ordered by the values' numbers, and `FloDomain`.
abbrev pub ValueGroups : Type 0
ValueGroups = List (Value × StrucDomain)

-- What the passes change: the domains by entry point, the structures by name, the structures
-- themselves and their names, and `next_id_` of the symbols.
pub record State : Type 0 where
  pub domains : List (ℕ × ValueGroups)
  pub strucs : List (Text × ℕ)
  pub store : Store
  pub names : List Text
  pub next_id : ℕ

-- `relevant_instructions.emplace`, of a map.
unfoldable pub emplace_instruction : ℕ → Instruction → Disassembly → Disassembly
emplace_instruction address ins d =
    if Assoc.contains address d then d else Assoc.emplace address ins d

-- What one access adds to its group.
unfoldable pub extend : ℕ → Instruction → ℕ → Register → StrucDomain → StrucDomain
extend address ins source reg sd = record sd {
  relevant_instructions = emplace_instruction address ins sd.relevant_instructions;
  base_regs = sd.base_regs ++ (source, reg) ∷ [];
}

-- `groups[*reg]`, changed: a new group where there is none with the value's number.
unfoldable pub change_group : Value → (StrucDomain → StrucDomain) → ValueGroups → ValueGroups
change_group v change [] = (v, change new_domain) ∷ []
change_group v change ((w, sd) ∷ groups) =
    let rest = change_group v change groups in
    if same_value w v
    then (w, change sd) ∷ groups
    else if ltb (raw_value v) (raw_value w)
    then (v, change new_domain) ∷ (w, sd) ∷ groups
    else (w, sd) ∷ rest

-- `!reg->is_symbolic() && points_to_stack(reg->value())`.
unfoldable pub is_on_stack : Value → Bool
is_on_stack v = elim (known_number (some v)) [ none ↦ false | some n ↦ points_to_stack n ]

-- One context at the instruction.
unfoldable pub group_value : ℕ → Instruction → Register → Option Value → ValueGroups → ValueGroups
group_value address ins reg none groups = groups
group_value address ins reg (some v) groups =
    if is_on_stack v then groups else change_group v (extend address ins v.source reg) groups

unfoldable pub group_contexts :
    ℕ → Instruction → Register → List Context → ValueGroups → Run ValueGroups
group_contexts address ins reg [] groups = done groups
group_contexts address ins reg (c ∷ cs) groups = get_register c reg >>= λ found.
    group_contexts address ins reg cs (group_value address ins reg found groups)

-- Whether a base register can be that of a structure.
unfoldable pub is_base : Register → Bool
is_base reg =
    not (same_register reg no_register)
    && (not (same_register reg (qword64 rsp)) && not (same_register reg rip))

base_of : Zydis.Operand → Option Register
base_of op = elim op.kind [
  | memory_operand m ↦ if op.is_explicit && is_base m.base then some m.base else none
  | register_operand r ↦ none
  | immediate_operand i ↦ none
  | other_operand ↦ none
]

unfoldable pub group_operands :
    ℕ → Instruction → List Context → List Zydis.Operand → ValueGroups → Run ValueGroups
unfolding base_of
group_operands address ins cs [] groups = done groups
group_operands address ins cs (op ∷ ops) groups = elim (base_of op) [
  | none ↦ group_operands address ins cs ops groups
  | some reg ↦ group_contexts address ins reg cs groups >>= λ groups'.
      group_operands address ins cs ops groups'
]

-- The groups of a function.
unfoldable pub group_disassembly : FloContexts → Disassembly → ValueGroups → Run ValueGroups
group_disassembly flo_contexts [] groups = done groups
group_disassembly flo_contexts ((address, ins) ∷ d) groups =
    group_operands address ins (contexts_at address flo_contexts) ins.operands groups >>= λ groups'.
    group_disassembly flo_contexts d groups'
