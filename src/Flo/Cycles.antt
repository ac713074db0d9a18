-- ===== src/Flo/Cycles.antt =====
-- The cycles of a function: from an address to a jump back to it, with the conditions on which the
-- cycle is left. Stepping back before the first instruction is undefined in the code, a `fault` here.
use restruc.Base.{
  ℕ, Bool, true, false, not, ◌&&◌, ◌||◌, Option, none, some, List, [], ◌∷◌, if◌then◌else◌, ltb, leb,
  ◌==◌, min, ◌++◌,
}
use restruc.Base.Assoc
use restruc.Base.Run.{Run, done, fault, ◌>>=◌}
use restruc.Zydis.{
  Instruction, Operand, OperandType, register_operand, memory_operand, immediate_operand,
  other_operand, Register, flags, eflags, rflags,
}
use restruc.Registers.{promote}
use restruc.Flo.{
  Flo, Cycle, ExitCondition, Disassembly, is_any_jump, is_conditional_jump, get_jump_destination,
}

abbrev pub Conditions : Type 0
Conditions = List (Register × ExitCondition)

is_flags : OperandType → Bool
is_flags (register_operand flags) = true
is_flags (register_operand eflags) = true
is_flags (register_operand rflags) = true
is_flags _ = false

writes_flags : List Operand → Bool
unfolding is_flags
writes_flags [] = false
writes_flags (op ∷ ops) = (op.is_written && is_flags op.kind) || writes_flags ops

unfoldable pub modifies_flags_register : Instruction → Bool
unfolding writes_flags
modifies_flags_register ins = writes_flags ins.operands

-- The condition that one instruction before the jump contributes, by its first operand.
condition : Instruction → Instruction → List Operand → Conditions
condition ins jump_ins [] = []
condition ins jump_ins (op ∷ ops) = elim op.kind [
  | register_operand r ↦ (promote r, record { instruction = ins; jump = jump_ins.mnemonic }) ∷ []
  | memory_operand m ↦ []
  | immediate_operand i ↦ []
  | other_operand ↦ []
]

-- The lambda `add_exit_condition`: back from the jump, as long as the address is not below `first`.
unfoldable pub add_exit_condition : ℕ → Instruction → Disassembly → Conditions → Run Conditions
unfolding condition
add_exit_condition first jump_ins [] conditions = fault
add_exit_condition first jump_ins ((address, ins) ∷ before) conditions =
    let rest = add_exit_condition first jump_ins before (
      if modifies_flags_register ins
      then conditions ++ condition ins jump_ins ins.operands
      else conditions) in
    if leb first address then rest else done conditions

-- Whether the jump at `address` leaves the cycle that ends at `last`.
unfoldable pub leaves_cycle : ℕ → ℕ → Instruction → Bool
leaves_cycle last address ins =
    is_conditional_jump ins.mnemonic
    && (not (get_jump_destination address ins == 0) && ltb last (get_jump_destination address ins))

-- From `first` to `last`: the instructions before, the last one first, and those to come. There is no
-- cycle if `last` is stepped over.
unfoldable pub collect : ℕ → ℕ → Disassembly → Disassembly → Conditions → Run (Option Conditions)
unfolding leaves_cycle
collect first last before [] conditions = fault
collect first last before ((address, ins) ∷ rest) conditions =
    let further = λ (c : Conditions). collect first last ((address, ins) ∷ before) rest c in
    if ltb address last
    then (if leaves_cycle last address ins
        then add_exit_condition first ins before conditions
        else done conditions)
      >>= further
    else if not (address == last)
    then done none
    else (if is_conditional_jump ins.mnemonic
        then add_exit_condition first ins before conditions
        else done conditions)
      >>= λ c. done (some c)

-- The instructions before an address, the last one first, and those from it on.
unfoldable pub split_at : ℕ → Disassembly → Disassembly → Disassembly × Disassembly
split_at first before [] = (before, [])
split_at first before ((address, ins) ∷ rest) =
    if address == first
    then (before, (address, ins) ∷ rest)
    else split_at first ((address, ins) ∷ before) rest

-- `emplace` of a map: a cycle that ends there already stays.
unfoldable pub insert_cycle : Cycle → List (ℕ × Cycle) → List (ℕ × Cycle)
insert_cycle c cycles =
    if Assoc.contains c.last cycles then cycles else Assoc.emplace c.last c cycles

unfoldable pub start_of : ℕ → ℕ → Instruction → ℕ
start_of first last ins =
    let dst = get_jump_destination last ins in
    if is_any_jump ins.mnemonic && not (dst == 0) then min first dst else first

-- The cycle is recorded if `last` was met.
unfoldable pub recorded : ℕ → ℕ → Flo → Option Conditions → Flo
recorded begin last f none = f
recorded begin last f (some conditions) = record f {
  cycles =
      insert_cycle (record { first = begin; last = last; exit_conditions = conditions }) f.cycles;
}

unfoldable pub add_cycle : ℕ → ℕ → Flo → Run Flo
unfolding start_of
add_cycle first last f = elim (Assoc.find last f.disassembly) [
  | none ↦ fault
  | some ins ↦
      let begin = start_of first last ins in
      let (before, from) = split_at begin [] f.disassembly in
      collect begin last before from [] >>= λ found. done (recorded begin last f found)
]

-- From the lower bound of the address on, while the cycles hold it.
unfoldable pub cycles_at : ℕ → List (ℕ × Cycle) → List Cycle
cycles_at address [] = []
cycles_at address ((last, c) ∷ m) =
    let rest = cycles_at address m in
    if ltb address c.first || ltb c.last address then [] else c ∷ rest

unfoldable pub from_lower_bound : ℕ → List (ℕ × Cycle) → List (ℕ × Cycle)
from_lower_bound address [] = []
from_lower_bound address ((last, c) ∷ m) =
    if ltb last address then from_lower_bound address m else (last, c) ∷ m

unfoldable pub get_cycles : ℕ → Flo → List Cycle
get_cycles address f = cycles_at address (from_lower_bound address f.cycles)
