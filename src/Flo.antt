-- ===== src/Flo.antt =====
-- flo.hxx and flo.cxx: one function of the program, as its instructions are found. A destination of
-- 0 is `nullptr`. The depth of the stack is an `int`, kept as its 32-bit pattern.
pub mod Jumps
pub mod Analyze
pub mod Cycles
pub mod Loops
pub mod Destinations
pub mod Promote
pub mod Sweep
pub mod Invariant
pub mod Settled
pub mod Status
pub mod Return
pub mod SelfJump
pub mod Pending
use restruc.Base.{
  ℕ, zero, suc, ◌+◌, ◌-◌, ◌%◌, ◌^◌, Bool, true, false, not, ◌&&◌, ◌||◌, Option, none, some, List,
  [], ◌∷◌, if◌then◌else◌, ltb, leb, ◌==◌,
}
use restruc.Base.Assoc
use restruc.Hash.{word}
use restruc.Zydis.{
  Instruction, Operand, OperandType, register_operand, memory_operand, immediate_operand,
  other_operand, Register, qword64, rsp, Mnemonic, push, pushf, pushfd, pushfq, pop, popf, popfd,
  popfq, add, sub, call, ret, jmp, int3, jb, jbe, jcxz, jecxz, jknzd, jkzd, jl, jle, jnb, jnbe, jnl,
  jnle, jno, jnp, jns, jnz, jo, jp, jrcxz, js, jz, loop, loope, loopne,
}

pub data JumpType : Type 0 where
  unknown inner outer : JumpType

pub record Jump : Type 0 where
  pub type : JumpType
  pub ins : Instruction
  pub dst : ℕ
  pub src : ℕ

pub record Call : Type 0 where
  pub ins : Instruction
  pub dst : ℕ
  pub src : ℕ
  pub return_address : ℕ

abbrev pub Jumps : Type 0
Jumps = List (ℕ × Jump)

abbrev pub Disassembly : Type 0
Disassembly = List (ℕ × Instruction)

pub record ExitCondition : Type 0 where
  pub instruction : Instruction
  pub jump : Mnemonic

-- The exit conditions are a multimap by register; here they stand in the order in which they came.
pub record Cycle : Type 0 where
  pub first : ℕ
  pub last : ℕ
  pub exit_conditions : List (Register × ExitCondition)

pub record Flo : Type 0 where
  pub entry_point : ℕ
  pub last : Option ℕ
  pub disassembly : Disassembly
  pub references : List ℕ
  pub inner_jumps : Jumps
  pub outer_jumps : Jumps
  pub unknown_jumps : Jumps
  pub calls : List (ℕ × Call)
  pub cycles : List (ℕ × Cycle)
  pub stack_depth : ℕ
  pub stack_depth_was_modified : Bool

-- The names of `AnalysisStatus`; all of them are `Stop` or `Next`.
pub data AnalysisStatus : Type 0 where
  next unreachable already_analyzed complete unknown_jump outer_jump cycle_jump inner_jump :
      AnalysisStatus

-- Whether the status is `Stop`.
unfoldable pub stops : AnalysisStatus → Bool
stops next = false
stops inner_jump = false
stops _ = true

pub record AnalysisResult : Type 0 where
  pub status : AnalysisStatus
  pub next_address : ℕ

unfoldable pub is_conditional_jump : Mnemonic → Bool
is_conditional_jump jb = true
is_conditional_jump jbe = true
is_conditional_jump jcxz = true
is_conditional_jump jecxz = true
is_conditional_jump jknzd = true
is_conditional_jump jkzd = true
is_conditional_jump jl = true
is_conditional_jump jle = true
is_conditional_jump jnb = true
is_conditional_jump jnbe = true
is_conditional_jump jnl = true
is_conditional_jump jnle = true
is_conditional_jump jno = true
is_conditional_jump jnp = true
is_conditional_jump jns = true
is_conditional_jump jnz = true
is_conditional_jump jo = true
is_conditional_jump jp = true
is_conditional_jump jrcxz = true
is_conditional_jump js = true
is_conditional_jump jz = true
is_conditional_jump loop = true
is_conditional_jump loope = true
is_conditional_jump loopne = true
is_conditional_jump _ = false

unfoldable pub is_jmp : Mnemonic → Bool
is_jmp jmp = true
is_jmp _ = false

unfoldable pub is_any_jump : Mnemonic → Bool
unfolding is_conditional_jump is_jmp
is_any_jump m = is_jmp m || is_conditional_jump m

unfoldable pub is_int3 : Mnemonic → Bool
is_int3 int3 = true
is_int3 _ = false

unfoldable pub should_be_unreachable : Instruction → Bool
unfolding is_int3
should_be_unreachable ins = is_int3 ins.mnemonic

-- `address + length + op.imm.value.s`, in the arithmetic of 64-bit pointers.
unfoldable pub operand_destination : ℕ → Instruction → OperandType → ℕ
operand_destination address ins (immediate_operand imm) = (address + ins.length + imm.value) % word
operand_destination address ins _ = 0

unfoldable pub first_destination : ℕ → Instruction → List Operand → ℕ
unfolding operand_destination
first_destination address ins [] = 0
first_destination address ins (op ∷ ops) = operand_destination address ins op.kind

-- `get_jump_destination` and `get_call_destination`, which have the same text.
unfoldable pub get_jump_destination : ℕ → Instruction → ℕ
unfolding first_destination
get_jump_destination address ins = first_destination address ins ins.operands

unfoldable pub get_call_destination : ℕ → Instruction → ℕ
unfolding first_destination
get_call_destination address ins = first_destination address ins ins.operands

unfoldable pub is_inside : Flo → ℕ → Bool
is_inside f address = Assoc.contains address f.disassembly || Assoc.contains address f.inner_jumps

-- `references_` is a set in the order of addresses.
unfoldable pub insert_reference : ℕ → List ℕ → List ℕ
insert_reference r [] = r ∷ []
insert_reference r (q ∷ qs) =
    if r == q then q ∷ qs else if ltb r q then r ∷ q ∷ qs else q ∷ insert_reference r qs

unfoldable pub add_reference : ℕ → Flo → Flo
unfolding insert_reference
add_reference reference f =
    if reference == 0 then f else record f { references = insert_reference reference f.references }

-- `Flo::Flo`.
unfoldable pub new_flo : ℕ → ℕ → Option ℕ → Flo
new_flo entry_point reference last = add_reference reference (record {
  entry_point = entry_point;
  last = last;
  disassembly = [];
  references = [];
  inner_jumps = [];
  outer_jumps = [];
  unknown_jumps = [];
  calls = [];
  cycles = [];
  stack_depth = 0;
  stack_depth_was_modified = false;
})

unfoldable pub set_end : ℕ → Flo → Flo
set_end e f = record f { disassembly = Assoc.below e f.disassembly; last = some e }

unfoldable pub get_instruction : Flo → ℕ → Option Instruction
get_instruction f address = Assoc.find address f.disassembly
