-- ===== src/Zydis.antt =====
-- The names that the code uses of the Zydis disassembler, which is no part of the repository: its
-- registers, by family and number. The families stand for the enumerators that the tables of
-- virtual/registers.cxx list one by one; `other` for every register that the code does not name.
use restruc.Base.{ℕ, Bool, List}

pub data Gpr : Type 0 where
  rax rcx rdx rbx rsp rbp rsi rdi r8 r9 r10 r11 r12 r13 r14 r15 : Gpr

-- The registers AH, CH, DH and BH.
pub data HighByte : Type 0 where
  ah ch dh bh : HighByte

-- `ZydisRegister`. `low8 rax` is AL, `low8 r8` is R8B, `word16 rax` is AX, `dword32 rax` is EAX.
pub data Register : Type 0 where
  no_register rip : Register
  low8 word16 dword32 qword64 : Gpr → Register
  high8 : HighByte → Register
  x87_control x87_status x87_tag : Register
  st mm xmm ymm zmm : ℕ → Register
  flags eflags rflags : Register
  other : ℕ → Register

-- `ZydisMnemonic`, as far as the code tests it.
pub data Mnemonic : Type 0 where
  mov movzx movsx movsxd lea cmp : Mnemonic
  add sub or and xor imul inc dec : Mnemonic
  push pushf pushfd pushfq pop popf popfd popfq : Mnemonic
  call ret jmp int3 nop : Mnemonic
  jb jbe jcxz jecxz jknzd jkzd jl jle jnb jnbe jnl jnle jno jnp jns jnz jo jp jrcxz js jz : Mnemonic
  loop loope loopne : Mnemonic
  other_mnemonic : ℕ → Mnemonic

-- An immediate: its 64-bit pattern, which `value.u` and `value.s` both read.
pub record Immediate : Type 0 where
  pub is_signed : Bool
  pub value : ℕ

-- A memory operand; the displacement is a 64-bit pattern.
pub record MemoryOperand : Type 0 where
  pub base : Register
  pub index : Register
  pub scale : ℕ
  pub has_displacement : Bool
  pub displacement : ℕ

-- `type` with the part of the operand that goes with it.
pub data OperandType : Type 0 where
  register_operand : Register → OperandType
  memory_operand : MemoryOperand → OperandType
  immediate_operand : Immediate → OperandType
  other_operand : OperandType

pub record Operand : Type 0 where
  pub kind : OperandType
  pub is_explicit : Bool
  pub is_read : Bool
  pub is_written : Bool
  pub element_size : ℕ

-- `ZydisDecodedInstruction`; the number of operands is the length of the list.
pub record Instruction : Type 0 where
  pub mnemonic : Mnemonic
  pub length : ℕ
  pub operands : List Operand
