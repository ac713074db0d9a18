-- ===== src/Tests/Emulation.antt =====
-- The theorems on the emulation of instructions, applied.
use mathlib.Core.Path.{subst}
use restruc.Base.{
  ◌/◌, ℕ, ◌+◌, ◌-◌, ◌*◌, ◌%◌, ◌^◌, ◌<◌, ◌≡◌, ◌∙◌, refl, sym, arith, true, false, some, [], ◌∷◌,
  if◌then◌else◌, leb, ltb, ◌&&◌,
}
use restruc.Base.Run.{done}
use restruc.Hash.{word}
use restruc.Value.{make_value, is_symbolic}
use restruc.Zydis
use restruc.Zydis.{
  Gpr, rsp, rcx, rbx, rax, Instruction, Register, qword64, no_register, register_operand,
  memory_operand, immediate_operand, other_operand, MemoryOperand, Immediate, push, pop, call, xor,
  add,
}
use restruc.Registers.Laws.{is_part}
use restruc.Registers.{is_narrow, gpr_number, from_zydis, promote, register_map}
use restruc.Memory.Laws.{IsMemory}
use restruc.Memory.ReadBack.{load}
use restruc.Context.{Context, get_register}
use restruc.Context.Laws.{IsContext}
use restruc.Context.Total.{touches, touches_self, set_register-Kept}
use restruc.Recontex.{Externals}
use restruc.Recontex.Callbacks.{volatile_registers, emulate_instruction_helper, move_callback}
use restruc.Recontex.Emulate.{emulate_instruction_push, emulate_instruction_call, emulate}
use restruc.Recontex.Stack.{points_to_stack}
use restruc.Recontex.Slots.{points_to_stack-negative}
use restruc.Recontex.Widths.{
  merged_number, emulate_instruction_helper-merged, emulate_instruction_helper-lt,
}
use restruc.Recontex.PushPop.{push-load}
use restruc.Recontex.Calls.{Reset, emulate_instruction_call-Reset}
use restruc.Recontex.Zeroing.{xor_self-zero}
use restruc.Tests.{
  hash_number, hashers, hashers-AreHashers, empty-IsMemory, first_context, first_context-IsContext,
}

abbrev blank : Zydis.Operand
blank = record {
  kind = other_operand;
  is_explicit = false;
  is_read = false;
  is_written = false;
  element_size = 0;
}

abbrev pub externals : Externals
externals = record {
  hashers = hashers;
  hash_reg = hash_number;
  hash_scale = hash_number;
  hash_bool = λ b. 1;
  unused = blank;
}

abbrev pub rcx_operand : Zydis.Operand
rcx_operand = record {
  kind = register_operand (qword64 rcx);
  is_explicit = true;
  is_read = true;
  is_written = true;
  element_size = 64;
}

abbrev push_rcx : Instruction
push_rcx = record { mnemonic = push; length = 1; operands = rcx_operand ∷ [] }

abbrev xor_rcx : Instruction
xor_rcx = record { mnemonic = xor; length = 3; operands = rcx_operand ∷ rcx_operand ∷ blank ∷ [] }

-- RSP at 4104, then RCX at 77.
abbrev at_stack : Context
at_stack =
    (set_register-Kept hashers hashers-AreHashers first_context (qword64 rsp) (make_value 0 4104 8)
      first_context-IsContext).0

abbrev pub ready : Context
ready =
    (set_register-Kept hashers hashers-AreHashers at_stack (qword64 rcx) (make_value 0 77 8)
      (set_register-Kept hashers hashers-AreHashers first_context (qword64 rsp)
        (make_value 0 4104 8) first_context-IsContext).2).0

abbrev pub IsReady : Type 0
IsReady =
    IsContext ready
    × IsMemory ready.memory
    × (get_register ready (qword64 rsp) ≡ done (some (make_value 0 4104 8)))
    × (get_register ready (qword64 rcx) ≡ done (some (make_value 0 77 8)))

pub ready-IsReady : IsReady
unfolding is_narrow is_symbolic make_value touches from_zydis promote register_map gpr_number
    is_part
ready-IsReady =
    let w =
      set_register-Kept hashers hashers-AreHashers first_context (qword64 rsp) (make_value 0 4104 8)
        first_context-IsContext in
    let w₂ =
      set_register-Kept hashers hashers-AreHashers at_stack (qword64 rcx) (make_value 0 77 8) w.2 in
    (
      w₂.2,
      subst IsMemory (sym (w₂.3 ∙ w.3)) empty-IsMemory,
      w₂.4 (qword64 rsp) refl ∙ w.5 (qword64 rsp) (touches_self (qword64 rsp) 4 refl) refl,
      w₂.5 (qword64 rcx) (touches_self (qword64 rcx) 1 refl) refl,
    )

push-load_example :
    (c' : Context) × (next_id' : ℕ) × (emulate_instruction_push externals push_rcx ready 16 1
      ≡ done (c', next_id'))
    × IsContext c'
    × IsMemory c'.memory
    × (get_register c' (qword64 rsp) ≡ done (some (make_value 16 4096 8)))
    × (load hash_number hash_number c'.memory 4096 8 next_id' ≡ done (make_value 16 77 8))
    × ((q : Register) → touches (qword64 rsp) q ≡ false → get_register c' q ≡ get_register ready q)
push-load_example =
    let r = ready-IsReady in
    push-load externals push_rcx rcx_operand [] rcx ready 16 1 4096 77 0 0 8 8 hashers-AreHashers
      r.0 r.1 refl (refl, refl) r.2 r.3 (omega arith) (omega arith)

emulate_instruction_call-Reset_example :
    (c' : Context) × (next_id' : ℕ) × (emulate_instruction_call externals ready 16 1
      ≡ done (c', next_id'))
    × IsContext c'
    × (c'.memory ≡ ready.memory)
    × Reset ready c' 16 volatile_registers (qword64 rbx)
emulate_instruction_call-Reset_example =
    emulate_instruction_call-Reset externals hashers-AreHashers ready 16 1 (qword64 rbx)
      ready-IsReady.0

xor_self-zero_example :
    (c' : Context) × (next_id' : ℕ) × (emulate externals 16 xor_rcx ready 1 ≡ done (c', next_id'))
    × IsContext c'
    × (get_register c' (qword64 rcx) ≡ done (some (make_value 16 0 8)))
    × (c'.memory ≡ ready.memory)
    × ((q : Register) → touches (qword64 rcx) q ≡ false → get_register c' q ≡ get_register ready q)
xor_self-zero_example =
    let r = ready-IsReady in
    xor_self-zero externals xor_rcx rcx_operand rcx_operand blank ready rcx (make_value 0 77 8) 16 1
      hashers-AreHashers r.0 refl refl refl refl (refl, refl) (refl, refl) r.3

emulate_instruction_helper-merged_example :
    (emulate_instruction_helper (λ a b. (a + b) % word) (make_value 0 0x1FF 1) (make_value 16 2 1) 1
      ≡ (make_value 16 (merged_number 1 0x1FF ((0x1FF + 2) % word)) 1, 1))
    × (move_callback (make_value 0 0x1FF 1) (make_value 16 2 1) 1
        ≡ (make_value 16 (merged_number 1 0x1FF 2) 1, 1))
emulate_instruction_helper-merged_example =
    emulate_instruction_helper-merged (λ a b. (a + b) % word) 0 16 0x1FF 2 1 1 1 (omega arith)

emulate_instruction_helper-lt_example :
    (n : ℕ) × (emulate_instruction_helper
        (λ a b. (a + b) % word)
        (make_value 0 0x1FF 1)
        (make_value 16 2 1)
        1
      ≡ (make_value 16 n 1, 1))
    × (n < (if leb 4 1 && ltb 1 8 then 2 ^ (1 * 8) else word))
    × (ltb 1 4 ≡ true → n / 2 ^ (1 * 8) ≡ 0x1FF / 2 ^ (1 * 8))
emulate_instruction_helper-lt_example =
    emulate_instruction_helper-lt (λ a b. (a + b) % word) 0 16 0x1FF 2 1 1 1 (omega arith)

points_to_stack-negative_example : points_to_stack (word - 8) ≡ true
points_to_stack-negative_example = points_to_stack-negative 8 (omega arith) (omega arith)
