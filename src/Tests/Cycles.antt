-- ===== src/Tests/Cycles.antt =====
-- The theorems on cycles, applied.
use restruc.Base.{◌-◌, ◌≡◌, refl, true, false, none, some, [], ◌∷◌}
use restruc.Base.Assoc
use restruc.Hash.{word}
use restruc.Zydis.{Instruction, nop, jz, immediate_operand}
use restruc.Flo.{
  Flo, is_conditional_jump, get_jump_destination, first_destination, operand_destination,
}

abbrev pub idle : Instruction
idle = record { mnemonic = nop; length = 1; operands = [] }

-- `jz -3` of two bytes.
abbrev pub back : Instruction
back = record {
  mnemonic = jz;
  length = 2;
  operands =
      record {
        kind = immediate_operand (record { is_signed = true; value = word - 3 });
        is_explicit = true;
        is_read = true;
        is_written = false;
        element_size = 8;
      }
      ∷ [];
}

-- A function that is one loop, with a cycle recorded.
abbrev pub loop_function : Flo
loop_function = record {
  entry_point = 4096;
  last = none;
  disassembly = (4096, idle) ∷ (4097, back) ∷ [];
  references = [];
  inner_jumps = [];
  outer_jumps = [];
  unknown_jumps = [];
  calls = [];
  cycles = (4097, record { first = 4096; last = 4097; exit_conditions = [] }) ∷ [];
  stack_depth = 0;
  stack_depth_was_modified = false;
}

pub back-found : Assoc.find 4097 loop_function.disassembly ≡ some back
unfolding Assoc.find
back-found = refl

back-conditional : is_conditional_jump back.mnemonic ≡ true
unfolding is_conditional_jump
back-conditional = refl

back-destination : get_jump_destination 4097 back ≡ 4096
unfolding get_jump_destination first_destination operand_destination
back-destination = refl
