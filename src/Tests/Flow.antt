-- ===== src/Tests/Flow.antt =====
-- The theorems on the analysis of a function, applied.
use restruc.Base.{
  ℕ, ◌+◌, ◌-◌, ◌%◌, ◌≡◌, refl, arith, true, false, not, ◌&&◌, ◌||◌, none, [], ◌∷◌, if◌then◌else◌,
  ◌==◌,
}
use restruc.Base.Assoc
use restruc.Base.Assoc.{IsOrdered}
use restruc.Hash.{word}
use restruc.Zydis.{Instruction, ret, jmp, jz, immediate_operand}
use restruc.Flo.{
  Flo, Jump, JumpType, unknown, inner, next, complete, is_inside, get_jump_destination,
  first_destination, operand_destination,
}
use restruc.Flo.Jumps.{promote_to}
use restruc.Flo.Analyze.{analyze}
use restruc.Flo.Promote.{promote_to-moves, jumps_count, SameOther}
use restruc.Flo.Invariant.{IsSettled}
use restruc.Flo.Settled.{analyze-IsSettled}
use restruc.Flo.Return.{analyze-ret}

-- `jz +14` of two bytes, `ret`, and `jmp -2`, the jump to itself.
abbrev pub branch : Instruction
branch = record {
  mnemonic = jz;
  length = 2;
  operands =
      record {
        kind = immediate_operand (record { is_signed = true; value = 14 });
        is_explicit = true;
        is_read = true;
        is_written = false;
        element_size = 8;
      }
      ∷ [];
}

abbrev pub return_instruction : Instruction
return_instruction = record { mnemonic = ret; length = 1; operands = [] }

abbrev endless : Instruction
endless = record {
  mnemonic = jmp;
  length = 2;
  operands =
      record {
        kind = immediate_operand (record { is_signed = true; value = word - 2 });
        is_explicit = true;
        is_read = true;
        is_written = false;
        element_size = 8;
      }
      ∷ [];
}

abbrev jump_to : JumpType → ℕ → Jump
jump_to type dst = record { type = type; ins = branch; dst = dst; src = 4096 }

-- A function with one instruction, an unknown jump to 4099 and one to 4112, and an inner jump.
abbrev pub started : Flo
started = record {
  entry_point = 4096;
  last = none;
  disassembly = (4096, branch) ∷ [];
  references = [];
  inner_jumps = (4120, jump_to inner 4120) ∷ [];
  outer_jumps = [];
  unknown_jumps = (4099, jump_to unknown 4099) ∷ (4112, jump_to unknown 4112) ∷ [];
  calls = [];
  cycles = [];
  stack_depth = 0;
  stack_depth_was_modified = false;
}

pub started-IsSettled : IsSettled started
unfolding IsSettled Assoc.contains
started-IsSettled q c = ground arith

unvisited : Assoc.contains 4098 started.disassembly ≡ false
unfolding Assoc.contains
unvisited = refl

endless-destination : get_jump_destination 4096 endless ≡ 4096
unfolding get_jump_destination first_destination operand_destination
endless-destination = refl

promote_to-moves_example :
    (let (f', promoted) = promote_to 4112 inner started in
      (Assoc.contains 4112 f'.unknown_jumps
        ≡ (not (4112 == 4112) && Assoc.contains 4112 started.unknown_jumps))
      × (Assoc.contains 4112 f'.inner_jumps ≡ (
          Assoc.contains 4112 started.inner_jumps
          || (4112 == 4112 && Assoc.contains 4112 started.unknown_jumps)))
      × (promoted ≡ Assoc.contains 4112 started.unknown_jumps)
      × (jumps_count f' ≡ jumps_count started)
      × SameOther started f')
promote_to-moves_example = promote_to-moves 4112 4112 started

analyze-IsSettled_example : IsSettled (analyze 4098 return_instruction started).0
analyze-IsSettled_example = analyze-IsSettled 4098 return_instruction started started-IsSettled

analyze-ret_example :
    (let next_address = (4098 + 1) % word in
      let stays =
        (4098 == next_address || is_inside started next_address)
        || Assoc.contains next_address started.unknown_jumps in
      let r = analyze 4098 return_instruction started in
      (r.1.status ≡ (if stays then next else complete))
      × (r.1.next_address ≡ next_address)
      × (is_inside r.0 next_address ≡ stays))
analyze-ret_example = analyze-ret 4098 return_instruction started refl unvisited
