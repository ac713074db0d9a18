-- ===== src/Tests/Recovery.antt =====
-- The theorems on the recovery of structures, applied.
use restruc.Base.{ℕ, ◌≡◌, refl, arith, true, false, none, some, [], ◌∷◌, ◌==◌}
use restruc.Base.Run.{done}
use restruc.Base.Assoc
use restruc.Base.Holds.{Holds}
use restruc.Base.Lookup.{before_upper_bound}
use restruc.Zydis
use restruc.Zydis.{
  Instruction, Register, cmp, jmp, jl, qword64, rcx, rdx, no_register, MemoryOperand,
  register_operand, immediate_operand,
}
use restruc.Value.{make_value, same_value, raw_value}
use restruc.Text.{codes, to_hex, digits, digit}
use restruc.Pe.{raw_to_virtual_address, get_section_by_raw_address}
use restruc.Flo.{
  Flo, Cycle, is_any_jump, is_conditional_jump, is_jmp, get_jump_destination, first_destination,
  operand_destination,
}
use restruc.Flo.Cycles.{get_cycles, cycles_at, from_lower_bound, start_of, split_at}
use restruc.Recontex.{same_register, operand_at, Register-discrete}
use restruc.Recontex.Nodes.{build_nodes, build_from, scan_step, scan}
use restruc.Recontex.Analysis.{Contexts}
use restruc.Recontex.Paths.{FloContexts}
use restruc.Restruc.{Surroundings, other_element, AllContexts, get_contexts, contexts_at}
use restruc.Restruc.Fields.{is_less_than_jump, get_field_count}
use restruc.Restruc.Groups.{new_domain}
use restruc.Restruc.Domains.{generate_struc_name}
use restruc.Restruc.Callers.{Search, via_register, link_registers}
use restruc.Restruc.Analysis.{new_state}
use restruc.Restruc.Counts.{get_field_count-immediate}
use restruc.Restruc.Once.{link_registers-first}
use restruc.Tests.Flow.{branch, started}
use restruc.Tests.Cycles.{idle, back}
use restruc.Tests.Image.{image}
use restruc.Tests.Discovery.{known}
use restruc.Tests.Emulation.{externals, ready, ready-IsReady, rcx_operand}

abbrev surroundings : Surroundings
surroundings = record {
  externals = externals;
  element_type = λ op. other_element;
  number_of = λ r. 0;
}

abbrev no_size : ℕ → ℕ
no_size i = 0

-- `cmp rcx, 12`, and the cycle that it ends.
abbrev compare_rcx : Instruction
compare_rcx = record {
  mnemonic = cmp;
  length = 4;
  operands =
      rcx_operand
      ∷ record rcx_operand { kind = immediate_operand (record { is_signed = true; value = 12 }) }
      ∷ [];
}

abbrev counted : Cycle
counted = record {
  first = 4096;
  last = 4110;
  exit_conditions = (qword64 rcx, record { instruction = compare_rcx; jump = jl }) ∷ [];
}

abbrev counting : Flo
counting = record started { cycles = (4110, counted) ∷ [] }

abbrev counting_contexts : FloContexts
counting_contexts = (4100, ready) ∷ (4110, ready) ∷ []

-- `[rdx + rcx]`.
abbrev indexed : MemoryOperand
indexed = record {
  base = qword64 rdx;
  index = qword64 rcx;
  scale = 1;
  has_displacement = false;
  displacement = 0;
}

counting-known : get_contexts ((4096, counting_contexts) ∷ []) counting ≡ done counting_contexts
unfolding get_contexts Assoc.find
counting-known = refl

counting-cycle : get_cycles 4100 counting ≡ counted ∷ []
unfolding get_cycles cycles_at from_lower_bound
counting-cycle = refl

indexed-index : same_register indexed.index no_register ≡ false
unfolding same_register Register-discrete
indexed-index = refl

counting-here : contexts_at 4100 counting_contexts ≡ ready ∷ []
unfolding contexts_at
counting-here = refl

counting-there : contexts_at 4110 counting_contexts ≡ ready ∷ []
unfolding contexts_at
counting-there = refl

same_index : same_value (make_value 0 77 8) (make_value 0 77 8) ≡ true
unfolding same_value raw_value make_value
same_index = refl

jl-less : is_less_than_jump jl ≡ true
unfolding is_less_than_jump
jl-less = refl

compare_rcx-bound :
    Zydis.Operand.kind (operand_at externals.unused compare_rcx.operands 1)
    ≡ immediate_operand (record { is_signed = true; value = 12 })
unfolding operand_at
compare_rcx-bound = refl

get_field_count-immediate_example :
    get_field_count surroundings ((4096, counting_contexts) ∷ []) counting 4100 indexed 1
    ≡ done (12, 1)
get_field_count-immediate_example =
    let r = ready-IsReady in
    get_field_count-immediate surroundings ((4096, counting_contexts) ∷ []) counting 4100 indexed 1
      counting_contexts counted ready ready [] [] (make_value 0 77 8) (make_value 0 77 8)
      (qword64 rcx) (record { instruction = compare_rcx; jump = jl })
      (record { is_signed = true; value = 12 }) counting-known counting-cycle indexed-index
      counting-here counting-there refl r.3 r.3 same_index refl jl-less compare_rcx-bound
      (omega arith) (omega arith)

abbrev known_contexts : AllContexts
known_contexts = (4096, counting_contexts) ∷ []

abbrev searching : Search
searching = record { visited = []; state = new_state 1 }

link_registers-first_example :
    link_registers surroundings no_size known known_contexts 9 new_domain
      (4100 ∷ [])
      ((0, qword64 rcx) ∷ (0, qword64 rdx) ∷ [])
      searching
    ≡ via_register surroundings no_size known known_contexts 9 new_domain
        (qword64 rcx)
        (4100 ∷ [])
        searching
link_registers-first_example =
    link_registers-first surroundings no_size known known_contexts 9 new_domain (4100 ∷ [])
      (qword64 rcx) ((0, qword64 rdx) ∷ []) searching

-- The instruction at 0x10410 stands at the virtual address 0x1010.
image-name : generate_struc_name image started (make_value 0x10410 5 8) ≡ done (codes "rs_1010")
unfolding generate_struc_name raw_to_virtual_address get_section_by_raw_address before_upper_bound
    to_hex digits digit make_value
image-name = refl

same_instruction : (make_value 0x10410 5 8).source ≡ (make_value 0x10410 6 8).source
unfolding make_value
same_instruction = refl

from_instruction : ((make_value 0x10410 5 8).source == 0) ≡ false
unfolding make_value
from_instruction = refl

-- `jmp rcx`: the destination is not known.
abbrev jumping_away : Flo
jumping_away = record started {
  disassembly = (4096, record { mnemonic = jmp; length = 2; operands = rcx_operand ∷ [] }) ∷ [];
}

jumping_away-nodes : build_nodes jumping_away ≡ none
unfolding build_nodes build_from scan_step scan is_any_jump is_conditional_jump is_jmp
    get_jump_destination first_destination operand_destination
jumping_away-nodes = refl

abbrev no_contexts : Contexts
no_contexts = record { contexts = []; next_id = 1 }

nothing_known : Assoc.contains jumping_away.entry_point no_contexts.contexts ≡ false
unfolding Assoc.contains
nothing_known = refl

-- A loop from 4096 to the jump back at 4200, with a branch at 4099 that leads forward to 4115.
abbrev two_jumps : Flo
two_jumps = record started {
  disassembly = (4096, idle) ∷ (4099, branch) ∷ (4115, idle) ∷ (4200, back) ∷ [];
}

branch-found : Assoc.find 4099 two_jumps.disassembly ≡ some branch
unfolding Assoc.find
branch-found = refl

branch-start : start_of 4200 4099 branch ≡ 4115
unfolding start_of is_any_jump is_conditional_jump is_jmp get_jump_destination first_destination
    operand_destination
branch-start = refl

branch-split :
    split_at 4115 [] two_jumps.disassembly
    ≡ ((4099, branch) ∷ (4096, idle) ∷ [], (4115, idle) ∷ (4200, back) ∷ [])
unfolding split_at
branch-split = refl
