-- ===== src/Tests/Discovery.antt =====
-- The theorems on the discovery of functions and on the walk of contexts, applied.
use restruc.Base.{ℕ, ◌≡◌, refl, arith, true, false, Option, none, some, [], ◌∷◌}
use restruc.Base.Run.{done, out_of_fuel}
use restruc.Base.Assoc
use restruc.Base.Lookup.{LastAtMost}
use restruc.Zydis.{Instruction, call, int3, qword64, rbx}
use restruc.Context.{Context, make_child}
use restruc.Context.Laws.{IsContext}
use restruc.Contexts.{Contexts}
use restruc.Flo.{Flo, get_instruction, should_be_unreachable}
use restruc.Flo.Jumps.{get_unanalized_inner_jump_dst, first_missing}
use restruc.Reflo.Fill.{fill_loop, post_fill_flo, end_of}
use restruc.Reflo.Search.{
  Reflo, run_flo_analysis, get_flo_by_address, unknown_jumps_exist, promote_jumps_to_inner,
}
use restruc.Reflo.Termination.{EndsWell, fill_loop-EndsWell}
use restruc.Reflo.Settle.{AreSettled, promote_jumps_to_inner-AreSettled}
use restruc.Reflo.Queue.{
  IsReflo, KeepsReflo, key, run_flo_analysis-KeepsReflo, get_flo_by_address-LastAtMost,
}
use restruc.Reflo.Endless.{post_fill_flo-endless}
use restruc.Recontex.Emulate.{emulate}
use restruc.Recontex.Calls.{emulate_instruction_call-Reset}
use restruc.Recontex.Paths.{Walk, AnalyzePaths, skips, propagate_contexts}
use restruc.Recontex.Splitting.{in_order, all_skip}
use restruc.Recontex.Propagation.{Stored, Emulates, propagate_contexts-stores}
use restruc.Tests.{hashers-AreHashers, first_context, first_context-IsContext}
use restruc.Tests.Flow.{return_instruction, started, started-IsSettled}
use restruc.Tests.Image.{image}
use restruc.Tests.Emulation.{externals}

abbrev always_ret : ℕ → ℕ → Option Instruction
always_ret address size = some return_instruction

abbrev trap : Instruction
trap = record { mnemonic = int3; length = 1; operands = [] }

abbrev always_trap : ℕ → ℕ → Option Instruction
always_trap address size = some trap

abbrev pub known : Reflo
known = record {
  pe = image;
  created_flos = 4096 ∷ [];
  flos = (4096, started) ∷ (8192, started) ∷ [];
  unprocessed_flos = 8192 ∷ [];
}

known-IsReflo : IsReflo known
unfolding Assoc.contains
known-IsReflo = record { sorted = (omega arith, (omega arith, tt)); queued = (refl, tt) }

fill_loop-EndsWell_example : EndsWell (fill_loop always_ret 4106 4105 4104 started)
fill_loop-EndsWell_example = fill_loop-EndsWell always_ret 4105 4104 started started-IsSettled

promote_jumps_to_inner-AreSettled_example :
    AreSettled known.flos (promote_jumps_to_inner known).flos
    × (unknown_jumps_exist (promote_jumps_to_inner known).flos ≡ false)
promote_jumps_to_inner-AreSettled_example =
    promote_jumps_to_inner-AreSettled known ((refl, (refl, tt)), ((refl, (refl, tt)), tt))

run_flo_analysis-KeepsReflo_example : KeepsReflo (run_flo_analysis always_ret 9 4096 4200 known)
run_flo_analysis-KeepsReflo_example =
    run_flo_analysis-KeepsReflo always_ret 9 4096 4200 known known-IsReflo

get_flo_by_address-LastAtMost_example :
    (o : Option (ℕ × Flo)) × LastAtMost key 5000 known.flos o
    × (get_flo_by_address known 5000 ≡ elim o [ none ↦ none | some (k, f) ↦ some f ])
get_flo_by_address-LastAtMost_example = get_flo_by_address-LastAtMost known 5000 known-IsReflo

-- The inner jump of `ended` leads to 4120.
abbrev ended : Flo
ended = record started { last = some 4130 }

ended-pending : get_unanalized_inner_jump_dst ended ≡ 4120
unfolding get_unanalized_inner_jump_dst first_missing Assoc.contains
ended-pending = refl

ended-end : end_of image ended 4120 ≡ done 4130
unfolding end_of
ended-end = refl

trap-unreachable : should_be_unreachable trap ≡ true
unfolding should_be_unreachable
trap-unreachable = refl

post_fill_flo-endless_example : post_fill_flo always_trap 9 image ended ≡ out_of_fuel
post_fill_flo-endless_example =
    post_fill_flo-endless always_trap 9 image ended 4120 4130 trap ended-pending refl ended-end refl
      refl trap-unreachable

abbrev jumping : AnalyzePaths
jumping =
    (record { jump = 4096; take = true } ∷ []) ∷ (record { jump = 4096; take = false } ∷ []) ∷ []

jumping-in_order : in_order jumping ≡ true
unfolding in_order all_skip skips
jumping-in_order = refl

abbrev call_instruction : Instruction
call_instruction = record { mnemonic = call; length = 5; operands = [] }

abbrev calling : Flo
calling = record started { disassembly = (4096, call_instruction) ∷ [] }

calling-instruction : get_instruction calling 4096 ≡ some call_instruction
unfolding get_instruction Assoc.find
calling-instruction = refl

make_child-IsContext : (c : Context) → IsContext c → IsContext (make_child c)
unfolding make_child
make_child-IsContext c k = record { file = k.file; hash_bound = k.hash_bound }

call-Emulates : Emulates externals 4096 call_instruction
unfolding emulate
call-Emulates c n k =
    let r =
      emulate_instruction_call-Reset externals hashers-AreHashers (make_child c) 4096 n
        (qword64 rbx) (make_child-IsContext c k) in
    ((r.0, r.1), r.2)

abbrev no_walk : Walk
no_walk = record { flo_contexts = []; next_id = 1 }

propagate_contexts-stores_example :
    (new : Contexts) × (w' : Walk) × (propagate_contexts externals calling 4096
        (first_context ∷ [])
        no_walk
      ≡ done (some call_instruction, new, w'))
    × Stored 4096 (first_context ∷ []) no_walk.flo_contexts w'.flo_contexts
propagate_contexts-stores_example =
    propagate_contexts-stores externals calling 4096 call_instruction (first_context ∷ []) no_walk
      calling-instruction call-Emulates (first_context-IsContext, tt)
