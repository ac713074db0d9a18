-- ===== src/Flo/Analyze.antt =====
-- The step of the analysis: one decoded instruction is added to the function.
use restruc.Base.{
  ℕ, ◌+◌, ◌-◌, ◌%◌, ◌^◌, Bool, true, false, not, ◌&&◌, none, some, List, [], ◌∷◌, if◌then◌else◌,
  ltb, leb, ◌==◌,
}
use restruc.Base.Assoc
use restruc.Hash.{word}
use restruc.Zydis.{
  Instruction, Operand, OperandType, register_operand, immediate_operand, qword64, rsp, Mnemonic,
  push, pushf, pushfd, pushfq, pop, popf, popfd, popfq, add, sub, call, ret,
}
use restruc.Flo.{
  Flo, JumpType, unknown, inner, outer, AnalysisResult, AnalysisStatus, next, unreachable,
  already_analyzed, complete, unknown_jump, outer_jump, cycle_jump, inner_jump, is_any_jump, is_jmp,
  should_be_unreachable, get_jump_destination, get_call_destination, is_inside,
}
use restruc.Flo.Jumps.{add_jump, add_call, promote_to}

abbrev pub int_mod : ℕ
int_mod = 2 ^ 32

-- The pattern of -1, by which the code says that the depth is not known.
abbrev pub ambiguous_depth : ℕ
ambiguous_depth = 2 ^ 32 - 1

unfoldable pub stack_depth_is_ambiguous : Flo → Bool
stack_depth_is_ambiguous f = f.stack_depth == ambiguous_depth

pub data SpManipulation : Type 0 where
  sp_modified sp_unmodified sp_ambiguous : SpManipulation

-- `stack_depth_ += n`; an `int` takes the low 32 bits of the sum.
abbrev grow_stack : ℕ → Flo → Flo × SpManipulation
grow_stack n f = (record f { stack_depth = (f.stack_depth + n) % int_mod }, sp_modified)

abbrev shrink_stack : ℕ → Flo → Flo × SpManipulation
shrink_stack n f =
    (record f { stack_depth = (f.stack_depth + int_mod - n % int_mod) % int_mod }, sp_modified)

abbrev lose_stack : Flo → Flo × SpManipulation
lose_stack f = (record f { stack_depth = ambiguous_depth }, sp_ambiguous)

unfoldable pub is_rsp : OperandType → Bool
is_rsp (register_operand (qword64 rsp)) = true
is_rsp _ = false

-- An instruction with two operands, the first of which is RSP.
unfoldable pub move_rsp : Mnemonic → OperandType → Flo → Flo × SpManipulation
move_rsp add (immediate_operand imm) f = shrink_stack imm.value f
move_rsp sub (immediate_operand imm) f = grow_stack imm.value f
move_rsp _ _ f = lose_stack f

unfoldable pub push_or_pop : Mnemonic → Flo → Flo × SpManipulation
push_or_pop push f = grow_stack 8 f
push_or_pop pushf f = grow_stack 2 f
push_or_pop pushfd f = grow_stack 4 f
push_or_pop pushfq f = grow_stack 8 f
push_or_pop pop f = shrink_stack 8 f
push_or_pop popf f = shrink_stack 2 f
push_or_pop popfd f = shrink_stack 4 f
push_or_pop popfq f = shrink_stack 8 f
push_or_pop _ f = (f, sp_unmodified)

unfoldable pub manipulate : Mnemonic → List Operand → Flo → Flo × SpManipulation
unfolding is_rsp move_rsp push_or_pop
manipulate m (dst ∷ src ∷ []) f =
    if is_rsp dst.kind then move_rsp m src.kind f else (f, sp_unmodified)
manipulate m _ f = push_or_pop m f

unfoldable pub analyze_stack_pointer_manipulation : Instruction → Flo → Flo × SpManipulation
unfolding manipulate stack_depth_is_ambiguous
analyze_stack_pointer_manipulation ins f =
    if stack_depth_is_ambiguous f then (f, sp_ambiguous) else manipulate ins.mnemonic ins.operands f

-- With an end the function's range decides.
unfoldable pub type_in_range : ℕ → ℕ → ℕ → JumpType
type_in_range entry_point e dst = if leb entry_point dst && ltb dst e then inner else outer

unfoldable pub type_by_guess : Flo → ℕ → ℕ → Bool → JumpType
unfolding stack_depth_is_ambiguous
type_by_guess f dst next_address unconditional =
    if dst == next_address
    then inner
    else if Assoc.contains dst f.inner_jumps
    then inner
    else if Assoc.contains dst f.outer_jumps
    then outer
    else if Assoc.size f.disassembly == 1 && unconditional
    then outer
    else if Assoc.contains dst f.disassembly
    then inner
    else if ltb dst f.entry_point
    then outer
    else if stack_depth_is_ambiguous f
    then unknown
    else if not (f.stack_depth == 0)
    then inner
    else if f.stack_depth_was_modified
    then outer
    else unknown

unfoldable pub get_jump_type : Flo → ℕ → ℕ → Bool → JumpType
unfolding type_in_range type_by_guess
get_jump_type f dst next_address unconditional = elim f.last [
  | some e ↦ type_in_range f.entry_point e dst
  | none ↦ type_by_guess f dst next_address unconditional
]

unfoldable pub result : Flo → AnalysisStatus → ℕ → Flo × AnalysisResult
result f status address = (f, record { status = status; next_address = address })

-- The branch of a return.
unfoldable pub analyze_ret : ℕ → Flo → Flo × AnalysisResult
unfolding result
analyze_ret next_address f =
    if is_inside f next_address
    then result f next next_address
    else (let (f', promoted) = promote_to next_address inner f in
        if promoted then result f' next next_address else result f' complete next_address)

-- The switch on the type of an unconditional jump.
unfoldable pub analyze_jmp : ℕ → ℕ → ℕ → JumpType → Flo → Flo × AnalysisResult
unfolding result
analyze_jmp address next_address dst unknown f =
    let (f', promoted) = promote_to next_address inner f in
    if promoted then result f' next next_address else result f' unknown_jump next_address
analyze_jmp address next_address dst inner f =
    if is_inside f next_address
    then result f next next_address
    else if leb dst address
    then result f cycle_jump next_address
    else result f inner_jump dst
analyze_jmp address next_address dst outer f = result f outer_jump next_address

-- The branch of a jump: it is recorded if its destination is known.
unfoldable pub analyze_jump : ℕ → ℕ → Instruction → Flo → Flo × AnalysisResult
unfolding result analyze_jmp
analyze_jump address next_address ins f =
    let unconditional = is_jmp ins.mnemonic in
    let dst = get_jump_destination address ins in
    let type = if dst == 0 then unknown else get_jump_type f dst next_address unconditional in
    let f' = if dst == 0 then f else add_jump type ins dst address f in
    if unconditional
    then analyze_jmp address next_address dst type f'
    else result f' next next_address

unfoldable pub analyze_call : ℕ → ℕ → Instruction → Flo → Flo × AnalysisResult
unfolding result
analyze_call address next_address ins f =
    let dst = get_call_destination address ins in
    result (if dst == 0 then f else add_call ins dst address next_address f) next next_address

unfoldable pub note_modified : Flo × SpManipulation → Flo
note_modified (f, sp_modified) = record f { stack_depth_was_modified = true }
note_modified (f, _) = f

unfoldable pub analyze_other : ℕ → Instruction → Flo → Flo × AnalysisResult
unfolding result note_modified
analyze_other next_address ins f =
    result (note_modified (analyze_stack_pointer_manipulation ins f)) next next_address

unfoldable pub dispatch : Mnemonic → ℕ → ℕ → Instruction → Flo → Flo × AnalysisResult
unfolding analyze_call analyze_ret analyze_jump analyze_other
dispatch call address next_address ins f = analyze_call address next_address ins f
dispatch ret address next_address ins f = analyze_ret next_address f
dispatch m address next_address ins f =
    if is_any_jump m
    then analyze_jump address next_address ins f
    else analyze_other next_address ins f

-- `visit(address)`.
unfoldable pub visit : ℕ → Flo → Flo
visit address f = (promote_to address inner f).0

unfoldable pub analyze : ℕ → Instruction → Flo → Flo × AnalysisResult
unfolding dispatch result
analyze address ins f =
    if should_be_unreachable ins
    then result f unreachable 0
    else if Assoc.contains address f.disassembly
    then result f already_analyzed 0
    else (let f' = record f { disassembly = Assoc.emplace address ins f.disassembly } in
        dispatch ins.mnemonic address ((address + ins.length) % word) ins (visit address f'))
