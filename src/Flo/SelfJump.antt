-- ===== src/Flo/SelfJump.antt =====
-- `jmp $` as the first instruction of a function: the assertion `!is_inside(dst)` of the branch of an
-- outer jump in `analyze` does not hold there.
use restruc.Base.{
  ℕ, ◌+◌, ◌%◌, ◌≡◌, ◌≢◌, refl, true, false, none, List, [], ◌∷◌, arith, inl, inr, if◌then◌else◌,
  Bool-cases, ◌==◌, ne→==_false,
}
use restruc.Base.Assoc
use restruc.Hash.{word}
use restruc.Zydis.{Instruction, Mnemonic, jmp}
use restruc.Flo.{
  Flo, new_flo, add_reference, insert_reference, outer, outer_jump, is_inside, is_int3, is_jmp,
  is_any_jump, should_be_unreachable, get_jump_destination,
}
use restruc.Flo.Jumps.{add_jump, promote_loop, promote_to}
use restruc.Flo.Analyze.{
  result, dispatch, analyze_jump, analyze_jmp, visit, analyze, get_jump_type, type_by_guess,
}

dispatch-jmp :
    (m : Mnemonic) (address n : ℕ) (ins : Instruction) (f : Flo)
    → m ≡ jmp
    → (is_int3 m ≡ false)
      × (is_jmp m ≡ true)
      × (dispatch m address n ins f ≡ analyze_jump address n ins f)
unfolding dispatch is_int3 is_jmp is_any_jump
dispatch-jmp m address n ins f e = rw e (refl, refl, refl)

-- A new function without an end, over its references.
fresh : ℕ → List ℕ → Flo
fresh entry_point references = record {
  entry_point = entry_point;
  last = none;
  disassembly = [];
  references = references;
  inner_jumps = [];
  outer_jumps = [];
  unknown_jumps = [];
  calls = [];
  cycles = [];
  stack_depth = 0;
  stack_depth_was_modified = false;
}

new_flo-fresh :
    (a reference : ℕ)
    → new_flo a reference none ≡ fresh a (if reference == 0 then [] else reference ∷ [])
unfolding new_flo add_reference insert_reference fresh
new_flo-fresh a reference = elim (Bool-cases (reference == 0)) [
  | inl e ↦ rw e refl
  | inr e ↦ rw e refl
]

seen : ℕ → List ℕ → Instruction → Flo
unfolding fresh
seen a references ins = record (fresh a references) { disassembly = (a, ins) ∷ [] }

analyze-fresh :
    (a : ℕ) (references : List ℕ) (ins : Instruction)
    → ins.mnemonic ≡ jmp
    → analyze a ins (fresh a references)
      ≡ analyze_jump a ((a + ins.length) % word) ins (seen a references ins)
unfolding analyze fresh seen should_be_unreachable visit promote_to promote_loop Assoc.contains
    Assoc.extract Assoc.emplace
analyze-fresh a references ins m =
    let k = dispatch-jmp ins.mnemonic a ((a + ins.length) % word) ins (seen a references ins) m in
    rw k.0 (k.2)

get_jump_type-seen :
    (a next_address : ℕ) (references : List ℕ) (ins : Instruction)
    → next_address ≢ a
    → get_jump_type (seen a references ins) a next_address true ≡ outer
unfolding get_jump_type type_by_guess seen fresh Assoc.contains
get_jump_type-seen a next_address references ins n =
    rw (ne→==_false a next_address (ground arith)) refl

analyze_jump-seen :
    (a next_address : ℕ) (references : List ℕ) (ins : Instruction)
    → ins.mnemonic ≡ jmp
    → get_jump_destination a ins ≡ a
    → a ≢ 0
    → next_address ≢ a
    → (let r = analyze_jump a next_address ins (seen a references ins) in
        (r.1.status ≡ outer_jump) × (is_inside r.0 a ≡ true))
unfolding analyze_jump analyze_jmp result add_jump is_inside seen fresh Assoc.contains
analyze_jump-seen a next_address references ins m d z n =
    let k = dispatch-jmp ins.mnemonic a next_address ins (seen a references ins) m in
    let t = get_jump_type-seen a next_address references ins n in
    rw (k.1, d, ne→==_false a 0 z, t) (refl, ground arith)

-- The analysis of an instruction that jumps to itself, as the first of a function: it is reported as
-- an outer jump, although its destination, which is not 0, lies inside the function.
pub analyze-jump_to_self :
    (address reference : ℕ) (ins : Instruction)
    → ins.mnemonic ≡ jmp
    → get_jump_destination address ins ≡ address
    → address ≢ 0
    → (address + ins.length) % word ≢ address
    → (let r = analyze address ins (new_flo address reference none) in
        (r.1.status ≡ outer_jump) × (is_inside r.0 address ≡ true))
analyze-jump_to_self address reference ins m d z n = rw (new_flo-fresh address reference) (
    rw (analyze-fresh address (if reference == 0 then [] else reference ∷ []) ins m)
      (analyze_jump-seen address _ _ ins m d z n))
