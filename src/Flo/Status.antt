-- ===== src/Flo/Status.antt =====
-- What the analysis of an instruction reports, and what it records.
use restruc.Base.{
  ℕ, ◌≡◌, refl, sym, ◌∙◌, inl, inr, arith, Bool, true, false, ◌&&◌, ◌||◌, some, if◌then◌else◌, ◌==◌,
  leb, ltb, Bool-cases,
}
use restruc.Base.Assoc
use restruc.Base.Assoc.{contains-emplace, below-contains, IsOrdered, emplace-IsOrdered}
use restruc.Zydis.{Instruction, Mnemonic}
use restruc.Flo.{
  Flo, JumpType, unknown, inner, outer, is_jmp, next, get_jump_destination, should_be_unreachable,
  set_end,
}
use restruc.Flo.Jumps.{add_jump}
use restruc.Flo.Analyze.{
  result, dispatch, analyze_jmp, analyze_jump, visit, analyze, get_jump_type, type_in_range,
}
use restruc.Flo.Invariant.{IsSettled, dispatch-cases}
use restruc.Flo.Settled.{
  Keeps, promote_to-Keeps, analyze_ret-Keeps, analyze_jmp-Keeps, analyze_other-Keeps,
  analyze_call-Keeps,
}

-- With an end, a jump is inner exactly when it leads into the range of the function, else outer.
pub get_jump_type-in_range :
    (f : Flo) (e dst next_address : ℕ) (unconditional : Bool)
    → f.last ≡ some e
    → get_jump_type f dst next_address unconditional
      ≡ (if leb f.entry_point dst && ltb dst e then inner else outer)
unfolding get_jump_type type_in_range
get_jump_type-in_range f e dst next_address unconditional h = rw h refl

add_jump-disassembly :
    (type : JumpType) (ins : Instruction) (dst src : ℕ) (f : Flo)
    → (add_jump type ins dst src f).disassembly ≡ f.disassembly
unfolding add_jump
add_jump-disassembly unknown ins dst src f = refl
add_jump-disassembly inner ins dst src f = refl
add_jump-disassembly outer ins dst src f = refl

analyze_jump-disassembly :
    (address next_address : ℕ) (ins : Instruction) (f : Flo)
    → (analyze_jump address next_address ins f).0.disassembly ≡ f.disassembly
unfolding analyze_jump result Keeps
analyze_jump-disassembly address next_address ins f =
    let dst = get_jump_destination address ins in
    let type =
      if dst == 0 then unknown else get_jump_type f dst next_address (is_jmp ins.mnemonic) in
    after (is_jmp ins.mnemonic) type (if dst == 0 then f else add_jump type ins dst address f)
    ∙ recorded type
  where
    after :
        (unconditional : Bool) (type : JumpType) (g : Flo)
        → (if unconditional
            then analyze_jmp address next_address (get_jump_destination address ins) type g
            else result g next next_address).0.disassembly
          ≡ g.disassembly
    after true type g =
        (analyze_jmp-Keeps address next_address (get_jump_destination address ins) type g).0
    after false type g = refl

    recorded :
        (type : JumpType)
        → (if get_jump_destination address ins == 0
            then f
            else add_jump type ins (get_jump_destination address ins) address f).disassembly
          ≡ f.disassembly
    recorded type = elim (Bool-cases (get_jump_destination address ins == 0)) [
      | inl e ↦ rw e refl
      | inr e ↦ rw e (add_jump-disassembly type ins _ address f)
    ]

dispatch-disassembly :
    (m : Mnemonic) (address next_address : ℕ) (ins : Instruction) (f : Flo)
    → (dispatch m address next_address ins f).0.disassembly ≡ f.disassembly
unfolding Keeps
dispatch-disassembly m address next_address ins f =
    elim (dispatch-cases m address next_address ins f) [
      | inl e ↦ rw e ((analyze_call-Keeps address next_address ins f).0)
      | inr (inl e) ↦ rw e ((analyze_ret-Keeps next_address f).0)
      | inr (inr (inl e)) ↦ rw e (analyze_jump-disassembly address next_address ins f)
      | inr (inr (inr e)) ↦ rw e ((analyze_other-Keeps next_address ins f).0)
    ]

-- An INT3 and a known address add nothing; any other instruction is added to the function, once.
pub analyze-disassembly :
    (address : ℕ) (ins : Instruction) (f : Flo)
    → (analyze address ins f).0.disassembly ≡ (
        if should_be_unreachable ins || Assoc.contains address f.disassembly
        then f.disassembly
        else Assoc.emplace address ins f.disassembly)
unfolding analyze result Keeps visit
analyze-disassembly address ins f = elim (Bool-cases (should_be_unreachable ins)) [
  | inl e ↦ rw e refl
  | inr e ↦ elim (Bool-cases (Assoc.contains address f.disassembly)) [
    | inl c ↦ rw (e, c) refl
    | inr c ↦
        rw (e, c)
          (dispatch-disassembly ins.mnemonic address _ ins _ ∙ (promote_to-Keeps address _).0)
  ]
]

-- The disassembly of a function stays in the order of addresses.
pub analyze-IsOrdered :
    (address : ℕ) (ins : Instruction) (f : Flo)
    → IsOrdered 0 f.disassembly
    → IsOrdered 0 (analyze address ins f).0.disassembly
analyze-IsOrdered address ins f o =
    rw (analyze-disassembly address ins f)
      (at (should_be_unreachable ins || Assoc.contains address f.disassembly))
  where
    at :
        (b : Bool)
        → IsOrdered 0 (if b then f.disassembly else Assoc.emplace address ins f.disassembly)
    at true = o
    at false = emplace-IsOrdered address 0 ins f.disassembly (omega arith) o

-- In a function whose instructions are in order, `set_end` drops those from the end on and no others,
-- and unknown jumps lead to no instruction still.
pub set_end-IsSettled :
    (e : ℕ) (f : Flo)
    → IsOrdered 0 f.disassembly
    → IsSettled f
    → ((q : ℕ)
        → Assoc.contains q (set_end e f).disassembly ≡ (Assoc.contains q f.disassembly && ltb q e))
      × IsSettled (set_end e f)
unfolding set_end IsSettled
set_end-IsSettled e f o s =
    let below : (q : ℕ)
        → Assoc.contains q (Assoc.below e f.disassembly)
          ≡ (Assoc.contains q f.disassembly && ltb q e) =
      λ q. below-contains 0 e q f.disassembly o in
    (below, λ q c. s q (first _ _ (sym (below q) ∙ c)))
  where
    first : (a b : Bool) → (a && b) ≡ true → a ≡ true
    first a b h = ground arith
