-- ===== src/Flo/Settled.antt =====
-- Every operation of the analysis keeps the unknown jumps away from the instructions.
use restruc.Base.{
  ℕ, ◌≡◌, refl, sym, ap, ◌∙◌, inl, inr, arith, Bool, true, false, ◌||◌, List, [], ◌∷◌,
  if◌then◌else◌, ◌==◌, leb, Bool-cases, ==→eq,
}
use restruc.Base.Assoc
use restruc.Base.Assoc.{contains-emplace}
use restruc.Zydis.{
  Instruction, Mnemonic, Operand, OperandType, immediate_operand, add, sub, push, pushf, pushfd,
  pushfq, pop, popf, popfd, popfq,
}
use restruc.Flo.{
  Flo, JumpType, unknown, inner, outer, is_inside, is_jmp, next, AnalysisResult,
  get_call_destination, get_jump_destination, should_be_unreachable,
}
use restruc.Flo.Jumps.{add_jump, add_call, promote_to}
use restruc.Flo.Promote.{Promoted, SameOther, promote_to-Promoted}
use restruc.Flo.Analyze.{
  move_rsp, push_or_pop, manipulate, is_rsp, stack_depth_is_ambiguous, SpManipulation, sp_modified,
  sp_unmodified, sp_ambiguous, result, dispatch, analyze_call, analyze_ret, analyze_jmp,
  analyze_jump, analyze_other, note_modified, analyze_stack_pointer_manipulation, get_jump_type,
  visit, analyze,
}
use restruc.Flo.Invariant.{IsSettled, IsUnseen, dispatch-cases, get_jump_type-unknown}

-- The same instructions, and no unknown jump to another place than before.
unfoldable pub Keeps : Flo → Flo → Type 0
Keeps f f' =
    (f'.disassembly ≡ f.disassembly)
    × ((q : ℕ)
        → Assoc.contains q f.unknown_jumps ≡ false
        → Assoc.contains q f'.unknown_jumps ≡ false)

Keeps-refl : (f : Flo) → Keeps f f
unfolding Keeps
Keeps-refl f = (refl, λ q n. n)

IsSettled-Keeps : (f f' : Flo) → IsSettled f → Keeps f f' → IsSettled f'
unfolding IsSettled Keeps
IsSettled-Keeps f f' s (d, u) q c = u q (s q (sym (ap (Assoc.contains q) d) ∙ c))

pub promote_to-Keeps : (dst : ℕ) (f : Flo) → Keeps f (promote_to dst inner f).0
unfolding Keeps Promoted SameOther
promote_to-Keeps dst f =
    let p = promote_to-Promoted dst f in
    (
      p.5.2,
      λ q n. elim (Bool-cases (q == dst)) [
        | inl e ↦
            ap (λ z. Assoc.contains z (promote_to dst inner f).0.unknown_jumps) (==→eq q dst e)
            ∙ p.0
        | inr e ↦ p.1 q (ground arith) ∙ n
      ],
    )

pub Keeps-if :
    (f : Flo) (b : Bool) (r s : Flo × AnalysisResult)
    → Keeps f r.0
    → Keeps f s.0
    → Keeps f (if b then r else s).0
Keeps-if f true r s h k = h
Keeps-if f false r s h k = k

pub analyze_ret-Keeps : (next_address : ℕ) (f : Flo) → Keeps f (analyze_ret next_address f).0
unfolding analyze_ret result
analyze_ret-Keeps next_address f =
    let p = promote_to-Keeps next_address f in
    Keeps-if f (is_inside f next_address) _ _ (Keeps-refl f)
      (Keeps-if f (promote_to next_address inner f).1 _ _ p p)

pub analyze_jmp-Keeps :
    (address next_address dst : ℕ) (type : JumpType) (f : Flo)
    → Keeps f (analyze_jmp address next_address dst type f).0
unfolding analyze_jmp result
analyze_jmp-Keeps address next_address dst unknown f =
    let p = promote_to-Keeps next_address f in
    Keeps-if f (promote_to next_address inner f).1 _ _ p p
analyze_jmp-Keeps address next_address dst inner f =
    Keeps-if f (is_inside f next_address) _ _ (Keeps-refl f)
      (Keeps-if f (leb dst address) _ _ (Keeps-refl f) (Keeps-refl f))
analyze_jmp-Keeps address next_address dst outer f = Keeps-refl f

move_rsp-Keeps : (m : Mnemonic) (o : OperandType) (f : Flo) → Keeps f (move_rsp m o f).0
unfolding move_rsp Keeps
move_rsp-Keeps add (immediate_operand imm) f = (refl, λ q n. n)
move_rsp-Keeps sub (immediate_operand imm) f = (refl, λ q n. n)
move_rsp-Keeps m o f = (refl, λ q n. n)

push_or_pop-Keeps : (m : Mnemonic) (f : Flo) → Keeps f (push_or_pop m f).0
unfolding push_or_pop Keeps
push_or_pop-Keeps push f = (refl, λ q n. n)
push_or_pop-Keeps pushf f = (refl, λ q n. n)
push_or_pop-Keeps pushfd f = (refl, λ q n. n)
push_or_pop-Keeps pushfq f = (refl, λ q n. n)
push_or_pop-Keeps pop f = (refl, λ q n. n)
push_or_pop-Keeps popf f = (refl, λ q n. n)
push_or_pop-Keeps popfd f = (refl, λ q n. n)
push_or_pop-Keeps popfq f = (refl, λ q n. n)
push_or_pop-Keeps m f = (refl, λ q n. n)

manipulate-Keeps : (m : Mnemonic) (ops : List Operand) (f : Flo) → Keeps f (manipulate m ops f).0
unfolding manipulate
manipulate-Keeps m (dst ∷ src ∷ []) f = elim (Bool-cases (is_rsp dst.kind)) [
  | inl e ↦ rw e (move_rsp-Keeps m src.kind f)
  | inr e ↦ rw e (Keeps-refl f)
]
manipulate-Keeps m ops f = push_or_pop-Keeps m f

note_modified-Keeps : (f : Flo) (r : Flo × SpManipulation) → Keeps f r.0 → Keeps f (note_modified r)
unfolding note_modified Keeps
note_modified-Keeps f (f', sp_modified) h = h
note_modified-Keeps f (f', sp_unmodified) h = h
note_modified-Keeps f (f', sp_ambiguous) h = h

pub analyze_other-Keeps :
    (next_address : ℕ) (ins : Instruction) (f : Flo) → Keeps f (analyze_other next_address ins f).0
unfolding analyze_other result analyze_stack_pointer_manipulation
analyze_other-Keeps next_address ins f =
    note_modified-Keeps f (analyze_stack_pointer_manipulation ins f)
      (elim (Bool-cases (stack_depth_is_ambiguous f)) [
        | inl e ↦ rw e (Keeps-refl f)
        | inr e ↦ rw e (manipulate-Keeps ins.mnemonic ins.operands f)
      ])

pub analyze_call-Keeps :
    (address next_address : ℕ) (ins : Instruction) (f : Flo)
    → Keeps f (analyze_call address next_address ins f).0
unfolding analyze_call result add_call Keeps
analyze_call-Keeps address next_address ins f =
    elim (Bool-cases (get_call_destination address ins == 0)) [
      | inl e ↦ rw e (Keeps-refl f)
      | inr e ↦ rw e (Keeps-refl f)
    ]

-- A jump is recorded; as an unknown one only if its destination was not reached.
add_jump-IsSettled :
    (type : JumpType) (ins : Instruction) (dst src : ℕ) (f : Flo)
    → (type ≡ unknown → IsUnseen f dst)
    → IsSettled f
    → IsSettled (add_jump type ins dst src f)
unfolding add_jump IsSettled IsUnseen
add_jump-IsSettled unknown ins dst src f h s = λ q c.
    contains-emplace dst q _ f.unknown_jumps ∙ elim (Bool-cases (dst == q)) [
      | inl e ↦
          let n : Assoc.contains q f.disassembly ≡ false =
            ap (λ z. Assoc.contains z f.disassembly) (sym (==→eq dst q e)) ∙ (h refl).0 in
          cc
      | inr e ↦ rw e (s q c)
    ]
add_jump-IsSettled inner ins dst src f h s = s
add_jump-IsSettled outer ins dst src f h s = s

record_jump-IsSettled :
    (type : JumpType) (ins : Instruction) (dst address : ℕ) (f : Flo)
    → (type ≡ unknown → IsUnseen f dst)
    → IsSettled f
    → IsSettled
        (if dst == 0 then f else add_jump (if dst == 0 then unknown else type) ins dst address f)
record_jump-IsSettled type ins dst address f h s = elim (Bool-cases (dst == 0)) [
  | inl e ↦ rw e s
  | inr e ↦ rw e (add_jump-IsSettled type ins dst address f h s)
]

analyze_jump-IsSettled :
    (address next_address : ℕ) (ins : Instruction) (f : Flo)
    → IsSettled f
    → IsSettled (analyze_jump address next_address ins f).0
unfolding analyze_jump result
analyze_jump-IsSettled address next_address ins f s =
    let dst = get_jump_destination address ins in
    let unconditional = is_jmp ins.mnemonic in
    let type = get_jump_type f dst next_address unconditional in
    let r =
      record_jump-IsSettled type ins dst address f
        (get_jump_type-unknown f dst next_address unconditional) s in
    settle address next_address dst unconditional _ _ r
  where
    settle :
        (address next_address dst : ℕ) (unconditional : Bool) (type : JumpType) (f : Flo)
        → IsSettled f
        → IsSettled
            (if unconditional
              then analyze_jmp address next_address dst type f
              else result f next next_address).0
    settle address next_address dst true type f s =
        IsSettled-Keeps f _ s (analyze_jmp-Keeps address next_address dst type f)
    settle address next_address dst false type f s = s

-- A new instruction, once the jumps to it are settled.
visit-IsSettled :
    (address : ℕ) (ins : Instruction) (f : Flo)
    → IsSettled f
    → IsSettled (visit address (record f { disassembly = Assoc.emplace address ins f.disassembly }))
unfolding visit IsSettled Promoted SameOther
visit-IsSettled address ins f s q c =
    let f1 : Flo = record f { disassembly = Assoc.emplace address ins f.disassembly } in
    let p = promote_to-Promoted address f1 in
    let c1 : (address == q || Assoc.contains q f.disassembly) ≡ true =
      sym (contains-emplace address q ins f.disassembly) ∙ sym (ap (Assoc.contains q) p.5.2) ∙ c in
    elim (Bool-cases (address == q)) [
      | inl e ↦
          ap (λ z. Assoc.contains z (promote_to address inner f1).0.unknown_jumps)
            (sym (==→eq address q e))
          ∙ p.0
      | inr e ↦ p.1 q (ground arith) ∙ s q (ground arith)
    ]

dispatch-IsSettled :
    (m : Mnemonic) (address next_address : ℕ) (ins : Instruction) (f : Flo)
    → IsSettled f
    → IsSettled (dispatch m address next_address ins f).0
dispatch-IsSettled m address next_address ins f s =
    elim (dispatch-cases m address next_address ins f) [
      | inl e ↦ rw e (IsSettled-Keeps f _ s (analyze_call-Keeps address next_address ins f))
      | inr (inl e) ↦ rw e (IsSettled-Keeps f _ s (analyze_ret-Keeps next_address f))
      | inr (inr (inl e)) ↦ rw e (analyze_jump-IsSettled address next_address ins f s)
      | inr (inr (inr e)) ↦ rw e (IsSettled-Keeps f _ s (analyze_other-Keeps next_address ins f))
    ]

-- One analysed instruction, of any kind, keeps the unknown jumps away from the instructions.
pub analyze-IsSettled :
    (address : ℕ) (ins : Instruction) (f : Flo) → IsSettled f → IsSettled (analyze address ins f).0
unfolding analyze result
analyze-IsSettled address ins f s = elim (Bool-cases (should_be_unreachable ins)) [
  | inl e ↦ rw e s
  | inr e ↦ elim (Bool-cases (Assoc.contains address f.disassembly)) [
    | inl c ↦ rw (e, c) s
    | inr c ↦
        rw (e, c)
          (dispatch-IsSettled ins.mnemonic address _ ins _ (visit-IsSettled address ins f s))
  ]
]
