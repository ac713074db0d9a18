-- ===== src/Flo/Return.antt =====
-- The branch of `analyze` for a return.
use restruc.Base.{
  ℕ, ◌+◌, ◌%◌, ◌≡◌, refl, sym, ◌∙◌, inl, inr, Bool, true, false, ◌&&◌, ◌||◌, arith, if◌then◌else◌,
  ◌==◌, Bool-cases, ==_refl,
}
use restruc.Base.Assoc
use restruc.Base.Assoc.{contains-emplace}
use restruc.Zydis.{Instruction, Mnemonic, ret}
use restruc.Hash.{word}
use restruc.Flo.{Flo, inner, is_inside, next, complete, should_be_unreachable, is_int3}
use restruc.Flo.Jumps.{promote_to}
use restruc.Flo.Promote.{Promoted, SameOther, promote_to-Promoted}
use restruc.Flo.Analyze.{result, dispatch, analyze_ret, visit, analyze}

-- What leads to an address: the function has it, or an unknown jump leads there.
goes_on : Flo → ℕ → Bool
goes_on f a = is_inside f a || Assoc.contains a f.unknown_jumps

module _ (n : ℕ) (f : Flo) where
  promoted_inside : is_inside (promote_to n inner f).0 n ≡ goes_on f n
  unfolding Promoted SameOther is_inside goes_on
  promoted_inside =
      let p = promote_to-Promoted n f in
      rw (p.5.2, p.2 n, ==_refl n) (regroup (Assoc.contains n f.disassembly) _ _)
    where
      regroup : (a b c : Bool) → (a || (b || (true && c))) ≡ ((a || b) || c)
      regroup a b c = ground arith

  promoted_answer : (promote_to n inner f).1 ≡ Assoc.contains n f.unknown_jumps
  unfolding Promoted
  promoted_answer = (promote_to-Promoted n f).3

analyze_ret-goes_on :
    (n : ℕ) (f : Flo)
    → ((analyze_ret n f).1.status ≡ (if goes_on f n then next else complete))
      × ((analyze_ret n f).1.next_address ≡ n)
      × (is_inside (analyze_ret n f).0 n ≡ goes_on f n)
unfolding analyze_ret result goes_on
analyze_ret-goes_on n f = elim (Bool-cases (is_inside f n)) [
  | inl e ↦ rw e (refl, refl, e)
  | inr e ↦ elim (Bool-cases (Assoc.contains n f.unknown_jumps)) [
    | inl c ↦
        let y : (promote_to n inner f).1 ≡ true = promoted_answer n f ∙ c in
        let i : is_inside (promote_to n inner f).0 n ≡ true =
          promoted_inside n f ∙ rw (e, c) refl in
        rw (e, y, c) (refl, refl, i)
    | inr c ↦
        let y : (promote_to n inner f).1 ≡ false = promoted_answer n f ∙ c in
        let i : is_inside (promote_to n inner f).0 n ≡ false =
          promoted_inside n f ∙ rw (e, c) refl in
        rw (e, y, c) (refl, refl, i)
  ]
]

-- The instruction itself counts among what leads to an address, and its own visit takes away no
-- other jump.
visit-goes_on :
    (address n : ℕ) (ins : Instruction) (f : Flo)
    → goes_on (visit address (record f { disassembly = Assoc.emplace address ins f.disassembly })) n
      ≡ ((address == n || is_inside f n) || Assoc.contains n f.unknown_jumps)
unfolding goes_on visit is_inside Promoted SameOther
visit-goes_on address n ins f =
    let f1 : Flo = record f { disassembly = Assoc.emplace address ins f.disassembly } in
    let p = promote_to-Promoted address f1 in
    let c = contains-emplace address n ins f.disassembly in
    elim (Bool-cases (address == n)) [
      | inl e ↦ rw (p.5.2, c, e) refl
      | inr e ↦
          rw (p.5.2, c, e, p.2 n, p.1 n (ground arith), e)
            (regroup (Assoc.contains n f.disassembly) _ _)
    ]
  where
    regroup : (a b c : Bool) → ((a || (b || false)) || c) ≡ ((a || b) || c)
    regroup a b c = ground arith

-- The dispatch on the mnemonic of a return.
dispatch-ret :
    (m : Mnemonic) (address n : ℕ) (ins : Instruction) (f : Flo)
    → m ≡ ret
    → (is_int3 m ≡ false) × (dispatch m address n ins f ≡ analyze_ret n f)
unfolding dispatch is_int3
dispatch-ret m address n ins f e = rw e (refl, refl)

analyze-is_ret :
    (address : ℕ) (ins : Instruction) (f : Flo)
    → ins.mnemonic ≡ ret
    → Assoc.contains address f.disassembly ≡ false
    → analyze address ins f
      ≡ analyze_ret
          ((address + ins.length) % word)
          (visit address (record f { disassembly = Assoc.emplace address ins f.disassembly }))
unfolding analyze should_be_unreachable
analyze-is_ret address ins f m c =
    let d = dispatch-ret ins.mnemonic address _ ins _ m in rw (d.0, c) (d.1)

-- A return ends the function exactly when nothing known leads to the next address: neither is it the
-- function's already, nor does an unknown jump lead there, which then becomes an inner one. In the
-- other case the next address is inside the function.
pub analyze-ret :
    (address : ℕ) (ins : Instruction) (f : Flo)
    → ins.mnemonic ≡ ret
    → Assoc.contains address f.disassembly ≡ false
    → (let next_address = (address + ins.length) % word in
        let stays =
          (address == next_address || is_inside f next_address)
          || Assoc.contains next_address f.unknown_jumps in
        let r = analyze address ins f in
        (r.1.status ≡ (if stays then next else complete))
        × (r.1.next_address ≡ next_address)
        × (is_inside r.0 next_address ≡ stays))
analyze-ret address ins f m c =
    let n = (address + ins.length) % word in
    let f1 : Flo =
      visit address (record f { disassembly = Assoc.emplace address ins f.disassembly }) in
    rw (analyze-is_ret address ins f m c)
      (rw (sym (visit-goes_on address n ins f)) (analyze_ret-goes_on n f1))
