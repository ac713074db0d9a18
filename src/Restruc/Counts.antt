-- ===== src/Restruc/Counts.antt =====
-- The number of elements that a cycle shows.
use restruc.Base.{
  ℕ, ◌≤◌, ◌<◌, ◌^◌, arith, ◌≡◌, refl, sym, ap, ◌∙◌, true, false, some, List, [], ◌∷◌,
}
use restruc.Base.Run.{done}
use restruc.Base.Lookup.{sort_by}
use restruc.Zydis.{Operand, Register, no_register, MemoryOperand, Immediate, immediate_operand, cmp}
use restruc.Value.{Value, same_value}
use restruc.Context.{Context, get_register}
use restruc.Flo.{Flo, Cycle, ExitCondition}
use restruc.Flo.Cycles.{get_cycles}
use restruc.Recontex.{same_register, same_register_refl, operand_at}
use restruc.Recontex.Paths.{FloContexts}
use restruc.Restruc.{Surroundings, AllContexts, get_contexts, contexts_at}
use restruc.Restruc.Fields.{
  is_less_than_jump, is_cmp, match_conditions, match_contexts, find_exit_register, immediate_count,
  condition_count, conditions_count, ordered_conditions, cycles_count, get_field_count,
}

find_exit_register-first :
    (index : Register) (c e : Context) (cs es : List Context) (v w : Value) (er : Register)
    (ec : ExitCondition)
    → get_register c index ≡ done (some v)
    → get_register e er ≡ done (some w)
    → same_value v w ≡ true
    → find_exit_register index (c ∷ cs) (e ∷ es) ((er, ec) ∷ []) ≡ done (some er)
unfolding find_exit_register match_contexts match_conditions
find_exit_register-first index c e cs es v w er ec at_index at_exit same =
    rw at_index (rw at_exit (rw same refl))

-- A bound that is positive, as a signed number too, is the count.
immediate_count-positive :
    (imm : Immediate) → 1 ≤ imm.value → imm.value < 2 ^ 63 → immediate_count imm 1 ≡ imm.value
unfolding immediate_count
immediate_count-positive imm h k = ground arith

module _ (s : Surroundings) where
  conditions_count-immediate :
      (cs : List Context) (er : Register) (ec : ExitCondition) (imm : Immediate) (count next_id : ℕ)
      → ec.instruction.mnemonic ≡ cmp
      → is_less_than_jump ec.jump ≡ true
      → Operand.kind (operand_at s.externals.unused ec.instruction.operands 1)
        ≡ immediate_operand imm
      → conditions_count s er cs ((er, ec) ∷ []) count next_id
        ≡ done (immediate_count imm count, next_id)
  unfolding conditions_count condition_count is_cmp
  conditions_count-immediate cs er ec imm count next_id compare less bound =
      let comparison : is_cmp ec.instruction.mnemonic ≡ true = ap is_cmp compare in
      rw (same_register_refl er) (rw (comparison, is_cmp) (rw less (rw bound refl)))

  cycles_count-first :
      (index : Register) (cs es : List Context) (exits : ℕ → List Context) (cycle : Cycle)
      (er : Register) (count count' next_id : ℕ)
      → exits cycle.last ≡ es
      → find_exit_register index cs es (ordered_conditions s cycle) ≡ done (some er)
      → conditions_count s er cs (ordered_conditions s cycle) count next_id ≡ done (count', next_id)
      → cycles_count s index cs exits (cycle ∷ []) count next_id ≡ done (count', next_id)
  unfolding cycles_count
  cycles_count-first index cs es exits cycle er count count' next_id there found counted =
      rw there (rw found (rw counted refl))

  get_field_count-cycles :
      (contexts : AllContexts) (f : Flo) (address : ℕ) (m : MemoryOperand) (next_id : ℕ)
      (fc : FloContexts) (cycle : Cycle)
      → get_contexts contexts f ≡ done fc
      → get_cycles address f ≡ cycle ∷ []
      → same_register m.index no_register ≡ false
      → get_field_count s contexts f address m next_id
        ≡ cycles_count s m.index
            (contexts_at address fc)
            (λ last. contexts_at last fc)
            (cycle ∷ [])
            1
            next_id
  unfolding get_field_count
  get_field_count-cycles contexts f address m next_id fc cycle known cycles index =
      rw known (rw cycles (rw index refl))

  -- A cycle with one exit condition, a comparison with an immediate before a less-than jump, whose
  -- register holds the index of the operand in the first contexts: where the immediate is positive as
  -- a signed number, the field has as many elements as it says.
  pub get_field_count-immediate :
      (contexts : AllContexts) (f : Flo) (address : ℕ) (m : MemoryOperand) (next_id : ℕ)
      (fc : FloContexts) (cycle : Cycle) (c e : Context) (cs es : List Context) (v w : Value)
      (er : Register) (ec : ExitCondition) (imm : Immediate)
      → get_contexts contexts f ≡ done fc
      → get_cycles address f ≡ cycle ∷ []
      → same_register m.index no_register ≡ false
      → contexts_at address fc ≡ c ∷ cs
      → contexts_at cycle.last fc ≡ e ∷ es
      → cycle.exit_conditions ≡ (er, ec) ∷ []
      → get_register c m.index ≡ done (some v)
      → get_register e er ≡ done (some w)
      → same_value v w ≡ true
      → ec.instruction.mnemonic ≡ cmp
      → is_less_than_jump ec.jump ≡ true
      → Operand.kind (operand_at s.externals.unused ec.instruction.operands 1)
        ≡ immediate_operand imm
      → 1 ≤ imm.value
      → imm.value < 2 ^ 63
      → get_field_count s contexts f address m next_id ≡ done (imm.value, next_id)
  unfolding ordered_conditions sort_by
  get_field_count-immediate contexts f address m next_id fc cycle c e cs es v w er ec imm known
        cycles index here there conditions at_index at_exit same compare less bound positive small =
      let ordered : ordered_conditions s cycle ≡ (er, ec) ∷ [] =
        ap (sort_by (λ x. s.number_of x.0)) conditions in
      let found = find_exit_register-first m.index c e cs es v w er ec at_index at_exit same in
      let counted = conditions_count-immediate (c ∷ cs) er ec imm 1 next_id compare less bound in
      get_field_count-cycles contexts f address m next_id fc cycle known cycles index
      ∙ rw (here, sym (immediate_count-positive imm positive small))
          (cycles_count-first m.index (c ∷ cs) (e ∷ es) (λ last. contexts_at last fc) cycle er 1
            (immediate_count imm 1) next_id there (rw ordered found) (rw ordered counted))
