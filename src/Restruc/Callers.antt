-- ===== src/Restruc/Callers.antt =====
-- restruc.cxx, the search of the second pass: a structure that is an argument is linked with those of the
-- callers, over registers or over the stack. The search goes from caller to caller on fuel; `visited` cuts
-- it off at references it has seen.
use restruc.Base.{
  ℕ, zero, suc, ◌+◌, ◌*◌, ◌%◌, ◌^◌, Bool, true, false, not, ◌||◌, Option, none, some, List, [], ◌∷◌,
  if◌then◌else◌, ◌==◌,
}
use restruc.Base.Assoc
use restruc.Base.Run.{Run, done, fault, out_of_fuel, ◌>>=◌}
use restruc.Hash.{word}
use restruc.Zydis
use restruc.Zydis.{
  Instruction, Mnemonic, call, mov, Register, no_register, qword64, rsp, OperandType, MemoryOperand,
  register_operand, memory_operand, immediate_operand, other_operand,
}
use restruc.Value.{Value, raw_address_value}
use restruc.Memory.Convert.{to_value}
use restruc.Context.{Context, get_register, get_memory}
use restruc.Flo.{Flo, get_instruction, is_inside}
use restruc.Reflo.Search.{Reflo, get_flo_by_address}
use restruc.Recontex.{same_register, operand_at, known_number}
use restruc.Recontex.Operands.{get_memory_address}
use restruc.Recontex.Paths.{FloContexts}
use restruc.Recontex.Stack.{register_points_to_stack, stack_argument_number}
use restruc.Restruc.{Surroundings, AllContexts, get_contexts, contexts_at}
use restruc.Restruc.Groups.{StrucDomain, ValueGroups, State}
use restruc.Restruc.Domains.{moved_from}
use restruc.Restruc.Links.{link_at}

unfoldable pub was_visited : ℕ → List ℕ → Bool
was_visited ref [] = false
was_visited ref (r ∷ rs) = r == ref || was_visited ref rs

unfoldable pub is_call : Mnemonic → Bool
is_call call = true
is_call _ = false

-- `mov [rsp + ...], reg`: the register.
stored_register : Zydis.OperandType → Zydis.OperandType → Option Register
stored_register (memory_operand m) (register_operand r) =
    if same_register m.base (qword64 rsp) then some r else none
stored_register _ _ = none

is_mov : Mnemonic → Bool
is_mov mov = true
is_mov _ = false

unfoldable pub stored_argument : Zydis.Operand → Instruction → Option Register
unfolding is_mov stored_register
stored_argument unused ins =
    if is_mov ins.mnemonic
    then stored_register (Zydis.Operand.kind (operand_at unused ins.operands 0))
        (Zydis.Operand.kind (operand_at unused ins.operands 1))
    else none

-- A search: the references seen, and the state.
pub record Search : Type 0 where
  pub visited : List ℕ
  pub state : State

module _ (s : Surroundings) (size_of : ℕ → ℕ) (reflo : Reflo) (contexts : AllContexts) where
  open s.externals.hashers use {hash_uint, hash_int}

  -- The contexts at a reference, for a structure that comes in a register. `deeper` goes on at the
  -- references of the caller.
  unfoldable pub register_contexts :
      ℕ → StrucDomain → Register → Flo → (Search → Run Search) → List Context → Search → Run Search
  register_contexts fuel sd reg ref_flo deeper [] r = done r
  register_contexts fuel sd reg ref_flo deeper (c ∷ cs) r = get_register c reg >>= λ found.
      elim found [
        | none ↦ register_contexts fuel sd reg ref_flo deeper cs r
        | some v ↦
            if v.source == 0
            then (deeper r >>= λ r'. register_contexts fuel sd reg ref_flo deeper cs r')
            else (link_at s size_of reflo contexts fuel sd ref_flo v.source r.state >>= λ st.
                register_contexts fuel sd reg ref_flo deeper cs (record r { state = st }))
      ]

  -- `inter_link_flo_strucs_via_register`, over the references of a function. A caller without a domain
  -- is searched first and then looked at all the same.
  unfoldable pub via_register : ℕ → StrucDomain → Register → List ℕ → Search → Run Search
  via_register fuel sd reg [] r = done r
  via_register zero sd reg (ref ∷ refs) r = out_of_fuel
  via_register (suc fuel) sd reg (ref ∷ refs) r =
      if was_visited ref r.visited
      then via_register fuel sd reg refs r
      else elim (get_flo_by_address reflo ref) [
        | none ↦ fault
        | some ref_flo ↦ get_contexts contexts ref_flo >>= λ flo_contexts.
            let seen : Search = record r { visited = ref ∷ r.visited } in
            let deeper : Search → Run Search =
              λ r'. via_register fuel sd reg ref_flo.references r' in
            (if Assoc.contains ref_flo.entry_point r.state.domains then done seen else deeper seen)
            >>= λ r'.
                register_contexts fuel sd reg ref_flo deeper (contexts_at ref flo_contexts) r'
                >>= λ r''. via_register fuel sd reg refs r''
      ]

  -- The contexts at which the argument was stored.
  unfoldable pub link_sources : ℕ → StrucDomain → Register → Flo → List Context → State → Run State
  link_sources fuel sd reg ref_flo [] st = done st
  link_sources fuel sd reg ref_flo (c ∷ cs) st = get_register c reg >>= λ found. elim found [
    | none ↦ link_sources fuel sd reg ref_flo cs st
    | some v ↦ link_at s size_of reflo contexts fuel sd ref_flo v.source st >>= λ st'.
        link_sources fuel sd reg ref_flo cs st'
  ]

  -- The value of a stack argument at a reference.
  unfoldable pub stack_argument : ℕ → ℕ → Context → ℕ → Run (Value × ℕ)
  stack_argument argument stack_offset c next_id = get_register c (qword64 rsp) >>= λ found.
      elim found [
        | none ↦ fault
        | some v ↦
            get_memory s.externals.hashers c
              ((raw_address_value v + stack_offset + argument * 8 % 2 ^ 32) % word) 8 next_id
            >>= λ (values, n). to_value hash_uint hash_int values n
      ]

  unfoldable pub stack_contexts :
      ℕ
      → StrucDomain
      → ℕ
      → ℕ
      → Flo
      → FloContexts
      → (Search → Run Search)
      → List Context
      → Search
      → Run Search
  stack_contexts fuel sd argument stack_offset ref_flo flo_contexts deeper [] r = done r
  stack_contexts fuel sd argument stack_offset ref_flo flo_contexts deeper (c ∷ cs) r =
      stack_argument argument stack_offset c r.state.next_id >>= λ (arg, n).
      let counted : Search = record r { state = record r.state { next_id = n } } in
      if not (is_inside ref_flo arg.source)
      then (deeper counted >>= λ r'.
          stack_contexts fuel sd argument stack_offset ref_flo flo_contexts deeper cs r')
      else elim (get_instruction ref_flo arg.source) [
        | none ↦ fault
        | some ins ↦ elim (stored_argument s.externals.unused ins) [
          | none ↦
              stack_contexts fuel sd argument stack_offset ref_flo flo_contexts deeper cs counted
          | some reg ↦
              link_sources fuel sd reg ref_flo (contexts_at arg.source flo_contexts) counted.state
              >>= λ st.
                  stack_contexts fuel sd argument stack_offset ref_flo flo_contexts deeper cs
                    (record counted { state = st })
        ]
      ]

  -- `inter_link_flo_strucs_via_stack`. At a caller without a domain the search goes on there and ends:
  -- the references that follow are not looked at.
  unfoldable pub via_stack : ℕ → StrucDomain → ℕ → List ℕ → Search → Run Search
  via_stack fuel sd argument [] r = done r
  via_stack zero sd argument (ref ∷ refs) r = out_of_fuel
  via_stack (suc fuel) sd argument (ref ∷ refs) r =
      if was_visited ref r.visited
      then via_stack fuel sd argument refs r
      else elim (get_flo_by_address reflo ref) [
        | none ↦ fault
        | some ref_flo ↦ get_contexts contexts ref_flo >>= λ flo_contexts.
            elim (get_instruction ref_flo ref) [
              | none ↦ fault
              | some ins ↦
                  let seen : Search = record r { visited = ref ∷ r.visited } in
                  let deeper : Search → Run Search =
                    λ r'. via_stack fuel sd argument ref_flo.references r' in
                  if not (Assoc.contains ref_flo.entry_point r.state.domains)
                  then deeper seen
                  else (stack_contexts fuel sd argument (if is_call ins.mnemonic then 0 else 8)
                        ref_flo flo_contexts deeper (contexts_at ref flo_contexts) seen
                      >>= λ r'. via_stack fuel sd argument refs r')
            ]
      ]

  -- Every context at the load of a structure that came over the stack.
  unfoldable pub link_arguments :
      ℕ → StrucDomain → List ℕ → ℕ → MemoryOperand → List Context → Search → Run Search
  link_arguments fuel sd references element_size m [] r = done r
  link_arguments fuel sd references element_size m (c ∷ cs) r =
      get_memory_address s.externals c element_size m r.state.next_id >>= λ (address, n).
      let counted : Search = record r { state = record r.state { next_id = n } } in
      elim (known_number (some address)) [
        | none ↦ link_arguments fuel sd references element_size m cs counted
        | some number ↦
            via_stack fuel sd (stack_argument_number number) references counted >>= λ r'.
            link_arguments fuel sd references element_size m cs r'
      ]

  -- The base registers whose value has no source.
  unfoldable pub link_registers :
      ℕ → StrucDomain → List ℕ → List (ℕ × Register) → Search → Run Search
  link_registers fuel sd references [] r = done r
  link_registers fuel sd references ((source, reg) ∷ regs) r =
      if source == 0
      then (via_register fuel sd reg references r >>= λ r'.
          link_registers fuel sd references regs r')
      else link_registers fuel sd references regs r

  unfoldable pub link_loaded : ℕ → Flo → FloContexts → Value → StrucDomain → Search → Run Search
  link_loaded fuel f flo_contexts v sd r = elim (get_instruction f v.source) [
    | none ↦ fault
    | some ins ↦ elim (moved_from s.externals.unused ins) [
      | none ↦ done r
      | some m ↦ register_points_to_stack m.base (contexts_at v.source flo_contexts) >>= λ on_stack.
          if on_stack
          then link_arguments fuel sd f.references
              (Zydis.Operand.element_size (operand_at s.externals.unused ins.operands 1)) m
              (contexts_at v.source flo_contexts) r
          else done r
    ]
  ]

  -- The loop of `inter_link_flo_strucs`; each structure starts with nothing visited.
  unfoldable pub link_domain : ℕ → Flo → FloContexts → ValueGroups → State → Run State
  link_domain fuel f flo_contexts [] st = done st
  link_domain fuel f flo_contexts ((v, sd) ∷ domain) st =
      let start : Search = record { visited = []; state = st } in
      (if v.source == 0
        then link_registers fuel sd f.references sd.base_regs start
        else link_loaded fuel f flo_contexts v sd start)
      >>= λ r. link_domain fuel f flo_contexts domain r.state

  unfoldable pub inter_link_flo_strucs : ℕ → Flo → State → Run State
  inter_link_flo_strucs fuel f st = elim (Assoc.find f.entry_point st.domains) [
    | none ↦ fault
    | some [] ↦ done st
    | some (e ∷ domain) ↦
        get_contexts contexts f >>= λ flo_contexts. link_domain fuel f flo_contexts (e ∷ domain) st
  ]
