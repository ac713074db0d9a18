-- ===== src/Restruc/Covered/Callers.antt =====
-- The search for links between functions keeps the structures covered.
use restruc.Base.{ℕ, zero, suc, not, List, [], ◌∷◌, if◌then◌else◌, ◌==◌}
use restruc.Base.Run.{Run}
use restruc.Base.Assoc
use restruc.Base.Holds.{
  Holds, done-Holds, fault-Holds, out_of_fuel-Holds, if-Holds, option-Holds, any-Holds, bind-Holds,
}
use restruc.Zydis.{Register}
use restruc.Context.{Context, get_register}
use restruc.Flo.{Flo, get_instruction, is_inside}
use restruc.Reflo.Search.{Reflo, get_flo_by_address}
use restruc.Recontex.Paths.{FloContexts}
use restruc.Restruc.{Surroundings, AllContexts, get_contexts, contexts_at}
use restruc.Restruc.Groups.{StrucDomain, State}
use restruc.Restruc.Callers.{
  Search, was_visited, is_call, stored_argument, register_contexts, via_register, link_sources,
  stack_argument, stack_contexts, via_stack,
}
use restruc.Restruc.Covered.Links.{StateCovered, link_at-Holds}
use restruc.Restruc.Links.{link_at}

module _ (s : Surroundings) (size_of : ℕ → ℕ) (reflo : Reflo) (contexts : AllContexts) where
  abbrev pub SearchCovered : Search → Type 0
  SearchCovered r = StateCovered s size_of r.state

  abbrev Deeper : (Search → Run Search) → Type 0
  Deeper deeper = (r : Search) → SearchCovered r → Holds SearchCovered (deeper r)

  register_contexts-Holds :
      (fuel : ℕ) (sd : StrucDomain) (reg : Register) (ref_flo : Flo) (deeper : Search → Run Search)
      (cs : List Context) (r : Search)
      → Deeper deeper
      → SearchCovered r
      → Holds SearchCovered
          (register_contexts s size_of reflo contexts fuel sd reg ref_flo deeper cs r)
  unfolding register_contexts
  register_contexts-Holds fuel sd reg ref_flo deeper [] r d h = done-Holds SearchCovered r h
  register_contexts-Holds fuel sd reg ref_flo deeper (c ∷ cs) r d h =
      let on = λ (r' : Search) (h' : SearchCovered r').
        register_contexts-Holds fuel sd reg ref_flo deeper cs r' d h' in
      any-Holds SearchCovered (get_register c reg) _ (λ found.
        option-Holds SearchCovered found _ _ (on r h) (λ v.
          if-Holds SearchCovered (v.source == 0) _ _
            (bind-Holds SearchCovered SearchCovered (deeper r) _ (d r h) on)
            (bind-Holds (StateCovered s size_of) SearchCovered
              (link_at s size_of reflo contexts fuel sd ref_flo v.source r.state) _
              (link_at-Holds s size_of reflo contexts fuel sd ref_flo v.source r.state h)
              (λ st h'. on (record r { state = st }) h'))))

  pub via_register-Holds :
      (fuel : ℕ) (sd : StrucDomain) (reg : Register) (refs : List ℕ) (r : Search)
      → SearchCovered r
      → Holds SearchCovered (via_register s size_of reflo contexts fuel sd reg refs r)
  unfolding via_register
  via_register-Holds zero sd reg [] r h = done-Holds SearchCovered r h
  via_register-Holds (suc fuel) sd reg [] r h = done-Holds SearchCovered r h
  via_register-Holds zero sd reg (ref ∷ refs) r h = out_of_fuel-Holds SearchCovered
  via_register-Holds (suc fuel) sd reg (ref ∷ refs) r h =
      let on = via_register-Holds fuel sd reg refs in
      if-Holds SearchCovered (was_visited ref r.visited) _ _ (on r h) (
        option-Holds SearchCovered (get_flo_by_address reflo ref) _ _ (fault-Holds SearchCovered)
          (λ ref_flo. any-Holds SearchCovered (get_contexts contexts ref_flo) _ (λ fc.
            let seen : Search = record r { visited = ref ∷ r.visited } in
            let deeper = via_register-Holds fuel sd reg ref_flo.references in
            bind-Holds SearchCovered SearchCovered _ _
              (if-Holds SearchCovered (Assoc.contains ref_flo.entry_point r.state.domains) _ _
                (done-Holds SearchCovered seen h) (deeper seen h))
              (λ r' h'.
                bind-Holds SearchCovered SearchCovered _ _
                  (register_contexts-Holds fuel sd reg ref_flo _ (contexts_at ref fc) r' deeper h')
                  on))))

  link_sources-Holds :
      (fuel : ℕ) (sd : StrucDomain) (reg : Register) (ref_flo : Flo) (cs : List Context)
      (st : State)
      → StateCovered s size_of st
      → Holds
          (StateCovered s size_of)
          (link_sources s size_of reflo contexts fuel sd reg ref_flo cs st)
  unfolding link_sources
  link_sources-Holds fuel sd reg ref_flo [] st h = done-Holds (StateCovered s size_of) st h
  link_sources-Holds fuel sd reg ref_flo (c ∷ cs) st h =
      let on = link_sources-Holds fuel sd reg ref_flo cs in
      any-Holds (StateCovered s size_of) (get_register c reg) _ (λ found.
        option-Holds (StateCovered s size_of) found _ _ (on st h) (λ v.
          bind-Holds (StateCovered s size_of) (StateCovered s size_of)
            (link_at s size_of reflo contexts fuel sd ref_flo v.source st) _
            (link_at-Holds s size_of reflo contexts fuel sd ref_flo v.source st h) on))

  stack_contexts-Holds :
      (fuel : ℕ) (sd : StrucDomain) (argument stack_offset : ℕ) (ref_flo : Flo) (fc : FloContexts)
      (deeper : Search → Run Search) (cs : List Context) (r : Search)
      → Deeper deeper
      → SearchCovered r
      → Holds SearchCovered (
          stack_contexts s size_of reflo contexts fuel sd argument stack_offset ref_flo fc deeper cs
            r)
  unfolding stack_contexts
  stack_contexts-Holds fuel sd argument stack_offset ref_flo fc deeper [] r d h =
      done-Holds SearchCovered r h
  stack_contexts-Holds fuel sd argument stack_offset ref_flo fc deeper (c ∷ cs) r d h =
      let on = λ (r' : Search) (h' : SearchCovered r').
        stack_contexts-Holds fuel sd argument stack_offset ref_flo fc deeper cs r' d h' in
      any-Holds SearchCovered
        (stack_argument s size_of reflo contexts argument stack_offset c r.state.next_id) _
        (λ (arg, n).
          let counted : Search = record r { state = record r.state { next_id = n } } in
          if-Holds SearchCovered (not (is_inside ref_flo arg.source)) _ _
            (bind-Holds SearchCovered SearchCovered (deeper counted) _ (d counted h) on)
            (option-Holds SearchCovered (get_instruction ref_flo arg.source) _ _
              (fault-Holds SearchCovered)
              (λ ins.
                option-Holds SearchCovered (stored_argument s.externals.unused ins) _ _
                  (on counted h)
                  (λ reg.
                    bind-Holds (StateCovered s size_of) SearchCovered
                      (link_sources s size_of reflo contexts fuel sd reg ref_flo
                        (contexts_at arg.source fc) counted.state)
                      _
                      (link_sources-Holds fuel sd reg ref_flo (contexts_at arg.source fc)
                        counted.state h)
                      (λ st h'. on (record counted { state = st }) h')))))

  pub via_stack-Holds :
      (fuel : ℕ) (sd : StrucDomain) (argument : ℕ) (refs : List ℕ) (r : Search)
      → SearchCovered r
      → Holds SearchCovered (via_stack s size_of reflo contexts fuel sd argument refs r)
  unfolding via_stack
  via_stack-Holds zero sd argument [] r h = done-Holds SearchCovered r h
  via_stack-Holds (suc fuel) sd argument [] r h = done-Holds SearchCovered r h
  via_stack-Holds zero sd argument (ref ∷ refs) r h = out_of_fuel-Holds SearchCovered
  via_stack-Holds (suc fuel) sd argument (ref ∷ refs) r h =
      let on = via_stack-Holds fuel sd argument refs in
      if-Holds SearchCovered (was_visited ref r.visited) _ _ (on r h) (
        option-Holds SearchCovered (get_flo_by_address reflo ref) _ _ (fault-Holds SearchCovered)
          (λ ref_flo. any-Holds SearchCovered (get_contexts contexts ref_flo) _ (λ fc.
            option-Holds SearchCovered (get_instruction ref_flo ref) _ _ (fault-Holds SearchCovered)
              (λ ins.
                let seen : Search = record r { visited = ref ∷ r.visited } in
                let deeper = via_stack-Holds fuel sd argument ref_flo.references in
                if-Holds SearchCovered (not (Assoc.contains ref_flo.entry_point r.state.domains)) _
                  _ (deeper seen h)
                  (bind-Holds SearchCovered SearchCovered _ _
                    (stack_contexts-Holds fuel sd argument (if is_call ins.mnemonic then 0 else 8)
                      ref_flo fc _ (contexts_at ref fc) seen deeper h)
                    on)))))
