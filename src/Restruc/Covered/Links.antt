-- ===== src/Restruc/Covered/Links.antt =====
-- A link between two structures keeps all structures covered.
use restruc.Base.{ℕ, zero, suc, ◌^◌, Bool, Option, none, some, List, [], ◌∷◌, ltb, ◌==◌}
use restruc.Base.Run.{done, fault, out_of_fuel}
use restruc.Base.Assoc
use restruc.Base.Holds.{
  Holds, done-Holds, fault-Holds, out_of_fuel-Holds, if-Holds, option-Holds, any-Holds, bind-Holds,
}
use restruc.Zydis.{MemoryOperand, no_register}
use restruc.Value.{Value}
use restruc.Context.{Context, get_register}
use restruc.Flo.{Flo, get_instruction}
use restruc.Reflo.Search.{Reflo}
use restruc.Recontex.{same_register}
use restruc.Struc.Cover.{add_pointer_field-IsCovered}
use restruc.Struc.Iterator.{Iterator, locate, upper_bound, previous}
use restruc.Struc.Iterator.Laws.{before_entry-Holds, moved-Holds}
use restruc.Struc.Merge.{Merging, Outcome, merge, perform, is_passed, fits}
use restruc.Struc.Merge.Keeps.{AllCovered, KeepsCovered, write-AllCovered, perform-KeepsCovered}
use restruc.Restruc.{Surroundings, AllContexts, get_contexts, contexts_at}
use restruc.Restruc.Groups.{StrucDomain, ValueGroups, State}
use restruc.Restruc.Domains.{find_domain, moved_from}
use restruc.Restruc.Links.{
  merge_targets, try_merge_struc_field_at_offset, link_struc, link_context, link_each, link_at,
}

module _ (s : Surroundings) (size_of : ℕ → ℕ) where
  abbrev Merged : Bool × Merging → Type 0
  Merged r = AllCovered size_of r.1.store

  abbrev MergingCovered : Merging → Type 0
  MergingCovered m = AllCovered size_of m.store

  abbrev pub StateCovered : State → Type 0
  StateCovered st = AllCovered size_of st.store

  outcome-Holds : (o : Outcome) → KeepsCovered size_of o → Holds Merged o
  unfolding KeepsCovered Holds
  outcome-Holds (done (b, m)) h = h
  outcome-Holds fault h = tt
  outcome-Holds out_of_fuel h = tt

  module _ (reflo : Reflo) (contexts : AllContexts) where
    merge_targets-Holds :
        (fuel dst src offset : ℕ) (it : Iterator) (m : Merging)
        → MergingCovered m
        → Holds MergingCovered (merge_targets s size_of reflo contexts fuel dst src offset it m)
    unfolding merge_targets
    merge_targets-Holds zero dst src offset it m h = out_of_fuel-Holds MergingCovered
    merge_targets-Holds (suc fuel) dst src offset it m h =
        let on = λ (n : Merging) (k : MergingCovered n).
          moved-Holds MergingCovered (previous (locate it (n.store src).fields)) _
            (λ it'. merge_targets-Holds fuel dst src offset it' n k) in
        before_entry-Holds MergingCovered (locate it (m.store src).fields) _ _
          (done-Holds MergingCovered m h)
          (λ e.
            if-Holds MergingCovered (is_passed size_of offset e) _ _ (done-Holds MergingCovered m h)
              (option-Holds MergingCovered (fits size_of offset e) _ _ (on m h) (λ t.
                bind-Holds Merged MergingCovered (perform size_of fuel (merge dst t) m) _
                  (outcome-Holds _ (perform-KeepsCovered size_of fuel (merge dst t) m h))
                  (λ (b, m') h'. on m' h'))))

    link_struc-Holds :
        (fuel i parent offset : ℕ) (st : State)
        → StateCovered st
        → Holds StateCovered (link_struc s size_of reflo contexts fuel i parent offset st)
    unfolding link_struc try_merge_struc_field_at_offset
    link_struc-Holds fuel i parent offset st h =
        let start : Merging = record { store = st.store; merged = [] } in
        bind-Holds MergingCovered StateCovered
          (try_merge_struc_field_at_offset s size_of reflo contexts fuel i parent offset start) _
          (if-Holds MergingCovered (i == parent) _ _ (done-Holds MergingCovered start h) (
            merge_targets-Holds fuel i parent offset
              (upper_bound offset (start.store parent).fields) start h))
          (λ m h'. done-Holds StateCovered _ (
            write-AllCovered size_of parent _ m.store
              (add_pointer_field-IsCovered size_of offset 1 (some i) (m.store parent) (h' parent))
              h'))

    link_context-Holds :
        (fuel i : ℕ) (domain : ValueGroups) (m : MemoryOperand) (found : Option Value) (st : State)
        → StateCovered st
        → Holds StateCovered (link_context s size_of reflo contexts fuel i domain m found st)
    unfolding link_context
    link_context-Holds fuel i domain m none st h = done-Holds StateCovered st h
    link_context-Holds fuel i domain m (some v) st h =
        option-Holds StateCovered (find_domain v domain) _ _ (done-Holds StateCovered st h)
          (λ parent.
            if-Holds StateCovered (ltb m.displacement (2 ^ 63)) _ _
              (link_struc-Holds fuel i parent.struc m.displacement st h)
              (done-Holds StateCovered st h))

    link_each-Holds :
        (fuel i : ℕ) (domain : ValueGroups) (m : MemoryOperand) (cs : List Context) (st : State)
        → StateCovered st
        → Holds StateCovered (link_each s size_of reflo contexts fuel i domain m cs st)
    unfolding link_each
    link_each-Holds fuel i domain m [] st h = done-Holds StateCovered st h
    link_each-Holds fuel i domain m (c ∷ cs) st h =
        any-Holds StateCovered (get_register c m.base) _ (λ found.
          bind-Holds StateCovered StateCovered
            (link_context s size_of reflo contexts fuel i domain m found st) _
            (link_context-Holds fuel i domain m found st h) (link_each-Holds fuel i domain m cs))

    pub link_at-Holds :
        (fuel : ℕ) (sd : StrucDomain) (ref_flo : Flo) (link : ℕ) (st : State)
        → StateCovered st
        → Holds StateCovered (link_at s size_of reflo contexts fuel sd ref_flo link st)
    unfolding link_at
    link_at-Holds fuel sd ref_flo link st h =
        option-Holds StateCovered (Assoc.find ref_flo.entry_point st.domains) _ _
          (fault-Holds StateCovered)
          (λ domain. any-Holds StateCovered (get_contexts contexts ref_flo) _ (λ fc.
            option-Holds StateCovered (get_instruction ref_flo link) _ _ (fault-Holds StateCovered)
              (λ ins.
                option-Holds StateCovered (moved_from s.externals.unused ins) _ _
                  (done-Holds StateCovered st h)
                  (λ m.
                    if-Holds StateCovered (same_register m.base no_register) _ _
                      (done-Holds StateCovered st h)
                      (link_each-Holds fuel sd.struc domain m (contexts_at link fc) st h)))))
