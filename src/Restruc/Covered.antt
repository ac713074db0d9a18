-- ===== src/Restruc/Covered.antt =====
-- The analysis keeps the structures covered.
pub mod Links
pub mod Callers
pub mod Analysis
use restruc.Base.{
  ℕ, zero, suc, ◌/◌, Bool, true, false, Option, none, some, List, [], ◌∷◌, if◌then◌else◌, ◌==◌,
}
use restruc.Base.Run.{Run, done, fault, out_of_fuel, ◌>>=◌}
use restruc.Base.Holds.{
  Holds, done-Holds, fault-Holds, out_of_fuel-Holds, if-Holds, option-Holds, any-Holds, bind-Holds,
  list-Holds,
}
use restruc.Zydis.{Instruction, Operand, MemoryOperand}
use restruc.Pe.{Pe}
use restruc.Context.{Context, get_register}
use restruc.Flo.{Flo, Disassembly, get_instruction}
use restruc.Recontex.Paths.{FloContexts}
use restruc.Struc.{Struc, new_struc, add_int_field, add_float_field}
use restruc.Struc.Cover.{
  IsCovered, new_struc-IsCovered, add_int_field-IsCovered, add_float_field-IsCovered,
  add_pointer_field-IsCovered,
}
use restruc.Struc.Merge.{Store}
use restruc.Struc.Merge.Keeps.{AllCovered, write-AllCovered}
use restruc.Restruc.{
  Surroundings, ElementType, float16, float32, float64, float80, uint_element, other_element,
  AllContexts, get_contexts, contexts_at,
}
use restruc.Restruc.Groups.{StrucDomain, ValueGroups, State, group_disassembly}
use restruc.Restruc.Domains.{
  find_domain, moved_from, names_count, generate_struc_name, add_fields, create_flo_strucs,
  link_parents, link_domains, intra_link_flo_strucs, add_flo_domain, analyze_flo,
}
use restruc.Restruc.Fields.{
  get_memory_operand, field_offset, get_field_count, typed_field, add_struc_field,
}

module _ (s : Surroundings) (size_of : ℕ → ℕ) where
  -- A structure with the state of the symbols.
  abbrev pub StrucCovered : Struc × ℕ → Type 0
  StrucCovered r = IsCovered size_of r.0

  typed_field-IsCovered :
      (t : ElementType) (offset size count : ℕ) (struc : Struc)
      → IsCovered size_of struc
      → IsCovered size_of (typed_field s size_of t offset size count struc)
  unfolding typed_field
  typed_field-IsCovered float16 offset size count struc h =
      add_float_field-IsCovered size_of offset size count struc h
  typed_field-IsCovered float32 offset size count struc h =
      add_float_field-IsCovered size_of offset size count struc h
  typed_field-IsCovered float64 offset size count struc h =
      add_float_field-IsCovered size_of offset size count struc h
  typed_field-IsCovered float80 offset size count struc h =
      add_float_field-IsCovered size_of offset size count struc h
  typed_field-IsCovered uint_element offset size count struc h =
      add_int_field-IsCovered size_of offset size false count struc h
  typed_field-IsCovered other_element offset size count struc h =
      add_int_field-IsCovered size_of offset size true count struc h

  add_struc_field-Holds :
      (contexts : AllContexts) (f : Flo) (address : ℕ) (ins : Instruction) (struc : Struc)
      (next_id : ℕ)
      → IsCovered size_of struc
      → Holds StrucCovered (add_struc_field s size_of contexts f address ins struc next_id)
  unfolding add_struc_field
  add_struc_field-Holds contexts f address ins struc next_id h =
      option-Holds StrucCovered (get_memory_operand ins.operands) _ _
        (done-Holds StrucCovered (struc, next_id) h)
        (λ (op, m).
          option-Holds StrucCovered (field_offset s m) _ _
            (done-Holds StrucCovered (struc, next_id) h)
            (λ offset.
              any-Holds StrucCovered (get_field_count s contexts f address m next_id) _
                (λ (count, next_id').
                  if-Holds StrucCovered (op.element_size == 0) _ _
                    (done-Holds StrucCovered (struc, next_id') h)
                    (done-Holds StrucCovered
                      (
                        typed_field s size_of (s.element_type op) offset (op.element_size / 8) count
                            struc,
                        next_id',
                      )
                      (typed_field-IsCovered (s.element_type op) offset (op.element_size / 8) count
                        struc h)))))

  module _ (pe : Pe) (contexts : AllContexts) where
    add_fields-Holds :
        (f : Flo) (d : Disassembly) (struc : Struc) (next_id : ℕ)
        → IsCovered size_of struc
        → Holds StrucCovered (add_fields s size_of pe contexts f d struc next_id)
    unfolding add_fields
    add_fields-Holds f [] struc next_id h = done-Holds StrucCovered (struc, next_id) h
    add_fields-Holds f ((address, ins) ∷ d) struc next_id h =
        bind-Holds StrucCovered StrucCovered
          (add_struc_field s size_of contexts f address ins struc next_id) _
          (add_struc_field-Holds contexts f address ins struc next_id h)
          (λ (struc', next_id') h'. add_fields-Holds f d struc' next_id' h')

    abbrev pub StoreCovered : ValueGroups × State → Type 0
    StoreCovered r = AllCovered size_of r.1.store

    create_flo_strucs-Holds :
        (f : Flo) (groups domain : ValueGroups) (st : State)
        → AllCovered size_of st.store
        → Holds StoreCovered (create_flo_strucs s size_of pe contexts f groups domain st)
    unfolding create_flo_strucs
    create_flo_strucs-Holds f [] domain st h = done-Holds StoreCovered (domain, st) h
    create_flo_strucs-Holds f ((v, sd) ∷ groups) domain st h =
        any-Holds StoreCovered (generate_struc_name pe f v) _ (λ name.
          bind-Holds StrucCovered StoreCovered
            (add_fields s size_of pe contexts f sd.relevant_instructions new_struc st.next_id) _
            (add_fields-Holds f sd.relevant_instructions new_struc st.next_id
              (new_struc-IsCovered size_of))
            (λ (struc, next_id') h'.
              create_flo_strucs-Holds f groups _ _
                (write-AllCovered size_of (names_count st.names) struc st.store h' h)))

    link_parents-Holds :
        (domain : ValueGroups) (sd : StrucDomain) (m : MemoryOperand) (cs : List Context)
        (store : Store)
        → AllCovered size_of store
        → Holds (AllCovered size_of) (link_parents s size_of pe contexts domain sd m cs store)
    unfolding link_parents
    link_parents-Holds domain sd m [] store h = done-Holds (AllCovered size_of) store h
    link_parents-Holds domain sd m (c ∷ cs) store h =
        let on = link_parents-Holds domain sd m cs in
        any-Holds (AllCovered size_of) (get_register c m.base) _ (λ found.
          option-Holds (AllCovered size_of) found _ _ (on store h) (λ v.
            option-Holds (AllCovered size_of) (find_domain v domain) _ _ (on store h) (λ parent.
              option-Holds (AllCovered size_of) (field_offset s m) _ _ (on store h) (λ offset.
                on _ (
                  write-AllCovered size_of parent.struc _ store
                    (add_pointer_field-IsCovered size_of offset 1 (some sd.struc)
                      (store parent.struc) (h parent.struc))
                    h)))))

    link_domains-Holds :
        (f : Flo) (fc : FloContexts) (domain rest : ValueGroups) (store : Store)
        → AllCovered size_of store
        → Holds (AllCovered size_of) (link_domains s size_of pe contexts f fc domain rest store)
    unfolding link_domains
    link_domains-Holds f fc domain [] store h = done-Holds (AllCovered size_of) store h
    link_domains-Holds f fc domain ((v, sd) ∷ rest) store h =
        let on = link_domains-Holds f fc domain rest in
        if-Holds (AllCovered size_of) (v.source == 0) _ _ (on store h) (
          option-Holds (AllCovered size_of) (get_instruction f v.source) _ _
            (fault-Holds (AllCovered size_of))
            (λ ins.
              option-Holds (AllCovered size_of) (moved_from s.externals.unused ins) _ _ (on store h)
                (λ m.
                  bind-Holds (AllCovered size_of) (AllCovered size_of)
                    (link_parents s size_of pe contexts domain sd m (contexts_at v.source fc) store)
                    _ (link_parents-Holds domain sd m (contexts_at v.source fc) store h) on)))

    intra_link-Holds :
        (f : Flo) (fc : FloContexts) (domain : ValueGroups) (store : Store)
        → AllCovered size_of store
        → Holds (AllCovered size_of) (intra_link_flo_strucs s size_of pe contexts f fc domain store)
    unfolding intra_link_flo_strucs
    intra_link-Holds f fc [] store h = done-Holds (AllCovered size_of) store h
    intra_link-Holds f fc (e ∷ []) store h = done-Holds (AllCovered size_of) store h
    intra_link-Holds f fc (e ∷ d ∷ rest) store h =
        link_domains-Holds f fc (e ∷ d ∷ rest) (e ∷ d ∷ rest) store h

    abbrev pub StateCovered : State → Type 0
    StateCovered st = AllCovered size_of st.store

    pub analyze_flo-Holds :
        (f : Flo) (st : State)
        → StateCovered st
        → Holds StateCovered (analyze_flo s size_of pe contexts f st)
    unfolding analyze_flo add_flo_domain
    analyze_flo-Holds f st h = any-Holds StateCovered (get_contexts contexts f) _ (λ fc.
        any-Holds StateCovered (group_disassembly fc f.disassembly []) _ (λ groups.
          list-Holds StateCovered groups _ _ (done-Holds StateCovered st h) (λ g gs.
            bind-Holds StoreCovered StateCovered
              (create_flo_strucs s size_of pe contexts f (g ∷ gs) [] st) _
              (create_flo_strucs-Holds f (g ∷ gs) [] st h)
              (λ (domain, st') h'.
                bind-Holds (AllCovered size_of) StateCovered
                  (intra_link_flo_strucs s size_of pe contexts f fc domain st'.store) _
                  (intra_link-Holds f fc domain st'.store h')
                  (λ store h''. done-Holds StateCovered _ h'')))))
