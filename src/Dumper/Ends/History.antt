-- ===== src/Dumper/Ends/History.antt =====
-- The history of an instruction ends: an instruction on the way to another one is not visited again.
use restruc.Base.{
  ℕ, zero, suc, ◌≤◌, ◌<◌, ◌≡◌, refl, arith, Bool, true, false, not, ◌&&◌, some, List, [], ◌∷◌,
  if◌then◌else◌,
}
use restruc.Base.Assoc
use restruc.Base.Run.{done, fault}
use restruc.Base.Ends.{Ends, done-Ends, fault-Ends, if-Ends, option-Ends, bind-Ends, map-Ends}
use restruc.Zydis
use restruc.Zydis.{
  Instruction, Register, MemoryOperand, OperandType, register_operand, memory_operand,
  immediate_operand, other_operand, no_register, rip,
}
use restruc.Value.{Value}
use restruc.Context.{Context, get_register}
use restruc.Flo.{Flo}
use restruc.Flo.Destinations.{is_known}
use restruc.Reflo.Search.{Reflo, get_flo_by_address}
use restruc.Recontex.{Externals, same_register}
use restruc.Recontex.Stack.{is_history_term_instr}
use restruc.Restruc.{AllContexts, contexts_at}
use restruc.Dumper.{Formatter}
use restruc.Dumper.History.{
  Dump, Deeper, say, visit, changed_text, go_to, dump_changed, dump_register_history, dump_sources,
  dump_memory_history, dump_operand, dump_contexts, dump_operands, dump_instruction_history,
}
use restruc.Dumper.Ends.{get_register-Stops, get_memory-Stops, get_memory_address-Stops}
use restruc.Dumper.Ends.Unseen.{
  addresses, unseen, Wider, unseen-Wider, Wider-cons, Wider-trans, Wider-refl, unseen-cons,
  find-keys, get_flo_by_address-Known,
}
use restruc.Dumper.Ends.{get_contexts-Stops, raw_to_virtual_address-Stops, dump_instruction-Stops}

-- Nothing that was visited is forgotten.
unfoldable pub Kept : List ℕ → Dump → Type 0
Kept v d = Wider v d.visited

module _ (x : Externals) (format : Formatter) (reflo : Reflo) (contexts : AllContexts) where
  -- The history of an instruction ends while fewer than `n` instructions are unseen.
  unfoldable pub DeeperEnds : ℕ → Deeper → Type 0
  DeeperEnds n deeper =
      (source : ℕ) (ins : Instruction) (cs : List Context) (d : Dump)
      → unseen (addresses reflo.flos) (source ∷ d.visited) < n
      → Ends (Kept d.visited) (deeper source ins cs d)

  module _ (n : ℕ) (deeper : Deeper) (deep : DeeperEnds n deeper) where
    go_to-Ends :
        (source : ℕ) (flo : Flo) (w : List ℕ) (d : Dump)
        → get_flo_by_address reflo source ≡ some flo
        → is_known source w ≡ false
        → d.visited ≡ source ∷ w
        → unseen (addresses reflo.flos) w ≤ n
        → Ends (Kept d.visited) (go_to x format reflo contexts deeper source flo d)
    unfolding go_to DeeperEnds
    go_to-Ends source flo w d found new visited few =
        option-Ends (Kept d.visited) (Assoc.find source flo.disassembly) fault _ (fault-Ends _)
          (λ ins e.
            let there =
              get_flo_by_address-Known reflo source source flo found
                (find-keys source flo.disassembly ins e) in
            let less = unseen-cons source (addresses reflo.flos) w there new in
            let again =
              unseen-Wider (addresses reflo.flos) (source ∷ w) (source ∷ source ∷ w)
                (Wider-cons source (source ∷ w)) in
            let enough : unseen (addresses reflo.flos) (source ∷ d.visited) < n =
              rw visited (omega arith) in
            bind-Ends (λ _. Unit) (Kept d.visited) _ _ (get_contexts-Stops contexts flo)
              (λ fc _. deep source ins (contexts_at source fc) d enough))

    -- A search that began with `v` visited goes on with more.
    go_on-Ends :
        (v : List ℕ) (source : ℕ) (flo : Flo) (d d' : Dump)
        → get_flo_by_address reflo source ≡ some flo
        → is_known source d.visited ≡ false
        → d'.visited ≡ source ∷ d.visited
        → Kept v d
        → unseen (addresses reflo.flos) v ≤ n
        → Ends (Kept v) (go_to x format reflo contexts deeper source flo d')
    unfolding Kept
    go_on-Ends v source flo d d' found new visited kept few =
        let fewer = unseen-Wider (addresses reflo.flos) v d.visited kept in
        let wider : Wider v d'.visited =
          rw visited
            (Wider-trans v d.visited (source ∷ d.visited) kept (Wider-cons source d.visited)) in
        map-Ends (Kept d'.visited) (Kept v) _ (λ e k. Wider-trans v d'.visited e.visited wider k)
          (go_to-Ends source flo d.visited d' found new visited (omega arith))

    dump_changed-Ends :
        (v : List ℕ) (value : Value) (d : Dump)
        → Kept v d
        → unseen (addresses reflo.flos) v ≤ n
        → Ends (Kept v) (dump_changed x format reflo contexts deeper value d)
    unfolding dump_changed say visit Kept
    dump_changed-Ends v value d kept few =
        option-Ends (Kept v) (get_flo_by_address reflo value.source) (done d) _
          (done-Ends (Kept v) d kept)
          (λ flo e.
            if-Ends (Kept v) (is_known value.source d.visited) (done d) _
              (λ _. done-Ends (Kept v) d kept)
              (λ new.
                bind-Ends (Kept v) (Kept v) _ _
                  (go_on-Ends v value.source flo d (say (changed_text value) (visit value.source d))
                    e new refl kept few)
                  (λ d' k. done-Ends (Kept v) _ k)))

    dump_register_history-Ends :
        (v : List ℕ) (c : Context) (reg : Register) (d : Dump)
        → Kept v d
        → unseen (addresses reflo.flos) v ≤ n
        → Ends (Kept v) (dump_register_history x format reflo contexts deeper c reg d)
    unfolding dump_register_history
    dump_register_history-Ends v c reg d kept few =
        bind-Ends (λ _. Unit) (Kept v) (get_register c reg) _ (get_register-Stops c reg)
          (λ changed _.
            option-Ends (Kept v) changed (done d) _ (done-Ends (Kept v) d kept)
              (λ value e. dump_changed-Ends v value d kept few))

    dump_sources-Ends :
        (v sources : List ℕ) (d : Dump)
        → Kept v d
        → unseen (addresses reflo.flos) v ≤ n
        → Ends (Kept v) (dump_sources x format reflo contexts deeper sources d)
    unfolding dump_sources visit
    dump_sources-Ends v [] d kept few = done-Ends (Kept v) d kept
    dump_sources-Ends v (source ∷ sources) d kept few =
        if-Ends (Kept v) (is_known source d.visited) _ _
          (λ _. dump_sources-Ends v sources d kept few)
          (λ new.
            option-Ends (Kept v) (get_flo_by_address reflo source) _ _
              (dump_sources-Ends v sources d kept few)
              (λ flo e.
                bind-Ends (Kept v) (Kept v) _ _
                  (go_on-Ends v source flo d (visit source d) e new refl kept few)
                  (λ d' k. dump_sources-Ends v sources d' k few)))

    dump_memory_history-Ends :
        (v : List ℕ) (c : Context) (element_size : ℕ) (m : MemoryOperand) (d : Dump)
        → Kept v d
        → unseen (addresses reflo.flos) v ≤ n
        → Ends (Kept v) (dump_memory_history x format reflo contexts deeper c element_size m d)
    unfolding dump_memory_history Kept
    dump_memory_history-Ends v c element_size m d kept few =
        bind-Ends (λ _. Unit) (Kept v) _ _ (get_memory_address-Stops x c element_size m d.next_id)
          (λ address _.
            bind-Ends (λ _. Unit) (Kept v) _ _ (get_memory-Stops x c _ _ _)
              (λ values _. dump_sources-Ends v _ _ kept few))

    register_if-Ends :
        (b : Bool) (v : List ℕ) (c : Context) (reg : Register) (d : Dump)
        → Kept v d
        → unseen (addresses reflo.flos) v ≤ n
        → Ends
            (Kept v)
            (if b then dump_register_history x format reflo contexts deeper c reg d else done d)
    register_if-Ends true v c reg d kept few = dump_register_history-Ends v c reg d kept few
    register_if-Ends false v c reg d kept few = done-Ends (Kept v) d kept

    operand_of-Ends :
        (kind : OperandType) (v : List ℕ) (c : Context) (op : Zydis.Operand) (d : Dump)
        → Kept v d
        → unseen (addresses reflo.flos) v ≤ n
        → Ends
            (Kept v)
            (dump_operand x format reflo contexts deeper c (record op { kind = kind }) d)
    unfolding dump_operand
    operand_of-Ends (register_operand r) v c op d kept few =
        register_if-Ends op.is_explicit v c r d kept few
    operand_of-Ends (memory_operand m) v c op d kept few =
        let with_base = not (same_register m.base no_register) && not (same_register m.base rip) in
        let with_index = not (same_register m.index no_register) in
        bind-Ends (Kept v) (Kept v) _ _ (register_if-Ends with_base v c m.base d kept few) (λ d' k.
          bind-Ends (Kept v) (Kept v) _ _ (register_if-Ends with_index v c m.index d' k few)
            (λ d'' k'. dump_memory_history-Ends v c op.element_size m d'' k' few))
    operand_of-Ends (immediate_operand i) v c op d kept few = done-Ends (Kept v) d kept
    operand_of-Ends other_operand v c op d kept few = done-Ends (Kept v) d kept

    dump_contexts-Ends :
        (v : List ℕ) (op : Zydis.Operand) (cs : List Context) (d : Dump)
        → Kept v d
        → unseen (addresses reflo.flos) v ≤ n
        → Ends (Kept v) (dump_contexts x format reflo contexts deeper op cs d)
    unfolding dump_contexts
    dump_contexts-Ends v op [] d kept few = done-Ends (Kept v) d kept
    dump_contexts-Ends v op (c ∷ cs) d kept few =
        bind-Ends (Kept v) (Kept v) _ _ (operand_of-Ends op.kind v c op d kept few)
          (λ d' k. dump_contexts-Ends v op cs d' k few)

    dump_operands-Ends :
        (v : List ℕ) (cs : List Context) (ops : List Zydis.Operand) (d : Dump)
        → Kept v d
        → unseen (addresses reflo.flos) v ≤ n
        → Ends (Kept v) (dump_operands x format reflo contexts deeper cs ops d)
    unfolding dump_operands
    dump_operands-Ends v cs [] d kept few = done-Ends (Kept v) d kept
    dump_operands-Ends v cs (op ∷ ops) d kept few =
        if-Ends (Kept v) (not op.is_read) _ _ (λ _. dump_operands-Ends v cs ops d kept few)
          (λ _.
            bind-Ends (Kept v) (Kept v) _ _ (dump_contexts-Ends v op cs d kept few)
              (λ d' k. dump_operands-Ends v cs ops d' k few))

  pub dump_instruction_history-Ends :
      (n : ℕ) → DeeperEnds n (dump_instruction_history x format reflo contexts n)
  unfolding dump_instruction_history DeeperEnds say visit Kept
  dump_instruction_history-Ends zero source ins cs d few = absurd (omega arith)
  dump_instruction_history-Ends (suc n) source ins cs d few =
      let here = source ∷ d.visited in
      bind-Ends (λ _. Unit) (Kept d.visited) _ _ (raw_to_virtual_address-Stops reflo.pe source)
        (λ va _.
          bind-Ends (λ _. Unit) (Kept d.visited) _ _ (dump_instruction-Stops format va ins)
            (λ line _.
              if-Ends (Kept d.visited) (is_history_term_instr x.unused ins) _ _
                (λ _. done-Ends (Kept d.visited) _ (Wider-refl d.visited))
                (λ _.
                  bind-Ends (Kept here) (Kept d.visited) _ _
                    (dump_operands-Ends n (dump_instruction_history x format reflo contexts n)
                      (dump_instruction_history-Ends n) here cs ins.operands
                      (say line (visit source d)) (Wider-refl here) (omega arith))
                    (λ d' k. done-Ends (Kept d.visited) _ (Wider-refl d.visited)))))
