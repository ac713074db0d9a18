-- ===== src/Dumper/Ends/Debug.antt =====
-- The histories of all instructions end.
use restruc.Base.{ℕ, ◌<◌, arith, not, [], ◌∷◌}
use restruc.Base.Ends.{Stops, if-Ends, bind-Ends, list-Ends}
use restruc.Flo.{Disassembly}
use restruc.Reflo.Search.{Reflo, Flos}
use restruc.Recontex.{Externals}
use restruc.Recontex.Paths.{FloContexts}
use restruc.Recontex.Stack.{instruction_has_nonstack_memory_access}
use restruc.Restruc.{AllContexts, contexts_at}
use restruc.Dumper.{Formatter}
use restruc.Dumper.History.{Dump, debug_each, debug}
use restruc.Dumper.Ends.{done-Stops}
use restruc.Dumper.Ends.Unseen.{addresses, addresses_count, unseen-le}
use restruc.Dumper.Ends.{get_contexts-Stops}
use restruc.Dumper.Ends.History.{Kept, DeeperEnds, dump_instruction_history-Ends}

module _ (x : Externals) (format : Formatter) (reflo : Reflo) (contexts : AllContexts) where
  module _ (fuel : ℕ) (enough : addresses_count (addresses reflo.flos) < fuel) where
    debug_each-Stops :
        (fc : FloContexts) (instructions : Disassembly) (d : Dump)
        → Stops (debug_each x format reflo contexts fuel fc instructions d)
    unfolding debug_each DeeperEnds
    debug_each-Stops fc [] d = done-Stops d
    debug_each-Stops fc ((address, ins) ∷ rest) d =
        if-Ends (λ _. Unit) (not (instruction_has_nonstack_memory_access ins)) _ _
          (λ _. debug_each-Stops fc rest d)
          (λ _.
            let le = unseen-le (addresses reflo.flos) (address ∷ d.visited) in
            bind-Ends (Kept d.visited) (λ _. Unit) _ _
              (dump_instruction_history-Ends x format reflo contexts fuel address ins
                (contexts_at address fc) d (omega arith))
              (λ d' _. debug_each-Stops fc rest _))

    debug-Stops : (flos : Flos) (d : Dump) → Stops (debug x format reflo contexts fuel flos d)
    unfolding debug
    debug-Stops [] d = done-Stops d
    debug-Stops ((k, f) ∷ flos) d =
        bind-Ends (λ _. Unit) (λ _. Unit) _ _ (get_contexts-Stops contexts f)
          (λ fc _.
            list-Ends (λ _. Unit) fc _ _ (debug-Stops flos d)
              (λ c cs.
                bind-Ends (λ _. Unit) (λ _. Unit) _ _ (debug_each-Stops (c ∷ cs) f.disassembly d)
                  (λ d' _. debug-Stops flos d')))

  -- The histories of all instructions end: with more fuel than the functions have instructions, `debug`
  -- returns or fails: at an address without contexts, at one in no section, at one without an
  -- instruction in its function, by an error of the formatter or in a broken tree of registers or
  -- memory.
  pub debug_ends :
      (fuel : ℕ) (d : Dump)
      → addresses_count (addresses reflo.flos) < fuel
      → Stops (debug x format reflo contexts fuel reflo.flos d)
  debug_ends fuel d enough = debug-Stops fuel enough reflo.flos d
