-- ===== src/Recontex/Analysis.antt =====
-- recontex.cxx, `analyze` and `run_analysis`: the contexts of every function, and the cycles that its
-- loops become. What a thread does is one step.
use restruc.Base.{ℕ, none, some, List, [], ◌∷◌, if◌then◌else◌}
use restruc.Base.Assoc
use restruc.Base.Run.{Run, done, ◌>>=◌}
use restruc.Zydis.{Register}
use restruc.Flo.{Flo}
use restruc.Flo.Cycles.{add_cycle}
use restruc.Recontex.{Externals}
use restruc.Recontex.Nodes.{Edges}
use restruc.Recontex.Coverage
use restruc.Recontex.Paths.{FloContexts, analyze_flo}
use restruc.Recontex.Stack.{make_flo_initial_contexts}
use restruc.Reflo.Search.{Flos}

-- `contexts_` and `next_id_`.
pub record Contexts : Type 0 where
  pub contexts : List (ℕ × FloContexts)
  pub next_id : ℕ

-- `add_cycle(cycle.src, cycle.dst)` for each loop.
unfoldable pub add_cycles : Edges → Flo → Run Flo
add_cycles [] f = done f
add_cycles ((src, dst) ∷ loops) f = add_cycle src dst f >>= λ f'. add_cycles loops f'

-- `contexts_.emplace`, of a map.
unfoldable pub emplace_contexts : ℕ → FloContexts → List (ℕ × FloContexts) → List (ℕ × FloContexts)
emplace_contexts entry_point flo_contexts m =
    if Assoc.contains entry_point m then m else Assoc.emplace entry_point flo_contexts m

module _ (x : Externals) (order : List Register) (fuel : ℕ) where
  -- A function whose paths cannot be found is left without contexts.
  unfoldable pub run_analysis : Flo → Contexts → Run (Flo × Contexts)
  run_analysis f cs = Coverage.analyze fuel f >>= λ covered. elim covered [
    | none ↦ done (f, cs)
    | some (loops, paths) ↦
        make_flo_initial_contexts x.hashers order f.entry_point cs.next_id >>= λ (initial, n).
        analyze_flo x fuel f paths (initial ∷ []) f.entry_point
          (record { flo_contexts = []; next_id = n })
        >>= λ w. add_cycles loops f >>= λ f'. done (
          f',
          record {
            contexts = emplace_contexts f.entry_point w.flo_contexts cs.contexts;
            next_id = w.next_id;
          },
        )
  ]

  unfoldable pub analyze : Flos → Contexts → Run (Flos × Contexts)
  analyze [] cs = done ([], cs)
  analyze ((k, f) ∷ flos) cs = run_analysis f cs >>= λ (f', cs').
      analyze flos cs' >>= λ (flos', cs''). done ((k, f') ∷ flos', cs'')
