-- ===== src/Restruc/Analysis.antt =====
-- restruc.cxx, `analyze`: the first pass over all functions, then the second over those that have
-- references and structures; and `dump`.
use restruc.Base.{ℕ, Bool, true, false, ◌&&◌, List, [], ◌∷◌, ◌++◌, if◌then◌else◌}
use restruc.Base.Assoc
use restruc.Base.Run.{Run, done, ◌>>=◌}
use restruc.Text.{Text, codes}
use restruc.Flo.{Flo}
use restruc.Reflo.Search.{Reflo, Flos}
use restruc.Struc.{new_struc}
use restruc.Struc.Print.{print}
use restruc.Restruc.{Surroundings, AllContexts}
use restruc.Restruc.Groups.{State}
use restruc.Restruc.Domains.{analyze_flo, name_at}
use restruc.Restruc.Callers.{inter_link_flo_strucs}

unfoldable pub new_state : ℕ → State
new_state next_id = record {
  domains = [];
  strucs = [];
  store = λ i. new_struc;
  names = [];
  next_id = next_id;
}

unfoldable pub has_references : Flo → Bool
has_references f = elim f.references [ [] ↦ false | r ∷ rs ↦ true ]

module _ (s : Surroundings) (size_of : ℕ → ℕ) (reflo : Reflo) (contexts : AllContexts) where
  unfoldable pub analyze_each : Flos → State → Run State
  analyze_each [] st = done st
  analyze_each ((k, f) ∷ flos) st =
      analyze_flo s size_of reflo.pe contexts f st >>= λ st'. analyze_each flos st'

  unfoldable pub link_flos : ℕ → Flos → State → Run State
  unfolding has_references
  link_flos fuel [] st = done st
  link_flos fuel ((k, f) ∷ flos) st =
      (if has_references f && Assoc.contains f.entry_point st.domains
        then inter_link_flo_strucs s size_of reflo contexts fuel f st
        else done st)
      >>= λ st'. link_flos fuel flos st'

  unfoldable pub analyze : ℕ → State → Run State
  analyze fuel st = analyze_each reflo.flos st >>= λ st'. link_flos fuel reflo.flos st'

-- `dump`, over the structures that are still there.
module _ (size_of : ℕ → ℕ) where
  unfoldable pub dump : List (Text × ℕ) → State → Run Text
  dump [] st = done []
  dump ((name, i) ∷ strucs) st = print (name_at st.names) size_of name (st.store i) >>= λ text.
      dump strucs st >>= λ rest. done (text ++ codes "\n" ++ rest)
