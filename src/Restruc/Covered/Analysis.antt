-- ===== src/Restruc/Covered/Analysis.antt =====
-- The whole analysis keeps the structures covered.
use restruc.Base.{ℕ}
use restruc.Base.Assoc
use restruc.Base.Holds.{Holds}
use restruc.Zydis
use restruc.Value.{Value}
use restruc.Context.{Context}
use restruc.Flo.{Flo}
use restruc.Reflo.Search.{Reflo}
use restruc.Restruc.{Surroundings, AllContexts}
use restruc.Restruc.Groups.{State}
use restruc.Restruc.Callers.{Search}
use restruc.Restruc.Covered.Links.{StateCovered}
use restruc.Restruc.Covered.Callers.{SearchCovered}

module _ (s : Surroundings) (size_of : ℕ → ℕ) (reflo : Reflo) (contexts : AllContexts) where
  abbrev OfSearch : Search → Type 0
  OfSearch = SearchCovered s size_of reflo contexts

  abbrev pub OfState : State → Type 0
  OfState = StateCovered s size_of
