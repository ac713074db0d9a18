-- ===== src/Restruc.antt =====
-- restruc.hxx and restruc.cxx: the structures of a program are recovered from the memory operands of
-- its functions. The values that serve as base addresses are grouped; each group becomes a structure,
-- and structures are linked where one is reached through another, in a function or across calls.
pub mod Fields
pub mod Groups
pub mod Domains
pub mod Links
pub mod Callers
pub mod Counts
pub mod Once
pub mod Covered
pub mod Analysis
use restruc.Base.{ℕ, List, ◌∷◌, [], Bool, true, false, if◌then◌else◌, ◌==◌, Option, none, some}
use restruc.Base.Assoc
use restruc.Base.Run.{Run, done, fault}
use restruc.Zydis.{Instruction, Operand, Register}
use restruc.Value.{Value}
use restruc.Context.{Context}
use restruc.Flo.{Flo}
use restruc.Recontex.{Externals}
use restruc.Recontex.Paths.{FloContexts}

-- `ZydisElementType`, as far as the code tests it.
pub data ElementType : Type 0 where
  float16 float32 float64 float80 uint_element other_element : ElementType

-- What the analysis takes from outside the repository: besides what the emulation takes, the type of an
-- operand's elements and the numbers of registers, by which `ZydisRegister` keys are ordered.
pub record Surroundings : Type 0 where
  pub externals : Externals
  pub element_type : Operand → ElementType
  pub number_of : Register → ℕ

-- `contexts_` of the emulation, by entry points.
abbrev pub AllContexts : Type 0
AllContexts = List (ℕ × FloContexts)

-- `Recontex::get_contexts`, which throws for a function without contexts.
unfoldable pub get_contexts : AllContexts → Flo → Run FloContexts
get_contexts contexts f = elim (Assoc.find f.entry_point contexts) [
  | none ↦ fault
  | some flo_contexts ↦ done flo_contexts
]

-- `multimap_values`: the contexts at an address.
unfoldable pub contexts_at : ℕ → FloContexts → List Context
contexts_at address [] = []
contexts_at address ((a, c) ∷ m) =
    let rest = contexts_at address m in if a == address then c ∷ rest else rest
