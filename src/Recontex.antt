-- ===== src/Recontex.antt =====
-- recontex.hxx and recontex.cxx: the emulation of one instruction on one context. The parts of a
-- context are those of Context.antt; the state `next_id_` of the symbols is threaded through every
-- step, also where the code builds a symbol that it then drops, as each `Operand op;` does.
pub mod Operands
pub mod Callbacks
pub mod Instruction
pub mod Emulate
pub mod Stack
pub mod Nodes
pub mod Coverage
pub mod Forward
pub mod Graph
pub mod Slots
pub mod Reading
pub mod Calls
pub mod PushPop
pub mod Zeroing
pub mod Paths
pub mod Analysis
pub mod Splitting
pub mod Propagation
pub mod Widths
use Prim.Native.Nat.{ℕ}
use native.Mathlib.Decide.{ℕ_discrete}
use restruc.Base.{◌≡◌, refl, Bool, true, false, Option, none, some, List, [], ◌∷◌, zero, suc}
use restruc.Value.{Value, ValueContainer, concrete, symbolic, make_symbolic_value}
use restruc.Zydis
use restruc.Zydis.{Register, no_register, qword64}
use restruc.Context.{Hashers}

-- What the emulation takes from outside the repository: `std::hash` at three more types, and the
-- content of the operand slots that Zydis leaves behind the counted ones.
pub record Externals : Type 0 where
  pub hashers : Hashers
  pub hash_reg : ℕ → ℕ
  pub hash_scale : ℕ → ℕ
  pub hash_bool : Bool → ℕ
  pub unused : Zydis.Operand

-- `Recontex::Operand`.
pub record Operand : Type 0 where
  pub value : Value
  pub address : Option ℕ
  pub reg : Register

-- `Operand op;` with the default `Value()`, which makes a symbol.
unfoldable pub new_operand : ℕ → Operand × ℕ
new_operand next_id =
    let (v, next_id') = make_symbolic_value next_id 0 8 0 0 in
    (record { value = v; address = none; reg = no_register }, next_id')

Gpr-discrete : Discrete Zydis.Gpr
Gpr-discrete = hlevel

HighByte-discrete : Discrete Zydis.HighByte
HighByte-discrete = hlevel

unfoldable pub Register-discrete : Discrete Register
unfolding Gpr-discrete HighByte-discrete
Register-discrete = hlevel (Gpr-discrete, HighByte-discrete, ℕ_discrete)

-- `==` of registers.
unfoldable pub same_register : Register → Register → Bool
same_register r q = elim (Register-discrete r q) [ Dec.yes _ ↦ true | Dec.no _ ↦ false ]

-- `instruction.operands[i]`.
unfoldable pub operand_at : Zydis.Operand → List Zydis.Operand → ℕ → Zydis.Operand
operand_at unused [] i = unused
operand_at unused (op ∷ ops) zero = op
operand_at unused (op ∷ ops) (suc i) = operand_at unused ops i

-- `rsp && !rsp->is_symbolic()`, with the number.
unfoldable pub known_number : Option Value → Option ℕ
known_number none = none
known_number (some v) = elim v.container [ concrete n ↦ some n | symbolic s ↦ none ]

pub same_register-whole : (g : Zydis.Gpr) → same_register (qword64 g) no_register ≡ false
unfolding same_register Register-discrete
same_register-whole g = refl

pub same_register_refl : (r : Register) → same_register r r ≡ true
unfolding same_register
same_register_refl r =
    elim (Register-discrete r r)
      as (λ d. (elim d as (λ _. Bool) [ Dec.yes _ ↦ true | Dec.no _ ↦ false ]) ≡ true) [
        | Dec.yes e ↦ refl
        | Dec.no n ↦ absurd (n refl)
      ]
