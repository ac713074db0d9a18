-- ===== src/Flo/Invariant.antt =====
-- The invariant of a function under analysis.
use restruc.Base.{
  ℕ, ◌≡◌, ◌≢◌, refl, ◌⊎◌, inl, inr, arith, Bool, true, false, Option, none, some, Bool-cases,
}
use restruc.Base.Assoc
use restruc.Base.Assoc.{contains-emplace}
use restruc.Zydis.{Instruction, Mnemonic, call, ret}
use restruc.Flo.{Flo, unknown, is_any_jump}
use restruc.Flo.Analyze.{
  dispatch, analyze_call, analyze_ret, analyze_jump, analyze_other, get_jump_type, type_in_range,
  type_by_guess,
}

-- No unknown jump leads to an instruction of the function: reaching an instruction settles the jumps
-- to it.
unfoldable pub IsSettled : Flo → Type 0
IsSettled f =
    (q : ℕ) → Assoc.contains q f.disassembly ≡ true → Assoc.contains q f.unknown_jumps ≡ false

pub dispatch-cases :
    (m : Mnemonic) (address next_address : ℕ) (ins : Instruction) (f : Flo)
    → (dispatch m address next_address ins f ≡ analyze_call address next_address ins f)
      ⊎ (dispatch m address next_address ins f ≡ analyze_ret next_address f)
      ⊎ (dispatch m address next_address ins f ≡ analyze_jump address next_address ins f)
      ⊎ (dispatch m address next_address ins f ≡ analyze_other next_address ins f)
unfolding dispatch
dispatch-cases call address next_address ins f = inl refl
dispatch-cases ret address next_address ins f = inr (inl refl)
dispatch-cases m address next_address ins f = elim (Bool-cases (is_any_jump m)) [
  | inl e ↦ inr (inr (inl (rw e refl)))
  | inr e ↦ inr (inr (inr (rw e refl)))
]

-- What a jump of unknown type says of the function and the destination.
unfoldable pub IsUnseen : Flo → ℕ → Type 0
IsUnseen f dst =
    (Assoc.contains dst f.disassembly ≡ false)
    × (Assoc.contains dst f.inner_jumps ≡ false)
    × (Assoc.contains dst f.outer_jumps ≡ false)

type_in_range-known : (a e d : ℕ) → type_in_range a e d ≢ unknown
unfolding type_in_range
type_in_range-known a e d = ground arith

type_by_guess-unknown :
    (f : Flo) (dst next_address : ℕ) (unconditional : Bool)
    → type_by_guess f dst next_address unconditional ≡ unknown
    → IsUnseen f dst
unfolding type_by_guess IsUnseen
type_by_guess-unknown f dst next_address unconditional e =
    (ground arith, ground arith, ground arith)

-- A jump is of unknown type only if its destination is neither an instruction of the function nor the
-- destination of a jump whose type is known.
pub get_jump_type-unknown :
    (f : Flo) (dst next_address : ℕ) (unconditional : Bool)
    → get_jump_type f dst next_address unconditional ≡ unknown
    → IsUnseen f dst
unfolding get_jump_type
get_jump_type-unknown f dst next_address unconditional e = at_last f.last e
  where
    at_last :
        (o : Option ℕ)
        → (elim o [
          | some e ↦ type_in_range f.entry_point e dst
          | none ↦ type_by_guess f dst next_address unconditional
        ])
          ≡ unknown
        → IsUnseen f dst
    at_last (some e) t = elim (type_in_range-known f.entry_point e dst t) [ ]
    at_last none t = type_by_guess-unknown f dst next_address unconditional t
