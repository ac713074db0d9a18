-- ===== src/Flo/Destinations.antt =====
-- flo.cxx, `get_jump_destinations`: where a jump can lead, by the contexts that reach it.
use restruc.Base.{
  ℕ, ◌+◌, ◌%◌, ◌^◌, Bool, false, ◌||◌, Option, none, some, List, [], ◌∷◌, if◌then◌else◌, ◌==◌,
}
use restruc.Base.Run.{Run, done, ◌>>=◌}
use restruc.Hash.{word}
use restruc.Zydis.{
  Instruction, Register, register_operand, memory_operand, immediate_operand, other_operand,
}
use restruc.Value.{Value, concrete, symbolic}
use restruc.Pe.{Pe, virtual_to_raw_address}
use restruc.Context.{Context, get_register}

-- `dsts.emplace`, of a set.
unfoldable pub is_known : ℕ → List ℕ → Bool
is_known dst [] = false
is_known dst (d ∷ dsts) = d == dst || is_known dst dsts

unfoldable pub emplace_destination : ℕ → List ℕ → List ℕ
emplace_destination dst dsts = if is_known dst dsts then dsts else dst ∷ dsts

-- One context's value of the register: a virtual address, which is a DWORD for the image.
unfoldable pub add_destination : Pe → Option Value → List ℕ → List ℕ
add_destination pe none dsts = dsts
add_destination pe (some v) dsts = elim v.container [
  | symbolic s ↦ dsts
  | concrete n ↦ elim (virtual_to_raw_address pe (n % 2 ^ 32)) [
    | none ↦ dsts
    | some dst ↦ if dst == 0 then dsts else emplace_destination dst dsts
  ]
]

unfoldable pub register_destinations : Pe → Register → List Context → List ℕ → Run (List ℕ)
register_destinations pe r [] dsts = done dsts
register_destinations pe r (c ∷ cs) dsts =
    get_register c r >>= λ found. register_destinations pe r cs (add_destination pe found dsts)

unfoldable pub get_jump_destinations : Pe → ℕ → Instruction → List Context → Run (List ℕ)
get_jump_destinations pe address ins contexts = elim ins.operands [
  | [] ↦ done []
  | op ∷ ops ↦ elim op.kind [
    | immediate_operand imm ↦ done ((address + ins.length + imm.value) % word ∷ [])
    | register_operand r ↦ register_destinations pe r contexts []
    | memory_operand m ↦ done []
    | other_operand ↦ done []
  ]
]
