-- ===== src/Recontex/Callbacks.antt =====
-- recontex.cxx, the tables of `emulate` and its callbacks: what an instruction makes of the value of
-- its destination and that of its source.
use restruc.Base.{
  ℕ, ◌+◌, ◌-◌, ◌*◌, ◌%◌, ◌^◌, Option, none, some, List, [], ◌∷◌, bit_and, bit_or, bit_xor,
  if◌then◌else◌, ltb,
}
use restruc.Hash.{word}
use restruc.Value.{Value, ValueContainer, concrete, symbolic, make_value, make_symbolic_value}
use restruc.Zydis.{
  Mnemonic, Register, qword64, zmm, rax, rcx, rdx, r8, r9, r10, r11, add, sub, or, and, xor, imul,
}

-- `volatile_registers_`.
abbrev pub volatile_registers : List Register
volatile_registers =
    qword64 rax
    ∷ qword64 rcx
    ∷ qword64 rdx
    ∷ qword64 r8
    ∷ qword64 r9
    ∷ qword64 r10
    ∷ qword64 r11
    ∷ zmm 0
    ∷ zmm 1
    ∷ zmm 2
    ∷ zmm 3
    ∷ zmm 4
    ∷ zmm 5
    ∷ []

-- `emulation_callback_actions_`, on 64-bit words; `none` where the table has no entry.
unfoldable pub emulation_callback_action : Mnemonic → Option (ℕ → ℕ → ℕ)
emulation_callback_action add = some (λ dst src. (dst + src) % word)
emulation_callback_action sub = some (λ dst src. (dst + (word - src)) % word)
emulation_callback_action or = some bit_or
emulation_callback_action and = some bit_and
emulation_callback_action xor = some bit_xor
emulation_callback_action imul = some (λ dst src. dst * src % word)
emulation_callback_action _ = none

-- `mask`, the bits of an operand of `size` bytes.
unfoldable pub size_mask : ℕ → ℕ
size_mask size = if ltb size 8 then 2 ^ (size * 8) - 1 else word - 1

-- `(dst & ~mask) | (result & mask)`.
unfoldable pub under_mask : ℕ → ℕ → ℕ → ℕ
under_mask mask dst result = bit_or (bit_and dst (word - 1 - mask)) (bit_and result mask)

-- A callback makes the new value of the destination; the state is `next_id_`.
abbrev pub EmulationCallback : Type 0
EmulationCallback = Value → Value → ℕ → Value × ℕ

move_containers : Value → Value → ValueContainer → ValueContainer → Value
unfolding size_mask under_mask
move_containers dst src (concrete old) (concrete n) =
    let mask = size_mask dst.size in
    make_value src.source (if ltb dst.size 4 then under_mask mask old n else bit_and n mask)
      dst.size
move_containers dst src (symbolic s) (concrete n) =
    make_value src.source (bit_and n (size_mask dst.size)) dst.size
move_containers dst src old (symbolic s) = src

-- The lambda of MOV, MOVZX, MOVSX and MOVSXD.
unfoldable pub move_callback : EmulationCallback
unfolding move_containers
move_callback dst src next_id = (move_containers dst src dst.container src.container, next_id)

help_containers : (ℕ → ℕ → ℕ) → Value → Value → ValueContainer → ValueContainer → ℕ → Value × ℕ
unfolding size_mask under_mask
help_containers action dst src (concrete a) (concrete b) next_id =
    let mask = size_mask dst.size in
    (
      make_value src.source
          (if ltb dst.size 4 then under_mask mask a (action a b) else bit_and (action a b) mask)
          dst.size,
      next_id,
    )
help_containers action dst src (symbolic s) (concrete b) next_id =
    make_symbolic_value next_id src.source dst.size (action s.offset b) s.id
help_containers action dst src a (symbolic s) next_id =
    make_symbolic_value next_id src.source dst.size 0 0

unfoldable pub emulate_instruction_helper : (ℕ → ℕ → ℕ) → EmulationCallback
unfolding help_containers
emulate_instruction_helper action dst src next_id =
    help_containers action dst src dst.container src.container next_id

-- The 8-byte result of INC and DEC, whose `offset` is 1 or the word of -1.
unfoldable pub increased : ℕ → ℕ → ValueContainer → ℕ → Value × ℕ
increased address offset (concrete n) next_id =
    (make_value address ((n + offset) % word) 8, next_id)
increased address offset (symbolic s) next_id =
    make_symbolic_value next_id address 8 ((s.offset + offset) % word) s.id
