-- ===== src/Recontex/Zeroing.antt =====
-- XOR of a register with itself.
use restruc.Base.{ℕ, ◌/◌, ◌≡◌, refl, ◌∙◌, true, false, some, [], ◌∷◌}
use restruc.Base.Run.{done}
use restruc.Value.{Value, make_value, set_source, is_symbolic, make_symbolic_value}
use restruc.Zydis
use restruc.Zydis.{
  Instruction, Immediate, MemoryOperand, Register, Gpr, qword64, no_register, xor, register_operand,
  memory_operand, immediate_operand,
}
use restruc.Registers.{from_zydis, register_map, promote, gpr_number, is_narrow}
use restruc.Context.{AreHashers, Context, get_register}
use restruc.Context.Laws.{IsContext}
use restruc.Context.Total.{touches, touches_self, set_register-Kept}
use restruc.Recontex.{
  Externals, Operand, operand_at, new_operand, same_register, same_register-whole,
  same_register_refl,
}
use restruc.Recontex.Operands.{get_operand}
use restruc.Recontex.Reading.{IsWhole, get_operand-whole}
use restruc.Recontex.Instruction.{result_value, write_operand, emulate_instruction}
use restruc.Recontex.Callbacks.{emulation_callback_action}
use restruc.Recontex.Emulate.{emulate}

module _ (x : Externals) where
  -- XOR with two explicit operands, whose registers are equal, writes 0.
  xor-steps :
      (i : Instruction) (op₀ op₁ flags : Zydis.Operand) (c : Context) (dst src : Operand)
      (address next_id n₁ n₂ : ℕ)
      → i.mnemonic ≡ xor
      → i.operands ≡ op₀ ∷ op₁ ∷ flags ∷ []
      → op₁.is_explicit ≡ true
      → flags.is_explicit ≡ false
      → get_operand x op₀ c address next_id ≡ done (dst, n₁)
      → get_operand x op₁ c address (make_symbolic_value (new_operand n₁).1 0 8 0 0).1
        ≡ done (src, n₂)
      → same_register dst.reg src.reg ≡ true
      → emulate x address i c next_id
        ≡ write_operand x c dst (make_value address 0 (op₁.element_size / 8)) n₂
  unfolding emulate emulate_instruction result_value operand_at new_operand set_source make_value
      emulation_callback_action
  xor-steps i op₀ op₁ flags c dst src address next_id n₁ n₂ x_or ops shown hidden got got' same =
      rw (x_or, emulate, ops, operand_at) (rw got (rw got' (rw shown (rw hidden (rw same)))))

  -- XOR of a 64-bit register with itself, whatever it held: the register reads the number 0, made by
  -- the instruction; registers that are no part of it, and memory, are as before.
  pub xor_self-zero :
      (i : Instruction) (op₀ op₁ flags : Zydis.Operand) (c : Context) (g : Gpr) (v : Value)
      (address next_id : ℕ)
      → AreHashers x.hashers
      → IsContext c
      → i.mnemonic ≡ xor
      → i.operands ≡ op₀ ∷ op₁ ∷ flags ∷ []
      → op₁.is_explicit ≡ true
      → flags.is_explicit ≡ false
      → IsWhole op₀ g
      → IsWhole op₁ g
      → get_register c (qword64 g) ≡ done (some v)
      → (c' : Context) × (next_id' : ℕ) × (emulate x address i c next_id ≡ done (c', next_id'))
        × IsContext c'
        × (get_register c' (qword64 g) ≡ done (some (make_value address 0 8)))
        × (c'.memory ≡ c.memory)
        × ((q : Register) → touches (qword64 g) q ≡ false → get_register c' q ≡ get_register c q)
  unfolding write_operand make_value is_narrow is_symbolic from_zydis register_map promote
  xor_self-zero i op₀ op₁ flags c g v address next_id good k x_or ops shown hidden whole₀ whole₁ r =
      let n₁ = (new_operand next_id).1 in
      let made = (make_symbolic_value (new_operand n₁).1 0 8 0 0).1 in
      let n₂ = (new_operand made).1 in
      let got = get_operand-whole x op₀ c address next_id g v whole₀ r in
      let got' = get_operand-whole x op₁ c address made g v whole₁ r in
      let same = same_register_refl (qword64 g) in
      let zero = make_value address 0 8 in
      let w = set_register-Kept x.hashers good c (qword64 g) zero k in
      let steps =
        xor-steps i op₀ op₁ flags c _ _ address next_id n₁ n₂ x_or ops shown hidden got got' same in
      (
        w.0,
        n₂,
        steps ∙ rw (same_register-whole g, whole₁.1) (rw w.1),
        w.2,
        w.5 (qword64 g) (touches_self (qword64 g) (gpr_number g) refl) refl,
        w.3,
        w.4,
      )
