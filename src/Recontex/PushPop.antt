-- ===== src/Recontex/PushPop.antt =====
-- PUSH and POP of 64-bit registers.
use restruc.Base.{
  ℕ, ◌+◌, ◌-◌, ◌%◌, ◌<◌, ◌≡◌, refl, sym, ◌∙◌, arith, false, none, some, List, ◌∷◌, ◌==◌,
}
use mathlib.Core.Path.{subst}
use restruc.Base.Run.{done}
use restruc.Hash.{word}
use restruc.Value.{
  Value, ValueContainer, is_symbolic, make_value, set_source, set_size, concrete, symbolic,
}
use restruc.Registers.{is_narrow, from_zydis, promote, register_map, gpr_number}
use restruc.Zydis
use restruc.Zydis.{Register, Instruction, qword64, Gpr, rsp, push, pop, register_operand}
use restruc.Memory
use restruc.Memory.{Memory, top}
use restruc.Memory.Laws.{IsMemory}
use restruc.Memory.ReadBack.{load, set-load_number}
use restruc.Context.{AreHashers, Context, get_register, set_register, set_memory}
use restruc.Context.Laws.{IsContext}
use restruc.Context.Total.{touches, touches_self, set_register-Kept}
use restruc.Recontex.{
  Externals, Operand, known_number, new_operand, operand_at, same_register-whole,
}
use restruc.Recontex.Instruction.{write_operand}
use restruc.Registers.Laws.{is_part}
use restruc.Recontex.Operands.{get_operand}
use restruc.Recontex.Reading.{IsWhole, get_operand-whole}
use restruc.Recontex.Emulate.{emulate_instruction_push, emulate_instruction_pop}

module _ (x : Externals) where
  open x.hashers use {hash_uint, hash_int}

  -- The five calls of the function, each with its result.
  push-steps :
      (i : Instruction) (op : Zydis.Operand) (ops : List Zydis.Operand) (c c₁ : Context)
      (m : Memory) (o : Operand) (address next_id s n z n₁ n₂ p : ℕ)
      → i.operands ≡ op ∷ ops
      → get_register c (qword64 rsp) ≡ done (some (make_value s n z))
      → (n + (word - 8)) % word ≡ p
      → get_operand x op c address next_id ≡ done (o, n₁)
      → set_register x.hashers c (qword64 rsp) (make_value address p 8) ≡ done c₁
      → Memory.set hash_uint hash_int c₁.memory p (set_source address o.value) n₁ ≡ done (m, n₂)
      → emulate_instruction_push x i c address next_id ≡ done (record c₁ { memory = m }, n₂)
  unfolding emulate_instruction_push operand_at set_memory known_number make_value
  push-steps i op ops c c₁ m o address next_id s n z n₁ n₂ p e r moved got w stored =
      rw (r, e, operand_at) (rw (got, moved) (rw (w, stored)))

  -- PUSH of a 64-bit register that holds a number, with RSP at a known number that leaves room,
  -- returns: RSP is eight bytes down and at that address the number is read, with the instruction as
  -- its source; registers other than RSP are as before, and context and memory well formed.
  pub push-load :
      (i : Instruction) (op : Zydis.Operand) (ops : List Zydis.Operand) (g : Gpr) (c : Context)
      (address next_id p m s s' z z' : ℕ)
      → AreHashers x.hashers
      → IsContext c
      → IsMemory c.memory
      → i.operands ≡ op ∷ ops
      → IsWhole op g
      → get_register c (qword64 rsp) ≡ done (some (make_value s (p + 8) z))
      → get_register c (qword64 g) ≡ done (some (make_value s' m z'))
      → p + 8 < top
      → m < word
      → (c' : Context) × (next_id' : ℕ) × (emulate_instruction_push x i c address next_id
          ≡ done (c', next_id'))
        × IsContext c'
        × IsMemory c'.memory
        × (get_register c' (qword64 rsp) ≡ done (some (make_value address p 8)))
        × (load hash_uint hash_int c'.memory p 8 next_id' ≡ done (make_value address m 8))
        × ((q : Register) → touches (qword64 rsp) q ≡ false → get_register c' q ≡ get_register c q)
  unfolding make_value set_source set_size is_narrow get_register known_number is_symbolic
      from_zydis register_map promote
  push-load i op ops g c address next_id p m s s' z z' good k km e whole r q below fits =
      let n₁ = (new_operand next_id).1 in
      let w = set_register-Kept x.hashers good c (qword64 rsp) (make_value address p 8) k in
      let same : IsMemory w.0.memory = subst IsMemory (sym w.3) km in
      let stored =
        set-load_number hash_uint hash_int w.0.memory p address 7 m n₁ same (omega arith) below
          (omega arith) fits in
      let got = get_operand-whole x op c address next_id g (make_value s' m z') whole q in
      (
        record w.0 { memory = stored.0 },
        stored.1,
        push-steps i op ops c w.0 stored.0 _ address next_id s (p + 8) z n₁ stored.1 p e r
            (omega arith) got w.1 stored.2,
        record { file = w.2.file; hash_bound = w.2.hash_bound },
        stored.3,
        w.5 (qword64 rsp) (touches_self (qword64 rsp) 4 refl) refl,
        stored.4,
        w.4,
      )

  pop-steps :
      (i : Instruction) (op : Zydis.Operand) (ops : List Zydis.Operand) (c c₁ c₂ : Context)
      (g : Gpr) (v : Value) (address next_id s n z n₁ : ℕ)
      → i.operands ≡ op ∷ ops
      → get_register c (qword64 rsp) ≡ done (some (make_value s n z))
      → set_register x.hashers c (qword64 rsp) (make_value address ((n + 8) % word) 8) ≡ done c₁
      → get_operand x op c₁ address next_id
        ≡ done (record { value = v; address = none; reg = qword64 g }, n₁)
      → set_register x.hashers c₁ (qword64 g) (set_source address v) ≡ done c₂
      → emulate_instruction_pop x i c address next_id ≡ done (c₂, n₁)
  unfolding emulate_instruction_pop operand_at write_operand known_number make_value
  pop-steps i op ops c c₁ c₂ g v address next_id s n z n₁ e r w got w₂ =
      rw (r, e, operand_at) (rw (w, got) (rw (same_register-whole g, w₂)))

  is_narrow-eight :
      (s : ℕ) (c : ValueContainer)
      → is_narrow (record { source = s; container = c; size = 8 }) ≡ false
  unfolding is_narrow is_symbolic
  is_narrow-eight s (concrete n) = refl
  is_narrow-eight s (symbolic o) = refl

  touches-whole : (g k : Gpr) → touches (qword64 g) (qword64 k) ≡ (gpr_number k == gpr_number g)
  unfolding touches is_part from_zydis promote register_map
  touches-whole g k = refl

  -- POP of a 64-bit register other than RSP moves RSP, at a known number, up by eight bytes, and
  -- stores in the register what the register held before, now with the instruction as its source:
  -- the stack is not read. Memory is as before.
  pub pop-reads_itself :
      (i : Instruction) (op : Zydis.Operand) (ops : List Zydis.Operand) (g : Gpr) (c : Context)
      (v : Value) (address next_id n s z : ℕ)
      → AreHashers x.hashers
      → IsContext c
      → i.operands ≡ op ∷ ops
      → IsWhole op g
      → (gpr_number g == gpr_number rsp) ≡ false
      → get_register c (qword64 rsp) ≡ done (some (make_value s n z))
      → get_register c (qword64 g) ≡ done (some v)
      → (c' : Context) × (next_id' : ℕ) × (emulate_instruction_pop x i c address next_id
          ≡ done (c', next_id'))
        × IsContext c'
        × (get_register c' (qword64 rsp) ≡ done (some (make_value address ((n + 8) % word) 8)))
        × (get_register c' (qword64 g) ≡ done (some (set_source address (set_size 8 v))))
        × (c'.memory ≡ c.memory)
  unfolding make_value set_source set_size is_narrow is_symbolic from_zydis register_map promote
  pop-reads_itself i op ops g c v address next_id n s z good k e whole other r q =
      let w =
        set_register-Kept x.hashers good c (qword64 rsp) (make_value address ((n + 8) % word) 8)
          k in
      let apart : touches (qword64 rsp) (qword64 g) ≡ false = touches-whole rsp g ∙ other in
      let apart' : touches (qword64 g) (qword64 rsp) ≡ false = touches-whole g rsp ∙ ground arith in
      let got = get_operand-whole x op w.0 address next_id g v whole (w.4 (qword64 g) apart ∙ q) in
      let w₂ =
        set_register-Kept x.hashers good w.0 (qword64 g) (set_source address (set_size 8 v)) w.2 in
      (
        w₂.0,
        (new_operand next_id).1,
        pop-steps i op ops c w.0 w₂.0 g (set_size 8 v) address next_id s n z (new_operand next_id).1
            e r w.1 got w₂.1,
        w₂.2,
        w₂.4 (qword64 rsp) apart' ∙ w.5 (qword64 rsp) (touches_self (qword64 rsp) 4 refl) refl,
        w₂.5 (qword64 g) (touches_self (qword64 g) (gpr_number g) refl)
            (is_narrow-eight address v.container),
        w₂.3 ∙ w.3,
      )
