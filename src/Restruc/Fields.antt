-- ===== src/Restruc/Fields.antt =====
-- restruc.cxx, `add_struc_field` and `get_field_count`: the field that one memory operand shows.
use restruc.Base.{
  ℕ, ◌/◌, ◌^◌, max, Bool, true, false, not, ◌&&◌, ◌||◌, Option, none, some, List, [], ◌∷◌,
  if◌then◌else◌, ltb, ◌==◌,
}
use restruc.Base.Run.{Run, done, ◌>>=◌}
use restruc.Base.Lookup.{sort_by}
use restruc.Zydis.{
  Instruction, Mnemonic, cmp, jb, jbe, jl, jle, Operand, Register, no_register, MemoryOperand,
  Immediate, register_operand, memory_operand, immediate_operand, other_operand,
}
use restruc.Value.{Value, same_value, raw_address_value}
use restruc.Memory.Convert.{to_value}
use restruc.Context.{Context, get_register, get_memory}
use restruc.Flo.{Flo, Cycle, ExitCondition}
use restruc.Flo.Cycles.{get_cycles}
use restruc.Recontex.{same_register, operand_at, known_number}
use restruc.Recontex.Operands.{get_memory_address}
use restruc.Struc.{Struc, add_float_field, add_int_field}
use restruc.Restruc.{
  Surroundings, ElementType, float16, float32, float64, float80, uint_element, other_element,
  AllContexts, get_contexts, contexts_at,
}

unfoldable pub is_less_than_jump : Mnemonic → Bool
is_less_than_jump jb = true
is_less_than_jump jbe = true
is_less_than_jump jl = true
is_less_than_jump jle = true
is_less_than_jump _ = false

unfoldable pub is_cmp : Mnemonic → Bool
is_cmp cmp = true
is_cmp _ = false

-- The first explicit memory operand.
unfoldable pub get_memory_operand : List Operand → Option (Operand × MemoryOperand)
get_memory_operand [] = none
get_memory_operand (op ∷ ops) = elim op.kind [
  | memory_operand m ↦ if op.is_explicit then some (op, m) else get_memory_operand ops
  | register_operand r ↦ get_memory_operand ops
  | immediate_operand i ↦ get_memory_operand ops
  | other_operand ↦ get_memory_operand ops
]

abbrev pub Conditions : Type 0
Conditions = List (Register × ExitCondition)

-- The first register of the conditions that holds the index in one context of the cycle's last
-- instruction.
unfoldable pub match_conditions : Value → Context → Conditions → Run (Option Register)
match_conditions index c [] = done none
match_conditions index c ((er, ec) ∷ conditions) = get_register c er >>= λ reg. elim reg [
  | none ↦ match_conditions index c conditions
  | some v ↦ if same_value index v then done (some er) else match_conditions index c conditions
]

unfoldable pub match_contexts : Value → List Context → Conditions → Run (Option Register)
match_contexts index [] conditions = done none
match_contexts index (c ∷ cs) conditions = match_conditions index c conditions >>= λ found.
    elim found [ none ↦ match_contexts index cs conditions | some r ↦ done (some r) ]

-- The loops up to the label `exit_reg_found`.
unfoldable pub find_exit_register :
    Register → List Context → List Context → Conditions → Run (Option Register)
find_exit_register index [] exits conditions = done none
find_exit_register index (c ∷ cs) exits conditions = get_register c index >>= λ found. elim found [
  | none ↦ find_exit_register index cs exits conditions
  | some v ↦ match_contexts v exits conditions >>= λ matched. elim matched [
    | none ↦ find_exit_register index cs exits conditions
    | some r ↦ done (some r)
  ]
]

-- An immediate bound counts unless it is signed and not positive.
unfoldable pub immediate_count : Immediate → ℕ → ℕ
immediate_count imm count =
    if not imm.is_signed || (not (imm.value == 0) && ltb imm.value (2 ^ 63))
    then max count imm.value
    else count

unfoldable pub known_count : Option Value → ℕ → ℕ
known_count found count = elim (known_number found) [ none ↦ count | some n ↦ max count n ]

unfoldable pub register_count : Register → List Context → ℕ → Run ℕ
unfolding known_count
register_count r [] count = done count
register_count r (c ∷ cs) count =
    get_register c r >>= λ found. register_count r cs (known_count found count)

module _ (s : Surroundings) where
  open s.externals.hashers use {hash_uint, hash_int}

  unfoldable pub memory_count : ℕ → MemoryOperand → List Context → ℕ → ℕ → Run (ℕ × ℕ)
  unfolding known_count
  memory_count element_size m [] count next_id = done (count, next_id)
  memory_count element_size m (c ∷ cs) count next_id = do
    (address, n₁) ← get_memory_address s.externals c element_size m next_id
    (values, n₂) ← get_memory s.externals.hashers c (raw_address_value address) 8 n₁
    (value, n₃) ← to_value hash_uint hash_int values n₂
    memory_count element_size m cs (known_count (some value) count) n₃

  -- What one condition on the exit register says of the count.
  unfoldable pub condition_count : List Context → ExitCondition → ℕ → ℕ → Run (ℕ × ℕ)
  unfolding is_cmp
  condition_count cs ec count next_id =
      let op2 = operand_at s.externals.unused ec.instruction.operands 1 in
      if is_cmp ec.instruction.mnemonic && is_less_than_jump ec.jump
      then elim op2.kind [
        | immediate_operand imm ↦ done (immediate_count imm count, next_id)
        | register_operand r ↦ register_count r cs count >>= λ n. done (n, next_id)
        | memory_operand m ↦ memory_count op2.element_size m cs count next_id
        | other_operand ↦ done (count, next_id)
      ]
      else done (count, next_id)

  -- The conditions on the exit register, one after the other.
  unfoldable pub conditions_count : Register → List Context → Conditions → ℕ → ℕ → Run (ℕ × ℕ)
  conditions_count r cs [] count next_id = done (count, next_id)
  conditions_count r cs ((er, ec) ∷ conditions) count next_id =
      if same_register er r
      then (condition_count cs ec count next_id >>= λ (n, next_id').
          conditions_count r cs conditions n next_id')
      else conditions_count r cs conditions count next_id

  -- The exit conditions of a cycle are a `std::multimap` by register.
  unfoldable pub ordered_conditions : Cycle → Conditions
  ordered_conditions cycle = sort_by (λ e. s.number_of e.0) cycle.exit_conditions

  unfoldable pub cycles_count :
      Register → List Context → (ℕ → List Context) → List Cycle → ℕ → ℕ → Run (ℕ × ℕ)
  cycles_count index cs exits [] count next_id = done (count, next_id)
  cycles_count index cs exits (cycle ∷ cycles) count next_id =
      let conditions = ordered_conditions cycle in
      find_exit_register index cs (exits cycle.last) conditions >>= λ found. elim found [
        | none ↦ cycles_count index cs exits cycles count next_id
        | some r ↦ conditions_count r cs conditions count next_id >>= λ (n, next_id').
            cycles_count index cs exits cycles n next_id'
      ]

  unfoldable pub get_field_count : AllContexts → Flo → ℕ → MemoryOperand → ℕ → Run (ℕ × ℕ)
  get_field_count contexts f address m next_id = get_contexts contexts f >>= λ flo_contexts.
      elim (get_cycles address f) [
        | [] ↦ done (1, next_id)
        | cycle ∷ cycles ↦
            if same_register m.index no_register
            then done (1, next_id)
            else cycles_count m.index (contexts_at address flo_contexts)
                (λ last. contexts_at last flo_contexts) (cycle ∷ cycles) 1 next_id
      ]

  -- `displacement`, where there is one: `none` if it is negative.
  unfoldable pub field_offset : MemoryOperand → Option ℕ
  field_offset m =
      if m.has_displacement
      then if ltb m.displacement (2 ^ 63) then some m.displacement else none
      else some 0

  unfoldable pub typed_field : (ℕ → ℕ) → ElementType → ℕ → ℕ → ℕ → Struc → Struc
  typed_field size_of float16 offset size count struc =
      add_float_field size_of offset size count struc
  typed_field size_of float32 offset size count struc =
      add_float_field size_of offset size count struc
  typed_field size_of float64 offset size count struc =
      add_float_field size_of offset size count struc
  typed_field size_of float80 offset size count struc =
      add_float_field size_of offset size count struc
  typed_field size_of uint_element offset size count struc =
      add_int_field size_of offset size false count struc
  typed_field size_of other_element offset size count struc =
      add_int_field size_of offset size true count struc

  unfoldable pub add_struc_field :
      (ℕ → ℕ) → AllContexts → Flo → ℕ → Instruction → Struc → ℕ → Run (Struc × ℕ)
  unfolding typed_field
  add_struc_field size_of contexts f address ins struc next_id =
      elim (get_memory_operand ins.operands) [
        | none ↦ done (struc, next_id)
        | some (op, m) ↦ elim (field_offset m) [
          | none ↦ done (struc, next_id)
          | some offset ↦ get_field_count contexts f address m next_id >>= λ (count, next_id').
              if op.element_size == 0
              then done (struc, next_id')
              else done (
                typed_field size_of (s.element_type op) offset (op.element_size / 8) count struc,
                next_id',
              )
        ]
      ]
