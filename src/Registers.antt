-- ===== src/Registers.antt =====
-- virtual/registers.hxx and virtual/registers.cxx: the 60 tracked registers as a persistent binary
-- tree over [0, REGISTERS_COUNT).
pub mod Names
pub mod Complete
pub mod Initial
pub mod Laws
pub mod Widths
use restruc.Base.{
  ℕ, zero, suc, ◌+◌, ◌*◌, ◌^◌, Bool, true, false, not, ◌&&◌, ◌||◌, Option, none, some, bit_and,
  bit_or, if◌then◌else◌, ◌==◌, ltb,
}
use restruc.Base.Run.{Run, done, fault, out_of_fuel, ◌>>=◌}
use restruc.Trie.{Tree, null, node, leaf, middle_of, decrement, read_leaf}
use restruc.Value.{
  Value, ValueContainer, concrete, symbolic, make_value, make_symbolic_value, is_symbolic,
}
use restruc.Zydis.{
  Gpr, rax, rcx, rdx, rbx, rsp, rbp, rsi, rdi, r8, r9, r10, r11, r12, r13, r14, r15, HighByte, ah,
  ch, dh, bh, Register, low8, word16, dword32, qword64, high8, x87_control, x87_status, x87_tag, st,
  mm, xmm, ymm, zmm, rflags,
}

-- `Registers::Reg` is the number of the enumerator.
abbrev pub registers_count : ℕ
registers_count = 60

unfoldable pub gpr_number : Gpr → ℕ
gpr_number rax = 0
gpr_number rcx = 1
gpr_number rdx = 2
gpr_number rbx = 3
gpr_number rsp = 4
gpr_number rbp = 5
gpr_number rsi = 6
gpr_number rdi = 7
gpr_number r8 = 8
gpr_number r9 = 9
gpr_number r10 = 10
gpr_number r11 = 11
gpr_number r12 = 12
gpr_number r13 = 13
gpr_number r14 = 14
gpr_number r15 = 15

-- `register_map`, as `find` reads it: MM0 is 19, ZMM0 is 27 and RFLAGS 59.
unfoldable pub register_map : Register → Option ℕ
unfolding gpr_number
register_map (qword64 g) = some (gpr_number g)
register_map x87_control = some 16
register_map x87_status = some 17
register_map x87_tag = some 18
register_map (mm n) = if ltb n 8 then some (19 + n) else none
register_map (zmm n) = if ltb n 32 then some (27 + n) else none
register_map rflags = some 59
register_map _ = none

pub high_byte_of : HighByte → Gpr
high_byte_of ah = rax
high_byte_of bh = rbx
high_byte_of ch = rcx
high_byte_of dh = rdx

-- `promote`, through `reg_promotion_map_`: the widest register that holds a part.
unfoldable pub promote : Register → Register
unfolding high_byte_of
promote (low8 g) = qword64 g
promote (high8 h) = qword64 (high_byte_of h)
promote (word16 g) = qword64 g
promote (dword32 g) = qword64 g
promote (st n) = if ltb n 8 then mm n else st n
promote (xmm n) = if ltb n 32 then zmm n else xmm n
promote (ymm n) = if ltb n 32 then zmm n else ymm n
promote r = r

-- `from_zydis` and `is_tracked`.
unfoldable pub from_zydis : Register → Option ℕ
from_zydis r = register_map (promote r)

is_some {ℓ} : {A : Type ℓ} → Option A → Bool
is_some none = false
is_some (some a) = true

unfoldable pub is_tracked : Register → Bool
unfolding is_some from_zydis
is_tracked r = is_some (from_zydis r)

-- `legacy_ho_part_.contains`.
unfoldable pub is_legacy_ho_part : Register → Bool
is_legacy_ho_part (high8 h) = true
is_legacy_ho_part _ = false

-- The loop of `get`, from the node `tree` over [begin, end).
unfoldable pub find_value {ℓ} : {A : Type ℓ} → Tree A → ℕ → ℕ → ℕ → Run A
find_value null begin end reg = fault
find_value (leaf a) begin end reg = fault
find_value (node l r) begin end reg =
    let middle = middle_of begin end in
    let left = find_value l begin middle reg in
    let right = find_value r middle end reg in
    if ltb reg middle
    then if ltb begin (decrement middle) then left else read_leaf l
    else if ltb middle (decrement end)
    then right
    else read_leaf r

-- The loop of `set`: new nodes along the path, the other children shared.
unfoldable pub store_value {ℓ} : {A : Type ℓ} → Tree A → ℕ → ℕ → ℕ → A → Run (Tree A)
store_value null begin end reg v = fault
store_value (leaf a) begin end reg v = fault
store_value (node l r) begin end reg v =
    let middle = middle_of begin end in
    let left = store_value l begin middle reg v in
    let right = store_value r middle end reg v in
    if ltb reg middle
    then ((if ltb begin (decrement middle) then left else done (leaf v)) >>= λ new_l.
        done (node new_l r))
    else (if ltb middle (decrement end) then right else done (leaf v)) >>= λ new_r.
        done (node l new_r)

-- `initialize_holder`: a fresh symbolic value at every leaf, left to right. The state is `next_id_`.
unfoldable pub initialize_holder : ℕ → ℕ → ℕ → ℕ → Run (Tree Value × ℕ)
initialize_holder zero next_id begin end = out_of_fuel
initialize_holder (suc fuel) next_id begin end =
    let middle = middle_of begin end in
    let fresh = λ (n : ℕ). let (v, n') = make_symbolic_value n 0 8 0 0 in done (leaf v, n') in
    let left = initialize_holder fuel next_id begin middle in
    let right = λ (n : ℕ). initialize_holder fuel n middle end in
    (if ltb begin (decrement middle) then left else fresh next_id) >>= λ (l, n).
    (if ltb middle (decrement end) then right n else fresh n) >>= λ (r, n'). done (node l r, n')

-- `Registers(nullptr)`; a child of a parent starts as the parent's tree.
unfoldable pub new_registers : ℕ → Run (Tree Value × ℕ)
unfolding initialize_holder
new_registers next_id = initialize_holder registers_count next_id 0 registers_count

unfoldable pub get : Tree Value → Register → Run (Option Value)
get holder zydis_reg = elim (register_map (promote zydis_reg)) [
  | none ↦ done none
  | some reg ↦ find_value holder 0 registers_count reg >>= λ v. done (some v)
]

-- The three ways to write part of a register: its low word, its low byte, its second byte.
abbrev pub write_low_word : ℕ → ℕ → ℕ
write_low_word old n = bit_or (bit_and old 0xFFFFFFFFFFFF0000) (bit_and n 0xFFFF)

abbrev pub write_low_byte : ℕ → ℕ → ℕ
write_low_byte old n = bit_or (bit_and old 0xFFFFFFFFFFFFFF00) (bit_and n 0xFF)

abbrev pub write_high_byte : ℕ → ℕ → ℕ
write_high_byte old n = bit_or (bit_and old 0xFFFFFFFFFFFF00FF) (bit_and n 0xFF * 2 ^ 8)

merge_over : (ℕ → ℕ → ℕ) → Value → ℕ → ValueContainer → Value
merge_over write value n (concrete old) = make_value value.source (write old n) 8
merge_over write value n (symbolic s) = value

-- Only a concrete register is merged with.
merge_with : (ℕ → ℕ → ℕ) → Value → ℕ → Option Value → Value
unfolding merge_over
merge_with write value n none = value
merge_with write value n (some orig) = merge_over write value n orig.container

merge_concrete : Register → Value → ℕ → Option Value → Value
unfolding merge_with
merge_concrete zydis_reg value n orig =
    if value.size == 2
    then merge_with write_low_word value n orig
    else if value.size == 1
    then merge_with (if not (is_legacy_ho_part zydis_reg) then write_low_byte else write_high_byte)
        value n orig
    else value

merge_container : Register → Value → Option Value → ValueContainer → Value
unfolding merge_concrete
merge_container zydis_reg value orig (concrete n) = merge_concrete zydis_reg value n orig
merge_container zydis_reg value orig (symbolic s) = value

-- The value that `set` stores, from the promoted register and its old value.
unfoldable pub merged_value : Register → Value → Option Value → Value
unfolding merge_container
merged_value zydis_reg value orig = merge_container zydis_reg value orig value.container

-- Whether `set` reads the old value.
unfoldable pub is_narrow : Value → Bool
unfolding is_symbolic
is_narrow value = not (is_symbolic value) && (value.size == 2 || value.size == 1)

unfoldable pub set : Tree Value → Register → Value → Run (Tree Value)
unfolding is_narrow
set holder zydis_reg value =
    let promoted = promote zydis_reg in
    elim (register_map promoted) [
      | none ↦ done holder
      | some reg ↦ do
        orig ← if is_narrow value then get holder promoted else done none
        store_value holder 0 registers_count reg (merged_value promoted value orig)
    ]
