-- ===== src/Tests/Machine.antt =====
-- The theorems on hashes, values, registers and contexts, applied.
use restruc.Base.{ℕ, ◌≡◌, refl, false, some, if◌then◌else◌}
use restruc.Base.Run.{done}
use restruc.Trie.{Tree}
use restruc.Value.{Value, make_value, is_symbolic}
use restruc.Value.Compare.{symbol_value}
use restruc.Zydis.{Register, rcx, rdi, word16, qword64}
use restruc.Registers
use restruc.Registers.{
  registers_count, new_registers, register_map, gpr_number, promote, from_zydis, merged_value,
  is_narrow, high_byte_of,
}
use restruc.Registers.Laws.{IsFile, get-set, is_part, old_value}
use restruc.Context.{Context, get_register, set_register}
use restruc.Context.Laws.{IsContext, set_register-Updated, set_register_restore, reads_back}
use restruc.Tests.{
  hashers, hashers-AreHashers, first_file, first_file-IsFile, first_context,
  first_context-IsContext,
}

-- CX and RDI are registers of the file.
cx-tracked : from_zydis (word16 rcx) ≡ some 1
unfolding from_zydis register_map promote gpr_number
cx-tracked = refl

rdi-tracked : from_zydis (qword64 rdi) ≡ some 7
unfolding from_zydis register_map promote gpr_number
rdi-tracked = refl

get-set_example :
    (old : Value) × (t' : Tree Value) × (Registers.get first_file (word16 rcx) ≡ done (some old))
    × (Registers.set first_file (word16 rcx) (make_value 16 5 2) ≡ done t')
    × IsFile t'
    × ((q : Register)
        → Registers.get t' q ≡ (
            if is_part q 1
            then done (
                some (
                  merged_value
                    (promote (word16 rcx))
                    (make_value 16 5 2)
                    (old_value (make_value 16 5 2) old)))
            else Registers.get first_file q))
get-set_example = get-set first_file (word16 rcx) 1 (make_value 16 5 2) first_file-IsFile cx-tracked

-- A value of eight bytes is stored as it is.
wide : (s n : ℕ) → is_narrow (make_value s n 8) ≡ false
unfolding is_narrow make_value is_symbolic
wide s n = refl

symbol_wide : is_narrow (symbol_value 0 8 3 1) ≡ false
unfolding is_narrow is_symbolic
symbol_wide = refl

-- A context in which RDI was written.
abbrev written : Context
written =
    (set_register-Updated hashers first_context (qword64 rdi) 7 (make_value 16 5 8)
      hashers-AreHashers first_context-IsContext rdi-tracked).1

written-IsContext : IsContext written
written-IsContext =
    (set_register-Updated hashers first_context (qword64 rdi) 7 (make_value 16 5 8)
      hashers-AreHashers first_context-IsContext rdi-tracked).4

written-reads : get_register written (qword64 rdi) ≡ done (some (make_value 16 5 8))
written-reads =
    reads_back hashers first_context (qword64 rdi) 7 (make_value 16 5 8)
      (set_register-Updated hashers first_context (qword64 rdi) 7 (make_value 16 5 8)
        hashers-AreHashers first_context-IsContext rdi-tracked)
      rdi-tracked (wide 16 5)

set_register_restore_example :
    (c₁ : Context) × (c₂ : Context) × (set_register hashers written
        (qword64 rdi)
        (symbol_value 0 8 3 1)
      ≡ done c₁)
    × (set_register hashers c₁ (qword64 rdi) (make_value 16 5 8) ≡ done c₂)
    × (c₂.hash ≡ written.hash)
    × ((q : Register)
        → get_register c₂ q
          ≡ (if is_part q 7 then done (some (make_value 16 5 8)) else get_register written q))
set_register_restore_example =
    set_register_restore hashers written (qword64 rdi) 7 (symbol_value 0 8 3 1) (make_value 16 5 8)
      hashers-AreHashers written-IsContext rdi-tracked written-reads symbol_wide (wide 16 5)
