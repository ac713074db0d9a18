-- ===== src/Tests/Histories.antt =====
-- The theorem on histories, applied; and the text of values.
use restruc.Base.{◌<◌, ◌≡◌, refl, arith, false, some, [], ◌∷◌}
use restruc.Base.Ends.{Stops}
use restruc.Zydis.{Instruction, mov, MemoryOperand, memory_operand, qword64, rcx, no_register}
use restruc.Value.{make_value}
use restruc.Text.{codes, to_hex, digits, digit, zeros, width, padded_to}
use restruc.Context.{Context}
use restruc.Context.Total.{set_register-Kept}
use restruc.Flo.{Flo}
use restruc.Reflo.Search.{Reflo}
use restruc.Restruc.{AllContexts}
use restruc.Dumper.{Formatter, dump_value}
use restruc.Dumper.History.{Dump, debug}
use restruc.Dumper.Ends.Unseen.{keys, addresses, addresses_count}
use restruc.Dumper.Ends.Debug.{debug_ends}
use restruc.Tests.{hashers, hashers-AreHashers}
use restruc.Tests.Flow.{started}
use restruc.Tests.Image.{image}
use restruc.Tests.Emulation.{externals, ready, ready-IsReady, rcx_operand}

-- `mov rcx, [rcx]`.
abbrev at_rcx : MemoryOperand
at_rcx = record {
  base = qword64 rcx;
  index = no_register;
  scale = 1;
  has_displacement = false;
  displacement = 0;
}

abbrev load_rcx : Instruction
load_rcx = record {
  mnemonic = mov;
  length = 8;
  operands = rcx_operand ∷ record rcx_operand { kind = memory_operand at_rcx } ∷ [];
}

abbrev loading : Flo
loading = record started { entry_point = 10; disassembly = (16, load_rcx) ∷ (24, load_rcx) ∷ [] }

abbrev loaded : Reflo
loaded = record {
  pe = image;
  created_flos = 10 ∷ [];
  flos = (10, loading) ∷ [];
  unprocessed_flos = [];
}

-- The source of RCX is the instruction at 16.
abbrev pointing : Context
pointing =
    (set_register-Kept hashers hashers-AreHashers ready (qword64 rcx) (make_value 16 77 8)
      ready-IsReady.0).0

abbrev loaded_contexts : AllContexts
loaded_contexts = (10, (16, pointing) ∷ (24, pointing) ∷ []) ∷ []

abbrev plain : Formatter
plain ins va = some (codes "mov")

abbrev nothing_yet : Dump
nothing_yet = record { text = []; visited = []; next_id = 1 }

loaded-enough : addresses_count (addresses loaded.flos) < 3
unfolding addresses keys addresses_count
loaded-enough = omega arith

debug_ends_example : Stops (debug externals plain loaded loaded_contexts 3 loaded.flos nothing_yet)
debug_ends_example = debug_ends externals plain loaded loaded_contexts 3 nothing_yet loaded-enough

dump_value-number : dump_value (make_value 16 77 8) ≡ codes " 000000000000004d      "
unfolding dump_value make_value padded_to to_hex digits digit zeros width
dump_value-number = refl
