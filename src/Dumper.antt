-- ===== src/Dumper.antt =====
-- dumper.cxx: the text of instructions, functions and values. The decoder library's formatter is the
-- parameter `format`, an instruction at an address as text; `none` is its error, which is thrown.
pub mod History
pub mod Ends
use restruc.Base.{ℕ, ◌+◌, ◌-◌, ◌%◌, ◌^◌, Option, none, some, List, [], ◌∷◌, ◌++◌}
use restruc.Base.Run.{Run, done, fault, ◌>>=◌}
use restruc.Hash.{word}
use restruc.Zydis.{Instruction}
use restruc.Value.{Value, concrete, symbolic}
use restruc.Flo.{Flo, Disassembly}
use restruc.Text.{Text, codes, to_hex, padded_to}

abbrev pub Formatter : Type 0
Formatter = Instruction → ℕ → Option Text

unfoldable pub dump_value : Value → Text
dump_value v = elim v.container [
  | concrete n ↦ codes " " ++ padded_to 16 (to_hex n) ++ codes "      "
  | symbolic s ↦
      codes "["
      ++ padded_to 16 (to_hex s.id)
      ++ codes "+"
      ++ padded_to 4 (to_hex s.offset)
      ++ codes "]"
]

module _ (format : Formatter) where
  unfoldable pub dump_instruction : ℕ → Instruction → Run Text
  dump_instruction va ins = elim (format ins va) [
    | none ↦ fault
    | some buffer ↦ done (padded_to 8 (to_hex va) ++ codes "    " ++ buffer ++ codes "\n")
  ]

  -- The address in memory of each instruction is a DWORD.
  unfoldable pub dump_each : ℕ → ℕ → Disassembly → Run Text
  dump_each entry_point entry_point_va [] = done []
  dump_each entry_point entry_point_va ((address, ins) ∷ d) =
      dump_instruction (((address + (word - entry_point)) % word + entry_point_va) % 2 ^ 32) ins
      >>= λ first. dump_each entry_point entry_point_va d >>= λ rest. done (first ++ rest)

  unfoldable pub dump_flo : Flo → ℕ → Run Text
  dump_flo f entry_point_va = dump_each f.entry_point entry_point_va f.disassembly >>= λ body.
      done (padded_to 8 (to_hex entry_point_va) ++ codes ":\n" ++ body ++ codes "\n")
