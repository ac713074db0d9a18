-- ===== src/Dumper/History.antt =====
-- recontex.cxx, `debug` and the `dump_..._history` functions: where the values that an instruction reads
-- come from, back to the beginning, as text. A `std::unordered_set` of sources stands in the order in
-- which they came.
use restruc.Base.{ℕ, zero, suc, ◌/◌, not, ◌&&◌, none, some, List, [], ◌∷◌, ◌++◌, if◌then◌else◌}
use restruc.Base.Assoc
use restruc.Base.Run.{Run, done, fault, out_of_fuel, ◌>>=◌}
use restruc.Zydis
use restruc.Zydis.{
  Instruction, Register, no_register, rip, OperandType, MemoryOperand, register_operand,
  memory_operand, immediate_operand, other_operand,
}
use restruc.Value.{Value, concrete, symbolic, raw_address_value}
use restruc.Text.{Text, codes, to_hex, padded_to}
use restruc.Pe.{raw_to_virtual_address}
use restruc.Context.{Context, get_register, get_memory}
use restruc.Flo.{Flo, Disassembly}
use restruc.Flo.Destinations.{is_known, emplace_destination}
use restruc.Reflo.Search.{Reflo, Flos, get_flo_by_address}
use restruc.Recontex.{Externals, same_register}
use restruc.Recontex.Operands.{get_memory_address}
use restruc.Recontex.Paths.{FloContexts}
use restruc.Recontex.Stack.{is_history_term_instr, instruction_has_nonstack_memory_access}
use restruc.Restruc.{AllContexts, get_contexts, contexts_at}
use restruc.Dumper.{Formatter, dump_instruction}

-- What was written, the set `visited`, and `next_id_`.
pub record Dump : Type 0 where
  pub text : Text
  pub visited : List ℕ
  pub next_id : ℕ

-- An instruction's history, for its contexts.
abbrev pub Deeper : Type 0
Deeper = ℕ → Instruction → List Context → Dump → Run Dump

unfoldable pub say : Text → Dump → Dump
say t d = record d { text = d.text ++ t }

unfoldable pub visit : ℕ → Dump → Dump
visit source d = record d { visited = source ∷ d.visited }

-- A value that a register holds, in its own layout.
unfoldable pub changed_text : Value → Text
changed_text v = elim v.container [
  | concrete n ↦ codes " " ++ padded_to 16 (to_hex n) ++ codes "      \t"
  | symbolic s ↦
      codes "["
      ++ padded_to 8 (to_hex s.id)
      ++ codes "+"
      ++ padded_to 4 (to_hex s.offset)
      ++ codes "]\t"
]

-- `sources` of `dump_memory_history`.
unfoldable pub sources_of : List Value → List ℕ → List ℕ
sources_of [] sources = sources
sources_of (v ∷ vs) sources = sources_of vs (emplace_destination v.source sources)

module _ (x : Externals) (format : Formatter) (reflo : Reflo) (contexts : AllContexts) where
  -- `*flo->get_disassembly().at(source)` with the contexts there.
  unfoldable pub go_to : Deeper → ℕ → Flo → Dump → Run Dump
  go_to deeper source flo d = elim (Assoc.find source flo.disassembly) [
    | none ↦ fault
    | some ins ↦ get_contexts contexts flo >>= λ flo_contexts.
        deeper source ins (contexts_at source flo_contexts) d
  ]

  -- A value with its history, unless its source was visited.
  unfoldable pub dump_changed : Deeper → Value → Dump → Run Dump
  dump_changed deeper v d = elim (get_flo_by_address reflo v.source) [
    | none ↦ done d
    | some flo ↦
        if is_known v.source d.visited
        then done d
        else (go_to deeper v.source flo (say (changed_text v) (visit v.source d)) >>= λ d'.
            done (say (codes "---\n") d'))
  ]

  unfoldable pub dump_register_history : Deeper → Context → Register → Dump → Run Dump
  dump_register_history deeper c reg d = get_register c reg >>= λ changed. elim changed [
    | none ↦ done d
    | some v ↦ dump_changed deeper v d
  ]

  unfoldable pub dump_sources : Deeper → List ℕ → Dump → Run Dump
  dump_sources deeper [] d = done d
  dump_sources deeper (source ∷ sources) d =
      if is_known source d.visited
      then dump_sources deeper sources d
      else elim (get_flo_by_address reflo source) [
        | none ↦ dump_sources deeper sources d
        | some flo ↦
            go_to deeper source flo (visit source d) >>= λ d'. dump_sources deeper sources d'
      ]

  unfoldable pub dump_memory_history : Deeper → Context → ℕ → MemoryOperand → Dump → Run Dump
  dump_memory_history deeper c element_size m d =
      get_memory_address x c element_size m d.next_id >>= λ (address, n).
      get_memory x.hashers c (raw_address_value address) (element_size / 8) n >>= λ (values, n').
      dump_sources deeper (sources_of values.container []) (record d { next_id = n' })

  unfoldable pub dump_operand : Deeper → Context → Zydis.Operand → Dump → Run Dump
  dump_operand deeper c op d = elim op.kind [
    | register_operand r ↦ if op.is_explicit then dump_register_history deeper c r d else done d
    | memory_operand m ↦
        (if not (same_register m.base no_register) && not (same_register m.base rip)
          then dump_register_history deeper c m.base d
          else done d)
        >>= λ d'.
            (if not (same_register m.index no_register)
              then dump_register_history deeper c m.index d'
              else done d')
            >>= λ d''. dump_memory_history deeper c op.element_size m d''
    | immediate_operand i ↦ done d
    | other_operand ↦ done d
  ]

  unfoldable pub dump_contexts : Deeper → Zydis.Operand → List Context → Dump → Run Dump
  dump_contexts deeper op [] d = done d
  dump_contexts deeper op (c ∷ cs) d =
      dump_operand deeper c op d >>= λ d'. dump_contexts deeper op cs d'

  unfoldable pub dump_operands : Deeper → List Context → List Zydis.Operand → Dump → Run Dump
  dump_operands deeper cs [] d = done d
  dump_operands deeper cs (op ∷ ops) d =
      if not op.is_read
      then dump_operands deeper cs ops d
      else (dump_contexts deeper op cs d >>= λ d'. dump_operands deeper cs ops d')

  -- `visited` is passed by value: the caller's is what it was.
  unfoldable pub dump_instruction_history : ℕ → Deeper
  dump_instruction_history zero address ins cs d = out_of_fuel
  dump_instruction_history (suc fuel) address ins cs d =
      raw_to_virtual_address reflo.pe address >>= λ va. dump_instruction format va ins >>= λ line.
      if is_history_term_instr x.unused ins
      then done (say line d)
      else (dump_operands (dump_instruction_history fuel) cs ins.operands
            (say line (visit address d))
          >>= λ d'. done (record d' { visited = d.visited }))

  unfoldable pub debug_each : ℕ → FloContexts → Disassembly → Dump → Run Dump
  debug_each fuel fc [] d = done d
  debug_each fuel fc ((address, ins) ∷ rest) d =
      if not (instruction_has_nonstack_memory_access ins)
      then debug_each fuel fc rest d
      else (dump_instruction_history fuel address ins (contexts_at address fc) d >>= λ d'.
          debug_each fuel fc rest (say (codes "-----------------------------------------\n") d'))

  unfoldable pub debug : ℕ → Flos → Dump → Run Dump
  debug fuel [] d = done d
  debug fuel ((k, f) ∷ flos) d = get_contexts contexts f >>= λ fc. elim fc [
    | [] ↦ debug fuel flos d
    | c ∷ cs ↦ debug_each fuel (c ∷ cs) f.disassembly d >>= λ d'. debug fuel flos d'
  ]
