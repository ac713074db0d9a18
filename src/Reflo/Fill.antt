-- ===== src/Reflo/Fill.antt =====
-- reflo.cxx, `fill_flo` and what it calls: the instructions of one function. The decoder is a
-- parameter: it gets an address and the number of bytes up to the end, and `none` is its error, which
-- the code throws as `zyan_error`: what was added until then stays.
use restruc.Base.{
  ℕ, zero, suc, ◌+◌, ◌-◌, ◌%◌, Bool, true, false, not, ◌&&◌, Option, none, some, List, [], ◌∷◌,
  if◌then◌else◌, ltb, ◌==◌,
}
use restruc.Base.Run.{Run, done, fault, out_of_fuel, ◌>>=◌}
use restruc.Hash.{word}
use restruc.Zydis.{Instruction, Mnemonic, ret, jmp, nop, int3}
use restruc.Pe.{Pe, get_end}
use restruc.Flo.{Flo, stops, set_end}
use restruc.Flo.Jumps.{get_unanalized_inner_jump_dst}
use restruc.Flo.Analyze.{analyze}

-- How filling a function ends.
pub data Filled : Type 0 where
  filled : Flo → Filled
  decoder_error : Flo → Filled

unfoldable pub is_tail_mnemonic : Mnemonic → Bool
is_tail_mnemonic ret = true
is_tail_mnemonic jmp = true
is_tail_mnemonic _ = false

unfoldable pub is_inter_flo_filler : Mnemonic → Bool
is_inter_flo_filler nop = true
is_inter_flo_filler int3 = true
is_inter_flo_filler _ = false

-- The loop of `trim_flo`, over the instructions from the last one down; `before` is the address of
-- the one looked at before. There is no test for the first instruction, so where all are fillers, or
-- there is none, the code reads past the front.
trim_from : Option ℕ → List (ℕ × Instruction) → Flo → Run Flo
trim_from before [] f = fault
trim_from before ((address, ins) ∷ rest) f =
    let further = trim_from (some address) rest f in
    if is_inter_flo_filler ins.mnemonic then further else elim before [
      | none ↦ done (set_end ((address + ins.length) % word) f)
      | some filler ↦ done (set_end filler f)
    ]

-- The entries, the last one first.
unfoldable pub from_back {ℓ} : {A : Type ℓ} → List A → List A → List A
from_back [] back = back
from_back (a ∷ l) back = from_back l (a ∷ back)

unfoldable pub trim_flo : Flo → Run Flo
unfolding trim_from
trim_flo f = trim_from none (from_back f.disassembly []) f

-- `flo.end()`, or the end of the section.
unfoldable pub end_of : Pe → Flo → ℕ → Run ℕ
end_of pe f address = elim f.last [ some e ↦ done e | none ↦ get_end pe address ]

module _ (decode : ℕ → ℕ → Option Instruction) where
  -- The inner loop of `fill_flo` and of `post_fill_flo`.
  unfoldable pub fill_loop : ℕ → ℕ → ℕ → Flo → Run Filled
  fill_loop zero end address f = out_of_fuel
  fill_loop (suc fuel) end address f =
      if not (address == 0) && ltb address end
      then elim (decode address (end - address)) [
        | none ↦ done (decoder_error f)
        | some ins ↦
            let (f', result) = analyze address ins f in
            let rest = fill_loop fuel end result.next_address f' in
            if stops result.status then done (filled f') else rest
      ]
      else done (filled f)

  -- The outer loop of `post_fill_flo`. An inner loop takes at most one round for each address.
  unfoldable pub post_fill_flo : ℕ → Pe → Flo → Run Filled
  post_fill_flo zero pe f = out_of_fuel
  post_fill_flo (suc fuel) pe f =
      let address = get_unanalized_inner_jump_dst f in
      if address == 0
      then done (filled f)
      else (end_of pe f address >>= λ end. fill_loop (suc end) end address f >>= λ o. elim o [
        | decoder_error f' ↦ done (decoder_error f')
        | filled f' ↦ post_fill_flo fuel pe f'
      ])

  trim_with_end : Flo → Run Filled
  trim_with_end f = elim f.last [
    | none ↦ done (filled f)
    | some e ↦ trim_flo f >>= λ trimmed. done (filled trimmed)
  ]

  unfoldable pub fill_flo : ℕ → Pe → Flo → Run Filled
  unfolding trim_with_end
  fill_flo fuel pe f = end_of pe f f.entry_point >>= λ end.
      fill_loop (suc end) end f.entry_point f >>= λ o. elim o [
        | decoder_error f' ↦ done (decoder_error f')
        | filled f' ↦ post_fill_flo fuel pe f' >>= λ posted. elim posted [
          | decoder_error f'' ↦ done (decoder_error f'')
          | filled f'' ↦ trim_with_end f''
        ]
      ]
