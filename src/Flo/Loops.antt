-- ===== src/Flo/Loops.antt =====
-- Cycles by address, and the cycle that starts with the function.
use restruc.Base.{
  ℕ, ◌≤◌, ◌<◌, ◌≡◌, ◌≢◌, refl, sym, ap, ◌∙◌, inl, inr, arith, Bool, true, false, ◌&&◌, ◌||◌, Option,
  none, some, List, [], ◌∷◌, if◌then◌else◌, ltb, leb, ◌==◌, ==_refl, min, Bool-cases, ne→==_false,
}
use restruc.Base.Assoc
use restruc.Base.Assoc.{IsOrdered}
use restruc.Base.Run.{done, fault, ◌>>=◌}
use restruc.Zydis.{Instruction, Register}
use restruc.Flo.{
  Flo, Cycle, ExitCondition, Disassembly, is_any_jump, is_conditional_jump, is_jmp,
  get_jump_destination,
}
use restruc.Flo.Cycles.{
  add_exit_condition, collect, split_at, add_cycle, start_of, leaves_cycle, recorded, cycles_at,
  from_lower_bound, get_cycles,
}

-- Every cycle of a list holds the address.
abbrev pub AllHold : ℕ → List Cycle → Type 0
AllHold address [] = Unit {0}
AllHold address (c ∷ cs) = ((c.first ≤ address) × (address ≤ c.last)) × AllHold address cs

cycles_at-AllHold : (address : ℕ) (m : List (ℕ × Cycle)) → AllHold address (cycles_at address m)
unfolding cycles_at
cycles_at-AllHold address [] = tt
cycles_at-AllHold address ((last, c) ∷ m) =
    elim (Bool-cases (ltb address c.first || ltb c.last address)) [
      | inl e ↦ rw e tt
      | inr e ↦ rw e ((ground arith, ground arith), cycles_at-AllHold address m)
    ]

-- The cycles that `get_cycles` returns hold the address.
pub get_cycles-AllHold : (address : ℕ) (f : Flo) → AllHold address (get_cycles address f)
unfolding get_cycles
get_cycles-AllHold address f = cycles_at-AllHold address (from_lower_bound address f.cycles)

-- No instruction of a list lies below the address.
abbrev AllFrom : ℕ → Disassembly → Type 0
AllFrom first [] = Unit {0}
AllFrom first ((a, ins) ∷ m) = (first ≤ a) × AllFrom first m

add_exit_condition-AllFrom :
    (first : ℕ) (jump_ins : Instruction) (before : Disassembly)
    (conditions : List (Register × ExitCondition))
    → AllFrom first before
    → add_exit_condition first jump_ins before conditions ≡ fault
unfolding add_exit_condition
add_exit_condition-AllFrom first jump_ins [] conditions h = refl
add_exit_condition-AllFrom first jump_ins ((a, ins) ∷ before) conditions h =
    let reached : leb first a ≡ true = ground (arith, h.0) in
    rw reached (add_exit_condition-AllFrom first jump_ins before _ h.1)

find-above : (k low : ℕ) (m : Disassembly) → IsOrdered low m → k < low → Assoc.find k m ≡ none
unfolding Assoc.find
find-above k low [] o h = refl
find-above k low ((j, v) ∷ m) o h =
    let apart : (j == k) ≡ false = ground (arith, o.0) in
    rw apart (find-above k j m o.1 (omega arith))

same_some : (i j : Instruction) → some i ≡ some j → i ≡ j
same_some i j e = cc

find-front :
    (k a : ℕ) (i : Instruction) (m : Disassembly) (b : Bool)
    → (a == k) ≡ b
    → Assoc.find k ((a, i) ∷ m) ≡ (if b then some i else Assoc.find k m)
unfolding Assoc.find
find-front k a i m b e = rw e refl

no_entry : (o : Option Instruction) (j : Instruction) → o ≡ none → o ≡ some j → ⊥
no_entry o j e e' = cc

collect-AllFrom :
    (first last : ℕ) (before entries : Disassembly) (low : ℕ) (j : Instruction)
    (conditions : List (Register × ExitCondition))
    → AllFrom first before
    → first ≤ low
    → IsOrdered low entries
    → Assoc.find last entries ≡ some j
    → is_conditional_jump j.mnemonic ≡ true
    → collect first last before entries conditions ≡ fault
unfolding collect Assoc.find
collect-AllFrom first last before [] low j conditions b l o e c = cc
collect-AllFrom first last before ((a, i) ∷ rest) low j conditions b l o e c =
    elim (Bool-cases (a == last)) [
      | inl s ↦
          let same = same_some i j (sym (find-front last a i rest true s) ∙ e) in
          let conditional = ap (λ z. is_conditional_jump z.mnemonic) same ∙ c in
          let reached : ltb a last ≡ false = ground arith in
          rw (reached, s, conditional, add_exit_condition-AllFrom first i before conditions b) refl
      | inr s ↦ elim (Bool-cases (ltb a last)) [
        | inl t ↦ elim (Bool-cases (leaves_cycle last a i)) [
          | inl v ↦ rw (t, v, add_exit_condition-AllFrom first i before conditions b) refl
          | inr v ↦
              rw (t, v)
                (collect-AllFrom first last ((a, i) ∷ before) rest a j conditions (omega arith, b)
                  (omega arith) o.1 (sym (find-front last a i rest false s) ∙ e) c)
        ]
        | inr t ↦ absurd (
            no_entry (Assoc.find last rest) j (find-above last a rest o.1 (ground arith))
              (sym (find-front last a i rest false s) ∙ e))
      ]
    ]

start_of-entry :
    (first last a : ℕ) (j : Instruction)
    → is_conditional_jump j.mnemonic ≡ true
    → get_jump_destination last j ≡ a
    → a ≢ 0
    → a ≤ first
    → start_of first last j ≡ a
unfolding start_of is_any_jump
start_of-entry first last a j c t z h =
    rw (c, t, ne→==_false a 0 z) (chosen (is_jmp j.mnemonic) first a h)
  where
    chosen :
        (b : Bool) (first a : ℕ)
        → a ≤ first
        → (if (b || true) && true then min first a else first) ≡ a
    chosen true first a h = omega arith
    chosen false first a h = omega arith

pub add_cycle-found :
    (first last : ℕ) (f : Flo) (j : Instruction)
    → Assoc.find last f.disassembly ≡ some j
    → add_cycle first last f ≡ (
        let begin = start_of first last j in
        let (before, from) = split_at begin [] f.disassembly in
        collect begin last before from [] >>= λ found. done (recorded begin last f found))
unfolding add_cycle
add_cycle-found first last f j e = rw (e, add_cycle) refl

-- A cycle whose last instruction jumps back, on a condition, to the function's first instruction is
-- never recorded: the search for the conditions steps back before that instruction.
pub add_cycle-at_entry :
    (first last a : ℕ) (i j : Instruction) (rest : Disassembly) (f : Flo)
    → f.disassembly ≡ (a, i) ∷ rest
    → IsOrdered a rest
    → Assoc.find last f.disassembly ≡ some j
    → is_conditional_jump j.mnemonic ≡ true
    → get_jump_destination last j ≡ a
    → a ≢ 0
    → a ≤ first
    → add_cycle first last f ≡ fault
unfolding add_cycle split_at
add_cycle-at_entry first last a i j rest f d o e c t z h =
    let begin : start_of first last j ≡ a = start_of-entry first last a j c t z h in
    let front : Assoc.find last ((a, i) ∷ rest) ≡ some j = sym (ap (Assoc.find last) d) ∙ e in
    rw (add_cycle-found first last f j e, begin, d, ==_refl a)
      (rw
        (collect-AllFrom a last [] ((a, i) ∷ rest) a j [] tt (omega arith) (omega arith, o) front c)
        refl)
